-- ===== src/Pane/Tests.antt =====
-- Runs of panes and pane tables: crates/tepegoz-pty/src/lib.rs, crates/tepegoz-core/src.
use tepegoz.Prelude.{ℕ, suc, ◌≡◌, refl, none, some, List, [], ◌∷◌, ◌++◌, arith, map}
use tepegoz.Pane.{
  Pane, update, bytes, exit, Scrollback, new_scrollback, snapshot, subscribe, broadcast,
}
use tepegoz.Pane.Ring.{new_scrollback-IsValid}
use tepegoz.Pane.Local.{fresh}
use tepegoz.Pane.Remote.{store_data, send_data, remote_sees_twice}
use tepegoz.Pane.Forward.{
  pane_snapshot, pane_output, pane_exit, forward_pane, forward_remote_pane, chunks_of,
  forward_pane-chunks,
}
use tepegoz.Pane.Manager.{Manager, new_local, new_remote, open_local, get}
use tepegoz.Pane.Manager.Ids.{GivenOut}
use tepegoz.Pane.Manager.Runs.{Call, opens, run_local, run_remote, ids_disjoint}

abbrev ring : Scrollback
ring = new_scrollback 4

abbrev abc : List ℕ
abc = b'a' ∷ b'b' ∷ b'c' ∷ []

abbrev pane : Pane
pane = fresh 24 80 4

remote_sees_twice_example :
    (kept : List ℕ) × ((send_data (subscribe (store_data pane abc)) abc).receivers
      ≡ broadcast (bytes abc) pane.receivers
        ++ record { replay = kept ++ abc; received = []; queue = bytes abc ∷ []; missed = 0 } ∷ [])
remote_sees_twice_example =
    remote_sees_twice pane abc (new_scrollback-IsValid 4) (unfold new_scrollback in omega arith)

forward_pane-chunks_example :
    (forward_pane pane pane none (chunks_of (abc ∷ []) ++ update (exit (some 0)) ∷ []) (suc 7)
      ≡ pane_snapshot (snapshot pane.scrollback) 24 80
        ∷ (map pane_output (abc ∷ []) ++ pane_exit (some 0) ∷ []))
    × (forward_remote_pane pane pane (chunks_of (abc ∷ []) ++ update (exit (some 0)) ∷ []) (suc 7)
        ≡ pane_snapshot (snapshot pane.scrollback) 24 80
          ∷ (map pane_output (abc ∷ []) ++ pane_exit (some 0) ∷ []))
forward_pane-chunks_example =
    forward_pane-chunks pane pane none (some 0) (abc ∷ []) [] 7 refl (omega arith)

new_local-GivenOut : GivenOut {P = ℕ} 1 new_local
unfolding new_local
new_local-GivenOut = record { given = tt; from = omega arith }

abbrev one_pane : Manager ℕ
one_pane = record { panes = (1, 5) ∷ []; next_id = 2 }

abbrev calls : List (Call ℕ)
calls = opens (some 5) ∷ []

ids_disjoint_example : get (run_remote new_remote calls) 1 ≡ none
ids_disjoint_example =
    ids_disjoint calls calls 1 5 (omega arith) (omega arith)
      (unfold get run_local new_local open_local in refl)
