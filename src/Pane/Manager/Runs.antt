-- ===== src/Pane/Manager/Runs.antt =====
-- Any calls of the two tables: a pane id names a local pane or a remote one, never both.
use tepegoz.Prelude.{
  ℕ, ◌+◌, ◌≤◌, ◌<◌, ◌≡◌, Option, none, some, List, [], ◌∷◌, arith, length, Option-cases, inl, inr,
}
use tepegoz.Pane.Manager.{
  Manager, lookup, new_local, new_remote, open_local, open_remote, get, close, take_id, insert,
  u64_mod, remote_base,
}
use tepegoz.Pane.Manager.Ids.{
  GivenOut, Between-remove, lookup-outside, insert-GivenOut, take_id-GivenOut,
}

pub data Call {ℓ} (P : Type ℓ) : Type ℓ where
  opens : Option P → Call P
  closes : ℕ → Call P

module _ {ℓ} {P : Type ℓ} where
  -- A close that fails changes nothing.
  abbrev or_same : Manager P → Option (Manager P) → Manager P
  or_same m none = m
  or_same m (some m') = m'

  unfoldable pub run_local : Manager P → List (Call P) → Manager P
  unfolding open_local close
  run_local m [] = m
  run_local m (opens o ∷ cs) = run_local (open_local m o).0 cs
  run_local m (closes id ∷ cs) = run_local (or_same m (close m id)) cs

  unfoldable pub run_remote : Manager P → List (Call P) → Manager P
  unfolding open_remote close
  run_remote m [] = m
  run_remote m (opens o ∷ cs) = run_remote (open_remote m o).0 cs
  run_remote m (closes id ∷ cs) = run_remote (or_same m (close m id)) cs

  -- The table after at most `k` more ids.
  abbrev Within : ℕ → ℕ → Manager P → Type 0
  Within lo top m = GivenOut lo m × (m.next_id ≤ top)

  close-Within :
      (lo top : ℕ) (m : Manager P) (id : ℕ)
      → Within lo top m
      → Within lo top (or_same m (close m id))
  unfolding close
  close-Within lo top m id h = elim (Option-cases (lookup id m.panes)) [
    | inl e ↦ rw (e, or_same) h
    | inr (p, e) ↦
        rw (e, or_same)
          (
            record { given = Between-remove lo m.next_id id m.panes h.0.given; from = h.0.from },
            h.1,
          )
  ]

  open_local-Within :
      (lo top : ℕ) (m : Manager P) (o : Option P)
      → top + 1 < u64_mod
      → Within lo top m
      → Within lo (top + 1) (open_local m o).0
  unfolding open_local take_id insert
  open_local-Within lo top m none h g = (take_id-GivenOut lo m (omega arith) g.0, omega arith)
  open_local-Within lo top m (some p) h g = (insert-GivenOut lo m p (omega arith) g.0, omega arith)

  open_remote-Within :
      (lo top : ℕ) (m : Manager P) (o : Option P)
      → top + 1 < u64_mod
      → Within lo top m
      → Within lo (top + 1) (open_remote m o).0
  unfolding open_remote take_id insert
  open_remote-Within lo top m none h g = (g.0, omega arith)
  open_remote-Within lo top m (some p) h g = (insert-GivenOut lo m p (omega arith) g.0, omega arith)

  run_local-Within :
      (lo top : ℕ) (m : Manager P) (cs : List (Call P))
      → top + length cs < u64_mod
      → Within lo top m
      → Within lo (top + length cs) (run_local m cs)
  unfolding run_local
  run_local-Within lo top m [] h g = (g.0, omega arith)
  run_local-Within lo top m (opens o ∷ cs) h g =
      let (a, b) =
        run_local-Within lo (top + 1) (open_local m o).0 cs (omega arith)
          (open_local-Within lo top m o (omega arith) g) in
      (a, omega arith)
  run_local-Within lo top m (closes id ∷ cs) h g =
      let (a, b) =
        run_local-Within lo top (or_same m (close m id)) cs (omega arith)
          (close-Within lo top m id g) in
      (a, omega arith)

  run_remote-Within :
      (lo top : ℕ) (m : Manager P) (cs : List (Call P))
      → top + length cs < u64_mod
      → Within lo top m
      → Within lo (top + length cs) (run_remote m cs)
  unfolding run_remote
  run_remote-Within lo top m [] h g = (g.0, omega arith)
  run_remote-Within lo top m (opens o ∷ cs) h g =
      let (a, b) =
        run_remote-Within lo (top + 1) (open_remote m o).0 cs (omega arith)
          (open_remote-Within lo top m o (omega arith) g) in
      (a, omega arith)
  run_remote-Within lo top m (closes id ∷ cs) h g =
      let (a, b) =
        run_remote-Within lo top (or_same m (close m id)) cs (omega arith)
          (close-Within lo top m id g) in
      (a, omega arith)

  -- After any calls, fewer than 2^32 of the local table and fewer than 2^63 of the remote one, an
  -- id that names a local pane names no remote pane.
  pub ids_disjoint :
      (local remote : List (Call P)) (id : ℕ) (p : P)
      → length local + 1 < remote_base
      → length remote < 9223372036854775808
      → get (run_local new_local local) id ≡ some p
      → get (run_remote new_remote remote) id ≡ none
  unfolding get
  ids_disjoint local remote id p hl hr h =
      elim (Option-cases (lookup id (run_remote new_remote remote).panes)) [
        | inl e ↦ e
        | inr (q, e) ↦
            let (a, b) =
              run_local-Within 1 1 new_local local (omega arith)
                (unfold new_local in (record { given = tt; from = omega arith }, omega arith)) in
            let (c, d) =
              run_remote-Within remote_base remote_base new_remote remote (omega arith)
                (unfold new_remote in (record { given = tt; from = omega arith }, omega arith)) in
            absurd (
              omega (
                arith,
                lookup-outside 1 _ id _ p a.given h,
                lookup-outside remote_base _ id _ q c.given e,
              ))
      ]
