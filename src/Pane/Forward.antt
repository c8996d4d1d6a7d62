-- ===== src/Pane/Forward.antt =====
-- What the daemon sends a client of a pane: `forward_pane` and `forward_remote_pane` of
-- crates/tepegoz-core/src/client.rs, which differ only where the channel is closed.
use tepegoz.Prelude.{
  ℕ, zero, suc, ◌<◌, ◌≡◌, refl, ap, Bool, true, false, not, Option, List, [], ◌∷◌, ◌++◌, arith,
  length, map, if◌then◌else◌,
}
use tepegoz.Pane.{Pane, bytes, exit, snapshot, Received, update, lagged, closed}

pub data PaneEvent : Type 0 where
  pane_snapshot : List ℕ → ℕ → ℕ → PaneEvent
  pane_output : List ℕ → PaneEvent
  pane_exit : Option ℕ → PaneEvent
  pane_lagged : ℕ → PaneEvent

-- `event_tx.send(…)`, to a client that takes `accepts` more envelopes: the rest of the function runs
-- if the envelope is taken.
send_then : ℕ → PaneEvent → (ℕ → List PaneEvent) → List PaneEvent
send_then zero e rest = []
send_then (suc accepts) e rest = e ∷ rest accepts

-- The receive loop. `at_close` is what is sent where the channel is closed.
forward_updates : (ℕ → List PaneEvent) → List Received → ℕ → List PaneEvent
unfolding send_then
forward_updates at_close [] accepts = []
forward_updates at_close (update (bytes b) ∷ rs) accepts =
    send_then accepts (pane_output b) (forward_updates at_close rs)
forward_updates at_close (update (exit c) ∷ rs) accepts = send_then accepts (pane_exit c) (λ _. [])
forward_updates at_close (lagged n ∷ rs) accepts =
    send_then accepts (pane_lagged n) (forward_updates at_close rs)
forward_updates at_close (closed ∷ rs) accepts = at_close accepts

-- `p` is the pane at the subscription, `q` when its size and its life are read.
forward : Pane → Pane → (ℕ → List PaneEvent) → List Received → ℕ → List PaneEvent
unfolding forward_updates
forward p q at_close received accepts =
    send_then accepts (pane_snapshot (snapshot p.scrollback) q.rows q.cols) λ left.
      if not q.alive
      then send_then left (pane_exit q.exit_code) (λ _. [])
      else forward_updates at_close received left

-- `code` is `pane.exit_code()` when the channel is closed.
unfoldable pub forward_pane : Pane → Pane → Option ℕ → List Received → ℕ → List PaneEvent
unfolding forward
forward_pane p q code = forward p q (λ n. send_then n (pane_exit code) (λ _. []))

unfoldable pub forward_remote_pane : Pane → Pane → List Received → ℕ → List PaneEvent
unfolding forward
forward_remote_pane p q = forward p q (λ _. [])

abbrev pub IsExit : PaneEvent → Type 0
IsExit (pane_exit c) = Unit
IsExit _ = ⊥

-- An exit event stands nowhere but at the end.
abbrev pub ExitsLast : List PaneEvent → Type 0
ExitsLast [] = Unit
ExitsLast (e ∷ []) = Unit
ExitsLast (e ∷ f ∷ es) = (¬ (IsExit e)) × ExitsLast (f ∷ es)

ExitsLast-cons :
    (e : PaneEvent) (es : List PaneEvent) → ¬ (IsExit e) → ExitsLast es → ExitsLast (e ∷ es)
ExitsLast-cons e [] h l = tt
ExitsLast-cons e (f ∷ es) h l = (h, l)

exit_alone : (c : Option ℕ) (n : ℕ) → ExitsLast (send_then n (pane_exit c) (λ _. []))
unfolding send_then
exit_alone c zero = tt
exit_alone c (suc n) = tt

ExitsLast-if :
    (b : Bool) (es fs : List PaneEvent)
    → ExitsLast es
    → ExitsLast fs
    → ExitsLast (if b then es else fs)
ExitsLast-if true es fs h k = h
ExitsLast-if false es fs h k = k

module _ (at_close : ℕ → List PaneEvent) (h : (n : ℕ) → ExitsLast (at_close n)) where
  forward_updates-ExitsLast :
      (rs : List Received) (accepts : ℕ) → ExitsLast (forward_updates at_close rs accepts)
  unfolding forward_updates
  forward_updates-ExitsLast [] accepts = tt
  forward_updates-ExitsLast (update (bytes b) ∷ rs) zero = tt
  forward_updates-ExitsLast (update (bytes b) ∷ rs) (suc n) =
      ExitsLast-cons (pane_output b) _ (λ x. x) (forward_updates-ExitsLast rs n)
  forward_updates-ExitsLast (update (exit c) ∷ rs) zero = tt
  forward_updates-ExitsLast (update (exit c) ∷ rs) (suc n) = tt
  forward_updates-ExitsLast (lagged k ∷ rs) zero = tt
  forward_updates-ExitsLast (lagged k ∷ rs) (suc n) =
      ExitsLast-cons (pane_lagged k) _ (λ x. x) (forward_updates-ExitsLast rs n)
  forward_updates-ExitsLast (closed ∷ rs) accepts = h accepts

  forward-ExitsLast :
      (p q : Pane) (received : List Received) (accepts : ℕ)
      → ExitsLast (forward p q at_close received accepts)
  unfolding forward
  forward-ExitsLast p q received zero = tt
  forward-ExitsLast p q received (suc n) =
      ExitsLast-cons (pane_snapshot (snapshot p.scrollback) q.rows q.cols) _ (λ x. x)
        (ExitsLast-if (not q.alive) _ _ (exit_alone q.exit_code n)
          (forward_updates-ExitsLast received n))

abbrev pub chunks_of : List (List ℕ) → List Received
chunks_of = map (λ b. update (bytes b))

forward_updates-chunks :
    (at_close : ℕ → List PaneEvent) (c : Option ℕ) (chunks : List (List ℕ)) (rest : List Received)
    (n : ℕ)
    → length chunks < n
    → forward_updates at_close (chunks_of chunks ++ update (exit c) ∷ rest) n
      ≡ map pane_output chunks ++ pane_exit c ∷ []
unfolding forward_updates
forward_updates-chunks at_close c chunks rest zero h = elim h [ ]
forward_updates-chunks at_close c [] rest (suc n) h = refl
forward_updates-chunks at_close c (b ∷ chunks) rest (suc n) h =
    ap (λ l. pane_output b ∷ l) (forward_updates-chunks at_close c chunks rest n (omega arith))

forward-chunks :
    (p q : Pane) (at_close : ℕ → List PaneEvent) (c : Option ℕ) (chunks : List (List ℕ))
    (rest : List Received) (n : ℕ)
    → q.alive ≡ true
    → length chunks < n
    → forward p q at_close (chunks_of chunks ++ update (exit c) ∷ rest) (suc n)
      ≡ pane_snapshot (snapshot p.scrollback) q.rows q.cols
        ∷ (map pane_output chunks ++ pane_exit c ∷ [])
unfolding forward
forward-chunks p q at_close c chunks rest n a h = rw a (
    ap (λ l. pane_snapshot (snapshot p.scrollback) q.rows q.cols ∷ l)
      (forward_updates-chunks at_close c chunks rest n h))

-- Whatever the receiver returns and whenever the client stops listening, nothing is sent after an
-- exit event, of a local pane and of a remote one.
pub forward_pane-ExitsLast :
    (p q : Pane) (code : Option ℕ) (received : List Received) (accepts : ℕ)
    → ExitsLast (forward_pane p q code received accepts)
      × ExitsLast (forward_remote_pane p q received accepts)
unfolding forward_pane forward_remote_pane
forward_pane-ExitsLast p q code received accepts = (
  forward-ExitsLast _ (exit_alone code) p q received accepts,
  forward-ExitsLast _ (λ n. tt) p q received accepts,
)

-- A client that goes on listening to a live pane, local or remote, is sent the snapshot, then each
-- chunk in order, then the exit, and nothing of what the receiver returns behind the exit.
pub forward_pane-chunks :
    (p q : Pane) (code c : Option ℕ) (chunks : List (List ℕ)) (rest : List Received) (n : ℕ)
    → q.alive ≡ true
    → length chunks < n
    → (forward_pane p q code (chunks_of chunks ++ update (exit c) ∷ rest) (suc n)
        ≡ pane_snapshot (snapshot p.scrollback) q.rows q.cols
          ∷ (map pane_output chunks ++ pane_exit c ∷ []))
      × (forward_remote_pane p q (chunks_of chunks ++ update (exit c) ∷ rest) (suc n)
          ≡ pane_snapshot (snapshot p.scrollback) q.rows q.cols
            ∷ (map pane_output chunks ++ pane_exit c ∷ []))
unfolding forward_pane forward_remote_pane
forward_pane-chunks p q code c chunks rest n a h =
    (forward-chunks p q _ c chunks rest n a h, forward-chunks p q _ c chunks rest n a h)
