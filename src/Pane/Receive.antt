-- ===== src/Pane/Receive.antt =====
-- What a subscriber of a pane gets of the updates that are sent: `tokio::sync::broadcast` as the panes of
-- crates/tepegoz-pty/src/lib.rs use it.
use tepegoz.Prelude.{
  ℕ, zero, suc, ◌≡◌, ◌≤◌, ◌⊎◌, inl, inr, arith, leb, length, length-append, Bool-cases, refl, ap,
  ◌∙◌, List, [], ◌∷◌, ◌++◌, append_assoc, All, list_laws,
}
use tepegoz.Pane.{
  PaneUpdate, bytes, exit, Receiver, Received, update, lagged, channel_capacity, push, recv_of,
  receive_at, broadcast,
}

abbrev pub streamed : List PaneUpdate → List ℕ
streamed [] = []
streamed (bytes chunk ∷ us) = chunk ++ streamed us
streamed (exit code ∷ us) = streamed us

-- The updates that the results of a receiver stand for: an update for itself, and `Lagged` with a
-- number for that many updates which were lost.
pub data StandFor : List Received → List PaneUpdate → Type 0 where
  nothing : StandFor [] []
  one :
      (u : PaneUpdate) {rs : List Received} {us : List PaneUpdate}
      → StandFor rs us
      → StandFor (update u ∷ rs) (u ∷ us)
  gap :
      (lost : List PaneUpdate) (n : ℕ) {rs : List Received} {us : List PaneUpdate}
      → length lost ≡ n
      → StandFor rs us
      → StandFor (lagged n ∷ rs) (lost ++ us)

-- The replay, the updates that the results so far stand for, those missed since and those that wait
-- are the end of the output. No more wait than the channel holds, and none is missed unless it is full.
abbrev pub SeesOnce : List ℕ → Receiver → Type 0
SeesOnce output r =
    (gone : List ℕ) × (seen : List PaneUpdate) × (lost : List PaneUpdate) × StandFor r.received seen
    × (length lost ≡ r.missed)
    × (length r.queue ≤ channel_capacity)
    × ((r.missed ≡ 0) ⊎ (length r.queue ≡ channel_capacity))
    × (gone ++ (r.replay ++ streamed (seen ++ (lost ++ r.queue))) ≡ output)

streamed-append : (us vs : List PaneUpdate) → streamed (us ++ vs) ≡ streamed us ++ streamed vs
streamed-append [] vs = refl
streamed-append (bytes chunk ∷ us) vs = rw (streamed-append us vs, append_assoc)
streamed-append (exit code ∷ us) vs = streamed-append us vs

StandFor-append :
    {rs rs' : List Received} {us us' : List PaneUpdate}
    → StandFor rs us
    → StandFor rs' us'
    → StandFor (rs ++ rs') (us ++ us')
StandFor-append nothing k = k
StandFor-append (one u h) k = one u (StandFor-append h k)
StandFor-append (gap lost n e h) k = rw append_assoc (gap lost n e (StandFor-append h k))

ends :
    (gone replay : List ℕ) (us : List PaneUpdate) (u : PaneUpdate) (output : List ℕ)
    → gone ++ (replay ++ streamed us) ≡ output
    → gone ++ (replay ++ streamed (us ++ u ∷ [])) ≡ output ++ streamed (u ∷ [])
ends gone replay us u output e = rw (← e) (rw (streamed-append us (u ∷ [])) (simp append_assoc))

push-SeesOnce :
    (output : List ℕ) (u : PaneUpdate) (replay : List ℕ) (received : List Received)
    (queue : List PaneUpdate) (missed : ℕ)
    → let r : Receiver = record {
      replay = replay;
      received = received;
      queue = queue;
      missed = missed;
    } in
      SeesOnce output r → SeesOnce (output ++ streamed (u ∷ [])) (push u r)
unfolding push
push-SeesOnce output u replay received [] missed (gone, seen, lost, s, l, b, f, e) =
    let at_end : seen ++ (lost ++ u ∷ []) ≡ (seen ++ (lost ++ [])) ++ u ∷ [] = simp list_laws in
    (
      gone,
      seen,
      lost,
      s,
      l,
      omega arith,
      ground (arith, f),
      ap (λ us. gone ++ (replay ++ streamed us)) at_end
          ∙ ends gone replay (seen ++ (lost ++ [])) u output e,
    )
push-SeesOnce output u replay received (q ∷ qs) missed (gone, seen, lost, s, l, b, f, e) =
    elim (Bool-cases (leb channel_capacity (length (q ∷ qs)))) [
      | inl full ↦
          let at_end : seen ++ ((lost ++ q ∷ []) ++ (qs ++ u ∷ []))
              ≡ (seen ++ (lost ++ q ∷ qs)) ++ u ∷ [] =
            simp list_laws in
          let fits : length (qs ++ u ∷ []) ≡ channel_capacity =
            rw length-append (ground (arith, b, full)) in
          rw full (
            gone,
            seen,
            lost ++ q ∷ [],
            s,
            rw length-append (omega (arith, l)),
            omega (arith, fits),
            inr fits,
            ap (λ us. gone ++ (replay ++ streamed us)) at_end
                ∙ ends gone replay (seen ++ (lost ++ q ∷ qs)) u output e,
          )
      | inr room ↦
          let at_end : seen ++ (lost ++ (q ∷ qs ++ u ∷ [])) ≡ (seen ++ (lost ++ q ∷ qs)) ++ u ∷ [] =
            simp list_laws in
          rw room (
            gone,
            seen,
            lost,
            s,
            l,
            rw length-append (ground (arith, room)),
            ground (arith, f, room),
            ap (λ us. gone ++ (replay ++ streamed us)) at_end
                ∙ ends gone replay (seen ++ (lost ++ q ∷ qs)) u output e,
          )
    ]

pub broadcast-SeesOnce :
    (output : List ℕ) (u : PaneUpdate) (rs : List Receiver)
    → All (SeesOnce output) rs
    → All (SeesOnce (output ++ streamed (u ∷ []))) (broadcast u rs)
unfolding broadcast
broadcast-SeesOnce output u [] h = tt
broadcast-SeesOnce output u (r ∷ rs) (h, hs) = (
  push-SeesOnce output u r.replay r.received r.queue r.missed h,
  broadcast-SeesOnce output u rs hs,
)

recv_of-SeesOnce :
    (output replay : List ℕ) (received : List Received) (queue : List PaneUpdate) (missed : ℕ)
    → let r : Receiver = record {
      replay = replay;
      received = received;
      queue = queue;
      missed = missed;
    } in
      SeesOnce output r → SeesOnce output (recv_of missed queue r)
unfolding recv_of
recv_of-SeesOnce output replay received queue (suc n) (gone, seen, lost, s, l, b, f, e) = (
  gone,
  seen ++ (lost ++ []),
  [],
  StandFor-append s (gap lost (suc n) l nothing),
  refl,
  b,
  inl refl,
  rw (← e) (simp list_laws),
)
recv_of-SeesOnce output replay received [] zero h = h
recv_of-SeesOnce output replay received (u ∷ us) zero (gone, seen, [], s, l, b, f, e) = (
  gone,
  seen ++ u ∷ [],
  [],
  StandFor-append s (one u nothing),
  refl,
  omega (arith, b),
  inl refl,
  rw append_assoc e,
)
recv_of-SeesOnce output replay received (u ∷ us) zero (gone, seen, x ∷ lost, s, l, b, f, e) =
    absurd (omega (arith, l))

pub receive_at-SeesOnce :
    (output : List ℕ) (i : ℕ) (rs : List Receiver)
    → All (SeesOnce output) rs
    → All (SeesOnce output) (receive_at i rs)
unfolding receive_at
receive_at-SeesOnce output i [] h = tt
receive_at-SeesOnce output zero (r ∷ rs) (h, hs) =
    (recv_of-SeesOnce output r.replay r.received r.queue r.missed h, hs)
receive_at-SeesOnce output (suc i) (r ∷ rs) (h, hs) = (h, receive_at-SeesOnce output i rs hs)

pub broadcast-append :
    (u : PaneUpdate) (rs rs' : List Receiver)
    → broadcast u (rs ++ rs') ≡ broadcast u rs ++ broadcast u rs'
unfolding broadcast
broadcast-append u [] rs' = refl
broadcast-append u (r ∷ rs) rs' = ap (λ l. push u r ∷ l) (broadcast-append u rs rs')
