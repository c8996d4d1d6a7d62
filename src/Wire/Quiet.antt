-- ===== src/Wire/Quiet.antt =====
-- Without a tick in the middle of a frame the session reads what arrives as one stream, however it is
-- cut into chunks: `session` of crates/tepegoz-core/src/client.rs.
use mathlib.Core.Path.{subst}
use tepegoz.Prelude.{
  ℕ, zero, suc, ◌<◌, ◌≡◌, refl, sym, ap, ◌∙◌, List, [], ◌∷◌, ◌++◌, arith, length, inl, inr,
  append_assoc, append-nil,
}
use tepegoz.Wire.{Rkyv, read_exact, ReadError}
use tepegoz.Wire.Session.{
  pending, ready, broken, Session, reading, ended, SocketEvent, arrives, tick, poll, poll_frame,
  drain, on_socket, run,
}
use tepegoz.Wire.Chunks.{Poll-cases, poll-more, poll-shorter, Goes}

abbrev pub arrived : List SocketEvent → List ℕ
arrived [] = []
arrived (arrives chunk ∷ events) = chunk ++ arrived events
arrived (tick ∷ events) = arrived events

-- Nothing of a frame is held.
abbrev pub AtRest : Session → Type 0
AtRest (ended error) = Unit
AtRest (reading held) = held ≡ []

module _ {Envelope : Type 0} (rkyv : Rkyv Envelope) where
  abbrev pub drain_all : List ℕ → List Envelope × Session
  drain_all held = drain rkyv (suc (length held)) held

  -- No tick finds bytes of a frame that is not complete.
  abbrev pub TicksBetweenFrames : List SocketEvent → Session → Type 0
  TicksBetweenFrames [] s = Unit
  TicksBetweenFrames (arrives chunk ∷ events) s =
      TicksBetweenFrames events (on_socket rkyv (arrives chunk) s).1
  TicksBetweenFrames (tick ∷ events) s =
      AtRest s × TicksBetweenFrames events (on_socket rkyv tick s).1

  pub drain-ready :
      (fuel : ℕ) (held : List ℕ) {envelope : Envelope} {rest : List ℕ}
      → poll rkyv held ≡ ready envelope rest
      → drain rkyv (suc fuel) held ≡ (envelope ∷ (drain rkyv fuel rest).0, (drain rkyv fuel rest).1)
  unfolding drain
  drain-ready fuel held e = rw (e, drain) refl

  pub drain-pending :
      (fuel : ℕ) (held : List ℕ)
      → poll rkyv held ≡ pending
      → drain rkyv (suc fuel) held ≡ ([], reading held)
  unfolding drain
  drain-pending fuel held e = rw (e, drain) refl

  drain-broken :
      (fuel : ℕ) (held : List ℕ) {error : ReadError}
      → poll rkyv held ≡ broken error
      → drain rkyv (suc fuel) held ≡ ([], ended error)
  unfolding drain
  drain-broken fuel held e = rw (e, drain) refl

  -- More fuel makes no difference where there is a turn for each byte.
  pub drain-fuel :
      (f g : ℕ) (held : List ℕ)
      → length held < f
      → length held < g
      → drain rkyv f held ≡ drain rkyv g held
  unfolding drain
  drain-fuel zero g held h k = elim h [ ]
  drain-fuel (suc f) zero held h k = elim k [ ]
  drain-fuel (suc f) (suc g) held h k = elim (Poll-cases (poll rkyv held)) [
    | inl e ↦ drain-pending f held e ∙ sym (drain-pending g held e)
    | inr (inl (error, e)) ↦ drain-broken f held e ∙ sym (drain-broken g held e)
    | inr (inr (envelope, rest, e)) ↦
        let shorter = poll-shorter rkyv held e in
        let same = drain-fuel f g rest (omega (arith, shorter, h)) (omega (arith, shorter, k)) in
        drain-ready f held e ∙ ap (λ r. (envelope ∷ r.0, r.1)) same ∙ sym (drain-ready g held e)
  ]

  -- What a session makes of the bytes that arrive.
  abbrev resume : Session → List ℕ → List Envelope × Session
  resume (ended error) bytes = ([], ended error)
  resume (reading held) bytes = drain_all (held ++ bytes)

  abbrev then_resume : List Envelope × Session → List ℕ → List Envelope × Session
  then_resume r more = (r.0 ++ (resume r.1 more).0, (resume r.1 more).1)

  drain-append :
      (fuel : ℕ) (held more : List ℕ)
      → length held < fuel
      → drain_all (held ++ more) ≡ then_resume (drain rkyv fuel held) more
  unfolding drain
  drain-append zero held more h = elim h [ ]
  drain-append (suc fuel) held more h = elim (Poll-cases (poll rkyv held)) [
    | inl e ↦ ap (λ r. then_resume r more) (sym (drain-pending fuel held e))
    | inr (inl (error, e)) ↦
        let goes : poll rkyv (held ++ more) ≡ broken error =
          subst (λ p. Goes rkyv p more (poll rkyv (held ++ more))) e (poll-more rkyv held more) in
        drain-broken (length (held ++ more)) (held ++ more) goes
        ∙ ap (λ r. then_resume r more) (sym (drain-broken fuel held e))
    | inr (inr (envelope, rest, e)) ↦
        let goes : poll rkyv (held ++ more) ≡ ready envelope (rest ++ more) =
          subst (λ p. Goes rkyv p more (poll rkyv (held ++ more))) e (poll-more rkyv held more) in
        let shorter = poll-shorter rkyv held e in
        let shorter' = poll-shorter rkyv (held ++ more) goes in
        let next = drain-append fuel rest more (omega (arith, shorter, h)) in
        let same =
          drain-fuel (length (held ++ more)) (suc (length (rest ++ more))) (rest ++ more) shorter'
            (omega arith) in
        drain-ready (length (held ++ more)) (held ++ more) goes
        ∙ ap (λ r. (envelope ∷ r.0, r.1)) (same ∙ next)
        ∙ ap (λ r. then_resume r more) (sym (drain-ready fuel held e))
  ]

  -- A pending call has found no whole frame in what it holds.
  abbrev IsWaiting : Session → Type 0
  IsWaiting (ended error) = Unit
  IsWaiting (reading held) = poll rkyv held ≡ pending

  drain-IsWaiting :
      (fuel : ℕ) (held : List ℕ) → length held < fuel → IsWaiting (drain rkyv fuel held).1
  unfolding drain
  drain-IsWaiting zero held h = elim h [ ]
  drain-IsWaiting (suc fuel) held h = elim (Poll-cases (poll rkyv held)) [
    | inl e ↦ subst (λ r. IsWaiting r.1) (sym (drain-pending fuel held e)) e
    | inr (inl (error, e)) ↦ subst (λ r. IsWaiting r.1) (sym (drain-broken fuel held e)) tt
    | inr (inr (envelope, rest, e)) ↦
        let shorter = poll-shorter rkyv held e in
        subst (λ r. IsWaiting r.1) (sym (drain-ready fuel held e))
          (drain-IsWaiting fuel rest (omega (arith, shorter, h)))
  ]

  run-ended :
      (events : List SocketEvent) (error : ReadError)
      → run rkyv events (ended error) ≡ ([], ended error)
  unfolding run on_socket
  run-ended [] error = refl
  run-ended (event ∷ events) error = ap (λ r. (r.0, r.1)) (run-ended events error)

  pub poll_nil : poll rkyv [] ≡ pending
  unfolding poll poll_frame read_exact
  poll_nil = refl

  run-resume :
      (events : List SocketEvent) (s : Session)
      → IsWaiting s
      → TicksBetweenFrames events s
      → run rkyv events s ≡ resume s (arrived events)
  unfolding run on_socket
  run-resume events (ended error) w q = run-ended events error
  run-resume [] (reading held) w q =
      sym (drain-pending (length held) held w) ∙ ap drain_all (sym (append-nil held))
  run-resume (arrives chunk ∷ events) (reading held) w q =
      let a = held ++ chunk in
      let next =
        run-resume events (drain_all a).1 (drain-IsWaiting (suc (length a)) a (omega arith)) q in
      ap (λ r. ((drain_all a).0 ++ r.0, r.1)) next
      ∙ sym (drain-append (suc (length a)) a (arrived events) (omega arith))
      ∙ ap drain_all (append_assoc held chunk (arrived events))
  run-resume (tick ∷ events) (reading held) w q =
      ap (λ r. (r.0, r.1)) (run-resume events (reading []) poll_nil q.1)
      ∙ ap (λ bytes. drain_all (bytes ++ arrived events)) (sym q.0)

  -- Where the ticks fall between the frames, cutting the stream into chunks makes no difference: what
  -- is dispatched, and how the session stands after it, is what the whole stream would have given.
  pub run-drain :
      (events : List SocketEvent)
      → TicksBetweenFrames events (reading [])
      → run rkyv events (reading []) ≡ drain_all (arrived events)
  run-drain events q = run-resume events (reading []) poll_nil q
