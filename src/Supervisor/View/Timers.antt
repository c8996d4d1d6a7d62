-- ===== src/Supervisor/View/Timers.antt =====
-- The timers of the supervisor of a host, the heartbeat and the backoff, keep what the client is told in
-- agreement with its phase: `run_connected_session` and `wait_backoff` of
-- crates/tepegoz-core/src/client.rs.
use tepegoz.Prelude.{
  ℕ, ◌+◌, ◌-◌, ◌≤◌, ◌≡◌, inl, inr, refl, ap, ◌∙◌, Bool, true, false, some, [], ◌∷◌, arith,
  Bool-cases, leb, ltb,
}
use tepegoz.Fleet.{HostState, disconnected}
use tepegoz.Supervisor.{
  Supervisor, Phase, parked, idle, dialling, live, terminal, backing_off, exited, wait_backoff,
  on_timer, heartbeat, heartbeat_failed, elapsed, next_tick, fresh, gone, dropped,
}
use tepegoz.Supervisor.View.{View, told, PhaseAgrees}
use tepegoz.Supervisor.View.Steps.{StepAgrees, top_of_loop-Agrees, emit-Agrees, wait_backoff-Agrees}

next_tick_later : (due at : ℕ) → due + 30000 ≤ next_tick due at
unfolding next_tick
next_tick_later due at = omega arith

module _ (t at : ℕ) (later : t ≤ at) (s : Supervisor) (v : View) (bound : s.backoff_idx ≤ 4) where
  heartbeat_failed-Agrees :
      (start : ℕ) → s.should_connect ≡ true → StepAgrees at (heartbeat_failed start at s) v
  unfolding heartbeat_failed told
  heartbeat_failed-Agrees start w = elim (Bool-cases (leb 30000 (at - start))) [
    | inl e ↦ rw e (
        emit-Agrees at (gone ∷ dropped ∷ []) (wait_backoff at (fresh s)) v
          (wait_backoff-Agrees at (fresh s) _ (omega arith) refl refl w))
    | inr e ↦ rw e (
        emit-Agrees at (gone ∷ dropped ∷ []) (wait_backoff at s) v
          (wait_backoff-Agrees at s _ bound refl refl w))
  ]

  heartbeat-Agrees :
      (sent : Bool) (start due misses : ℕ) (state : HostState)
      → due ≤ at
      → PhaseAgrees t (live start due misses state) s.should_connect v
      → StepAgrees at (heartbeat sent start due misses state at s) v
  unfolding heartbeat told
  heartbeat-Agrees true start due misses state k h =
      let next = next_tick_later due at in
      elim (h.1) [
        | inl (m, q) ↦ rw m ((h.0, inl (refl, q), h.2, omega (arith, next, h.3)), bound)
        | inr (m, m', q) ↦
            let missed : ltb 0 misses ≡ true = ground arith in
            rw (q, missed) ((refl, inl (refl, refl), h.2, omega (arith, next, h.3)), bound)
      ]
  heartbeat-Agrees false start due misses state k h =
      let next = next_tick_later due at in
      elim (h.1) [
        | inl (m, q) ↦
            rw (m, q)
              ((refl, inr (omega arith, omega arith, refl), h.2, omega (arith, next, h.3)), bound)
        | inr (m, m', q) ↦ elim (Bool-cases (leb 3 (misses + 1))) [
          | inl e ↦ rw e (heartbeat_failed-Agrees start h.2)
          | inr e ↦
              let missed : leb 1 (misses + 1) ≡ true = ground arith in
              rw (e, missed, q)
                (
                  (
                    h.0 ∙ ap some q,
                    inr (omega arith, ground arith, refl),
                    h.2,
                    omega (arith, next, h.3),
                  ),
                  bound,
                )
        ]
      ]

  elapsed-Agrees :
      v.state ≡ some disconnected → v.capabilities ≡ [] → StepAgrees at (elapsed at s) v
  unfolding elapsed
  elapsed-Agrees d c = top_of_loop-Agrees at _ v (ground arith) c (λ f. d)

  pub on_timer-Agrees :
      (phase : Phase) (sent : Bool)
      → s.phase ≡ phase
      → PhaseAgrees t phase s.should_connect v
      → StepAgrees at (on_timer phase sent at s) v
  unfolding on_timer told
  on_timer-Agrees (live start due misses state) sent e h = elim (Bool-cases (leb due at)) [
    | inl f ↦ rw f (heartbeat-Agrees sent start due misses state (ground arith) h)
    | inr f ↦ rw (f, e) (h, bound)
  ]
  on_timer-Agrees (backing_off until) sent e h = elim (Bool-cases (leb until at)) [
    | inl f ↦ rw f (elapsed-Agrees h.0 h.1)
    | inr f ↦ rw (f, e) ((h.0, h.1, h.2, omega (arith, later, h.3)), bound)
  ]
  on_timer-Agrees (parked reason) sent e h = rw e (h, bound)
  on_timer-Agrees idle sent e h = rw e (h, bound)
  on_timer-Agrees (dialling start) sent e h =
      rw e ((h.0, h.1, h.2, omega (arith, later, h.3)), bound)
  on_timer-Agrees terminal sent e h = rw e (h, bound)
  on_timer-Agrees exited sent e h = rw e (h, bound)
