-- ===== src/Supervisor/Graph/Runs.antt =====
-- Each wake-up of the supervisor of a host, and so each run, keeps to the life of a host:
-- `host_supervisor` of crates/tepegoz-core/src/client.rs.
use tepegoz.Prelude.{
  ℕ, ◌+◌, ◌≡◌, inl, inr, refl, Bool, true, false, Option, none, some, List, [], ◌∷◌, arith,
  Bool-cases, leb, ltb,
}
use tepegoz.Fleet.{HostState, connecting, HostEntry}
use tepegoz.Supervisor.{
  Supervisor, Phase, parked, idle, dialling, live, terminal, backing_off, exited, Emitted, Wake,
  message, attempted, timer, Attempt, session, failed, lost, SshError, key_mismatch, auth_error,
  other_error, reconnect, disconnect, emit, begin_with, begin, top_of_loop, wait_backoff,
  on_reconnect, on_disconnect, on_closed, on_message, on_error, on_attempt, on_attempted, on_timer,
  heartbeat, heartbeat_failed, elapsed, step, fresh, unwanted, gone, dropped,
}
use tepegoz.Supervisor.View.{
  View, told, untold, Agrees, PhaseAgrees, LiveState, Reached, started, stepped,
}
use tepegoz.Supervisor.View.Runs.{Reached-Agrees}
use tepegoz.Supervisor.Graph.{
  IsLife, IsLife-append, top_of_loop-IsLife, emit-IsLife, live_ends, drops,
}

module _ (t at : ℕ) (s : Supervisor) (v : View) where
  on_reconnect-IsLife :
      (phase : Phase)
      → PhaseAgrees t phase s.should_connect v
      → IsLife v (on_reconnect phase at s).1
  unfolding on_reconnect told
  on_reconnect-IsLife (parked reason) h = ((rw h.0 refl, refl, λ f. h.1), tt)
  on_reconnect-IsLife idle h = top_of_loop-IsLife at _ v h.1 (λ f. rw h.0 refl)
  on_reconnect-IsLife (dialling start) h = top_of_loop-IsLife at (fresh s) v h.1 (λ f. rw h.0 refl)
  on_reconnect-IsLife (live start due misses state) h =
      emit-IsLife (gone ∷ dropped ∷ []) (top_of_loop at (fresh s)) v
        (live_ends misses state v h.0 h.1) (top_of_loop-IsLife at (fresh s) _ refl (λ f. refl))
  on_reconnect-IsLife terminal h =
      emit-IsLife (dropped ∷ []) (top_of_loop at (fresh s)) v
        (drops v h.1 (elim (h.0) [ inl e ↦ rw e refl | inr e ↦ rw e refl ]))
        (top_of_loop-IsLife at (fresh s) _ h.1 (λ f. refl))
  on_reconnect-IsLife (backing_off until) h =
      top_of_loop-IsLife at (fresh s) v h.1 (λ f. rw h.0 refl)
  on_reconnect-IsLife exited h = tt

  on_disconnect-IsLife :
      (phase : Phase)
      → PhaseAgrees t phase s.should_connect v
      → IsLife v (on_disconnect phase at s).1
  unfolding on_disconnect told
  on_disconnect-IsLife (parked reason) h = tt
  on_disconnect-IsLife idle h = top_of_loop-IsLife at s v h.1 (λ f. rw h.0 refl)
  on_disconnect-IsLife (dialling start) h =
      emit-IsLife (dropped ∷ []) (top_of_loop at (unwanted s)) v (drops v h.1 (rw h.0 refl))
        (top_of_loop-IsLife at (unwanted s) _ h.1 (λ f. refl))
  on_disconnect-IsLife (live start due misses state) h =
      emit-IsLife (gone ∷ dropped ∷ []) (top_of_loop at (unwanted s)) v
        (live_ends misses state v h.0 h.1) (top_of_loop-IsLife at (unwanted s) _ refl (λ f. refl))
  on_disconnect-IsLife terminal h = tt
  on_disconnect-IsLife (backing_off until) h =
      top_of_loop-IsLife at (unwanted s) v h.1 (λ f. rw h.0 refl)
  on_disconnect-IsLife exited h = tt

  on_closed-IsLife :
      (phase : Phase) → PhaseAgrees t phase s.should_connect v → IsLife v (on_closed phase s).1
  unfolding on_closed told
  on_closed-IsLife (live start due misses state) h = ((live_ends misses state v h.0 h.1).0, tt)
  on_closed-IsLife (parked reason) h = tt
  on_closed-IsLife idle h = tt
  on_closed-IsLife (dialling start) h = tt
  on_closed-IsLife terminal h = tt
  on_closed-IsLife (backing_off until) h = tt
  on_closed-IsLife exited h = tt

  on_error-IsLife :
      (error : SshError)
      → v.state ≡ some connecting
      → v.capabilities ≡ []
      → IsLife v (on_error error at s).1
  unfolding on_error wait_backoff emit
  on_error-IsLife (key_mismatch path line) e c = ((rw e refl, refl, λ f. c), tt)
  on_error-IsLife (auth_error reason) e c = ((rw e refl, refl, λ f. c), tt)
  on_error-IsLife (other_error text) e c = drops v c (rw e refl)

  on_attempt-IsLife :
      (a : Attempt) (start : ℕ)
      → PhaseAgrees t (dialling start) s.should_connect v
      → IsLife v (on_attempt a start at s).1
  unfolding on_attempt wait_backoff emit told
  on_attempt-IsLife (session capabilities) start h = ((rw h.0 refl, refl, λ f. h.1), (refl, tt))
  on_attempt-IsLife (failed error) start h = on_error-IsLife error h.0 h.1
  on_attempt-IsLife lost start h = drops v h.1 (rw h.0 refl)

  heartbeat-IsLife :
      (sent : Bool) (start due misses : ℕ) (state : HostState)
      → v.state ≡ some state
      → LiveState misses state
      → IsLife v (heartbeat sent start due misses state at s).1
  unfolding heartbeat heartbeat_failed wait_backoff emit
  heartbeat-IsLife true start due misses state e (inl (m, q)) = rw m tt
  heartbeat-IsLife true start due misses state e (inr (m, m', q)) =
      let missed : ltb 0 misses ≡ true = ground arith in
      rw (q, missed) ((rw (e, q) refl, refl, λ f. cc), tt)
  heartbeat-IsLife false start due misses state e (inl (m, q)) =
      rw (m, q) ((rw (e, q) refl, refl, λ f. cc), tt)
  heartbeat-IsLife false start due misses state e (inr (m, m', q)) =
      elim (Bool-cases (leb 3 (misses + 1))) [
        | inl f ↦ rw f (live_ends misses state v e (inr (m, m', q)))
        | inr f ↦ let missed : leb 1 (misses + 1) ≡ true = ground arith in rw (f, missed, q) tt
      ]

  on_timer-IsLife :
      (phase : Phase) (sent : Bool)
      → PhaseAgrees t phase s.should_connect v
      → IsLife v (on_timer phase sent at s).1
  unfolding on_timer elapsed
  on_timer-IsLife (live start due misses state) sent h = elim (Bool-cases (leb due at)) [
    | inl f ↦ rw f (heartbeat-IsLife sent start due misses state h.0 h.1)
    | inr f ↦ rw f tt
  ]
  on_timer-IsLife (backing_off until) sent h = elim (Bool-cases (leb until at)) [
    | inl f ↦ rw f (top_of_loop-IsLife at _ v h.1 (λ f. rw h.0 refl))
    | inr f ↦ rw f tt
  ]
  on_timer-IsLife (parked reason) sent h = tt
  on_timer-IsLife idle sent h = tt
  on_timer-IsLife (dialling start) sent h = tt
  on_timer-IsLife terminal sent h = tt
  on_timer-IsLife exited sent h = tt

  on_attempted-IsLife :
      (phase : Phase) (a : Attempt)
      → PhaseAgrees t phase s.should_connect v
      → IsLife v (on_attempted phase a at s).1
  unfolding on_attempted
  on_attempted-IsLife (dialling start) a h = on_attempt-IsLife a start h
  on_attempted-IsLife (parked reason) a h = tt
  on_attempted-IsLife idle a h = tt
  on_attempted-IsLife (live start due misses state) a h = tt
  on_attempted-IsLife terminal a h = tt
  on_attempted-IsLife (backing_off until) a h = tt
  on_attempted-IsLife exited a h = tt

step-IsLife :
    (t at : ℕ) (w : Wake) (s : Supervisor) (v : View) → Agrees t s v → IsLife v (step at w s).1
unfolding step on_message
step-IsLife t at (message none) s v h = on_closed-IsLife t at s v s.phase h.0
step-IsLife t at (message (some reconnect)) s v h = on_reconnect-IsLife t at s v s.phase h.0
step-IsLife t at (message (some disconnect)) s v h = on_disconnect-IsLife t at s v s.phase h.0
step-IsLife t at (attempted a) s v h = on_attempted-IsLife t at s v s.phase a h.0
step-IsLife t at (timer sent) s v h = on_timer-IsLife t at s v s.phase sent h.0

begin_with-IsLife :
    (jump : Option (List ℕ)) (autoconnect : Bool) (at : ℕ)
    → IsLife untold (begin_with jump autoconnect at).1
unfolding begin_with told
begin_with-IsLife (some jump) autoconnect at = ((refl, refl, λ f. refl), tt)
begin_with-IsLife none autoconnect at =
    emit-IsLife (dropped ∷ []) _ untold ((refl, refl, λ f. refl), tt)
      (top_of_loop-IsLife at _ _ refl (λ f. refl))

-- The supervisor implements the life of a host: what it sends in a run, whatever the order of the
-- wake-ups, is at every event something that the client may be told next.
pub Reached-IsLife :
    (entry : HostEntry) (autoconnect : Bool) (t : ℕ) (s : Supervisor) (es : List Emitted)
    → Reached entry autoconnect t s es
    → IsLife untold es
unfolding begin
Reached-IsLife entry autoconnect _ _ _ (started at) =
    begin_with-IsLife entry.proxy_jump autoconnect at
Reached-IsLife entry autoconnect _ _ _ (stepped {t} {s} {es} at w later r) =
    IsLife-append untold es (step at w s).1 (Reached-IsLife entry autoconnect t s es r)
      (step-IsLife t at w s (told untold es) (Reached-Agrees entry autoconnect t s es r))
