-- ===== src/Supervisor/View/Steps.antt =====
-- Each wake-up of the supervisor of a host keeps what the client is told in agreement with its phase:
-- `host_supervisor` of crates/tepegoz-core/src/client.rs.
use tepegoz.Prelude.{
  ℕ, zero, suc, ◌≤◌, ◌≡◌, inl, inr, refl, Bool, true, false, Option, none, some, List, [], ◌∷◌,
  arith, Bool-cases, min,
}
use tepegoz.Fleet.{disconnected, HostEntry}
use tepegoz.Supervisor.{
  Supervisor, Phase, parked, idle, dialling, live, terminal, backing_off, exited, Emitted, Attempt,
  session, failed, lost, SshError, key_mismatch, auth_error, other_error, Step, emit, begin_with,
  begin, top_of_loop, wait_backoff, on_reconnect, on_disconnect, on_closed, on_error, on_attempt,
  on_attempted, backoff_delay, fresh, unwanted, gone, dropped,
}
use tepegoz.Supervisor.View.{View, told, untold, told-append, Agrees, PhaseAgrees, longest_backoff}

abbrev pub StepAgrees : ℕ → Step → View → Type 0
StepAgrees t r v = Agrees t r.0 (told v r.1)

pub top_of_loop-Agrees :
    (at : ℕ) (s : Supervisor) (v : View)
    → s.backoff_idx ≤ 4
    → v.capabilities ≡ []
    → (s.should_connect ≡ false → v.state ≡ some disconnected)
    → StepAgrees at (top_of_loop at s) v
unfolding top_of_loop told
top_of_loop-Agrees at s v bound c d = elim (Bool-cases s.should_connect) [
  | inl e ↦ rw e ((refl, c, refl, omega arith), bound)
  | inr e ↦ rw e ((d e, c, refl), bound)
]

-- What is sent first changes what the client has been told.
pub emit-Agrees :
    (t : ℕ) (es : List Emitted) (r : Step) (v : View)
    → StepAgrees t r (told v es)
    → StepAgrees t (emit es r) v
unfolding emit
emit-Agrees t es r v h = rw (told-append v es r.1) h

backoff_delay_le : (idx : ℕ) → backoff_delay idx ≤ longest_backoff
unfolding backoff_delay
backoff_delay_le zero = omega arith
backoff_delay_le (suc zero) = omega arith
backoff_delay_le (suc (suc zero)) = omega arith
backoff_delay_le (suc (suc (suc zero))) = omega arith
backoff_delay_le (suc (suc (suc (suc idx)))) =
    let last : min (suc (suc (suc (suc idx)))) 4 ≡ 4 = omega arith in rw last (omega arith)

pub wait_backoff-Agrees :
    (at : ℕ) (s : Supervisor) (v : View)
    → s.backoff_idx ≤ 4
    → v.state ≡ some disconnected
    → v.capabilities ≡ []
    → s.should_connect ≡ true
    → StepAgrees at (wait_backoff at s) v
unfolding wait_backoff told
wait_backoff-Agrees at s v bound d c w =
    ((d, c, w, omega (arith, backoff_delay_le s.backoff_idx)), bound)

pub begin-Agrees :
    (entry : HostEntry) (autoconnect : Bool) (at : ℕ)
    → StepAgrees at (begin entry autoconnect at) untold
unfolding begin begin_with told
begin-Agrees entry autoconnect at = with_jump entry.proxy_jump
  where
    with_jump : (jump : Option (List ℕ)) → StepAgrees at (begin_with jump autoconnect at) untold
    with_jump (some jump) = ((refl, refl), omega arith)
    with_jump none =
        emit-Agrees at (dropped ∷ [])
          (top_of_loop at (record { phase = idle; should_connect = autoconnect; backoff_idx = 0 }))
          untold (top_of_loop-Agrees at _ _ (omega arith) refl (λ e. refl))

module _ (t at : ℕ) (later : t ≤ at) (s : Supervisor) (v : View) (bound : s.backoff_idx ≤ 4) where
  pub on_reconnect-Agrees :
      (phase : Phase)
      → s.phase ≡ phase
      → PhaseAgrees t phase s.should_connect v
      → StepAgrees at (on_reconnect phase at s) v
  unfolding on_reconnect told
  on_reconnect-Agrees (parked reason) e h = rw e ((refl, h.1), bound)
  on_reconnect-Agrees idle e h =
      top_of_loop-Agrees at (record s { should_connect = true; backoff_idx = 0 }) v (omega arith)
        h.1 (λ f. cc)
  on_reconnect-Agrees (dialling start) e h =
      top_of_loop-Agrees at (fresh s) v (omega arith) h.1 (λ f. cc)
  on_reconnect-Agrees (live start due misses state) e h =
      emit-Agrees at (gone ∷ dropped ∷ []) (top_of_loop at (fresh s)) v
        (top_of_loop-Agrees at (fresh s) _ (omega arith) refl (λ f. refl))
  on_reconnect-Agrees terminal e h =
      emit-Agrees at (dropped ∷ []) (top_of_loop at (fresh s)) v
        (top_of_loop-Agrees at (fresh s) _ (omega arith) h.1 (λ f. refl))
  on_reconnect-Agrees (backing_off until) e h =
      top_of_loop-Agrees at (fresh s) v (omega arith) h.1 (λ f. h.0)
  on_reconnect-Agrees exited e h = rw e (h, bound)

  pub on_disconnect-Agrees :
      (phase : Phase)
      → s.phase ≡ phase
      → PhaseAgrees t phase s.should_connect v
      → StepAgrees at (on_disconnect phase at s) v
  unfolding on_disconnect told
  on_disconnect-Agrees (parked reason) e h = rw e (h, bound)
  on_disconnect-Agrees idle e h = top_of_loop-Agrees at s v bound h.1 (λ f. h.0)
  on_disconnect-Agrees (dialling start) e h =
      emit-Agrees at (dropped ∷ []) (top_of_loop at (unwanted s)) v
        (top_of_loop-Agrees at (unwanted s) _ bound h.1 (λ f. refl))
  on_disconnect-Agrees (live start due misses state) e h =
      emit-Agrees at (gone ∷ dropped ∷ []) (top_of_loop at (unwanted s)) v
        (top_of_loop-Agrees at (unwanted s) _ bound refl (λ f. refl))
  on_disconnect-Agrees terminal e h = rw e (h, bound)
  on_disconnect-Agrees (backing_off until) e h =
      top_of_loop-Agrees at (unwanted s) v bound h.1 (λ f. h.0)
  on_disconnect-Agrees exited e h = rw e (h, bound)

  pub on_closed-Agrees :
      (phase : Phase) → PhaseAgrees t phase s.should_connect v → StepAgrees at (on_closed phase s) v
  unfolding on_closed told
  on_closed-Agrees (parked reason) h = (h.1, bound)
  on_closed-Agrees idle h = (h.1, bound)
  on_closed-Agrees (dialling start) h = (h.1, bound)
  on_closed-Agrees (live start due misses state) h = (refl, bound)
  on_closed-Agrees terminal h = (h.1, bound)
  on_closed-Agrees (backing_off until) h = (h.1, bound)
  on_closed-Agrees exited h = (h, bound)

  pub on_error-Agrees :
      (error : SshError)
      → v.capabilities ≡ []
      → s.should_connect ≡ true
      → StepAgrees at (on_error error at s) v
  unfolding on_error told
  on_error-Agrees (key_mismatch path line) c w = ((inr refl, c, w), bound)
  on_error-Agrees (auth_error reason) c w = ((inl refl, c, w), bound)
  on_error-Agrees (other_error text) c w =
      emit-Agrees at (dropped ∷ []) (wait_backoff at s) v
        (wait_backoff-Agrees at s _ bound refl c w)

  pub on_attempt-Agrees :
      (a : Attempt) (start : ℕ)
      → PhaseAgrees t (dialling start) s.should_connect v
      → StepAgrees at (on_attempt a start at s) v
  unfolding on_attempt told
  on_attempt-Agrees (session capabilities) start h =
      ((refl, inl (refl, refl), h.2, omega (arith, h.3)), bound)
  on_attempt-Agrees (failed error) start h = on_error-Agrees error h.1 h.2
  on_attempt-Agrees lost start h =
      emit-Agrees at (dropped ∷ []) (wait_backoff at s) v
        (wait_backoff-Agrees at s _ bound refl h.1 h.2)

  pub on_attempted-Agrees :
      (phase : Phase) (a : Attempt)
      → s.phase ≡ phase
      → PhaseAgrees t phase s.should_connect v
      → StepAgrees at (on_attempted phase a at s) v
  unfolding on_attempted told
  on_attempted-Agrees (dialling start) a e h = on_attempt-Agrees a start h
  on_attempted-Agrees (parked reason) a e h = rw e (h, bound)
  on_attempted-Agrees idle a e h = rw e (h, bound)
  on_attempted-Agrees (live start due misses state) a e h = rw e (h, bound)
  on_attempted-Agrees terminal a e h = rw e (h, bound)
  on_attempted-Agrees (backing_off until) a e h =
      rw e ((h.0, h.1, h.2, omega (arith, later, h.3)), bound)
  on_attempted-Agrees exited a e h = rw e (h, bound)
