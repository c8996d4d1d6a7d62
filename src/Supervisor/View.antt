-- ===== src/Supervisor/View.antt =====
-- What the client has been told of a host, and that it is what the supervisor is in: the calls of
-- `emit_state` and `emit_agent_capabilities` in `host_supervisor`, crates/tepegoz-core/src/client.rs.
pub mod Steps
pub mod Timers
pub mod Runs
use tepegoz.Prelude.{
  ℕ, suc, ◌+◌, ◌-◌, ◌*◌, ◌/◌, ◌≤◌, ◌<◌, ◌≡◌, ◌⊎◌, inl, inr, refl, ap, ◌∙◌, Bool, true, false,
  Option, none, some, List, [], ◌∷◌, ◌++◌, arith, length, Bool-cases, if◌then◌else◌, leb, ltb, ◌&&◌,
  not, min,
}
use tepegoz.Fleet.{
  HostState, disconnected, connecting, connected, degraded, auth_failed, host_key_mismatch,
  HostEntry, same_state,
}
use tepegoz.Supervisor.{
  Supervisor, Phase, parked, idle, dialling, live, terminal, backing_off, exited, Emitted,
  state_changed, agent_capabilities, Wake, message, attempted, timer, Attempt, session, failed,
  lost, SshError, key_mismatch, auth_error, other_error, HostAction, reconnect, disconnect, Step,
  emit, begin_with, begin, top_of_loop, wait_backoff, on_reconnect, on_disconnect, on_closed,
  on_message, on_error, on_attempt, on_attempted, on_timer, heartbeat, heartbeat_failed, elapsed,
  next_tick, step, backoff_ladder, fresh, unwanted, gone, dropped, heartbeat_interval,
}

pub record View : Type 0 where
  pub state : Option HostState
  pub capabilities : List (List ℕ)

unfoldable pub told : View → List Emitted → View
told v [] = v
told v (state_changed state reason ∷ es) = told (record v { state = some state }) es
told v (agent_capabilities capabilities ∷ es) = told (record v { capabilities = capabilities }) es

abbrev pub untold : View
untold = record { state = none; capabilities = [] }

pub told-append : (v : View) (es fs : List Emitted) → told v (es ++ fs) ≡ told (told v es) fs
unfolding told
told-append v [] fs = refl
told-append v (state_changed state reason ∷ es) fs =
    told-append (record v { state = some state }) es fs
told-append v (agent_capabilities capabilities ∷ es) fs =
    told-append (record v { capabilities = capabilities }) es fs

-- The supervisors that a run leads to, the time at which they are reached, and all that was sent.
pub data Reached (entry : HostEntry) (autoconnect : Bool)
    : ℕ → Supervisor → List Emitted → Type 0 where
  started :
      (at : ℕ)
      → Reached entry autoconnect at (begin entry autoconnect at).0 (begin entry autoconnect at).1
  stepped :
      {t : ℕ} {s : Supervisor} {es : List Emitted} (at : ℕ) (w : Wake)
      → t ≤ at
      → Reached entry autoconnect t s es
      → Reached entry autoconnect at (step at w s).0 (es ++ (step at w s).1)

-- A minute, the last entry of the ladder.
abbrev pub longest_backoff : ℕ
longest_backoff = 60000

-- A live host is degraded from the first missed heartbeat on, and given up at the third.
abbrev pub LiveState : ℕ → HostState → Type 0
LiveState misses state =
    ((misses ≡ 0) × (state ≡ connected)) ⊎ ((1 ≤ misses) × (misses ≤ 2) × (state ≡ degraded))

abbrev pub IsUnwell : Option HostState → Type 0
IsUnwell v = (v ≡ some auth_failed) ⊎ (v ≡ some host_key_mismatch)

abbrev pub PhaseAgrees : ℕ → Phase → Bool → View → Type 0
PhaseAgrees t (parked reason) wanted v = (v.state ≡ some auth_failed) × (v.capabilities ≡ [])
PhaseAgrees t idle wanted v =
    (v.state ≡ some disconnected) × (v.capabilities ≡ []) × (wanted ≡ false)
PhaseAgrees t (dialling start) wanted v =
    (v.state ≡ some connecting) × (v.capabilities ≡ []) × (wanted ≡ true) × (start ≤ t)
PhaseAgrees t (live start due misses state) wanted v =
    (v.state ≡ some state)
    × LiveState misses state
    × (wanted ≡ true)
    × (start + heartbeat_interval * (misses + 1) ≤ due)
PhaseAgrees t terminal wanted v = IsUnwell v.state × (v.capabilities ≡ []) × (wanted ≡ true)
PhaseAgrees t (backing_off until) wanted v =
    (v.state ≡ some disconnected)
    × (v.capabilities ≡ [])
    × (wanted ≡ true)
    × (until ≤ t + longest_backoff)
PhaseAgrees t exited wanted v = v.capabilities ≡ []

abbrev pub Agrees : ℕ → Supervisor → View → Type 0
Agrees t s v = PhaseAgrees t s.phase s.should_connect v × (s.backoff_idx ≤ 4)
