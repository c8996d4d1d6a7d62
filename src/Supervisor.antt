-- ===== src/Supervisor.antt =====
-- The task that keeps one SSH host of the fleet connected: `host_supervisor`, `wait_backoff`,
-- `await_terminal_reset` and `run_connected_session` of crates/tepegoz-core/src/client.rs, as a state
-- machine. A phase is a place at which the task waits, and a step is what it does from the wake-up on
-- until it waits again. Times are milliseconds. The connection attempt and the deployment of the agent
-- are not modelled: their outcome comes with the wake-up.

pub mod View
mod Tests
pub mod Shown
pub mod Heartbeat
pub mod Backoff
pub mod Graph
use tepegoz.Prelude.{
  ℕ, zero, suc, ◌+◌, ◌-◌, ◌*◌, ◌/◌, Bool, true, false, not, ◌&&◌, Option, none, some, List, [], ◌∷◌,
  ◌++◌, ltb, leb, min, if◌then◌else◌, length, get_elem?,
}
use tepegoz.Fleet.{
  HostState, disconnected, connecting, connected, degraded, auth_failed, host_key_mismatch,
  same_state, HostEntry,
}

pub data HostAction : Type 0 where
  reconnect disconnect : HostAction

-- The text of a reason: of the jump host, of a stored key by its file and line, of the server, or of
-- any other error.
pub data Reason : Type 0 where
  needs_jump : List ℕ → Reason
  stored_key : List ℕ → ℕ → Reason
  refused : List ℕ → Reason
  shown : List ℕ → Reason

-- The errors of a connection attempt that the supervisor tells apart.
pub data SshError : Type 0 where
  key_mismatch : List ℕ → ℕ → SshError
  auth_error : List ℕ → SshError
  other_error : List ℕ → SshError

unfoldable pub connect_outcome_err_reason : SshError → Reason
connect_outcome_err_reason (key_mismatch path line) = stored_key path line
connect_outcome_err_reason (auth_error reason) = refused reason
connect_outcome_err_reason (other_error message) = shown message

-- How the spawned attempt ends: with a session, on which the agent is deployed or not, with an error,
-- or without an answer.
pub data Attempt : Type 0 where
  session : Option (List (List ℕ)) → Attempt
  failed : SshError → Attempt
  lost : Attempt

pub data Phase : Type 0 where
  parked : Reason → Phase
  idle : Phase
  dialling : ℕ → Phase
  live : ℕ → ℕ → ℕ → HostState → Phase
  terminal : Phase
  backing_off : ℕ → Phase
  exited : Phase

pub record Supervisor : Type 0 where
  pub phase : Phase
  pub should_connect : Bool
  pub backoff_idx : ℕ

-- What is sent to the client: a state with its reason, or the capabilities of the agent.
pub data Emitted : Type 0 where
  state_changed : HostState → Option Reason → Emitted
  agent_capabilities : List (List ℕ) → Emitted

-- A wake-up: a message of the coordinator or the end of its channel, the end of the attempt, or the
-- timer of the phase, with whether a keepalive can be sent.
pub data Wake : Type 0 where
  message : Option HostAction → Wake
  attempted : Attempt → Wake
  timer : Bool → Wake

abbrev pub heartbeat_interval : ℕ
heartbeat_interval = 30000

abbrev pub degraded_threshold : ℕ
degraded_threshold = 1

abbrev pub disconnected_threshold : ℕ
disconnected_threshold = 3

abbrev pub reconnect_reset_threshold : ℕ
reconnect_reset_threshold = 30000

abbrev pub backoff_ladder : List ℕ
backoff_ladder = 1000 ∷ 2000 ∷ 5000 ∷ 15000 ∷ 60000 ∷ []

abbrev pub or_zero : Option ℕ → ℕ
or_zero none = 0
or_zero (some n) = n

-- The index is in range, so the default is never taken.
unfoldable pub backoff_delay : ℕ → ℕ
backoff_delay idx = or_zero (get_elem? backoff_ladder (min idx (length backoff_ladder - 1)))

abbrev pub Step : Type 0
Step = Supervisor × List Emitted

unfoldable pub emit : List Emitted → Step → Step
emit es r = (r.0, es ++ r.1)

unfoldable pub top_of_loop : ℕ → Supervisor → Step
top_of_loop at s =
    if s.should_connect
    then (record s { phase = dialling at }, state_changed connecting none ∷ [])
    else (record s { phase = idle }, [])

unfoldable pub wait_backoff : ℕ → Supervisor → Step
wait_backoff at s = (record s { phase = backing_off (at + backoff_delay s.backoff_idx) }, [])

unfoldable pub begin_with : Option (List ℕ) → Bool → ℕ → Step
begin_with (some jump) autoconnect at = (
  record { phase = parked (needs_jump jump); should_connect = false; backoff_idx = 0 },
  state_changed auth_failed (some (needs_jump jump)) ∷ [],
)
begin_with none autoconnect at =
    emit (state_changed disconnected none ∷ [])
      (top_of_loop at (record { phase = idle; should_connect = autoconnect; backoff_idx = 0 }))

unfoldable pub begin : HostEntry → Bool → ℕ → Step
begin entry autoconnect at = begin_with entry.proxy_jump autoconnect at

abbrev pub fresh : Supervisor → Supervisor
fresh s = record s { backoff_idx = 0 }

abbrev pub unwanted : Supervisor → Supervisor
unwanted s = record s { should_connect = false }

abbrev pub gone : Emitted
gone = agent_capabilities []

abbrev pub dropped : Emitted
dropped = state_changed disconnected none

unfoldable pub on_reconnect : Phase → ℕ → Supervisor → Step
on_reconnect (parked reason) at s = (s, state_changed auth_failed (some reason) ∷ [])
on_reconnect idle at s = top_of_loop at (record s { should_connect = true; backoff_idx = 0 })
on_reconnect (dialling start) at s = top_of_loop at (fresh s)
on_reconnect (live start due misses state) at s =
    emit (gone ∷ dropped ∷ []) (top_of_loop at (fresh s))
on_reconnect terminal at s = emit (dropped ∷ []) (top_of_loop at (fresh s))
on_reconnect (backing_off until) at s = top_of_loop at (fresh s)
on_reconnect exited at s = (s, [])

unfoldable pub on_disconnect : Phase → ℕ → Supervisor → Step
on_disconnect (parked reason) at s = (s, [])
on_disconnect idle at s = top_of_loop at s
on_disconnect (dialling start) at s = emit (dropped ∷ []) (top_of_loop at (unwanted s))
on_disconnect (live start due misses state) at s =
    emit (gone ∷ dropped ∷ []) (top_of_loop at (unwanted s))
on_disconnect terminal at s = (s, [])
on_disconnect (backing_off until) at s = top_of_loop at (unwanted s)
on_disconnect exited at s = (s, [])

-- The channel is closed: the task returns, after the agent of a live session is removed.
unfoldable pub on_closed : Phase → Supervisor → Step
on_closed (live start due misses state) s = (record s { phase = exited }, gone ∷ [])
on_closed _ s = (record s { phase = exited }, [])

unfoldable pub on_message : Option HostAction → ℕ → Supervisor → Step
on_message none at s = on_closed s.phase s
on_message (some reconnect) at s = on_reconnect s.phase at s
on_message (some disconnect) at s = on_disconnect s.phase at s

abbrev pub unwrap_or_default : Option (List (List ℕ)) → List (List ℕ)
unwrap_or_default none = []
unwrap_or_default (some capabilities) = capabilities

unfoldable pub on_error : SshError → ℕ → Supervisor → Step
on_error (key_mismatch path line) at s = (
  record s { phase = terminal },
  state_changed host_key_mismatch (some (connect_outcome_err_reason (key_mismatch path line))) ∷ [],
)
on_error (auth_error reason) at s = (
  record s { phase = terminal },
  state_changed auth_failed (some (connect_outcome_err_reason (auth_error reason))) ∷ [],
)
on_error (other_error text) at s = emit (dropped ∷ []) (wait_backoff at s)

-- The first tick of the interval is taken at once, so the next is due one interval later.
unfoldable pub on_attempt : Attempt → ℕ → ℕ → Supervisor → Step
on_attempt (session capabilities) start at s = (
  record s { phase = live start (at + heartbeat_interval) 0 connected },
  state_changed connected none ∷ agent_capabilities (unwrap_or_default capabilities) ∷ [],
)
on_attempt (failed error) start at s = on_error error at s
on_attempt lost start at s = emit (dropped ∷ []) (wait_backoff at s)

unfoldable pub heartbeat_failed : ℕ → ℕ → Supervisor → Step
heartbeat_failed start at s =
    emit (gone ∷ dropped ∷ [])
      (wait_backoff at (if leb reconnect_reset_threshold (at - start) then fresh s else s))

-- `MissedTickBehavior::Skip`: the next tick is due at the next multiple of the interval.
unfoldable pub next_tick : ℕ → ℕ → ℕ
next_tick due at = due + heartbeat_interval * ((at - due) / heartbeat_interval + 1)

unfoldable pub heartbeat : Bool → ℕ → ℕ → ℕ → HostState → ℕ → Supervisor → Step
heartbeat true start due misses state at s =
    let quiet = record s { phase = live start (next_tick due at) 0 state } in
    let well = record s { phase = live start (next_tick due at) 0 connected } in
    if ltb 0 misses && same_state state degraded
    then (well, state_changed connected none ∷ [])
    else (quiet, [])
heartbeat false start due misses state at s =
    let quiet = record s { phase = live start (next_tick due at) (misses + 1) state } in
    let late = record s { phase = live start (next_tick due at) (misses + 1) degraded } in
    if leb disconnected_threshold (misses + 1)
    then heartbeat_failed start at s
    else if leb degraded_threshold (misses + 1) && not (same_state state degraded)
    then (late, state_changed degraded none ∷ [])
    else (quiet, [])

unfoldable pub elapsed : ℕ → Supervisor → Step
elapsed at s =
    top_of_loop at (record s { backoff_idx = min (s.backoff_idx + 1) (length backoff_ladder - 1) })

-- A timer does not fire before its time, and the other phases have none.
unfoldable pub on_timer : Phase → Bool → ℕ → Supervisor → Step
on_timer (live start due misses state) sent at s =
    if leb due at then heartbeat sent start due misses state at s else (s, [])
on_timer (backing_off until) sent at s = if leb until at then elapsed at s else (s, [])
on_timer _ sent at s = (s, [])

unfoldable pub on_attempted : Phase → Attempt → ℕ → Supervisor → Step
on_attempted (dialling start) a at s = on_attempt a start at s
on_attempted _ a at s = (s, [])

unfoldable pub step : ℕ → Wake → Supervisor → Step
step at (message m) s = on_message m at s
step at (attempted a) s = on_attempted s.phase a at s
step at (timer sent) s = on_timer s.phase sent at s
