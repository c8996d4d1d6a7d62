-- ===== src/Supervisor/Graph.antt =====
-- The life of a host as the client may see it, and that the supervisor keeps to it: the documentation
-- of `HostState` in crates/tepegoz-proto/src/lib.rs, and `host_supervisor` of
-- crates/tepegoz-core/src/client.rs, which implements it.
pub mod Runs
use tepegoz.Prelude.{
  ℕ, zero, suc, ◌+◌, ◌-◌, ◌*◌, ◌/◌, ◌≤◌, ◌<◌, ◌≡◌, ◌≢◌, ◌⊎◌, inl, inr, refl, sym, ap, ◌∙◌, Bool,
  true, false, Option, none, some, List, [], ◌∷◌, ◌++◌, arith, length, Bool-cases, if◌then◌else◌,
  leb, ltb, ◌==◌, ◌&&◌, ◌||◌, not, min, All, map, is_empty, >>=-eq-some, Option-cases, get_elem?,
  filter_by,
}
use tepegoz.Fleet.{
  HostState, disconnected, connecting, connected, degraded, auth_failed, host_key_mismatch,
  agent_not_deployed, agent_version_mismatch, HostEntry, same_state, is_terminal,
}
use tepegoz.Supervisor.{
  Supervisor, Phase, parked, idle, dialling, live, terminal, backing_off, exited, Emitted, Reason,
  state_changed, agent_capabilities, Wake, message, attempted, timer, Attempt, session, failed,
  lost, SshError, key_mismatch, auth_error, other_error, HostAction, reconnect, disconnect, Step,
  emit, begin_with, begin, top_of_loop, wait_backoff, on_reconnect, on_disconnect, on_closed,
  on_message, on_error, on_attempt, on_attempted, on_timer, heartbeat, heartbeat_failed, elapsed,
  next_tick, step, backoff_ladder, fresh, unwanted, gone, dropped, heartbeat_interval,
  backoff_delay,
}
use tepegoz.Supervisor.View.{
  View, told, untold, told-append, Agrees, PhaseAgrees, LiveState, IsUnwell, Reached, started,
  stepped, longest_backoff,
}
use tepegoz.Supervisor.View.Runs.{Reached-Agrees}

abbrev pub is_some : Option Reason → Bool
is_some none = false
is_some (some reason) = true

-- The states that may follow one another. A host first shows up disconnected, or as failed where it
-- needs a jump host, and then the same failure may be reported again.
abbrev pub may_follow : Option HostState → HostState → Bool
may_follow none disconnected = true
may_follow none auth_failed = true
may_follow (some disconnected) connecting = true
may_follow (some connecting) connecting = true
may_follow (some connecting) connected = true
may_follow (some connecting) disconnected = true
may_follow (some connecting) auth_failed = true
may_follow (some connecting) host_key_mismatch = true
may_follow (some connected) degraded = true
may_follow (some connected) disconnected = true
may_follow (some degraded) connected = true
may_follow (some degraded) disconnected = true
may_follow (some auth_failed) disconnected = true
may_follow (some auth_failed) auth_failed = true
may_follow (some host_key_mismatch) disconnected = true
may_follow _ _ = false

abbrev pub is_live : Option HostState → Bool
is_live (some connected) = true
is_live (some degraded) = true
is_live _ = false

-- What may be told to a client next: a state that follows, with a reason exactly where it is terminal,
-- once the capabilities are withdrawn; or capabilities, of a live host.
abbrev pub May : View → Emitted → Type 0
May v (state_changed state reason) =
    (may_follow v.state state ≡ true)
    × (is_some reason ≡ is_terminal state)
    × (is_live (some state) ≡ false → v.capabilities ≡ [])
May v (agent_capabilities capabilities) = is_live v.state ≡ true

abbrev pub IsLife : View → List Emitted → Type 0
IsLife v [] = Unit
IsLife v (e ∷ es) = May v e × IsLife (told v (e ∷ [])) es

pub IsLife-append :
    (v : View) (es fs : List Emitted) → IsLife v es → IsLife (told v es) fs → IsLife v (es ++ fs)
unfolding told
IsLife-append v [] fs h k = k
IsLife-append v (state_changed state reason ∷ es) fs h k =
    (h.0, IsLife-append (record v { state = some state }) es fs h.1 k)
IsLife-append v (agent_capabilities capabilities ∷ es) fs h k =
    (h.0, IsLife-append (record v { capabilities = capabilities }) es fs h.1 k)

pub top_of_loop-IsLife :
    (at : ℕ) (s : Supervisor) (v : View)
    → v.capabilities ≡ []
    → (s.should_connect ≡ true → may_follow v.state connecting ≡ true)
    → IsLife v (top_of_loop at s).1
unfolding top_of_loop
top_of_loop-IsLife at s v c m = elim (Bool-cases s.should_connect) [
  | inl e ↦ rw e ((m e, refl, λ f. c), tt)
  | inr e ↦ rw e tt
]

pub emit-IsLife :
    (es : List Emitted) (r : Step) (v : View)
    → IsLife v es
    → IsLife (told v es) r.1
    → IsLife v (emit es r).1
unfolding emit
emit-IsLife es r v h k = IsLife-append v es r.1 h k

-- The end of a live session, and of an attempt that may be made again.
pub live_ends :
    (misses : ℕ) (state : HostState) (v : View)
    → v.state ≡ some state
    → LiveState misses state
    → IsLife v (gone ∷ dropped ∷ [])
unfolding told
live_ends misses state v e (inl (m, q)) = rw (e, q) (refl, ((refl, refl, λ f. refl), tt))
live_ends misses state v e (inr (m, m', q)) = rw (e, q) (refl, ((refl, refl, λ f. refl), tt))

pub drops :
    (v : View)
    → v.capabilities ≡ []
    → may_follow v.state disconnected ≡ true
    → IsLife v (dropped ∷ [])
drops v c m = ((m, refl, λ f. c), tt)
