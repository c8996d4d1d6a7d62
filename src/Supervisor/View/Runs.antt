-- ===== src/Supervisor/View/Runs.antt =====
-- What holds in every run of the supervisor of a host: `host_supervisor` of
-- crates/tepegoz-core/src/client.rs.
use tepegoz.Prelude.{ℕ, ◌≤◌, refl, Bool, none, some, List}
use tepegoz.Fleet.{HostEntry}
use tepegoz.Supervisor.{
  Supervisor, Emitted, Wake, message, attempted, timer, reconnect, disconnect, on_message, step,
}
use tepegoz.Supervisor.View.{View, told, untold, told-append, Agrees, Reached, started, stepped}
use tepegoz.Supervisor.View.Steps.{
  StepAgrees, on_closed-Agrees, on_reconnect-Agrees, on_disconnect-Agrees, on_attempted-Agrees,
  begin-Agrees,
}
use tepegoz.Supervisor.View.Timers.{on_timer-Agrees}

step-Agrees :
    (t at : ℕ) (w : Wake) (s : Supervisor) (v : View)
    → t ≤ at
    → Agrees t s v
    → StepAgrees at (step at w s) v
unfolding step on_message
step-Agrees t at (message none) s v later h = on_closed-Agrees t at later s v h.1 s.phase h.0
step-Agrees t at (message (some reconnect)) s v later h =
    on_reconnect-Agrees t at later s v h.1 s.phase refl h.0
step-Agrees t at (message (some disconnect)) s v later h =
    on_disconnect-Agrees t at later s v h.1 s.phase refl h.0
step-Agrees t at (attempted a) s v later h =
    on_attempted-Agrees t at later s v h.1 s.phase a refl h.0
step-Agrees t at (timer sent) s v later h = on_timer-Agrees t at later s v h.1 s.phase sent refl h.0

-- In every run, whatever the order of the wake-ups, what the client was told last is what the
-- supervisor is in: Disconnected and no capabilities while it is idle or backs off, Connecting
-- while it dials, the state of the heartbeat while the session is live, a failure of the key or of
-- the login while it waits for the user. A live session has missed fewer than three heartbeats, and
-- was told Degraded exactly where it has missed one. The index of the backoff stays on the ladder.
pub Reached-Agrees :
    (entry : HostEntry) (autoconnect : Bool) (t : ℕ) (s : Supervisor) (es : List Emitted)
    → Reached entry autoconnect t s es
    → Agrees t s (told untold es)
Reached-Agrees entry autoconnect _ _ _ (started at) = begin-Agrees entry autoconnect at
Reached-Agrees entry autoconnect _ _ _ (stepped {t} {s} {es} at w later r) =
    rw (told-append untold es (step at w s).1)
      (step-Agrees t at w s (told untold es) later (Reached-Agrees entry autoconnect t s es r))
