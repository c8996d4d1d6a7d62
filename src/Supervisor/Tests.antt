-- ===== src/Supervisor/Tests.antt =====
-- Runs of the supervisor of a host: `host_supervisor` of crates/tepegoz-core/src/client.rs.
use tepegoz.Prelude.{
  ℕ, ◌+◌, ◌≡◌, inl, refl, Bool, true, false, Option, none, some, List, [], ◌∷◌, ◌++◌, arith, length,
  not, min,
}
use tepegoz.Fleet.{connected, degraded, HostEntry}
use tepegoz.Supervisor.{
  live, backing_off, Reason, Wake, attempted, timer, session, lost, Step, emit, begin_with, begin,
  top_of_loop, wait_backoff, on_attempt, on_attempted, on_timer, heartbeat, next_tick, step,
  backoff_delay,
}
use tepegoz.Supervisor.View.{told, untold, Agrees, PhaseAgrees, Reached, started, stepped}
use tepegoz.Text.Same.{same_text}
use tepegoz.Fleet.{
  FleetScope, new_fleet_scope, handle_fleet_event, host_list, state_of, list_hosts, seeded,
}
use tepegoz.Supervisor.View.Runs.{Reached-Agrees}
use tepegoz.Supervisor.Graph.{IsLife}
use tepegoz.Supervisor.Graph.Runs.{Reached-IsLife}
use tepegoz.Supervisor.Backoff.{backing_off-redials, heartbeat_failure_resets, dials_at}
use tepegoz.Supervisor.Heartbeat.{
  beats, beats-live, is_live_phase, live_now, three_missed, fails, fails-waits, dials, dialled_for,
  waits,
}
use tepegoz.Supervisor.Shown.{Reached-shown, shown_state, shows}

abbrev box : HostEntry
box = record {
  alias = b'b' ∷ [];
  hostname = b'b' ∷ b'x' ∷ [];
  user = b'u' ∷ [];
  port = 22;
  identity_files = [];
  proxy_jump = none;
}

-- A run: the state and all that was sent, from the first state on.
abbrev after : ℕ → Wake → Step → Step
after at w r = ((step at w r.0).0, r.1 ++ (step at w r.0).1)

abbrev dialled : Step
dialled = begin box true 0

abbrev on_line : Step
on_line = after 100 (attempted (session (some ((b'd' ∷ []) ∷ [])))) dialled

abbrev missed_one : Step
missed_one = after 30100 (timer false) on_line

abbrev missed_two : Step
missed_two = after 60100 (timer false) missed_one

abbrev cut_off : Step
cut_off = after 100 (attempted lost) dialled

dialled_run : Reached box true 0 dialled.0 dialled.1
dialled_run = started 0

on_line_run : Reached box true 100 on_line.0 on_line.1
on_line_run = stepped 100 (attempted (session (some ((b'd' ∷ []) ∷ [])))) (omega arith) dialled_run

missed_one_run : Reached box true 30100 missed_one.0 missed_one.1
missed_one_run = stepped 30100 (timer false) (omega arith) on_line_run

missed_two_run : Reached box true 60100 missed_two.0 missed_two.1
missed_two_run = stepped 60100 (timer false) (omega arith) missed_one_run

cut_off_run : Reached box true 100 cut_off.0 cut_off.1
cut_off_run = stepped 100 (attempted lost) (omega arith) dialled_run

missed_two-phase : missed_two.0.phase ≡ live 0 90100 2 degraded
unfolding step begin begin_with emit top_of_loop on_attempted on_attempt on_timer heartbeat
    next_tick
missed_two-phase = refl

cut_off-phase : cut_off.0.phase ≡ backing_off 1100
unfolding step begin begin_with emit top_of_loop on_attempted on_attempt wait_backoff backoff_delay
cut_off-phase = refl

Reached-Agrees_example : Agrees 60100 missed_two.0 (told untold missed_two.1)
Reached-Agrees_example = Reached-Agrees box true 60100 missed_two.0 missed_two.1 missed_two_run

Reached-IsLife_example : IsLife untold missed_two.1
Reached-IsLife_example = Reached-IsLife box true 60100 missed_two.0 missed_two.1 missed_two_run

backing_off-redials_example :
    (step 60100 (timer false) cut_off.0).0 ≡ dials_at 60100 (min (cut_off.0.backoff_idx + 1) 4)
backing_off-redials_example =
    backing_off-redials box true 100 cut_off.0 cut_off.1 cut_off_run 1100 60100 false cut_off-phase
      (omega arith)

heartbeat_failure_resets_example :
    (step 90100 (timer false) missed_two.0).0
    ≡ record { phase = backing_off (90100 + 1000); should_connect = true; backoff_idx = 0 }
heartbeat_failure_resets_example =
    heartbeat_failure_resets box true 60100 missed_two.0 missed_two.1 missed_two_run 0 90100 2 90100
      degraded missed_two-phase (omega arith) (omega arith)

abbrev ticks : List (ℕ × Bool)
ticks = (0, false) ∷ (5, false) ∷ (0, true) ∷ (70000, false) ∷ []

beats-live_example :
    is_live_phase (beats ticks (live_now 0 30000 0 connected true 0)).phase
    ≡ not (three_missed 0 ticks)
beats-live_example = beats-live ticks 0 30000 0 connected true 0 (inl (refl, refl))

abbrev attempts : List (ℕ × Option (List ℕ))
attempts = (300, some (b'x' ∷ [])) ∷ (10, none) ∷ []

fails-waits_example : fails attempts 0 (dials 0 (min 3 4)) ≡ (
  0 + dialled_for attempts + waits 3 (length attempts),
  dials (0 + dialled_for attempts + waits 3 (length attempts)) (min (3 + length attempts) 4),
)
fails-waits_example = fails-waits attempts 0 3

abbrev folded : List ℕ → List ℕ
folded text = text

abbrev said : Reason → List ℕ
said reason = []

abbrev listed : FleetScope
listed = (handle_fleet_event folded (new_fleet_scope 5) (host_list (box ∷ []) [])).0

Reached-shown_example : PhaseAgrees 60100 missed_two.0.phase missed_two.0.should_connect (record {
  state = shown_state box.alias (shows folded said box.alias listed missed_two.1).state;
  capabilities = (told untold missed_two.1).capabilities;
})
unfolding handle_fleet_event list_hosts seeded state_of same_text new_fleet_scope
Reached-shown_example =
    Reached-shown folded said box true 60100 missed_two.0 missed_two.1 listed missed_two_run refl
      refl
