-- ===== src/Docker/Streams/Runs.antt =====
-- The subscriptions of the Docker tile in a run: crates/tepegoz-tui/src/app.rs.
use tepegoz.Prelude.{ℕ, refl, Option, List, [], arith, Bool-cases, inl, inr, map}
use tepegoz.Ratatui.{Geometry}
use tepegoz.Keys.{ScopeKey}
use tepegoz.Logs.{new}
use tepegoz.App.{App, AppAction, Vt100, new_app, alloc_sub_id}
use tepegoz.App.Focus.{move_focus_to}
use tepegoz.App.Toasts.{sweep_expired}
use tepegoz.Daemon.{ScopeTarget}
use tepegoz.Docker.{
  available, DockerScope, Panel, Pushed, app_action, new_docker_scope, display_name_for,
}
use tepegoz.Docker.Keys.{Done, dispatch_docker_action, enter_logs, handle_scope_key}
use tepegoz.Docker.Events.{
  DockerEvent, container_list, docker_unavailable, container_log, docker_stream_ended, other_event,
  handle_docker_event, handle_logs_event, retarget_docker, same_target, handle_action_result,
}
use tepegoz.Docker.Steps.{
  Question, InRange, KeyStep, dropped, in_list, scrolled, left, prompted, cancelled, answered,
  issued, entered,
}
use tepegoz.Docker.Steps.Moves.{clamp_selection-view, clamp_selection-sub_id}
use tepegoz.Docker.Steps.Cases.{handle_scope_key-KeyStep}
use tepegoz.Docker.Runs.{
  Happening, pressed, listed, logged, targeted, focused, ticked, resulted, elsewhere, step,
  DockerReached, started, happened,
}
use tepegoz.Docker.Selection.{DockerReached-PanelFits}
use tepegoz.Docker.Calm.{IsCalm, sweep-IsCalm, move_focus-IsCalm, result-IsCalm}
use tepegoz.Docker.Streams.{
  subscribed, subscribed-append, subscribed-quiet, Watches, same_logs-Watches, left-Watches,
  entered-Watches,
}
use tepegoz.Docker.Streams.Events.{to_logs-Watches, to_logs-subscribed, retargeted-Watches}

module _ (to_lowercase : List ℕ → List ℕ) where
  listed-Watches :
      (event : DockerEvent) (d : DockerScope) (next : ℕ) (subs : List ℕ)
      → Watches d.view d.sub_id next subs
      → Watches
          (handle_docker_event to_lowercase event d).0.view
          (handle_docker_event to_lowercase event d).0.sub_id
          next
          (subscribed (handle_docker_event to_lowercase event d).1 subs)
  unfolding handle_docker_event subscribed
  listed-Watches (container_list containers source) d next subs h =
      let shown = record d { state = available containers source } in
      rw (clamp_selection-view to_lowercase shown, clamp_selection-sub_id to_lowercase shown) h
  listed-Watches (docker_unavailable reason) d next subs h = h
  listed-Watches (container_log stream bytes) d next subs h = h
  listed-Watches (docker_stream_ended reason) d next subs h = h
  listed-Watches other_event d next subs h = h

module _ {Parser : Type 0} (to_lowercase : List ℕ → List ℕ) where
  abbrev pub IsWatching : Panel Parser → List ℕ → Type 0
  IsWatching p subs = Watches p.docker.view p.docker.sub_id p.app.next_sub_id subs

  key-IsWatching :
      (now : ℕ) (key : ScopeKey) (p : Panel Parser) (subs : List ℕ) (r : Done Parser)
      → KeyStep to_lowercase now key p r
      → IsWatching p subs
      → IsWatching r.0 (subscribed r.1 subs)
  unfolding dispatch_docker_action enter_logs alloc_sub_id subscribed new
  key-IsWatching now key p subs _ dropped h = h
  key-IsWatching now key p subs _ (in_list d v s t range) h = rw (v, s) h
  key-IsWatching now key p subs _ (scrolled l l' v s) h =
      same_logs-Watches p.docker.view l l' p.docker.sub_id p.app.next_sub_id subs v s h
  key-IsWatching now key p subs _ (left l v) h =
      left-Watches p.docker.view l p.docker.sub_id p.app.next_sub_id subs v h
  key-IsWatching now key p subs _ (prompted c kind v q) h = h
  key-IsWatching now key p subs _ cancelled h = h
  key-IsWatching now key p subs _ (answered pc e y) h = (h.0, h.1, omega (arith, h.2))
  key-IsWatching now key p subs _ (issued c kind safe) h = (h.0, h.1, omega (arith, h.2))
  key-IsWatching now key p subs _ (entered c v n) h =
      entered-Watches p.docker.view (new c.id (display_name_for c) p.app.next_sub_id)
        p.docker.sub_id p.app.next_sub_id subs v refl h

  targeted-IsWatching :
      (target : ScopeTarget) (p : Panel Parser) (subs : List ℕ)
      → IsWatching p subs
      → IsWatching (retarget_docker target p).0 (subscribed (retarget_docker target p).1 subs)
  unfolding retarget_docker subscribed
  targeted-IsWatching target p subs h = elim (Bool-cases (same_target p.docker.target target)) [
    | inl e ↦ rw e h
    | inr e ↦
        rw e (retargeted-Watches p.docker.view p.docker.sub_id p.app.next_sub_id target subs h)
  ]

  calm-IsWatching :
      (p : Panel Parser) (r : App Parser × List AppAction) (subs : List ℕ)
      → IsCalm p.app r
      → IsWatching p subs
      → IsWatching (record p { app = r.0 }) (subscribed (map app_action r.1) subs)
  calm-IsWatching p r subs calm h = rw (calm.ids, subscribed-quiet r.1 subs calm.quiet) h

  step-IsWatching :
      (h : Happening) (p : Panel Parser) (subs : List ℕ)
      → InRange to_lowercase p.docker
      → IsWatching p subs
      → IsWatching (step to_lowercase h p).0 (subscribed (step to_lowercase h p).1 subs)
  unfolding step handle_logs_event alloc_sub_id subscribed
  step-IsWatching (pressed now key) p subs range h =
      key-IsWatching now key p subs (handle_scope_key to_lowercase now key p)
        (handle_scope_key-KeyStep to_lowercase now key p range) h
  step-IsWatching (listed event) p subs range h =
      listed-Watches to_lowercase event p.docker p.app.next_sub_id subs h
  step-IsWatching (logged event) p subs range h =
      rw (to_logs-subscribed p.docker.view event p.docker subs)
        (to_logs-Watches p.docker.view event p.docker p.app.next_sub_id subs refl h)
  step-IsWatching (targeted target) p subs range h = targeted-IsWatching target p subs h
  step-IsWatching (focused tile) p subs range h =
      calm-IsWatching p (move_focus_to p.app tile) subs (move_focus-IsCalm p.app tile) h
  step-IsWatching (ticked now) p subs range h =
      calm-IsWatching p (sweep_expired p.app now) subs (sweep-IsCalm p.app now) h
  step-IsWatching (resulted now result) p subs range h =
      calm-IsWatching p (handle_action_result now result p.app) subs
        (result-IsCalm now result p.app) h
  step-IsWatching elsewhere p subs range h = (h.0, h.1, omega (arith, h.2))

-- In every run, what the tile has subscribed at the daemon and not given up is its list and, while a
-- transcript is shown, that transcript, under another id: no stream is left behind, by any key, new
-- target or end of a stream.
pub DockerReached-IsWatching :
    {Parser : Type 0} (geometry : Geometry) (vt : Vt100 Parser) (to_lowercase : List ℕ → List ℕ)
    (p : Panel Parser) (pushed : List Pushed) (last : Option Question)
    → DockerReached geometry vt to_lowercase p pushed last
    → IsWatching to_lowercase p (subscribed pushed [])
unfolding new_docker_scope new_app subscribed
DockerReached-IsWatching geometry vt to_lowercase _ _ _ (started pane label rows cols) =
    (refl, tt, omega arith)
DockerReached-IsWatching geometry vt to_lowercase _ _ _ (happened {p} {pushed} {last} h r) =
    rw (subscribed-append pushed (step to_lowercase h p).1 []) (
      step-IsWatching to_lowercase h p (subscribed pushed [])
        (DockerReached-PanelFits geometry vt to_lowercase p pushed last r).0
        (DockerReached-IsWatching geometry vt to_lowercase p pushed last r))
