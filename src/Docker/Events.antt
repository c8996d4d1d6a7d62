-- ===== src/Docker/Events.antt =====
-- What reaches the Docker tile from the daemon, and a new target: `handle_docker_event`,
-- `handle_logs_event`, the arm `DockerActionResult` of `handle_daemon_envelope` and `retarget_docker` of
-- crates/tepegoz-tui/src/app.rs.
use tepegoz.Prelude.{
  ℕ, Bool, true, false, not, Option, none, some, List, [], ◌∷◌, ◌++◌, if◌then◌else◌, filter_by,
  find?,
}
use tepegoz.Text.Same.{same_text}
use tepegoz.Logs.{LogStream, ingest, end_stream}
use tepegoz.App.{
  App, AppAction, DockerActionKind, PendingAction, success, error, succeeded, action_failed,
}
use tepegoz.App.Toasts.{has_id, push_toast_at}
use tepegoz.Daemon.{ScopeTarget, local, remote}
use tepegoz.Docker.{
  DockerContainer, connecting, available, unavailable, DockerView, list, logs, DockerScope, Panel,
  Pushed, redraw, unsubscribed, subscribe_docker, clamp_selection,
}
use tepegoz.Docker.Keys.{action_verb}

pub data DockerEvent : Type 0 where
  container_list : List DockerContainer → List ℕ → DockerEvent
  docker_unavailable : List ℕ → DockerEvent
  container_log : LogStream → List ℕ → DockerEvent
  docker_stream_ended : List ℕ → DockerEvent
  other_event : DockerEvent

-- `None` for `DockerActionOutcome::Success`, the reason for a failure.
pub record DockerActionResult : Type 0 where
  pub request_id : ℕ
  pub container_id : List ℕ
  pub kind : DockerActionKind
  pub failure : Option (List ℕ)

abbrev pub same_target : ScopeTarget → ScopeTarget → Bool
same_target local local = true
same_target (remote a) (remote b) = same_text a b
same_target _ _ = false

module _ (to_lowercase : List ℕ → List ℕ) where
  unfoldable pub handle_docker_event : DockerEvent → DockerScope → DockerScope × List Pushed
  handle_docker_event (container_list containers source) d =
      (clamp_selection to_lowercase (record d { state = available containers source }), redraw ∷ [])
  handle_docker_event (docker_unavailable reason) d =
      (record d { state = unavailable reason; selection = 0 }, redraw ∷ [])
  handle_docker_event _ d = (d, [])

unfoldable pub to_logs : DockerView → DockerEvent → DockerScope → DockerScope × List Pushed
to_logs list event d = (d, [])
to_logs (logs l) (container_log stream bytes) d =
    (record d { view = logs (ingest l stream bytes) }, redraw ∷ [])
to_logs (logs l) (docker_stream_ended reason) d =
    (record d { view = logs (end_stream l reason) }, redraw ∷ [])
to_logs (logs l) _ d = (d, [])

unfoldable pub handle_logs_event : DockerEvent → DockerScope → DockerScope × List Pushed
unfolding to_logs
handle_logs_event event d = to_logs d.view event d

abbrev pub leave_logs : DockerView → List Pushed
leave_logs list = []
leave_logs (logs l) = unsubscribed l.sub_id ∷ []

abbrev pub description_of : DockerActionResult → Option (ℕ × PendingAction) → List ℕ
description_of result (some entry) = entry.1.description
description_of result none = action_verb result.kind ++ 32 ∷ result.container_id

module _ {Parser : Type 0} where
  unfoldable pub retarget_docker : ScopeTarget → Panel Parser → Panel Parser × List Pushed
  retarget_docker new_target p =
      if same_target p.docker.target new_target then (p, redraw ∷ []) else (
        record {
          app = record p.app { pending_confirm = none };
          docker = record p.docker {
            view = list;
            state = connecting;
            selection = 0;
            target = new_target;
          };
        },
        leave_logs p.docker.view
            ++ unsubscribed p.docker.sub_id
              ∷ subscribe_docker p.docker.sub_id new_target
              ∷ redraw
              ∷ [],
      )

  -- The toast of an outcome.
  unfoldable pub report : ℕ → List ℕ → Option (List ℕ) → App Parser → App Parser × List AppAction
  report now description none app = push_toast_at app now success (succeeded description)
  report now description (some reason) app =
      push_toast_at app now error (action_failed description reason)

  unfoldable pub handle_action_result :
      ℕ → DockerActionResult → App Parser → App Parser × List AppAction
  unfolding report
  handle_action_result now result app =
      let description =
        description_of result (find? (has_id result.request_id) app.pending_actions) in
      let known = record app {
        pending_actions = filter_by (λ e. not (has_id result.request_id e)) app.pending_actions;
      } in
      report now description result.failure known
