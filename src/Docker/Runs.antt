-- ===== src/Docker/Runs.antt =====
-- Runs of the Docker tile: what reaches it in crates/tepegoz-tui/src/app.rs, in any order. The handlers
-- of other tiles only take subscription ids.
use tepegoz.Prelude.{ℕ, Option, none, some, List, [], ◌∷◌, ◌++◌, map}
use tepegoz.Ratatui.{Geometry}
use tepegoz.Tile.{TileId}
use tepegoz.Keys.{ScopeKey}
use tepegoz.App.{Vt100, new_app, alloc_sub_id}
use tepegoz.App.Toasts.{sweep_expired}
use tepegoz.App.Focus.{move_focus_to}
use tepegoz.Daemon.{ScopeTarget, local}
use tepegoz.Docker.{Panel, Pushed, app_action, subscribe_docker, new_docker_scope}
use tepegoz.Docker.Keys.{Done, handle_scope_key}
use tepegoz.Docker.Events.{
  DockerEvent, DockerActionResult, handle_docker_event, handle_logs_event, retarget_docker,
  handle_action_result,
}
use tepegoz.Docker.Steps.{Question, asked_by}

pub data Happening : Type 0 where
  pressed : (now : ℕ) → ScopeKey → Happening
  listed : DockerEvent → Happening
  logged : DockerEvent → Happening
  targeted : ScopeTarget → Happening
  focused : TileId → Happening
  ticked : (now : ℕ) → Happening
  resulted : (now : ℕ) → DockerActionResult → Happening
  elsewhere : Happening

abbrev pub or_last : Option Question → Option Question → Option Question
or_last none last = last
or_last (some question) last = some question

module _ {Parser : Type 0} (to_lowercase : List ℕ → List ℕ) where
  unfoldable pub step : Happening → Panel Parser → Done Parser
  step (pressed now key) p = handle_scope_key to_lowercase now key p
  step (listed event) p =
      let (d, actions) = handle_docker_event to_lowercase event p.docker in
      (record p { docker = d }, actions)
  step (logged event) p =
      let (d, actions) = handle_logs_event event p.docker in (record p { docker = d }, actions)
  step (targeted target) p = retarget_docker target p
  step (focused tile) p =
      let (app, actions) = move_focus_to p.app tile in
      (record p { app = app }, map app_action actions)
  step (ticked now) p =
      let (app, actions) = sweep_expired p.app now in
      (record p { app = app }, map app_action actions)
  step (resulted now result) p =
      let (app, actions) = handle_action_result now result p.app in
      (record p { app = app }, map app_action actions)
  step elsewhere p = (record p { app = (alloc_sub_id p.app).1 }, [])

  -- The last question that the user asked.
  unfoldable pub question_after : Happening → Panel Parser → Option Question → Option Question
  question_after (pressed now key) p last =
      or_last (asked_by to_lowercase p.app.pending_confirm key p.docker) last
  question_after _ p last = last

module _ {Parser : Type 0} (geometry : Geometry) (vt : Vt100 Parser)
    (to_lowercase : List ℕ → List ℕ) where
  -- A state of a run, all that was pushed, and the last question.
  pub data DockerReached : Panel Parser → List Pushed → Option Question → Type 0 where
    started :
        (pane : ℕ) (label : List ℕ) (rows cols : ℕ)
        → DockerReached
            (record { app = new_app geometry vt pane label rows cols; docker = new_docker_scope 2 })
            (subscribe_docker 2 local ∷ [])
            none
    happened :
        {p : Panel Parser} {pushed : List Pushed} {last : Option Question} (h : Happening)
        → DockerReached p pushed last
        → DockerReached
            (step to_lowercase h p).0
            (pushed ++ (step to_lowercase h p).1)
            (question_after to_lowercase h p last)
