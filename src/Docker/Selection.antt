-- ===== src/Docker/Selection.antt =====
-- The selection and the prompt of the Docker tile, in crates/tepegoz-tui/src/app.rs.
use tepegoz.Prelude.{ℕ, ◌≡◌, refl, sym, Option, none, List, arith, inl, inr, Bool-cases}
use mathlib.Core.Path.{subst}
use tepegoz.Ratatui.{Geometry}
use tepegoz.Keys.{ScopeKey}
use tepegoz.App.{App, AppAction, PendingConfirm, Vt100, alloc_sub_id}
use tepegoz.Daemon.{ScopeTarget}
use tepegoz.Docker.{
  available, DockerView, list, logs, DockerScope, Panel, Pushed, new_docker_scope, visible_count,
  visible_containers,
}
use tepegoz.Docker.Keys.{Done, dispatch_docker_action, enter_logs, handle_scope_key}
use tepegoz.Docker.Events.{
  DockerEvent, container_list, docker_unavailable, container_log, docker_stream_ended, other_event,
  handle_docker_event, handle_logs_event, to_logs, retarget_docker, same_target,
  handle_action_result,
}
use tepegoz.Docker.Steps.{
  Question, InRange, KeyStep, with_prompt, dropped, in_list, scrolled, left, prompted, cancelled,
  answered, issued, entered,
}
use tepegoz.App.Focus.{move_focus_to}
use tepegoz.App.Toasts.{sweep_expired}
use tepegoz.Docker.Steps.Moves.{clamp_selection-InRange, clamp_selection-view}
use tepegoz.Docker.Steps.Cases.{handle_scope_key-KeyStep}
use tepegoz.Docker.Runs.{
  Happening, pressed, listed, logged, targeted, focused, ticked, resulted, elsewhere, step,
  DockerReached, started, happened,
}
use tepegoz.Docker.Calm.{IsCalm, sweep-IsCalm, move_focus-IsCalm, result-IsCalm}

-- A prompt is asked over the list only.
abbrev pub PromptFits : DockerView → Option PendingConfirm → Type 0
PromptFits list prompt = Unit
PromptFits (logs l) prompt = prompt ≡ none

no_prompt-PromptFits : (view : DockerView) → PromptFits view none
no_prompt-PromptFits list = tt
no_prompt-PromptFits (logs l) = refl

list-PromptFits :
    (view : DockerView) (prompt : Option PendingConfirm) → view ≡ list → PromptFits view prompt
list-PromptFits view prompt v = subst (λ w. PromptFits w prompt) (sym v) tt

module _ (to_lowercase : List ℕ → List ℕ) where
  -- The rows do not depend on the view.
  view-InRange :
      (d : DockerScope) (view : DockerView)
      → InRange to_lowercase d
      → InRange to_lowercase (record d { view = view })
  unfolding visible_count visible_containers
  view-InRange d view h = h

module _ {Parser : Type 0} (to_lowercase : List ℕ → List ℕ) where
  abbrev pub PanelFits : Panel Parser → Type 0
  PanelFits p = InRange to_lowercase p.docker × PromptFits p.docker.view p.app.pending_confirm

  key-PanelFits :
      (now : ℕ) (key : ScopeKey) (p : Panel Parser) (r : Done Parser)
      → KeyStep to_lowercase now key p r
      → PanelFits p
      → PanelFits r.0
  unfolding dispatch_docker_action enter_logs alloc_sub_id
  key-PanelFits now key p _ dropped h = h
  key-PanelFits now key p _ (in_list d v s t range) h =
      (range, subst (λ view. PromptFits view p.app.pending_confirm) (sym v) h.1)
  key-PanelFits now key p _ (scrolled l l' v s) h = (
    view-InRange to_lowercase p.docker (logs l') h.0,
    subst (λ view. PromptFits view p.app.pending_confirm) v h.1,
  )
  key-PanelFits now key p _ (left l v) h = (view-InRange to_lowercase p.docker list h.0, tt)
  key-PanelFits now key p _ (prompted c kind v q) h = (
    h.0,
    list-PromptFits p.docker.view (with_prompt to_lowercase now c kind p).app.pending_confirm v,
  )
  key-PanelFits now key p _ cancelled h = (h.0, no_prompt-PromptFits p.docker.view)
  key-PanelFits now key p _ (answered pc e y) h = (h.0, no_prompt-PromptFits p.docker.view)
  key-PanelFits now key p _ (issued c kind safe) h = h
  key-PanelFits now key p _ (entered c v n) h = (view-InRange to_lowercase p.docker _ h.0, n)

  listed-PanelFits :
      (event : DockerEvent) (p : Panel Parser)
      → PanelFits p
      → PanelFits (step to_lowercase (listed event) p).0
  unfolding step handle_docker_event visible_count visible_containers
  listed-PanelFits (container_list containers source) p h =
      let d = record p.docker { state = available containers source } in
      (
        clamp_selection-InRange to_lowercase d,
        subst (λ view. PromptFits view p.app.pending_confirm)
            (sym (clamp_selection-view to_lowercase d)) h.1,
      )
  listed-PanelFits (docker_unavailable reason) p h = (omega arith, h.1)
  listed-PanelFits (container_log stream bytes) p h = h
  listed-PanelFits (docker_stream_ended reason) p h = h
  listed-PanelFits other_event p h = h

  logged-PanelFits :
      (view : DockerView) (event : DockerEvent) (p : Panel Parser)
      → InRange to_lowercase p.docker
      → p.docker.view ≡ view
      → PromptFits view p.app.pending_confirm
      → PanelFits (record p { docker = (to_logs view event p.docker).0 })
  unfolding to_logs visible_count visible_containers
  logged-PanelFits list event p h v k =
      (h, subst (λ w. PromptFits w p.app.pending_confirm) (sym v) k)
  logged-PanelFits (logs l) (container_log stream bytes) p h v k = (h, k)
  logged-PanelFits (logs l) (docker_stream_ended reason) p h v k = (h, k)
  logged-PanelFits (logs l) (container_list containers source) p h v k =
      (h, subst (λ w. PromptFits w p.app.pending_confirm) (sym v) k)
  logged-PanelFits (logs l) (docker_unavailable reason) p h v k =
      (h, subst (λ w. PromptFits w p.app.pending_confirm) (sym v) k)
  logged-PanelFits (logs l) other_event p h v k =
      (h, subst (λ w. PromptFits w p.app.pending_confirm) (sym v) k)

  targeted-PanelFits :
      (target : ScopeTarget) (p : Panel Parser)
      → PanelFits p
      → PanelFits (retarget_docker target p).0
  unfolding retarget_docker visible_count visible_containers
  targeted-PanelFits target p h = elim (Bool-cases (same_target p.docker.target target)) [
    | inl e ↦ rw e h
    | inr e ↦ rw e (omega arith, tt)
  ]

  calm-PanelFits :
      (p : Panel Parser) (r : App Parser × List AppAction)
      → IsCalm p.app r
      → PanelFits p
      → PanelFits (record p { app = r.0 })
  calm-PanelFits p r calm h = (
    h.0,
    elim calm.prompt [
      | inl e ↦ subst (λ o. PromptFits p.docker.view o) (sym e) (no_prompt-PromptFits p.docker.view)
      | inr e ↦ subst (λ o. PromptFits p.docker.view o) (sym e) h.1
    ],
  )

  step-PanelFits :
      (h : Happening) (p : Panel Parser) → PanelFits p → PanelFits (step to_lowercase h p).0
  unfolding step handle_logs_event alloc_sub_id
  step-PanelFits (pressed now key) p h =
      key-PanelFits now key p (handle_scope_key to_lowercase now key p)
        (handle_scope_key-KeyStep to_lowercase now key p h.0) h
  step-PanelFits (listed event) p h = listed-PanelFits event p h
  step-PanelFits (logged event) p h = logged-PanelFits p.docker.view event p h.0 refl h.1
  step-PanelFits (targeted target) p h = targeted-PanelFits target p h
  step-PanelFits (focused tile) p h =
      calm-PanelFits p (move_focus_to p.app tile) (move_focus-IsCalm p.app tile) h
  step-PanelFits (ticked now) p h =
      calm-PanelFits p (sweep_expired p.app now) (sweep-IsCalm p.app now) h
  step-PanelFits (resulted now result) p h =
      calm-PanelFits p (handle_action_result now result p.app) (result-IsCalm now result p.app) h
  step-PanelFits elsewhere p h = h

-- Whatever reaches the Docker tile, in any order, its selection is on a container that it shows, or at
-- 0 where it shows none, and a prompt is asked over the list only, never over a transcript.
pub DockerReached-PanelFits :
    {Parser : Type 0} (geometry : Geometry) (vt : Vt100 Parser) (to_lowercase : List ℕ → List ℕ)
    (p : Panel Parser) (pushed : List Pushed) (last : Option Question)
    → DockerReached geometry vt to_lowercase p pushed last
    → PanelFits to_lowercase p
unfolding new_docker_scope visible_count visible_containers
DockerReached-PanelFits geometry vt to_lowercase _ _ _ (started pane label rows cols) =
    (omega arith, tt)
DockerReached-PanelFits geometry vt to_lowercase _ _ _ (happened {p} {pushed} {last} h r) =
    step-PanelFits to_lowercase h p
      (DockerReached-PanelFits geometry vt to_lowercase p pushed last r)
