-- ===== src/Docker/Asked.antt =====
-- Containers are killed and removed on a confirmed question only: `handle_scope_key` of
-- crates/tepegoz-tui/src/app.rs.
use mathlib.Core.Path.{subst}
use tepegoz.Prelude.{
  ℕ, ◌≡◌, refl, sym, ap, true, false, Option, none, some, List, Bool-cases, inl, inr, All,
}
use tepegoz.Ratatui.{Geometry}
use tepegoz.Keys.{ScopeKey}
use tepegoz.App.{
  App, AppAction, DockerActionKind, start, stop, restart, kill, remove, PendingConfirm, Vt100,
  new_app, alloc_sub_id,
}
use tepegoz.App.Focus.{move_focus_to}
use tepegoz.App.Toasts.{sweep_expired}
use tepegoz.Daemon.{ScopeTarget}
use tepegoz.Docker.{
  DockerView, list, logs, available, DockerScope, Panel, Pushed, app_action, subscribe_docker,
  subscribe_docker_logs, docker_action,
}
use tepegoz.Docker.Keys.{Done, confirms, dispatch_docker_action, enter_logs, handle_scope_key}
use tepegoz.Docker.Events.{
  DockerEvent, container_list, docker_unavailable, container_log, docker_stream_ended, other_event,
  handle_action_result, retarget_docker, same_target, handle_docker_event, handle_logs_event,
  to_logs,
}
use tepegoz.Docker.Steps.{
  Question, KeyStep, dropped, in_list, scrolled, left, prompted, cancelled, answered, issued,
  entered, asked_by, InRange, is_destructive,
}
use tepegoz.Docker.Steps.Moves.{clamp_selection-target}
use tepegoz.Docker.Steps.Cases.{handle_scope_key-KeyStep}
use tepegoz.Docker.Runs.{
  Happening, pressed, listed, logged, targeted, focused, ticked, resulted, elsewhere, step,
  question_after, or_last, DockerReached, started, happened,
}
use tepegoz.Docker.Selection.{DockerReached-PanelFits}
use tepegoz.Docker.Calm.{IsCalm, sweep-IsCalm, move_focus-IsCalm, result-IsCalm}

-- A prompt that is shown asks the last question.
abbrev pub PromptAsks : Option PendingConfirm → ScopeTarget → Option Question → Type 0
PromptAsks none target last = Unit
PromptAsks (some pc) target last =
    last ≡ some (record { kind = pc.kind; container_id = pc.container_id; target = target })

-- A request to kill or remove a container answers the last question, with a key that says yes.
abbrev pub Answers : ScopeKey → Option Question → List ℕ → ScopeTarget → DockerActionKind → Type 0
Answers key last container_id target kill =
    (confirms key ≡ true)
    × (last ≡ some (record { kind = kill; container_id = container_id; target = target }))
Answers key last container_id target remove =
    (confirms key ≡ true)
    × (last ≡ some (record { kind = remove; container_id = container_id; target = target }))
Answers key last container_id target start = Unit
Answers key last container_id target stop = Unit
Answers key last container_id target restart = Unit

abbrev pub IsAnswer : ScopeKey → Option Question → Pushed → Type 0
IsAnswer key last (docker_action req) = Answers key last req.container_id req.target req.kind
IsAnswer key last (app_action action) = Unit
IsAnswer key last (subscribe_docker id target) = Unit
IsAnswer key last (subscribe_docker_logs id container_id follow tail_lines target) = Unit

confirmed-Answers :
    (kind : DockerActionKind) (key : ScopeKey) (last : Option Question) (container_id : List ℕ)
    (target : ScopeTarget)
    → confirms key ≡ true
    → last ≡ some (record { kind = kind; container_id = container_id; target = target })
    → Answers key last container_id target kind
confirmed-Answers kill key last container_id target y q = (y, q)
confirmed-Answers remove key last container_id target y q = (y, q)
confirmed-Answers start key last container_id target y q = tt
confirmed-Answers stop key last container_id target y q = tt
confirmed-Answers restart key last container_id target y q = tt

safe-Answers :
    (kind : DockerActionKind) (key : ScopeKey) (last : Option Question) (container_id : List ℕ)
    (target : ScopeTarget)
    → is_destructive kind ≡ false
    → Answers key last container_id target kind
safe-Answers kill key last container_id target safe = cc
safe-Answers remove key last container_id target safe = cc
safe-Answers start key last container_id target safe = tt
safe-Answers stop key last container_id target safe = tt
safe-Answers restart key last container_id target safe = tt

-- While a prompt is shown, no key asks another question.
asked_again :
    (to_lowercase : List ℕ → List ℕ) (key : ScopeKey) (o : Option PendingConfirm) (d : DockerScope)
    (last : Option Question)
    → PromptAsks o d.target last
    → PromptAsks o d.target (or_last (asked_by to_lowercase o key d) last)
unfolding asked_by
asked_again to_lowercase key none d last h = tt
asked_again to_lowercase key (some pc) d last h = h

to_logs-target :
    (view : DockerView) (event : DockerEvent) (d : DockerScope)
    → (to_logs view event d).0.target ≡ d.target
unfolding to_logs
to_logs-target list event d = refl
to_logs-target (logs l) (container_log stream bytes) d = refl
to_logs-target (logs l) (docker_stream_ended reason) d = refl
to_logs-target (logs l) (container_list containers source) d = refl
to_logs-target (logs l) (docker_unavailable reason) d = refl
to_logs-target (logs l) other_event d = refl

module _ (to_lowercase : List ℕ → List ℕ) where
  listed-target :
      (event : DockerEvent) (d : DockerScope)
      → (handle_docker_event to_lowercase event d).0.target ≡ d.target
  unfolding handle_docker_event
  listed-target (container_list containers source) d =
      clamp_selection-target to_lowercase (record d { state = available containers source })
  listed-target (docker_unavailable reason) d = refl
  listed-target (container_log stream bytes) d = refl
  listed-target (docker_stream_ended reason) d = refl
  listed-target other_event d = refl

module _ {Parser : Type 0} (to_lowercase : List ℕ → List ℕ) where
  abbrev pub Asks : Panel Parser → Option Question → Type 0
  Asks p last = PromptAsks p.app.pending_confirm p.docker.target last

  key-IsAnswer :
      (now : ℕ) (key : ScopeKey) (p : Panel Parser) (last : Option Question) (r : Done Parser)
      → KeyStep to_lowercase now key p r
      → Asks p last
      → All (IsAnswer key last) r.1
  unfolding dispatch_docker_action enter_logs
  key-IsAnswer now key p last _ dropped h = tt
  key-IsAnswer now key p last _ (in_list d v s t range) h = (tt, tt)
  key-IsAnswer now key p last _ (scrolled l l' v s) h = (tt, tt)
  key-IsAnswer now key p last _ (left l v) h = (tt, (tt, tt))
  key-IsAnswer now key p last _ (prompted c kind v q) h = (tt, tt)
  key-IsAnswer now key p last _ cancelled h = (tt, tt)
  key-IsAnswer now key p last _ (answered pc e y) h =
      let asks = subst (λ o. PromptAsks o p.docker.target last) e h in
      (confirmed-Answers pc.kind key last pc.container_id p.docker.target y asks, (tt, tt))
  key-IsAnswer now key p last _ (issued c kind safe) h =
      (safe-Answers kind key last c.id p.docker.target safe, (tt, tt))
  key-IsAnswer now key p last _ (entered c v n) h = (tt, (tt, tt))

  key-Asks :
      (now : ℕ) (key : ScopeKey) (p : Panel Parser) (last : Option Question) (r : Done Parser)
      → KeyStep to_lowercase now key p r
      → Asks p last
      → Asks r.0 (or_last (asked_by to_lowercase p.app.pending_confirm key p.docker) last)
  unfolding dispatch_docker_action enter_logs alloc_sub_id
  key-Asks now key p last _ (in_list d v s t range) h =
      let after = or_last (asked_by to_lowercase p.app.pending_confirm key p.docker) last in
      subst (λ target. PromptAsks p.app.pending_confirm target after) (sym t)
        (asked_again to_lowercase key p.app.pending_confirm p.docker last h)
  key-Asks now key p last _ (prompted c kind v q) h = ap (λ o. or_last o last) q
  key-Asks now key p last _ cancelled h = tt
  key-Asks now key p last _ (answered pc e y) h = tt
  key-Asks now key p last _ dropped h =
      asked_again to_lowercase key p.app.pending_confirm p.docker last h
  key-Asks now key p last _ (scrolled l l' v s) h =
      asked_again to_lowercase key p.app.pending_confirm p.docker last h
  key-Asks now key p last _ (left l v) h =
      asked_again to_lowercase key p.app.pending_confirm p.docker last h
  key-Asks now key p last _ (issued c kind safe) h =
      asked_again to_lowercase key p.app.pending_confirm p.docker last h
  key-Asks now key p last _ (entered c v n) h =
      asked_again to_lowercase key p.app.pending_confirm p.docker last h

  same_target-Asks :
      (p : Panel Parser) (last : Option Question) (d : DockerScope)
      → d.target ≡ p.docker.target
      → Asks p last
      → Asks (record p { docker = d }) last
  same_target-Asks p last d t h =
      subst (λ target. PromptAsks p.app.pending_confirm target last) (sym t) h

  targeted-Asks :
      (target : ScopeTarget) (p : Panel Parser) (last : Option Question)
      → Asks p last
      → Asks (retarget_docker target p).0 last
  unfolding retarget_docker
  targeted-Asks target p last h = elim (Bool-cases (same_target p.docker.target target)) [
    | inl e ↦ rw e h
    | inr e ↦ rw e tt
  ]

  calm-Asks :
      (p : Panel Parser) (last : Option Question) (r : App Parser × List AppAction)
      → IsCalm p.app r
      → Asks p last
      → Asks (record p { app = r.0 }) last
  calm-Asks p last r calm h = elim calm.prompt [
    | inl e ↦ subst (λ o. PromptAsks o p.docker.target last) (sym e) tt
    | inr e ↦ subst (λ o. PromptAsks o p.docker.target last) (sym e) h
  ]

  step-Asks :
      (h : Happening) (p : Panel Parser) (last : Option Question)
      → InRange to_lowercase p.docker
      → Asks p last
      → Asks (step to_lowercase h p).0 (question_after to_lowercase h p last)
  unfolding step question_after handle_logs_event alloc_sub_id
  step-Asks (pressed now key) p last range h =
      key-Asks now key p last (handle_scope_key to_lowercase now key p)
        (handle_scope_key-KeyStep to_lowercase now key p range) h
  step-Asks (listed event) p last range h =
      same_target-Asks p last (handle_docker_event to_lowercase event p.docker).0
        (listed-target to_lowercase event p.docker) h
  step-Asks (logged event) p last range h =
      same_target-Asks p last (handle_logs_event event p.docker).0
        (to_logs-target p.docker.view event p.docker) h
  step-Asks (targeted target) p last range h = targeted-Asks target p last h
  step-Asks (focused tile) p last range h =
      calm-Asks p last (move_focus_to p.app tile) (move_focus-IsCalm p.app tile) h
  step-Asks (ticked now) p last range h =
      calm-Asks p last (sweep_expired p.app now) (sweep-IsCalm p.app now) h
  step-Asks (resulted now result) p last range h =
      calm-Asks p last (handle_action_result now result p.app) (result-IsCalm now result p.app) h
  step-Asks elsewhere p last range h = h

module _ {Parser : Type 0} (geometry : Geometry) (vt : Vt100 Parser)
    (to_lowercase : List ℕ → List ℕ) where
  DockerReached-Asks :
      (p : Panel Parser) (pushed : List Pushed) (last : Option Question)
      → DockerReached geometry vt to_lowercase p pushed last
      → Asks to_lowercase p last
  unfolding new_app
  DockerReached-Asks _ _ _ (started pane label rows cols) = tt
  DockerReached-Asks _ _ _ (happened {p} {pushed} {last} h r) =
      step-Asks to_lowercase h p last
        (DockerReached-PanelFits geometry vt to_lowercase p pushed last r).0
        (DockerReached-Asks p pushed last r)

  -- In every run, a key that makes the tile send a request to kill or remove a container is a `y` or a
  -- `Y`, and the request is for the container, on the host, that were selected when `K` or `X` last asked
  -- about it, whatever has happened to the list in between.
  pub DockerReached-answers :
      (p : Panel Parser) (pushed : List Pushed) (last : Option Question) (now : ℕ) (key : ScopeKey)
      → DockerReached geometry vt to_lowercase p pushed last
      → All (IsAnswer key last) (handle_scope_key to_lowercase now key p).1
  DockerReached-answers p pushed last now key r =
      key-IsAnswer to_lowercase now key p last (handle_scope_key to_lowercase now key p)
        (handle_scope_key-KeyStep to_lowercase now key p
          (DockerReached-PanelFits geometry vt to_lowercase p pushed last r).0)
        (DockerReached-Asks p pushed last r)
