-- ===== src/Docker/Streams.antt =====
-- The subscriptions of the Docker tile at the daemon: the list and the transcript of
-- crates/tepegoz-tui/src/app.rs.
pub mod Events
pub mod Runs
use mathlib.Core.Path.{subst}
use tepegoz.Prelude.{
  ℕ, ◌+◌, ◌<◌, ◌≡◌, ◌≢◌, refl, sym, ◌∙◌, ap, Bool, true, false, not, Option, none, some, List, [],
  ◌∷◌, ◌++◌, arith, ◌==◌, Bool-cases, inl, inr, All, map, filter_by, is_empty, if◌then◌else◌,
}
use tepegoz.Ratatui.{Geometry}
use tepegoz.Keys.{ScopeKey}
use tepegoz.Logs.{
  new, LogsView, LogStream, stdout, stderr, ingest, end_stream, push_all, push_line, complete_lines,
  pending, set_pending, flush_pending,
}
use tepegoz.App.{
  App, AppAction, send_envelope, draw_frame, focus_tile, detach, show_toast, unsubscribe, Vt100,
  new_app, alloc_sub_id,
}
use tepegoz.App.Focus.{move_focus_to}
use tepegoz.App.Toasts.{sweep_expired}
use tepegoz.Daemon.{ScopeTarget}
use tepegoz.Docker.{
  DockerView, list, logs, available, DockerScope, Panel, Pushed, app_action, subscribe_docker,
  subscribe_docker_logs, docker_action, clamp_selection, new_docker_scope, display_name_for,
}
use tepegoz.Docker.Keys.{Done, dispatch_docker_action, enter_logs, handle_scope_key}
use tepegoz.Docker.Events.{
  DockerEvent, container_list, docker_unavailable, container_log, docker_stream_ended, other_event,
  handle_docker_event, handle_logs_event, to_logs, retarget_docker, same_target, leave_logs,
  handle_action_result,
}
use tepegoz.Docker.Steps.{
  Question, InRange, KeyStep, dropped, in_list, scrolled, left, prompted, cancelled, answered,
  issued, entered,
}
use tepegoz.Docker.Steps.Moves.{clamp_selection-view, clamp_selection-sub_id}
use tepegoz.Docker.Steps.Cases.{handle_scope_key-KeyStep}
use tepegoz.Docker.Runs.{
  Happening, pressed, listed, logged, targeted, focused, ticked, resulted, elsewhere, step,
  DockerReached, started, happened,
}
use tepegoz.Docker.Selection.{DockerReached-PanelFits}
use tepegoz.Docker.Calm.{IsCalm, IsQuiet, sweep-IsCalm, move_focus-IsCalm, result-IsCalm}

-- The ids that are subscribed once an action has been carried out.
abbrev pub carried_out : Pushed → List ℕ → List ℕ
carried_out (subscribe_docker id target) subs = id ∷ subs
carried_out (subscribe_docker_logs id container_id follow tail_lines target) subs = id ∷ subs
carried_out (docker_action req) subs = subs
carried_out (app_action (send_envelope (unsubscribe id))) subs = filter_by (λ s. not (s == id)) subs
carried_out (app_action _) subs = subs

unfoldable pub subscribed : List Pushed → List ℕ → List ℕ
subscribed [] subs = subs
subscribed (a ∷ actions) subs = subscribed actions (carried_out a subs)

pub subscribed-append :
    (xs ys : List Pushed) (subs : List ℕ)
    → subscribed (xs ++ ys) subs ≡ subscribed ys (subscribed xs subs)
unfolding subscribed
subscribed-append [] ys subs = refl
subscribed-append (x ∷ xs) ys subs = subscribed-append xs ys (carried_out x subs)

quiet_one :
    (a : AppAction) (subs : List ℕ) → IsQuiet (a ∷ []) → carried_out (app_action a) subs ≡ subs
quiet_one (send_envelope payload) subs q = let no = q.0 in cc
quiet_one draw_frame subs q = refl
quiet_one (focus_tile tile) subs q = refl
quiet_one (detach reason) subs q = refl
quiet_one (show_toast kind text) subs q = refl

pub subscribed-quiet :
    (actions : List AppAction) (subs : List ℕ)
    → IsQuiet actions
    → subscribed (map app_action actions) subs ≡ subs
unfolding subscribed
subscribed-quiet [] subs q = refl
subscribed-quiet (a ∷ actions) subs q =
    subscribed-quiet actions (carried_out (app_action a) subs) q.1 ∙ quiet_one a subs (q.0, tt)

-- The subscription of a transcript.
abbrev pub logs_sub : DockerView → List ℕ
logs_sub list = []
logs_sub (logs l) = l.sub_id ∷ []

abbrev pub IsApart : DockerView → ℕ → Type 0
IsApart list sub_id = Unit
IsApart (logs l) sub_id = l.sub_id ≢ sub_id

-- The transcript, where one is shown, and the list are subscribed, under two ids that are in use.
abbrev pub Watches : DockerView → ℕ → ℕ → List ℕ → Type 0
Watches view sub_id next subs =
    (subs ≡ logs_sub view ++ sub_id ∷ []) × IsApart view sub_id × (sub_id < next)

pub same_logs-Watches :
    (view : DockerView) (l l' : LogsView) (sub_id next : ℕ) (subs : List ℕ)
    → view ≡ logs l
    → l'.sub_id ≡ l.sub_id
    → Watches view sub_id next subs
    → Watches (logs l') sub_id next subs
same_logs-Watches view l l' sub_id next subs v s h =
    let (e, apart, below) = subst (λ w. Watches w sub_id next subs) v h in
    (e ∙ ap (λ i. i ∷ sub_id ∷ []) (sym s), subst (λ i. i ≢ sub_id) (sym s) apart, below)

pub left-Watches :
    (view : DockerView) (l : LogsView) (sub_id next : ℕ) (subs : List ℕ)
    → view ≡ logs l
    → Watches view sub_id next subs
    → Watches list sub_id next (filter_by (λ s. not (s == l.sub_id)) subs)
left-Watches view l sub_id next subs v h =
    let (e, apart, below) = subst (λ w. Watches w sub_id next subs) v h in
    let own : (l.sub_id == l.sub_id) ≡ true = ground arith in
    let other : (sub_id == l.sub_id) ≡ false = ground (arith, apart) in
    (ap (filter_by (λ s. not (s == l.sub_id))) e ∙ rw (own, other) refl, tt, below)

pub entered-Watches :
    (view : DockerView) (l : LogsView) (sub_id next : ℕ) (subs : List ℕ)
    → view ≡ list
    → l.sub_id ≡ next
    → Watches view sub_id next subs
    → Watches (logs l) sub_id (next + 1) (next ∷ subs)
entered-Watches view l sub_id next subs v s h =
    let (e, apart, below) = subst (λ w. Watches w sub_id next subs) v h in
    (ap (λ t. next ∷ t) e ∙ rw s refl, (λ q. omega (arith, q, s, below)), omega (arith, below))
