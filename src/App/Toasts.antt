-- ===== src/App/Toasts.antt =====
-- Toasts and deadlines: `push_toast_at`, `expire_pending_action_at` and `sweep_expired` of
-- crates/tepegoz-tui/src/app.rs. The code goes through a `HashMap` of pending actions in an order that
-- it does not fix; here they are a list with one entry for each id, in the order that is taken.
use tepegoz.Prelude.{
  ℕ, ◌+◌, Bool, not, Option, none, some, List, [], ◌∷◌, ◌++◌, leb, ltb, ◌==◌, if◌then◌else◌, length,
  drop, filter_by, find?, map,
}
use tepegoz.App.{
  ToastKind, info, success, error, ToastText, timed_out, Toast, PendingAction, PendingConfirm,
  AppAction, draw_frame, show_toast, App,
}

abbrev pub max_toasts : ℕ
max_toasts = 3

abbrev pub duration_of : ToastKind → ℕ
duration_of success = 3000
duration_of error = 8000
duration_of info = 4000

abbrev pub has_id : ℕ → ℕ × PendingAction → Bool
has_id id entry = entry.0 == id

abbrev pub is_expired : ℕ → ℕ × PendingAction → Bool
is_expired now entry = leb entry.1.deadline now

abbrev pub confirm_left : ℕ → Option PendingConfirm → Option PendingConfirm
confirm_left now none = none
confirm_left now (some pc) = if leb pc.deadline now then none else some pc

module _ {Parser : Type 0} where
  unfoldable pub push_toast_at :
      App Parser → ℕ → ToastKind → ToastText → App Parser × List AppAction
  push_toast_at app now kind message =
      let kept = if leb max_toasts (length app.toasts) then drop 1 app.toasts else app.toasts in
      (
        record app {
          toasts =
              kept
              ++ record { kind = kind; message = message; expires_at = now + duration_of kind }
                ∷ [];
        },
        show_toast kind message ∷ draw_frame ∷ [],
      )

  unfoldable pub expire_pending_action_at : App Parser → ℕ → ℕ → App Parser × List AppAction
  unfolding push_toast_at
  expire_pending_action_at app now id = elim (find? (has_id id) app.pending_actions) [
    | some entry ↦
        push_toast_at
          (record app { pending_actions = filter_by (λ e. not (has_id id e)) app.pending_actions })
          now error (timed_out entry.1.description)
    | none ↦ (app, [])
  ]

  unfoldable pub expire_all : App Parser → ℕ → List ℕ → App Parser × List AppAction
  unfolding expire_pending_action_at
  expire_all app now [] = (app, [])
  expire_all app now (id ∷ ids) =
      let (app', actions) = expire_pending_action_at app now id in
      let (app'', more) = expire_all app' now ids in (app'', actions ++ more)

  unfoldable pub sweep_expired : App Parser → ℕ → App Parser × List AppAction
  unfolding expire_all
  sweep_expired app now =
      let swept = record app { pending_confirm = confirm_left now app.pending_confirm } in
      let expired =
        map (λ (e : ℕ × PendingAction). e.0) (filter_by (is_expired now) app.pending_actions) in
      let (app', actions) = expire_all swept now expired in
      (
        record app' { toasts = filter_by (λ (t : Toast). ltb now t.expires_at) app'.toasts },
        actions,
      )
