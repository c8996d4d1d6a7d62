-- ===== src/App/Valid.antt =====
-- Every state of the TUI is well formed: `App` of crates/tepegoz-tui/src/app.rs.
use tepegoz.Prelude.{
  result_of, ℕ, ◌≡◌, Bool, some, List, [], ◌∷◌, arith, Bool-cases, inl, inr, >>=-eq-some,
  if◌then◌else◌,
}
use tepegoz.Ratatui.{Geometry}
use tepegoz.Tile.{next_focus, cycle_focus, routes_to_pty}
use tepegoz.App.{App, AppAction, Vt100, new_app, active_pane_id, send_envelope, send_input}
use tepegoz.App.Focus.{handle_tab, handle_focus_direction, handle_focus_cycle, send_to_pane}
use tepegoz.App.Reach.{
  AppIsValid, AppReached, started, tabbed, turned, tile_clicked, tab_clicked, numbered, toasted,
  acted, resized, closed, asked, opened, happened, failed, swept,
}
use tepegoz.App.Keeps.{
  sweep-AppIsValid, move_focus_if-AppIsValid, move_focus-AppIsValid, select_tab-AppIsValid,
  alloc-AppIsValid, push_toast-AppIsValid,
}
use tepegoz.App.PaneKeeps.{
  dispatch-AppIsValid, error-AppIsValid, opened-AppIsValid, close-AppIsValid, event-AppIsValid,
  resize-AppIsValid,
}

new_app-AppIsValid :
    {Parser : Type 0} (geometry : Geometry) (vt : Vt100 Parser) (pane : ℕ) (label : List ℕ)
    (rows cols : ℕ)
    → AppIsValid (new_app geometry vt pane label rows cols)
unfolding new_app
new_app-AppIsValid geometry vt pane label rows cols = record {
  active_in = omega arith;
  subs_grow = (omega arith, omega arith);
  toasts_fit = omega arith;
}

tab-AppIsValid :
    {Parser : Type 0} (app : App Parser) (forward : Bool) (r : App Parser × List AppAction)
    → handle_tab app forward ≡ some r
    → AppIsValid app
    → AppIsValid r.0
unfolding handle_tab send_to_pane handle_focus_cycle
tab-AppIsValid app forward r e h = elim (Bool-cases (routes_to_pty app.layout app.focused)) [
  | inl pty ↦
      let bytes = if forward then b'\t' ∷ [] else 0x1b ∷ b'[' ∷ b'Z' ∷ [] in
      let (id, here, is) =
        >>=-eq-some (active_pane_id app)
          (λ id. some (app, send_envelope (send_input id bytes) ∷ [])) (rw pty at e) in
      result_of (λ r. AppIsValid r.0) is h
  | inr other ↦
      result_of (λ r. AppIsValid r.0) (rw other at e)
        (move_focus_if-AppIsValid app (cycle_focus app.layout app.focused forward) h)
]

-- Every state that the handlers lead to from a fresh start, clicks on tiles and tabs included, has its
-- active pane in the stack, or the number 0 where the stack is empty, the subscription ids of the panes and then of the requests for panes
-- strictly growing and below the next free id, and at most three toasts.
pub AppReached-AppIsValid :
    {Parser : Type 0} (geometry : Geometry) (vt : Vt100 Parser) (app : App Parser)
    → AppReached geometry vt app
    → AppIsValid app
unfolding handle_focus_direction
AppReached-AppIsValid geometry vt _ (started pane label rows cols) =
    new_app-AppIsValid geometry vt pane label rows cols
AppReached-AppIsValid geometry vt _ (tabbed {app} {r} forward e reached) =
    tab-AppIsValid app forward r e (AppReached-AppIsValid geometry vt app reached)
AppReached-AppIsValid geometry vt _ (turned {app} dir reached) =
    move_focus_if-AppIsValid app (next_focus app.layout app.focused dir)
      (AppReached-AppIsValid geometry vt app reached)
AppReached-AppIsValid geometry vt _ (tile_clicked {app} next reached) =
    move_focus-AppIsValid app next (AppReached-AppIsValid geometry vt app reached)
AppReached-AppIsValid geometry vt _ (tab_clicked {app} idx reached) =
    select_tab-AppIsValid app idx (AppReached-AppIsValid geometry vt app reached)
AppReached-AppIsValid geometry vt _ (numbered {app} reached) =
    alloc-AppIsValid app (AppReached-AppIsValid geometry vt app reached)
AppReached-AppIsValid geometry vt _ (toasted {app} now kind text reached) =
    push_toast-AppIsValid app now kind text (AppReached-AppIsValid geometry vt app reached)
AppReached-AppIsValid geometry vt _ (acted {app} confirm actions reached) =
    let h = AppReached-AppIsValid geometry vt app reached in
    record { active_in = h.active_in; subs_grow = h.subs_grow; toasts_fit = h.toasts_fit }
AppReached-AppIsValid geometry vt _ (resized {app} rows cols reached) =
    resize-AppIsValid geometry vt app rows cols (AppReached-AppIsValid geometry vt app reached)
AppReached-AppIsValid geometry vt _ (closed {app} {r} cwd focus e reached) =
    close-AppIsValid app cwd r e (AppReached-AppIsValid geometry vt app reached)
AppReached-AppIsValid geometry vt _ (asked {app} now selected reached) =
    dispatch-AppIsValid app now selected (AppReached-AppIsValid geometry vt app reached)
AppReached-AppIsValid geometry vt _ (opened {app} pane_id label reached) =
    opened-AppIsValid vt app pane_id label (AppReached-AppIsValid geometry vt app reached)
AppReached-AppIsValid geometry vt _ (happened {app} {r} now idx sub_id event found e reached) =
    event-AppIsValid vt app now idx event r e (AppReached-AppIsValid geometry vt app reached)
AppReached-AppIsValid geometry vt _ (failed {app} now is_open_failure message reached) =
    error-AppIsValid app now is_open_failure message (AppReached-AppIsValid geometry vt app reached)
AppReached-AppIsValid geometry vt _ (swept {app} now reached) =
    sweep-AppIsValid app now (AppReached-AppIsValid geometry vt app reached)
