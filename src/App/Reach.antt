-- ===== src/App/Reach.antt =====
-- The states of the TUI that its handlers lead to, and what holds of each of them: app.rs in
-- crates/tepegoz-tui/src.
use tepegoz.Prelude.{ℕ, zero, suc, ◌≤◌, ◌<◌, ◌≡◌, Bool, true, Option, some, List, [], ◌∷◌, length}
use tepegoz.Ratatui.{Geometry}
use tepegoz.Tile.{TileId, FocusDir, routes_to_pty}
use tepegoz.App.{
  App, AppAction, PaneEntry, PendingOpen, Vt100, find_pane_by_sub, new_app, alloc_sub_id, ToastKind,
  ToastText, PendingConfirm, PendingAction,
}
use tepegoz.App.Toasts.{push_toast_at, sweep_expired, max_toasts}
use tepegoz.App.Focus.{move_focus_to, select_tab, handle_tab, handle_focus_direction, handle_resize}
use tepegoz.App.Panes.{
  close_active_pane, handle_pane_opened, handle_pane_event, handle_error, dispatch_open_remote_pane,
  PaneEvent,
}

-- Strictly increasing numbers from lo on, all below hi.
abbrev pub Increasing : ℕ → List ℕ → ℕ → Type 0
Increasing lo [] hi = lo ≤ hi
Increasing lo (x ∷ xs) hi = (lo ≤ x) × Increasing (suc x) xs hi

-- An index of a list of that length, which is 0 where the list is empty.
abbrev pub ActiveFits : ℕ → ℕ → Type 0
ActiveFits active zero = active ≡ 0
ActiveFits active (suc n) = active < suc n

module _ {Parser : Type 0} where
  abbrev pub subs_of : List (PaneEntry Parser) → List PendingOpen → List ℕ
  subs_of [] [] = []
  subs_of [] (o ∷ opens) = o.sub_id ∷ subs_of [] opens
  subs_of (p ∷ panes) opens = p.sub_id ∷ subs_of panes opens

  pub record AppIsValid (app : App Parser) : Type 0 where
    pub active_in : ActiveFits app.active_pane (length app.pane_stack)
    pub subs_grow : Increasing 1 (subs_of app.pane_stack app.pending_opens) app.next_sub_id
    pub toasts_fit : length app.toasts ≤ max_toasts

module _ {Parser : Type 0} (geometry : Geometry) (vt : Vt100 Parser) where
  pub data AppReached : App Parser → Type 0 where
    started :
        (pane : ℕ) (label : List ℕ) (rows cols : ℕ)
        → AppReached (new_app geometry vt pane label rows cols)
    tabbed :
        {app : App Parser} {r : App Parser × List AppAction} (forward : Bool)
        → handle_tab app forward ≡ some r
        → AppReached app
        → AppReached r.0
    turned :
        {app : App Parser} (dir : FocusDir)
        → AppReached app
        → AppReached (handle_focus_direction app dir).0
    tile_clicked :
        {app : App Parser} (next : TileId) → AppReached app → AppReached (move_focus_to app next).0
    tab_clicked : {app : App Parser} (idx : ℕ) → AppReached app → AppReached (select_tab app idx).0
    numbered : {app : App Parser} → AppReached app → AppReached (alloc_sub_id app).1
    toasted :
        {app : App Parser} (now : ℕ) (kind : ToastKind) (text : ToastText)
        → AppReached app
        → AppReached (push_toast_at app now kind text).0
    acted :
        {app : App Parser} (confirm : Option PendingConfirm) (actions : List (ℕ × PendingAction))
        → AppReached app
        → AppReached (record app { pending_confirm = confirm; pending_actions = actions })
    resized :
        {app : App Parser} (rows cols : ℕ)
        → AppReached app
        → AppReached (handle_resize geometry vt app rows cols).0
    closed :
        {app : App Parser} {r : App Parser × List AppAction} (cwd : Option (List ℕ))
        → routes_to_pty app.layout app.focused ≡ true
        → close_active_pane app cwd ≡ some r
        → AppReached app
        → AppReached r.0
    asked :
        {app : App Parser} (now : ℕ) (selected : Option (List ℕ))
        → AppReached app
        → AppReached (dispatch_open_remote_pane app now selected).0
    opened :
        {app : App Parser} (pane_id : ℕ) (label : List ℕ)
        → AppReached app
        → AppReached (handle_pane_opened vt app pane_id label).0
    happened :
        {app : App Parser} {r : App Parser × List AppAction} (now idx sub_id : ℕ)
        (event : PaneEvent)
        → find_pane_by_sub app sub_id ≡ some idx
        → handle_pane_event vt app now idx event ≡ some r
        → AppReached app
        → AppReached r.0
    failed :
        {app : App Parser} (now : ℕ) (is_open_failure : Bool) (message : List ℕ)
        → AppReached app
        → AppReached (handle_error app now is_open_failure message).0
    swept : {app : App Parser} (now : ℕ) → AppReached app → AppReached (sweep_expired app now).0
