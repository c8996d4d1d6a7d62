-- ===== src/App.antt =====
-- The TUI's state machine, `App` of crates/tepegoz-tui/src/app.rs: its panes, focus, toasts and
-- pending requests. A handler gives the new state and the actions that it pushed. Where the code
-- indexes a vector out of range, which panics, the result is `none`. Instants are numbers of
-- milliseconds, an exit code (an `i32` that is only passed on) is its bit pattern. The `vt100` crate's parser is a parameter, and a message that the code formats is the
-- data that goes into it.
pub mod Toasts
pub mod Focus
pub mod Panes
pub mod Reach
pub mod Keeps
pub mod Subs
pub mod PaneKeeps
pub mod Valid
pub mod Routes
pub mod Deadlines
mod Tests
use tepegoz.Prelude.{
  ℕ, ◌+◌, Bool, true, false, Option, none, some, List, [], ◌∷◌, ◌++◌, get_elem?, position, ◌==◌,
  max, ◌-◌, ◌>>=◌,
}
use tepegoz.Ratatui.{Rect, Geometry}
use tepegoz.Tile.{TileId, TileLayout, rect_of, default_for}

pub data ToastKind : Type 0 where
  info success error : ToastKind

pub data ToastText : Type 0 where
  pane_exited : List ℕ → Option ℕ → ToastText
  opening : List ℕ → ToastText
  open_failed : Option (List ℕ) → List ℕ → ToastText
  daemon_error : List ℕ → ToastText
  timed_out : List ℕ → ToastText
  succeeded : List ℕ → ToastText
  action_failed : List ℕ → List ℕ → ToastText

pub record Toast : Type 0 where
  pub kind : ToastKind
  pub message : ToastText
  pub expires_at : ℕ

pub record PendingAction : Type 0 where
  pub deadline : ℕ
  pub description : List ℕ

pub data DockerActionKind : Type 0 where
  start stop restart kill remove : DockerActionKind

pub record PendingConfirm : Type 0 where
  pub kind : DockerActionKind
  pub container_id : List ℕ
  pub container_name : List ℕ
  pub deadline : ℕ

pub data DetachReason : Type 0 where
  user : DetachReason
  pane_exited_with : Option ℕ → DetachReason

pub data PaneTarget : Type 0 where
  local : PaneTarget
  remote : List ℕ → PaneTarget

-- The requests of the daemon that these handlers make.
pub data Payload : Type 0 where
  attach_pane : (pane_id subscription_id : ℕ) → Payload
  resize_pane : (pane_id rows cols : ℕ) → Payload
  send_input : (pane_id : ℕ) → List ℕ → Payload
  close_pane : (pane_id : ℕ) → Payload
  unsubscribe : (id : ℕ) → Payload
  open_pane : (cwd : Option (List ℕ)) (rows cols : ℕ) → PaneTarget → Payload

pub data AppAction : Type 0 where
  send_envelope : Payload → AppAction
  draw_frame : AppAction
  focus_tile : TileId → AppAction
  detach : DetachReason → AppAction
  show_toast : ToastKind → ToastText → AppAction

pub record PaneEntry (Parser : Type 0) : Type 0 where
  pub pane_id : ℕ
  pub sub_id : ℕ
  pub label : List ℕ
  pub parser : Parser

pub record PendingOpen : Type 0 where
  pub sub_id : ℕ
  pub alias : Option (List ℕ)

pub record App (Parser : Type 0) : Type 0 where
  pub layout : TileLayout
  pub focused : TileId
  pub pane_stack : List (PaneEntry Parser)
  pub active_pane : ℕ
  pub pending_opens : List PendingOpen
  pub pending_confirm : Option PendingConfirm
  pub terminal_size : ℕ × ℕ
  pub next_sub_id : ℕ
  pub pending_actions : List (ℕ × PendingAction)
  pub toasts : List Toast

-- `vt100::Parser`.
pub record Vt100 (Parser : Type 0) : Type 0 where
  pub new_parser : (rows cols scrollback : ℕ) → Parser
  pub feed : Parser → List ℕ → Parser
  pub set_size : Parser → (rows cols : ℕ) → Parser

abbrev pub vt100_scrollback_rows : ℕ
vt100_scrollback_rows = 1000

pty_tile_dims : TileLayout → ℕ × ℕ
pty_tile_dims layout = elim (rect_of layout TileId.pty) [
  | some r ↦ (max r.height 1, max r.width 1)
  | none ↦ (24, 80)
]

unfoldable pub pty_content_dims : TileLayout → ℕ × ℕ
unfolding pty_tile_dims
pty_content_dims layout = let (rows, cols) = pty_tile_dims layout in (max (rows - 1) 1, cols)

module _ {Parser : Type 0} where
  -- `none` where the code panics.
  unfoldable pub active_pane_id : App Parser → Option ℕ
  active_pane_id app =
      get_elem? app.pane_stack app.active_pane >>= (λ (p : PaneEntry Parser). some p.pane_id)

  unfoldable pub active_pane_sub : App Parser → Option ℕ
  active_pane_sub app =
      get_elem? app.pane_stack app.active_pane >>= (λ (p : PaneEntry Parser). some p.sub_id)

  unfoldable pub find_pane_by_sub : App Parser → ℕ → Option ℕ
  find_pane_by_sub app sub_id =
      position (λ (p : PaneEntry Parser). p.sub_id == sub_id) app.pane_stack

  unfoldable pub alloc_sub_id : App Parser → ℕ × App Parser
  alloc_sub_id app = (app.next_sub_id, record app { next_sub_id = app.next_sub_id + 1 })

-- `App::new`, whose fields for the other scopes take the ids 2 to 5.
unfoldable pub new_app :
    {Parser : Type 0} → Geometry → Vt100 Parser → ℕ → List ℕ → (rows cols : ℕ) → App Parser
unfolding pty_content_dims
new_app geometry vt pane label rows cols =
    let layout = default_for geometry (geometry.rect_new 0 0 cols rows) in
    let (pty_rows, pty_cols) = pty_content_dims layout in
    record {
      layout = layout;
      focused = layout.default_focus;
      pane_stack =
          record {
            pane_id = pane;
            sub_id = 1;
            label = label;
            parser = vt.new_parser pty_rows pty_cols vt100_scrollback_rows;
          }
          ∷ [];
      active_pane = 0;
      pending_opens = [];
      pending_confirm = none;
      terminal_size = (rows, cols);
      next_sub_id = 6;
      pending_actions = [];
      toasts = [];
    }
