-- ===== src/App/Focus.antt =====
-- Focus in the TUI's state machine: `move_focus_to`, `handle_focus_direction`, `handle_focus_cycle`,
-- `handle_tab`, `handle_resize` and the tabs of `dispatch_pty_click` of crates/tepegoz-tui/src/app.rs.
use tepegoz.Prelude.{
  ℕ, Bool, Option, none, some, List, [], ◌∷◌, ◌++◌, map, if◌then◌else◌, ◌>>=◌, ltb, ◌&&◌, not, ◌==◌,
  length,
}
use tepegoz.Ratatui.{Geometry}
use tepegoz.Tile.{
  TileId, FocusDir, same_tile, tile, next_focus, cycle_focus, routes_to_pty, default_for,
}
use tepegoz.App.{
  App, AppAction, send_envelope, draw_frame, focus_tile, send_input, resize_pane, PaneEntry, Vt100,
  active_pane_id, pty_content_dims,
}

module _ {Parser : Type 0} where
  unfoldable pub move_focus_to : App Parser → TileId → App Parser × List AppAction
  move_focus_to app next = if same_tile next app.focused then (app, []) else (
    record app {
      pending_confirm = if same_tile app.focused TileId.docker then none else app.pending_confirm;
      focused = next;
    },
    focus_tile next ∷ draw_frame ∷ [],
  )

  unfoldable pub move_focus_if : App Parser → Option TileId → App Parser × List AppAction
  unfolding move_focus_to
  move_focus_if app none = (app, [])
  move_focus_if app (some next) = move_focus_to app next

  unfoldable pub handle_focus_direction : App Parser → FocusDir → App Parser × List AppAction
  unfolding move_focus_if
  handle_focus_direction app dir = move_focus_if app (next_focus app.layout app.focused dir)

  unfoldable pub handle_focus_cycle : App Parser → Bool → App Parser × List AppAction
  unfolding move_focus_if
  handle_focus_cycle app forward = move_focus_if app (cycle_focus app.layout app.focused forward)

  -- Bytes for the active pane; `none` where there is no such pane and the code panics.
  unfoldable pub send_to_pane : App Parser → List ℕ → Option (App Parser × List AppAction)
  send_to_pane app bytes =
      active_pane_id app >>= (λ pane_id. some (app, send_envelope (send_input pane_id bytes) ∷ []))

  unfoldable pub handle_tab : App Parser → Bool → Option (App Parser × List AppAction)
  unfolding send_to_pane handle_focus_cycle
  handle_tab app forward_cycle =
      if routes_to_pty app.layout app.focused
      then send_to_pane app (if forward_cycle then b'\t' ∷ [] else 0x1b ∷ b'[' ∷ b'Z' ∷ [])
      else some (handle_focus_cycle app forward_cycle)

  -- A click on a tab of the strip.
  unfoldable pub select_tab : App Parser → ℕ → App Parser × List AppAction
  select_tab app idx =
      if ltb idx (length app.pane_stack) && not (idx == app.active_pane)
      then (record app { active_pane = idx }, draw_frame ∷ [])
      else (app, [])

  unfoldable pub handle_resize :
      Geometry → Vt100 Parser → App Parser → (rows cols : ℕ) → App Parser × List AppAction
  handle_resize geometry vt app rows cols =
      let layout = default_for geometry (geometry.rect_new 0 0 cols rows) in
      let (pty_rows, pty_cols) = pty_content_dims layout in
      (
        record app {
          terminal_size = (rows, cols);
          layout = layout;
          focused = elim (tile layout app.focused) [
            | none ↦ layout.default_focus
            | some t ↦ app.focused
          ];
          pane_stack =
              map
                (λ (p : PaneEntry Parser). record p {
                  parser = vt.set_size p.parser pty_rows pty_cols;
                })
                app.pane_stack;
        },
        map (λ (p : PaneEntry Parser). send_envelope (resize_pane p.pane_id pty_rows pty_cols))
              app.pane_stack
            ++ draw_frame ∷ [],
      )
