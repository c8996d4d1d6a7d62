-- ===== src/App/Panes.antt =====
-- The pane stack of the TUI: `close_active_pane`, `handle_pane_opened`, `handle_pane_event`, the
-- `Error` arm of `handle_daemon_envelope` and `dispatch_open_remote_pane` of
-- crates/tepegoz-tui/src/app.rs. The current directory, the selected host and the label that
-- `pane_label_from_shell` makes of a shell are arguments.
use tepegoz.Prelude.{
  ℕ, zero, suc, ◌-◌, Bool, ◌&&◌, ◌||◌, Option, none, some, List, [], ◌∷◌, ◌++◌, length, is_empty,
  leb, ltb, ◌==◌, if◌then◌else◌, get_elem?, ◌>>=◌,
}
use tepegoz.Tile.{TileId, same_tile, tile}
use tepegoz.App.{
  App, AppAction, send_envelope, draw_frame, focus_tile, detach, pane_exited_with, attach_pane,
  resize_pane, close_pane, unsubscribe, open_pane, local, remote, PaneEntry, PendingOpen, Vt100,
  vt100_scrollback_rows, pty_content_dims, alloc_sub_id, info, error, pane_exited, opening,
  open_failed, daemon_error,
}
use tepegoz.App.Toasts.{push_toast_at}

-- `Vec::remove`, where the index is in range.
unfoldable pub remove_at : {A : Type 0} → ℕ → List A → List A
remove_at i [] = []
remove_at zero (x ∷ xs) = xs
remove_at (suc i) (x ∷ xs) = x ∷ remove_at i xs

unfoldable pub update_at : {A : Type 0} → ℕ → (A → A) → List A → List A
update_at i f [] = []
update_at zero f (x ∷ xs) = f x ∷ xs
update_at (suc i) f (x ∷ xs) = x ∷ update_at i f xs

-- The active pane after pane number idx was removed.
unfoldable pub active_after : (idx active left : ℕ) → ℕ
active_after idx active left =
    let shifted = if leb idx active && ltb 0 active then active - 1 else active in
    if (idx == active) || ltb idx active
    then (if leb left shifted then left - 1 else shifted)
    else active

pub data PaneEvent : Type 0 where
  pane_snapshot : List ℕ → PaneEvent
  pane_output : List ℕ → PaneEvent
  pane_exit : Option ℕ → PaneEvent
  pane_lagged : ℕ → PaneEvent
  other_event : PaneEvent

module _ {Parser : Type 0} where
  -- The last pane was removed: a fresh local one is asked for.
  unfoldable pub reopen_root : App Parser → Option (List ℕ) → App Parser × List AppAction
  unfolding alloc_sub_id
  reopen_root app cwd =
      let (pty_rows, pty_cols) = pty_content_dims app.layout in
      let (sub_id, app') = alloc_sub_id app in
      (
        record app' {
          pending_opens = app'.pending_opens ++ record { sub_id = sub_id; alias = none } ∷ [];
          active_pane = 0;
        },
        send_envelope (open_pane cwd pty_rows pty_cols local) ∷ [],
      )

  unfoldable pub clamp_active : App Parser → App Parser
  clamp_active app = record app {
    active_pane =
        if leb (length app.pane_stack) app.active_pane
        then length app.pane_stack - 1
        else app.active_pane;
  }

  unfoldable pub after_removal : App Parser → Option (List ℕ) → App Parser × List AppAction
  unfolding reopen_root clamp_active
  after_removal left cwd =
      if is_empty left.pane_stack
      then reopen_root left cwd
      else (clamp_active left, draw_frame ∷ [])

  unfoldable pub close_pane_entry :
      App Parser → Option (List ℕ) → PaneEntry Parser → App Parser × List AppAction
  unfolding after_removal remove_at
  close_pane_entry app cwd removed =
      let (app', actions) =
        after_removal (record app { pane_stack = remove_at app.active_pane app.pane_stack }) cwd in
      (
        app',
        send_envelope (close_pane removed.pane_id)
            ∷ send_envelope (unsubscribe removed.sub_id)
            ∷ actions,
      )

  -- `none` where `Vec::remove` panics.
  unfoldable pub close_active_pane :
      App Parser → Option (List ℕ) → Option (App Parser × List AppAction)
  unfolding close_pane_entry
  close_active_pane app cwd =
      if is_empty app.pane_stack
      then some (app, [])
      else (get_elem? app.pane_stack app.active_pane
          >>= (λ (removed : PaneEntry Parser). some (close_pane_entry app cwd removed)))

  unfoldable pub focus_pty : App Parser → App Parser × List AppAction
  focus_pty app = elim (tile app.layout TileId.pty) [
    | none ↦ (app, [])
    | some t ↦
        if same_tile app.focused TileId.pty
        then (app, [])
        else (record app { focused = TileId.pty }, focus_tile TileId.pty ∷ [])
  ]

  unfoldable pub open_pending :
      Vt100 Parser → App Parser → ℕ → List ℕ → List PendingOpen → App Parser × List AppAction
  unfolding focus_pty
  open_pending vt app pane_id label [] = (app, [])
  open_pending vt app pane_id label (pending ∷ rest) =
      let (pty_rows, pty_cols) = pty_content_dims app.layout in
      let entry : PaneEntry Parser = record {
        pane_id = pane_id;
        sub_id = pending.sub_id;
        label = label;
        parser = vt.new_parser pty_rows pty_cols vt100_scrollback_rows;
      } in
      let (app', actions) = focus_pty (record app {
        pending_opens = rest;
        pane_stack = app.pane_stack ++ entry ∷ [];
        active_pane = length (app.pane_stack ++ entry ∷ []) - 1;
      }) in
      (
        app',
        actions
            ++ send_envelope (attach_pane pane_id pending.sub_id)
              ∷ send_envelope (resize_pane pane_id pty_rows pty_cols)
              ∷ draw_frame
              ∷ [],
      )

  unfoldable pub handle_pane_opened :
      Vt100 Parser → App Parser → ℕ → List ℕ → App Parser × List AppAction
  unfolding open_pending
  handle_pane_opened vt app pane_id label = open_pending vt app pane_id label app.pending_opens

  -- Bytes for the screen of pane number idx.
  unfoldable pub feed_pane : Vt100 Parser → App Parser → ℕ → List ℕ → App Parser × List AppAction
  unfolding update_at
  feed_pane vt app idx bytes = (
    record app {
      pane_stack =
          update_at idx (λ (p : PaneEntry Parser). record p { parser = vt.feed p.parser bytes })
            app.pane_stack;
    },
    if idx == app.active_pane then draw_frame ∷ [] else [],
  )

  unfoldable pub exit_pane :
      App Parser → ℕ → ℕ → Option ℕ → PaneEntry Parser → App Parser × List AppAction
  unfolding active_after remove_at
  exit_pane app now idx exit_code removed =
      let stack = remove_at idx app.pane_stack in
      let left = record app { pane_stack = stack } in
      let (app', actions) =
        push_toast_at
          (record left { active_pane = active_after idx app.active_pane (length stack) }) now info
          (pane_exited removed.label exit_code) in
      if is_empty stack
      then (left, detach (pane_exited_with exit_code) ∷ [])
      else (app', actions ++ draw_frame ∷ [])

  -- `none` where `pane_stack[idx]` panics.
  unfoldable pub handle_pane_event :
      Vt100 Parser → App Parser → ℕ → ℕ → PaneEvent → Option (App Parser × List AppAction)
  unfolding feed_pane exit_pane
  handle_pane_event vt app now idx event =
      let pane = get_elem? app.pane_stack idx in
      elim event [
        | pane_snapshot scrollback ↦
            if is_empty scrollback
            then some (app, [])
            else (pane >>= (λ (p : PaneEntry Parser). some (feed_pane vt app idx scrollback)))
        | pane_output bytes ↦ pane >>= (λ (p : PaneEntry Parser). some (feed_pane vt app idx bytes))
        | pane_exit exit_code ↦
            pane >>= (λ (p : PaneEntry Parser). some (exit_pane app now idx exit_code p))
        | pane_lagged dropped ↦ some (app, [])
        | other_event ↦ some (app, [])
      ]

  unfoldable pub fail_open :
      App Parser → ℕ → List ℕ → List PendingOpen → App Parser × List AppAction
  fail_open app now message [] = push_toast_at app now error (daemon_error message)
  fail_open app now message (pending ∷ rest) =
      push_toast_at (record app { pending_opens = rest }) now error
        (open_failed pending.alias message)

  -- A daemon error. `is_open_failure` is the test of the message's first words.
  unfoldable pub handle_error : App Parser → ℕ → Bool → List ℕ → App Parser × List AppAction
  unfolding fail_open
  handle_error app now is_open_failure message =
      if is_open_failure
      then fail_open app now message app.pending_opens
      else push_toast_at app now error (daemon_error message)

  -- `selected` is the alias of the selected host, if there is one.
  unfoldable pub dispatch_open_remote_pane :
      App Parser → ℕ → Option (List ℕ) → App Parser × List AppAction
  unfolding alloc_sub_id
  dispatch_open_remote_pane app now none = (app, [])
  dispatch_open_remote_pane app now (some alias) =
      let (pty_rows, pty_cols) = pty_content_dims app.layout in
      let (sub_id, app') = alloc_sub_id app in
      let (app'', actions) =
        push_toast_at
          (record app' {
            pending_opens =
                app'.pending_opens ++ record { sub_id = sub_id; alias = some alias } ∷ [];
          })
          now info (opening alias) in
      (app'', send_envelope (open_pane none pty_rows pty_cols (remote alias)) ∷ actions)
