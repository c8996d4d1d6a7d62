-- ===== src/App/Tests.antt =====
-- Runs of the TUI's state machine of crates/tepegoz-tui/src/app.rs on a terminal of 120 columns and
-- 40 rows, with a parser that keeps the bytes it is fed.
use tepegoz.Prelude.{All, ltb, false, ℕ, ◌≡◌, refl, true, none, some, List, [], ◌∷◌, ◌++◌, arith}
use tepegoz.Tile.{TileId, routes_to_pty, default_for}
use tepegoz.Tile.Tests.{plain_geometry}
use tepegoz.App.{Toast, PendingAction, info, opening, App, AppAction, PaneEntry, Vt100, new_app}
use tepegoz.App.Toasts.{sweep_expired, is_expired}
use tepegoz.App.Deadlines.{NotDue, sweep_expired-fresh}
use tepegoz.App.Focus.{handle_tab}
use tepegoz.App.Panes.{
  handle_error, close_active_pane, dispatch_open_remote_pane, handle_pane_opened,
}
use tepegoz.App.Reach.{AppIsValid, started, asked, opened}
use tepegoz.App.Valid.{AppReached-AppIsValid}
use tepegoz.App.Routes.{close_last-handle_tab}

abbrev keeper : Vt100 (List ℕ)
keeper = record {
  new_parser = λ rows cols scrollback. [];
  feed = λ parser bytes. parser ++ bytes;
  set_size = λ parser rows cols. parser;
}

abbrev first : App (List ℕ)
first = new_app plain_geometry keeper 7 (b's' ∷ []) 40 120

-- A second pane was asked for and opened.
abbrev second : App (List ℕ)
second =
    (handle_pane_opened keeper (dispatch_open_remote_pane first 100 (some (b'h' ∷ []))).0 8
      (b'h' ∷ [])).0

AppReached-AppIsValid_example : AppIsValid second
AppReached-AppIsValid_example =
    AppReached-AppIsValid plain_geometry keeper second
      (opened 8 (b'h' ∷ []) (asked 100 (some (b'h' ∷ [])) (started 7 (b's' ∷ []) 40 120)))

abbrev pane_of : ℕ → ℕ → PaneEntry (List ℕ)
pane_of id sub = record { pane_id = id; sub_id = sub; label = []; parser = [] }

-- Two panes, the first one active.
abbrev two_panes : App (List ℕ)
two_panes = record {
  layout = default_for plain_geometry (record { x = 0; y = 0; width = 120; height = 40 });
  focused = TileId.pty;
  pane_stack = pane_of 7 1 ∷ pane_of 8 6 ∷ [];
  active_pane = 0;
  pending_opens = [];
  pending_confirm = none;
  terminal_size = (40, 120);
  next_sub_id = 7;
  pending_actions = [];
  toasts = [];
}

two_panes-AppIsValid : AppIsValid two_panes
two_panes-AppIsValid = record {
  active_in = omega arith;
  subs_grow = (omega arith, (omega arith, omega arith));
  toasts_fit = omega arith;
}

two_panes-routes_to_pty : routes_to_pty two_panes.layout two_panes.focused ≡ true
unfolding routes_to_pty default_for
two_panes-routes_to_pty = refl

close_last-handle_tab_example :
    (r : App (List ℕ) × List AppAction) × (close_active_pane
        (record two_panes { pane_stack = pane_of 7 1 ∷ []; active_pane = 0 })
        none
      ≡ some r)
    × (r.0.pane_stack ≡ [])
    × (handle_tab r.0 true ≡ none)
    × (handle_tab (handle_error r.0 90 true (b'n' ∷ [])).0 true ≡ none)
close_last-handle_tab_example =
    close_last-handle_tab two_panes (pane_of 7 1) none true 90 true (b'n' ∷ [])
      two_panes-routes_to_pty

-- One toast and one action that are due at 50.
abbrev due : App (List ℕ)
due = record two_panes {
  pending_actions = (3, record { deadline = 40; description = [] }) ∷ [];
  toasts = record { kind = info; message = opening []; expires_at = 50 } ∷ [];
}

sweep_expired-fresh_example :
    All (λ (t : Toast). ltb 50 t.expires_at ≡ true) (sweep_expired due 50).0.toasts
    × All
        (λ (e : ℕ × PendingAction). is_expired 50 e ≡ false)
        (sweep_expired due 50).0.pending_actions
    × NotDue 50 (sweep_expired due 50).0.pending_confirm
sweep_expired-fresh_example = sweep_expired-fresh due 50
