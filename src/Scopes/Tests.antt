-- ===== src/Scopes/Tests.antt =====
-- Runs of the Ports tile of crates/tepegoz-tui/src/app.rs: one service that listens on IPv4 and on
-- IPv6.
use tepegoz.Prelude.{ℕ, ◌≡◌, ◌≤◌, refl, false, none, some, List, [], ◌∷◌}
use tepegoz.Keys.{down}
use tepegoz.Scopes.{
  ListView, available, row_list, visible_in, selected_row, selected_key, handle_list_event,
}
use tepegoz.Scopes.Rows.{ProbePort, PortKey, port_matches, port_key_of, port_rows}
use tepegoz.Scopes.Anchor.{HasKey}
use tepegoz.Scopes.Refresh.{refresh-selected_key}
use tepegoz.Scopes.Toggle.{
  new_ports_scope, handle_ports_key, handle_ports_event, BothInRange, opened_scope, key_pressed,
  ports_arrived, ScopeReached-BothInRange,
}

-- A case folding that folds nothing.
abbrev folded : List ℕ → List ℕ
folded text = text

abbrev listener : ℕ → ProbePort
listener family = record {
  local_ip = family ∷ [];
  local_port = 8080;
  protocol = b't' ∷ [];
  pid = 41;
  process_name = b'n' ∷ [];
  container_id = none;
  partial = false;
}

abbrev listeners : List ProbePort
listeners = listener b'4' ∷ listener b'6' ∷ []

abbrev listed : ListView ProbePort
listed = record {
  state = available listeners [];
  selection = 1;
  filter = [];
  filter_active = false;
}

abbrev listener_key : PortKey
listener_key = record { protocol = b't' ∷ []; local_port = 8080; pid = 41 }

listed_key : selected_key (port_rows folded) listed ≡ some listener_key
unfolding selected_key selected_row port_matches port_key_of
listed_key = refl

first_row : HasKey (port_rows folded) listener_key listeners 0
unfolding port_key_of
first_row = (listener b'4', refl, refl)

first_visible :
    HasKey
      (port_rows folded)
      listener_key
      (visible_in (port_rows folded) [] (available listeners []))
      0
unfolding port_matches
first_visible = first_row

refresh-selected_key_example :
    (selected_key
        (port_rows folded)
        (handle_list_event (port_rows folded) listed (row_list listeners [])).0
      ≡ some listener_key)
    × ((handle_list_event (port_rows folded) listed (row_list listeners [])).0.selection ≤ 0)
refresh-selected_key_example =
    refresh-selected_key (port_rows folded) listed listeners [] listener_key 0 listed_key
      first_visible

ScopeReached-BothInRange_example :
    BothInRange folded
      (handle_ports_key folded
        (handle_ports_event folded (new_ports_scope 3 4) (row_list listeners [])).0
        down).0
ScopeReached-BothInRange_example =
    ScopeReached-BothInRange folded
      (handle_ports_key folded
        (handle_ports_event folded (new_ports_scope 3 4) (row_list listeners [])).0 down).0
      (key_pressed down (ports_arrived (row_list listeners []) (opened_scope 3 4)))
