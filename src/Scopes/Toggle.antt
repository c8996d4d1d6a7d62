-- ===== src/Scopes/Toggle.antt =====
-- The Ports tile: `PortsScope` of crates/tepegoz-tui/src/app.rs, `handle_ports_key`,
-- `handle_ports_event` and `handle_processes_event`.
use tepegoz.Prelude.{ℕ, Bool, true, false, List, [], arith, ◌==◌, if◌then◌else◌}
use tepegoz.Keys.{ScopeKey, char}
use tepegoz.Scopes.{ListView, ListEvent, connecting, visible_count, list_key, handle_list_event}
use tepegoz.Scopes.InRange.{InRange, list_key-InRange, handle_list_event-InRange}
use tepegoz.Daemon.{ScopeTarget, local}
use tepegoz.Scopes.Rows.{ProbePort, ProbeProcess, port_rows, process_rows}

pub data PortsActiveView : Type 0 where
  ports_view processes_view : PortsActiveView

pub record PortsScope : Type 0 where
  pub ports : ListView ProbePort
  pub processes : ListView ProbeProcess
  pub active : PortsActiveView
  pub ports_sub_id : ℕ
  pub processes_sub_id : ℕ
  pub ports_target : ScopeTarget
  pub processes_target : ScopeTarget

unfoldable pub new_ports_scope : ℕ → ℕ → PortsScope
new_ports_scope ports_sub_id processes_sub_id = record {
  ports = record { state = connecting; selection = 0; filter = []; filter_active = false };
  processes = record { state = connecting; selection = 0; filter = []; filter_active = false };
  active = ports_view;
  ports_sub_id = ports_sub_id;
  processes_sub_id = processes_sub_id;
  ports_target = local;
  processes_target = local;
}

abbrev pub is_filter_active : PortsScope → Bool
is_filter_active s = elim s.active [
  | ports_view ↦ s.ports.filter_active
  | processes_view ↦ s.processes.filter_active
]

abbrev pub other_view : PortsActiveView → PortsActiveView
other_view ports_view = processes_view
other_view processes_view = ports_view

abbrev pub is_toggle : ScopeKey → Bool
is_toggle (char b) = b == b'p'
is_toggle key = false

module _ (to_lowercase : List ℕ → List ℕ) where
  unfoldable pub active_list_key : PortsActiveView → PortsScope → ScopeKey → PortsScope × Bool
  active_list_key ports_view s key =
      let (list, drawn) = list_key (port_rows to_lowercase) s.ports key in
      (record s { ports = list }, drawn)
  active_list_key processes_view s key =
      let (list, drawn) = list_key (process_rows to_lowercase) s.processes key in
      (record s { processes = list }, drawn)

  unfoldable pub handle_ports_key : PortsScope → ScopeKey → PortsScope × Bool
  unfolding active_list_key
  handle_ports_key s key =
      if is_toggle key
      then (if is_filter_active s
          then active_list_key s.active s key
          else (record s { active = other_view s.active }, true))
      else active_list_key s.active s key

  unfoldable pub handle_ports_event : PortsScope → ListEvent ProbePort → PortsScope × Bool
  handle_ports_event s event =
      let (list, drawn) = handle_list_event (port_rows to_lowercase) s.ports event in
      (record s { ports = list }, drawn)

  unfoldable pub handle_processes_event : PortsScope → ListEvent ProbeProcess → PortsScope × Bool
  handle_processes_event s event =
      let (list, drawn) = handle_list_event (process_rows to_lowercase) s.processes event in
      (record s { processes = list }, drawn)

  -- The scopes that keys and daemon events lead to, in any order.
  pub data ScopeReached : PortsScope → Type 0 where
    opened_scope :
        (ports_sub processes_sub : ℕ) → ScopeReached (new_ports_scope ports_sub processes_sub)
    key_pressed :
        {s : PortsScope} (key : ScopeKey) → ScopeReached s → ScopeReached (handle_ports_key s key).0
    ports_arrived :
        {s : PortsScope} (event : ListEvent ProbePort)
        → ScopeReached s
        → ScopeReached (handle_ports_event s event).0
    processes_arrived :
        {s : PortsScope} (event : ListEvent ProbeProcess)
        → ScopeReached s
        → ScopeReached (handle_processes_event s event).0

  abbrev pub BothInRange : PortsScope → Type 0
  BothInRange s =
      InRange (port_rows to_lowercase) s.ports × InRange (process_rows to_lowercase) s.processes

  active_list_key-BothInRange :
      (active : PortsActiveView) (s : PortsScope) (key : ScopeKey)
      → BothInRange s
      → BothInRange (active_list_key active s key).0
  unfolding active_list_key
  active_list_key-BothInRange ports_view s key h =
      (list_key-InRange (port_rows to_lowercase) s.ports key h.0, h.1)
  active_list_key-BothInRange processes_view s key h =
      (h.0, list_key-InRange (process_rows to_lowercase) s.processes key h.1)

  branch-BothInRange :
      (b : Bool) (x y : PortsScope × Bool)
      → BothInRange x.0
      → BothInRange y.0
      → BothInRange (if b then x else y).0
  branch-BothInRange true x y hx hy = hx
  branch-BothInRange false x y hx hy = hy

  handle_ports_key-BothInRange :
      (s : PortsScope) (key : ScopeKey) → BothInRange s → BothInRange (handle_ports_key s key).0
  unfolding handle_ports_key
  handle_ports_key-BothInRange s key h =
      let listed = active_list_key-BothInRange s.active s key h in
      let toggled : PortsScope = record s { active = other_view s.active } in
      branch-BothInRange (is_toggle key)
        (if is_filter_active s then active_list_key s.active s key else (toggled, true))
        (active_list_key s.active s key)
        (branch-BothInRange (is_filter_active s) (active_list_key s.active s key) (toggled, true)
          listed h)
        listed

  -- Whatever keys are pressed and whatever lists and failures arrive, in any order, both lists have
  -- their selection on a row that they show, or at 0 where they show none.
  pub ScopeReached-BothInRange : (s : PortsScope) → ScopeReached s → BothInRange s
  unfolding handle_ports_event handle_processes_event new_ports_scope visible_count
  ScopeReached-BothInRange _ (opened_scope ports_sub processes_sub) = (omega arith, omega arith)
  ScopeReached-BothInRange _ (key_pressed {s} key r) =
      handle_ports_key-BothInRange s key (ScopeReached-BothInRange s r)
  ScopeReached-BothInRange _ (ports_arrived {s} event r) =
      let h = ScopeReached-BothInRange s r in
      (handle_list_event-InRange (port_rows to_lowercase) s.ports event h.0, h.1)
  ScopeReached-BothInRange _ (processes_arrived {s} event r) =
      let h = ScopeReached-BothInRange s r in
      (h.0, handle_list_event-InRange (process_rows to_lowercase) s.processes event h.1)
