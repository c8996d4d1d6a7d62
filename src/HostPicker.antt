-- ===== src/HostPicker.antt =====
-- The host picker: `HostPickerModal`, its rows, its keys and the retargeting of the tiles, in
-- crates/tepegoz-tui/src/app.rs. The capabilities of the agents are an association list in which the
-- first entry of an alias counts.
pub mod Commit
mod Tests
use tepegoz.Prelude.{
  ℕ, ◌+◌, ◌-◌, Bool, true, false, not, ◌&&◌, ◌||◌, Option, none, some, List, [], ◌∷◌, ltb, ◌==◌,
  if◌then◌else◌, length, get_elem?, position, ◌>>=◌,
}
use tepegoz.Ssh.Chars.{chars}
use tepegoz.Text.Same.{same_text}
use tepegoz.Tile.{ScopeKind, docker, ports, fleet, routes_to_scope}
use tepegoz.Keys.{ScopeKey, up, down, top, bottom, home, end, escape, enter, char}
use tepegoz.Fleet.{
  HostState, connected, HostEntry, States, state_of, FleetScope, FleetScopeState, fleet_connecting,
  fleet_available, or_disconnected, same_state,
}
use tepegoz.Scopes.{connecting}
use tepegoz.Scopes.Toggle.{PortsScope, PortsActiveView, ports_view, processes_view}
use tepegoz.Daemon.{ScopeTarget, local, remote}
use tepegoz.Docker.{Panel, Pushed, redraw, unsubscribed}
use tepegoz.Docker.Events.{same_target, retarget_docker}

pub data HostPickerTargetTile : Type 0 where
  docker_tile ports_tile processes_tile : HostPickerTargetTile

pub record HostPickerModal : Type 0 where
  pub target_tile : HostPickerTargetTile
  pub required_capability : List ℕ
  pub selected : ℕ

pub data HostPickerRow : Type 0 where
  local_row : HostPickerRow
  remote_row : (alias : List ℕ) (state : HostState) (has_capability usable : Bool) → HostPickerRow

-- The fields of `App` that take part.
pub record Picking (Parser : Type 0) : Type 0 where
  pub panel : Panel Parser
  pub ports : PortsScope
  pub fleet : FleetScope
  pub host_capabilities : List (List ℕ × List (List ℕ))
  pub host_picker : Option HostPickerModal

-- What is pushed: what the Docker tile pushes, or the subscription of a list of the Ports tile.
pub data PickerAction : Type 0 where
  pushed : Pushed → PickerAction
  subscribe_ports subscribe_processes : ℕ → ScopeTarget → PickerAction

abbrev pub drawn_frame : PickerAction
drawn_frame = pushed redraw

unfoldable pub has_text : List ℕ → List (List ℕ) → Bool
has_text text [] = false
has_text text (t ∷ texts) = same_text t text || has_text text texts

unfoldable pub advertises : List ℕ → List ℕ → List (List ℕ × List (List ℕ)) → Bool
advertises capability alias [] = false
advertises capability alias ((key, caps) ∷ rest) =
    if same_text key alias then has_text capability caps else advertises capability alias rest

unfoldable pub host_row :
    List ℕ → List (List ℕ × List (List ℕ)) → States → HostEntry → HostPickerRow
host_row capability caps states h =
    let state = or_disconnected (state_of h.alias states) in
    let has_capability = advertises capability h.alias caps in
    remote_row h.alias state has_capability (same_state state connected && has_capability)

unfoldable pub host_rows :
    List ℕ → List (List ℕ × List (List ℕ)) → States → List HostEntry → List HostPickerRow
host_rows capability caps states [] = []
host_rows capability caps states (h ∷ hosts) =
    host_row capability caps states h ∷ host_rows capability caps states hosts

abbrev pub listed_rows :
    List ℕ → List (List ℕ × List (List ℕ)) → FleetScopeState → List HostPickerRow
listed_rows capability caps fleet_connecting = []
listed_rows capability caps (fleet_available hosts states source) =
    host_rows capability caps states hosts

abbrev pub is_target : ScopeTarget → HostPickerRow → Bool
is_target local local_row = true
is_target (remote t) (remote_row alias state has_capability usable) = same_text alias t
is_target _ _ = false

abbrev pub or_first : Option ℕ → ℕ
or_first none = 0
or_first (some n) = n

abbrev pub Picked : Type 0 → Type 0
Picked Parser = Picking Parser × List PickerAction

abbrev pub ports_tile_of : PortsActiveView → HostPickerTargetTile
ports_tile_of ports_view = ports_tile
ports_tile_of processes_view = processes_tile

-- The tile that a focused scope retargets; none for the fleet.
abbrev pub target_tile_of : ScopeKind → PortsActiveView → Option HostPickerTargetTile
target_tile_of docker active = some docker_tile
target_tile_of ports active = some (ports_tile_of active)
target_tile_of fleet active = none

abbrev pub required_of : HostPickerTargetTile → List ℕ
required_of docker_tile = chars "docker"
required_of ports_tile = chars "ports"
required_of processes_tile = chars "processes"

abbrev pub push_all : List Pushed → List PickerAction
push_all [] = []
push_all (a ∷ actions) = pushed a ∷ push_all actions

-- The row that a key leads to: nothing moves at the ends.
unfoldable pub row_after : ScopeKey → ℕ → ℕ → Option ℕ
row_after up rows selected = some (selected - 1)
row_after down rows selected =
    if ltb (selected + 1) rows then some (selected + 1) else some selected
row_after home rows selected = some 0
row_after top rows selected = some 0
row_after end rows selected = some (rows - 1)
row_after bottom rows selected = some (rows - 1)
row_after (char b) rows selected =
    if b == b'k'
    then some (selected - 1)
    else if b == b'j'
    then if ltb (selected + 1) rows then some (selected + 1) else some selected
    else if b == b'g'
    then some 0
    else if b == b'G'
    then some (rows - 1)
    else none
row_after _ rows selected = none

module _ {Parser : Type 0} where
  abbrev pub target_of : HostPickerTargetTile → Picking Parser → ScopeTarget
  target_of docker_tile p = p.panel.docker.target
  target_of ports_tile p = p.ports.ports_target
  target_of processes_tile p = p.ports.processes_target

  unfoldable pub host_picker_rows : List ℕ → Picking Parser → List HostPickerRow
  host_picker_rows capability p =
      local_row ∷ listed_rows capability p.host_capabilities p.fleet.state

  unfoldable pub open_on : Option HostPickerTargetTile → Picking Parser → Picked Parser
  open_on none p = (p, [])
  open_on (some tile) p = (
    record p {
      host_picker = some (record {
        target_tile = tile;
        required_capability = required_of tile;
        selected =
            or_first
              (position (is_target (target_of tile p)) (host_picker_rows (required_of tile) p));
      });
    },
    drawn_frame ∷ [],
  )

  unfoldable pub open_host_picker : Picking Parser → Picked Parser
  unfolding open_on
  open_host_picker p =
      let app = p.panel.app in
      open_on
        (routes_to_scope app.layout app.focused >>= (λ kind. target_tile_of kind p.ports.active)) p

  unfoldable pub dismiss_host_picker : Picking Parser → Picked Parser
  dismiss_host_picker p = elim p.host_picker [
    | none ↦ (p, [])
    | some picker ↦ (record p { host_picker = none }, drawn_frame ∷ [])
  ]

  unfoldable pub retarget_ports : ScopeTarget → Picking Parser → Picked Parser
  retarget_ports new_target p =
      if same_target p.ports.ports_target new_target then (p, drawn_frame ∷ []) else (
        record p {
          ports = record p.ports {
            ports = record p.ports.ports { state = connecting; selection = 0 };
            ports_target = new_target;
          };
        },
        pushed (unsubscribed p.ports.ports_sub_id)
            ∷ subscribe_ports p.ports.ports_sub_id new_target
            ∷ drawn_frame
            ∷ [],
      )

  unfoldable pub retarget_processes : ScopeTarget → Picking Parser → Picked Parser
  retarget_processes new_target p =
      if same_target p.ports.processes_target new_target then (p, drawn_frame ∷ []) else (
        record p {
          ports = record p.ports {
            processes = record p.ports.processes { state = connecting; selection = 0 };
            processes_target = new_target;
          };
        },
        pushed (unsubscribed p.ports.processes_sub_id)
            ∷ subscribe_processes p.ports.processes_sub_id new_target
            ∷ drawn_frame
            ∷ [],
      )

  unfoldable pub retarget : HostPickerTargetTile → ScopeTarget → Picking Parser → Picked Parser
  retarget docker_tile target p =
      let (panel, actions) = retarget_docker target p.panel in
      (record p { panel = panel }, push_all actions)
  retarget ports_tile target p = retarget_ports target p
  retarget processes_tile target p = retarget_processes target p

  -- The row that is committed; none where the host list has become shorter.
  unfoldable pub commit_row :
      HostPickerModal → Option HostPickerRow → Picking Parser → Picked Parser
  unfolding retarget
  commit_row picker none p = (record p { host_picker = none }, drawn_frame ∷ [])
  commit_row picker (some local_row) p =
      retarget picker.target_tile local (record p { host_picker = none })
  commit_row picker (some (remote_row alias state has_capability true)) p =
      retarget picker.target_tile (remote alias) (record p { host_picker = none })
  commit_row picker (some (remote_row alias state has_capability false)) p = (p, [])

  unfoldable pub select : HostPickerModal → ℕ → Picking Parser → Picked Parser
  select picker n p =
      if n == picker.selected
      then (p, [])
      else (record p { host_picker = some (record picker { selected = n }) }, drawn_frame ∷ [])

  unfoldable pub select_on : HostPickerModal → Option ℕ → Picking Parser → Picked Parser
  unfolding select
  select_on picker none p = (p, [])
  select_on picker (some n) p = select picker n p

  unfoldable pub picker_key : ScopeKey → HostPickerModal → Picking Parser → Picked Parser
  unfolding commit_row select_on
  picker_key enter picker p =
      commit_row picker (get_elem? (host_picker_rows picker.required_capability p) picker.selected)
        p
  picker_key escape picker p = (record p { host_picker = none }, drawn_frame ∷ [])
  picker_key key picker p =
      let rows = length (host_picker_rows picker.required_capability p) in
      select_on picker (row_after key rows picker.selected) p

  unfoldable pub key_on : ScopeKey → Option HostPickerModal → Picking Parser → Picked Parser
  unfolding picker_key
  key_on key none p = (p, [])
  key_on key (some picker) p = picker_key key picker p

  unfoldable pub handle_host_picker_key : ScopeKey → Picking Parser → Picked Parser
  unfolding key_on
  handle_host_picker_key key p = key_on key p.host_picker p
