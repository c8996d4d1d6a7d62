-- ===== src/HostPicker/Tests.antt =====
-- Keys of an open host picker as crates/tepegoz-tui/src/app.rs handles them.
use tepegoz.Prelude.{ℕ, ◌≡◌, refl, false, some, none, List, [], ◌∷◌, ◌++◌}
use tepegoz.Ssh.Chars.{chars}
use tepegoz.Text.Same.{same_text}
use tepegoz.Tile.Tests.{plain_geometry}
use tepegoz.Keys.{enter}
use tepegoz.App.{Vt100, new_app}
use tepegoz.Fleet.{HostEntry, connected, fleet_available, state_of}
use tepegoz.Scopes.Toggle.{new_ports_scope}
use tepegoz.Daemon.{remote}
use tepegoz.Docker.{new_docker_scope}
use tepegoz.Docker.Events.{retarget_docker}
use tepegoz.HostPicker.{
  HostPickerModal, docker_tile, Picking, handle_host_picker_key, key_on, picker_key, commit_row,
  retarget, host_picker_rows, host_rows, host_row, advertises, has_text, required_of, target_of,
}
use tepegoz.HostPicker.Commit.{IsRetargeted, handle_host_picker_key-IsRetargeted}

abbrev keeper : Vt100 (List ℕ)
keeper = record {
  new_parser = λ rows cols scrollback. [];
  feed = λ parser bytes. parser ++ bytes;
  set_size = λ parser rows cols. parser;
}

abbrev box : HostEntry
box = record {
  alias = b'b' ∷ [];
  hostname = b'b' ∷ [];
  user = b'u' ∷ [];
  port = 22;
  identity_files = [];
  proxy_jump = none;
}

-- The picker of the Docker tile, on the only host, which serves it.
abbrev on_box : HostPickerModal
on_box = record {
  target_tile = docker_tile;
  required_capability = required_of docker_tile;
  selected = 1;
}

abbrev picking : Picking (List ℕ)
picking = record {
  panel = record {
    app = new_app plain_geometry keeper 7 (b's' ∷ []) 40 120;
    docker = new_docker_scope 2;
  };
  ports = new_ports_scope 3 4;
  fleet = record {
    state = fleet_available (box ∷ []) ((b'b' ∷ [], connected) ∷ []) [];
    selection = 0;
    filter = [];
    filter_active = false;
    sub_id = 5;
  };
  host_capabilities = (b'b' ∷ [], chars "docker" ∷ []) ∷ [];
  host_picker = some on_box;
}

committed : target_of docker_tile (handle_host_picker_key enter picking).0 ≡ remote (b'b' ∷ [])
unfolding handle_host_picker_key key_on picker_key commit_row retarget retarget_docker
    host_picker_rows host_rows host_row advertises has_text same_text state_of new_docker_scope
committed = refl

handle_host_picker_key-IsRetargeted_example :
    IsRetargeted on_box docker_tile picking (handle_host_picker_key enter picking).0
handle_host_picker_key-IsRetargeted_example =
    handle_host_picker_key-IsRetargeted enter on_box docker_tile picking refl
