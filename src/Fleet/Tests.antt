-- ===== src/Fleet/Tests.antt =====
-- Runs of the fleet tile of crates/tepegoz-tui/src/app.rs.
use tepegoz.Prelude.{ℕ, none, some, List, [], ◌∷◌}
use tepegoz.Fleet.{
  HostEntry, FleetScope, new_fleet_scope, host_list, host_state_changed, auth_failed,
  handle_fleet_event,
}

abbrev folded : List ℕ → List ℕ
folded text = text

abbrev box : HostEntry
box = record {
  alias = b'b' ∷ [];
  hostname = b'b' ∷ b'x' ∷ [];
  user = b'u' ∷ [];
  port = 22;
  identity_files = [];
  proxy_jump = none;
}

abbrev listed : FleetScope
listed = (handle_fleet_event folded (new_fleet_scope 5) (host_list (box ∷ []) [])).0

abbrev failed : FleetScope
failed = (handle_fleet_event folded listed (host_state_changed (b'b' ∷ []) auth_failed (some []))).0
