-- ===== src/Fleet.antt =====
-- The SSH fleet tile: `FleetScope` of crates/tepegoz-tui/src/app.rs and the arms `HostList` and
-- `HostStateChanged` of `handle_fleet_event`, over the hosts of crates/tepegoz-proto/src/lib.rs. The
-- state map is an association list in which the first entry of an alias counts.
pub mod States
mod Tests
use tepegoz.Prelude.{
  ℕ, Bool, true, false, not, ◌&&◌, ◌||◌, Option, none, some, List, [], ◌∷◌, ◌==◌, if◌then◌else◌,
  is_empty, get_elem?, filter_by, ◌>>=◌, length,
}
use tepegoz.Text.Same.{same_text, same_text_iff, contains_text}
use tepegoz.Scopes.{RowOps, anchor}

pub data HostState : Type 0 where
  disconnected connecting connected degraded auth_failed host_key_mismatch agent_not_deployed
        agent_version_mismatch :
      HostState

-- `==` on states.
abbrev pub same_state : HostState → HostState → Bool
same_state a b = index a == index b
  where
    index : HostState → ℕ
    index disconnected = 0
    index connecting = 1
    index connected = 2
    index degraded = 3
    index auth_failed = 4
    index host_key_mismatch = 5
    index agent_not_deployed = 6
    index agent_version_mismatch = 7

abbrev pub is_terminal : HostState → Bool
is_terminal auth_failed = true
is_terminal host_key_mismatch = true
is_terminal agent_not_deployed = true
is_terminal agent_version_mismatch = true
is_terminal _ = false

pub record HostEntry : Type 0 where
  pub alias : List ℕ
  pub hostname : List ℕ
  pub user : List ℕ
  pub port : ℕ
  pub identity_files : List (List ℕ)
  pub proxy_jump : Option (List ℕ)

abbrev pub States : Type 0
States = List (List ℕ × HostState)

unfoldable pub state_of : List ℕ → States → Option HostState
state_of alias [] = none
state_of alias ((key, state) ∷ states) =
    if same_text key alias then some state else state_of alias states

pub data FleetScopeState : Type 0 where
  fleet_connecting : FleetScopeState
  fleet_available : List HostEntry → States → List ℕ → FleetScopeState

pub record FleetScope : Type 0 where
  pub state : FleetScopeState
  pub selection : ℕ
  pub filter : List ℕ
  pub filter_active : Bool
  pub sub_id : ℕ

pub data FleetEvent : Type 0 where
  host_list : List HostEntry → List ℕ → FleetEvent
  host_state_changed : List ℕ → HostState → Option (List ℕ) → FleetEvent
  other_event : FleetEvent

-- What the red toast says: the host, its state and the reason.
pub record FleetToast : Type 0 where
  pub alias : List ℕ
  pub state : HostState
  pub reason : List ℕ

unfoldable pub new_fleet_scope : ℕ → FleetScope
new_fleet_scope sub_id = record {
  state = fleet_connecting;
  selection = 0;
  filter = [];
  filter_active = false;
  sub_id = sub_id;
}

abbrev pub or_disconnected : Option HostState → HostState
or_disconnected none = disconnected
or_disconnected (some state) = state

abbrev pub prev_states : FleetScopeState → States
prev_states fleet_connecting = []
prev_states (fleet_available hosts states source) = states

-- The state map of a new list: what was known of each host, or `Disconnected`.
unfoldable pub seeded : States → List HostEntry → States
seeded prev [] = []
seeded prev (h ∷ hosts) = (h.alias, or_disconnected (state_of h.alias prev)) ∷ seeded prev hosts

abbrev pub should_toast : HostState → Option (List ℕ) → Option HostState → Bool
should_toast state none prev = false
should_toast state (some reason) none = is_terminal state
should_toast state (some reason) (some prev) = is_terminal state && not (same_state prev state)

abbrev pub toast_of : List ℕ → HostState → Option (List ℕ) → Option FleetToast
toast_of alias state none = none
toast_of alias state (some reason) = some (record { alias = alias; state = state; reason = reason })

module _ (to_lowercase : List ℕ → List ℕ) where
  unfoldable pub host_matches : List ℕ → HostEntry → Bool
  host_matches filter h =
      let q = to_lowercase filter in
      is_empty filter
      || (contains_text (to_lowercase h.alias) q
          || (contains_text (to_lowercase h.hostname) q || contains_text (to_lowercase h.user) q))

  abbrev pub host_rows : RowOps HostEntry (List ℕ)
  host_rows = record {
    matches = host_matches;
    key_of = λ h. h.alias;
    same_key = same_text;
    same_key_iff = same_text_iff;
  }

  abbrev pub visible_hosts : FleetScope → List HostEntry
  visible_hosts v = elim v.state [
    | fleet_connecting ↦ []
    | fleet_available hosts states source ↦ filter_by (host_matches v.filter) hosts
  ]

  unfoldable pub selected_alias : FleetScope → Option (List ℕ)
  selected_alias v = get_elem? (visible_hosts v) v.selection >>= (λ (h : HostEntry). some h.alias)

  -- `reanchor_selection` where there are hosts.
  unfoldable pub list_hosts : FleetScope → List HostEntry → List ℕ → FleetScope
  list_hosts v hosts source = record v {
    state = fleet_available hosts (seeded (prev_states v.state) hosts) source;
    selection =
        anchor host_rows (selected_alias v) (filter_by (host_matches v.filter) hosts) v.selection;
  }

  unfoldable pub change_state :
      FleetScopeState
      → List ℕ
      → HostState
      → Option (List ℕ)
      → FleetScopeState × Bool × Option FleetToast
  change_state fleet_connecting alias state reason = (fleet_connecting, false, none)
  change_state (fleet_available hosts states source) alias state reason = (
    fleet_available hosts ((alias, state) ∷ states) source,
    true,
    if should_toast state reason (state_of alias states) then toast_of alias state reason else none,
  )

  -- The new scope, whether a frame is asked for, and the toast.
  unfoldable pub handle_fleet_event :
      FleetScope → FleetEvent → FleetScope × Bool × Option FleetToast
  unfolding list_hosts change_state
  handle_fleet_event v (host_list hosts source) = (list_hosts v hosts source, true, none)
  handle_fleet_event v (host_state_changed alias state reason) =
      let (state', drawn, toast) = change_state v.state alias state reason in
      (record v { state = state' }, drawn, toast)
  handle_fleet_event v other_event = (v, false, none)
