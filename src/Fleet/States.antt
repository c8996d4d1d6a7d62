-- ===== src/Fleet/States.antt =====
-- The connection states of the fleet tile: `handle_fleet_event` of crates/tepegoz-tui/src/app.rs.
use tepegoz.Prelude.{
  ℕ, zero, suc, ◌-◌, ◌≤◌, ◌≡◌, refl, true, false, Option, none, some, List, [], ◌∷◌, arith,
  Bool-cases, inl, inr, get_elem?, length,
}
use tepegoz.Text.Same.{same_text, same_text_iff}
use tepegoz.Scopes.Anchor.{anchor-small}
use tepegoz.Fleet.{
  HostState, same_state, HostEntry, States, state_of, FleetScopeState, fleet_connecting,
  fleet_available, FleetScope, host_list, host_state_changed, or_disconnected, prev_states, seeded,
  should_toast, host_rows, visible_hosts, list_hosts, change_state, handle_fleet_event,
}

same_text_refl : (t : List ℕ) → same_text t t ≡ true
same_text_refl t = (same_text_iff t t).1 refl

seeded_first :
    (prev : States) (g h : HostEntry) (hosts : List HostEntry)
    → g.alias ≡ h.alias
    → state_of h.alias (seeded prev (g ∷ hosts)) ≡ some (or_disconnected (state_of h.alias prev))
unfolding seeded state_of
seeded_first prev g h hosts same = rw same (rw (same_text_refl h.alias) refl)

state_of-seeded :
    (prev : States) (hosts : List HostEntry) (i : ℕ) (h : HostEntry)
    → get_elem? hosts i ≡ some h
    → state_of h.alias (seeded prev hosts) ≡ some (or_disconnected (state_of h.alias prev))
unfolding seeded state_of
state_of-seeded prev [] i h at = cc
state_of-seeded prev (g ∷ hosts) zero h at =
    let same : g.alias ≡ h.alias = cc in seeded_first prev g h hosts same
state_of-seeded prev (g ∷ hosts) (suc i) h at = elim (Bool-cases (same_text g.alias h.alias)) [
  | inl e ↦ seeded_first prev g h hosts ((same_text_iff g.alias h.alias).0 e)
  | inr e ↦ rw e (state_of-seeded prev hosts i h at)
]

module _ (to_lowercase : List ℕ → List ℕ) where
  -- A new list of hosts keeps what was known of each of them, and `Disconnected` for the others, and
  -- leaves the selection on a row that is shown, or at 0.
  pub host_list-states :
      (v : FleetScope) (hosts : List HostEntry) (source : List ℕ) (i : ℕ) (h : HostEntry)
      → get_elem? hosts i ≡ some h
      → let w = (handle_fleet_event to_lowercase v (host_list hosts source)).0 in
        (state_of h.alias (prev_states w.state)
          ≡ some (or_disconnected (state_of h.alias (prev_states v.state))))
        × (w.selection ≤ length (visible_hosts to_lowercase w) - 1)
  unfolding handle_fleet_event list_hosts
  host_list-states v hosts source i h at = (
    state_of-seeded (prev_states v.state) hosts i h at,
    anchor-small (host_rows to_lowercase) _ _ v.selection,
  )

  same_state_refl : (s : HostState) → same_state s s ≡ true
  same_state_refl s = ground arith

  repeated :
      (reason : Option (List ℕ)) (state : HostState)
      → should_toast state reason (some state) ≡ false
  repeated none state = refl
  repeated (some r) state = rw same_state_refl (ground arith)

  change_state_twice :
      (scope : FleetScopeState) (alias : List ℕ) (state : HostState)
      (reason reason' : Option (List ℕ))
      → (change_state to_lowercase
          (change_state to_lowercase scope alias state reason).0
          alias
          state
          reason').2
        ≡ none
  unfolding change_state state_of
  change_state_twice fleet_connecting alias state reason reason' = refl
  change_state_twice (fleet_available hosts states source) alias state reason reason' =
      rw (same_text_refl alias, repeated reason' state) refl

  -- A state that is reported again, whatever the reasons, shows no second toast.
  pub handle_fleet_event_twice :
      (v : FleetScope) (alias : List ℕ) (state : HostState) (reason reason' : Option (List ℕ))
      → let once = (handle_fleet_event to_lowercase v (host_state_changed alias state reason)).0 in
        (handle_fleet_event to_lowercase once (host_state_changed alias state reason')).2 ≡ none
  unfolding handle_fleet_event
  handle_fleet_event_twice v alias state reason reason' =
      change_state_twice v.state alias state reason reason'
