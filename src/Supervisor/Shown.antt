-- ===== src/Supervisor/Shown.antt =====
-- The supervisor of a host and the fleet tile together: `host_supervisor` of
-- crates/tepegoz-core/src/client.rs sends the events that `handle_fleet_event` of
-- crates/tepegoz-tui/src/app.rs takes in.
use tepegoz.Prelude.{
  ℕ, ◌≡◌, ◌⊎◌, inl, inr, refl, sym, ap, ◌∙◌, Bool, true, false, Option, none, some, List, [], ◌∷◌,
}
use tepegoz.Fleet.{HostState, disconnected, HostEntry}
use tepegoz.Supervisor.{
  Supervisor, idle, Emitted, Reason, state_changed, agent_capabilities, emit, begin_with, begin,
  top_of_loop, step,
}
use tepegoz.Supervisor.View.{
  View, told, untold, told-append, PhaseAgrees, Reached, started, stepped,
}
use tepegoz.Text.Same.{same_text, same_text_iff}
use tepegoz.Fleet.{
  FleetScope, FleetScopeState, fleet_connecting, fleet_available, state_of, change_state,
  handle_fleet_event, host_state_changed, other_event,
}
use tepegoz.Supervisor.View.Runs.{Reached-Agrees}

-- What the tile shows of a host, once a list has arrived.
abbrev pub shown_state : List ℕ → FleetScopeState → Option HostState
shown_state alias fleet_connecting = none
shown_state alias (fleet_available hosts states source) = state_of alias states

abbrev pub has_list : FleetScopeState → Bool
has_list fleet_connecting = false
has_list (fleet_available hosts states source) = true

abbrev is_known : Option HostState → Bool
is_known none = false
is_known (some state) = true

-- The last state that is told does not depend on what was known before.
told_state :
    (u v : View) (es : List Emitted)
    → ((told v es).state ≡ (told u es).state)
      ⊎ (((told v es).state ≡ v.state) × ((told u es).state ≡ u.state))
unfolding told
told_state u v [] = inr (refl, refl)
told_state u v (agent_capabilities capabilities ∷ es) =
    told_state (record u { capabilities = capabilities }) (record v { capabilities = capabilities })
      es
told_state u v (state_changed state reason ∷ es) =
    elim (told_state (record u { state = some state }) (record v { state = some state }) es) [
      | inl e ↦ inl e
      | inr e ↦ inl (e.0 ∙ sym e.1)
    ]

told_something :
    (v : View) (es : List Emitted) → is_known v.state ≡ true → is_known (told v es).state ≡ true
unfolding told
told_something v [] h = h
told_something v (agent_capabilities capabilities ∷ es) h =
    told_something (record v { capabilities = capabilities }) es h
told_something v (state_changed state reason ∷ es) h =
    told_something (record v { state = some state }) es refl

begin_with-told :
    (jump : Option (List ℕ)) (autoconnect : Bool) (at : ℕ)
    → is_known (told untold (begin_with jump autoconnect at).1).state ≡ true
unfolding begin_with emit told
begin_with-told (some jump) autoconnect at = refl
begin_with-told none autoconnect at =
    told_something (record { state = some disconnected; capabilities = [] })
      (top_of_loop at (record { phase = idle; should_connect = autoconnect; backoff_idx = 0 })).1
      refl

Reached-told :
    (entry : HostEntry) (autoconnect : Bool) (t : ℕ) (s : Supervisor) (es : List Emitted)
    → Reached entry autoconnect t s es
    → is_known (told untold es).state ≡ true
unfolding begin
Reached-told entry autoconnect _ _ _ (started at) = begin_with-told entry.proxy_jump autoconnect at
Reached-told entry autoconnect _ _ _ (stepped {t} {s} {es} at w later r) =
    rw (told-append untold es (step at w s).1)
      (told_something (told untold es) (step at w s).1 (Reached-told entry autoconnect t s es r))

module _ (to_lowercase : List ℕ → List ℕ) (text : Reason → List ℕ) where
  -- The text of the reason, where there is one.
  abbrev text_of : Option Reason → Option (List ℕ)
  text_of none = none
  text_of (some reason) = some (text reason)

  abbrev pub shows : List ℕ → FleetScope → List Emitted → FleetScope
  shows alias v [] = v
  shows alias v (state_changed state reason ∷ es) =
      shows alias
        (handle_fleet_event to_lowercase v (host_state_changed alias state (text_of reason))).0 es
  shows alias v (agent_capabilities capabilities ∷ es) =
      shows alias (handle_fleet_event to_lowercase v other_event).0 es

  change_state-shown :
      (alias : List ℕ) (v : FleetScopeState) (state : HostState) (reason : Option (List ℕ))
      → has_list v ≡ true
      → (has_list (change_state to_lowercase v alias state reason).0 ≡ true)
        × (shown_state alias (change_state to_lowercase v alias state reason).0 ≡ some state)
  unfolding change_state state_of
  change_state-shown alias fleet_connecting state reason h = cc
  change_state-shown alias (fleet_available hosts states source) state reason h =
      let e : same_text alias alias ≡ true = (same_text_iff alias alias).1 refl in rw e (refl, refl)

  shows-told :
      (alias : List ℕ) (v : FleetScope) (w : View) (es : List Emitted)
      → has_list v.state ≡ true
      → shown_state alias v.state ≡ w.state
      → shown_state alias (shows alias v es).state ≡ (told w es).state
  unfolding told handle_fleet_event change_state state_of
  shows-told alias v w [] l h = h
  shows-told alias v w (agent_capabilities capabilities ∷ es) l h =
      shows-told alias v (record w { capabilities = capabilities }) es l h
  shows-told alias v w (state_changed state reason ∷ es) l h =
      let c = change_state-shown alias v.state state (text_of reason) l in
      shows-told alias
        (handle_fleet_event to_lowercase v (host_state_changed alias state (text_of reason))).0
        (record w { state = some state }) es c.0 c.1

  -- A fleet tile that has listed a host as Disconnected and is sent what the supervisor of the host
  -- sends in a run shows the state that was told last, which is what the supervisor is in.
  pub Reached-shown :
      (entry : HostEntry) (autoconnect : Bool) (t : ℕ) (s : Supervisor) (es : List Emitted)
      (v : FleetScope)
      → Reached entry autoconnect t s es
      → has_list v.state ≡ true
      → shown_state entry.alias v.state ≡ some disconnected
      → PhaseAgrees t s.phase s.should_connect (record {
        state = shown_state entry.alias (shows entry.alias v es).state;
        capabilities = (told untold es).capabilities;
      })
  Reached-shown entry autoconnect t s es v r l d =
      let listed : View = record { state = some disconnected; capabilities = [] } in
      let e = shows-told entry.alias v listed es l d in
      let same : (told listed es).state ≡ (told untold es).state =
        elim (told_state untold listed es) [
          | inl f ↦ f
          | inr f ↦
              let known = Reached-told entry autoconnect t s es r in
              let unknown : false ≡ true = sym (ap is_known f.1) ∙ known in cc
        ] in
      rw (e, same) (Reached-Agrees entry autoconnect t s es r).0
