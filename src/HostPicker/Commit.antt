-- ===== src/HostPicker/Commit.antt =====
-- What the keys of the host picker do to the targets of the tiles: `handle_host_picker_key` and
-- `commit_host_picker` of crates/tepegoz-tui/src/app.rs.
use mathlib.Core.Path.{subst}
use tepegoz.Prelude.{
  ℕ, zero, suc, ◌≡◌, ◌⊎◌, refl, sym, ◌∙◌, result_of, Bool, true, false, ◌&&◌, Option, none, some,
  List, [], ◌∷◌, ◌==◌, Bool-cases, inl, inr, All, get_elem?,
}
use tepegoz.Keys.{
  ScopeKey, up, down, top, bottom, home, end, pg_up, pg_dn, filter_start, escape, enter, backspace,
  char,
}
use tepegoz.Fleet.{
  HostState, disconnected, connected, HostEntry, States, state_of, FleetScopeState,
  fleet_connecting, fleet_available, or_disconnected, same_state,
}
use tepegoz.Daemon.{ScopeTarget, local, remote}
use tepegoz.Docker.Events.{retarget_docker, same_target}
use tepegoz.HostPicker.{
  HostPickerTargetTile, docker_tile, ports_tile, processes_tile, HostPickerModal, HostPickerRow,
  local_row, remote_row, Picking, advertises, host_row, host_rows, listed_rows, host_picker_rows,
  target_of, retarget, retarget_ports, retarget_processes, commit_row, select, select_on,
  picker_key, key_on, handle_host_picker_key,
}

-- The state of a host in the fleet list.
abbrev pub state_in : FleetScopeState → List ℕ → HostState
state_in fleet_connecting alias = disconnected
state_in (fleet_available hosts states source) alias = or_disconnected (state_of alias states)

-- A host serves a capability if it is Connected and its agent advertises it.
abbrev pub serves : {Parser : Type 0} → List ℕ → List ℕ → Picking Parser → Bool
serves capability alias p =
    same_state (state_in p.fleet.state alias) connected
    && advertises capability alias p.host_capabilities

abbrev RowIsTrue : (List ℕ → Bool) → HostPickerRow → Type 0
RowIsTrue served local_row = Unit
RowIsTrue served (remote_row alias state has_capability usable) = served alias ≡ usable

host_rows-true :
    (capability : List ℕ) (caps : List (List ℕ × List (List ℕ))) (states : States)
    (hosts : List HostEntry)
    → All
        (RowIsTrue (λ alias.
          same_state (or_disconnected (state_of alias states)) connected
          && advertises capability alias caps))
        (host_rows capability caps states hosts)
unfolding host_rows host_row
host_rows-true capability caps states [] = tt
host_rows-true capability caps states (h ∷ hosts) =
    (refl, host_rows-true capability caps states hosts)

listed_rows-true :
    (capability : List ℕ) (caps : List (List ℕ × List (List ℕ))) (state : FleetScopeState)
    → All
        (RowIsTrue (λ alias.
          same_state (state_in state alias) connected && advertises capability alias caps))
        (listed_rows capability caps state)
listed_rows-true capability caps fleet_connecting = tt
listed_rows-true capability caps (fleet_available hosts states source) =
    host_rows-true capability caps states hosts

get_elem?-All :
    {A : Type 0} (P : A → Type 0) (xs : List A) (n : ℕ) (x : A)
    → All P xs
    → get_elem? xs n ≡ some x
    → P x
get_elem?-All P [] n x h e = cc
get_elem?-All P (y ∷ xs) zero x h e = result_of P e h.0
get_elem?-All P (y ∷ xs) (suc n) x h e = get_elem?-All P xs n x h.1 e

module _ {Parser : Type 0} where
  -- The target of a tile is what it was, or this is the tile of the picker and its new target is this
  -- machine or a host that serves it.
  abbrev pub IsRetargeted :
      HostPickerModal → HostPickerTargetTile → Picking Parser → Picking Parser → Type 0
  IsRetargeted picker tile p p' =
      (target_of tile p' ≡ target_of tile p)
      ⊎ ((tile ≡ picker.target_tile)
          × ((target_of tile p' ≡ local)
              ⊎ ((alias : List ℕ) × (target_of tile p' ≡ remote alias)
                  × (serves picker.required_capability alias p ≡ true))))

  -- The modal is no part of the targets.
  modal_target :
      (tile : HostPickerTargetTile) (p : Picking Parser) (modal : Option HostPickerModal)
      → target_of tile (record p { host_picker = modal }) ≡ target_of tile p
  modal_target docker_tile p modal = refl
  modal_target ports_tile p modal = refl
  modal_target processes_tile p modal = refl

  retarget-target :
      (own tile : HostPickerTargetTile) (target : ScopeTarget) (p : Picking Parser)
      → (target_of tile (retarget own target p).0 ≡ target_of tile p)
        ⊎ ((tile ≡ own) × (target_of tile (retarget own target p).0 ≡ target))
  unfolding retarget retarget_docker retarget_ports retarget_processes
  retarget-target docker_tile docker_tile target p =
      elim (Bool-cases (same_target p.panel.docker.target target)) [
        | inl e ↦ inl (rw e refl)
        | inr e ↦ inr (refl, rw e refl)
      ]
  retarget-target docker_tile ports_tile target p = inl refl
  retarget-target docker_tile processes_tile target p = inl refl
  retarget-target ports_tile ports_tile target p =
      elim (Bool-cases (same_target p.ports.ports_target target)) [
        | inl e ↦ inl (rw e refl)
        | inr e ↦ inr (refl, rw e refl)
      ]
  retarget-target ports_tile docker_tile target p =
      elim (Bool-cases (same_target p.ports.ports_target target)) [
        | inl e ↦ inl (rw e refl)
        | inr e ↦ inl (rw e refl)
      ]
  retarget-target ports_tile processes_tile target p =
      elim (Bool-cases (same_target p.ports.ports_target target)) [
        | inl e ↦ inl (rw e refl)
        | inr e ↦ inl (rw e refl)
      ]
  retarget-target processes_tile processes_tile target p =
      elim (Bool-cases (same_target p.ports.processes_target target)) [
        | inl e ↦ inl (rw e refl)
        | inr e ↦ inr (refl, rw e refl)
      ]
  retarget-target processes_tile docker_tile target p =
      elim (Bool-cases (same_target p.ports.processes_target target)) [
        | inl e ↦ inl (rw e refl)
        | inr e ↦ inl (rw e refl)
      ]
  retarget-target processes_tile ports_tile target p =
      elim (Bool-cases (same_target p.ports.processes_target target)) [
        | inl e ↦ inl (rw e refl)
        | inr e ↦ inl (rw e refl)
      ]

  commit-IsRetargeted :
      (picker : HostPickerModal) (row : Option HostPickerRow) (tile : HostPickerTargetTile)
      (p : Picking Parser)
      → get_elem? (host_picker_rows picker.required_capability p) picker.selected ≡ row
      → IsRetargeted picker tile p (commit_row picker row p).0
  unfolding commit_row host_picker_rows
  commit-IsRetargeted picker none docker_tile p e = inl refl
  commit-IsRetargeted picker none ports_tile p e = inl refl
  commit-IsRetargeted picker none processes_tile p e = inl refl
  commit-IsRetargeted picker (some local_row) tile p e =
      elim (retarget-target picker.target_tile tile local (record p { host_picker = none })) [
        | inl same ↦ inl (same ∙ modal_target tile p none)
        | inr (own, to) ↦ inr (own, inl to)
      ]
  commit-IsRetargeted picker (some (remote_row alias state has_capability true)) tile p e =
      elim (retarget-target picker.target_tile tile (remote alias)
        (record p { host_picker = none })) [
          | inl same ↦ inl (same ∙ modal_target tile p none)
          | inr (own, to) ↦
              let capability = picker.required_capability in
              let rows = listed_rows-true capability p.host_capabilities p.fleet.state in
              let serving =
                get_elem?-All (RowIsTrue (λ a. serves capability a p))
                  (host_picker_rows capability p) picker.selected
                  (remote_row alias state has_capability true) (tt, rows) e in
              inr (own, inr (alias, to, serving))
        ]
  commit-IsRetargeted picker (some (remote_row alias state has_capability false)) tile p e =
      inl refl

  select_on-target :
      (picker : HostPickerModal) (o : Option ℕ) (tile : HostPickerTargetTile) (p : Picking Parser)
      → target_of tile (select_on picker o p).0 ≡ target_of tile p
  unfolding select_on select
  select_on-target picker none tile p = refl
  select_on-target picker (some n) tile p = elim (Bool-cases (n == picker.selected)) [
    | inl e ↦ rw e refl
    | inr e ↦ rw e (modal_target tile p _)
  ]

  picker_key-IsRetargeted :
      (key : ScopeKey) (picker : HostPickerModal) (tile : HostPickerTargetTile) (p : Picking Parser)
      → IsRetargeted picker tile p (key_on key (some picker) p).0
  unfolding key_on picker_key
  picker_key-IsRetargeted enter picker tile p =
      commit-IsRetargeted picker
        (get_elem? (host_picker_rows picker.required_capability p) picker.selected) tile p refl
  picker_key-IsRetargeted escape picker tile p = inl (modal_target tile p none)
  picker_key-IsRetargeted (char b) picker tile p = inl (select_on-target picker _ tile p)
  picker_key-IsRetargeted up picker tile p = inl (select_on-target picker _ tile p)
  picker_key-IsRetargeted down picker tile p = inl (select_on-target picker _ tile p)
  picker_key-IsRetargeted top picker tile p = inl (select_on-target picker _ tile p)
  picker_key-IsRetargeted bottom picker tile p = inl (select_on-target picker _ tile p)
  picker_key-IsRetargeted home picker tile p = inl (select_on-target picker _ tile p)
  picker_key-IsRetargeted end picker tile p = inl (select_on-target picker _ tile p)
  picker_key-IsRetargeted pg_up picker tile p = inl (select_on-target picker _ tile p)
  picker_key-IsRetargeted pg_dn picker tile p = inl (select_on-target picker _ tile p)
  picker_key-IsRetargeted filter_start picker tile p = inl (select_on-target picker _ tile p)
  picker_key-IsRetargeted backspace picker tile p = inl (select_on-target picker _ tile p)

  -- While the picker is open, a key changes no target but that of the tile it was opened for, and turns
  -- this one only to the local machine or to a host that is Connected and whose agent advertises what
  -- the tile needs.
  pub handle_host_picker_key-IsRetargeted :
      (key : ScopeKey) (picker : HostPickerModal) (tile : HostPickerTargetTile) (p : Picking Parser)
      → p.host_picker ≡ some picker
      → IsRetargeted picker tile p (handle_host_picker_key key p).0
  unfolding handle_host_picker_key
  handle_host_picker_key-IsRetargeted key picker tile p e =
      subst (λ o. IsRetargeted picker tile p (key_on key o p).0) (sym e)
        (picker_key-IsRetargeted key picker tile p)
