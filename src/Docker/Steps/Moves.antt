-- ===== src/Docker/Steps/Moves.antt =====
-- Keys that move, filter and scroll in the Docker tile: `handle_scope_key` and `handle_logs_key` of
-- crates/tepegoz-tui/src/app.rs.
use tepegoz.Prelude.{
  ℕ, ◌+◌, ◌-◌, ◌≤◌, ◌≡◌, refl, sym, result_of, Bool, true, false, ◌&&◌, none, some, List, [], ◌∷◌,
  ◌++◌, arith, ltb, leb, ◌==◌, Bool-cases, Option-cases, inl, inr, is_empty,
}
use tepegoz.Keys.{
  ScopeKey, up, down, top, bottom, home, end, pg_up, pg_dn, filter_start, escape, enter, backspace,
  char,
}
use tepegoz.Scopes.{pop_char, is_printable}
use tepegoz.Logs.{LogsView, scroll_up, scroll_down, jump_to_tail}
use tepegoz.Docker.{logs, DockerScope, Panel, visible_containers, visible_count, clamp_selection}
use tepegoz.Docker.Keys.{
  drawn, leaves_logs, logs_key, handle_logs_key, move_down, move_key, filter_key,
}
use tepegoz.Docker.Steps.{InRange, KeyStep, dropped, in_list, scrolled, left}

module _ (to_lowercase : List ℕ → List ℕ) where
  -- The rows do not depend on the selection.
  select-count :
      (d : DockerScope) (n : ℕ)
      → visible_count to_lowercase (record d { selection = n }) ≡ visible_count to_lowercase d
  unfolding visible_count visible_containers
  select-count d n = refl

  pub clamp_selection-InRange :
      (d : DockerScope) → InRange to_lowercase (clamp_selection to_lowercase d)
  unfolding clamp_selection
  clamp_selection-InRange d = elim (Bool-cases (visible_count to_lowercase d == 0)) [
    | inl e ↦ rw e (omega arith)
    | inr e ↦ elim (Bool-cases (leb (visible_count to_lowercase d) d.selection)) [
      | inl f ↦ rw (e, f) (omega (arith, select-count d (visible_count to_lowercase d - 1)))
      | inr f ↦ rw (e, f) (ground arith)
    ]
  ]

  pub clamp_selection-view : (d : DockerScope) → (clamp_selection to_lowercase d).view ≡ d.view
  unfolding clamp_selection
  clamp_selection-view d = ground arith

  pub clamp_selection-sub_id :
      (d : DockerScope) → (clamp_selection to_lowercase d).sub_id ≡ d.sub_id
  unfolding clamp_selection
  clamp_selection-sub_id d = ground arith

  pub clamp_selection-target :
      (d : DockerScope) → (clamp_selection to_lowercase d).target ≡ d.target
  unfolding clamp_selection
  clamp_selection-target d = ground arith

  move_down-view : (d : DockerScope) → (move_down to_lowercase d).view ≡ d.view
  unfolding move_down
  move_down-view d = ground arith

  move_down-sub_id : (d : DockerScope) → (move_down to_lowercase d).sub_id ≡ d.sub_id
  unfolding move_down
  move_down-sub_id d = ground arith

  move_down-target : (d : DockerScope) → (move_down to_lowercase d).target ≡ d.target
  unfolding move_down
  move_down-target d = ground arith

  -- The rows do not depend on whether a filter is typed.
  active-count :
      (d : DockerScope) (active : Bool)
      → visible_count to_lowercase (record d { filter_active = active })
        ≡ visible_count to_lowercase d
  unfolding visible_count visible_containers
  active-count d active = refl

  move_down-InRange :
      (d : DockerScope) → InRange to_lowercase d → InRange to_lowercase (move_down to_lowercase d)
  unfolding move_down
  move_down-InRange d h =
      let n = visible_count to_lowercase d in
      elim (Bool-cases (ltb 0 n && ltb (d.selection + 1) n)) [
        | inl e ↦
            let small : d.selection + 1 ≤ n - 1 = ground arith in
            rw e (omega (arith, small, select-count d (d.selection + 1)))
        | inr e ↦ rw e h
      ]

logs_key-sub_id :
    (l : LogsView) (key : ScopeKey) (l' : LogsView)
    → logs_key l key ≡ some l'
    → l'.sub_id ≡ l.sub_id
unfolding logs_key scroll_up scroll_down jump_to_tail
logs_key-sub_id l up l' e = sym (result_of (λ v. l.sub_id ≡ v.sub_id) e refl)
logs_key-sub_id l down l' e = sym (result_of (λ v. l.sub_id ≡ v.sub_id) e refl)
logs_key-sub_id l pg_up l' e = sym (result_of (λ v. l.sub_id ≡ v.sub_id) e refl)
logs_key-sub_id l pg_dn l' e = sym (result_of (λ v. l.sub_id ≡ v.sub_id) e refl)
logs_key-sub_id l bottom l' e = sym (result_of (λ v. l.sub_id ≡ v.sub_id) e refl)
logs_key-sub_id l end l' e = sym (result_of (λ v. l.sub_id ≡ v.sub_id) e refl)
logs_key-sub_id l top l' e = cc
logs_key-sub_id l home l' e = cc
logs_key-sub_id l filter_start l' e = cc
logs_key-sub_id l escape l' e = cc
logs_key-sub_id l enter l' e = cc
logs_key-sub_id l backspace l' e = cc
logs_key-sub_id l (char b) l' e = elim (Bool-cases (b == b'k')) [
  | inl k ↦ sym (result_of (λ v. l.sub_id ≡ v.sub_id) (rw k at e) refl)
  | inr k ↦ elim (Bool-cases (b == b'j')) [
    | inl j ↦ sym (result_of (λ v. l.sub_id ≡ v.sub_id) (rw (k, j) at e) refl)
    | inr j ↦ elim (Bool-cases (b == b'G')) [
      | inl g ↦ sym (result_of (λ v. l.sub_id ≡ v.sub_id) (rw (k, j, g) at e) refl)
      | inr g ↦ let no : none ≡ some l' = rw (k, j, g) at e in cc
    ]
  ]
]

module _ {Parser : Type 0} (to_lowercase : List ℕ → List ℕ) (now : ℕ) where
  clamped :
      (key : ScopeKey) (p : Panel Parser) (filter : List ℕ) (active : Bool)
      → KeyStep to_lowercase now key p (
          drawn p (
            clamp_selection to_lowercase
              (record p.docker { filter = filter; filter_active = active })))
  clamped key p filter active =
      let d = record p.docker { filter = filter; filter_active = active } in
      in_list (clamp_selection to_lowercase d) (clamp_selection-view to_lowercase d)
        (clamp_selection-sub_id to_lowercase d) (clamp_selection-target to_lowercase d)
        (clamp_selection-InRange to_lowercase d)

  pub filter_key-KeyStep :
      (key : ScopeKey) (p : Panel Parser)
      → InRange to_lowercase p.docker
      → KeyStep to_lowercase now key p (filter_key to_lowercase key p)
  unfolding filter_key
  filter_key-KeyStep escape p h = clamped escape p [] false
  filter_key-KeyStep enter p h =
      in_list (record p.docker { filter_active = false }) refl refl refl
        (omega (arith, h, active-count to_lowercase p.docker false))
  filter_key-KeyStep backspace p h = elim (Bool-cases (is_empty p.docker.filter)) [
    | inl e ↦ rw e dropped
    | inr e ↦ rw e (clamped backspace p (pop_char p.docker.filter) p.docker.filter_active)
  ]
  filter_key-KeyStep (char b) p h = elim (Bool-cases (is_printable b)) [
    | inl e ↦ rw e (clamped (char b) p (p.docker.filter ++ b ∷ []) p.docker.filter_active)
    | inr e ↦ rw e dropped
  ]
  filter_key-KeyStep up p h = dropped
  filter_key-KeyStep down p h = dropped
  filter_key-KeyStep top p h = dropped
  filter_key-KeyStep bottom p h = dropped
  filter_key-KeyStep home p h = dropped
  filter_key-KeyStep end p h = dropped
  filter_key-KeyStep pg_up p h = dropped
  filter_key-KeyStep pg_dn p h = dropped
  filter_key-KeyStep filter_start p h = dropped

  moved :
      (key : ScopeKey) (p : Panel Parser) (n : ℕ)
      → n ≤ visible_count to_lowercase p.docker - 1
      → KeyStep to_lowercase now key p (drawn p (record p.docker { selection = n }))
  moved key p n h =
      in_list (record p.docker { selection = n }) refl refl refl
        (omega (arith, h, select-count to_lowercase p.docker n))

  pub move_key-KeyStep :
      (given key : ScopeKey) (p : Panel Parser)
      → InRange to_lowercase p.docker
      → KeyStep to_lowercase now given p (move_key to_lowercase key p)
  unfolding move_key
  move_key-KeyStep given up p h = moved given p (p.docker.selection - 1) (omega (arith, h))
  move_key-KeyStep given down p h =
      let d = p.docker in
      in_list (move_down to_lowercase d) (move_down-view to_lowercase d)
        (move_down-sub_id to_lowercase d) (move_down-target to_lowercase d)
        (move_down-InRange to_lowercase d h)
  move_key-KeyStep given top p h = moved given p 0 (omega arith)
  move_key-KeyStep given home p h = moved given p 0 (omega arith)
  move_key-KeyStep given bottom p h =
      moved given p (visible_count to_lowercase p.docker - 1) (omega arith)
  move_key-KeyStep given end p h =
      moved given p (visible_count to_lowercase p.docker - 1) (omega arith)
  move_key-KeyStep given filter_start p h =
      in_list (record p.docker { filter_active = true }) refl refl refl
        (omega (arith, h, active-count to_lowercase p.docker true))
  move_key-KeyStep given pg_up p h = dropped
  move_key-KeyStep given pg_dn p h = dropped
  move_key-KeyStep given escape p h = dropped
  move_key-KeyStep given enter p h = dropped
  move_key-KeyStep given backspace p h = dropped
  move_key-KeyStep given (char b) p h = dropped

  pub logs_key-KeyStep :
      (l : LogsView) (key : ScopeKey) (p : Panel Parser)
      → p.docker.view ≡ logs l
      → KeyStep to_lowercase now key p (handle_logs_key l key p)
  unfolding handle_logs_key
  logs_key-KeyStep l key p v = elim (Bool-cases (leaves_logs key)) [
    | inl e ↦ rw e (left l v)
    | inr e ↦ elim (Option-cases (logs_key l key)) [
      | inl f ↦ rw (e, f) dropped
      | inr (l', f) ↦ rw (e, f) (scrolled l l' v (logs_key-sub_id l key l' f))
    ]
  ]
