-- ===== src/App/Routes.antt =====
-- Which pane the events, the keys and a tab's exit go to: app.rs in crates/tepegoz-tui/src.
use tepegoz.Prelude.{
  ℕ, zero, suc, ◌+◌, ◌-◌, ◌≤◌, ◌<◌, ◌≡◌, ◌≢◌, ◌↔◌, refl, ap, ◌∙◌, Bool, true, false, Option, none,
  some, List, [], ◌∷◌, arith, ltb, ◌==◌, Option-cases, inl, inr, ◌>>=◌, if◌then◌else◌, get_elem?,
  position_from, length, is_empty,
}
use tepegoz.Tile.{routes_to_pty, TileId, TileLayout}
use tepegoz.App.{App, AppAction, PaneEntry, PendingOpen, find_pane_by_sub, active_pane_id}
use tepegoz.App.Toasts.{push_toast_at}
use tepegoz.App.Focus.{handle_tab, send_to_pane}
use tepegoz.App.Panes.{
  close_active_pane, close_pane_entry, after_removal, reopen_root, remove_at, active_after,
  exit_pane, handle_error, fail_open,
}
use tepegoz.App.Reach.{Increasing, subs_of, AppIsValid}
use tepegoz.App.Keeps.{length-remove_at, ActiveFits-le}

is_empty_long : {A : Type 0} (xs : List A) → 0 < length xs → is_empty xs ≡ false
is_empty_long [] h = absurd (omega (arith, h))
is_empty_long (x ∷ xs) h = refl

active_after_other :
    (idx active left : ℕ)
    → idx ≢ active
    → idx < left + 1
    → active < left + 1
    → active_after idx active left ≡ (if ltb idx active then active - 1 else active)
unfolding active_after
active_after_other idx active left differ hi ha = ground arith

get_elem?-none :
    {A : Type 0} (xs : List A) (i : ℕ)
    → i ≤ length xs - 1
    → (get_elem? xs i ≡ none) ↔ (is_empty xs ≡ true)
get_elem?-none [] i h = ground arith
get_elem?-none (x ∷ xs) zero h = (λ e. cc, λ e. cc)
get_elem?-none (x ∷ xs) (suc i) h = (
  λ e.
      let gone = (get_elem?-none xs i (omega (arith, h))).0 e in
      let long = is_empty_long xs (omega (arith, h)) in cc,
  λ e. cc,
)

abbrev Shown : Type 0 → Type 0
Shown Parser = TileLayout × TileId × List (PaneEntry Parser)

module _ {Parser : Type 0} where
  Increasing-below :
      (lo hi : ℕ) (panes : List (PaneEntry Parser)) (opens : List PendingOpen) (i : ℕ)
      (p : PaneEntry Parser)
      → Increasing lo (subs_of panes opens) hi
      → get_elem? panes i ≡ some p
      → lo ≤ p.sub_id
  Increasing-below lo hi [] opens i p inc at = cc
  Increasing-below lo hi (q ∷ panes) opens zero p inc at =
      let same : q.sub_id ≡ p.sub_id = cc in omega (arith, same, inc.0)
  Increasing-below lo hi (q ∷ panes) opens (suc i) p inc at =
      omega (arith, inc.0, Increasing-below (suc q.sub_id) hi panes opens i p inc.1 at)

  position-sub :
      (n lo hi : ℕ) (panes : List (PaneEntry Parser)) (opens : List PendingOpen) (i : ℕ)
      (p : PaneEntry Parser)
      → Increasing lo (subs_of panes opens) hi
      → get_elem? panes i ≡ some p
      → position_from n (λ (q : PaneEntry Parser). q.sub_id == p.sub_id) panes ≡ some (n + i)
  position-sub n lo hi [] opens i p inc at = cc
  position-sub n lo hi (q ∷ panes) opens zero p inc at =
      let same : (q.sub_id == p.sub_id) ≡ true =
        ground (arith, (ap (λ o. o >>= (λ (r : PaneEntry Parser). some r.sub_id)) at)) in
      rw same (ap some (omega arith))
  position-sub n lo hi (q ∷ panes) opens (suc i) p inc at =
      let above = Increasing-below (suc q.sub_id) hi panes opens i p inc.1 at in
      let differ : (q.sub_id == p.sub_id) ≡ false = ground (arith, above) in
      rw differ
        (position-sub (suc n) (suc q.sub_id) hi panes opens i p inc.1 at ∙ ap some (omega arith))

  -- In a well-formed state an event is delivered to the very pane whose subscription it carries.
  pub find_pane_by_sub-own :
      (app : App Parser) (i : ℕ) (p : PaneEntry Parser)
      → AppIsValid app
      → get_elem? app.pane_stack i ≡ some p
      → find_pane_by_sub app p.sub_id ≡ some i
  unfolding find_pane_by_sub
  find_pane_by_sub-own app i p h at =
      position-sub 0 1 app.next_sub_id app.pane_stack app.pending_opens i p h.subs_grow at
      ∙ ap some (omega arith)

  get_elem?-remove_at :
      (idx active : ℕ) (xs : List (PaneEntry Parser))
      → idx ≢ active
      → get_elem? (remove_at idx xs) (if ltb idx active then active - 1 else active)
        ≡ get_elem? xs active
  unfolding remove_at
  get_elem?-remove_at idx active [] differ = refl
  get_elem?-remove_at zero zero (x ∷ xs) differ = absurd (differ refl)
  get_elem?-remove_at zero (suc active) (x ∷ xs) differ = ap (get_elem? xs) (ground arith)
  get_elem?-remove_at (suc idx) zero (x ∷ xs) differ =
      let at_0 : (if ltb (suc idx) 0 then 0 - 1 else 0) ≡ 0 = ground arith in
      ap (get_elem? (x ∷ remove_at idx xs)) at_0
  get_elem?-remove_at (suc idx) (suc active) (x ∷ xs) differ =
      let differ' : idx ≢ active = λ e. differ (ap suc e) in
      let shift : (if ltb (suc idx) (suc active) then suc active - 1 else suc active)
          ≡ suc (if ltb idx active then active - 1 else active) =
        ground arith in
      ap (get_elem? (x ∷ remove_at idx xs)) shift ∙ get_elem?-remove_at idx active xs differ'

  -- A pane that is not the active one exits, and both are in the stack: the active pane stays the
  -- same one.
  pub exit_pane-active :
      (app : App Parser) (now idx : ℕ) (exit_code : Option ℕ) (p : PaneEntry Parser)
      → idx ≢ app.active_pane
      → idx < length app.pane_stack
      → app.active_pane < length app.pane_stack
      → let app' = (exit_pane app now idx exit_code p).0 in
        get_elem? app'.pane_stack app'.active_pane ≡ get_elem? app.pane_stack app.active_pane
  unfolding exit_pane push_toast_at
  exit_pane-active app now idx exit_code p differ small active_small =
      let stack = remove_at idx app.pane_stack in
      let fewer = length-remove_at idx app.pane_stack small in
      let some_left : is_empty stack ≡ false =
        is_empty_long stack (omega (arith, fewer, differ, small, active_small)) in
      let active =
        active_after_other idx app.active_pane (length stack) differ (omega (arith, fewer, small))
          (omega (arith, fewer, active_small)) in
      rw (some_left, exit_pane)
        (ap (get_elem? stack) active
          ∙ get_elem?-remove_at idx app.active_pane app.pane_stack differ)

  active_le : (app : App Parser) → AppIsValid app → app.active_pane ≤ length app.pane_stack - 1
  active_le app h = ActiveFits-le app.active_pane (length app.pane_stack) h.active_in

  -- In a well-formed state, keys for the terminal panic exactly where the pane stack is empty.
  pub send_to_pane-none :
      (app : App Parser) (bytes : List ℕ)
      → AppIsValid app
      → (send_to_pane app bytes ≡ none) ↔ (is_empty app.pane_stack ≡ true)
  unfolding send_to_pane active_pane_id
  send_to_pane-none app bytes h = elim (Option-cases (get_elem? app.pane_stack app.active_pane)) [
    | inl e ↦
        (λ n. (get_elem?-none app.pane_stack app.active_pane (active_le app h)).0 e, λ n. rw e refl)
    | inr (p, e) ↦ (
      λ n. let sent = rw e at n in cc,
      λ n. let gone = (get_elem?-none app.pane_stack app.active_pane (active_le app h)).1 n in cc,
    )
  ]

  abbrev shown : App Parser → Shown Parser
  shown app = (app.layout, app.focused, app.pane_stack)

  fail_open-shown :
      (app : App Parser) (now : ℕ) (message : List ℕ) (opens : List PendingOpen)
      → shown (fail_open app now message opens).0 ≡ shown app
  unfolding fail_open push_toast_at
  fail_open-shown app now message [] = refl
  fail_open-shown app now message (pending ∷ rest) = refl

  -- An error of the daemon changes neither the layout nor the focus nor the pane stack.
  handle_error-shown :
      (app : App Parser) (now : ℕ) (about_open : Bool) (message : List ℕ)
      → shown (handle_error app now about_open message).0 ≡ shown app
  unfolding handle_error push_toast_at
  handle_error-shown app now false message = refl
  handle_error-shown app now true message = fail_open-shown app now message app.pending_opens

  handle_tab-no_pane :
      (app : App Parser) (forward : Bool)
      → routes_to_pty app.layout app.focused ≡ true
      → app.pane_stack ≡ []
      → handle_tab app forward ≡ none
  unfolding handle_tab send_to_pane active_pane_id
  handle_tab-no_pane app forward pty empty = rw (pty, empty) refl

  -- Where the terminal tile is focused, the close of the only pane leads to a state with no pane in
  -- which a Tab panics, and a Tab panics as well after the daemon has answered with an error,
  -- whether that is about the pane that was asked for or not.
  pub close_last-handle_tab :
      (app : App Parser) (p : PaneEntry Parser) (cwd : Option (List ℕ)) (forward : Bool) (now : ℕ)
      (about_open : Bool) (message : List ℕ)
      → routes_to_pty app.layout app.focused ≡ true
      → (r : App Parser × List AppAction) × (close_active_pane
            (record app { pane_stack = p ∷ []; active_pane = 0 })
            cwd
          ≡ some r)
        × (r.0.pane_stack ≡ [])
        × (handle_tab r.0 forward ≡ none)
        × (handle_tab (handle_error r.0 now about_open message).0 forward ≡ none)
  unfolding close_active_pane close_pane_entry after_removal reopen_root remove_at
  close_last-handle_tab app p cwd forward now about_open message pty =
      let r = close_pane_entry (record app { pane_stack = p ∷ []; active_pane = 0 }) cwd p in
      let err = handle_error-shown r.0 now about_open message in
      (
        r,
        refl,
        refl,
        handle_tab-no_pane r.0 forward pty refl,
        handle_tab-no_pane (handle_error r.0 now about_open message).0 forward
            (ap (λ (a : Shown Parser). routes_to_pty a.0 a.1) err ∙ pty)
            (ap (λ (a : Shown Parser). a.2) err),
      )
