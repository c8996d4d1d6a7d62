-- ===== src/Scopes/InRange.antt =====
-- The selection stays on a row: the keys and events of a list of the Ports tile in
-- crates/tepegoz-tui/src/app.rs.
use tepegoz.Prelude.{
  ℕ, ◌+◌, ◌-◌, ◌≤◌, Bool, true, false, Option, List, [], ◌∷◌, ◌++◌, arith, ltb, ◌&&◌, if◌then◌else◌,
  Bool-cases, Option-cases, inl, inr, length, is_empty, filter_by,
}
use tepegoz.Keys.{
  ScopeKey, up, down, top, bottom, home, end, pg_up, pg_dn, filter_start, escape, enter, backspace,
  char,
}
use tepegoz.Scopes.{
  RowOps, ViewState, connecting, available, unavailable, ListView, ListEvent, row_list,
  list_unavailable, other_event, visible, visible_count, reanchor_in, reanchor_selection, refilter,
  filter_key, move_up, move_down, move_bottom, move_key, letter_key, plain_key, list_key,
  handle_list_event, selected_key, pop_char, is_printable,
}
use tepegoz.Scopes.Anchor.{anchor-small}

module _ {Row Key : Type 0} (ops : RowOps Row Key) where
  -- The selection is a row that is shown, or 0 where none is.
  abbrev pub InRange : ListView Row → Type 0
  InRange v = v.selection ≤ visible_count ops v - 1

  reanchor_in-small :
      (old_key : Option Key) (state : ViewState Row) (filter : List ℕ) (selection : ℕ)
      → reanchor_in ops old_key state filter selection
        ≤ length (
            visible ops (record {
              state = state;
              selection = selection;
              filter = filter;
              filter_active = false;
            }))
          - 1
  unfolding reanchor_in
  reanchor_in-small old_key connecting filter selection = omega arith
  reanchor_in-small old_key (available rows source) filter selection =
      anchor-small ops old_key (filter_by (ops.matches filter) rows) selection
  reanchor_in-small old_key (unavailable reason) filter selection = omega arith

  pub reanchor_selection-InRange :
      (v : ListView Row) (old_key : Option Key) → InRange (reanchor_selection ops v old_key)
  unfolding reanchor_selection visible_count
  reanchor_selection-InRange v old_key = reanchor_in-small old_key v.state v.filter v.selection

  refilter-InRange : (v : ListView Row) → InRange (refilter ops v)
  unfolding refilter
  refilter-InRange v = reanchor_selection-InRange v (selected_key ops v)

  filter_key-InRange :
      (v : ListView Row) (key : ScopeKey) → InRange v → InRange (filter_key ops v key).0
  unfolding filter_key visible_count
  filter_key-InRange v escape h = refilter-InRange (record v { filter = []; filter_active = false })
  filter_key-InRange v enter h = h
  filter_key-InRange v backspace h = elim (Bool-cases (is_empty v.filter)) [
    | inl e ↦ rw e h
    | inr e ↦ rw e (refilter-InRange (record v { filter = pop_char v.filter }))
  ]
  filter_key-InRange v (char b) h = elim (Bool-cases (is_printable b)) [
    | inl e ↦ rw e (refilter-InRange (record v { filter = v.filter ++ b ∷ [] }))
    | inr e ↦ rw e h
  ]
  filter_key-InRange v up h = h
  filter_key-InRange v down h = h
  filter_key-InRange v top h = h
  filter_key-InRange v bottom h = h
  filter_key-InRange v home h = h
  filter_key-InRange v end h = h
  filter_key-InRange v pg_up h = h
  filter_key-InRange v pg_dn h = h
  filter_key-InRange v filter_start h = h

  move_down-InRange : (v : ListView Row) → InRange v → InRange (move_down ops v)
  unfolding move_down visible_count
  move_down-InRange v h =
      elim (Bool-cases
        (ltb 0 (visible_count ops v) && ltb (v.selection + 1) (visible_count ops v))) [
          | inl e ↦ rw e (ground arith)
          | inr e ↦ rw e h
        ]

  move_key-InRange :
      (v : ListView Row) (key : ScopeKey) → InRange v → InRange (move_key ops v key).0
  unfolding move_key move_up move_bottom visible_count
  move_key-InRange v up h = omega (arith, h)
  move_key-InRange v down h = move_down-InRange v h
  move_key-InRange v top h = omega arith
  move_key-InRange v home h = omega arith
  move_key-InRange v bottom h = omega arith
  move_key-InRange v end h = omega arith
  move_key-InRange v filter_start h = h
  move_key-InRange v pg_up h = h
  move_key-InRange v pg_dn h = h
  move_key-InRange v escape h = h
  move_key-InRange v enter h = h
  move_key-InRange v backspace h = h
  move_key-InRange v (char b) h = h

  plain_key-InRange :
      (v : ListView Row) (key : ScopeKey) → InRange v → InRange (plain_key ops v key).0
  unfolding plain_key
  plain_key-InRange v (char b) h = elim (Option-cases (letter_key b)) [
    | inl e ↦ rw (e, plain_key) h
    | inr (key, e) ↦ rw (e, plain_key) (move_key-InRange v key h)
  ]
  plain_key-InRange v up h = move_key-InRange v up h
  plain_key-InRange v down h = move_key-InRange v down h
  plain_key-InRange v top h = move_key-InRange v top h
  plain_key-InRange v home h = move_key-InRange v home h
  plain_key-InRange v bottom h = move_key-InRange v bottom h
  plain_key-InRange v end h = move_key-InRange v end h
  plain_key-InRange v filter_start h = move_key-InRange v filter_start h
  plain_key-InRange v pg_up h = move_key-InRange v pg_up h
  plain_key-InRange v pg_dn h = move_key-InRange v pg_dn h
  plain_key-InRange v escape h = move_key-InRange v escape h
  plain_key-InRange v enter h = move_key-InRange v enter h
  plain_key-InRange v backspace h = move_key-InRange v backspace h

  branch-InRange :
      (b : Bool) (x y : ListView Row × Bool)
      → InRange x.0
      → InRange y.0
      → InRange (if b then x else y).0
  branch-InRange true x y hx hy = hx
  branch-InRange false x y hx hy = hy

  -- A key, whichever it is and whether or not the filter is typed, leaves the selection on a shown row.
  pub list_key-InRange :
      (v : ListView Row) (key : ScopeKey) → InRange v → InRange (list_key ops v key).0
  unfolding list_key
  list_key-InRange v key h =
      branch-InRange v.filter_active (filter_key ops v key) (plain_key ops v key)
        (filter_key-InRange v key h) (plain_key-InRange v key h)

  pub handle_list_event-InRange :
      (v : ListView Row) (event : ListEvent Row)
      → InRange v
      → InRange (handle_list_event ops v event).0
  unfolding handle_list_event visible_count
  handle_list_event-InRange v (row_list rows source) h =
      reanchor_selection-InRange (record v { state = available rows source }) (selected_key ops v)
  handle_list_event-InRange v (list_unavailable reason) h = omega arith
  handle_list_event-InRange v other_event h = h
