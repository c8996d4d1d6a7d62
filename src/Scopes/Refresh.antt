-- ===== src/Scopes/Refresh.antt =====
-- The selected row across a refresh and a change of the filter: `reanchor_selection` and its callers
-- in crates/tepegoz-tui/src/app.rs.
use tepegoz.Prelude.{
  ℕ, ◌≤◌, ◌<◌, ◌≡◌, refl, false, Option, none, some, List, [], ◌∷◌, ◌++◌, arith, Bool-cases, inl,
  inr, is_empty, filter_by, get_elem?, >>=-eq-some,
}
use tepegoz.Keys.{
  ScopeKey, up, down, top, bottom, home, end, pg_up, pg_dn, filter_start, escape, enter, backspace,
  char,
}
use tepegoz.Scopes.{
  RowOps, ViewState, connecting, available, unavailable, ListView, row_list, visible_in, visible,
  anchor, reanchor_in, reanchor_selection, refilter, filter_key, handle_list_event, selected_row,
  selected_key, pop_char, is_printable,
}
use tepegoz.Scopes.Anchor.{anchor-HasKey, HasKey, anchor-none}

module _ {Row Key : Type 0} (ops : RowOps Row Key) where
  selected_key-HasKey :
      (v : ListView Row) (key : Key)
      → selected_key ops v ≡ some key
      → HasKey ops key (visible ops v) v.selection
  unfolding selected_key selected_row
  selected_key-HasKey v key h =
      let (r, here, same) =
        >>=-eq-some (get_elem? (visible ops v) v.selection) (λ r. some (ops.key_of r)) h in
      (r, here, cc)

  HasKey-selected_key :
      (v : ListView Row) (key : Key)
      → HasKey ops key (visible ops v) v.selection
      → selected_key ops v ≡ some key
  unfolding selected_key selected_row
  HasKey-selected_key v key (r, here, same) = rw (here, same) refl

  -- A refresh that still has a shown row with the selected row's key leaves the selection on the
  -- first such row.
  pub refresh-selected_key :
      (v : ListView Row) (rows : List Row) (source : List ℕ) (key : Key) (j : ℕ)
      → selected_key ops v ≡ some key
      → HasKey ops key (visible_in ops v.filter (available rows source)) j
      → let w = (handle_list_event ops v (row_list rows source)).0 in
        (selected_key ops w ≡ some key) × (w.selection ≤ j)
  unfolding handle_list_event reanchor_selection reanchor_in
  refresh-selected_key v rows source key j h at =
      let shown = filter_by (ops.matches v.filter) rows in
      let i = anchor ops (some key) shown v.selection in
      let (before, here) = anchor-HasKey ops key shown v.selection j at in
      let w : ListView Row = record v { state = available rows source; selection = i } in
      rw h (HasKey-selected_key w key here, before)

  -- Where the refreshed list shows a row with the selected row's key above the selected index, the
  -- refresh moves the selection up.
  pub refresh_moves_up :
      (v : ListView Row) (rows : List Row) (source : List ℕ) (key : Key) (j : ℕ)
      → selected_key ops v ≡ some key
      → HasKey ops key (visible_in ops v.filter (available rows source)) j
      → j < v.selection
      → (handle_list_event ops v (row_list rows source)).0.selection < v.selection
  refresh_moves_up v rows source key j h at above =
      omega (arith, (refresh-selected_key v rows source key j h at).1, above)

  reanchor_in_le :
      (old_key : Option Key) (state : ViewState Row) (filter : List ℕ) (selection : ℕ)
      → ((key : Key) → old_key ≡ some key → HasKey ops key (visible_in ops filter state) selection)
      → reanchor_in ops old_key state filter selection ≤ selection
  unfolding reanchor_in
  reanchor_in_le old_key connecting filter selection h = omega arith
  reanchor_in_le none (available rows source) filter selection h =
      anchor-none ops (filter_by (ops.matches filter) rows) selection
  reanchor_in_le (some key) (available rows source) filter selection h =
      (anchor-HasKey ops key (filter_by (ops.matches filter) rows) selection selection
        (h key refl)).0
  reanchor_in_le old_key (unavailable reason) filter selection h = omega arith

  refilter_le : (v : ListView Row) → (refilter ops v).selection ≤ v.selection
  unfolding refilter reanchor_selection
  refilter_le v =
      reanchor_in_le (selected_key ops v) v.state v.filter v.selection
        (λ key h. selected_key-HasKey v key h)

  -- No key that edits, clears or ends the filter moves the selection down, also where the row that
  -- was selected now stands further down.
  pub filter_key-selection_le :
      (v : ListView Row) (key : ScopeKey) → (filter_key ops v key).0.selection ≤ v.selection
  unfolding filter_key
  filter_key-selection_le v escape = refilter_le (record v { filter = []; filter_active = false })
  filter_key-selection_le v enter = omega arith
  filter_key-selection_le v backspace = elim (Bool-cases (is_empty v.filter)) [
    | inl e ↦ rw e (omega arith)
    | inr e ↦ rw e (refilter_le (record v { filter = pop_char v.filter }))
  ]
  filter_key-selection_le v (char b) = elim (Bool-cases (is_printable b)) [
    | inl e ↦ rw e (refilter_le (record v { filter = v.filter ++ b ∷ [] }))
    | inr e ↦ rw e (omega arith)
  ]
  filter_key-selection_le v up = omega arith
  filter_key-selection_le v down = omega arith
  filter_key-selection_le v top = omega arith
  filter_key-selection_le v bottom = omega arith
  filter_key-selection_le v home = omega arith
  filter_key-selection_le v end = omega arith
  filter_key-selection_le v pg_up = omega arith
  filter_key-selection_le v pg_dn = omega arith
  filter_key-selection_le v filter_start = omega arith
