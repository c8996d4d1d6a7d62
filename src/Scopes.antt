-- ===== src/Scopes.antt =====
-- The lists of the Ports tile: `PortsView`, `ProcessesView` and `PortsScope` of
-- crates/tepegoz-tui/src/app.rs with the keys and the daemon events that reach them, over the rows
-- of crates/tepegoz-proto/src/lib.rs. The two views have the same code for two types of rows; here
-- it is written once, for the rows of an interface. `str::to_lowercase` is a parameter. A handler
-- gives the new view and whether it asked for a frame (`AppAction::DrawFrame`).
pub mod Anchor
pub mod InRange
pub mod Refresh
pub mod Rows
pub mod Toggle
mod Tests
use tepegoz.Prelude.{
  ℕ, zero, suc, ◌+◌, ◌-◌, ◌≡◌, ◌↔◌, Bool, true, false, not, ◌&&◌, Option, none, some, List, [], ◌∷◌,
  ◌++◌, ltb, leb, ◌==◌, if◌then◌else◌, length, is_empty, get_elem?, filter_by, position, ◌>>=◌,
}
use tepegoz.Keys.{
  ScopeKey, up, down, top, bottom, home, end, pg_up, pg_dn, filter_start, escape, enter, backspace,
  char,
}

-- What a list needs of its rows: the filter's test and the key that identifies a row.
pub record RowOps (Row Key : Type 0) : Type 0 where
  pub matches : List ℕ → Row → Bool
  pub key_of : Row → Key
  pub same_key : Key → Key → Bool
  pub same_key_iff : (k l : Key) → (same_key k l ≡ true) ↔ (k ≡ l)

pub data ViewState (Row : Type 0) : Type 0 where
  connecting : ViewState Row
  available : List Row → List ℕ → ViewState Row
  unavailable : List ℕ → ViewState Row

pub record ListView (Row : Type 0) : Type 0 where
  pub state : ViewState Row
  pub selection : ℕ
  pub filter : List ℕ
  pub filter_active : Bool

pub data ListEvent (Row : Type 0) : Type 0 where
  row_list : List Row → List ℕ → ListEvent Row
  list_unavailable : List ℕ → ListEvent Row
  other_event : ListEvent Row

-- `String::pop`. A filter holds printable ASCII only, one byte for each character.
pub pop_char : List ℕ → List ℕ
pop_char [] = []
pop_char (b ∷ []) = []
pop_char (b ∷ c ∷ bs) = b ∷ pop_char (c ∷ bs)

abbrev pub is_printable : ℕ → Bool
is_printable b = leb 0x20 b && leb b 0x7e

-- The key that a letter stands for.
unfoldable pub letter_key : ℕ → Option ScopeKey
letter_key b =
    if b == b'j'
    then some down
    else if b == b'k'
    then some up
    else if b == b'g'
    then some top
    else if b == b'G'
    then some bottom
    else if b == b'/'
    then some filter_start
    else none

module _ {Row Key : Type 0} (ops : RowOps Row Key) where
  abbrev pub visible_in : List ℕ → ViewState Row → List Row
  visible_in filter connecting = []
  visible_in filter (available rows source) = filter_by (ops.matches filter) rows
  visible_in filter (unavailable reason) = []

  abbrev pub visible : ListView Row → List Row
  visible v = visible_in v.filter v.state

  unfoldable pub visible_count : ListView Row → ℕ
  visible_count v = length (visible v)

  unfoldable pub selected_row : ListView Row → Option Row
  selected_row v = get_elem? (visible v) v.selection

  unfoldable pub selected_key : ListView Row → Option Key
  unfolding selected_row
  selected_key v = selected_row v >>= (λ r. some (ops.key_of r))

  unfoldable pub find_key : Option Key → List Row → Option ℕ
  find_key none rows = none
  find_key (some key) rows = position (λ r. ops.same_key (ops.key_of r) key) rows

  -- The index that `reanchor_selection` leaves, for the rows that are visible.
  unfoldable pub anchor : Option Key → List Row → ℕ → ℕ
  unfolding find_key
  anchor old_key rows selection = elim (find_key old_key rows) [
    | some idx ↦ idx
    | none ↦
        if is_empty rows
        then 0
        else if leb (length rows) selection
        then length rows - 1
        else selection
  ]

  unfoldable pub reanchor_in : Option Key → ViewState Row → List ℕ → ℕ → ℕ
  unfolding anchor
  reanchor_in old_key connecting filter selection = 0
  reanchor_in old_key (available rows source) filter selection =
      anchor old_key (filter_by (ops.matches filter) rows) selection
  reanchor_in old_key (unavailable reason) filter selection = 0

  unfoldable pub reanchor_selection : ListView Row → Option Key → ListView Row
  unfolding reanchor_in
  reanchor_selection v old_key = record v {
    selection = reanchor_in old_key v.state v.filter v.selection;
  }

  -- The filter's text was changed: the key is read with the new text.
  unfoldable pub refilter : ListView Row → ListView Row
  unfolding reanchor_selection selected_key
  refilter v = reanchor_selection v (selected_key v)

  -- A key while the filter is typed.
  unfoldable pub filter_key : ListView Row → ScopeKey → ListView Row × Bool
  unfolding refilter pop_char
  filter_key v escape = (refilter (record v { filter = []; filter_active = false }), true)
  filter_key v enter = (record v { filter_active = false }, true)
  filter_key v backspace =
      if is_empty v.filter
      then (v, false)
      else (refilter (record v { filter = pop_char v.filter }), true)
  filter_key v (char b) =
      if is_printable b
      then (refilter (record v { filter = v.filter ++ b ∷ [] }), true)
      else (v, false)
  filter_key v up = (v, false)
  filter_key v down = (v, false)
  filter_key v top = (v, false)
  filter_key v bottom = (v, false)
  filter_key v home = (v, false)
  filter_key v end = (v, false)
  filter_key v pg_up = (v, false)
  filter_key v pg_dn = (v, false)
  filter_key v filter_start = (v, false)

  unfoldable pub move_up : ListView Row → ListView Row
  move_up v = record v { selection = v.selection - 1 }

  unfoldable pub move_down : ListView Row → ListView Row
  unfolding visible_count
  move_down v =
      if ltb 0 (visible_count v) && ltb (v.selection + 1) (visible_count v)
      then record v { selection = v.selection + 1 }
      else v

  unfoldable pub move_bottom : ListView Row → ListView Row
  unfolding visible_count
  move_bottom v = record v { selection = visible_count v - 1 }

  -- A key while no filter is typed. A letter stands for another key, with which the handler calls
  -- itself.
  unfoldable pub move_key : ListView Row → ScopeKey → ListView Row × Bool
  unfolding move_up move_down move_bottom
  move_key v up = (move_up v, true)
  move_key v down = (move_down v, true)
  move_key v top = (record v { selection = 0 }, true)
  move_key v home = (record v { selection = 0 }, true)
  move_key v bottom = (move_bottom v, true)
  move_key v end = (move_bottom v, true)
  move_key v filter_start = (record v { filter_active = true }, true)
  move_key v pg_up = (v, false)
  move_key v pg_dn = (v, false)
  move_key v escape = (v, false)
  move_key v enter = (v, false)
  move_key v backspace = (v, false)
  move_key v (char b) = (v, false)

  unfoldable pub plain_key : ListView Row → ScopeKey → ListView Row × Bool
  unfolding move_key letter_key
  plain_key v (char b) = elim (letter_key b) [ some key ↦ move_key v key | none ↦ (v, false) ]
  plain_key v key = move_key v key

  unfoldable pub list_key : ListView Row → ScopeKey → ListView Row × Bool
  unfolding filter_key plain_key
  list_key v key = if v.filter_active then filter_key v key else plain_key v key

  unfoldable pub handle_list_event : ListView Row → ListEvent Row → ListView Row × Bool
  unfolding reanchor_selection selected_key
  handle_list_event v (row_list rows source) =
      (reanchor_selection (record v { state = available rows source }) (selected_key v), true)
  handle_list_event v (list_unavailable reason) =
      (record v { state = unavailable reason; selection = 0 }, true)
  handle_list_event v other_event = (v, false)
