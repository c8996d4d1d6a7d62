-- ===== src/Tile.antt =====
-- The tile layout and focus navigation of crates/tepegoz-tui/src/tile.rs. Sums and products of `u16`
-- wrap, as in a release build.
pub mod Layout
pub mod Partition
pub mod Navigation
pub mod Cycle
pub mod Present
pub mod Tests
use Prim.Native.String.{String}
use tepegoz.Prelude.{
  ℕ, zero, suc, ◌+◌, ◌-◌, ◌*◌, ◌/◌, ◌%◌, ◌≡◌, Bool, true, false, Option, none, some, List, [], ◌∷◌,
  ◌&&◌, ◌||◌, not, ltb, leb, ◌==◌, if◌then◌else◌, ◌>>=◌, get_elem?, find?, filter_by, position, max,
  length,
}
use tepegoz.Ratatui.{Rect, Geometry}

pub data ScopeKind : Type 0 where
  docker ports fleet : ScopeKind

pub data TileId : Type 0 where
  pty docker ports fleet claude_code too_small : TileId

pub data TileKind : Type 0 where
  pty : TileKind
  scope : ScopeKind → TileKind
  placeholder : String → ℕ → TileKind
  too_small : TileKind

pub data FocusDir : Type 0 where
  left right up down : FocusDir

pub record TileDef : Type 0 where
  pub id : TileId
  pub kind : TileKind
  pub rect : Rect

pub record TileLayout : Type 0 where
  pub tiles : List TileDef
  pub default_focus : TileId

abbrev pub min_cols : ℕ
min_cols = 80

abbrev pub min_rows : ℕ
min_rows = 24

abbrev pub claude_rows : ℕ
claude_rows = 3

-- `u16` arithmetic.
abbrev pub add_u16 : ℕ → ℕ → ℕ
add_u16 a b = (a + b) % 65536

abbrev pub sub_u16 : ℕ → ℕ → ℕ
sub_u16 a b = (a + 65536 - b) % 65536

abbrev pub mul_u16 : ℕ → ℕ → ℕ
mul_u16 a b = a * b % 65536

-- `a == b` on tile ids.
abbrev pub same_tile : TileId → TileId → Bool
same_tile a b = index a == index b
  where
    index : TileId → ℕ
    index TileId.pty = 0
    index TileId.docker = 1
    index TileId.ports = 2
    index TileId.fleet = 3
    index TileId.claude_code = 4
    index TileId.too_small = 5

tiny_fallback : Rect → TileLayout
tiny_fallback area = record {
  tiles = record { id = TileId.too_small; kind = TileKind.too_small; rect = area } ∷ [];
  default_focus = TileId.too_small;
}

-- The rows of the pty tile.
unfoldable pub pty_rows_of : ℕ → ℕ
pty_rows_of remaining = max (mul_u16 remaining 3 / 5) 6

god_view : Geometry → Rect → TileLayout
god_view g area =
    let remaining = sub_u16 area.height claude_rows in
    let pty_rows = pty_rows_of remaining in
    let scope_rows = sub_u16 remaining pty_rows in
    let scope_col = area.width / 3 in
    let fleet_w = sub_u16 area.width (mul_u16 2 scope_col) in
    let scope_y = add_u16 area.y pty_rows in
    record {
      tiles =
          record {
            id = TileId.pty;
            kind = TileKind.pty;
            rect = g.rect_new area.x area.y area.width pty_rows;
          }
          ∷ record {
            id = TileId.docker;
            kind = TileKind.scope ScopeKind.docker;
            rect = g.rect_new area.x scope_y scope_col scope_rows;
          }
          ∷ record {
            id = TileId.ports;
            kind = TileKind.scope ScopeKind.ports;
            rect = g.rect_new (add_u16 area.x scope_col) scope_y scope_col scope_rows;
          }
          ∷ record {
            id = TileId.fleet;
            kind = TileKind.scope ScopeKind.fleet;
            rect =
                g.rect_new (add_u16 (add_u16 area.x scope_col) scope_col) scope_y fleet_w
                  scope_rows;
          }
          ∷ record {
            id = TileId.claude_code;
            kind = TileKind.placeholder "Claude Code — Phase 9" 9;
            rect = g.rect_new area.x (add_u16 scope_y scope_rows) area.width claude_rows;
          }
          ∷ [];
      default_focus = TileId.pty;
    }

unfoldable pub default_for : Geometry → Rect → TileLayout
unfolding tiny_fallback god_view
default_for g area =
    if ltb area.width min_cols || ltb area.height min_rows
    then tiny_fallback area
    else god_view g area

unfoldable pub tile : TileLayout → TileId → Option TileDef
tile l id = find? (λ (t : TileDef). same_tile t.id id) l.tiles

unfoldable pub rect_of : TileLayout → TileId → Option Rect
unfolding tile
rect_of l id = do t ← tile l id; some t.rect

-- Is a tile on the side `dir` of `from`? The two tests of one `filter` closure each.
beside : FocusDir → Rect → Rect → Bool
beside up from r = leb (add_u16 r.y r.height) from.y
beside down from r = leb (add_u16 from.y from.height) r.y
beside left from r = leb (add_u16 r.x r.width) from.x
beside right from r = leb (add_u16 from.x from.width) r.x

distance : ℕ → ℕ → ℕ
distance a b = if leb a b then b - a else a - b

-- The key of a candidate. `beside` has made the first difference, which the source takes in `i32`,
-- nonnegative.
key : FocusDir → Rect → Rect → ℕ × ℕ
unfolding distance
key up from r = (from.y - add_u16 r.y r.height, distance r.x from.x)
key down from r = (r.y - add_u16 from.y from.height, distance r.x from.x)
key left from r = (from.x - add_u16 r.x r.width, distance r.y from.y)
key right from r = (r.x - add_u16 from.x from.width, distance r.y from.y)

before : ℕ × ℕ → ℕ × ℕ → Bool
before (a, b) (c, d) = ltb a c || a == c && ltb b d

-- `min_by_key`: the first of the least.
least : (TileDef → ℕ × ℕ) → TileDef → List TileDef → TileDef
unfolding before
least k best [] = best
least k best (t ∷ ts) = least k (if before (k t) (k best) then t else best) ts

min_by_key : (TileDef → ℕ × ℕ) → List TileDef → Option TileDef
unfolding least
min_by_key k [] = none
min_by_key k (t ∷ ts) = some (least k t ts)

candidates : TileLayout → TileId → FocusDir → Rect → List TileDef
unfolding beside
candidates l from dir from_rect =
    filter_by (λ (t : TileDef). beside dir from_rect t.rect)
      (filter_by
        (λ (t : TileDef). not (same_tile t.id from) && not (same_tile t.id TileId.too_small))
        l.tiles)

unfoldable pub next_focus : TileLayout → TileId → FocusDir → Option TileId
unfolding rect_of key min_by_key candidates
next_focus l from dir = if same_tile from TileId.too_small then none else do
  from_rect ← rect_of l from
  t ← min_by_key (λ (t : TileDef). key dir from_rect t.rect) (candidates l from dir from_rect)
  some t.id

unfoldable pub routes_to_pty : TileLayout → TileId → Bool
unfolding tile
routes_to_pty l id = elim (tile l id) [
  | none ↦ false
  | some t ↦ elim t.kind [ TileKind.pty ↦ true | _ ↦ false ]
]

unfoldable pub routes_to_scope : TileLayout → TileId → Option ScopeKind
unfolding tile
routes_to_scope l id = do t ← tile l id; elim t.kind [ TileKind.scope kind ↦ some kind | _ ↦ none ]

abbrev pub cycle_order : List TileId
cycle_order = TileId.pty ∷ TileId.docker ∷ TileId.ports ∷ TileId.fleet ∷ TileId.claude_code ∷ []

-- `for step in 1..=n`, from `step` with that many rounds left.
cycle_steps : TileLayout → Bool → ℕ → ℕ → ℕ → Option TileId
unfolding tile
cycle_steps l forward start step zero = none
cycle_steps l forward start step (suc rounds) =
    let n = length cycle_order in
    let idx = if forward then (start + step) % n else (start + n - step) % n in
    let later = cycle_steps l forward start (step + 1) rounds in
    elim (get_elem? cycle_order idx) [
      | none ↦ none
      | some candidate ↦ elim (tile l candidate) [ some _ ↦ some candidate | none ↦ later ]
    ]

unfoldable pub cycle_focus : TileLayout → TileId → Bool → Option TileId
unfolding cycle_steps
cycle_focus l from forward = if same_tile from TileId.too_small then none else do
  start ← position (λ id. same_tile id from) cycle_order
  cycle_steps l forward start 1 (length cycle_order)
