-- ===== src/Tile/Partition.antt =====
-- Every cell belongs to one tile: tile.rs, `TileLayout::default_for`.
use tepegoz.Prelude.{
  ℕ, ◌+◌, ◌≡◌, List, [], ◌∷◌, arith, Bool, true, ltb, leb, ◌&&◌, ◌||◌, if◌then◌else◌, Bool-cases,
  inl, inr,
}
use tepegoz.Ratatui.{Rect, Geometry, Fits}
use tepegoz.Tile.{TileDef, default_for, min_cols, min_rows}
use tepegoz.Tile.Layout.{
  IsLarge, god_view_lem, Fits-pty, Fits-docker, Fits-ports, Fits-fleet, Fits-claude, pty_rect,
  docker_rect, ports_rect, fleet_rect, claude_rect, bounds,
}

-- How many of the tiles contain the cell (x, y).
abbrev pub count_at : Geometry → List TileDef → ℕ → ℕ → ℕ
count_at g [] x y = 0
count_at g (t ∷ ts) x y = (if g.contains t.rect x y then 1 else 0) + count_at g ts x y

inside : Rect → ℕ → ℕ → Bool
inside r x y = (leb r.x x && ltb x (r.x + r.width)) && (leb r.y y && ltb y (r.y + r.height))

contains-eq-inside : (g : Geometry) (r : Rect) (x y : ℕ) → Fits r → g.contains r x y ≡ inside r x y
unfolding inside
contains-eq-inside g r x y f = ground (arith, g.contains_iff r x y f)

module _ (g : Geometry) (area : Rect) (large : IsLarge area) (fits : Fits area) (x y : ℕ) where
  inside_once :
      (if inside (pty_rect area) x y then 1 else 0)
        + ((if inside (docker_rect area) x y then 1 else 0)
            + ((if inside (ports_rect area) x y then 1 else 0)
                + ((if inside (fleet_rect area) x y then 1 else 0)
                    + ((if inside (claude_rect area) x y then 1 else 0) + 0))))
      ≡ (if inside area x y then 1 else 0)
  unfolding inside
  inside_once = ground (arith, bounds g area large fits)

  count_at-god_view :
      count_at g (default_for g area).tiles x y ≡ (if g.contains area x y then 1 else 0)
  count_at-god_view =
      rw (god_view_lem g area large fits, contains-eq-inside g area x y fits)
        (cc (
          inside_once,
          contains-eq-inside g (pty_rect area) x y (Fits-pty g area large fits),
          contains-eq-inside g (docker_rect area) x y (Fits-docker g area large fits),
          contains-eq-inside g (ports_rect area) x y (Fits-ports g area large fits),
          contains-eq-inside g (fleet_rect area) x y (Fits-fleet g area large fits),
          contains-eq-inside g (claude_rect area) x y (Fits-claude g area large fits),
        ))

count_at-tiny :
    (g : Geometry) (area : Rect) (x y : ℕ)
    → (ltb area.width min_cols || ltb area.height min_rows) ≡ true
    → count_at g (default_for g area).tiles x y ≡ (if g.contains area x y then 1 else 0)
unfolding default_for
count_at-tiny g area x y h = rw h (ground arith)

-- Whatever the size of the terminal, each of its cells lies in exactly one tile of the default
-- layout, and a cell outside it lies in none.
pub count_at-default_for :
    (g : Geometry) (area : Rect) (x y : ℕ)
    → Fits area
    → count_at g (default_for g area).tiles x y ≡ (if g.contains area x y then 1 else 0)
count_at-default_for g area x y fits =
    elim (Bool-cases (ltb area.width min_cols || ltb area.height min_rows)) [
      | inl tiny ↦ count_at-tiny g area x y tiny
      | inr large ↦
          count_at-god_view g area (record { wide = ground arith; tall = ground arith }) fits x y
    ]
