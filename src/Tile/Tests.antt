-- ===== src/Tile/Tests.antt =====
-- The layout of a terminal of 120 columns and 40 rows, and a geometry: crates/tepegoz-tui/src/tile.rs.
use tepegoz.Prelude.{ℕ, ◌+◌, ◌≡◌, ◌↔◌, ◌≤◌, ◌<◌, refl, true, arith, leb, ltb, ◌&&◌, if◌then◌else◌}
use tepegoz.Ratatui.{Rect, Geometry, Fits}
use tepegoz.Tile.{TileId, right, default_for, next_focus}
use tepegoz.Tile.Layout.{IsLarge, rect}
use tepegoz.Tile.Partition.{count_at, count_at-default_for}
use tepegoz.Tile.Navigation.{neighbour, next_focus-neighbour}

pub contains_iff_plain :
    (r : Rect) (px py : ℕ)
    → (((leb r.x px && ltb px (r.x + r.width)) && (leb r.y py && ltb py (r.y + r.height))) ≡ true)
      ↔ ((r.x ≤ px) × (px < r.x + r.width) × (r.y ≤ py) × (py < r.y + r.height))
contains_iff_plain r px py = ground arith

abbrev pub plain_geometry : Geometry
plain_geometry = record {
  rect_new = rect;
  contains =
      λ r px py. (leb r.x px && ltb px (r.x + r.width)) && (leb r.y py && ltb py (r.y + r.height));
  rect_new_fits = λ x y width height hx hy. refl;
  contains_iff = λ r px py fits. contains_iff_plain r px py;
}

abbrev screen : Rect
screen = rect 0 0 120 40

screen-Fits : Fits screen
screen-Fits = record { right = omega arith; bottom = omega arith }

screen-IsLarge : IsLarge screen
screen-IsLarge = record { wide = omega arith; tall = omega arith }

count_at-default_for_example :
    count_at plain_geometry (default_for plain_geometry screen).tiles 50 30
    ≡ (if plain_geometry.contains screen 50 30 then 1 else 0)
count_at-default_for_example = count_at-default_for plain_geometry screen 50 30 screen-Fits

next_focus-neighbour_example :
    next_focus (default_for plain_geometry screen) TileId.docker right
    ≡ neighbour TileId.docker right
next_focus-neighbour_example =
    next_focus-neighbour plain_geometry screen TileId.docker right screen-IsLarge screen-Fits
