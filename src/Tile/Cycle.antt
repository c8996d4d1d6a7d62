-- ===== src/Tile/Cycle.antt =====
-- The `Tab` cycle: tile.rs, `TileLayout::cycle_focus`.
use tepegoz.Prelude.{◌≡◌, true, false, Option, none, some, arith}
use tepegoz.Ratatui.{Rect, Geometry, Fits}
use tepegoz.Tile.{TileId, TileLayout, default_for, cycle_focus}
use tepegoz.Tile.Layout.{IsLarge, god_view_lem, god_tiles}

-- The tile after and before each in the reading order.
abbrev pub after : TileId → Option TileId
after TileId.pty = some TileId.docker
after TileId.docker = some TileId.ports
after TileId.ports = some TileId.fleet
after TileId.fleet = some TileId.claude_code
after TileId.claude_code = some TileId.pty
after TileId.too_small = none

abbrev laid_out : Rect → TileLayout
laid_out area = record { tiles = god_tiles area; default_focus = TileId.pty }

there_and_back :
    (area : Rect) (from next : TileId)
    → after from ≡ some next
    → (cycle_focus (laid_out area) from true ≡ some next)
      × (cycle_focus (laid_out area) next false ≡ some from)
unfolding cycle_focus
there_and_back area TileId.pty next h = ground arith
there_and_back area _ next h = ground arith

-- In any terminal that is large enough for the god view, `Tab` goes to the next tile in the reading
-- order, from the last to the first, and `Shift-Tab` from there goes back.
pub cycle_focus-after :
    (g : Geometry) (area : Rect) (from next : TileId)
    → IsLarge area
    → Fits area
    → after from ≡ some next
    → (cycle_focus (default_for g area) from true ≡ some next)
      × (cycle_focus (default_for g area) next false ≡ some from)
cycle_focus-after g area from next large fits h =
    rw (god_view_lem g area large fits) (there_and_back area from next h)
