-- ===== src/Tile/Navigation.antt =====
-- Directional focus: tile.rs, `TileLayout::next_focus`.
use tepegoz.Prelude.{◌-◌, ◌≤◌, ◌<◌, ◌≡◌, refl, Option, none, some, arith}
use tepegoz.Ratatui.{Rect, Geometry, Fits}
use tepegoz.Tile.{
  TileId, TileLayout, FocusDir, left, right, up, down, default_for, claude_rows, next_focus,
}
use tepegoz.Tile.Layout.{IsLarge, god_view_lem, pty_rows, bounds, god_tiles}

-- The neighbours of each tile in the god view.
abbrev pub neighbour : TileId → FocusDir → Option TileId
neighbour TileId.pty down = some TileId.docker
neighbour TileId.docker up = some TileId.pty
neighbour TileId.docker down = some TileId.claude_code
neighbour TileId.docker right = some TileId.ports
neighbour TileId.ports up = some TileId.pty
neighbour TileId.ports down = some TileId.claude_code
neighbour TileId.ports left = some TileId.docker
neighbour TileId.ports right = some TileId.fleet
neighbour TileId.fleet up = some TileId.pty
neighbour TileId.fleet down = some TileId.claude_code
neighbour TileId.fleet left = some TileId.ports
neighbour TileId.claude_code up = some TileId.docker
neighbour _ _ = none

abbrev laid_out : Rect → TileLayout
laid_out area = record { tiles = god_tiles area; default_focus = TileId.pty }

abbrev Rows : Rect → Type 0
Rows area = (6 ≤ pty_rows area) × (pty_rows area < area.height - claude_rows)

next_focus-laid_out :
    (area : Rect) (from : TileId) (dir : FocusDir)
    → IsLarge area
    → Fits area
    → Rows area
    → next_focus (laid_out area) from dir ≡ neighbour from dir
unfolding next_focus
next_focus-laid_out area TileId.pty left large fits rows = ground arith
next_focus-laid_out area TileId.pty right large fits rows = ground arith
next_focus-laid_out area TileId.pty up large fits rows = ground arith
next_focus-laid_out area TileId.pty down large fits rows = ground arith
next_focus-laid_out area TileId.docker left large fits rows = ground arith
next_focus-laid_out area TileId.docker right large fits rows = ground arith
next_focus-laid_out area TileId.docker up large fits rows = ground arith
next_focus-laid_out area TileId.docker down large fits rows = ground arith
next_focus-laid_out area TileId.ports left large fits rows = ground arith
next_focus-laid_out area TileId.ports right large fits rows = ground arith
next_focus-laid_out area TileId.ports up large fits rows = ground arith
next_focus-laid_out area TileId.ports down large fits rows = ground arith
next_focus-laid_out area TileId.fleet left large fits rows = ground arith
next_focus-laid_out area TileId.fleet right large fits rows = ground arith
next_focus-laid_out area TileId.fleet up large fits rows = ground arith
next_focus-laid_out area TileId.fleet down large fits rows = ground arith
next_focus-laid_out area TileId.claude_code left large fits rows = ground arith
next_focus-laid_out area TileId.claude_code right large fits rows = ground arith
next_focus-laid_out area TileId.claude_code up large fits rows = ground arith
next_focus-laid_out area TileId.claude_code down large fits rows = ground arith
next_focus-laid_out area TileId.too_small left large fits rows = refl
next_focus-laid_out area TileId.too_small _ large fits rows = refl

-- In any terminal that is large enough for the god view, each direction leads from each tile to its
-- neighbour in the drawing, and nowhere where it has none: down from the pty tile to Docker, and
-- from the scope row to Claude Code; up from the scope row to the pty tile, and from Claude Code to
-- Docker; left and right along the scope row.
pub next_focus-neighbour :
    (g : Geometry) (area : Rect) (from : TileId) (dir : FocusDir)
    → IsLarge area
    → Fits area
    → next_focus (default_for g area) from dir ≡ neighbour from dir
next_focus-neighbour g area from dir large fits =
    rw (god_view_lem g area large fits)
      (next_focus-laid_out area from dir large fits (bounds g area large fits))
