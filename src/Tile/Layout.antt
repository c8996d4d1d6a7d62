-- ===== src/Tile/Layout.antt =====
-- The rectangles of the god view: tile.rs, `TileLayout::default_for`.
use tepegoz.Prelude.{ℕ, ◌+◌, ◌-◌, ◌*◌, ◌/◌, ◌≤◌, ◌<◌, ◌≡◌, List, [], ◌∷◌, arith, false, ltb, ◌||◌}
use tepegoz.Ratatui.{Rect, Geometry, Fits}
use tepegoz.Tile.{
  TileId, TileKind, ScopeKind, TileDef, default_for, pty_rows_of, claude_rows, min_cols, min_rows,
  add_u16, sub_u16, mul_u16,
}

-- The terminal is large enough for the god view.
pub record IsLarge (area : Rect) : Type 0 where
  pub wide : min_cols ≤ area.width
  pub tall : min_rows ≤ area.height

abbrev pub rect : ℕ → ℕ → ℕ → ℕ → Rect
rect x y width height = record { x = x; y = y; width = width; height = height }

module _ (area : Rect) where
  abbrev pub pty_rows : ℕ
  pty_rows = pty_rows_of (area.height - claude_rows)

  abbrev pub scope_rows : ℕ
  scope_rows = area.height - claude_rows - pty_rows

  abbrev pub scope_col : ℕ
  scope_col = area.width / 3

  abbrev pub pty_rect : Rect
  pty_rect = rect area.x area.y area.width pty_rows

  abbrev pub docker_rect : Rect
  docker_rect = rect area.x (area.y + pty_rows) scope_col scope_rows

  abbrev pub ports_rect : Rect
  ports_rect = rect (area.x + scope_col) (area.y + pty_rows) scope_col scope_rows

  abbrev pub fleet_rect : Rect
  fleet_rect =
      rect (area.x + scope_col + scope_col) (area.y + pty_rows) (area.width - 2 * scope_col)
        scope_rows

  abbrev pub claude_rect : Rect
  claude_rect = rect area.x (area.y + pty_rows + scope_rows) area.width claude_rows

  abbrev pub god_tiles : List TileDef
  god_tiles =
      record { id = TileId.pty; kind = TileKind.pty; rect = pty_rect }
      ∷ record { id = TileId.docker; kind = TileKind.scope ScopeKind.docker; rect = docker_rect }
      ∷ record { id = TileId.ports; kind = TileKind.scope ScopeKind.ports; rect = ports_rect }
      ∷ record { id = TileId.fleet; kind = TileKind.scope ScopeKind.fleet; rect = fleet_rect }
      ∷ record {
        id = TileId.claude_code;
        kind = TileKind.placeholder "Claude Code — Phase 9" 9;
        rect = claude_rect;
      }
      ∷ []

pub pty_rows_bounds : (n : ℕ) → 21 ≤ n → (6 ≤ pty_rows_of n) × (pty_rows_of n < n)
unfolding pty_rows_of
pty_rows_bounds n h = omega arith

-- In a terminal that fits, no arithmetic of the layout wraps.
module _ (g : Geometry) (area : Rect) (large : IsLarge area) (fits : Fits area) where
  remaining_lem : sub_u16 area.height claude_rows ≡ area.height - claude_rows
  remaining_lem = omega arith

  pub bounds : (6 ≤ pty_rows area) × (pty_rows area < area.height - claude_rows)
  bounds = pty_rows_bounds (area.height - claude_rows) (omega arith)

  is_large : (ltb area.width min_cols || ltb area.height min_rows) ≡ false
  is_large = ground arith

  scope_y_lem : add_u16 area.y (pty_rows area) ≡ area.y + pty_rows area
  scope_y_lem = omega (arith, bounds)

  scope_rows_lem : sub_u16 (area.height - claude_rows) (pty_rows area) ≡ scope_rows area
  scope_rows_lem = omega (arith, bounds)

  ports_x_lem : add_u16 area.x (scope_col area) ≡ area.x + scope_col area
  ports_x_lem = omega arith

  fleet_x_lem :
      add_u16 (area.x + scope_col area) (scope_col area) ≡ area.x + scope_col area + scope_col area
  fleet_x_lem = omega arith

  fleet_w_lem : sub_u16 area.width (mul_u16 2 (scope_col area)) ≡ area.width - 2 * scope_col area
  fleet_w_lem = omega arith

  claude_y_lem :
      add_u16 (area.y + pty_rows area) (scope_rows area) ≡ area.y + pty_rows area + scope_rows area
  claude_y_lem = omega (arith, bounds)

  Fits-rect : (r : Rect) → Fits r → g.rect_new r.x r.y r.width r.height ≡ r
  Fits-rect r f = g.rect_new_fits r.x r.y r.width r.height f.right f.bottom

  pub Fits-pty : Fits (pty_rect area)
  Fits-pty = omega (arith, bounds)

  pub Fits-docker : Fits (docker_rect area)
  Fits-docker = omega (arith, bounds)

  pub Fits-ports : Fits (ports_rect area)
  Fits-ports = omega (arith, bounds)

  pub Fits-fleet : Fits (fleet_rect area)
  Fits-fleet = omega (arith, bounds)

  pub Fits-claude : Fits (claude_rect area)
  Fits-claude = omega (arith, bounds)

  pub god_view_lem :
      default_for g area ≡ record { tiles = god_tiles area; default_focus = TileId.pty }
  unfolding default_for
  god_view_lem =
      rw (is_large, remaining_lem)
        (rw (scope_y_lem, scope_rows_lem, ports_x_lem)
          (rw (fleet_x_lem, fleet_w_lem, claude_y_lem)
            (cc (
              Fits-rect (pty_rect area) Fits-pty,
              Fits-rect (docker_rect area) Fits-docker,
              Fits-rect (ports_rect area) Fits-ports,
              Fits-rect (fleet_rect area) Fits-fleet,
              Fits-rect (claude_rect area) Fits-claude,
            ))))
