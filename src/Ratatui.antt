-- ===== src/Ratatui.antt =====
-- What the sources use of the `ratatui` crate's geometry, which is not in the repository. `Rect` is
-- its plain struct of four `u16` fields; the operations are parameters, with what is documented of
-- them: `Rect::new` keeps its arguments where the right and the bottom edge fit `u16`, and
-- `Rect::contains` is the half-open test of a cell.
use tepegoz.Prelude.{ℕ, ◌+◌, ◌≤◌, ◌<◌, ◌≡◌, ◌↔◌, Bool, true}
use tepegoz.Text.{u16_max}

pub record Rect : Type 0 where
  pub x : ℕ
  pub y : ℕ
  pub width : ℕ
  pub height : ℕ

-- The right and the bottom edge are `u16` numbers.
pub record Fits (r : Rect) : Type 0 where
  pub right : r.x + r.width ≤ u16_max
  pub bottom : r.y + r.height ≤ u16_max

pub record Geometry : Type 0 where
  pub rect_new : ℕ → ℕ → ℕ → ℕ → Rect
  pub contains : Rect → ℕ → ℕ → Bool
  pub rect_new_fits :
      (x y width height : ℕ)
      → x + width ≤ u16_max
      → y + height ≤ u16_max
      → rect_new x y width height ≡ record { x = x; y = y; width = width; height = height }
  pub contains_iff :
      (r : Rect) (px py : ℕ)
      → Fits r
      → (contains r px py ≡ true)
        ↔ ((r.x ≤ px) × (px < r.x + r.width) × (r.y ≤ py) × (py < r.y + r.height))
