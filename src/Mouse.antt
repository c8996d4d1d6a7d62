-- ===== src/Mouse.antt =====
-- The SGR mouse parser of crates/tepegoz-tui/src/mouse.rs. `mouse_turn` is the body of the loop of
-- `MouseParser::parse`; `read` is the loop, with the bytes passed on and the events so far.
pub mod Stream
pub mod Stripped
pub mod Reports
mod Tests
use tepegoz.Prelude.{
  ℕ, ◌-◌, ◌/◌, ◌%◌, Bool, true, false, Option, none, some, List, [], ◌∷◌, ◌++◌, ◌&&◌, ◌||◌, leb,
  ◌==◌, if◌then◌else◌, not, ◌>>=◌,
}
use tepegoz.Text.{from_utf8, split, parse_u32, u16_max}

abbrev pub esc : ℕ
esc = 0x1b

abbrev pub csi_open : ℕ
csi_open = b'['

abbrev pub sgr_marker : ℕ
sgr_marker = b'<'

abbrev pub sgr_press : ℕ
sgr_press = b'M'

abbrev pub sgr_release : ℕ
sgr_release = b'm'

-- The two mouse variants of `AppEvent`, with the cell.
pub data MouseEvent : Type 0 where
  mouse_click mouse_hover : ℕ → ℕ → MouseEvent

pub data MouseState : Type 0 where
  idle after_esc csi : MouseState
  params : List ℕ → MouseState

-- `cb & MOTION_BIT`, `cb & WHEEL_BIT` (bits 5 and 6) are not zero; `cb & BUTTON_MASK`.
motion : ℕ → Bool
motion cb = not (cb / 32 % 2 == 0)

wheel : ℕ → Bool
wheel cb = not (cb / 64 % 2 == 0)

button : ℕ → ℕ
button cb = cb % 4

-- `u16::try_from(n).ok()`
try_u16 : ℕ → Option ℕ
try_u16 n = if leb n u16_max then some n else none

-- What a report says, by its button code, for the cell (x, y).
unfoldable pub event_of : ℕ → Bool → ℕ → ℕ → Option MouseEvent
unfolding motion wheel button
event_of cb is_press x y =
    if motion cb
    then some (mouse_hover x y)
    else if wheel cb
    then none
    else if is_press && button cb == 0
    then some (mouse_click x y)
    else none

parts_of : List (List ℕ) → Option (List ℕ × List ℕ × List ℕ)
parts_of (a ∷ b ∷ c ∷ []) = some (a, b, c)
parts_of _ = none

unfoldable pub parse_sgr_params : List ℕ → Bool → Option MouseEvent
unfolding event_of try_u16 parts_of
parse_sgr_params bytes is_press = do
  s ← from_utf8 bytes
  (a, b, c) ← parts_of (split b';' s)
  cb ← parse_u32 a
  cx ← parse_u32 b
  cy ← parse_u32 c
  x ← try_u16 (cx - 1)
  y ← try_u16 (cy - 1)
  event_of cb is_press x y

unfoldable pub to_list : Option MouseEvent → List MouseEvent
to_list none = []
to_list (some e) = e ∷ []

-- One byte: the bytes it passes on, the events it completes, the next state.
unfoldable pub mouse_turn : MouseState → ℕ → List ℕ × List MouseEvent × MouseState
mouse_turn idle b = if b == esc then ([], [], after_esc) else (b ∷ [], [], idle)
mouse_turn after_esc b = if b == csi_open then ([], [], csi) else (esc ∷ b ∷ [], [], idle)
mouse_turn csi b =
    if b == sgr_marker then ([], [], params []) else (esc ∷ csi_open ∷ b ∷ [], [], idle)
mouse_turn (params buf) b =
    if b == sgr_press || b == sgr_release
    then ([], to_list (parse_sgr_params buf (b == sgr_press)), idle)
    else ([], [], params (buf ++ b ∷ []))

read : MouseState → List ℕ → List MouseEvent → List ℕ → List ℕ × List MouseEvent × MouseState
unfolding mouse_turn
read s out events [] = (out, events, s)
read s out events (b ∷ input) =
    let (o, e, s') = mouse_turn s b in read s' (out ++ o) (events ++ e) input

-- `parse`, with the state that it leaves.
unfoldable pub parse : MouseState → List ℕ → List ℕ × List MouseEvent × MouseState
unfolding read
parse s input = read s [] [] input
