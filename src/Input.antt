-- ===== src/Input.antt =====
-- The stdin byte filter of crates/tepegoz-tui/src/input.rs. `turn` is the body of the loop of
-- `InputFilter::process`, `scan` the loop. A byte is a number; `Vec::push` appends at the end.
pub mod Conservation
pub mod Chunks
mod Tests
use tepegoz.Prelude.{
  ℕ, Bool, false, Option, none, some, List, [], ◌∷◌, ◌++◌, ◌&&◌, leb, ◌==◌, if◌then◌else◌, is_empty,
}
use tepegoz.Tile.{FocusDir, left, right, up, down}

abbrev pub prefix_byte : ℕ
prefix_byte = 0x02

abbrev pub tab : ℕ
tab = 0x09

abbrev pub esc : ℕ
esc = 0x1b

abbrev pub csi_open : ℕ
csi_open = b'['

-- ECMA-48 final bytes, and parameter or intermediate bytes.
is_csi_final : ℕ → Bool
is_csi_final b = leb 0x40 b && leb b 0x7e

is_csi_param_or_intermediate : ℕ → Bool
is_csi_param_or_intermediate b = leb 0x20 b && leb b 0x3f

pub data InputAction : Type 0 where
  forward : List ℕ → InputAction
  detach : InputAction
  focus_direction : FocusDir → InputAction
  focus_next focus_prev help pane_close open_host_picker : InputAction

pub data FilterState : Type 0 where
  normal prefix_active prefix_esc prefix_csi bare_csi : FilterState
  bare_csi_collect : List ℕ → FilterState

-- What one turn of the loop does. `goto`: the state and `out` after it; `skip`: the lookahead took
-- the byte after `b` too, and the state is `bare_csi`; `stop`: the turn returns from `process`.
pub data Turn : Type 0 where
  goto : FilterState → List ℕ → Turn
  skip : Turn
  stop : InputAction → Turn

control : ℕ → Option InputAction
control b =
    if b == b'd'
    then some detach
    else if b == b'h'
    then some (focus_direction left)
    else if b == b'j'
    then some (focus_direction down)
    else if b == b'k'
    then some (focus_direction up)
    else if b == b'l'
    then some (focus_direction right)
    else if b == b'?'
    then some help
    else if b == b'&'
    then some pane_close
    else if b == b't'
    then some open_host_picker
    else none

arrow : ℕ → Option FocusDir
arrow b =
    if b == b'A'
    then some up
    else if b == b'B'
    then some down
    else if b == b'C'
    then some right
    else if b == b'D'
    then some left
    else none

-- `input[i + 1] == CSI_OPEN`, with the bounds test before it.
opens_csi : Option ℕ → Bool
opens_csi none = false
opens_csi (some c) = c == csi_open

-- The body of the loop at byte `b`, by the state that `mem::take` has removed.
pub turn : FilterState → List ℕ → ℕ → Option ℕ → Turn
unfolding opens_csi is_csi_final is_csi_param_or_intermediate
turn normal out b next =
    if b == tab
    then stop focus_next
    else if b == prefix_byte
    then goto prefix_active out
    else if b == esc && opens_csi next
    then skip
    else goto normal (out ++ b ∷ [])
turn prefix_active out b next = elim (control b) [
  | some action ↦ stop action
  | none ↦ if b == esc then goto prefix_esc out else goto normal (out ++ prefix_byte ∷ b ∷ [])
]
turn prefix_esc out b next =
    if b == csi_open then goto prefix_csi out else goto normal (out ++ prefix_byte ∷ esc ∷ b ∷ [])
turn prefix_csi out b next = elim (arrow b) [
  | some dir ↦ stop (focus_direction dir)
  | none ↦ goto normal (out ++ prefix_byte ∷ esc ∷ csi_open ∷ b ∷ [])
]
turn bare_csi out b next =
    if b == b'Z'
    then stop focus_prev
    else if is_csi_final b
    then goto normal (out ++ esc ∷ csi_open ∷ b ∷ [])
    else if is_csi_param_or_intermediate b
    then goto (bare_csi_collect (b ∷ [])) out
    else goto normal (out ++ esc ∷ csi_open ∷ b ∷ [])
turn (bare_csi_collect buf) out b next =
    if is_csi_final b
    then goto normal (out ++ esc ∷ csi_open ∷ (buf ++ b ∷ []))
    else if is_csi_param_or_intermediate b
    then goto (bare_csi_collect (buf ++ b ∷ [])) out
    else goto normal (out ++ esc ∷ csi_open ∷ (buf ++ b ∷ []))

-- `if !out.is_empty() { actions.push(Forward(take(&mut out))) }`
unfoldable pub flush : List ℕ → List InputAction
flush out = if is_empty out then [] else forward out ∷ []

-- The `while` loop from a state, with the bytes gathered in `out`. Nothing is in `actions` before
-- the turn that returns.
scan : FilterState → List ℕ → List ℕ → List InputAction × FilterState
unfolding turn
scan s out [] = (flush out, s)
scan s out (b ∷ []) = elim (turn s out b none) [
  | goto s' out' ↦ scan s' out' []
  | skip ↦ scan bare_csi out []
  | stop action ↦ (flush out ++ action ∷ [], normal)
]
scan s out (b ∷ c ∷ rest) = elim (turn s out b (some c)) [
  | goto s' out' ↦ scan s' out' (c ∷ rest)
  | skip ↦ scan bare_csi out rest
  | stop action ↦ (flush out ++ action ∷ [], normal)
]

unfoldable pub process : FilterState → List ℕ → List InputAction × FilterState
unfolding scan control arrow flush
process s input = scan s [] input
