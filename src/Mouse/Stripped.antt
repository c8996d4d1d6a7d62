-- ===== src/Mouse/Stripped.antt =====
-- Which bytes `MouseParser::parse` of mouse.rs takes out of the stream.
use tepegoz.Prelude.{
  ℕ, ◌≡◌, ◌≢◌, ◌⊎◌, inl, inr, refl, true, List, [], ◌∷◌, ◌++◌, ◌||◌, arith, append-nil,
  append_assoc, All, All-append, ◌==◌, ==_iff, Bool-cases,
}
use tepegoz.Mouse.{
  MouseEvent, MouseState, idle, after_esc, csi, params, mouse_turn, parse, to_list,
  parse_sgr_params, esc, csi_open, sgr_marker, sgr_press, sgr_release, read,
}
use tepegoz.Mouse.Stream.{Output, parse-cons}

-- The bytes that a state holds back.
abbrev pub pending : MouseState → List ℕ
pending idle = []
pending after_esc = esc ∷ []
pending csi = esc ∷ csi_open ∷ []
pending (params buf) = esc ∷ csi_open ∷ sgr_marker ∷ buf

abbrev pub NotFinal : ℕ → Type 0
NotFinal b = (b ≢ sgr_press) × (b ≢ sgr_release)

abbrev pub IsFinal : ℕ → Type 0
IsFinal b = (b ≡ sgr_press) ⊎ (b ≡ sgr_release)

-- No final byte is among the collected parameters.
abbrev pub IsOpen : MouseState → Type 0
IsOpen (params buf) = All NotFinal buf
IsOpen _ = Unit

-- `Stripped input out events`: `input` is read from the left in units. A complete mouse report,
-- `ESC [ <` with its parameters and the final byte, is cut out and gives its event. An ESC that no
-- `[` follows is kept with the byte after it, `ESC [` that no `<` follows with the byte after it,
-- and any other byte by itself. What is left at the end is the beginning of a report. No two of
-- these fit the same input.
pub data Stripped : List ℕ → List ℕ → List MouseEvent → Type 0 where
  end : (s : MouseState) → IsOpen s → Stripped (pending s) (pending s) []
  keep :
      (b : ℕ) {l out : List ℕ} {events : List MouseEvent}
      → b ≢ esc
      → Stripped l out events
      → Stripped (b ∷ l) (b ∷ out) events
  keep_esc :
      (b : ℕ) {l out : List ℕ} {events : List MouseEvent}
      → b ≢ csi_open
      → Stripped l out events
      → Stripped (esc ∷ b ∷ l) (esc ∷ b ∷ out) events
  keep_csi :
      (b : ℕ) {l out : List ℕ} {events : List MouseEvent}
      → b ≢ sgr_marker
      → Stripped l out events
      → Stripped (esc ∷ csi_open ∷ b ∷ l) (esc ∷ csi_open ∷ b ∷ out) events
  cut :
      (buf : List ℕ) (final : ℕ) {report l out : List ℕ} {events events' : List MouseEvent}
      → All NotFinal buf
      → IsFinal final
      → report ≡ esc ∷ csi_open ∷ sgr_marker ∷ buf ++ final ∷ [] ++ l
      → events' ≡ to_list (parse_sgr_params buf (final == sgr_press)) ++ events
      → Stripped l out events
      → Stripped report out events'

abbrev eq : (b c : ℕ) → (b == c) ≡ true → b ≡ c
eq b c = (==_iff b c).0

abbrev Follows : MouseState → ℕ → Output → Type 0
Follows s b (o, e, s') =
    IsOpen s'
    × ((l out : List ℕ) (events : List MouseEvent)
        → Stripped (pending s' ++ l) out events
        → Stripped (pending s ++ b ∷ l) (o ++ out) (e ++ events))

mouse_turn-Follows : (s : MouseState) (b : ℕ) → IsOpen s → Follows s b (mouse_turn s b)
unfolding mouse_turn
mouse_turn-Follows idle b h = elim (Bool-cases (b == esc)) [
  | inl p ↦ rw (p, Follows) (tt, λ l out events st. rw (eq b esc p) st)
  | inr p ↦ rw (p, Follows) (tt, λ l out events st. keep b (λ q. ground (arith, p, q)) st)
]
mouse_turn-Follows after_esc b h = elim (Bool-cases (b == csi_open)) [
  | inl p ↦ rw (p, Follows) (tt, λ l out events st. rw (eq b csi_open p) st)
  | inr p ↦ rw (p, Follows) (tt, λ l out events st. keep_esc b (λ q. ground (arith, p, q)) st)
]
mouse_turn-Follows csi b h = elim (Bool-cases (b == sgr_marker)) [
  | inl p ↦ rw (p, Follows) (tt, λ l out events st. rw (eq b sgr_marker p) st)
  | inr p ↦ rw (p, Follows) (tt, λ l out events st. keep_csi b (λ q. ground (arith, p, q)) st)
]
mouse_turn-Follows (params buf) b h = elim (Bool-cases (b == sgr_press || b == sgr_release)) [
  | inl p ↦
      rw (p, Follows)
        (tt, λ l out events st. cut buf b h (ground arith) (simp append_assoc) refl st)
  | inr p ↦
      rw (p, Follows)
        (
          All-append NotFinal buf (b ∷ []) h ((ground arith, ground arith), tt),
          λ l out events st. rw append_assoc at st,
        )
]

-- From a state that has collected no final byte: the bytes passed on, followed by those that the
-- new state holds back, are the bytes held back before followed by the chunk, from which every
-- complete mouse report is cut out that does not stand inside a kept unit, and nothing else. The
-- events are those of the reports cut out, in order. An ESC is a unit with the byte after it
-- unless that byte is `[`, so a report right behind such an ESC is passed on as bytes.
pub parse-Stripped :
    (s : MouseState) (input : List ℕ)
    → IsOpen s
    → Stripped
        (pending s ++ input)
        ((parse s input).0 ++ pending (parse s input).2)
        (parse s input).1
parse-Stripped s [] h = unfold parse read in rw append-nil (end s h)
parse-Stripped s (b ∷ input) h =
    let t : Follows s b (mouse_turn s b) = mouse_turn-Follows s b h in
    let r = parse (mouse_turn s b).2 input in
    rw (parse-cons s b input) (
      rw append_assoc
        (t.1 input (r.0 ++ pending r.2) r.1 (parse-Stripped (mouse_turn s b).2 input t.0)))
