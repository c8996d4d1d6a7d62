-- ===== src/Text/Decimal.antt =====
-- Decimal numbers read back what they print.
use tepegoz.Prelude.{
  ℕ, zero, suc, ◌+◌, ◌-◌, ◌*◌, ◌/◌, ◌%◌, ◌<◌, ◌≤◌, ◌≡◌, refl, sym, ap, ◌∙◌, some, List, [], ◌∷◌,
  true, arith, All, inl, inr, Bool-cases, ltb,
}
use tepegoz.Text.{u32_max, digits, is_digit, parse_u32, show_onto, to_string}

abbrev pub IsDigit : ℕ → Type 0
IsDigit b = (b'0' ≤ b) × (b ≤ b'9')

is_digit-IsDigit : (b : ℕ) → IsDigit b → is_digit b ≡ true
unfolding is_digit
is_digit-IsDigit b h = ground arith

digits-cons :
    (acc d : ℕ) (rest : List ℕ)
    → d < 10
    → acc * 10 + d ≤ u32_max
    → digits acc ((b'0' + d) ∷ rest) ≡ digits (acc * 10 + d) rest
unfolding digits
digits-cons acc d rest h k =
    let e : b'0' + d - b'0' ≡ d = omega arith in
    rw (is_digit-IsDigit (b'0' + d) (omega arith), e) (ground arith)

-- Reading what was printed goes on with the number.
digits-show_onto :
    (fuel n : ℕ) (rest : List ℕ)
    → n < fuel
    → n ≤ u32_max
    → digits 0 (show_onto fuel n rest) ≡ digits n rest
unfolding show_onto
digits-show_onto zero n rest h k = elim h [ ]
digits-show_onto (suc fuel) n rest h k = elim (Bool-cases (ltb n 10)) [
  | inl small ↦
      rw small
        (digits-cons 0 n rest (ground arith) (omega arith) ∙ ap (λ m. digits m rest) (omega arith))
  | inr large ↦ rw large (
      digits-show_onto fuel (n / 10) ((b'0' + n % 10) ∷ rest) (ground arith) (omega arith)
      ∙ digits-cons (n / 10) (n % 10) rest (omega arith) (omega arith)
      ∙ ap (λ m. digits m rest) (omega arith))
]

All-show_onto :
    (fuel n : ℕ) (rest : List ℕ)
    → n < fuel
    → All IsDigit rest
    → (b : ℕ) × (bs : List ℕ) × (show_onto fuel n rest ≡ b ∷ bs) × All IsDigit (b ∷ bs)
unfolding show_onto
All-show_onto zero n rest h r = elim h [ ]
All-show_onto (suc fuel) n rest h r = elim (Bool-cases (ltb n 10)) [
  | inl small ↦ (b'0' + n, rest, rw small, (ground arith, r))
  | inr large ↦
      rw large
        (All-show_onto fuel (n / 10) ((b'0' + n % 10) ∷ rest) (ground arith) (omega arith, r))
]

-- The decimal form of a number starts with a digit, and holds nothing but digits.
pub to_string_digits :
    (n : ℕ) → (b : ℕ) × (bs : List ℕ) × (to_string n ≡ b ∷ bs) × All IsDigit (b ∷ bs)
unfolding to_string
to_string_digits n = All-show_onto (n + 1) n [] (omega arith) tt

parse_u32-digits : (b : ℕ) (bs : List ℕ) → IsDigit b → parse_u32 (b ∷ bs) ≡ digits 0 (b ∷ bs)
unfolding parse_u32
parse_u32-digits b [] h = ground arith
parse_u32-digits b (c ∷ bs) h = ground arith

-- Reading the decimal form of a 32-bit number gives the number back.
pub parse_u32-to_string : (n : ℕ) → n ≤ u32_max → parse_u32 (to_string n) ≡ some n
parse_u32-to_string n h =
    let (b, bs, e, all) = to_string_digits n in
    rw e (
      parse_u32-digits b bs (all.0)
      ∙ ap (digits 0) (sym e)
      ∙ unfold to_string in digits-show_onto (n + 1) n [] (omega arith) h ∙ unfold digits in refl)
