-- ===== src/Text.antt =====
-- The parts of Rust's standard library that the sources use on text, over lists of bytes:
-- `str::from_utf8`, `String::from_utf8_lossy`, `str::split`, `str::parse::<u32>` and `to_string` on an
-- unsigned integer.
pub mod Decimal
pub mod Ascii
pub mod Split
pub mod Same
use tepegoz.Prelude.{
  ℕ, zero, suc, ◌+◌, ◌-◌, ◌*◌, ◌/◌, ◌%◌, Bool, true, false, Option, none, some, List, [], ◌∷◌, ◌++◌,
  ◌&&◌, ◌||◌, leb, ltb, ◌==◌, if◌then◌else◌, is_empty,
}

-- How many bytes of a character are still to come, and what the next may be.
pub data Utf8 : Type 0 where
  start one two three after_e0 after_ed after_f0 after_f4 : Utf8

between : ℕ → ℕ → ℕ → Bool
between lo hi b = leb lo b && leb b hi

lead : ℕ → Option Utf8
unfolding between
lead b =
    if ltb b 0x80
    then some start
    else if between 0xc2 0xdf b
    then some one
    else if b == 0xe0
    then some after_e0
    else if b == 0xed
    then some after_ed
    else if between 0xe1 0xef b
    then some two
    else if b == 0xf0
    then some after_f0
    else if between 0xf1 0xf3 b
    then some three
    else if b == 0xf4
    then some after_f4
    else none

follow : ℕ → ℕ → Utf8 → ℕ → Option Utf8
unfolding between
follow lo hi next b = if between lo hi b then some next else none

utf8_step : Utf8 → ℕ → Option Utf8
unfolding lead follow
utf8_step start b = lead b
utf8_step one b = follow 0x80 0xbf start b
utf8_step two b = follow 0x80 0xbf one b
utf8_step three b = follow 0x80 0xbf two b
utf8_step after_e0 b = follow 0xa0 0xbf one b
utf8_step after_ed b = follow 0x80 0x9f one b
utf8_step after_f0 b = follow 0x90 0xbf two b
utf8_step after_f4 b = follow 0x80 0x8f two b

is_utf8_from : Utf8 → List ℕ → Bool
unfolding utf8_step
is_utf8_from start [] = true
is_utf8_from s [] = false
is_utf8_from s (b ∷ bs) = elim (utf8_step s b) [ some s' ↦ is_utf8_from s' bs | none ↦ false ]

unfoldable pub from_utf8 : List ℕ → Option (List ℕ)
unfolding is_utf8_from
from_utf8 bs = if is_utf8_from start bs then some bs else none

-- U+FFFD
abbrev pub replacement : List ℕ
replacement = 0xef ∷ 0xbf ∷ 0xbd ∷ []

-- `got` holds the bytes of the character that is being read. What cannot be the rest of it is
-- replaced as a whole, and the byte that did not fit is read as a first byte.
lossy : Utf8 → List ℕ → List ℕ → List ℕ
unfolding utf8_step
lossy start got [] = got
lossy s got [] = replacement
lossy s got (b ∷ bs) = elim (utf8_step s b) [
  | some start ↦ got ++ b ∷ lossy start [] bs
  | some s' ↦ lossy s' (got ++ b ∷ []) bs
  | none ↦ elim (utf8_step start b) [
    | some start ↦ (if is_empty got then [] else replacement) ++ b ∷ lossy start [] bs
    | some s' ↦ (if is_empty got then [] else replacement) ++ lossy s' (b ∷ []) bs
    | none ↦ (if is_empty got then [] else replacement) ++ replacement ++ lossy start [] bs
  ]
]

unfoldable pub from_utf8_lossy : List ℕ → List ℕ
unfolding lossy
from_utf8_lossy bs = lossy start [] bs

onto_first : ℕ → List (List ℕ) → List (List ℕ)
onto_first b [] = (b ∷ []) ∷ []
onto_first b (part ∷ parts) = (b ∷ part) ∷ parts

-- `s.split(c)`: always at least one part.
unfoldable pub split : ℕ → List ℕ → List (List ℕ)
unfolding onto_first
split c [] = [] ∷ []
split c (b ∷ bs) = let rest = split c bs in if b == c then [] ∷ rest else onto_first b rest

abbrev pub u32_max : ℕ
u32_max = 4294967295

abbrev pub u16_max : ℕ
u16_max = 65535

unfoldable pub is_digit : ℕ → Bool
unfolding between
is_digit b = between b'0' b'9' b

-- Digits with the checked multiplication and addition of `from_str_radix`.
digits : ℕ → List ℕ → Option ℕ
unfolding is_digit
digits acc [] = some acc
digits acc (b ∷ bs) =
    let next = acc * 10 + (b - b'0') in
    let rest = digits next bs in if is_digit b && leb next u32_max then rest else none

-- `str::parse::<u32>().ok()`: a leading `+` is allowed, and digits are wanted after it.
unfoldable pub parse_u32 : List ℕ → Option ℕ
unfolding digits
parse_u32 [] = none
parse_u32 (b ∷ []) = if b == b'+' then none else digits 0 (b ∷ [])
parse_u32 (b ∷ c ∷ bs) = if b == b'+' then digits 0 (c ∷ bs) else digits 0 (b ∷ c ∷ bs)

show_onto : ℕ → ℕ → List ℕ → List ℕ
show_onto zero n rest = rest
show_onto (suc fuel) n rest =
    let more = show_onto fuel (n / 10) ((b'0' + n % 10) ∷ rest) in
    if ltb n 10 then (b'0' + n) ∷ rest else more

-- `n.to_string()`. A number has fewer than `n + 1` digits.
unfoldable pub to_string : ℕ → List ℕ
unfolding show_onto
to_string n = show_onto (n + 1) n []
