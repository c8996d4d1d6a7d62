-- ===== src/Text/Ascii.antt =====
-- ASCII bytes are valid UTF-8.
use tepegoz.Prelude.{ℕ, ◌<◌, ◌≡◌, refl, some, List, [], ◌∷◌, arith, true, All}
use tepegoz.Text.{start, lead, is_utf8_from, from_utf8}

lead-ascii : (b : ℕ) → b < 128 → lead b ≡ some start
unfolding lead
lead-ascii b h = ground arith

is_utf8-ascii : (bs : List ℕ) → All (λ b. b < 128) bs → is_utf8_from start bs ≡ true
unfolding is_utf8_from
is_utf8-ascii [] h = refl
is_utf8-ascii (b ∷ bs) h = rw (lead-ascii b h.0, is_utf8_from) (is_utf8-ascii bs h.1)

pub from_utf8-ascii : (bs : List ℕ) → All (λ b. b < 128) bs → from_utf8 bs ≡ some bs
unfolding from_utf8
from_utf8-ascii bs h = rw (is_utf8-ascii bs h)
