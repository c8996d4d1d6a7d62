-- ===== src/Text/Split.antt =====
-- `str::split` takes apart what is joined by the separator.
use tepegoz.Prelude.{ℕ, ◌≡◌, ◌≢◌, refl, List, [], ◌∷◌, ◌++◌, arith, All}
use tepegoz.Text.{split}

pub split-cons :
    (c : ℕ) (part rest : List ℕ)
    → All (λ b. b ≢ c) part
    → split c (part ++ c ∷ rest) ≡ part ∷ split c rest
unfolding split
split-cons c [] rest h = ground arith
split-cons c (b ∷ part) rest h = ground (arith, split-cons c part rest h.1, h.0)

pub split-one : (c : ℕ) (part : List ℕ) → All (λ b. b ≢ c) part → split c part ≡ part ∷ []
unfolding split
split-one c [] h = refl
split-one c (b ∷ part) h = ground (arith, split-one c part h.1, h.0)
