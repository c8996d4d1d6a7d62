-- ===== src/Text/Same.antt =====
-- Equality of two texts, as `==` on `String` decides it, and `str::contains`.
use tepegoz.Prelude.{ℕ, ◌≡◌, ◌↔◌, Bool, true, false, List, [], ◌∷◌, arith, ◌==◌, ◌&&◌, ◌||◌}

unfoldable pub same_text : List ℕ → List ℕ → Bool
same_text [] [] = true
same_text [] (c ∷ cs) = false
same_text (b ∷ bs) [] = false
same_text (b ∷ bs) (c ∷ cs) = (b == c) && same_text bs cs

pub same_text_iff : (bs cs : List ℕ) → (same_text bs cs ≡ true) ↔ (bs ≡ cs)
unfolding same_text
same_text_iff [] [] = ground arith
same_text_iff [] (c ∷ cs) = ground arith
same_text_iff (b ∷ bs) [] = ground arith
same_text_iff (b ∷ bs) (c ∷ cs) = ground (arith, same_text_iff bs cs)

starts_with : List ℕ → List ℕ → Bool
starts_with bs [] = true
starts_with [] (c ∷ cs) = false
starts_with (b ∷ bs) (c ∷ cs) = (b == c) && starts_with bs cs

-- `haystack.contains(needle)`
unfoldable pub contains_text : List ℕ → List ℕ → Bool
unfolding starts_with
contains_text [] needle = starts_with [] needle
contains_text (b ∷ bs) needle = starts_with (b ∷ bs) needle || contains_text bs needle
