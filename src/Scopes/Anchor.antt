-- ===== src/Scopes/Anchor.antt =====
-- Where `reanchor_selection` of crates/tepegoz-tui/src/app.rs puts the selection.
use tepegoz.Prelude.{
  ℕ, zero, suc, ◌+◌, ◌-◌, ◌≤◌, ◌<◌, ◌≡◌, refl, ap, ◌∙◌, Bool, true, Option, none, some, List, [],
  ◌∷◌, arith, leb, if◌then◌else◌, Bool-cases, Option-cases, inl, inr, length, is_empty, get_elem?,
  position, position_from,
}
use tepegoz.Scopes.{RowOps, find_key, anchor}

-- The first row that passes a test.
abbrev pub At : {A : Type 0} → (A → Bool) → List A → ℕ → Type 0
At {A} p rows i = (r : A) × (get_elem? rows i ≡ some r) × (p r ≡ true)

position_from-some :
    {A : Type 0} (p : A → Bool) (n : ℕ) (rows : List A) (j : ℕ)
    → At p rows j
    → (i : ℕ) × (position_from n p rows ≡ some (n + i)) × (i ≤ j) × At p rows i
position_from-some p n [] j (r, here, passes) = cc
position_from-some p n (x ∷ rows) zero (r, here, passes) =
    let e : p x ≡ true = cc in (0, rw e (ap some (omega arith)), omega arith, (x, refl, e))
position_from-some p n (x ∷ rows) (suc j) (r, here, passes) = elim (Bool-cases (p x)) [
  | inl e ↦ (0, rw e (ap some (omega arith)), omega arith, (x, refl, e))
  | inr e ↦
      let (i, found, before, at) = position_from-some p (suc n) rows j (r, here, passes) in
      (suc i, rw e (found ∙ ap some (omega arith)), omega (arith, before), at)
]

position_from-At :
    {A : Type 0} (p : A → Bool) (n : ℕ) (rows : List A) (k : ℕ)
    → position_from n p rows ≡ some k
    → (i : ℕ) × (k ≡ n + i) × At p rows i × (i < length rows)
position_from-At p n [] k h = cc
position_from-At p n (x ∷ rows) k h = elim (Bool-cases (p x)) [
  | inl e ↦ (0, ground arith, (x, refl, e), omega arith)
  | inr e ↦
      let found : position_from (suc n) p rows ≡ some k = ground arith in
      let (i, is, at, small) = position_from-At p (suc n) rows k found in
      (suc i, omega (arith, is), at, omega (arith, small))
]

module _ {Row Key : Type 0} (ops : RowOps Row Key) where
  -- Row number i has the key.
  abbrev pub HasKey : Key → List Row → ℕ → Type 0
  HasKey key rows i = (r : Row) × (get_elem? rows i ≡ some r) × (ops.key_of r ≡ key)

  clamp-small :
      (rows : List Row) (selection : ℕ)
      → (if is_empty rows
          then 0
          else if leb (length rows) selection
          then length rows - 1
          else selection)
        ≤ length rows - 1
  clamp-small [] selection = omega arith
  clamp-small (r ∷ rows) selection = ground arith

  pub anchor-small :
      (old_key : Option Key) (rows : List Row) (selection : ℕ)
      → anchor ops old_key rows selection ≤ length rows - 1
  unfolding anchor find_key
  anchor-small none rows selection = clamp-small rows selection
  anchor-small (some key) rows selection =
      elim (Option-cases (position (λ r. ops.same_key (ops.key_of r) key) rows)) [
        | inl e ↦ rw (e, anchor) (clamp-small rows selection)
        | inr (idx, e) ↦
            let (i, is, at, small) =
              position_from-At (λ r. ops.same_key (ops.key_of r) key) 0 rows idx e in
            rw (e, anchor) (omega (arith, is, small))
      ]

  -- A key that some row has is found, at the first row that has it.
  pub anchor-HasKey :
      (key : Key) (rows : List Row) (selection j : ℕ)
      → HasKey key rows j
      → let i = anchor ops (some key) rows selection in (i ≤ j) × HasKey key rows i
  unfolding anchor find_key
  anchor-HasKey key rows selection j (r, here, same) =
      let (i, found, before, (r', here', same')) =
        position_from-some (λ r. ops.same_key (ops.key_of r) key) 0 rows j
          (r, here, (ops.same_key_iff (ops.key_of r) key).1 same) in
      let found_0 : position (λ r. ops.same_key (ops.key_of r) key) rows ≡ some i =
        found ∙ ap some (omega arith) in
      rw (found_0, anchor) (before, (r', here', (ops.same_key_iff (ops.key_of r') key).0 same'))

  clamp_le :
      (rows : List Row) (selection : ℕ)
      → (if is_empty rows
          then 0
          else if leb (length rows) selection
          then length rows - 1
          else selection)
        ≤ selection
  clamp_le [] selection = omega arith
  clamp_le (r ∷ rows) selection = ground arith

  -- No key to find: the selection stays, or comes down to the last row.
  pub anchor-none : (rows : List Row) (selection : ℕ) → anchor ops none rows selection ≤ selection
  unfolding anchor find_key
  anchor-none rows selection = clamp_le rows selection
