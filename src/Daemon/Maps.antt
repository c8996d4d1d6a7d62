-- ===== src/Daemon/Maps.antt =====
-- `HashMap` with numbers and with texts for keys, as association lists in which the first entry of a key
-- counts. `put` and `remove` leave no other entry of the key.
use tepegoz.Prelude.{
  ℕ, ◌≡◌, ◌≢◌, refl, true, false, Option, none, some, List, [], ◌∷◌, ◌==◌, if◌then◌else◌,
  Bool-cases, inl, inr, arith, ==_iff,
}
use tepegoz.Text.Same.{same_text, same_text_iff}

module _ {ℓ} {V : Type ℓ} where
  unfoldable pub get : ℕ → List (ℕ × V) → Option V
  get k [] = none
  get k ((j, v) ∷ m) = if j == k then some v else get k m

  unfoldable pub remove : ℕ → List (ℕ × V) → List (ℕ × V)
  remove k [] = []
  remove k ((j, v) ∷ m) = let rest = remove k m in if j == k then rest else (j, v) ∷ rest

  abbrev pub put : ℕ → V → List (ℕ × V) → List (ℕ × V)
  put k v m = (k, v) ∷ remove k m

  pub get-remove_self : (k : ℕ) (m : List (ℕ × V)) → get k (remove k m) ≡ none
  unfolding get remove
  get-remove_self k [] = refl
  get-remove_self k ((j, v) ∷ m) = elim (Bool-cases (j == k)) [
    | inl e ↦ rw e (get-remove_self k m)
    | inr e ↦ rw (e, e) (get-remove_self k m)
  ]

  pub get-remove_ne : (k i : ℕ) (m : List (ℕ × V)) → k ≢ i → get k (remove i m) ≡ get k m
  unfolding get remove
  get-remove_ne k i [] h = refl
  get-remove_ne k i ((j, v) ∷ m) h = elim (Bool-cases (j == i)) [
    | inl e ↦
        let f : (j == k) ≡ false = ground (arith, (==_iff j i).0 e, h) in
        rw (e, f) (get-remove_ne k i m h)
    | inr e ↦ elim (Bool-cases (j == k)) [
      | inl f ↦ rw (e, f) refl
      | inr f ↦ rw (e, f) (get-remove_ne k i m h)
    ]
  ]

  pub get-put_self : (k : ℕ) (v : V) (m : List (ℕ × V)) → get k (put k v m) ≡ some v
  unfolding get
  get-put_self k v m = let e : (k == k) ≡ true = ground arith in rw e refl

  pub get-put_ne : (k i : ℕ) (v : V) (m : List (ℕ × V)) → k ≢ i → get k (put i v m) ≡ get k m
  unfolding get
  get-put_ne k i v m h =
      let e : (i == k) ≡ false = ground (arith, h) in rw e (get-remove_ne k i m h)

  unfoldable pub pool_get : List ℕ → List (List ℕ × V) → Option V
  pool_get k [] = none
  pool_get k ((j, v) ∷ m) = if same_text j k then some v else pool_get k m

  unfoldable pub pool_remove : List ℕ → List (List ℕ × V) → List (List ℕ × V)
  pool_remove k [] = []
  pool_remove k ((j, v) ∷ m) =
      let rest = pool_remove k m in if same_text j k then rest else (j, v) ∷ rest

  abbrev pub pool_put : List ℕ → V → List (List ℕ × V) → List (List ℕ × V)
  pool_put k v m = (k, v) ∷ pool_remove k m

  pub pool_get-put_self :
      (k : List ℕ) (v : V) (m : List (List ℕ × V)) → pool_get k (pool_put k v m) ≡ some v
  unfolding pool_get
  pool_get-put_self k v m = rw ((same_text_iff k k).1 refl) refl
