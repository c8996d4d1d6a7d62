-- ===== src/Pane/Manager/Ids.antt =====
-- The ids that the two tables give out, and what becomes of the panes.
use tepegoz.Prelude.{
  ℕ, ◌+◌, ◌%◌, ◌≤◌, ◌<◌, ◌≡◌, ◌∙◌, none, some, List, [], ◌∷◌, arith, ◌==◌, if◌then◌else◌,
  Bool-cases, Option-cases, inl, inr,
}
use tepegoz.Pane.Manager.{
  Manager, lookup, remove, open_local, open_remote, get, close, take_id, insert, u64_mod,
}

module _ {ℓ} {P : Type ℓ} where
  abbrev pub Between : ℕ → ℕ → List (ℕ × P) → Type 0
  Between lo hi [] = Unit
  Between lo hi ((k, p) ∷ t) = (lo ≤ k) × (k < hi) × Between lo hi t

  -- Every id of the table was given out, from `lo` on.
  pub record GivenOut (lo : ℕ) (m : Manager P) : Type 0 where
    pub given : Between lo m.next_id m.panes
    pub from : lo ≤ m.next_id

  pub Between-remove :
      (lo hi id : ℕ) (t : List (ℕ × P)) → Between lo hi t → Between lo hi (remove id t)
  unfolding remove
  Between-remove lo hi id [] h = tt
  Between-remove lo hi id ((k, p) ∷ t) h = ground (arith, Between-remove lo hi id t h.2)

  Between-suc : (lo hi : ℕ) (t : List (ℕ × P)) → Between lo hi t → Between lo (hi + 1) t
  Between-suc lo hi [] h = tt
  Between-suc lo hi ((k, p) ∷ t) h = (h.0, omega arith, Between-suc lo hi t h.2)

  pub lookup-outside :
      (lo hi id : ℕ) (t : List (ℕ × P)) (p : P)
      → Between lo hi t
      → lookup id t ≡ some p
      → (lo ≤ id) × (id < hi)
  unfolding lookup
  lookup-outside lo hi id [] p b h = cc
  lookup-outside lo hi id ((k, q) ∷ t) p b h = ground (arith, lookup-outside lo hi id t p b.2)

  lookup-remove :
      (id j : ℕ) (t : List (ℕ × P))
      → lookup j (remove id t) ≡ (if id == j then none else lookup j t)
  unfolding lookup remove
  lookup-remove id j [] = ground arith
  lookup-remove id j ((k, p) ∷ t) = ground (arith, lookup-remove id j t)

  lookup-remove_self : (id : ℕ) (t : List (ℕ × P)) → lookup id (remove id t) ≡ none
  lookup-remove_self id t = lookup-remove id id t ∙ ground arith

  lookup-insert :
      (id j : ℕ) (p : P) (t : List (ℕ × P))
      → lookup j ((id, p) ∷ remove id t) ≡ (if id == j then some p else lookup j t)
  unfolding lookup
  lookup-insert id j p t = elim (Bool-cases (id == j)) [
    | inl e ↦ rw e
    | inr e ↦ rw (e, lookup-remove id j t, e)
  ]

  pub insert-GivenOut :
      (lo : ℕ) (m : Manager P) (p : P)
      → m.next_id + 1 < u64_mod
      → GivenOut lo m
      → GivenOut lo (insert (take_id m) m.next_id p)
  unfolding insert take_id
  insert-GivenOut lo m p h g =
      let e : (m.next_id + 1) % u64_mod ≡ m.next_id + 1 = omega arith in
      rw e (record {
        given = (
          g.from,
          omega arith,
          Between-suc lo m.next_id _ (Between-remove lo m.next_id m.next_id m.panes g.given),
        );
        from = omega (arith, g.from);
      })

  pub take_id-GivenOut :
      (lo : ℕ) (m : Manager P) → m.next_id + 1 < u64_mod → GivenOut lo m → GivenOut lo (take_id m)
  unfolding take_id
  take_id-GivenOut lo m h g =
      let e : (m.next_id + 1) % u64_mod ≡ m.next_id + 1 = omega arith in
      rw e
        (record { given = Between-suc lo m.next_id m.panes g.given; from = omega (arith, g.from) })

  -- In a table whose ids were all given out, a pane that is opened gets an id that no pane has,
  -- and that is how it is found; the others are found as before. The tables of local and of remote
  -- panes agree in this.
  pub get-open :
      (lo id j : ℕ) (m : Manager P) (p : P)
      → GivenOut lo m
      → (open_local m (some p)).1 ≡ some id
      → (get m id ≡ none)
        × (get (open_local m (some p)).0 j ≡ (if id == j then some p else get m j))
        × (get (open_remote m (some p)).0 j ≡ (if id == j then some p else get m j))
  unfolding open_local open_remote get insert take_id
  get-open lo id j m p g e = let e' : m.next_id ≡ id = cc in rw (← e') (fresh, found, found)
    where
      fresh : lookup m.next_id m.panes ≡ none
      fresh = elim (Option-cases (lookup m.next_id m.panes)) [
        | inl n ↦ n
        | inr (q, s) ↦
            absurd (omega (arith, lookup-outside lo m.next_id m.next_id m.panes q g.given s))
      ]

      found :
          lookup j ((m.next_id, p) ∷ remove m.next_id m.panes)
          ≡ (if m.next_id == j then some p else lookup j m.panes)
      found = lookup-insert m.next_id j p m.panes

  -- A pane that is found can be closed; then it is not found any more, the others are found as
  -- before, and it cannot be closed again.
  pub get-close :
      (m : Manager P) (id j : ℕ) (p : P)
      → get m id ≡ some p
      → (m' : Manager P) × (close m id ≡ some m')
        × (get m' j ≡ (if id == j then none else get m j))
        × (close m' id ≡ none)
  unfolding close get
  get-close m id j p h = (
    record m { panes = remove id m.panes },
    rw (h, close),
    lookup-remove id j m.panes,
    rw (lookup-remove_self id m.panes, close),
  )
