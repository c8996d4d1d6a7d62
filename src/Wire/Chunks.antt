-- ===== src/Wire/Chunks.antt =====
-- Without a tick in the middle of a frame the session reads what arrives as one stream, however it is
-- cut into chunks: `session` of crates/tepegoz-core/src/client.rs.
use tepegoz.Prelude.{
  result_of, ◌⊎◌, ℕ, zero, suc, ◌+◌, ◌≤◌, ◌<◌, ◌≡◌, refl, ap, ◌∙◌, some, List, [], ◌∷◌, ◌++◌, arith,
  ltb, length, length-append, >>=-eq-some, Option-cases, Bool-cases, inl, inr,
}
use tepegoz.Wire.{Rkyv, max_frame_size, from_be_bytes, read_exact, ReadError}
use tepegoz.Wire.Frames.{read_exact-length}
use tepegoz.Wire.Session.{
  Poll, pending, ready, broken, poll_decoded, poll_body, poll_peek, poll_frame, poll,
}

read_exact-more :
    (n : ℕ) (stream more : List ℕ) {r : List ℕ × List ℕ}
    → read_exact n stream ≡ some r
    → read_exact n (stream ++ more) ≡ some (r.0, r.1 ++ more)
unfolding read_exact
read_exact-more zero stream more e =
    result_of (λ r. read_exact zero (stream ++ more) ≡ some (r.0, r.1 ++ more)) e refl
read_exact-more (suc n) [] more e = cc
read_exact-more (suc n) (b ∷ stream) more e =
    let (q, e1, e2) = >>=-eq-some (read_exact n stream) _ e in
    result_of (λ r. read_exact (suc n) (b ∷ stream ++ more) ≡ some (r.0, r.1 ++ more)) e2
      (rw (read_exact-more n stream more e1) refl)

pub Poll-cases :
    {Envelope : Type 0} (p : Poll Envelope)
    → (p ≡ pending)
      ⊎ (((error : ReadError) × (p ≡ broken error))
          ⊎ ((envelope : Envelope) × (rest : List ℕ) × (p ≡ ready envelope rest)))
Poll-cases pending = inl refl
Poll-cases (broken error) = inr (inl (error, refl))
Poll-cases (ready envelope rest) = inr (inr (envelope, rest, refl))

module _ {Envelope : Type 0} (rkyv : Rkyv Envelope) where
  -- What a poll says of the bytes that are held, and what it says of more.
  abbrev pub Goes : Poll Envelope → List ℕ → Poll Envelope → Type 0
  Goes pending more q = Unit
  Goes (broken error) more q = q ≡ broken error
  Goes (ready envelope rest) more q = q ≡ ready envelope (rest ++ more)

  poll_body-more :
      (n : ℕ) (stream more : List ℕ)
      → Goes
          (poll_body rkyv (read_exact n stream))
          more
          (poll_body rkyv (read_exact n (stream ++ more)))
  unfolding poll_body poll_decoded
  poll_body-more n stream more = elim (Option-cases (read_exact n stream)) [
    | inl f ↦ rw f tt
    | inr (r, f) ↦ elim (Option-cases (rkyv.from_bytes r.0)) [
      | inl g ↦ rw (f, read_exact-more n stream more f, g) refl
      | inr (x, g) ↦ rw (f, read_exact-more n stream more f, g) refl
    ]
  ]

  poll_peek-more :
      (len : ℕ) (stream more : List ℕ)
      → Goes
          (poll_peek rkyv len (read_exact 32 stream))
          more
          (poll_peek rkyv len (read_exact 32 (stream ++ more)))
  unfolding poll_peek
  poll_peek-more len stream more = elim (Option-cases (read_exact 32 stream)) [
    | inl f ↦ rw f tt
    | inr (r, f) ↦ rw (f, read_exact-more 32 stream more f) refl
  ]

  pub poll-more : (held more : List ℕ) → Goes (poll rkyv held) more (poll rkyv (held ++ more))
  unfolding poll poll_frame
  poll-more held more = elim (Option-cases (read_exact 4 held)) [
    | inl f ↦ rw f tt
    | inr (r, f) ↦ elim (Bool-cases (ltb max_frame_size (from_be_bytes r.0))) [
      | inl g ↦
          rw (f, read_exact-more 4 held more f, g) (poll_peek-more (from_be_bytes r.0) r.1 more)
      | inr g ↦
          rw (f, read_exact-more 4 held more f, g) (poll_body-more (from_be_bytes r.0) r.1 more)
    ]
  ]

  -- A frame that is read takes its length off what is held.
  abbrev Shorter : List ℕ → Poll Envelope → Type 0
  Shorter held pending = Unit
  Shorter held (broken error) = Unit
  Shorter held (ready envelope rest) = length rest ≤ length held

  poll_body-Shorter :
      (n : ℕ) (stream : List ℕ) → Shorter stream (poll_body rkyv (read_exact n stream))
  unfolding poll_body poll_decoded
  poll_body-Shorter n stream = elim (Option-cases (read_exact n stream)) [
    | inl f ↦ rw f tt
    | inr (r, f) ↦ elim (Option-cases (rkyv.from_bytes r.0)) [
      | inl g ↦ rw (f, g) tt
      | inr (x, g) ↦
          let whole = ap length (read_exact-length n stream f).0 ∙ length-append r.0 r.1 in
          rw (f, g) (omega (arith, whole))
    ]
  ]

  poll_peek-Shorter :
      (len : ℕ) (stream : List ℕ) → Shorter stream (poll_peek rkyv len (read_exact 32 stream))
  unfolding poll_peek
  poll_peek-Shorter len stream = elim (Option-cases (read_exact 32 stream)) [
    | inl f ↦ rw f tt
    | inr (r, f) ↦ rw f tt
  ]

  weaken :
      (p : Poll Envelope) (held rest : List ℕ)
      → length rest + 4 ≤ length held
      → Shorter rest p
      → (envelope : Envelope) (more : List ℕ) → p ≡ ready envelope more
      → length more < length held
  weaken pending held rest h k envelope more e = cc
  weaken (broken error) held rest h k envelope more e = cc
  weaken (ready x xs) held rest h k envelope more e =
      let same : xs ≡ more = cc in omega (arith, h, k, ap length same)

  pub poll-shorter :
      (held : List ℕ) {envelope : Envelope} {rest : List ℕ}
      → poll rkyv held ≡ ready envelope rest
      → length rest < length held
  unfolding poll poll_frame
  poll-shorter held {envelope} {rest} e = elim (Option-cases (read_exact 4 held)) [
    | inl f ↦ let no = rw f at e in cc
    | inr (r, f) ↦
        let (split, four) = read_exact-length 4 held f in
        let whole = ap length split ∙ length-append r.0 r.1 in
        elim (Bool-cases (ltb max_frame_size (from_be_bytes r.0))) [
          | inl g ↦
              weaken _ held r.1 (omega (arith, whole, four))
                (poll_peek-Shorter (from_be_bytes r.0) r.1) envelope rest (rw (f, g) at e)
          | inr g ↦
              weaken _ held r.1 (omega (arith, whole, four))
                (poll_body-Shorter (from_be_bytes r.0) r.1) envelope rest (rw (f, g) at e)
        ]
  ]
