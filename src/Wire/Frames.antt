-- ===== src/Wire/Frames.antt =====
-- What is written to a stream is read from it again: crates/tepegoz-proto/src/codec.rs.
use tepegoz.Prelude.{
  result_of, ℕ, zero, suc, ◌≤◌, ◌≡◌, refl, ap, some, List, [], ◌∷◌, ◌++◌, arith, ltb, leb,
  if◌then◌else◌, length, >>=-eq-some, Bool-cases, inl, inr,
}
use tepegoz.Text.{u32_max}
use tepegoz.Wire.{
  Rkyv, max_frame_size, to_be_bytes, from_be_bytes, read_exact, frame_too_large, failed,
  write_envelope, decode, read_body, read_frame, read_envelope,
}

from_be_bytes-to_be_bytes : (n : ℕ) → n ≤ u32_max → from_be_bytes (to_be_bytes n) ≡ n
unfolding from_be_bytes to_be_bytes
from_be_bytes-to_be_bytes n h = omega arith

pub read_exact-append : (bs rest : List ℕ) → read_exact (length bs) (bs ++ rest) ≡ some (bs, rest)
unfolding read_exact
read_exact-append [] rest = refl
read_exact-append (b ∷ bs) rest = rw (read_exact-append bs rest) refl

-- What was read is the front of the stream.
pub read_exact-length :
    (n : ℕ) (stream : List ℕ) {r : List ℕ × List ℕ}
    → read_exact n stream ≡ some r
    → (stream ≡ r.0 ++ r.1) × (length r.0 ≡ n)
unfolding read_exact
read_exact-length zero stream e =
    result_of (λ r. (stream ≡ r.0 ++ r.1) × (length r.0 ≡ 0)) e (refl, refl)
read_exact-length (suc n) [] e = cc
read_exact-length (suc n) (b ∷ stream) e =
    let (q, e1, e2) = >>=-eq-some (read_exact n stream) _ e in
    let (s1, s2) = read_exact-length n stream e1 in
    result_of (λ r. (b ∷ stream ≡ r.0 ++ r.1) × (length r.0 ≡ suc n)) e2 (ap (◌∷◌ b) s1, ap suc s2)

module _ {Envelope : Type 0} (rkyv : Rkyv Envelope) where
  -- A frame is the length of the envelope's bytes, and these.
  pub write_envelope_frame :
      (envelope : Envelope) {frame : List ℕ}
      → write_envelope rkyv envelope ≡ some frame
      → (bytes : List ℕ) × (rkyv.to_bytes envelope ≡ some bytes)
        × (length bytes ≤ u32_max)
        × (frame ≡ to_be_bytes (length bytes) ++ bytes)
  unfolding write_envelope
  write_envelope_frame envelope {frame} e =
      let (bytes, e1, e2) = >>=-eq-some (rkyv.to_bytes envelope) _ e in
      elim (Bool-cases (leb (length bytes) u32_max)) [
        | inl f ↦
            let same = rw f at e2 in
            (
              bytes,
              e1,
              ground arith,
              result_of (λ w. w ≡ to_be_bytes (length bytes) ++ bytes) same refl,
            )
        | inr f ↦ let none_left = rw f at e2 in cc
      ]

  pub read_envelope-frame :
      (bytes rest : List ℕ)
      → length bytes ≤ u32_max
      → read_envelope rkyv ((to_be_bytes (length bytes) ++ bytes) ++ rest) ≡ (
          if ltb max_frame_size (length bytes)
          then failed (frame_too_large (length bytes))
          else decode rkyv (rkyv.from_bytes bytes) rest)
  unfolding read_envelope read_frame read_body read_exact to_be_bytes
  read_envelope-frame bytes rest h =
      rw (from_be_bytes-to_be_bytes (length bytes) h, read_exact-append bytes rest) refl
