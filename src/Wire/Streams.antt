-- ===== src/Wire/Streams.antt =====
-- A stream of envelopes is read back as it was written, and the loop that reads it comes to an end:
-- `read_envelope` and `write_envelope` of crates/tepegoz-proto/src/codec.rs, and the loop of
-- `run_envelope_parser` in crates/tepegoz-core/src/agent.rs.
use tepegoz.Prelude.{
  ◌⊎◌, result_of, ℕ, zero, suc, ◌+◌, ◌≤◌, ◌<◌, ◌≡◌, refl, ap, ◌∙◌, true, false, some, List, [], ◌∷◌,
  ◌++◌, arith, ltb, leb, length, length-append, >>=-eq-some, Option-cases, Bool-cases, inl, inr,
  All,
}
use tepegoz.Text.{u32_max}
use tepegoz.Wire.{
  Rkyv, IsFaithful, max_frame_size, to_be_bytes, from_be_bytes, read_exact, ReadError,
  unexpected_eof, frame_too_large, ReadResult, received, failed, write_envelope, decode, read_body,
  read_frame, read_envelope, read_all, write_all,
}
use tepegoz.Wire.Frames.{write_envelope_frame, read_envelope-frame, read_exact-length}

ReadResult-cases :
    {Envelope : Type 0} (r : ReadResult Envelope)
    → ((error : ReadError) × (r ≡ failed error))
      ⊎ ((envelope : Envelope) × (rest : List ℕ) × (r ≡ received envelope rest))
ReadResult-cases (failed error) = inl (error, refl)
ReadResult-cases (received envelope rest) = inr (envelope, rest, refl)

module _ {Envelope : Type 0} (rkyv : Rkyv Envelope) where
  -- An envelope that takes no more bytes than the reader accepts.
  abbrev pub Fits : Envelope → Type 0
  Fits envelope =
      (bytes : List ℕ) → rkyv.to_bytes envelope ≡ some bytes → length bytes ≤ max_frame_size

  -- An envelope that fits a frame and was written is read back, and what follows it is left.
  pub read_envelope-write_envelope :
      (envelope : Envelope) {frame : List ℕ} (rest : List ℕ)
      → IsFaithful rkyv
      → Fits envelope
      → write_envelope rkyv envelope ≡ some frame
      → read_envelope rkyv (frame ++ rest) ≡ received envelope rest
  unfolding decode
  read_envelope-write_envelope envelope rest faithful fits e =
      let (bytes, e1, e2, e3) = write_envelope_frame rkyv envelope e in
      let small : ltb max_frame_size (length bytes) ≡ false = ground (arith, fits bytes e1) in
      ap (λ w. read_envelope rkyv (w ++ rest)) e3
      ∙ read_envelope-frame rkyv bytes rest e2
      ∙ rw (small, faithful envelope bytes e1) refl

  -- An envelope of more than 16 MiB and less than 4 GiB is written without an error, and the reader
  -- ends with an error at it.
  pub write_envelope_unread :
      (envelope : Envelope) (bytes rest : List ℕ)
      → rkyv.to_bytes envelope ≡ some bytes
      → max_frame_size < length bytes
      → length bytes ≤ u32_max
      → (write_envelope rkyv envelope ≡ some (to_be_bytes (length bytes) ++ bytes))
        × (read_envelope rkyv ((to_be_bytes (length bytes) ++ bytes) ++ rest)
            ≡ failed (frame_too_large (length bytes)))
  unfolding write_envelope
  write_envelope_unread envelope bytes rest e large below =
      let fits : leb (length bytes) u32_max ≡ true = ground arith in
      let over : ltb max_frame_size (length bytes) ≡ true = ground arith in
      (rw (e, fits) refl, read_envelope-frame rkyv bytes rest below ∙ rw over refl)

  read_all-received :
      {envelope : Envelope} {rest : List ℕ} (fuel : ℕ) (stream : List ℕ)
      → read_envelope rkyv stream ≡ received envelope rest
      → read_all rkyv (suc fuel) stream
        ≡ (envelope ∷ (read_all rkyv fuel rest).0, (read_all rkyv fuel rest).1)
  unfolding read_all
  read_all-received fuel stream e = rw (e, read_all) refl

  read_all-end : (fuel : ℕ) → read_all rkyv (suc fuel) [] ≡ ([], some unexpected_eof)
  unfolding read_all read_envelope read_exact read_frame
  read_all-end fuel = refl

  -- A series of envelopes that fit and were written is read back by the loop, which then meets the end
  -- of the stream.
  pub read_all-write_all :
      (envelopes : List Envelope) {stream : List ℕ} (fuel : ℕ)
      → IsFaithful rkyv
      → All Fits envelopes
      → write_all rkyv envelopes ≡ some stream
      → length envelopes < fuel
      → read_all rkyv fuel stream ≡ (envelopes, some unexpected_eof)
  unfolding write_all
  read_all-write_all envelopes zero faithful fits e enough = elim enough [ ]
  read_all-write_all [] (suc fuel) faithful fits e enough =
      result_of (λ s. read_all rkyv (suc fuel) s ≡ ([], some unexpected_eof)) e (read_all-end fuel)
  read_all-write_all (x ∷ xs) (suc fuel) faithful fits e enough =
      let (frame, e1, e2) = >>=-eq-some (write_envelope rkyv x) _ e in
      let (frames, e3, e4) = >>=-eq-some (write_all rkyv xs) _ e2 in
      let next = read_envelope-write_envelope x frames faithful fits.0 e1 in
      let more = read_all-write_all xs fuel faithful fits.1 e3 (omega (arith, enough)) in
      result_of (λ s. read_all rkyv (suc fuel) s ≡ (x ∷ xs, some unexpected_eof)) e4
        (read_all-received fuel (frame ++ frames) next ∙ rw more refl)

  read_body-shorter :
      (len : ℕ) (stream : List ℕ) {envelope : Envelope} {rest : List ℕ}
      → read_body rkyv (read_exact len stream) ≡ received envelope rest
      → length rest ≤ length stream
  unfolding read_body decode
  read_body-shorter len stream {rest = rest} e = elim (Option-cases (read_exact len stream)) [
    | inl f ↦ let no = rw f at e in cc
    | inr (r, f) ↦ elim (Option-cases (rkyv.from_bytes r.0)) [
      | inl g ↦ let no = rw (f, g) at e in cc
      | inr (x, g) ↦
          let found = rw (f, g) at e in
          let same : r.1 ≡ rest = cc in
          let whole = ap length (read_exact-length len stream f).0 ∙ length-append r.0 r.1 in
          omega (arith, whole, ap length same)
    ]
  ]

  -- Every envelope takes the four bytes of its length off the stream, and maybe more.
  read_envelope-shorter :
      (stream : List ℕ) {envelope : Envelope} {rest : List ℕ}
      → read_envelope rkyv stream ≡ received envelope rest
      → length rest + 4 ≤ length stream
  unfolding read_envelope read_frame
  read_envelope-shorter stream e = elim (Option-cases (read_exact 4 stream)) [
    | inl f ↦ let no = rw f at e in cc
    | inr (r, f) ↦ elim (Bool-cases (ltb max_frame_size (from_be_bytes r.0))) [
      | inl g ↦ let no = rw (f, g) at e in cc
      | inr g ↦
          let body = read_body-shorter (from_be_bytes r.0) r.1 (rw (f, g) at e) in
          let (split, four) = read_exact-length 4 stream f in
          let whole = ap length split ∙ length-append r.0 r.1 in omega (arith, body, whole, four)
    ]
  ]

  -- The loop ends on every stream: with as much fuel as the stream has bytes, and one more, it meets an
  -- error, be it the end of the stream.
  pub read_all_ends :
      (fuel : ℕ) (stream : List ℕ)
      → length stream < fuel
      → (error : ReadError) × ((read_all rkyv fuel stream).1 ≡ some error)
  unfolding read_all
  read_all_ends zero stream enough = elim enough [ ]
  read_all_ends (suc fuel) stream enough = elim (ReadResult-cases (read_envelope rkyv stream)) [
    | inl (error, e) ↦ (error, rw (e, read_all) refl)
    | inr (envelope, rest, e) ↦
        let shorter = read_envelope-shorter stream e in
        let (error, ends) = read_all_ends fuel rest (omega (arith, shorter, enough)) in
        (error, ap (λ r. r.1) (read_all-received fuel stream e) ∙ ends)
  ]
