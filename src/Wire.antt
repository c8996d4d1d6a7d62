-- ===== src/Wire.antt =====
-- The frames of the wire protocol: `write_envelope` and `read_envelope` of
-- crates/tepegoz-proto/src/codec.rs. A stream is the list of the bytes up to its end. The serialization
-- of an envelope is the rkyv crate's and is a parameter.
pub mod Frames
pub mod Streams
pub mod Session
pub mod Chunks
pub mod Quiet
pub mod Delivery
mod Tests
use tepegoz.Prelude.{
  ℕ, zero, suc, ◌+◌, ◌*◌, ◌/◌, ◌%◌, ◌≡◌, Bool, true, false, Option, none, some, List, [], ◌∷◌, ◌++◌,
  ltb, leb, if◌then◌else◌, length, ◌>>=◌,
}
use tepegoz.Text.{u32_max}

-- `rkyv::to_bytes` and `rkyv::from_bytes`; either may fail.
pub record Rkyv (Envelope : Type 0) : Type 0 where
  pub to_bytes : Envelope → Option (List ℕ)
  pub from_bytes : List ℕ → Option Envelope

module _ {Envelope : Type 0} where
  -- What is written is read back.
  abbrev pub IsFaithful : Rkyv Envelope → Type 0
  IsFaithful rkyv =
      (envelope : Envelope) (bytes : List ℕ)
      → rkyv.to_bytes envelope ≡ some bytes
      → rkyv.from_bytes bytes ≡ some envelope

abbrev pub max_frame_size : ℕ
max_frame_size = 16 * 1024 * 1024

-- `u32::to_be_bytes` and `u32::from_be_bytes`
unfoldable pub to_be_bytes : ℕ → List ℕ
to_be_bytes n = (n / 16777216 % 256) ∷ (n / 65536 % 256) ∷ (n / 256 % 256) ∷ (n % 256) ∷ []

unfoldable pub from_be_bytes : List ℕ → ℕ
from_be_bytes bytes = go 0 bytes
  where
    go : ℕ → List ℕ → ℕ
    go acc [] = acc
    go acc (b ∷ bs) = go (acc * 256 + b) bs

-- `read_exact` of so many bytes: these and the rest of the stream, or the end of the stream.
unfoldable pub read_exact : ℕ → List ℕ → Option (List ℕ × List ℕ)
read_exact zero stream = some ([], stream)
read_exact (suc n) [] = none
read_exact (suc n) (b ∷ stream) =
    read_exact n stream >>= (λ (r : List ℕ × List ℕ). some (b ∷ r.0, r.1))

pub data ReadError : Type 0 where
  unexpected_eof : ReadError
  frame_too_large : ℕ → ReadError
  undecodable : ReadError

pub data ReadResult (Envelope : Type 0) : Type 0 where
  received : Envelope → List ℕ → ReadResult Envelope
  failed : ReadError → ReadResult Envelope

module _ {Envelope : Type 0} (rkyv : Rkyv Envelope) where
  -- The bytes that a successful call writes.
  unfoldable pub write_envelope : Envelope → Option (List ℕ)
  write_envelope envelope = rkyv.to_bytes envelope >>= (λ (bytes : List ℕ).
      if leb (length bytes) u32_max then some (to_be_bytes (length bytes) ++ bytes) else none)

  unfoldable pub decode : Option Envelope → List ℕ → ReadResult Envelope
  decode none rest = failed undecodable
  decode (some envelope) rest = received envelope rest

  unfoldable pub read_body : Option (List ℕ × List ℕ) → ReadResult Envelope
  read_body none = failed unexpected_eof
  read_body (some (raw, rest)) = decode (rkyv.from_bytes raw) rest

  unfoldable pub read_frame : Option (List ℕ × List ℕ) → ReadResult Envelope
  read_frame none = failed unexpected_eof
  read_frame (some (len_buf, rest)) =
      let len = from_be_bytes len_buf in
      if ltb max_frame_size len
      then failed (frame_too_large len)
      else read_body (read_exact len rest)

  unfoldable pub read_envelope : List ℕ → ReadResult Envelope
  read_envelope stream = read_frame (read_exact 4 stream)

  -- `while let Ok(env) = read_envelope(..)`: the envelopes, and the error that ends the loop, or none
  -- where the fuel is used up.
  unfoldable pub read_all : ℕ → List ℕ → List Envelope × Option ReadError
  read_all zero stream = ([], none)
  read_all (suc fuel) stream = elim (read_envelope stream) [
    | failed error ↦ ([], some error)
    | received envelope rest ↦
        let (envelopes, error) = read_all fuel rest in (envelope ∷ envelopes, error)
  ]

  unfoldable pub write_all : List Envelope → Option (List ℕ)
  write_all [] = some []
  write_all (e ∷ es) =
      write_envelope e
      >>= (λ (frame : List ℕ). write_all es >>= (λ (frames : List ℕ). some (frame ++ frames)))
