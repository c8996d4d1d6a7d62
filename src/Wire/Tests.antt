-- ===== src/Wire/Tests.antt =====
-- Streams of frames as crates/tepegoz-proto/src/codec.rs writes and reads them.
use tepegoz.Prelude.{ℕ, zero, suc, ◌≡◌, refl, sym, ap, some, List, [], ◌∷◌, ◌++◌, arith, length}
use tepegoz.Wire.{
  Rkyv, IsFaithful, to_be_bytes, from_be_bytes, read_exact, ReadError, unexpected_eof,
  frame_too_large, failed, read_envelope, write_envelope, read_all, write_all,
}
use tepegoz.Wire.Streams.{Fits, write_envelope_unread, read_all-write_all, read_all_ends}
use tepegoz.Wire.Session.{
  reading, SocketEvent, arrives, tick, poll_body, poll_peek, poll_frame, poll, drain, on_socket,
  run,
}

-- An envelope that is its own bytes.
abbrev plain : Rkyv (List ℕ)
plain = record { to_bytes = λ bytes. some bytes; from_bytes = λ bytes. some bytes }

plain-IsFaithful : IsFaithful plain
plain-IsFaithful envelope bytes e = sym e

abbrev two_bytes : List ℕ
two_bytes = 7 ∷ 7 ∷ []

abbrev one_byte : List ℕ
one_byte = 9 ∷ []

same_length : {xs ys : List ℕ} → some xs ≡ some ys → length ys ≡ length xs
same_length e = cc

two_bytes-Fits : Fits plain two_bytes
two_bytes-Fits bytes e = omega (arith, same_length e)

one_byte-Fits : Fits plain one_byte
one_byte-Fits bytes e = omega (arith, same_length e)

abbrev two_bytes_frame : List ℕ
two_bytes_frame = 0 ∷ 0 ∷ 0 ∷ 2 ∷ 7 ∷ 7 ∷ []

abbrev both_frames : List ℕ
both_frames = 0 ∷ 0 ∷ 0 ∷ 2 ∷ 7 ∷ 7 ∷ 0 ∷ 0 ∷ 0 ∷ 1 ∷ 9 ∷ []

zeros : ℕ → List ℕ
zeros zero = []
zeros (suc n) = 0 ∷ zeros n

length-zeros : (n : ℕ) → length (zeros n) ≡ n
unfolding zeros
length-zeros zero = refl
length-zeros (suc n) = ap suc (length-zeros n)

write_envelope_unread_example :
    (write_envelope plain (zeros 16777217)
      ≡ some (to_be_bytes (length (zeros 16777217)) ++ zeros 16777217))
    × (read_envelope plain ((to_be_bytes (length (zeros 16777217)) ++ zeros 16777217) ++ (1 ∷ []))
        ≡ failed (frame_too_large (length (zeros 16777217))))
write_envelope_unread_example =
    write_envelope_unread plain (zeros 16777217) (zeros 16777217) (1 ∷ []) refl
      (omega (arith, length-zeros 16777217)) (omega (arith, length-zeros 16777217))

read_all-write_all_example :
    read_all plain 3 both_frames ≡ (two_bytes ∷ one_byte ∷ [], some unexpected_eof)
unfolding write_all write_envelope to_be_bytes
read_all-write_all_example =
    read_all-write_all plain (two_bytes ∷ one_byte ∷ []) 3 plain-IsFaithful
      (two_bytes-Fits, (one_byte-Fits, tt)) refl (omega arith)

read_all_ends_example : (error : ReadError) × ((read_all plain 7 two_bytes_frame).1 ≡ some error)
read_all_ends_example = read_all_ends plain 7 two_bytes_frame (omega arith)

abbrev cut_anywhere : List SocketEvent
cut_anywhere =
    arrives (0 ∷ [])
    ∷ arrives (0 ∷ 0 ∷ 2 ∷ 7 ∷ 7 ∷ [])
    ∷ tick
    ∷ arrives (0 ∷ 0 ∷ 0 ∷ 1 ∷ 9 ∷ [])
    ∷ []

-- A tick inside the first frame loses what was read of it, and its last byte is taken for the first of
-- a length: neither envelope is dispatched.
abbrev cut_at_tick : List SocketEvent
cut_at_tick = arrives (0 ∷ 0 ∷ 0 ∷ 2 ∷ 7 ∷ []) ∷ tick ∷ arrives (7 ∷ 0 ∷ 0 ∷ 0 ∷ 1 ∷ 9 ∷ []) ∷ []

tick_loses_frames : run plain cut_at_tick (reading []) ≡ ([], reading (7 ∷ 0 ∷ 0 ∷ 0 ∷ 1 ∷ 9 ∷ []))
unfolding run on_socket drain poll poll_frame poll_body poll_peek read_exact from_be_bytes
tick_loses_frames = refl
