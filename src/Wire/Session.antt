-- ===== src/Wire/Session.antt =====
-- `read_envelope` in the `select!` of `session`, crates/tepegoz-core/src/client.rs, where a tick of the
-- status timer drops the call: crates/tepegoz-proto/src/codec.rs read a chunk at a time. What is held is
-- what the pending call has taken off the socket.
use tepegoz.Prelude.{
  ℕ, zero, suc, Option, none, some, List, [], ◌∷◌, ◌++◌, ltb, if◌then◌else◌, length,
}
use tepegoz.Wire.{
  Rkyv, max_frame_size, from_be_bytes, read_exact, ReadError, frame_too_large, undecodable,
}

-- How far a pending call has come: it waits for more bytes, it is done and leaves the rest on the
-- socket, or it has failed.
pub data Poll (Envelope : Type 0) : Type 0 where
  pending : Poll Envelope
  ready : Envelope → List ℕ → Poll Envelope
  broken : ReadError → Poll Envelope

-- What the session does of the wire: it is open and holds the bytes of a pending call, or it has ended
-- with an error.
pub data Session : Type 0 where
  reading : List ℕ → Session
  ended : ReadError → Session

pub data SocketEvent : Type 0 where
  arrives : List ℕ → SocketEvent
  tick : SocketEvent

module _ {Envelope : Type 0} (rkyv : Rkyv Envelope) where
  unfoldable pub poll_decoded : Option Envelope → List ℕ → Poll Envelope
  poll_decoded none rest = broken undecodable
  poll_decoded (some envelope) rest = ready envelope rest

  unfoldable pub poll_body : Option (List ℕ × List ℕ) → Poll Envelope
  poll_body none = pending
  poll_body (some (raw, rest)) = poll_decoded (rkyv.from_bytes raw) rest

  -- Before it fails on the length, the call waits for 32 bytes more, for its message.
  unfoldable pub poll_peek : ℕ → Option (List ℕ × List ℕ) → Poll Envelope
  poll_peek len none = pending
  poll_peek len (some (peek_buf, rest)) = broken (frame_too_large len)

  unfoldable pub poll_frame : Option (List ℕ × List ℕ) → Poll Envelope
  poll_frame none = pending
  poll_frame (some (len_buf, rest)) =
      let len = from_be_bytes len_buf in
      if ltb max_frame_size len
      then poll_peek len (read_exact 32 rest)
      else poll_body (read_exact len rest)

  unfoldable pub poll : List ℕ → Poll Envelope
  poll held = poll_frame (read_exact 4 held)

  -- The loop of the session on what has arrived: the envelopes that are dispatched, and the session.
  unfoldable pub drain : ℕ → List ℕ → List Envelope × Session
  drain zero held = ([], reading held)
  drain (suc fuel) held = elim (poll held) [
    | pending ↦ ([], reading held)
    | broken error ↦ ([], ended error)
    | ready envelope rest ↦
        let (envelopes, session) = drain fuel rest in (envelope ∷ envelopes, session)
  ]

  unfoldable pub on_socket : SocketEvent → Session → List Envelope × Session
  on_socket event (ended error) = ([], ended error)
  on_socket (arrives chunk) (reading held) = drain (suc (length (held ++ chunk))) (held ++ chunk)
  on_socket tick (reading held) = ([], reading [])

  unfoldable pub run : List SocketEvent → Session → List Envelope × Session
  run [] s = ([], s)
  run (event ∷ events) s =
      let (first, s') = on_socket event s in let (more, s'') = run events s' in (first ++ more, s'')
