-- ===== src/Pane.antt =====
-- Panes: the scrollback ring and the shared pane state of crates/tepegoz-pty/src/lib.rs, which
-- crates/tepegoz-core/src/remote_pane.rs repeats for panes over SSH, and what the daemon forwards of
-- a pane (`forward_pane` of crates/tepegoz-core/src/client.rs).
--
-- `tokio::sync::broadcast` is not in the repository: of it the model has that a receiver keeps the
-- last `BROADCAST_CHANNEL_SIZE` updates that it has not read, in order, and that it reports how many
-- it has lost with one `Lagged` before it reads on.
pub mod Ring
pub mod Receive
pub mod Local
pub mod Remote
pub mod Forward
pub mod Manager
mod Tests
use tepegoz.Prelude.{
  ℕ, zero, suc, ◌+◌, ◌-◌, Bool, true, false, not, Option, none, some, List, [], ◌∷◌, ◌++◌, ltb, leb,
  drop, if◌then◌else◌, is_empty, length,
}

pub record Scrollback : Type 0 where
  pub chunks : List (List ℕ)
  pub total_bytes : ℕ
  pub capacity : ℕ

unfoldable pub new_scrollback : ℕ → Scrollback
new_scrollback capacity = record { chunks = []; total_bytes = 0; capacity = capacity }

-- `while self.total_bytes > self.capacity`, which `break`s where no chunk is left.
evict : ℕ → List (List ℕ) → ℕ → List (List ℕ) × ℕ
evict capacity [] total = ([], total)
evict capacity (dropped ∷ chunks) total =
    let more = evict capacity chunks (total - length dropped) in
    if ltb capacity total then more else (dropped ∷ chunks, total)

unfoldable pub append : Scrollback → List ℕ → Scrollback
unfolding evict
append sb bytes =
    if is_empty bytes
    then sb
    else let (chunks, total) =
        evict sb.capacity (sb.chunks ++ bytes ∷ []) (sb.total_bytes + length bytes) in
      record sb { chunks = chunks; total_bytes = total }

concat : List (List ℕ) → List ℕ
concat [] = []
concat (chunk ∷ chunks) = chunk ++ concat chunks

unfoldable pub snapshot : Scrollback → List ℕ
unfolding concat
snapshot sb = if is_empty sb.chunks then [] else concat sb.chunks

-- Exit codes are carried, never computed with.
pub data PaneUpdate : Type 0 where
  bytes : List ℕ → PaneUpdate
  exit : Option ℕ → PaneUpdate

-- What `rx.recv()` returns.
pub data Received : Type 0 where
  update : PaneUpdate → Received
  lagged : ℕ → Received
  closed : Received

-- `BROADCAST_CHANNEL_SIZE`
abbrev pub channel_capacity : ℕ
channel_capacity = 1024

-- What a subscriber holds: the snapshot, what its receiver has returned so far, the updates that wait
-- in the channel, and how many it has lost since it last read.
pub record Receiver : Type 0 where
  pub replay : List ℕ
  pub received : List Received
  pub queue : List PaneUpdate
  pub missed : ℕ

-- The state that the threads of a pane share. `receivers` stands for `output_tx`.
pub record Pane : Type 0 where
  pub rows : ℕ
  pub cols : ℕ
  pub scrollback : Scrollback
  pub receivers : List Receiver
  pub exit_code : Option ℕ
  pub alive : Bool

-- A receiver that is a full channel behind loses its oldest update.
unfoldable pub push : PaneUpdate → Receiver → Receiver
push u r =
    if leb channel_capacity (length r.queue)
    then record r { queue = drop 1 r.queue ++ u ∷ []; missed = r.missed + 1 }
    else record r { queue = r.queue ++ u ∷ [] }

-- `output_tx.send`
unfoldable pub broadcast : PaneUpdate → List Receiver → List Receiver
broadcast u [] = []
broadcast u (r ∷ rs) = push u r ∷ broadcast u rs

-- `rx.recv()`, which waits where there is nothing to return.
unfoldable pub recv_of : ℕ → List PaneUpdate → Receiver → Receiver
recv_of (suc n) queue r = record r { received = r.received ++ lagged (suc n) ∷ []; missed = 0 }
recv_of zero [] r = r
recv_of zero (u ∷ us) r = record r { received = r.received ++ update u ∷ []; queue = us }

-- The subscriber of that number calls `rx.recv()`.
unfoldable pub receive_at : ℕ → List Receiver → List Receiver
unfolding recv_of
receive_at i [] = []
receive_at zero (r ∷ rs) = recv_of r.missed r.queue r ∷ rs
receive_at (suc i) (r ∷ rs) = r ∷ receive_at i rs

unfoldable pub recv : Pane → ℕ → Pane
unfolding receive_at
recv p i = record p { receivers = receive_at i p.receivers }

unfoldable pub send : Pane → PaneUpdate → Pane
unfolding broadcast
send p u = record p { receivers = broadcast u p.receivers }

-- `Pane::subscribe`: snapshot and subscription under one lock.
unfoldable pub subscribe : Pane → Pane
subscribe p = record p {
  receivers =
      p.receivers
      ++ record { replay = snapshot p.scrollback; received = []; queue = []; missed = 0 } ∷ [];
}

unfoldable pub resize : Pane → ℕ → ℕ → Pane
resize p rows cols = record p { rows = rows; cols = cols }
