-- ===== src/Pane/Local.antt =====
-- The threads of a local pane: `reader_loop` and the waiter of crates/tepegoz-pty/src/lib.rs,
-- interleaved with subscribers. The reader appends and sends under the scrollback lock, so that is
-- one step.
use tepegoz.Prelude.{ℕ, ◌≡◌, true, false, Option, none, List, [], ◌++◌, All}
use tepegoz.Pane.{
  Pane, bytes, exit, recv, append, new_scrollback, snapshot, send, subscribe, resize,
}
use tepegoz.Pane.Receive.{SeesOnce}

-- A read of `n > 0` bytes: append, then `output_tx.send`, under one lock.
unfoldable pub read_chunk : Pane → List ℕ → Pane
read_chunk p chunk = send (record p { scrollback = append p.scrollback chunk }) (bytes chunk)

-- The waiter thread: record the code, mark the pane dead, send the exit.
unfoldable pub child_exits : Pane → Option ℕ → Pane
child_exits p code = send (record p { exit_code = code; alive = false }) (exit code)

-- `Reach start output p`: from `start` the threads have come to `p`, and the reader has read
-- `output` on the way.
pub data Reach (start : Pane) : List ℕ → Pane → Type 0 where
  here : Reach start [] start
  reads :
      {output : List ℕ} {p : Pane} (chunk : List ℕ)
      → Reach start output p
      → Reach start (output ++ chunk) (read_chunk p chunk)
  exits :
      {output : List ℕ} {p : Pane} (code : Option ℕ)
      → Reach start output p
      → Reach start output (child_exits p code)
  attaches : {output : List ℕ} {p : Pane} → Reach start output p → Reach start output (subscribe p)
  resizes :
      {output : List ℕ} {p : Pane} (rows cols : ℕ)
      → Reach start output p
      → Reach start output (resize p rows cols)
  receives :
      {output : List ℕ} {p : Pane} (i : ℕ) → Reach start output p → Reach start output (recv p i)

record IsExact (output : List ℕ) (p : Pane) : Type 0 where
  ring : (gone : List ℕ) × (gone ++ snapshot p.scrollback ≡ output)
  seen : All (SeesOnce output) p.receivers

-- A pane as `PtyManager::open` makes it.
abbrev pub fresh : ℕ → ℕ → ℕ → Pane
fresh rows cols capacity = record {
  rows = rows;
  cols = cols;
  scrollback = new_scrollback capacity;
  receivers = [];
  exit_code = none;
  alive = true;
}
