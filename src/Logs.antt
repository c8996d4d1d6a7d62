-- ===== src/Logs.antt =====
-- The transcript of one container's logs: `LogsView` of crates/tepegoz-tui/src/app.rs. Text is the
-- bytes of its UTF-8 form; numbers of lines are `usize` values, far below the word size.
pub mod Lines
pub mod Scroll
pub mod Transcript
pub mod Streams
mod Tests
use tepegoz.Prelude.{
  ℕ, zero, suc, ◌+◌, ◌-◌, Bool, true, false, not, Option, none, some, List, [], ◌∷◌, ◌++◌, leb, ltb,
  ◌==◌, if◌then◌else◌, ◌&&◌, is_empty, length, min, drop,
}
use tepegoz.Text.{from_utf8_lossy}

pub data LogStream : Type 0 where
  stdout stderr : LogStream

pub record LogLine : Type 0 where
  pub stream : LogStream
  pub text : List ℕ

abbrev pub max_log_lines : ℕ
max_log_lines = 10000

pub record LogsView : Type 0 where
  pub container_id : List ℕ
  pub container_name : List ℕ
  pub sub_id : ℕ
  pub lines : List LogLine
  pub pending_stdout : List ℕ
  pub pending_stderr : List ℕ
  pub scroll_offset : ℕ
  pub at_tail : Bool
  pub stream_ended : Option (List ℕ)

unfoldable pub new : List ℕ → List ℕ → ℕ → LogsView
new container_id container_name sub_id = record {
  container_id = container_id;
  container_name = container_name;
  sub_id = sub_id;
  lines = [];
  pending_stdout = [];
  pending_stderr = [];
  scroll_offset = 0;
  at_tail = true;
  stream_ended = none;
}

unfoldable pub push_line : LogsView → LogLine → LogsView
push_line v line = record v {
  lines = (if leb max_log_lines (length v.lines) then drop 1 v.lines else v.lines) ++ line ∷ [];
}

abbrev pub pending : LogStream → LogsView → List ℕ
pending stdout v = v.pending_stdout
pending stderr v = v.pending_stderr

abbrev pub set_pending : LogStream → List ℕ → LogsView → LogsView
set_pending stdout p v = record v { pending_stdout = p }
set_pending stderr p v = record v { pending_stderr = p }

-- A drained line without its `\n` and a `\r` before it.
unfoldable pub strip_cr : List ℕ → List ℕ
strip_cr [] = []
strip_cr (b ∷ []) = if b == 13 then [] else b ∷ []
strip_cr (b ∷ c ∷ bs) = b ∷ strip_cr (c ∷ bs)

-- The `while let` loop: each turn drains `pending` up to its first `\n`. `got` is the part of the
-- line that is being read; the result is the texts of the lines and what is left.
unfoldable pub complete_lines : List ℕ → List ℕ → List (List ℕ) × List ℕ
unfolding strip_cr
complete_lines got [] = ([], got)
complete_lines got (b ∷ bs) =
    let next = complete_lines (if b == 10 then [] else got ++ b ∷ []) bs in
    if b == 10 then (from_utf8_lossy (strip_cr got) ∷ next.0, next.1) else next

unfoldable pub push_all : LogStream → List (List ℕ) → LogsView → LogsView
unfolding push_line
push_all stream [] v = v
push_all stream (text ∷ texts) v =
    push_all stream texts (push_line v (record { stream = stream; text = text }))

unfoldable pub ingest : LogsView → LogStream → List ℕ → LogsView
ingest v stream bytes =
    let (completed, rest) = complete_lines [] (pending stream v ++ bytes) in
    push_all stream completed (set_pending stream rest v)

unfoldable pub scroll_up : LogsView → ℕ → LogsView
scroll_up v n =
    let offset = min (v.scroll_offset + n) (length v.lines - 1) in
    record v { scroll_offset = offset; at_tail = if ltb 0 offset then false else v.at_tail }

unfoldable pub scroll_down : LogsView → ℕ → LogsView
scroll_down v n =
    let offset = v.scroll_offset - n in
    record v { scroll_offset = offset; at_tail = if offset == 0 then true else v.at_tail }

unfoldable pub jump_to_tail : LogsView → LogsView
jump_to_tail v = record v { scroll_offset = 0; at_tail = true }

-- `mem::take` of a pending buffer, and a last line of what it held.
unfoldable pub flush_pending : LogStream → LogsView → LogsView
unfolding push_line
flush_pending stream v =
    let tail = pending stream v in
    let taken = set_pending stream [] v in
    if is_empty tail
    then taken
    else push_line taken (record { stream = stream; text = from_utf8_lossy tail })

unfoldable pub end_stream : LogsView → List ℕ → LogsView
unfolding flush_pending
end_stream v reason = record (flush_pending stderr (flush_pending stdout v)) {
  stream_ended = some reason;
  at_tail = false;
}
