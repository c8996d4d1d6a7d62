-- ===== src/Logs/Scroll.antt =====
-- The window on a transcript: the line limit, `scroll_offset` and `at_tail` of `LogsView` in
-- crates/tepegoz-tui/src/app.rs.
use tepegoz.Prelude.{
  ℕ, ◌-◌, ◌≤◌, ◌≡◌, refl, true, List, [], ◌∷◌, ◌++◌, arith, leb, Bool-cases, inl, inr, length,
  length-append, drop, is_empty,
}
use tepegoz.Logs.{
  LogsView, LogLine, LogStream, stdout, stderr, pending, set_pending, push_line, push_all, ingest,
  new, end_stream, flush_pending, scroll_up, scroll_down, jump_to_tail, max_log_lines,
  complete_lines,
}

pub record IsValid (v : LogsView) : Type 0 where
  lines_fit : length v.lines ≤ max_log_lines
  offset_in : v.scroll_offset ≤ length v.lines - 1
  tail_at_0 : v.at_tail ≡ true → v.scroll_offset ≡ 0

-- The views that the calls of a session lead to.
pub data Reached : LogsView → Type 0 where
  opened : (id name : List ℕ) (sub : ℕ) → Reached (new id name sub)
  ingested :
      {v : LogsView} (s : LogStream) (bytes : List ℕ) → Reached v → Reached (ingest v s bytes)
  up : {v : LogsView} (n : ℕ) → Reached v → Reached (scroll_up v n)
  down : {v : LogsView} (n : ℕ) → Reached v → Reached (scroll_down v n)
  to_tail : {v : LogsView} → Reached v → Reached (jump_to_tail v)
  ended : {v : LogsView} (reason : List ℕ) → Reached v → Reached (end_stream v reason)

length-drop_1 {ℓ} : {A : Type ℓ} (xs : List A) → length (drop 1 xs) ≡ length xs - 1
length-drop_1 [] = refl
length-drop_1 (x ∷ xs) = omega arith

new-IsValid : (id name : List ℕ) (sub : ℕ) → IsValid (new id name sub)
unfolding new
new-IsValid id name sub = record {
  lines_fit = omega arith;
  offset_in = omega arith;
  tail_at_0 = λ h. refl;
}

pub push_line-length :
    (v : LogsView) (l : LogLine)
    → length v.lines ≤ max_log_lines
    → (length v.lines ≤ length (push_line v l).lines)
      × (length (push_line v l).lines ≤ max_log_lines)
unfolding push_line
push_line-length v l h = elim (Bool-cases (leb max_log_lines (length v.lines))) [
  | inl e ↦ rw (e, length-append, length-drop_1) (ground arith)
  | inr e ↦ rw (e, length-append) (ground arith)
]

push_line-IsValid : (v : LogsView) (l : LogLine) → IsValid v → IsValid (push_line v l)
unfolding push_line
push_line-IsValid v l h =
    let len = push_line-length v l h.lines_fit in
    record {
      lines_fit = len.1;
      offset_in = omega (arith, h.offset_in, len.0);
      tail_at_0 = h.tail_at_0;
    }

set_pending-IsValid :
    (s : LogStream) (p : List ℕ) (v : LogsView) → IsValid v → IsValid (set_pending s p v)
set_pending-IsValid stdout p v h = record {
  lines_fit = h.lines_fit;
  offset_in = h.offset_in;
  tail_at_0 = h.tail_at_0;
}
set_pending-IsValid stderr p v h = record {
  lines_fit = h.lines_fit;
  offset_in = h.offset_in;
  tail_at_0 = h.tail_at_0;
}

push_all-IsValid :
    (s : LogStream) (ts : List (List ℕ)) (v : LogsView) → IsValid v → IsValid (push_all s ts v)
unfolding push_all
push_all-IsValid s [] v h = h
push_all-IsValid s (t ∷ ts) v h = push_all-IsValid s ts (push_line v _) (push_line-IsValid v _ h)

ingest-IsValid : (v : LogsView) (s : LogStream) (xs : List ℕ) → IsValid v → IsValid (ingest v s xs)
unfolding ingest
ingest-IsValid v s xs h =
    let cut = complete_lines [] (pending s v ++ xs) in
    push_all-IsValid s cut.0 (set_pending s cut.1 v) (set_pending-IsValid s cut.1 v h)

flush_pending-IsValid : (s : LogStream) (v : LogsView) → IsValid v → IsValid (flush_pending s v)
unfolding flush_pending
flush_pending-IsValid s v h =
    let taken = set_pending-IsValid s [] v h in
    elim (Bool-cases (is_empty (pending s v))) [
      | inl e ↦ rw e taken
      | inr e ↦ rw e (push_line-IsValid (set_pending s [] v) _ taken)
    ]

scroll_up-IsValid : (v : LogsView) (n : ℕ) → IsValid v → IsValid (scroll_up v n)
unfolding scroll_up
scroll_up-IsValid v n h = record {
  lines_fit = h.lines_fit;
  offset_in = ground (arith, h.offset_in);
  tail_at_0 = ground (arith, h.tail_at_0);
}

scroll_down-IsValid : (v : LogsView) (n : ℕ) → IsValid v → IsValid (scroll_down v n)
unfolding scroll_down
scroll_down-IsValid v n h = record {
  lines_fit = h.lines_fit;
  offset_in = ground (arith, h.offset_in);
  tail_at_0 = ground (arith, h.tail_at_0);
}

jump_to_tail-IsValid : (v : LogsView) → IsValid v → IsValid (jump_to_tail v)
unfolding jump_to_tail
jump_to_tail-IsValid v h = record {
  lines_fit = h.lines_fit;
  offset_in = omega arith;
  tail_at_0 = λ e. refl;
}

end_stream-IsValid : (v : LogsView) (reason : List ℕ) → IsValid v → IsValid (end_stream v reason)
unfolding end_stream
end_stream-IsValid v reason h =
    let flushed = flush_pending-IsValid stderr _ (flush_pending-IsValid stdout v h) in
    record { lines_fit = flushed.lines_fit; offset_in = flushed.offset_in; tail_at_0 = λ e. cc }

-- Whatever is ingested, scrolled and ended, in any order, a view holds at most `MAX_LOG_LINES`
-- lines, its offset points at one of them, and it follows the tail only at offset 0.
pub Reached-IsValid : (v : LogsView) → Reached v → IsValid v
Reached-IsValid _ (opened id name sub) = new-IsValid id name sub
Reached-IsValid _ (ingested {v} s bytes r) = ingest-IsValid v s bytes (Reached-IsValid v r)
Reached-IsValid _ (up {v} n r) = scroll_up-IsValid v n (Reached-IsValid v r)
Reached-IsValid _ (down {v} n r) = scroll_down-IsValid v n (Reached-IsValid v r)
Reached-IsValid _ (to_tail {v} r) = jump_to_tail-IsValid v (Reached-IsValid v r)
Reached-IsValid _ (ended {v} reason r) = end_stream-IsValid v reason (Reached-IsValid v r)
