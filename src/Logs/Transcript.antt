-- ===== src/Logs/Transcript.antt =====
-- What a transcript holds: `ingest` and `end_stream` of `LogsView` in crates/tepegoz-tui/src/app.rs
-- beside `split`.
use tepegoz.Prelude.{
  ℕ, suc, ◌-◌, ◌≤◌, ◌≡◌, refl, sym, ap, ◌∙◌, List, [], ◌∷◌, ◌++◌, arith, append-nil, append_assoc,
  map, leb, ◌==◌, Bool-cases, inl, inr, length, length-append, drop, All, All-append, ◌≢◌,
}
use tepegoz.Text.{from_utf8_lossy, split}
use tepegoz.Text.Split.{split-cons, split-one}
use tepegoz.Logs.{
  LogsView, LogLine, LogStream, stdout, stderr, pending, set_pending, push_line, push_all, ingest,
  max_log_lines, complete_lines, strip_cr,
}
use tepegoz.Logs.Lines.{ingest_lem, pending-push_all, pending-set_pending}
use tepegoz.Logs.Scroll.{push_line-length}

-- The text that a line shows.
abbrev pub shown : List ℕ → List ℕ
shown line = from_utf8_lossy (strip_cr line)

abbrev pub to_lines : LogStream → List (List ℕ) → List LogLine
to_lines stream texts = map (λ text. record { stream = stream; text = text }) texts

-- The last `MAX_LOG_LINES` of some lines.
abbrev pub last_lines : List LogLine → List LogLine
last_lines lines = drop (length lines - max_log_lines) lines

complete_lines-split :
    (got bs : List ℕ)
    → All (λ b. b ≢ 10) got
    → let cut = complete_lines got bs in
      (raw : List (List ℕ)) × (split 10 (got ++ bs) ≡ raw ++ cut.1 ∷ []) × (cut.0 ≡ map shown raw)
unfolding complete_lines
complete_lines-split got [] h = ([], rw append-nil (split-one 10 got h), refl)
complete_lines-split got (b ∷ bs) h = elim (Bool-cases (b == 10)) [
  | inl e ↦
      let b_10 : b ≡ 10 = ground arith in
      let (raw, cut, texts) = complete_lines-split [] bs tt in
      let whole : split 10 (got ++ b ∷ bs) ≡ got ∷ split 10 bs =
        ap (λ c. split 10 (got ++ c ∷ bs)) b_10 ∙ split-cons 10 got bs h in
      rw e (got ∷ raw, whole ∙ ap (λ l. got ∷ l) cut, ap (λ l. shown got ∷ l) texts)
  | inr e ↦
      let one : b ≢ 10 = ground arith in
      let (raw, cut, texts) =
        complete_lines-split (got ++ b ∷ []) bs
          (All-append (λ b. b ≢ 10) got (b ∷ []) h (one, tt)) in
      rw e (raw, ap (split 10) (sym (append_assoc got (b ∷ []) bs)) ∙ cut, texts)
]

last_lines_fit : (lines : List LogLine) → length lines ≤ max_log_lines → last_lines lines ≡ lines
last_lines_fit lines h =
    let none_over : length lines - max_log_lines ≡ 0 = omega (arith, h) in rw none_over refl

-- A line in front of `max_log_lines` others is not among the last.
last_lines-cons :
    (line : LogLine) (lines : List LogLine)
    → max_log_lines ≤ length lines
    → last_lines (line ∷ lines) ≡ last_lines lines
last_lines-cons line lines h =
    let more : suc (length lines) - max_log_lines ≡ suc (length lines - max_log_lines) =
      omega (arith, h) in
    rw more refl

pushed-last_lines :
    (old : List LogLine) (line : LogLine) (rest : List LogLine)
    → max_log_lines ≤ length old
    → last_lines ((drop 1 old ++ line ∷ []) ++ rest) ≡ last_lines (old ++ line ∷ rest)
pushed-last_lines [] line rest h = ground (arith, h)
pushed-last_lines (x ∷ old) line rest h =
    let long : max_log_lines ≤ length (old ++ line ∷ rest) = rw length-append (omega (arith, h)) in
    rw (append_assoc old (line ∷ []) rest) (sym (last_lines-cons x (old ++ line ∷ rest) long))

push_line-length_le :
    (v : LogsView) (line : LogLine)
    → length v.lines ≤ max_log_lines
    → length (push_line v line).lines ≤ max_log_lines
push_line-length_le v line h = (push_line-length v line h).1

push_all-lines :
    (s : LogStream) (texts : List (List ℕ)) (v : LogsView)
    → length v.lines ≤ max_log_lines
    → (push_all s texts v).lines ≡ last_lines (v.lines ++ to_lines s texts)
unfolding push_all push_line
push_all-lines s [] v h = rw append-nil (sym (last_lines_fit v.lines h))
push_all-lines s (t ∷ texts) v h =
    let line : LogLine = record { stream = s; text = t } in
    push_all-lines s texts (push_line v line) (push_line-length_le v line h)
    ∙ elim (Bool-cases (leb max_log_lines (length v.lines))) [
      | inl e ↦ rw e (pushed-last_lines v.lines line (to_lines s texts) (ground arith))
      | inr e ↦ rw e (ap last_lines (append_assoc v.lines (line ∷ []) (to_lines s texts)))
    ]

set_pending-lines :
    (s : LogStream) (p : List ℕ) (v : LogsView) → (set_pending s p v).lines ≡ v.lines
set_pending-lines stdout p v = refl
set_pending-lines stderr p v = refl

-- In a view within the line limit, a chunk is split at its newlines together with the bytes that
-- waited: what is after the last one waits, what is before each is a line of the stream, without a
-- `\r` at its end and with U+FFFD for what is no UTF-8, and the view keeps the last
-- `MAX_LOG_LINES` of the old lines and these.
pub ingest-lines :
    (v : LogsView) (s : LogStream) (bytes : List ℕ)
    → length v.lines ≤ max_log_lines
    → let w = ingest v s bytes in
      (raw : List (List ℕ)) × (split 10 (pending s v ++ bytes) ≡ raw ++ pending s w ∷ [])
      × (w.lines ≡ last_lines (v.lines ++ to_lines s (map shown raw)))
ingest-lines v s bytes h =
    let cut = complete_lines [] (pending s v ++ bytes) in
    let set = set_pending s cut.1 v in
    let w = ingest_lem v s bytes cut refl in
    let kept = set_pending-lines s cut.1 v in
    let (raw, whole, texts) = complete_lines-split [] (pending s v ++ bytes) tt in
    let waits : pending s (ingest v s bytes) ≡ cut.1 =
      ap (pending s) w ∙ (pending-push_all s s cut.0 set ∙ pending-set_pending s cut.1 v) in
    let fits : length set.lines ≤ max_log_lines = rw kept h in
    let held : (ingest v s bytes).lines ≡ last_lines (set.lines ++ to_lines s cut.0) =
      ap (λ u. u.lines) w ∙ push_all-lines s cut.0 set fits in
    (
      raw,
      whole ∙ ap (λ p. raw ++ p ∷ []) (sym waits),
      held
          ∙ (ap (λ l. last_lines (l ++ to_lines s cut.0)) kept
              ∙ ap (λ t. last_lines (v.lines ++ to_lines s t)) texts),
    )
