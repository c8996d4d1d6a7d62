-- ===== src/Logs/Lines.antt =====
-- How log chunks become lines: `LogsView::ingest` of crates/tepegoz-tui/src/app.rs.
use tepegoz.Prelude.{
  ℕ, ◌≡◌, ◌≢◌, refl, sym, ap, ◌∙◌, false, List, [], ◌∷◌, ◌++◌, arith, append-nil, append_assoc,
  ◌==◌, All, All-append, Bool-cases, inl, inr,
}
use tepegoz.Logs.{
  LogsView, LogLine, LogStream, stdout, stderr, pending, set_pending, complete_lines, push_line,
  push_all, ingest,
}

abbrev pub NoNewline : List ℕ → Type 0
NoNewline = All (λ b. b ≢ 10)

abbrev pub Lines : Type 0
Lines = List (List ℕ) × List ℕ

abbrev resume : Lines → (List ℕ → Lines) → Lines
resume (texts, rest) f = (texts ++ (f rest).0, (f rest).1)

complete_lines-append :
    (got xs ys : List ℕ)
    → complete_lines got (xs ++ ys)
      ≡ resume (complete_lines got xs) (λ rest. complete_lines rest ys)
unfolding complete_lines
complete_lines-append got [] ys = refl
complete_lines-append got (b ∷ xs) ys = elim (Bool-cases (b == 10)) [
  | inl e ↦ rw e (rw (complete_lines-append [] xs ys))
  | inr e ↦ rw e (complete_lines-append (got ++ b ∷ []) xs ys)
]

complete_lines-cons :
    (got : List ℕ) (b : ℕ) (bs : List ℕ)
    → b ≢ 10
    → complete_lines got (b ∷ bs) ≡ complete_lines (got ++ b ∷ []) bs
unfolding complete_lines
complete_lines-cons got b bs h = let e : (b == 10) ≡ false = ground arith in rw e

-- What has no newline is read on.
pub complete_lines-got :
    (got xs ys : List ℕ)
    → NoNewline xs
    → complete_lines got (xs ++ ys) ≡ complete_lines (got ++ xs) ys
complete_lines-got got [] ys h = rw append-nil
complete_lines-got got (b ∷ xs) ys h =
    complete_lines-cons got b (xs ++ ys) h.0
    ∙ (complete_lines-got (got ++ b ∷ []) xs ys h.1
        ∙ ap (λ l. complete_lines l ys) (append_assoc got (b ∷ []) xs))

pub complete_lines-NoNewline :
    (got xs : List ℕ) → NoNewline got → NoNewline (complete_lines got xs).1
unfolding complete_lines
complete_lines-NoNewline got [] h = h
complete_lines-NoNewline got (b ∷ xs) h = elim (Bool-cases (b == 10)) [
  | inl e ↦ rw e (complete_lines-NoNewline [] xs tt)
  | inr e ↦ rw e (
      complete_lines-NoNewline (got ++ b ∷ []) xs
        (All-append (λ b. b ≢ 10) got (b ∷ []) h (ground arith, tt)))
]

push_all-append :
    (s : LogStream) (ts us : List (List ℕ)) (v : LogsView)
    → push_all s (ts ++ us) v ≡ push_all s us (push_all s ts v)
unfolding push_all
push_all-append s [] us v = refl
push_all-append s (t ∷ ts) us v =
    push_all-append s ts us (push_line v (record { stream = s; text = t }))

pending-push_line :
    (s : LogStream) (l : LogLine) (v : LogsView) → pending s (push_line v l) ≡ pending s v
unfolding push_line
pending-push_line stdout l v = refl
pending-push_line stderr l v = refl

set_pending-push_line :
    (s : LogStream) (p : List ℕ) (l : LogLine) (v : LogsView)
    → set_pending s p (push_line v l) ≡ push_line (set_pending s p v) l
unfolding push_line
set_pending-push_line stdout p l v = refl
set_pending-push_line stderr p l v = refl

pub pending-push_all :
    (s s' : LogStream) (ts : List (List ℕ)) (v : LogsView)
    → pending s (push_all s' ts v) ≡ pending s v
unfolding push_all
pending-push_all s s' [] v = refl
pending-push_all s s' (t ∷ ts) v =
    pending-push_all s s' ts (push_line v _) ∙ pending-push_line s _ v

set_pending-push_all :
    (s s' : LogStream) (p : List ℕ) (ts : List (List ℕ)) (v : LogsView)
    → set_pending s p (push_all s' ts v) ≡ push_all s' ts (set_pending s p v)
unfolding push_all
set_pending-push_all s s' p [] v = refl
set_pending-push_all s s' p (t ∷ ts) v =
    set_pending-push_all s s' p ts (push_line v _)
    ∙ ap (push_all s' ts) (set_pending-push_line s p _ v)

pub pending-set_pending :
    (s : LogStream) (p : List ℕ) (v : LogsView) → pending s (set_pending s p v) ≡ p
pending-set_pending stdout p v = refl
pending-set_pending stderr p v = refl

set_pending_twice :
    (s : LogStream) (p q : List ℕ) (v : LogsView)
    → set_pending s p (set_pending s q v) ≡ set_pending s p v
set_pending_twice stdout p q v = refl
set_pending_twice stderr p q v = refl

pub ingest_lem :
    (v : LogsView) (s : LogStream) (xs : List ℕ) (cut : Lines)
    → complete_lines [] (pending s v ++ xs) ≡ cut
    → ingest v s xs ≡ push_all s cut.0 (set_pending s cut.1 v)
unfolding ingest
ingest_lem v s xs cut e = rw e

-- A pending part and a chunk after it are read as one.
pub complete_lines-pending :
    (p xs ys : List ℕ)
    → let cut = complete_lines [] (p ++ xs) in
      complete_lines [] (p ++ (xs ++ ys))
      ≡ (cut.0 ++ (complete_lines [] (cut.1 ++ ys)).0, (complete_lines [] (cut.1 ++ ys)).1)
complete_lines-pending p xs ys =
    let cut = complete_lines [] (p ++ xs) in
    ap (complete_lines []) (sym (append_assoc p xs ys))
    ∙ (complete_lines-append [] (p ++ xs) ys
        ∙ ap (λ l. (cut.0 ++ l.0, l.1))
            (sym (complete_lines-got [] cut.1 ys (complete_lines-NoNewline [] (p ++ xs) tt))))

-- How the log of a stream is cut into chunks makes no difference, wherever the cut falls: two
-- chunks in a row leave the view that the two joined leave.
pub ingest-append :
    (v : LogsView) (s : LogStream) (xs ys : List ℕ)
    → ingest (ingest v s xs) s ys ≡ ingest v s (xs ++ ys)
ingest-append v s xs ys =
    let cut = complete_lines [] (pending s v ++ xs) in
    let cut' = complete_lines [] (cut.1 ++ ys) in
    let after = push_all s cut.0 (set_pending s cut.1 v) in
    let held : pending s after ≡ cut.1 =
      pending-push_all s s cut.0 (set_pending s cut.1 v) ∙ pending-set_pending s cut.1 v in
    let set : set_pending s cut'.1 after ≡ push_all s cut.0 (set_pending s cut'.1 v) =
      set_pending-push_all s s cut'.1 cut.0 (set_pending s cut.1 v)
      ∙ ap (push_all s cut.0) (set_pending_twice s cut'.1 cut.1 v) in
    ap (λ w. ingest w s ys) (ingest_lem v s xs cut refl)
    ∙ (ingest_lem after s ys cut' (ap (λ p. complete_lines [] (p ++ ys)) held)
        ∙ (ap (push_all s cut'.0) set
            ∙ (sym (push_all-append s cut.0 cut'.0 (set_pending s cut'.1 v))
                ∙ sym (
                    ingest_lem v s (xs ++ ys) (cut.0 ++ cut'.0, cut'.1)
                      (complete_lines-pending (pending s v) xs ys)))))
