-- ===== src/Logs/Streams.antt =====
-- The two streams of a container in one transcript: `ingest` of `LogsView` in
-- crates/tepegoz-tui/src/app.rs.
use tepegoz.Prelude.{
  ℕ, ◌≡◌, refl, sym, ap, ◌∙◌, Bool, true, false, List, [], ◌∷◌, ◌++◌, Bool-cases, inl, inr,
  if◌then◌else◌,
}
use tepegoz.Logs.{
  LogsView, LogStream, stdout, stderr, pending, set_pending, ingest, complete_lines, new,
}
use tepegoz.Logs.Lines.{
  ingest_lem, pending-push_all, pending-set_pending, complete_lines-pending, complete_lines-got,
  complete_lines-NoNewline, NoNewline,
}

-- The chunks of both streams, as they arrive.
unfoldable pub ingest_all : LogsView → List (LogStream × List ℕ) → LogsView
ingest_all v [] = v
ingest_all v ((stream, bytes) ∷ chunks) = ingest_all (ingest v stream bytes) chunks

abbrev pub same_stream : LogStream → LogStream → Bool
same_stream stdout stdout = true
same_stream stderr stderr = true
same_stream s t = false

-- The bytes of one stream.
abbrev pub bytes_of : LogStream → List (LogStream × List ℕ) → List ℕ
bytes_of s [] = []
bytes_of s ((stream, bytes) ∷ chunks) =
    let rest = bytes_of s chunks in if same_stream s stream then bytes ++ rest else rest

same_stream_refl : (s : LogStream) → same_stream s s ≡ true
same_stream_refl stdout = refl
same_stream_refl stderr = refl

pending-other :
    (s t : LogStream) (p : List ℕ) (v : LogsView)
    → same_stream s t ≡ false
    → pending s (set_pending t p v) ≡ pending s v
pending-other stdout stderr p v h = refl
pending-other stderr stdout p v h = refl
pending-other stdout stdout p v h = cc
pending-other stderr stderr p v h = cc

pending-ingest :
    (s : LogStream) (bytes : List ℕ) (v : LogsView)
    → pending s (ingest v s bytes) ≡ (complete_lines [] (pending s v ++ bytes)).1
pending-ingest s bytes v =
    let cut = complete_lines [] (pending s v ++ bytes) in
    ap (pending s) (ingest_lem v s bytes cut refl)
    ∙ (pending-push_all s s cut.0 (set_pending s cut.1 v) ∙ pending-set_pending s cut.1 v)

pending-ingest_other :
    (s t : LogStream) (bytes : List ℕ) (v : LogsView)
    → same_stream s t ≡ false
    → pending s (ingest v t bytes) ≡ pending s v
pending-ingest_other s t bytes v h =
    let cut = complete_lines [] (pending t v ++ bytes) in
    ap (pending s) (ingest_lem v t bytes cut refl)
    ∙ (pending-push_all s t cut.0 (set_pending t cut.1 v) ∙ pending-other s t cut.1 v h)

same_stream-eq : (s t : LogStream) → same_stream s t ≡ true → s ≡ t
same_stream-eq stdout stdout h = refl
same_stream-eq stderr stderr h = refl
same_stream-eq stdout stderr h = cc
same_stream-eq stderr stdout h = cc

pending_alone : (p : List ℕ) → NoNewline p → (complete_lines [] (p ++ [])).1 ≡ p
unfolding complete_lines
pending_alone p h = rw (complete_lines-got [] p [] h) refl

pending-ingest_all_from :
    (s : LogStream) (chunks : List (LogStream × List ℕ)) (v : LogsView)
    → NoNewline (pending s v)
    → pending s (ingest_all v chunks) ≡ (complete_lines [] (pending s v ++ bytes_of s chunks)).1
unfolding ingest_all
pending-ingest_all_from s [] v h = sym (pending_alone (pending s v) h)
pending-ingest_all_from s ((t, bytes) ∷ chunks) v h = elim (Bool-cases (same_stream s t)) [
  | inl e ↦
      let here : pending s (ingest v t bytes) ≡ (complete_lines [] (pending s v ++ bytes)).1 =
        rw (same_stream-eq s t e) (pending-ingest t bytes v) in
      let later =
        pending-ingest_all_from s chunks (ingest v t bytes)
          (rw here (complete_lines-NoNewline [] (pending s v ++ bytes) tt)) in
      rw e (
        later
        ∙ (ap (λ p. (complete_lines [] (p ++ bytes_of s chunks)).1) here
            ∙ sym (ap (λ l. l.1) (complete_lines-pending (pending s v) bytes (bytes_of s chunks)))))
  | inr e ↦
      let here = pending-ingest_other s t bytes v e in
      rw e (
        pending-ingest_all_from s chunks (ingest v t bytes) (rw here h)
        ∙ ap (λ p. (complete_lines [] (p ++ bytes_of s chunks)).1) here)
]

-- However the chunks of the two streams of a new view are interleaved, what waits on a stream is
-- what that stream's own bytes end in after their last newline.
pub pending-ingest_all :
    (s : LogStream) (chunks : List (LogStream × List ℕ)) (id name : List ℕ) (sub : ℕ)
    → pending s (ingest_all (new id name sub) chunks) ≡ (complete_lines [] (bytes_of s chunks)).1
unfolding new
pending-ingest_all stdout chunks id name sub =
    pending-ingest_all_from stdout chunks (new id name sub) tt
pending-ingest_all stderr chunks id name sub =
    pending-ingest_all_from stderr chunks (new id name sub) tt
