-- ===== src/Logs/Tests.antt =====
-- Runs of a container's log view of crates/tepegoz-tui/src/app.rs.
use tepegoz.Prelude.{ℕ, ◌≡◌, ◌≤◌, List, [], ◌∷◌, ◌++◌, arith, length, map}
use tepegoz.Text.{split}
use tepegoz.Logs.{
  LogsView, LogStream, stdout, stderr, new, ingest, pending, scroll_up, max_log_lines,
}
use tepegoz.Logs.Scroll.{IsValid, opened, ingested, up, Reached-IsValid}
use tepegoz.Logs.Transcript.{shown, to_lines, last_lines, ingest-lines}

abbrev view : LogsView
view = new (b'7' ∷ []) (b'w' ∷ []) 9

-- A line with CR LF and the first half of another.
abbrev chunk : List ℕ
chunk = b'o' ∷ b'k' ∷ 13 ∷ 10 ∷ b'h' ∷ []

abbrev rest : List ℕ
rest = b'i' ∷ 10 ∷ []

view_fits : length view.lines ≤ max_log_lines
unfolding new
view_fits = omega arith

Reached-IsValid_example : IsValid (scroll_up (ingest view stdout chunk) 3)
Reached-IsValid_example =
    Reached-IsValid (scroll_up (ingest view stdout chunk) 3)
      (up 3 (ingested stdout chunk (opened (b'7' ∷ []) (b'w' ∷ []) 9)))

ingest-lines_example :
    (raw : List (List ℕ)) × (split 10 (pending stdout view ++ chunk)
      ≡ raw ++ pending stdout (ingest view stdout chunk) ∷ [])
    × ((ingest view stdout chunk).lines
        ≡ last_lines (view.lines ++ to_lines stdout (map shown raw)))
ingest-lines_example = ingest-lines view stdout chunk view_fits

abbrev mixed : List (LogStream × List ℕ)
mixed = (stdout, chunk) ∷ (stderr, b'!' ∷ []) ∷ (stdout, rest) ∷ []
