-- ===== src/Mouse/Tests.antt =====
-- Runs of the mouse parser of crates/tepegoz-tui/src/mouse.rs.
use tepegoz.Prelude.{ℕ, List, [], ◌∷◌, ◌++◌}
use tepegoz.Mouse.{idle, parse, sgr_press}
use tepegoz.Mouse.Stripped.{Stripped, pending, parse-Stripped}
use tepegoz.Mouse.Reports.{report}

-- A click on the cell (9, 4) between two bytes.
abbrev clicked : List ℕ
clicked = b'a' ∷ report 0 9 4 sgr_press ++ b'b' ∷ []

parse-Stripped_example :
    Stripped
      (pending idle ++ clicked)
      ((parse idle clicked).0 ++ pending (parse idle clicked).2)
      (parse idle clicked).1
parse-Stripped_example = parse-Stripped idle clicked tt
