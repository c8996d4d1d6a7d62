-- ===== src/Keys/Tests.antt =====
-- Runs of the key parser of crates/tepegoz-tui/src/app.rs.
use tepegoz.Prelude.{◌≡◌, true, List, [], ◌∷◌, ◌++◌}
use tepegoz.Keys.{normal, escape, esc, parse_keys, read_keys}
use tepegoz.Keys.Chunks.{Settled}
use tepegoz.Keys.Presses.{
  Press, page_up, home_tilde, return_key, sent_all, meant_all, parse_keys-sent_all,
}

abbrev presses : List Press
presses = page_up ∷ home_tilde true ∷ return_key true ∷ []

parse_keys-sent_all_example :
    (parse_keys normal (sent_all presses) ≡ (meant_all presses, normal))
    × (parse_keys normal (sent_all presses ++ esc ∷ [])
        ≡ (meant_all presses ++ escape ∷ [], normal))
parse_keys-sent_all_example = parse_keys-sent_all presses

-- Page Up, cut before its last byte.
cut-Settled : Settled (read_keys normal (esc ∷ b'[' ∷ b'5' ∷ [])).1
unfolding read_keys
cut-Settled = tt
