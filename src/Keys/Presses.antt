-- ===== src/Keys/Presses.antt =====
-- Key presses that are sent in one chunk: `ScopeKeyParser::parse` of crates/tepegoz-tui/src/app.rs
-- beside the sequences that a terminal sends.
use tepegoz.Prelude.{
  ℕ, ◌≡◌, ◌≢◌, refl, ◌∙◌, Bool, true, false, List, [], ◌∷◌, ◌++◌, append-nil, arith, if◌then◌else◌,
}
use tepegoz.Keys.Chunks.{read_keys-append}
use tepegoz.Keys.{
  ScopeKey, up, down, home, end, pg_up, pg_dn, escape, enter, backspace, char, normal, key_turn,
  csi_turn, tilde, plain, read_keys, flush_escape, parse_keys, esc,
}

-- What a terminal sends for a key. The two spellings of a key are told apart by a Boolean.
pub data Press : Type 0 where
  byte : (b : ℕ) → b ≢ 0x1b → b ≢ 0x7f → b ≢ 0x08 → b ≢ 10 → b ≢ 13 → Press
  return_key erase_key : Bool → Press
  up_arrow down_arrow left_arrow right_arrow home_key end_key page_up page_down : Press
  home_tilde end_tilde : Bool → Press

abbrev csi : List ℕ → List ℕ
csi bs = 0x1b ∷ b'[' ∷ bs

abbrev pub sent : Press → List ℕ
sent (byte b _ _ _ _ _) = b ∷ []
sent (return_key c) = (if c then 13 else 10) ∷ []
sent (erase_key c) = (if c then 0x7f else 0x08) ∷ []
sent up_arrow = csi (b'A' ∷ [])
sent down_arrow = csi (b'B' ∷ [])
sent right_arrow = csi (b'C' ∷ [])
sent left_arrow = csi (b'D' ∷ [])
sent home_key = csi (b'H' ∷ [])
sent end_key = csi (b'F' ∷ [])
sent page_up = csi (b'5' ∷ b'~' ∷ [])
sent page_down = csi (b'6' ∷ b'~' ∷ [])
sent (home_tilde c) = csi ((if c then b'1' else b'7') ∷ b'~' ∷ [])
sent (end_tilde c) = csi ((if c then b'4' else b'8') ∷ b'~' ∷ [])

-- The keys that it stands for: none for an arrow to the side.
abbrev pub meant : Press → List ScopeKey
meant (byte b _ _ _ _ _) = char b ∷ []
meant (return_key c) = enter ∷ []
meant (erase_key c) = backspace ∷ []
meant up_arrow = up ∷ []
meant down_arrow = down ∷ []
meant left_arrow = []
meant right_arrow = []
meant home_key = home ∷ []
meant end_key = end ∷ []
meant page_up = pg_up ∷ []
meant page_down = pg_dn ∷ []
meant (home_tilde c) = home ∷ []
meant (end_tilde c) = end ∷ []

abbrev pub sent_all : List Press → List ℕ
sent_all [] = []
sent_all (p ∷ ps) = sent p ++ sent_all ps

abbrev pub meant_all : List Press → List ScopeKey
meant_all [] = []
meant_all (p ∷ ps) = meant p ++ meant_all ps

read_keys-sent : (p : Press) → read_keys normal (sent p) ≡ (meant p, normal)
unfolding read_keys key_turn plain csi_turn tilde
read_keys-sent (byte b h1 h2 h3 h4 h5) = ground arith
read_keys-sent (return_key true) = refl
read_keys-sent (return_key false) = refl
read_keys-sent (erase_key true) = refl
read_keys-sent (erase_key false) = refl
read_keys-sent up_arrow = refl
read_keys-sent down_arrow = refl
read_keys-sent left_arrow = refl
read_keys-sent right_arrow = refl
read_keys-sent home_key = refl
read_keys-sent end_key = refl
read_keys-sent page_up = refl
read_keys-sent page_down = refl
read_keys-sent (home_tilde true) = refl
read_keys-sent (home_tilde false) = refl
read_keys-sent (end_tilde true) = refl
read_keys-sent (end_tilde false) = refl

read_keys-sent_all : (ps : List Press) → read_keys normal (sent_all ps) ≡ (meant_all ps, normal)
unfolding read_keys
read_keys-sent_all [] = refl
read_keys-sent_all (p ∷ ps) =
    read_keys-append normal (sent p) (sent_all ps)
    ∙ rw (read_keys-sent p, read_keys-sent_all ps) refl

-- The presses of a chunk are read back, one after the other, and the parser is at rest again. An
-- ESC after them is a press of Escape.
pub parse_keys-sent_all :
    (ps : List Press)
    → (parse_keys normal (sent_all ps) ≡ (meant_all ps, normal))
      × (parse_keys normal (sent_all ps ++ esc ∷ []) ≡ (meant_all ps ++ escape ∷ [], normal))
unfolding parse_keys read_keys flush_escape key_turn
parse_keys-sent_all ps = (
  rw (read_keys-sent_all ps) refl,
  rw (read_keys-append normal (sent_all ps) (esc ∷ []), read_keys-sent_all ps, append-nil) refl,
)
