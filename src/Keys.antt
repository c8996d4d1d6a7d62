-- ===== src/Keys.antt =====
-- Key presses in a scope tile: `ScopeKeyParser` of crates/tepegoz-tui/src/app.rs. A byte is a
-- number; `take` on the parser's state is the match on it.
pub mod Chunks
pub mod Presses
mod Tests
use tepegoz.Prelude.{
  ℕ, Bool, true, false, List, [], ◌∷◌, ◌++◌, leb, ◌==◌, if◌then◌else◌, ◌&&◌, ◌||◌,
}

pub data ScopeKey : Type 0 where
  up down top bottom home end pg_up pg_dn filter_start escape enter backspace : ScopeKey
  char : ℕ → ScopeKey

pub data KeyParserState : Type 0 where
  normal in_escape : KeyParserState
  in_csi : List ℕ → KeyParserState

abbrev pub esc : ℕ
esc = 0x1b

-- A byte that is read outside a sequence, ESC aside.
unfoldable pub plain : ℕ → ScopeKey
plain b =
    if (b == 0x7f) || (b == 0x08)
    then backspace
    else if (b == 10) || (b == 13)
    then enter
    else char b

-- What `accum` and a final `~` stand for.
unfoldable pub tilde : List ℕ → List ScopeKey
tilde [] = []
tilde (b ∷ []) =
    if (b == b'1') || (b == b'7')
    then home ∷ []
    else if (b == b'4') || (b == b'8')
    then end ∷ []
    else if b == b'5'
    then pg_up ∷ []
    else if b == b'6'
    then pg_dn ∷ []
    else []
tilde (b ∷ c ∷ bs) = []

abbrev is_param : ℕ → Bool
is_param b = (leb b'0' b && leb b b'9') || (b == b';')

unfoldable pub csi_turn : List ℕ → ℕ → List ScopeKey × KeyParserState
unfolding tilde
csi_turn accum b =
    if b == b'A'
    then (up ∷ [], normal)
    else if b == b'B'
    then (down ∷ [], normal)
    else if (b == b'C') || (b == b'D')
    then ([], normal)
    else if b == b'H'
    then (home ∷ [], normal)
    else if b == b'F'
    then (end ∷ [], normal)
    else if b == b'~'
    then (tilde accum, normal)
    else if is_param b
    then ([], in_csi (accum ++ b ∷ []))
    else ([], normal)

unfoldable pub key_turn : KeyParserState → ℕ → List ScopeKey × KeyParserState
unfolding plain csi_turn
key_turn normal b = if b == esc then ([], in_escape) else (plain b ∷ [], normal)
key_turn in_escape b =
    if b == b'['
    then ([], in_csi [])
    else if b == esc
    then (escape ∷ [], in_escape)
    else (escape ∷ plain b ∷ [], normal)
key_turn (in_csi accum) b = csi_turn accum b

-- The `for` loop.
unfoldable pub read_keys : KeyParserState → List ℕ → List ScopeKey × KeyParserState
unfolding key_turn
read_keys st [] = ([], st)
read_keys st (b ∷ bs) =
    let (keys, st') = key_turn st b in let (more, last) = read_keys st' bs in (keys ++ more, last)

-- A lone ESC at the end of a chunk is a press of Escape.
unfoldable pub flush_escape : List ScopeKey × KeyParserState → List ScopeKey × KeyParserState
flush_escape (keys, in_escape) = (keys ++ escape ∷ [], normal)
flush_escape (keys, normal) = (keys, normal)
flush_escape (keys, in_csi accum) = (keys, in_csi accum)

unfoldable pub parse_keys : KeyParserState → List ℕ → List ScopeKey × KeyParserState
unfolding read_keys flush_escape
parse_keys st bytes = flush_escape (read_keys st bytes)
