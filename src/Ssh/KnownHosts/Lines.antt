-- ===== src/Ssh/KnownHosts/Lines.antt =====
-- A text that is written line by line is read back line by line: `str::lines` and `push_str` as
-- crates/tepegoz-ssh/src/known_hosts.rs uses them.
use tepegoz.Prelude.{
  ℕ, ◌≡◌, ◌≢◌, refl, ap, ◌∙◌, false, List, [], ◌∷◌, ◌++◌, ◌==◌, All, arith, Bool-cases, inl, inr,
}
use tepegoz.Ssh.Chars.{lines, unlines, newline, carriage_return, onto_line}

abbrev pub IsLineChar : ℕ → Type 0
IsLineChar c = (c ≢ newline) × (c ≢ carriage_return)

abbrev pub IsLine : List ℕ → Type 0
IsLine = All IsLineChar

pub lines-line :
    (line rest : List ℕ) → IsLine line → lines (line ++ newline ∷ rest) ≡ line ∷ lines rest
unfolding lines
lines-line [] rest h = refl
lines-line (c ∷ line) rest h =
    let a : (c == newline) ≡ false = ground (arith, h.0.0) in
    let b : (c == carriage_return) ≡ false = ground (arith, h.0.1) in
    rw (a, b) (ap (onto_line c) (lines-line line rest h.1))

pub lines-unlines : (ls : List (List ℕ)) → All IsLine ls → lines (unlines ls) ≡ ls
unfolding unlines lines
lines-unlines [] h = refl
lines-unlines (line ∷ ls) h =
    lines-line line (unlines ls) h.0 ∙ ap (◌∷◌ line) (lines-unlines ls h.1)

onto_line-IsLine :
    (c : ℕ) (ls : List (List ℕ)) → IsLineChar c → All IsLine ls → All IsLine (onto_line c ls)
onto_line-IsLine c [] h k = ((h, tt), tt)
onto_line-IsLine c (line ∷ ls) h k = ((h, k.0), k.1)

-- The lines of a text without carriage returns hold neither these nor newlines.
pub lines-IsLine : (text : List ℕ) → All (λ c. c ≢ carriage_return) text → All IsLine (lines text)
unfolding lines
lines-IsLine [] h = tt
lines-IsLine (c ∷ cs) h =
    let rest = lines-IsLine cs h.1 in
    let b : (c == carriage_return) ≡ false = ground (arith, h.0) in
    elim (Bool-cases (c == newline)) [
      | inl a ↦ rw a (tt, rest)
      | inr a ↦ rw (a, b) (onto_line-IsLine c (lines cs) (ground arith, h.0) rest)
    ]
