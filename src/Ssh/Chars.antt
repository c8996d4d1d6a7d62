-- ===== src/Ssh/Chars.antt =====
-- The parts of Rust's `str` that crates/tepegoz-ssh uses, on lists of characters.
use Prim.Native.Char.{code}
use Prim.Native.String.{String}
use tepegoz.Prelude.{
  ℕ, Bool, false, ◌&&◌, ◌||◌, Option, none, some, List, [], ◌∷◌, ◌++◌, leb, ◌==◌, if◌then◌else◌,
}

-- A literal of the source.
abbrev pub chars : String → List ℕ
chars String.[] = []
chars (String.◌∷◌ c s) = code c ∷ chars s

abbrev pub newline : ℕ
newline = 10

abbrev pub carriage_return : ℕ
carriage_return = 13

-- `char::is_whitespace`, the Unicode property White_Space.
unfoldable pub is_whitespace : ℕ → Bool
is_whitespace c =
    (leb 9 c && leb c 13)
    || (c == 32
        || (c == 0x85
            || (c == 0xa0
                || (c == 0x1680
                    || ((leb 0x2000 c && leb c 0x200a)
                        || (c == 0x2028
                            || (c == 0x2029 || (c == 0x202f || (c == 0x205f || c == 0x3000)))))))))

unfoldable pub trim_start : List ℕ → List ℕ
trim_start [] = []
trim_start (c ∷ cs) = let rest = trim_start cs in if is_whitespace c then rest else c ∷ cs

-- The characters up to the first white space.
unfoldable pub until_whitespace : List ℕ → List ℕ
until_whitespace [] = []
until_whitespace (c ∷ cs) =
    let rest = until_whitespace cs in if is_whitespace c then [] else c ∷ rest

unfoldable pub after_token : List ℕ → List ℕ
after_token [] = []
after_token (c ∷ cs) = let rest = after_token cs in if is_whitespace c then c ∷ cs else rest

-- `split_whitespace().next()`
abbrev pub some_unless_empty : List ℕ → Option (List ℕ)
some_unless_empty [] = none
some_unless_empty (c ∷ cs) = some (c ∷ cs)

unfoldable pub first_token : List ℕ → Option (List ℕ)
first_token text = some_unless_empty (until_whitespace (trim_start text))

-- What `split_whitespace` has left after its first item.
unfoldable pub other_tokens : List ℕ → List ℕ
other_tokens text = after_token (trim_start text)

abbrev pub unwrap_or_empty : Option (List ℕ) → List ℕ
unwrap_or_empty none = []
unwrap_or_empty (some text) = text

abbrev pub starts_newline : List ℕ → Bool
starts_newline [] = false
starts_newline (c ∷ cs) = c == newline

abbrev pub onto_line : ℕ → List (List ℕ) → List (List ℕ)
onto_line c [] = (c ∷ []) ∷ []
onto_line c (line ∷ more) = (c ∷ line) ∷ more

-- `str::lines`: a line ends with a newline, before which one carriage return is dropped, or with the
-- text.
unfoldable pub lines : List ℕ → List (List ℕ)
lines [] = []
lines (c ∷ cs) =
    let rest = lines cs in
    if c == newline
    then [] ∷ rest
    else if (c == carriage_return) && starts_newline cs
    then rest
    else onto_line c rest

-- The lines, each of them followed by a newline.
unfoldable pub unlines : List (List ℕ) → List ℕ
unlines [] = []
unlines (line ∷ more) = line ++ newline ∷ unlines more
