-- ===== src/Ssh/Shell.antt =====
-- The quoting of paths for the remote shell: `shell_quote` and the commands of
-- crates/tepegoz-ssh/src/deploy.rs, and what a POSIX shell makes of them.
use tepegoz.Prelude.{
  ℕ, ◌≡◌, refl, ap, sym, ◌∙◌, true, false, ◌||◌, Option, none, some, List, [], ◌∷◌, ◌++◌, ◌==◌,
  if◌then◌else◌, append_assoc, append-nil, arith, Bool-cases, inl, inr,
}
use tepegoz.Text.Same.{same_text}
use tepegoz.Ssh.Chars.{chars}

abbrev pub quote : ℕ
quote = 39

abbrev pub backslash : ℕ
backslash = 92

unfoldable pub escape_quotes : List ℕ → List ℕ
escape_quotes [] = []
escape_quotes (c ∷ cs) =
    let rest = escape_quotes cs in
    if c == quote then quote ∷ backslash ∷ quote ∷ quote ∷ rest else c ∷ rest

unfoldable pub shell_quote : List ℕ → List ℕ
shell_quote text = quote ∷ escape_quotes text ++ quote ∷ []

unfoldable pub mkdir_command : List ℕ → List ℕ
mkdir_command remote_dir = chars "mkdir -p " ++ shell_quote remote_dir

unfoldable pub upload_command : List ℕ → List ℕ
upload_command tmp_path = chars "cat > " ++ shell_quote tmp_path

unfoldable pub cleanup_command : List ℕ → List ℕ
cleanup_command tmp_path = chars "rm -f " ++ shell_quote tmp_path

unfoldable pub finalize_command : List ℕ → List ℕ → List ℕ
finalize_command tmp_path final_path =
    chars "mv "
    ++ (shell_quote tmp_path
        ++ (chars " "
            ++ (shell_quote final_path ++ (chars " && chmod +x " ++ shell_quote final_path))))

unfoldable pub presence_command : List ℕ → List ℕ
presence_command remote_path =
    chars "[ -f " ++ shell_quote remote_path ++ chars " ] && echo present || echo absent"

unfoldable pub hash_command : List ℕ → List ℕ → List ℕ
hash_command os path =
    if same_text os (chars "darwin")
    then chars "shasum -a 256 -b " ++ shell_quote path
    else chars "sha256sum -b " ++ shell_quote path

unfoldable pub stat_command : List ℕ → List ℕ → List ℕ
stat_command os path =
    if same_text os (chars "darwin")
    then chars "stat -f '%z %m' " ++ shell_quote path
    else chars "stat -c '%s %Y' " ++ shell_quote path

-- The words of a command, as a POSIX shell takes it apart. A control operator between blanks stands as a
-- word. What a shell expands, outside of quotes, is refused: a dollar sign, a backquote, a double quote,
-- a star, a question mark, a semicolon, a parenthesis, a tilde or a hash sign.
pub data Class : Type 0 where
  blank opens_quote escapes special plain : Class

unfoldable pub class_of : ℕ → Class
class_of c =
    if (c == 32) || ((c == 9) || (c == 10))
    then blank
    else if c == quote
    then opens_quote
    else if c == backslash
    then escapes
    else if (c == 36)
        || ((c == 96)
            || ((c == 34)
                || ((c == 42)
                    || ((c == 63)
                        || ((c == 59)
                            || ((c == 40) || ((c == 41) || ((c == 126) || (c == 35)))))))))
    then special
    else plain

pub data Mode : Type 0 where
  between in_word in_quotes after_backslash : Mode

unfoldable pub onto_words : List ℕ → Option (List (List ℕ)) → Option (List (List ℕ))
onto_words word none = none
onto_words word (some words) = some (word ∷ words)

unfoldable pub read_words : Mode → List ℕ → List ℕ → Option (List (List ℕ))
unfolding class_of onto_words
read_words between word [] = some []
read_words in_word word [] = some (word ∷ [])
read_words in_quotes word [] = none
read_words after_backslash word [] = none
read_words after_backslash word (c ∷ cs) = read_words in_word (word ++ c ∷ []) cs
read_words in_quotes word (c ∷ cs) = elim (c == quote) [
  | true ↦ read_words in_word word cs
  | false ↦ read_words in_quotes (word ++ c ∷ []) cs
]
read_words between word (c ∷ cs) = elim (class_of c) [
  | blank ↦ read_words between [] cs
  | opens_quote ↦ read_words in_quotes word cs
  | escapes ↦ read_words after_backslash word cs
  | special ↦ none
  | plain ↦ read_words in_word (word ++ c ∷ []) cs
]
read_words in_word word (c ∷ cs) = elim (class_of c) [
  | blank ↦ onto_words word (read_words between [] cs)
  | opens_quote ↦ read_words in_quotes word cs
  | escapes ↦ read_words after_backslash word cs
  | special ↦ none
  | plain ↦ read_words in_word (word ++ c ∷ []) cs
]

unfoldable pub shell_words : List ℕ → Option (List (List ℕ))
unfolding read_words
shell_words command = read_words between [] command

read_words-quoted :
    (c : ℕ) (word cs : List ℕ)
    → (c == quote) ≡ false
    → read_words in_quotes word (c ∷ cs) ≡ read_words in_quotes (word ++ c ∷ []) cs
unfolding read_words
read_words-quoted c word cs e = rw (e, read_words) refl

read_words-escape_quotes :
    (text word rest : List ℕ)
    → read_words in_quotes word (escape_quotes text ++ quote ∷ rest)
      ≡ read_words in_word (word ++ text) rest
unfolding escape_quotes read_words class_of
read_words-escape_quotes [] word rest = ap (λ w. read_words in_word w rest) (sym (append-nil word))
read_words-escape_quotes (c ∷ text) word rest = elim (Bool-cases (c == quote)) [
  | inl e ↦
      let same : quote ≡ c = ground arith in
      rw e (
        read_words-escape_quotes text (word ++ quote ∷ []) rest
        ∙ ap (λ w. read_words in_word w rest) (append_assoc word (quote ∷ []) text)
        ∙ ap (λ q. read_words in_word (word ++ q ∷ text) rest) same)
  | inr e ↦ rw e (
      read_words-quoted c word (escape_quotes text ++ quote ∷ rest) e
      ∙ read_words-escape_quotes text (word ++ c ∷ []) rest
      ∙ ap (λ w. read_words in_word w rest) (append_assoc word (c ∷ []) text))
]

read_words-shell_quote :
    (text rest : List ℕ)
    → read_words between [] (shell_quote text ++ rest) ≡ read_words in_word text rest
unfolding shell_quote read_words class_of
read_words-shell_quote text rest =
    ap (read_words in_quotes []) (append_assoc (escape_quotes text) (quote ∷ []) rest)
    ∙ read_words-escape_quotes text [] rest

quoted_then :
    (text cs : List ℕ)
    → read_words between [] (shell_quote text ++ 32 ∷ cs)
      ≡ onto_words text (read_words between [] cs)
unfolding read_words class_of
quoted_then text cs = read_words-shell_quote text (32 ∷ cs)

operators_then :
    (cs : List ℕ)
    → read_words between [] (chars "&& chmod +x " ++ cs)
      ≡ onto_words
          (chars "&&")
          (onto_words (chars "chmod") (onto_words (chars "+x") (read_words between [] cs)))
unfolding read_words class_of
operators_then cs = refl

-- A quoted text is read by the shell as one word, which is the text: whatever characters it has, none
-- of them ends the word or is expanded.
pub shell_words-shell_quote : (text : List ℕ) → shell_words (shell_quote text) ≡ some (text ∷ [])
unfolding shell_words read_words
shell_words-shell_quote text =
    ap (read_words between []) (sym (append-nil (shell_quote text)))
    ∙ read_words-shell_quote text []

chmod_words :
    (final : List ℕ)
    → read_words between [] (shell_quote final ++ (chars " && chmod +x " ++ shell_quote final))
      ≡ some (final ∷ chars "&&" ∷ chars "chmod" ∷ chars "+x" ∷ final ∷ [])
unfolding onto_words shell_words
chmod_words final =
    let first : read_words between []
          (shell_quote final ++ (chars " && chmod +x " ++ shell_quote final))
        ≡ onto_words final (read_words between [] (chars "&& chmod +x " ++ shell_quote final)) =
      quoted_then final (chars "&& chmod +x " ++ shell_quote final) in
    let last : read_words between [] (shell_quote final) ≡ some (final ∷ []) =
      shell_words-shell_quote final in
    first ∙ rw (operators_then (shell_quote final), last) refl

-- Each command by which the deployment makes the directory, writes the file, removes it after a
-- failure and puts it in place is read by the remote shell as the words that are meant, whatever the
-- paths are.
pub shell_words-commands :
    (dir tmp final : List ℕ)
    → (shell_words (mkdir_command dir) ≡ some (chars "mkdir" ∷ chars "-p" ∷ dir ∷ []))
      × (shell_words (upload_command tmp) ≡ some (chars "cat" ∷ chars ">" ∷ tmp ∷ []))
      × (shell_words (cleanup_command tmp) ≡ some (chars "rm" ∷ chars "-f" ∷ tmp ∷ []))
      × (shell_words (finalize_command tmp final)
          ≡ some (chars "mv" ∷ tmp ∷ final ∷ chars "&&" ∷ chars "chmod" ∷ chars "+x" ∷ final ∷ []))
unfolding shell_words mkdir_command upload_command cleanup_command finalize_command read_words
    class_of
shell_words-commands dir tmp final = (
  ap (λ r. onto_words (chars "mkdir") (onto_words (chars "-p") r)) (shell_words-shell_quote dir),
  ap (λ r. onto_words (chars "cat") (onto_words (chars ">") r)) (shell_words-shell_quote tmp),
  ap (λ r. onto_words (chars "rm") (onto_words (chars "-f") r)) (shell_words-shell_quote tmp),
  ap (onto_words (chars "mv")) (
      quoted_then tmp (shell_quote final ++ (chars " && chmod +x " ++ shell_quote final))
      ∙ ap (onto_words tmp) (chmod_words final)),
)
