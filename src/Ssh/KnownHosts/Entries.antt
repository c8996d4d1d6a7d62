-- ===== src/Ssh/KnownHosts/Entries.antt =====
-- What a known_hosts line is that names a host, told apart from the code that looks for it: the entries
-- of `KnownHostsStore::forget` of crates/tepegoz-ssh/src/known_hosts.rs.
use tepegoz.Prelude.{
  ℕ, ◌≡◌, ◌≢◌, refl, ap, sym, ◌∙◌, true, false, ◌||◌, ◌↔◌, List, [], ◌∷◌, ◌++◌, ◌==◌, All, arith,
  Bool-cases, inl, inr, is_empty,
}
use mathlib.Core.Path.{subst}
use tepegoz.Text.{to_string}
use tepegoz.Text.Same.{same_text, same_text_iff}
use tepegoz.Ssh.Chars.{
  is_whitespace, trim_start, until_whitespace, first_token, unwrap_or_empty, some_unless_empty,
}
use tepegoz.Ssh.KnownHosts.{is_entry_of, starts_hash, target}

-- The name of a host in the file: itself on port 22, `[host]:port` on any other.
pub data IsNameOf (hostname : List ℕ) : ℕ → List ℕ → Type 0 where
  plain : IsNameOf hostname 22 hostname
  with_port :
      (port : ℕ)
      → port ≢ 22
      → IsNameOf hostname port (b'[' ∷ (hostname ++ (b']' ∷ b':' ∷ to_string port)))

abbrev pub Blank : ℕ → Type 0
Blank c = is_whitespace c ≡ true

abbrev pub Black : ℕ → Type 0
Black c = is_whitespace c ≡ false

-- A name that is not empty, has no white space and does not begin a comment.
abbrev pub IsName : List ℕ → Type 0
IsName [] = ⊥
IsName (c ∷ cs) = (c ≢ b'#') × Black c × All Black cs

abbrev pub Ends : List ℕ → Type 0
Ends [] = Unit
Ends (c ∷ cs) = Blank c

-- A line that holds the name, indented or not, and then nothing or white space and anything.
pub data IsEntry (name : List ℕ) : List ℕ → Type 0 where
  entry :
      (indent rest : List ℕ)
      → All Blank indent
      → Ends rest
      → IsEntry name (indent ++ (name ++ rest))

pub target-IsNameOf :
    (hostname : List ℕ) (port : ℕ) (name : List ℕ)
    → IsNameOf hostname port name
    → target hostname port ≡ name
unfolding target
target-IsNameOf hostname _ _ plain = refl
target-IsNameOf hostname port _ (with_port _ other) =
    let e : (port == 22) ≡ false = ground (arith, other) in rw e refl

trim_start-split :
    (line : List ℕ) → (indent : List ℕ) × All Blank indent × (indent ++ trim_start line ≡ line)
unfolding trim_start
trim_start-split [] = ([], tt, refl)
trim_start-split (c ∷ cs) = elim (Bool-cases (is_whitespace c)) [
  | inl e ↦ let (indent, h, eq) = trim_start-split cs in (c ∷ indent, (e, h), rw e (ap (◌∷◌ c) eq))
  | inr e ↦ ([], tt, rw e refl)
]

until-split : (text : List ℕ) → (rest : List ℕ) × Ends rest × (until_whitespace text ++ rest ≡ text)
unfolding until_whitespace
until-split [] = ([], tt, refl)
until-split (c ∷ cs) = elim (Bool-cases (is_whitespace c)) [
  | inl e ↦ (c ∷ cs, e, rw e refl)
  | inr e ↦ let (rest, h, eq) = until-split cs in (rest, h, rw e (ap (◌∷◌ c) eq))
]

trim_start_twice : (line : List ℕ) → trim_start (trim_start line) ≡ trim_start line
unfolding trim_start
trim_start_twice [] = refl
trim_start_twice (c ∷ cs) = elim (Bool-cases (is_whitespace c)) [
  | inl e ↦ rw e (trim_start_twice cs)
  | inr e ↦ rw (e, e) refl
]

unwrap : (text : List ℕ) → unwrap_or_empty (some_unless_empty text) ≡ text
unwrap [] = refl
unwrap (c ∷ cs) = refl

first_token-trimmed :
    (line : List ℕ)
    → unwrap_or_empty (first_token (trim_start line)) ≡ until_whitespace (trim_start line)
unfolding first_token
first_token-trimmed line = unwrap _ ∙ ap until_whitespace (trim_start_twice line)

trim_start-indented :
    (indent : List ℕ) (c : ℕ) (cs : List ℕ)
    → All Blank indent
    → Black c
    → trim_start (indent ++ c ∷ cs) ≡ c ∷ cs
unfolding trim_start
trim_start-indented [] c cs h b = rw b refl
trim_start-indented (d ∷ indent) c cs h b = rw h.0 (trim_start-indented indent c cs h.1 b)

until-name :
    (name rest : List ℕ) → All Black name → Ends rest → until_whitespace (name ++ rest) ≡ name
unfolding until_whitespace
until-name [] [] h e = refl
until-name [] (c ∷ cs) h e = rw e refl
until-name (c ∷ name) rest h e = rw h.0 (ap (◌∷◌ c) (until-name name rest h.1 e))

IsEntry-found :
    (name line : List ℕ) → IsName name → IsEntry name line → is_entry_of name line ≡ true
unfolding is_entry_of
IsEntry-found [] line n e = elim n [ ]
IsEntry-found (c ∷ cs) _ n (entry indent rest h e) =
    let trimmed = trim_start-indented indent c (cs ++ rest) h n.1 in
    let not_hash : (c == b'#') ≡ false = ground (arith, n.0) in
    let first = first_token-trimmed (indent ++ (c ∷ cs ++ rest)) in
    let word = until-name (c ∷ cs) rest (n.1, n.2) e in
    rw (first, trimmed, not_hash, word) ((same_text_iff (c ∷ cs) (c ∷ cs)).1 refl)

found-IsEntry : (name line : List ℕ) → is_entry_of name line ≡ true → IsEntry name line
unfolding is_entry_of
found-IsEntry name line h =
    let (indent, blank, at) = trim_start-split line in
    let (rest, ends, word) = until-split (trim_start line) in
    elim (Bool-cases (is_empty (trim_start line) || starts_hash (trim_start line))) [
      | inl e ↦ let no : false ≡ true = rw e at h in cc
      | inr e ↦
          let same : until_whitespace (trim_start line) ≡ name =
            (same_text_iff _ name).0
              (ap (λ t. same_text t name) (sym (first_token-trimmed line)) ∙ rw e at h) in
          subst (IsEntry name)
            (ap (λ w. indent ++ (w ++ rest)) (sym same) ∙ ap (λ t. indent ++ t) word ∙ at)
            (entry indent rest blank ends)
    ]

-- The code takes exactly the entries of the name for its entries.
pub is_entry_of-IsEntry :
    (name line : List ℕ) → IsName name → (is_entry_of name line ≡ true) ↔ IsEntry name line
is_entry_of-IsEntry name line n = (found-IsEntry name line, IsEntry-found name line n)
