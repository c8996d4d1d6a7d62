-- ===== src/Ssh/KnownHosts/Forget.antt =====
-- What `KnownHostsStore::forget` leaves of the file: crates/tepegoz-ssh/src/known_hosts.rs.
use tepegoz.Prelude.{
  ℕ, suc, ◌≡◌, ◌≢◌, refl, sym, ap, ◌∙◌, Bool, true, false, not, List, [], ◌∷◌, ◌==◌, All, arith,
  Bool-cases, inl, inr, filter_by, length, All-filter_by, All-map, ==_iff,
}
use tepegoz.Ssh.Chars.{lines, unlines, carriage_return}
use tepegoz.Ssh.KnownHosts.{
  Stored, missing, unreadable, holds, done, target, is_entry_of, forget_lines, rewrite, forget,
}
use tepegoz.Ssh.KnownHosts.Entries.{IsName, IsNameOf, IsEntry, is_entry_of-IsEntry, target-IsNameOf}
use tepegoz.Ssh.KnownHosts.Lines.{IsLine, lines-unlines, lines-IsLine}

abbrev pub entries : List ℕ → List (List ℕ) → List (List ℕ)
entries host = filter_by (is_entry_of host)

abbrev pub others : List ℕ → List (List ℕ) → List (List ℕ)
others host = filter_by (λ line. not (is_entry_of host line))

abbrev pub lines_of : Stored → List (List ℕ)
lines_of missing = []
lines_of unreadable = []
lines_of (holds raw) = lines raw

forget_lines_lem :
    (host : List ℕ) (ls : List (List ℕ))
    → forget_lines host ls ≡ (length (entries host ls), unlines (others host ls))
unfolding forget_lines unlines
forget_lines_lem host [] = refl
forget_lines_lem host (line ∷ ls) = elim (Bool-cases (is_entry_of host line)) [
  | inl e ↦ rw (e, forget_lines_lem host ls) refl
  | inr e ↦ rw (e, forget_lines_lem host ls) refl
]

others-none :
    (host : List ℕ) (ls : List (List ℕ)) → length (entries host ls) ≡ 0 → others host ls ≡ ls
others-none host [] h = refl
others-none host (line ∷ ls) h = elim (Bool-cases (is_entry_of host line)) [
  | inl e ↦ let no : suc (length (entries host ls)) ≡ 0 = rw e at h in ground arith
  | inr e ↦ rw e (ap (◌∷◌ line) (others-none host ls (rw e at h)))
]

entries-others : (host : List ℕ) (ls : List (List ℕ)) → entries host (others host ls) ≡ []
entries-others host [] = refl
entries-others host (line ∷ ls) = elim (Bool-cases (is_entry_of host line)) [
  | inl e ↦ rw e (entries-others host ls)
  | inr e ↦ rw (e, e) (entries-others host ls)
]

forget-filtered :
    (hostname : List ℕ) (port : ℕ) (raw : List ℕ)
    → All (λ c. c ≢ carriage_return) raw
    → ((forget hostname port true (holds raw)).0
        ≡ done (length (entries (target hostname port) (lines raw))))
      × (lines_of (forget hostname port true (holds raw)).1
          ≡ others (target hostname port) (lines raw))
unfolding forget rewrite
forget-filtered hostname port raw plain =
    let host = target hostname port in
    let n = length (entries host (lines raw)) in
    let kept_lines : lines (unlines (others host (lines raw))) ≡ others host (lines raw) =
      lines-unlines (others host (lines raw)) (
        All-map _ (λ line h. h.1)
          (All-filter_by IsLine (λ line. not (is_entry_of host line)) (lines raw)
            (lines-IsLine raw plain))) in
    elim (Bool-cases (n == 0)) [
      | inl e ↦
          let zero_left : n ≡ 0 = (==_iff n 0).0 e in
          rw (forget_lines_lem host (lines raw), e)
            (ap done (sym zero_left), sym (others-none host (lines raw) zero_left))
      | inr e ↦ rw (forget_lines_lem host (lines raw), e) (refl, kept_lines)
    ]

-- `Forgets name ls kept n`: the lines kept of `ls` are those that are no entries of the name, in order,
-- and n lines are entries of it.
pub data Forgets (name : List ℕ) : List (List ℕ) → List (List ℕ) → ℕ → Type 0 where
  end : Forgets name [] [] 0
  taken :
      (line : List ℕ) {ls kept : List (List ℕ)} {n : ℕ}
      → IsEntry name line
      → Forgets name ls kept n
      → Forgets name (line ∷ ls) kept (suc n)
  left :
      (line : List ℕ) {ls kept : List (List ℕ)} {n : ℕ}
      → ¬ (IsEntry name line)
      → Forgets name ls kept n
      → Forgets name (line ∷ ls) (line ∷ kept) n

others-Forgets :
    (name : List ℕ) (ls : List (List ℕ))
    → IsName name
    → Forgets name ls (others name ls) (length (entries name ls))
others-Forgets name [] n = end
others-Forgets name (line ∷ ls) n =
    let same = is_entry_of-IsEntry name line n in
    elim (Bool-cases (is_entry_of name line)) [
      | inl e ↦ rw e (taken line (same.0 e) (others-Forgets name ls n))
      | inr e ↦
          let no : ¬ (IsEntry name line) = λ h. let yes = same.1 h in ground (arith, yes, e) in
          rw e (left line no (others-Forgets name ls n))
    ]

-- A host is forgotten in a file that can be written and has no carriage returns, under a name that
-- has no white space and does not begin with #: the lines that hold the name on port 22, or
-- [name]:port on any other port, before white space or the end of the line, are counted and
-- taken out, and all other lines stay as they were and in order.
pub forget-lines :
    (hostname : List ℕ) (port : ℕ) (name raw : List ℕ)
    → IsNameOf hostname port name
    → IsName name
    → All (λ c. c ≢ carriage_return) raw
    → let r = forget hostname port true (holds raw) in
      (n : ℕ) × (r.0 ≡ done n) × Forgets name (lines raw) (lines_of r.1) n
forget-lines hostname port name raw named n plain =
    let (counted, kept) = forget-filtered hostname port raw plain in
    let at = target-IsNameOf hostname port name named in
    (
      length (entries (target hostname port) (lines raw)),
      counted,
      rw (kept, at) (others-Forgets name (lines raw) n),
    )

abbrev is_readable : Stored → Bool
is_readable unreadable = false
is_readable _ = true

nothing_to_forget :
    (hostname : List ℕ) (port : ℕ) (writable : Bool) (file : Stored)
    → is_readable file ≡ true
    → entries (target hostname port) (lines_of file) ≡ []
    → forget hostname port writable file ≡ (done 0, file)
unfolding forget rewrite
nothing_to_forget hostname port writable missing r h = refl
nothing_to_forget hostname port writable unreadable r h = cc
nothing_to_forget hostname port writable (holds raw) r h =
    rw (forget_lines_lem (target hostname port) (lines raw), h) refl

forget-readable :
    (hostname : List ℕ) (port : ℕ) (raw : List ℕ)
    → is_readable (forget hostname port true (holds raw)).1 ≡ true
unfolding forget rewrite
forget-readable hostname port raw =
    let n = length (entries (target hostname port) (lines raw)) in
    elim (Bool-cases (n == 0)) [
      | inl e ↦ rw (forget_lines_lem (target hostname port) (lines raw), e) refl
      | inr e ↦ rw (forget_lines_lem (target hostname port) (lines raw), e) refl
    ]

-- Forgetting a host a second time finds nothing, if the file has no carriage returns.
pub forget_twice :
    (hostname : List ℕ) (port : ℕ) (raw : List ℕ) (writable : Bool)
    → All (λ c. c ≢ carriage_return) raw
    → forget hostname port writable (forget hostname port true (holds raw)).1
      ≡ (done 0, (forget hostname port true (holds raw)).1)
forget_twice hostname port raw writable plain =
    let host = target hostname port in
    let file = (forget hostname port true (holds raw)).1 in
    nothing_to_forget hostname port writable file (forget-readable hostname port raw) (
      ap (entries host) (forget-filtered hostname port raw plain).1
      ∙ entries-others host (lines raw))
