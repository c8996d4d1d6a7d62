-- ===== src/Ssh/KnownHosts.antt =====
-- The known_hosts file that Tepegöz keeps for itself: `KnownHostsStore` of
-- crates/tepegoz-ssh/src/known_hosts.rs. The russh functions that look a key up in the file and append
-- one are parameters; the file mode is not modelled.
pub mod Lines
pub mod Entries
pub mod Forget
use tepegoz.Prelude.{
  ℕ, suc, Bool, true, false, ◌||◌, not, Option, none, some, List, [], ◌∷◌, ◌++◌, ◌==◌,
  if◌then◌else◌, is_empty,
}
use tepegoz.Text.{to_string}
use tepegoz.Text.Same.{same_text}
use tepegoz.Ssh.Chars.{trim_start, first_token, unwrap_or_empty, lines, unlines, newline}

pub data HostKeyVerdict : Type 0 where
  trusted unknown : HostKeyVerdict
  mismatch : ℕ → HostKeyVerdict

-- What the file system says of the file.
pub data Stored : Type 0 where
  missing unreadable : Stored
  holds : List ℕ → Stored

-- What russh finds: whether the key is there, a different key at a line, or another error.
pub data Found : Type 0 where
  found : Bool → Found
  key_changed : ℕ → Found
  other_error : Found

pub data StoreResult (A : Type 0) : Type 0 where
  done : A → StoreResult A
  store_error : StoreResult A

unfoldable pub check : Found → StoreResult HostKeyVerdict
check (found true) = done trusted
check (found false) = done unknown
check (key_changed line) = done (mismatch line)
check other_error = store_error

-- The name under which `trust` stores a host.
unfoldable pub target : List ℕ → ℕ → List ℕ
target hostname port =
    if port == 22 then hostname else b'[' ∷ (hostname ++ (b']' ∷ b':' ∷ to_string port))

abbrev pub starts_hash : List ℕ → Bool
starts_hash [] = false
starts_hash (c ∷ cs) = c == b'#'

-- Whether a line is an entry of the host, and of no other.
unfoldable pub is_entry_of : List ℕ → List ℕ → Bool
is_entry_of host line =
    let trimmed = trim_start line in
    if is_empty trimmed || starts_hash trimmed
    then false
    else same_text (unwrap_or_empty (first_token trimmed)) host

-- How many entries there are, and the file without them.
unfoldable pub forget_lines : List ℕ → List (List ℕ) → ℕ × List ℕ
forget_lines host [] = (0, [])
forget_lines host (line ∷ more) =
    let (removed, kept) = forget_lines host more in
    if is_entry_of host line then (suc removed, kept) else (removed, line ++ newline ∷ kept)

unfoldable pub rewrite : Bool → Stored → ℕ × List ℕ → StoreResult ℕ × Stored
rewrite writable file (removed, kept) =
    if removed == 0
    then (done 0, file)
    else if writable
    then (done removed, holds kept)
    else (store_error, file)

-- The result, and the file after it. A write either happens as a whole or fails.
unfoldable pub forget : List ℕ → ℕ → Bool → Stored → StoreResult ℕ × Stored
forget hostname port writable missing = (done 0, missing)
forget hostname port writable unreadable = (store_error, unreadable)
forget hostname port writable (holds raw) =
    rewrite writable (holds raw) (forget_lines (target hostname port) (lines raw))
