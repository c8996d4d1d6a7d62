-- ===== src/Input/Tests.antt =====
-- Runs of the input filter of crates/tepegoz-tui/src/input.rs.
use tepegoz.Prelude.{ℕ, ◌≡◌, refl, List, [], ◌∷◌, ◌++◌}
use tepegoz.Input.{normal, process, prefix_byte}
use tepegoz.Input.Conservation.{Accounts, pending, process-Accounts}
use tepegoz.Input.Chunks.{view, resume, process-append}

-- `ls`, then Ctrl-b d, then a byte that is dropped.
abbrev typed : List ℕ
typed = b'l' ∷ b's' ∷ prefix_byte ∷ b'd' ∷ b'x' ∷ []

process-Accounts_example : Accounts (pending normal) typed (process normal typed)
process-Accounts_example = process-Accounts normal typed

process-append_example :
    view (process normal (b'l' ∷ prefix_byte ∷ [] ++ b'j' ∷ []))
    ≡ resume (view (process normal (b'l' ∷ prefix_byte ∷ []))) (b'j' ∷ [])
process-append_example = process-append normal (b'l' ∷ prefix_byte ∷ []) (b'j' ∷ []) refl
