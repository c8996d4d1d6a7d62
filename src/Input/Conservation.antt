-- ===== src/Input/Conservation.antt =====
-- Where the bytes of a chunk go: input.rs, `InputFilter::process`.
use tepegoz.Prelude.{
  ℕ, ◌≡◌, ◌≢◌, refl, ap, ◌⊎◌, inl, inr, Option, none, some, List, [], ◌∷◌, ◌++◌, arith, append-nil,
  append_assoc, list_laws, Option-cases,
}
use tepegoz.Tile.{FocusDir, left, right, up, down}
use tepegoz.Input.{
  InputAction, forward, detach, focus_direction, focus_next, focus_prev, help, pane_close,
  open_host_picker, FilterState, normal, prefix_active, prefix_esc, prefix_csi, bare_csi,
  bare_csi_collect, Turn, goto, skip, stop, control, arrow, turn, flush, scan, process, prefix_byte,
  tab, esc, csi_open,
}

-- The bytes that a state holds back.
abbrev pub pending : FilterState → List ℕ
pending normal = []
pending prefix_active = prefix_byte ∷ []
pending prefix_esc = prefix_byte ∷ esc ∷ []
pending prefix_csi = prefix_byte ∷ esc ∷ csi_open ∷ []
pending bare_csi = esc ∷ csi_open ∷ []
pending (bare_csi_collect buf) = esc ∷ csi_open ∷ buf

abbrev pub letter : FocusDir → ℕ
letter left = b'h'
letter down = b'j'
letter up = b'k'
letter right = b'l'

abbrev pub arrow_final : FocusDir → ℕ
arrow_final up = b'A'
arrow_final down = b'B'
arrow_final right = b'C'
arrow_final left = b'D'

-- The key presses that spell a control action.
abbrev pub Spells : InputAction → List ℕ → Type 0
Spells (forward _) w = ⊥
Spells detach w = w ≡ prefix_byte ∷ b'd' ∷ []
Spells (focus_direction d) w =
    (w ≡ prefix_byte ∷ letter d ∷ []) ⊎ (w ≡ prefix_byte ∷ esc ∷ csi_open ∷ arrow_final d ∷ [])
Spells focus_next w = w ≡ tab ∷ []
Spells focus_prev w = w ≡ esc ∷ csi_open ∷ b'Z' ∷ []
Spells help w = w ≡ prefix_byte ∷ b'?' ∷ []
Spells pane_close w = w ≡ prefix_byte ∷ b'&' ∷ []
Spells open_host_picker w = w ≡ prefix_byte ∷ b't' ∷ []

abbrev TurnAccounts : FilterState → List ℕ → ℕ → Option ℕ → Turn → Type 0
TurnAccounts s out b next (goto s' out') = out' ++ pending s' ≡ out ++ pending s ++ b ∷ []
TurnAccounts s out b next skip = (s ≡ normal) × (b ≡ esc) × (next ≡ some csi_open)
TurnAccounts s out b next (stop a) = Spells a (pending s ++ b ∷ [])

abbrev SpelledBy : Option InputAction → List ℕ → Type 0
SpelledBy none w = Unit
SpelledBy (some a) w = Spells a w

abbrev SpelledByArrow : Option FocusDir → List ℕ → Type 0
SpelledByArrow none w = Unit
SpelledByArrow (some d) w = Spells (focus_direction d) w

control-Spells : (b : ℕ) → SpelledBy (control b) (prefix_byte ∷ b ∷ [])
unfolding control
control-Spells b = ground arith

arrow-Spells : (b : ℕ) → SpelledByArrow (arrow b) (prefix_byte ∷ esc ∷ csi_open ∷ b ∷ [])
unfolding arrow
arrow-Spells b = ground arith

turn-Accounts :
    (s : FilterState) (out : List ℕ) (b : ℕ) (next : Option ℕ)
    → TurnAccounts s out b next (turn s out b next)
unfolding turn
turn-Accounts normal out b next = ground (arith, append-nil (out ++ b ∷ []), append-nil out)
turn-Accounts prefix_active out b next = elim (Option-cases (control b)) [
  | inl e ↦
      rw (e, TurnAccounts)
        (ground (
          arith,
          append-nil (out ++ prefix_byte ∷ b ∷ []),
          append_assoc out (pending prefix_active) (b ∷ []),
        ))
  | inr (a, e) ↦ rw (e, TurnAccounts) (rw (e, SpelledBy) at (control-Spells b))
]
turn-Accounts prefix_esc out b next = ground (
  arith,
  append-nil (out ++ prefix_byte ∷ esc ∷ b ∷ []),
  append_assoc out (pending prefix_esc) (b ∷ []),
)
turn-Accounts prefix_csi out b next = elim (Option-cases (arrow b)) [
  | inl e ↦
      rw (e, TurnAccounts)
        (ground (
          arith,
          append-nil (out ++ prefix_byte ∷ esc ∷ csi_open ∷ b ∷ []),
          append_assoc out (pending prefix_csi) (b ∷ []),
        ))
  | inr (a, e) ↦ rw (e, TurnAccounts) (rw (e, SpelledByArrow) at (arrow-Spells b))
]
turn-Accounts bare_csi out b next = ground (
  arith,
  append-nil (out ++ esc ∷ csi_open ∷ b ∷ []),
  append_assoc out (pending bare_csi) (b ∷ []),
)
turn-Accounts (bare_csi_collect buf) out b next = ground (
  arith,
  append-nil (out ++ esc ∷ csi_open ∷ (buf ++ b ∷ [])),
  append_assoc out (pending (bare_csi_collect buf)) (b ∷ []),
)

pub turn-no_lookahead : (s : FilterState) (out : List ℕ) (b : ℕ) → turn s out b none ≢ skip
turn-no_lookahead s out b e = cc ((rw (e, TurnAccounts) at (turn-Accounts s out b none)).2)

pub turn-stop_Spells :
    (s : FilterState) (out : List ℕ) (b : ℕ) (next : Option ℕ) {a : InputAction}
    → turn s out b next ≡ stop a
    → Spells a (pending s ++ b ∷ [])
turn-stop_Spells s out b next e = rw (e, TurnAccounts) at (turn-Accounts s out b next)

-- What the loop does with the bytes `input` when it holds the bytes `held`: it forwards all but
-- what the new state holds, or it stops at a control action, and the rest is dropped.
pub data Accounts (held input : List ℕ) (r : List InputAction × FilterState) : Type 0 where
  passed :
      (out : List ℕ) → r.0 ≡ flush out → out ++ pending r.1 ≡ held ++ input → Accounts held input r
  stopped :
      (out keys dropped : List ℕ) (a : InputAction)
      → r.0 ≡ flush out ++ a ∷ []
      → r.1 ≡ normal
      → Spells a keys
      → out ++ keys ++ dropped ≡ held ++ input
      → Accounts held input r

Accounts-cons :
    {held rest : List ℕ} (held' : List ℕ) (b : ℕ) {r : List InputAction × FilterState}
    → held' ≡ held ++ b ∷ []
    → Accounts held' rest r
    → Accounts held (b ∷ rest) r
Accounts-cons {held} {rest} held' b e (passed out p q) =
    passed out p (cc (q, ap (λ l. l ++ rest) e, append_assoc held (b ∷ []) rest))
Accounts-cons {held} {rest} held' b e (stopped out keys dropped a p n s q) =
    stopped out keys dropped a p n s
      (cc (q, ap (λ l. l ++ rest) e, append_assoc held (b ∷ []) rest))

-- A turn that stops forwards `out`, and drops what follows.
Accounts-stop :
    (s : FilterState) (out rest : List ℕ) (b : ℕ) (a : InputAction)
    → Spells a (pending s ++ b ∷ [])
    → Accounts (out ++ pending s) (b ∷ rest) (flush out ++ a ∷ [], normal)
Accounts-stop s out rest b a h =
    stopped out (pending s ++ b ∷ []) rest a refl refl h (simp append_assoc)

bare_csi_held :
    {s : FilterState} {b c : ℕ} (out : List ℕ)
    → (s ≡ normal) × (b ≡ esc) × (some c ≡ some csi_open)
    → out ++ pending bare_csi ≡ out ++ pending s ++ b ∷ [] ++ c ∷ []
bare_csi_held {s} {b} {c} out (p, q, r) =
    let r' : c ≡ csi_open = cc in rw (p, q, r') (simp list_laws)

scan-Accounts :
    (s : FilterState) (out input : List ℕ) → Accounts (out ++ pending s) input (scan s out input)
unfolding scan
scan-Accounts s out [] = passed out refl (simp append-nil)
scan-Accounts s out (b ∷ []) =
    (elim (turn s out b none)
        as (λ t.
          TurnAccounts s out b none t
          → Accounts (out ++ pending s) (b ∷ []) (elim t [
            | goto s' out' ↦ scan s' out' []
            | skip ↦ scan bare_csi out []
            | stop action ↦ (flush out ++ action ∷ [], normal)
          ])) [
            | goto s' out' ↦ λ h. Accounts-cons (out' ++ pending s') b h (scan-Accounts s' out' [])
            | skip ↦ λ h. cc (h.2)
            | stop a ↦ λ h. Accounts-stop s out [] b a h
          ])
      (turn-Accounts s out b none)
scan-Accounts s out (b ∷ c ∷ rest) =
    (elim (turn s out b (some c))
        as (λ t.
          TurnAccounts s out b (some c) t
          → Accounts (out ++ pending s) (b ∷ c ∷ rest) (elim t [
            | goto s' out' ↦ scan s' out' (c ∷ rest)
            | skip ↦ scan bare_csi out rest
            | stop action ↦ (flush out ++ action ∷ [], normal)
          ])) [
            | goto s' out' ↦
                λ h. Accounts-cons (out' ++ pending s') b h (scan-Accounts s' out' (c ∷ rest))
            | skip ↦ λ h. Accounts-cons (out ++ pending s ++ b ∷ []) b refl (
                Accounts-cons (out ++ pending bare_csi) c (bare_csi_held out h)
                  (scan-Accounts bare_csi out rest))
            | stop a ↦ λ h. Accounts-stop s out (c ∷ rest) b a h
          ])
      (turn-Accounts s out b (some c))

-- A chunk of input is accounted for byte by byte, from any state. Either the bytes forwarded,
-- followed by those that the new state holds back, are those held back before followed by the
-- chunk. Or the chunk holds the spelling of the one control action that is returned, after the
-- forwarded bytes: those bytes, the spelling and a dropped rest are what was held and the chunk,
-- and the filter is back in its normal state.
pub process-Accounts :
    (s : FilterState) (input : List ℕ) → Accounts (pending s) input (process s input)
unfolding process
process-Accounts s input = scan-Accounts s [] input
