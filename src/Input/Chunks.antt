-- ===== src/Input/Chunks.antt =====
-- How a chunk boundary matters: input.rs, `InputFilter::process`.
use mathlib.Core.List.{head?}
use tepegoz.Prelude.{
  ℕ, ◌≡◌, refl, sym, ◌∙◌, ap, ◌⊎◌, inl, inr, Bool, true, false, Option, none, some, List, [], ◌∷◌,
  ◌++◌, arith, append-nil, append_assoc, ◌==◌, if◌then◌else◌,
}
use tepegoz.Input.{
  InputAction, forward, FilterState, normal, prefix_active, prefix_esc, prefix_csi, bare_csi,
  bare_csi_collect, Turn, goto, skip, stop, turn, flush, scan, process, prefix_byte, esc, csi_open,
}
use tepegoz.Input.Conservation.{pending, Spells, turn-no_lookahead, turn-stop_Spells}

abbrev pub forwarded : List InputAction → List ℕ
forwarded [] = []
forwarded (forward bytes ∷ acts) = bytes ++ forwarded acts
forwarded (_ ∷ acts) = forwarded acts

abbrev pub controls : List InputAction → List InputAction
controls [] = []
controls (forward bytes ∷ acts) = controls acts
controls (a ∷ acts) = a ∷ controls acts

abbrev pub ends_in_esc : List ℕ → Bool
ends_in_esc [] = false
ends_in_esc (b ∷ []) = b == esc
ends_in_esc (b ∷ c ∷ rest) = ends_in_esc (c ∷ rest)

ends_in_esc_tail :
    (b : ℕ) (rest : List ℕ) → ends_in_esc (b ∷ rest) ≡ false → ends_in_esc rest ≡ false
ends_in_esc_tail b [] h = refl
ends_in_esc_tail b (c ∷ rest) h = h

Turn-cases :
    (t : Turn)
    → ((s : FilterState) × (out : List ℕ) × (t ≡ goto s out))
      ⊎ (t ≡ skip)
      ⊎ ((a : InputAction) × (t ≡ stop a))
Turn-cases (goto s out) = inl (s, out, refl)
Turn-cases skip = inr (inl refl)
Turn-cases (stop a) = inr (inr (a, refl))

-- Only an escape byte looks ahead.
turn_next :
    (s : FilterState) (out : List ℕ) (b : ℕ) (m n : Option ℕ)
    → (b == esc) ≡ false
    → turn s out b m ≡ turn s out b n
unfolding turn
turn_next normal out b m n h = ground arith
turn_next prefix_active out b m n h = refl
turn_next _ out b m n h = refl

scan-goto :
    (s : FilterState) (out : List ℕ) (b : ℕ) (rest : List ℕ) {s' : FilterState} {out' : List ℕ}
    → turn s out b (head? rest) ≡ goto s' out'
    → scan s out (b ∷ rest) ≡ scan s' out' rest
unfolding scan
scan-goto s out b [] e = rw (e, scan)
scan-goto s out b (c ∷ rest) e = rw (e, scan)

scan-stop :
    (s : FilterState) (out : List ℕ) (b : ℕ) (rest : List ℕ) {a : InputAction}
    → turn s out b (head? rest) ≡ stop a
    → scan s out (b ∷ rest) ≡ (flush out ++ a ∷ [], normal)
unfolding scan
scan-stop s out b [] e = rw (e, scan)
scan-stop s out b (c ∷ rest) e = rw (e, scan)

scan-skip :
    (s : FilterState) (out : List ℕ) (b c : ℕ) (rest : List ℕ)
    → turn s out b (some c) ≡ skip
    → scan s out (b ∷ c ∷ rest) ≡ scan bare_csi out rest
unfolding scan
scan-skip s out b c rest e = rw (e, scan)

data Split (s : FilterState) (out xs ys : List ℕ) : Type 0 where
  on :
      (s' : FilterState) (out' : List ℕ)
      → scan s out xs ≡ (flush out', s')
      → scan s out (xs ++ ys) ≡ scan s' out' ys
      → Split s out xs ys
  off :
      (out' keys : List ℕ) (a : InputAction)
      → Spells a keys
      → scan s out xs ≡ (flush out' ++ a ∷ [], normal)
      → scan s out (xs ++ ys) ≡ (flush out' ++ a ∷ [], normal)
      → Split s out xs ys

-- Two loops that make the same turn split alike.
Split-same :
    {s s₁ : FilterState} {out out₁ xs xs₁ ys : List ℕ}
    → scan s out xs ≡ scan s₁ out₁ xs₁
    → scan s out (xs ++ ys) ≡ scan s₁ out₁ (xs₁ ++ ys)
    → Split s₁ out₁ xs₁ ys
    → Split s out xs ys
Split-same p q (on s' out' e f) = on s' out' (p ∙ e) (q ∙ f)
Split-same p q (off out' keys a k e f) = off out' keys a k (p ∙ e) (q ∙ f)

scan-Split : (s : FilterState) (out xs ys : List ℕ) → ends_in_esc xs ≡ false → Split s out xs ys
scan-Split s out [] ys h = on s out (unfold scan in refl) refl
scan-Split s out (b ∷ []) ys h = elim (Turn-cases (turn s out b none)) [
  | inl (s', out', e) ↦
      Split-same (scan-goto s out b [] e)
        (scan-goto s out b ys (turn_next s out b (head? ys) none h ∙ e))
        (scan-Split s' out' [] ys refl)
  | inr (inl e) ↦ absurd (turn-no_lookahead s out b e)
  | inr (inr (a, e)) ↦
      off out (pending s ++ b ∷ []) a (turn-stop_Spells s out b none e) (scan-stop s out b [] e)
        (scan-stop s out b ys (turn_next s out b (head? ys) none h ∙ e))
]
scan-Split s out (b ∷ c ∷ rest) ys h = elim (Turn-cases (turn s out b (some c))) [
  | inl (s', out', e) ↦
      Split-same (scan-goto s out b (c ∷ rest) e) (scan-goto s out b (c ∷ rest ++ ys) e)
        (scan-Split s' out' (c ∷ rest) ys h)
  | inr (inl e) ↦
      Split-same (scan-skip s out b c rest e) (scan-skip s out b c (rest ++ ys) e)
        (scan-Split bare_csi out rest ys (ends_in_esc_tail c rest h))
  | inr (inr (a, e)) ↦
      off out (pending s ++ b ∷ []) a (turn-stop_Spells s out b (some c) e)
        (scan-stop s out b (c ∷ rest) e) (scan-stop s out b (c ∷ rest ++ ys) e)
]

-- What a call of `process` means: the bytes forwarded, the control actions, the state after it.
abbrev pub View : Type 0
View = List ℕ × List InputAction × FilterState

abbrev pub view : List InputAction × FilterState → View
view (acts, s) = (forwarded acts, controls acts, s)

abbrev pub prepend : List ℕ → View → View
prepend o (bytes, acts, s) = (o ++ bytes, acts, s)

view-flush : (o : List ℕ) (s : FilterState) → view (flush o, s) ≡ (o, [], s)
unfolding flush
view-flush [] s = refl
view-flush (b ∷ o) s = rw append-nil

view-stop :
    (o : List ℕ) (a : InputAction) (w : List ℕ)
    → Spells a w
    → view (flush o ++ a ∷ [], normal) ≡ (o, a ∷ [], normal)
unfolding flush
view-stop o (forward x) w h = absurd h
view-stop [] _ w h = refl
view-stop (b ∷ o) _ w h = rw append-nil

abbrev after_out : List ℕ → Turn → Turn
after_out o (goto s out) = goto s (o ++ out)
after_out o skip = skip
after_out o (stop a) = stop a

after_out-if :
    (o : List ℕ) (c : Bool) (t t' u u' : Turn)
    → t ≡ after_out o t'
    → u ≡ after_out o u'
    → (if c then t else u) ≡ after_out o (if c then t' else u')
after_out-if o true t t' u u' p q = p
after_out-if o false t t' u u' p q = q

-- The bytes gathered before a turn come first after it.
turn_out :
    (s : FilterState) (o out : List ℕ) (b : ℕ) (next : Option ℕ)
    → turn s (o ++ out) b next ≡ after_out o (turn s out b next)
unfolding turn
turn_out normal o out b next = search (after_out-if, append_assoc)
turn_out prefix_active o out b next = ground (arith, append_assoc o out (prefix_byte ∷ b ∷ []))
turn_out prefix_esc o out b next = search (after_out-if, append_assoc)
turn_out prefix_csi o out b next =
    ground (arith, append_assoc o out (prefix_byte ∷ esc ∷ csi_open ∷ b ∷ []))
turn_out bare_csi o out b next = search (after_out-if, append_assoc)
turn_out (bare_csi_collect buf) o out b next =
    ground (arith, append_assoc o out (esc ∷ csi_open ∷ (buf ++ b ∷ [])))

scan_out_stop :
    (s : FilterState) (o out : List ℕ) (b : ℕ) (rest : List ℕ) {a : InputAction}
    → turn s out b (head? rest) ≡ stop a
    → view (scan s (o ++ out) (b ∷ rest)) ≡ prepend o (view (scan s out (b ∷ rest)))
scan_out_stop s o out b rest {a} e =
    rw
      (
        scan-stop s out b rest e,
        scan-stop s (o ++ out) b rest (turn_out s o out b (head? rest) ∙ ap (after_out o) e),
      )
      (view-stop (o ++ out) a (pending s ++ b ∷ []) h
        ∙ sym (ap (prepend o) (view-stop out a (pending s ++ b ∷ []) h)))
  where
    h : Spells a (pending s ++ b ∷ [])
    h = turn-stop_Spells s out b (head? rest) e

scan_out :
    (s : FilterState) (o out xs : List ℕ)
    → view (scan s (o ++ out) xs) ≡ prepend o (view (scan s out xs))
scan_out s o out [] =
    unfold scan in (view-flush (o ++ out) s ∙ sym (ap (prepend o) (view-flush out s)))
scan_out s o out (b ∷ []) = elim (Turn-cases (turn s out b none)) [
  | inl (s', out', e) ↦
      rw
        (
          scan-goto s out b [] e,
          scan-goto s (o ++ out) b [] (turn_out s o out b none ∙ ap (after_out o) e),
        )
        (scan_out s' o out' [])
  | inr (inl e) ↦ absurd (turn-no_lookahead s out b e)
  | inr (inr (a, e)) ↦ scan_out_stop s o out b [] e
]
scan_out s o out (b ∷ c ∷ rest) = elim (Turn-cases (turn s out b (some c))) [
  | inl (s', out', e) ↦
      rw
        (
          scan-goto s out b (c ∷ rest) e,
          scan-goto s (o ++ out) b (c ∷ rest) (turn_out s o out b (some c) ∙ ap (after_out o) e),
        )
        (scan_out s' o out' (c ∷ rest))
  | inr (inl e) ↦
      rw
        (
          scan-skip s out b c rest e,
          scan-skip s (o ++ out) b c rest (turn_out s o out b (some c) ∙ ap (after_out o) e),
        )
        (scan_out bare_csi o out rest)
  | inr (inr (a, e)) ↦ scan_out_stop s o out b (c ∷ rest) e
]

-- A second chunk after the call that a view describes: a control action has ended the first one.
abbrev pub resume : View → List ℕ → View
resume (bytes, [], s) ys = prepend bytes (view (process s ys))
resume (bytes, a ∷ acts, s) ys = (bytes, a ∷ acts, s)

resume-Split :
    {s : FilterState} (xs ys : List ℕ)
    → Split s [] xs ys
    → view (process s (xs ++ ys)) ≡ resume (view (process s xs)) ys
unfolding process
resume-Split xs ys (on s' out e f) =
    rw (e, f)
      (ap (λ o. view (scan s' o ys)) (sym (append-nil out))
        ∙ scan_out s' out [] ys
        ∙ sym (ap (λ v. resume v ys) (view-flush out s')))
resume-Split xs ys (off out keys a k e f) =
    rw (e, f) (view-stop out a keys k ∙ sym (ap (λ v. resume v ys) (view-stop out a keys k)))

-- Where a stream is cut into chunks makes no difference, unless the cut falls after an escape byte:
-- two chunks in a row forward the same bytes, return the same control actions and end in the same
-- state as the two joined, where a control action in the first drops all of the second.
pub process-append :
    (s : FilterState) (xs ys : List ℕ)
    → ends_in_esc xs ≡ false
    → view (process s (xs ++ ys)) ≡ resume (view (process s xs)) ys
process-append s xs ys h = resume-Split xs ys (scan-Split s [] xs ys h)
