-- ===== src/App/Deadlines.antt =====
-- What a tick of the TUI leaves: `sweep_expired` of crates/tepegoz-tui/src/app.rs.
use tepegoz.Prelude.{
  ℕ, ◌≡◌, ◌⊎◌, inl, inr, refl, sym, ap, ◌∙◌, Bool, true, false, not, Option, none, some, List, [],
  ◌∷◌, arith, All, All-map, All-filter_by, Bool-cases, Option-cases, leb, ltb, if◌then◌else◌, find?,
  filter_by, map,
}
use tepegoz.App.{App, PendingAction, PendingConfirm, Toast}
use tepegoz.App.Toasts.{
  push_toast_at, expire_pending_action_at, expire_all, sweep_expired, has_id, is_expired,
  confirm_left,
}

abbrev Entry : Type 0
Entry = ℕ × PendingAction

abbrev without : ℕ → List Entry → List Entry
without id entries = filter_by (λ e. not (has_id id e)) entries

abbrev without_all : List ℕ → List Entry → List Entry
without_all [] entries = entries
without_all (id ∷ ids) entries = without_all ids (without id entries)

without_missing :
    (id : ℕ) (entries : List Entry)
    → find? (has_id id) entries ≡ none
    → without id entries ≡ entries
without_missing id [] h = refl
without_missing id (e ∷ entries) h = elim (Bool-cases (has_id id e)) [
  | inl is ↦ cc (rw is at h)
  | inr other ↦ rw other (ap (λ l. e ∷ l) (without_missing id entries (rw other at h)))
]

abbrev ids_of : List Entry → List ℕ
ids_of entries = map (λ (e : Entry). e.0) entries

abbrev OneOf : ℕ → List ℕ → Type 0
OneOf k [] = ⊥
OneOf k (id ∷ ids) = (k ≡ id) ⊎ OneOf k ids

-- A confirmation that is asked for has not reached its deadline.
abbrev pub NotDue : ℕ → Option PendingConfirm → Type 0
NotDue now none = Unit
NotDue now (some pc) = leb pc.deadline now ≡ false

module _ (now : ℕ) where
  abbrev Named : List ℕ → Entry → Type 0
  Named ids e = is_expired now e ≡ true → OneOf e.0 ids

  head-Named :
      (e : Entry) (found : List Entry)
      → Named (ids_of (if is_expired now e then e ∷ found else found)) e
  head-Named e found h = rw h (inl refl)

  tail-Named :
      (b : Bool) (e : Entry) (found entries : List Entry)
      → All (Named (ids_of found)) entries
      → All (Named (ids_of (if b then e ∷ found else found))) entries
  tail-Named true e found entries h = All-map entries (λ x named expired. inr (named expired)) h
  tail-Named false e found entries h = h

  expired-Named :
      (entries : List Entry) → All (Named (ids_of (filter_by (is_expired now) entries))) entries
  expired-Named [] = tt
  expired-Named (e ∷ entries) =
      let found = filter_by (is_expired now) entries in
      (head-Named e found, tail-Named (is_expired now e) e found entries (expired-Named entries))

  not_expired : (e : Entry) → Named [] e → is_expired now e ≡ false
  not_expired e h = elim (Bool-cases (is_expired now e)) [
    | inl is ↦ absurd (h is)
    | inr other ↦ other
  ]

  other-Named :
      (id : ℕ) (ids : List ℕ) (e : Entry)
      → (not (has_id id e) ≡ true) × Named (id ∷ ids) e
      → Named ids e
  other-Named id ids e (other, named) h = elim (named h) [
    | inl same ↦ absurd (ground (arith, other, same))
    | inr later ↦ later
  ]

  without_all-fresh :
      (ids : List ℕ) (entries : List Entry)
      → All (Named ids) entries
      → All (λ (e : Entry). is_expired now e ≡ false) (without_all ids entries)
  without_all-fresh [] entries h = All-map entries not_expired h
  without_all-fresh (id ∷ ids) entries h = without_all-fresh ids (without id entries) (
      All-map (without id entries) (other-Named id ids)
        (All-filter_by (Named (id ∷ ids)) (λ e. not (has_id id e)) entries h))

  fresh_toasts :
      (toasts : List Toast)
      → All
          (λ (t : Toast). ltb now t.expires_at ≡ true)
          (filter_by (λ (t : Toast). ltb now t.expires_at) toasts)
  fresh_toasts [] = tt
  fresh_toasts (t ∷ toasts) = elim (Bool-cases (ltb now t.expires_at)) [
    | inl e ↦ rw e (e, fresh_toasts toasts)
    | inr e ↦ rw e (fresh_toasts toasts)
  ]

  confirm_left-NotDue : (confirm : Option PendingConfirm) → NotDue now (confirm_left now confirm)
  confirm_left-NotDue none = tt
  confirm_left-NotDue (some pc) = elim (Bool-cases (leb pc.deadline now)) [
    | inl e ↦ rw e tt
    | inr e ↦ rw e e
  ]

module _ {Parser : Type 0} where
  expire-pending_actions :
      (app : App Parser) (now id : ℕ)
      → (expire_pending_action_at app now id).0.pending_actions ≡ without id app.pending_actions
  unfolding expire_pending_action_at push_toast_at
  expire-pending_actions app now id = elim (Option-cases (find? (has_id id) app.pending_actions)) [
    | inl e ↦ rw (e, expire_pending_action_at) (sym (without_missing id app.pending_actions e))
    | inr (entry, e) ↦ rw (e, expire_pending_action_at) refl
  ]

  expire_all-pending_actions :
      (app : App Parser) (now : ℕ) (ids : List ℕ)
      → (expire_all app now ids).0.pending_actions ≡ without_all ids app.pending_actions
  unfolding expire_all
  expire_all-pending_actions app now [] = refl
  expire_all-pending_actions app now (id ∷ ids) =
      expire_all-pending_actions (expire_pending_action_at app now id).0 now ids
      ∙ ap (without_all ids) (expire-pending_actions app now id)

  expire-pending_confirm :
      (app : App Parser) (now id : ℕ)
      → (expire_pending_action_at app now id).0.pending_confirm ≡ app.pending_confirm
  unfolding expire_pending_action_at push_toast_at
  expire-pending_confirm app now id = elim (Option-cases (find? (has_id id) app.pending_actions)) [
    | inl e ↦ rw (e, expire_pending_action_at) refl
    | inr (entry, e) ↦ rw (e, expire_pending_action_at) refl
  ]

  expire_all-pending_confirm :
      (app : App Parser) (now : ℕ) (ids : List ℕ)
      → (expire_all app now ids).0.pending_confirm ≡ app.pending_confirm
  unfolding expire_all
  expire_all-pending_confirm app now [] = refl
  expire_all-pending_confirm app now (id ∷ ids) =
      expire_all-pending_confirm (expire_pending_action_at app now id).0 now ids
      ∙ expire-pending_confirm app now id

  -- After a tick at an instant, every toast is shown until later, no pending action has reached its
  -- deadline, and neither has the confirmation that is still asked for, if there is one.
  pub sweep_expired-fresh :
      (app : App Parser) (now : ℕ)
      → let app' = (sweep_expired app now).0 in
        All (λ (t : Toast). ltb now t.expires_at ≡ true) app'.toasts
        × All (λ (e : ℕ × PendingAction). is_expired now e ≡ false) app'.pending_actions
        × NotDue now app'.pending_confirm
  unfolding sweep_expired
  sweep_expired-fresh app now =
      let swept = record app { pending_confirm = confirm_left now app.pending_confirm } in
      let ids = ids_of (filter_by (is_expired now) app.pending_actions) in
      (
        fresh_toasts now (expire_all swept now ids).0.toasts,
        rw (expire_all-pending_actions swept now ids)
            (without_all-fresh now ids app.pending_actions (expired-Named now app.pending_actions)),
        rw (expire_all-pending_confirm swept now ids) (confirm_left-NotDue now app.pending_confirm),
      )
