-- ===== src/App/Keeps.antt =====
-- Every handler of the TUI keeps the invariant of `App`: app.rs in crates/tepegoz-tui/src.
use tepegoz.Prelude.{
  ℕ, zero, suc, ◌+◌, ◌-◌, ◌≤◌, ◌<◌, ◌≡◌, refl, Bool, not, Option, none, some, List, [], ◌∷◌, ◌++◌,
  arith, leb, ltb, ◌&&◌, ◌==◌, Bool-cases, Option-cases, inl, inr, length, length-append, drop,
  get_elem?, map, find?, filter_by,
}
use tepegoz.Tile.{TileId, same_tile}
use tepegoz.App.{App, alloc_sub_id, Toast, ToastKind, ToastText, PendingAction, error, timed_out}
use tepegoz.App.Toasts.{
  push_toast_at, sweep_expired, expire_all, expire_pending_action_at, max_toasts, is_expired,
  confirm_left, has_id,
}
use tepegoz.App.Focus.{move_focus_to, move_focus_if, select_tab}
use tepegoz.App.Panes.{remove_at, update_at}
use tepegoz.App.Reach.{Increasing, ActiveFits, subs_of, AppIsValid}

pub Increasing-weaker :
    (lo lo' : ℕ) (xs : List ℕ) (hi : ℕ) → lo' ≤ lo → Increasing lo xs hi → Increasing lo' xs hi
Increasing-weaker lo lo' [] hi h inc = omega (arith, h, inc)
Increasing-weaker lo lo' (x ∷ xs) hi h inc = (omega (arith, h, inc.0), inc.1)

pub ActiveFits-of_lt : (active n : ℕ) → active < n → ActiveFits active n
ActiveFits-of_lt active zero h = absurd (omega (arith, h))
ActiveFits-of_lt active (suc n) h = h

pub ActiveFits-of_le : (active n : ℕ) → active ≤ n - 1 → ActiveFits active n
ActiveFits-of_le active zero h = omega (arith, h)
ActiveFits-of_le active (suc n) h = omega (arith, h)

pub ActiveFits-le : (active n : ℕ) → ActiveFits active n → active ≤ n - 1
ActiveFits-le active zero h = omega (arith, h)
ActiveFits-le active (suc n) h = omega (arith, h)

Increasing-above : (lo : ℕ) (xs : List ℕ) (hi : ℕ) → Increasing lo xs hi → Increasing lo xs (hi + 1)
Increasing-above lo [] hi inc = omega (arith, inc)
Increasing-above lo (x ∷ xs) hi inc = (inc.0, Increasing-above (suc x) xs hi inc.1)

pub Increasing-fresh :
    (lo : ℕ) (xs : List ℕ) (hi : ℕ) → Increasing lo xs hi → Increasing lo (xs ++ hi ∷ []) (hi + 1)
Increasing-fresh lo [] hi inc = (inc, omega arith)
Increasing-fresh lo (x ∷ xs) hi inc = (inc.0, Increasing-fresh (suc x) xs hi inc.1)

pub length-drop_1 : {A : Type 0} (xs : List A) → length (drop 1 xs) ≡ length xs - 1
length-drop_1 [] = refl
length-drop_1 (x ∷ xs) = omega arith

pub length-filter_by :
    {A : Type 0} (p : A → Bool) (xs : List A) → length (filter_by p xs) ≤ length xs
length-filter_by p [] = omega arith
length-filter_by p (x ∷ xs) = elim (Bool-cases (p x)) [
  | inl e ↦ rw e (omega (arith, length-filter_by p xs))
  | inr e ↦ rw e (omega (arith, length-filter_by p xs))
]

pub length-remove_at :
    {A : Type 0} (i : ℕ) (xs : List A) → i < length xs → length (remove_at i xs) ≡ length xs - 1
unfolding remove_at
length-remove_at i [] h = omega (arith, h)
length-remove_at zero (x ∷ xs) h = omega arith
length-remove_at (suc i) (x ∷ xs) h = omega (arith, h, length-remove_at i xs (omega (arith, h)))

pub length-update_at :
    {A : Type 0} (i : ℕ) (f : A → A) (xs : List A) → length (update_at i f xs) ≡ length xs
unfolding update_at
length-update_at i f [] = refl
length-update_at zero f (x ∷ xs) = refl
length-update_at (suc i) f (x ∷ xs) = omega (arith, length-update_at i f xs)

pub length-map : {A B : Type 0} (f : A → B) (xs : List A) → length (map f xs) ≡ length xs
length-map f [] = refl
length-map f (x ∷ xs) = omega (arith, length-map f xs)

pub get_elem?-small :
    {A : Type 0} (xs : List A) (i : ℕ) (x : A) → get_elem? xs i ≡ some x → i < length xs
get_elem?-small [] i x h = cc
get_elem?-small (y ∷ xs) zero x h = omega arith
get_elem?-small (y ∷ xs) (suc i) x h = omega (arith, get_elem?-small xs i x h)

pub push_toast-length :
    {Parser : Type 0} (app : App Parser) (now : ℕ) (kind : ToastKind) (text : ToastText)
    → length app.toasts ≤ max_toasts
    → length (push_toast_at app now kind text).0.toasts ≤ max_toasts
unfolding push_toast_at
push_toast-length app now kind text h = elim (Bool-cases (leb max_toasts (length app.toasts))) [
  | inl e ↦ rw (e, length-append, length-drop_1) (ground arith)
  | inr e ↦ rw (e, length-append) (ground arith)
]

module _ {Parser : Type 0} where
  pub push_toast-AppIsValid :
      (app : App Parser) (now : ℕ) (kind : ToastKind) (text : ToastText)
      → AppIsValid app
      → AppIsValid (push_toast_at app now kind text).0
  unfolding push_toast_at
  push_toast-AppIsValid app now kind text h = record {
    active_in = h.active_in;
    subs_grow = h.subs_grow;
    toasts_fit = push_toast-length app now kind text h.toasts_fit;
  }

  pub expire-AppIsValid :
      (app : App Parser) (now id : ℕ)
      → AppIsValid app
      → AppIsValid (expire_pending_action_at app now id).0
  unfolding expire_pending_action_at
  expire-AppIsValid app now id h = elim (Option-cases (find? (has_id id) app.pending_actions)) [
    | inl e ↦ rw (e, expire_pending_action_at) h
    | inr (entry, e) ↦
        rw (e, expire_pending_action_at)
          (push_toast-AppIsValid
            (record app {
              pending_actions = filter_by (λ e. not (has_id id e)) app.pending_actions;
            })
            now error (timed_out entry.1.description)
            (record {
              active_in = h.active_in;
              subs_grow = h.subs_grow;
              toasts_fit = h.toasts_fit;
            }))
  ]

  pub expire_all-AppIsValid :
      (app : App Parser) (now : ℕ) (ids : List ℕ)
      → AppIsValid app
      → AppIsValid (expire_all app now ids).0
  unfolding expire_all
  expire_all-AppIsValid app now [] h = h
  expire_all-AppIsValid app now (id ∷ ids) h =
      expire_all-AppIsValid (expire_pending_action_at app now id).0 now ids
        (expire-AppIsValid app now id h)

  pub sweep-AppIsValid :
      (app : App Parser) (now : ℕ) → AppIsValid app → AppIsValid (sweep_expired app now).0
  unfolding sweep_expired
  sweep-AppIsValid app now h =
      let swept = record app { pending_confirm = confirm_left now app.pending_confirm } in
      let ids =
        map (λ (e : ℕ × PendingAction). e.0) (filter_by (is_expired now) app.pending_actions) in
      let after =
        expire_all-AppIsValid swept now ids (record {
          active_in = h.active_in;
          subs_grow = h.subs_grow;
          toasts_fit = h.toasts_fit;
        }) in
      let fewer =
        length-filter_by (λ (t : Toast). ltb now t.expires_at)
          (expire_all swept now ids).0.toasts in
      record {
        active_in = after.active_in;
        subs_grow = after.subs_grow;
        toasts_fit = omega (arith, after.toasts_fit, fewer);
      }

  pub move_focus-AppIsValid :
      (app : App Parser) (next : TileId) → AppIsValid app → AppIsValid (move_focus_to app next).0
  unfolding move_focus_to
  move_focus-AppIsValid app next h = elim (Bool-cases (same_tile next app.focused)) [
    | inl e ↦ rw e h
    | inr e ↦
        rw e
          (record { active_in = h.active_in; subs_grow = h.subs_grow; toasts_fit = h.toasts_fit })
  ]

  pub select_tab-AppIsValid :
      (app : App Parser) (idx : ℕ) → AppIsValid app → AppIsValid (select_tab app idx).0
  unfolding select_tab
  select_tab-AppIsValid app idx h =
      elim (Bool-cases (ltb idx (length app.pane_stack) && not (idx == app.active_pane))) [
        | inl e ↦ rw e (record {
          active_in = ActiveFits-of_lt idx (length app.pane_stack) (ground (arith, e));
          subs_grow = h.subs_grow;
          toasts_fit = h.toasts_fit;
        })
        | inr e ↦ rw e h
      ]

  pub alloc-AppIsValid : (app : App Parser) → AppIsValid app → AppIsValid (alloc_sub_id app).1
  unfolding alloc_sub_id
  alloc-AppIsValid app h = record {
    active_in = h.active_in;
    subs_grow =
        Increasing-above 1 (subs_of app.pane_stack app.pending_opens) app.next_sub_id h.subs_grow;
    toasts_fit = h.toasts_fit;
  }

  pub move_focus_if-AppIsValid :
      (app : App Parser) (next : Option TileId)
      → AppIsValid app
      → AppIsValid (move_focus_if app next).0
  unfolding move_focus_if
  move_focus_if-AppIsValid app none h = h
  move_focus_if-AppIsValid app (some next) h = move_focus-AppIsValid app next h
