-- ===== src/App/PaneKeeps.antt =====
-- The pane stack keeps the invariant of `App`: the pane handlers of app.rs in crates/tepegoz-tui/src.
use tepegoz.Prelude.{
  result_of, ℕ, ◌+◌, ◌≤◌, ◌<◌, ◌≡◌, refl, Bool, true, false, Option, none, some, List, [], ◌∷◌,
  arith, Bool-cases, Option-cases, inl, inr, length, is_empty, get_elem?, >>=-eq-some,
}
use mathlib.Core.Path.{subst}
use tepegoz.Ratatui.{Geometry}
use tepegoz.Tile.{TileId, tile, same_tile, default_for}
use tepegoz.App.{
  App, AppAction, PaneEntry, PendingOpen, Vt100, info, error, pane_exited, opening, open_failed,
  daemon_error, pty_content_dims, vt100_scrollback_rows,
}
use tepegoz.App.Toasts.{max_toasts}
use tepegoz.App.Focus.{handle_resize}
use tepegoz.App.Panes.{
  close_active_pane, handle_pane_opened, handle_pane_event, handle_error, dispatch_open_remote_pane,
  PaneEvent, pane_snapshot, pane_output, pane_exit, pane_lagged, other_event, remove_at,
  active_after, reopen_root, clamp_active, exit_pane, feed_pane, focus_pty, open_pending, fail_open,
  close_pane_entry, after_removal,
}
use tepegoz.App.Reach.{Increasing, ActiveFits, subs_of, AppIsValid}
use tepegoz.App.Subs.{
  subs_of-opened, subs_of-map, subs_of-update_at, Increasing-remove_at, Increasing-tail,
  Increasing-ask,
}
use tepegoz.App.Keeps.{
  ActiveFits-of_le, ActiveFits-le, length-remove_at, length-update_at, length-map, get_elem?-small,
  push_toast-AppIsValid,
}

-- A list with one place less has its last index one lower.
is_empty-length : {A : Type 0} (xs : List A) → is_empty xs ≡ true → length xs ≡ 0
is_empty-length [] h = refl
is_empty-length (x ∷ xs) h = cc

active_after_small :
    (idx active left : ℕ)
    → idx < left + 1
    → active ≤ left
    → ActiveFits (active_after idx active left) left
unfolding active_after
active_after_small idx active left hi ha =
    ActiveFits-of_le (active_after idx active left) left (ground arith)

module _ {Parser : Type 0} where
  pub dispatch-AppIsValid :
      (app : App Parser) (now : ℕ) (selected : Option (List ℕ))
      → AppIsValid app
      → AppIsValid (dispatch_open_remote_pane app now selected).0
  unfolding dispatch_open_remote_pane
  dispatch-AppIsValid app now none h = h
  dispatch-AppIsValid app now (some alias) h =
      push_toast-AppIsValid _ now info (opening alias) (record {
        active_in = h.active_in;
        subs_grow = Increasing-ask app (some alias) h.subs_grow;
        toasts_fit = h.toasts_fit;
      })

  fail_open-AppIsValid :
      (app : App Parser) (now : ℕ) (message : List ℕ) (opens : List PendingOpen)
      → app.pending_opens ≡ opens
      → AppIsValid app
      → AppIsValid (fail_open app now message opens).0
  unfolding fail_open
  fail_open-AppIsValid app now message [] e h =
      push_toast-AppIsValid app now error (daemon_error message) h
  fail_open-AppIsValid app now message (o ∷ rest) e h =
      let grows : Increasing 1 (subs_of app.pane_stack (o ∷ rest)) app.next_sub_id =
        subst (λ l. Increasing 1 (subs_of app.pane_stack l) app.next_sub_id) e h.subs_grow in
      push_toast-AppIsValid (record app { pending_opens = rest }) now error
        (open_failed o.alias message)
        (record {
          active_in = h.active_in;
          subs_grow = Increasing-tail 1 app.next_sub_id app.pane_stack o rest grows;
          toasts_fit = h.toasts_fit;
        })

  pub error-AppIsValid :
      (app : App Parser) (now : ℕ) (is_open_failure : Bool) (message : List ℕ)
      → AppIsValid app
      → AppIsValid (handle_error app now is_open_failure message).0
  unfolding handle_error
  error-AppIsValid app now false message h =
      push_toast-AppIsValid app now error (daemon_error message) h
  error-AppIsValid app now true message h =
      fail_open-AppIsValid app now message app.pending_opens refl h

  focus_pty-AppIsValid : (app : App Parser) → AppIsValid app → AppIsValid (focus_pty app).0
  unfolding focus_pty
  focus_pty-AppIsValid app h = elim (Option-cases (tile app.layout TileId.pty)) [
    | inl e ↦ rw (e, focus_pty) h
    | inr (t, e) ↦
        rw (e, focus_pty)
          (elim (Bool-cases (same_tile app.focused TileId.pty)) [
            | inl f ↦ rw f h
            | inr f ↦ rw f (record {
              active_in = h.active_in;
              subs_grow = h.subs_grow;
              toasts_fit = h.toasts_fit;
            })
          ])
  ]

  open_pending-AppIsValid :
      (vt : Vt100 Parser) (app : App Parser) (pane_id : ℕ) (label : List ℕ)
      (opens : List PendingOpen)
      → app.pending_opens ≡ opens
      → AppIsValid app
      → AppIsValid (open_pending vt app pane_id label opens).0
  unfolding open_pending
  open_pending-AppIsValid vt app pane_id label [] e h = h
  open_pending-AppIsValid vt app pane_id label (o ∷ rest) e h =
      let grows : Increasing 1 (subs_of app.pane_stack (o ∷ rest)) app.next_sub_id =
        subst (λ l. Increasing 1 (subs_of app.pane_stack l) app.next_sub_id) e h.subs_grow in
      let (pty_rows, pty_cols) = pty_content_dims app.layout in
      let entry : PaneEntry Parser = record {
        pane_id = pane_id;
        sub_id = o.sub_id;
        label = label;
        parser = vt.new_parser pty_rows pty_cols vt100_scrollback_rows;
      } in
      focus_pty-AppIsValid _ (record {
        active_in = ActiveFits-of_le _ _ (omega arith);
        subs_grow = rw (subs_of-opened app.pane_stack entry o rest refl) grows;
        toasts_fit = h.toasts_fit;
      })

  pub opened-AppIsValid :
      (vt : Vt100 Parser) (app : App Parser) (pane_id : ℕ) (label : List ℕ)
      → AppIsValid app
      → AppIsValid (handle_pane_opened vt app pane_id label).0
  unfolding handle_pane_opened
  opened-AppIsValid vt app pane_id label h =
      open_pending-AppIsValid vt app pane_id label app.pending_opens refl h

  after_removal-AppIsValid :
      (left : App Parser) (cwd : Option (List ℕ))
      → Increasing 1 (subs_of left.pane_stack left.pending_opens) left.next_sub_id
      → length left.toasts ≤ max_toasts
      → AppIsValid (after_removal left cwd).0
  unfolding after_removal reopen_root clamp_active
  after_removal-AppIsValid left cwd grows fit = elim (Bool-cases (is_empty left.pane_stack)) [
    | inl e ↦ rw e (record {
      active_in = ActiveFits-of_le 0 (length left.pane_stack) (omega arith);
      subs_grow = Increasing-ask left none grows;
      toasts_fit = fit;
    })
    | inr e ↦ rw e (record {
      active_in = ActiveFits-of_le _ _ (ground arith);
      subs_grow = grows;
      toasts_fit = fit;
    })
  ]

  pub close-AppIsValid :
      (app : App Parser) (cwd : Option (List ℕ)) (r : App Parser × List AppAction)
      → close_active_pane app cwd ≡ some r
      → AppIsValid app
      → AppIsValid r.0
  unfolding close_active_pane close_pane_entry
  close-AppIsValid app cwd r e h =
      let P : App Parser × List AppAction → Type 0 = λ r. AppIsValid r.0 in
      elim (Bool-cases (is_empty app.pane_stack)) [
        | inl none_left ↦ result_of P (rw none_left at e) h
        | inr some_left ↦
            let (removed, here, is) =
              >>=-eq-some (get_elem? app.pane_stack app.active_pane)
                (λ removed. some (close_pane_entry app cwd removed)) (rw some_left at e) in
            result_of P is (
              after_removal-AppIsValid
                (record app { pane_stack = remove_at app.active_pane app.pane_stack }) cwd
                (Increasing-remove_at app.active_pane 1 app.next_sub_id app.pane_stack
                  app.pending_opens h.subs_grow)
                h.toasts_fit)
      ]

  feed_pane-AppIsValid :
      (vt : Vt100 Parser) (app : App Parser) (idx : ℕ) (bytes : List ℕ)
      → AppIsValid app
      → AppIsValid (feed_pane vt app idx bytes).0
  unfolding feed_pane
  feed_pane-AppIsValid vt app idx bytes h =
      let fed : PaneEntry Parser → PaneEntry Parser =
        λ p. record p { parser = vt.feed p.parser bytes } in
      record {
        active_in = rw (length-update_at idx fed app.pane_stack) h.active_in;
        subs_grow =
            rw (subs_of-update_at idx fed app.pane_stack app.pending_opens (λ p. refl)) h.subs_grow;
        toasts_fit = h.toasts_fit;
      }

  exit_pane-AppIsValid :
      (app : App Parser) (now idx : ℕ) (exit_code : Option ℕ) (p : PaneEntry Parser)
      → idx < length app.pane_stack
      → AppIsValid app
      → AppIsValid (exit_pane app now idx exit_code p).0
  unfolding exit_pane
  exit_pane-AppIsValid app now idx exit_code p small h =
      let stack = remove_at idx app.pane_stack in
      let active_le = ActiveFits-le app.active_pane (length app.pane_stack) h.active_in in
      let fewer = length-remove_at idx app.pane_stack small in
      let grows =
        Increasing-remove_at idx 1 app.next_sub_id app.pane_stack app.pending_opens h.subs_grow in
      elim (Bool-cases (is_empty stack)) [
        | inl e ↦
            let gone = is_empty-length stack e in
            rw (e, exit_pane)
              (record {
                active_in = ActiveFits-of_le _ _ (omega (arith, active_le, fewer, gone));
                subs_grow = grows;
                toasts_fit = h.toasts_fit;
              })
        | inr e ↦
            rw (e, exit_pane)
              (push_toast-AppIsValid _ now info (pane_exited p.label exit_code) (record {
                active_in =
                    active_after_small idx app.active_pane (length stack)
                      (omega (arith, small, fewer)) (omega (arith, fewer, active_le));
                subs_grow = grows;
                toasts_fit = h.toasts_fit;
              }))
      ]

  pub event-AppIsValid :
      (vt : Vt100 Parser) (app : App Parser) (now idx : ℕ) (event : PaneEvent)
      (r : App Parser × List AppAction)
      → handle_pane_event vt app now idx event ≡ some r
      → AppIsValid app
      → AppIsValid r.0
  unfolding handle_pane_event
  event-AppIsValid vt app now idx (pane_snapshot bytes) r e h = elim (Bool-cases (is_empty bytes)) [
    | inl nothing ↦ result_of (λ r. AppIsValid r.0) (rw nothing at e) h
    | inr something ↦
        let (p, here, is) =
          >>=-eq-some (get_elem? app.pane_stack idx) (λ p. some (feed_pane vt app idx bytes))
            (rw something at e) in
        result_of (λ r. AppIsValid r.0) is (feed_pane-AppIsValid vt app idx bytes h)
  ]
  event-AppIsValid vt app now idx (pane_output bytes) r e h =
      let (p, here, is) =
        >>=-eq-some (get_elem? app.pane_stack idx) (λ p. some (feed_pane vt app idx bytes)) e in
      result_of (λ r. AppIsValid r.0) is (feed_pane-AppIsValid vt app idx bytes h)
  event-AppIsValid vt app now idx (pane_exit exit_code) r e h =
      let (p, here, is) =
        >>=-eq-some (get_elem? app.pane_stack idx) (λ p. some (exit_pane app now idx exit_code p))
          e in
      result_of (λ r. AppIsValid r.0) is
        (exit_pane-AppIsValid app now idx exit_code p (get_elem?-small app.pane_stack idx p here) h)
  event-AppIsValid vt app now idx (pane_lagged n) r e h = result_of (λ r. AppIsValid r.0) e h
  event-AppIsValid vt app now idx other_event r e h = result_of (λ r. AppIsValid r.0) e h

  pub resize-AppIsValid :
      (geometry : Geometry) (vt : Vt100 Parser) (app : App Parser) (rows cols : ℕ)
      → AppIsValid app
      → AppIsValid (handle_resize geometry vt app rows cols).0
  unfolding handle_resize
  resize-AppIsValid geometry vt app rows cols h =
      let (pty_rows, pty_cols) =
        pty_content_dims (default_for geometry (geometry.rect_new 0 0 cols rows)) in
      let sized : PaneEntry Parser → PaneEntry Parser =
        λ p. record p { parser = vt.set_size p.parser pty_rows pty_cols } in
      record {
        active_in = rw length-map h.active_in;
        subs_grow = rw (subs_of-map sized app.pane_stack app.pending_opens (λ p. refl)) h.subs_grow;
        toasts_fit = h.toasts_fit;
      }
