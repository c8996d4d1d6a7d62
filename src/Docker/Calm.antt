-- ===== src/Docker/Calm.antt =====
-- What the clock, the focus and a result do to the state of the TUI that the Docker tile depends on:
-- `sweep_expired`, `move_focus_to` and the arm `DockerActionResult` of crates/tepegoz-tui/src/app.rs.
use tepegoz.Prelude.{
  ℕ, ◌≡◌, refl, ◌∙◌, ◌⊎◌, Bool, true, false, not, Option, none, some, List, [], ◌∷◌, leb,
  Bool-cases, Option-cases, inl, inr, All, All-append, map, filter_by, find?,
}
use tepegoz.Tile.{TileId, same_tile}
use tepegoz.App.{App, AppAction, send_envelope, PendingAction, PendingConfirm}
use tepegoz.App.Toasts.{
  push_toast_at, sweep_expired, expire_all, expire_pending_action_at, is_expired, confirm_left,
  has_id,
}
use tepegoz.App.Focus.{move_focus_to}
use tepegoz.Docker.Events.{DockerActionResult, handle_action_result, report, description_of}

abbrev pub is_request : AppAction → Bool
is_request (send_envelope payload) = true
is_request _ = false

abbrev pub IsQuiet : List AppAction → Type 0
IsQuiet actions = All (λ a. is_request a ≡ false) actions

confirm_left-prompt :
    (now : ℕ) (o : Option PendingConfirm) → (confirm_left now o ≡ none) ⊎ (confirm_left now o ≡ o)
confirm_left-prompt now none = inl refl
confirm_left-prompt now (some pc) = elim (Bool-cases (leb pc.deadline now)) [
  | inl e ↦ inl (rw e refl)
  | inr e ↦ inr (rw e refl)
]

module _ {Parser : Type 0} where
  -- The prompt is as it was or gone, no subscription id is taken, and nothing is asked of the daemon.
  pub record IsCalm (app : App Parser) (r : App Parser × List AppAction) : Type 0 where
    pub prompt : (r.0.pending_confirm ≡ none) ⊎ (r.0.pending_confirm ≡ app.pending_confirm)
    pub ids : r.0.next_sub_id ≡ app.next_sub_id
    pub quiet : IsQuiet r.1

  pub record IsKept (app : App Parser) (r : App Parser × List AppAction) : Type 0 where
    pub prompt : r.0.pending_confirm ≡ app.pending_confirm
    pub ids : r.0.next_sub_id ≡ app.next_sub_id
    pub quiet : IsQuiet r.1

  expire-IsKept : (app : App Parser) (now id : ℕ) → IsKept app (expire_pending_action_at app now id)
  unfolding expire_pending_action_at push_toast_at
  expire-IsKept app now id = elim (Option-cases (find? (has_id id) app.pending_actions)) [
    | inl e ↦ rw (e, expire_pending_action_at) (record { prompt = refl; ids = refl; quiet = tt })
    | inr (entry, e) ↦
        rw (e, expire_pending_action_at)
          (record { prompt = refl; ids = refl; quiet = (refl, (refl, tt)) })
  ]

  expire_all-IsKept :
      (app : App Parser) (now : ℕ) (ids : List ℕ) → IsKept app (expire_all app now ids)
  unfolding expire_all
  expire_all-IsKept app now [] = record { prompt = refl; ids = refl; quiet = tt }
  expire_all-IsKept app now (id ∷ ids) =
      let first = expire-IsKept app now id in
      let more = expire_all-IsKept (expire_pending_action_at app now id).0 now ids in
      record {
        prompt = more.prompt ∙ first.prompt;
        ids = more.ids ∙ first.ids;
        quiet = All-append _ (expire_pending_action_at app now id).1 _ first.quiet more.quiet;
      }

  pub sweep-IsCalm : (app : App Parser) (now : ℕ) → IsCalm app (sweep_expired app now)
  unfolding sweep_expired
  sweep-IsCalm app now =
      let swept = record app { pending_confirm = confirm_left now app.pending_confirm } in
      let ids =
        map (λ (e : ℕ × PendingAction). e.0) (filter_by (is_expired now) app.pending_actions) in
      let kept = expire_all-IsKept swept now ids in
      record {
        prompt = elim (confirm_left-prompt now app.pending_confirm) [
          | inl e ↦ inl (kept.prompt ∙ e)
          | inr e ↦ inr (kept.prompt ∙ e)
        ];
        ids = kept.ids;
        quiet = kept.quiet;
      }

  pub move_focus-IsCalm : (app : App Parser) (next : TileId) → IsCalm app (move_focus_to app next)
  unfolding move_focus_to
  move_focus-IsCalm app next = elim (Bool-cases (same_tile next app.focused)) [
    | inl e ↦ rw e (record { prompt = inr refl; ids = refl; quiet = tt })
    | inr e ↦ elim (Bool-cases (same_tile app.focused TileId.docker)) [
      | inl f ↦ rw (e, f) (record { prompt = inl refl; ids = refl; quiet = (refl, (refl, tt)) })
      | inr f ↦ rw (e, f) (record { prompt = inr refl; ids = refl; quiet = (refl, (refl, tt)) })
    ]
  ]

  result-IsKept :
      (now : ℕ) (description : List ℕ) (failure : Option (List ℕ)) (app : App Parser)
      → IsKept app (report now description failure app)
  unfolding report push_toast_at
  result-IsKept now description none app = record {
    prompt = refl;
    ids = refl;
    quiet = (refl, (refl, tt));
  }
  result-IsKept now description (some reason) app = record {
    prompt = refl;
    ids = refl;
    quiet = (refl, (refl, tt));
  }

  pub result-IsCalm :
      (now : ℕ) (result : DockerActionResult) (app : App Parser)
      → IsCalm app (handle_action_result now result app)
  unfolding handle_action_result
  result-IsCalm now result app =
      let known = record app {
        pending_actions = filter_by (λ e. not (has_id result.request_id e)) app.pending_actions;
      } in
      let kept =
        result-IsKept now
          (description_of result (find? (has_id result.request_id) app.pending_actions))
          result.failure known in
      record { prompt = inr kept.prompt; ids = kept.ids; quiet = kept.quiet }
