-- ===== src/Docker/Steps.antt =====
-- What a key does in the Docker tile, one case for each way: `handle_scope_key` of
-- crates/tepegoz-tui/src/app.rs.
pub mod Moves
pub mod Cases
use tepegoz.Prelude.{
  ℕ, ◌+◌, ◌-◌, ◌≤◌, ◌≡◌, refl, sym, ◌⊎◌, result_of, Bool, true, false, ◌&&◌, ◌||◌, Option, none,
  some, List, [], ◌∷◌, ◌++◌, arith, ltb, leb, ◌==◌, if◌then◌else◌, Bool-cases, Option-cases, inl,
  inr, is_empty, get_elem?,
}
use tepegoz.Keys.{
  ScopeKey, up, down, top, bottom, home, end, pg_up, pg_dn, filter_start, escape, enter, backspace,
  char,
}
use tepegoz.Scopes.{pop_char, is_printable, letter_key}
use tepegoz.Logs.{LogsView, scroll_up, scroll_down, jump_to_tail}
use tepegoz.App.{DockerActionKind, start, stop, restart, kill, remove, PendingConfirm}
use tepegoz.Daemon.{ScopeTarget}
use tepegoz.Docker.{
  DockerContainer, DockerView, list, logs, DockerScope, Panel, redraw, unsubscribed,
  visible_containers, display_name_for, visible_count, selected_container, clamp_selection,
}
use tepegoz.Docker.Keys.{
  Done, drawn, confirms, is_absorbed, leaves_logs, logs_key, handle_logs_key, move_down, move_key,
  filter_key, command_key, plain_key, list_key, handle_scope_key, confirm_key,
  dispatch_docker_action, issue_selected_docker_action, begin_confirm, enter_logs,
  try_enter_logs_view, letter, issue_on, confirm_on, view_key, pending_confirm_timeout,
}

-- What a prompt asks: to kill or remove a container of a host.
pub record Question : Type 0 where
  pub kind : DockerActionKind
  pub container_id : List ℕ
  pub target : ScopeTarget

abbrev pub is_destructive : DockerActionKind → Bool
is_destructive kill = true
is_destructive remove = true
is_destructive _ = false

abbrev pub about : DockerActionKind → ScopeTarget → Option DockerContainer → Option Question
about kind target none = none
about kind target (some c) = some (record { kind = kind; container_id = c.id; target = target })

module _ (to_lowercase : List ℕ → List ℕ) where
  -- The selection is a container that is shown, or 0 where none is.
  abbrev pub InRange : DockerScope → Type 0
  InRange d = d.selection ≤ visible_count to_lowercase d - 1

  abbrev pub about_selected : DockerActionKind → DockerScope → Option Question
  about_selected kind d = about kind d.target (selected_container to_lowercase d)

  -- What the user asks for by a press of `K` or `X` on the selected container: while the list is shown,
  -- no prompt is, and no filter is typed.
  unfoldable pub asked_by : Option PendingConfirm → ScopeKey → DockerScope → Option Question
  asked_by (some pc) key d = none
  asked_by none (char b) d = elim d.view [
    | logs l ↦ none
    | list ↦
        if d.filter_active
        then none
        else if b == b'K'
        then about_selected kill d
        else if b == b'X'
        then about_selected remove d
        else none
  ]
  asked_by none _ d = none

module _ {Parser : Type 0} (to_lowercase : List ℕ → List ℕ) (now : ℕ) where
  abbrev pub without_prompt : Panel Parser → Panel Parser
  without_prompt p = record p { app = record p.app { pending_confirm = none } }

  abbrev pub with_prompt : DockerContainer → DockerActionKind → Panel Parser → Panel Parser
  with_prompt c kind p = record p {
    app = record p.app {
      pending_confirm = some (record {
        kind = kind;
        container_id = c.id;
        container_name = display_name_for c;
        deadline = now + pending_confirm_timeout;
      });
    };
  }

  pub data KeyStep (key : ScopeKey) (p : Panel Parser) : Done Parser → Type 0 where
    dropped : KeyStep key p (p, [])
    in_list :
        (d : DockerScope)
        → d.view ≡ p.docker.view
        → d.sub_id ≡ p.docker.sub_id
        → d.target ≡ p.docker.target
        → InRange to_lowercase d
        → KeyStep key p (record p { docker = d }, redraw ∷ [])
    scrolled :
        (l l' : LogsView)
        → p.docker.view ≡ logs l
        → l'.sub_id ≡ l.sub_id
        → KeyStep key p (record p { docker = record p.docker { view = logs l' } }, redraw ∷ [])
    left :
        (l : LogsView)
        → p.docker.view ≡ logs l
        → KeyStep key p (
          record p { docker = record p.docker { view = list } },
          unsubscribed l.sub_id ∷ redraw ∷ [],
        )
    prompted :
        (c : DockerContainer) (kind : DockerActionKind)
        → p.docker.view ≡ list
        → asked_by to_lowercase p.app.pending_confirm key p.docker
          ≡ some (record { kind = kind; container_id = c.id; target = p.docker.target })
        → KeyStep key p (with_prompt c kind p, redraw ∷ [])
    cancelled : KeyStep key p (without_prompt p, redraw ∷ [])
    answered :
        (pc : PendingConfirm)
        → p.app.pending_confirm ≡ some pc
        → confirms key ≡ true
        → KeyStep key p (
            dispatch_docker_action now pc.container_id pc.container_name pc.kind (without_prompt p))
    issued :
        (c : DockerContainer) (kind : DockerActionKind)
        → is_destructive kind ≡ false
        → KeyStep key p (dispatch_docker_action now c.id (display_name_for c) kind p)
    entered :
        (c : DockerContainer)
        → p.docker.view ≡ list
        → p.app.pending_confirm ≡ none
        → KeyStep key p (enter_logs (some c) p)
