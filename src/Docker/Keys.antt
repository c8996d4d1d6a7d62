-- ===== src/Docker/Keys.antt =====
-- The keys of the Docker tile: `handle_scope_key`, `handle_logs_key` and what they call, in
-- crates/tepegoz-tui/src/app.rs. An instant is a number of milliseconds. The map of pending actions is
-- a list with one entry for each id.
use tepegoz.Prelude.{
  ℕ, ◌+◌, ◌-◌, Bool, true, false, not, ◌&&◌, ◌||◌, Option, none, some, List, [], ◌∷◌, ◌++◌, ltb,
  ◌==◌, if◌then◌else◌, is_empty, filter_by,
}
use tepegoz.Ssh.Chars.{chars}
use tepegoz.Keys.{
  ScopeKey, up, down, top, bottom, home, end, pg_up, pg_dn, filter_start, escape, enter, backspace,
  char,
}
use tepegoz.Scopes.{pop_char, is_printable, letter_key}
use tepegoz.Logs.{LogsView, new, scroll_up, scroll_down, jump_to_tail}
use tepegoz.App.{
  DockerActionKind, start, stop, restart, kill, remove, PendingAction, PendingConfirm, alloc_sub_id,
}
use tepegoz.App.Toasts.{has_id}
use tepegoz.Docker.{
  DockerContainer, DockerView, list, logs, DockerScope, Panel, Pushed, redraw, unsubscribed,
  subscribe_docker_logs, docker_action, display_name_for, visible_count, selected_container,
  clamp_selection,
}

abbrev pub pending_action_timeout : ℕ
pending_action_timeout = 30000

abbrev pub pending_confirm_timeout : ℕ
pending_confirm_timeout = 10000

abbrev pub logs_page_lines : ℕ
logs_page_lines = 10

abbrev pub action_verb : DockerActionKind → List ℕ
action_verb start = chars "Start"
action_verb stop = chars "Stop"
action_verb restart = chars "Restart"
action_verb kill = chars "Kill"
action_verb remove = chars "Remove"

-- What a key does to a transcript; `none` where it is dropped.
unfoldable pub logs_key : LogsView → ScopeKey → Option LogsView
logs_key l up = some (scroll_up l 1)
logs_key l down = some (scroll_down l 1)
logs_key l pg_up = some (scroll_up l logs_page_lines)
logs_key l pg_dn = some (scroll_down l logs_page_lines)
logs_key l bottom = some (jump_to_tail l)
logs_key l end = some (jump_to_tail l)
logs_key l (char b) =
    if b == b'k'
    then some (scroll_up l 1)
    else if b == b'j'
    then some (scroll_down l 1)
    else if b == b'G'
    then some (jump_to_tail l)
    else none
logs_key l _ = none

abbrev pub leaves_logs : ScopeKey → Bool
leaves_logs escape = true
leaves_logs (char b) = b == b'q'
leaves_logs _ = false

abbrev pub confirms : ScopeKey → Bool
confirms (char b) = (b == b'y') || (b == b'Y')
confirms _ = false

abbrev pub is_absorbed : ScopeKey → Bool
is_absorbed (char b) = (b == b'K') || (b == b'X')
is_absorbed _ = false

abbrev pub Done : Type 0 → Type 0
Done Parser = Panel Parser × List Pushed

unfoldable pub move_down : (List ℕ → List ℕ) → DockerScope → DockerScope
move_down to_lowercase d =
    let n = visible_count to_lowercase d in
    if ltb 0 n && ltb (d.selection + 1) n then record d { selection = d.selection + 1 } else d

module _ {Parser : Type 0} where
  abbrev pub drawn : Panel Parser → DockerScope → Done Parser
  drawn p d = (record p { docker = d }, redraw ∷ [])

  unfoldable pub handle_logs_key : LogsView → ScopeKey → Panel Parser → Done Parser
  handle_logs_key l key p =
      if leaves_logs key
      then (
        record p { docker = record p.docker { view = list } },
        unsubscribed l.sub_id ∷ redraw ∷ [],
      )
      else elim (logs_key l key) [
        | none ↦ (p, [])
        | some l' ↦ drawn p (record p.docker { view = logs l' })
      ]

  unfoldable pub dispatch_docker_action :
      ℕ → List ℕ → List ℕ → DockerActionKind → Panel Parser → Done Parser
  dispatch_docker_action now container_id display_name kind p =
      let (request_id, app) = alloc_sub_id p.app in
      let pending : PendingAction = record {
        deadline = now + pending_action_timeout;
        description = action_verb kind ++ 32 ∷ display_name;
      } in
      (
        record p {
          app = record app {
            pending_actions =
                (request_id, pending)
                ∷ filter_by (λ e. not (has_id request_id e)) app.pending_actions;
          };
        },
        docker_action (record {
          request_id = request_id;
          container_id = container_id;
          kind = kind;
          target = p.docker.target;
        })
            ∷ redraw
            ∷ [],
      )

  unfoldable pub enter_logs : Option DockerContainer → Panel Parser → Done Parser
  enter_logs none p = (p, [])
  enter_logs (some c) p =
      let (sub_id, app) = alloc_sub_id p.app in
      (
        record {
          app = app;
          docker = record p.docker { view = logs (new c.id (display_name_for c) sub_id) };
        },
        subscribe_docker_logs sub_id c.id true 0 p.docker.target ∷ redraw ∷ [],
      )

  unfoldable pub issue_on :
      ℕ → DockerActionKind → Option DockerContainer → Panel Parser → Done Parser
  issue_on now kind none p = (p, [])
  issue_on now kind (some c) p = dispatch_docker_action now c.id (display_name_for c) kind p

  unfoldable pub confirm_on :
      ℕ → DockerActionKind → Option DockerContainer → Panel Parser → Done Parser
  confirm_on now kind none p = (p, [])
  confirm_on now kind (some c) p = (
    record p {
      app = record p.app {
        pending_confirm = some (record {
          kind = kind;
          container_id = c.id;
          container_name = display_name_for c;
          deadline = now + pending_confirm_timeout;
        });
      };
    },
    redraw ∷ [],
  )

  -- A key while the prompt is shown.
  unfoldable pub confirm_key : ℕ → PendingConfirm → ScopeKey → Panel Parser → Done Parser
  confirm_key now pending key p =
      let cleared = record p { app = record p.app { pending_confirm = none } } in
      if confirms key
      then dispatch_docker_action now pending.container_id pending.container_name pending.kind
          cleared
      else if is_absorbed key
      then (p, [])
      else (cleared, redraw ∷ [])

module _ {Parser : Type 0} (to_lowercase : List ℕ → List ℕ) where
  unfoldable pub issue_selected_docker_action : ℕ → DockerActionKind → Panel Parser → Done Parser
  unfolding issue_on
  issue_selected_docker_action now kind p =
      issue_on now kind (selected_container to_lowercase p.docker) p

  unfoldable pub begin_confirm : ℕ → DockerActionKind → Panel Parser → Done Parser
  unfolding confirm_on
  begin_confirm now kind p = confirm_on now kind (selected_container to_lowercase p.docker) p

  unfoldable pub try_enter_logs_view : Panel Parser → Done Parser
  unfolding enter_logs
  try_enter_logs_view p = enter_logs (selected_container to_lowercase p.docker) p

  -- A key while the filter is typed.
  unfoldable pub filter_key : ScopeKey → Panel Parser → Done Parser
  filter_key escape p =
      drawn p
        (clamp_selection to_lowercase (record p.docker { filter = []; filter_active = false }))
  filter_key enter p = drawn p (record p.docker { filter_active = false })
  filter_key backspace p =
      if is_empty p.docker.filter
      then (p, [])
      else drawn p
          (clamp_selection to_lowercase (record p.docker { filter = pop_char p.docker.filter }))
  filter_key (char b) p =
      if is_printable b
      then drawn p
          (clamp_selection to_lowercase (record p.docker { filter = p.docker.filter ++ b ∷ [] }))
      else (p, [])
  filter_key _ p = (p, [])

  -- A key that moves in the list, or starts the filter.
  unfoldable pub move_key : ScopeKey → Panel Parser → Done Parser
  move_key up p = drawn p (record p.docker { selection = p.docker.selection - 1 })
  move_key down p = drawn p (move_down to_lowercase p.docker)
  move_key top p = drawn p (record p.docker { selection = 0 })
  move_key home p = drawn p (record p.docker { selection = 0 })
  move_key bottom p =
      drawn p (record p.docker { selection = visible_count to_lowercase p.docker - 1 })
  move_key end p = drawn p (record p.docker { selection = visible_count to_lowercase p.docker - 1 })
  move_key filter_start p = drawn p (record p.docker { filter_active = true })
  move_key _ p = (p, [])

  -- The letters that are no moves.
  unfoldable pub command_key : ℕ → ℕ → Panel Parser → Done Parser
  command_key now b p =
      if b == b'r'
      then issue_selected_docker_action now restart p
      else if b == b's'
      then issue_selected_docker_action now stop p
      else if b == b'K'
      then begin_confirm now kill p
      else if b == b'X'
      then begin_confirm now remove p
      else if b == b'l'
      then try_enter_logs_view p
      else (p, [])

  unfoldable pub letter : ℕ → ℕ → Option ScopeKey → Panel Parser → Done Parser
  letter now b (some key) p = move_key key p
  letter now b none p = command_key now b p

  -- A key in the plain list. The handler calls itself with the key that a letter stands for.
  unfoldable pub plain_key : ℕ → ScopeKey → Panel Parser → Done Parser
  unfolding letter
  plain_key now (char b) p = letter now b (letter_key b) p
  plain_key now key p = move_key key p

  unfoldable pub list_key : ℕ → ScopeKey → Option PendingConfirm → Bool → Panel Parser → Done Parser
  list_key now key (some pending) filter_active p = confirm_key now pending key p
  list_key now key none true p = filter_key key p
  list_key now key none false p = plain_key now key p

  unfoldable pub view_key : ℕ → ScopeKey → DockerView → Panel Parser → Done Parser
  unfolding list_key
  view_key now key (logs l) p = handle_logs_key l key p
  view_key now key list p = list_key now key p.app.pending_confirm p.docker.filter_active p

  unfoldable pub handle_scope_key : ℕ → ScopeKey → Panel Parser → Done Parser
  unfolding view_key
  handle_scope_key now key p = view_key now key p.docker.view p
