-- ===== src/Docker/Steps/Cases.antt =====
-- Every key of the Docker tile: `handle_scope_key` of crates/tepegoz-tui/src/app.rs.
use tepegoz.Prelude.{
  ℕ, ◌≡◌, refl, Bool, true, false, Option, none, some, List, ◌==◌, Bool-cases, inl, inr,
}
use tepegoz.Keys.{
  ScopeKey, up, down, top, bottom, home, end, pg_up, pg_dn, filter_start, escape, enter, backspace,
  char,
}
use tepegoz.Scopes.{letter_key}
use tepegoz.App.{DockerActionKind, stop, restart, kill, remove, PendingConfirm}
use tepegoz.Docker.{DockerContainer, DockerView, list, logs, Panel, selected_container}
use tepegoz.Docker.Keys.{
  confirms, is_absorbed, move_key, command_key, plain_key, list_key, handle_scope_key, confirm_key,
  issue_selected_docker_action, begin_confirm, enter_logs, try_enter_logs_view, letter, issue_on,
  confirm_on, view_key,
}
use tepegoz.Docker.Steps.{
  is_destructive, InRange, about, asked_by, KeyStep, dropped, prompted, cancelled, answered, issued,
  entered,
}
use tepegoz.Docker.Steps.Moves.{filter_key-KeyStep, move_key-KeyStep, logs_key-KeyStep}

module _ {Parser : Type 0} (to_lowercase : List ℕ → List ℕ) (now : ℕ) where
  issued-KeyStep :
      (key : ScopeKey) (kind : DockerActionKind) (o : Option DockerContainer) (p : Panel Parser)
      → is_destructive kind ≡ false
      → KeyStep to_lowercase now key p (issue_on now kind o p)
  unfolding issue_on
  issued-KeyStep key kind none p safe = dropped
  issued-KeyStep key kind (some c) p safe = issued c kind safe

  -- A prompt is for the container that is selected.
  prompted-KeyStep :
      (key : ScopeKey) (kind : DockerActionKind) (o : Option DockerContainer) (p : Panel Parser)
      → p.docker.view ≡ list
      → asked_by to_lowercase p.app.pending_confirm key p.docker ≡ about kind p.docker.target o
      → KeyStep to_lowercase now key p (confirm_on now kind o p)
  unfolding confirm_on
  prompted-KeyStep key kind none p v q = dropped
  prompted-KeyStep key kind (some c) p v q = prompted c kind v q

  entered-KeyStep :
      (key : ScopeKey) (o : Option DockerContainer) (p : Panel Parser)
      → p.docker.view ≡ list
      → p.app.pending_confirm ≡ none
      → KeyStep to_lowercase now key p (enter_logs o p)
  unfolding enter_logs
  entered-KeyStep key none p v n = dropped
  entered-KeyStep key (some c) p v n = entered c v n

  command_key-KeyStep :
      (b : ℕ) (p : Panel Parser)
      → p.docker.view ≡ list
      → p.app.pending_confirm ≡ none
      → p.docker.filter_active ≡ false
      → KeyStep to_lowercase now (char b) p (command_key to_lowercase now b p)
  unfolding command_key asked_by issue_selected_docker_action begin_confirm try_enter_logs_view
  command_key-KeyStep b p v n f =
      let chosen = selected_container to_lowercase p.docker in
      elim (Bool-cases (b == b'r')) [
        | inl r ↦ rw r (issued-KeyStep (char b) restart chosen p refl)
        | inr r ↦ elim (Bool-cases (b == b's')) [
          | inl s ↦ rw (r, s) (issued-KeyStep (char b) stop chosen p refl)
          | inr s ↦ elim (Bool-cases (b == b'K')) [
            | inl k ↦
                rw (r, s, k) (prompted-KeyStep (char b) kill chosen p v (rw (v, n, f, k) refl))
            | inr k ↦ elim (Bool-cases (b == b'X')) [
              | inl x ↦
                  rw (r, s, k, x)
                    (prompted-KeyStep (char b) remove chosen p v (rw (v, n, f, k, x) refl))
              | inr x ↦ elim (Bool-cases (b == b'l')) [
                | inl l ↦ rw (r, s, k, x, l) (entered-KeyStep (char b) chosen p v n)
                | inr l ↦ rw (r, s, k, x, l) dropped
              ]
            ]
          ]
        ]
      ]

  letter-KeyStep :
      (b : ℕ) (o : Option ScopeKey) (p : Panel Parser)
      → InRange to_lowercase p.docker
      → p.docker.view ≡ list
      → p.app.pending_confirm ≡ none
      → p.docker.filter_active ≡ false
      → KeyStep to_lowercase now (char b) p (letter to_lowercase now b o p)
  unfolding letter
  letter-KeyStep b (some key) p h v n f = move_key-KeyStep to_lowercase now (char b) key p h
  letter-KeyStep b none p h v n f = command_key-KeyStep b p v n f

  plain_key-KeyStep :
      (key : ScopeKey) (p : Panel Parser)
      → InRange to_lowercase p.docker
      → p.docker.view ≡ list
      → p.app.pending_confirm ≡ none
      → p.docker.filter_active ≡ false
      → KeyStep to_lowercase now key p (plain_key to_lowercase now key p)
  unfolding plain_key move_key
  plain_key-KeyStep (char b) p h v n f = letter-KeyStep b (letter_key b) p h v n f
  plain_key-KeyStep up p h v n f = move_key-KeyStep to_lowercase now up up p h
  plain_key-KeyStep down p h v n f = move_key-KeyStep to_lowercase now down down p h
  plain_key-KeyStep top p h v n f = move_key-KeyStep to_lowercase now top top p h
  plain_key-KeyStep bottom p h v n f = move_key-KeyStep to_lowercase now bottom bottom p h
  plain_key-KeyStep home p h v n f = move_key-KeyStep to_lowercase now home home p h
  plain_key-KeyStep end p h v n f = move_key-KeyStep to_lowercase now end end p h
  plain_key-KeyStep pg_up p h v n f = dropped
  plain_key-KeyStep pg_dn p h v n f = dropped
  plain_key-KeyStep filter_start p h v n f =
      move_key-KeyStep to_lowercase now filter_start filter_start p h
  plain_key-KeyStep escape p h v n f = dropped
  plain_key-KeyStep enter p h v n f = dropped
  plain_key-KeyStep backspace p h v n f = dropped

  confirm_key-KeyStep :
      (pending : PendingConfirm) (key : ScopeKey) (p : Panel Parser)
      → p.app.pending_confirm ≡ some pending
      → KeyStep to_lowercase now key p (confirm_key now pending key p)
  unfolding confirm_key
  confirm_key-KeyStep pending key p e = elim (Bool-cases (confirms key)) [
    | inl y ↦ rw y (answered pending e y)
    | inr y ↦ elim (Bool-cases (is_absorbed key)) [
      | inl a ↦ rw (y, a) dropped
      | inr a ↦ rw (y, a) cancelled
    ]
  ]

  list_key-KeyStep :
      (key : ScopeKey) (prompt : Option PendingConfirm) (active : Bool) (p : Panel Parser)
      → InRange to_lowercase p.docker
      → p.docker.view ≡ list
      → p.app.pending_confirm ≡ prompt
      → p.docker.filter_active ≡ active
      → KeyStep to_lowercase now key p (list_key to_lowercase now key prompt active p)
  unfolding list_key
  list_key-KeyStep key (some pending) active p h v n f = confirm_key-KeyStep pending key p n
  list_key-KeyStep key none true p h v n f = filter_key-KeyStep to_lowercase now key p h
  list_key-KeyStep key none false p h v n f = plain_key-KeyStep key p h v n f

  view_key-KeyStep :
      (key : ScopeKey) (view : DockerView) (p : Panel Parser)
      → InRange to_lowercase p.docker
      → p.docker.view ≡ view
      → KeyStep to_lowercase now key p (view_key to_lowercase now key view p)
  unfolding view_key
  view_key-KeyStep key list p h v =
      list_key-KeyStep key p.app.pending_confirm p.docker.filter_active p h v refl refl
  view_key-KeyStep key (logs l) p h v = logs_key-KeyStep to_lowercase now l key p v

  -- Each key does one of the things that a case of `KeyStep` states.
  pub handle_scope_key-KeyStep :
      (key : ScopeKey) (p : Panel Parser)
      → InRange to_lowercase p.docker
      → KeyStep to_lowercase now key p (handle_scope_key to_lowercase now key p)
  unfolding handle_scope_key
  handle_scope_key-KeyStep key p h = view_key-KeyStep key p.docker.view p h refl
