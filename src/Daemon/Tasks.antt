-- ===== src/Daemon/Tasks.antt =====
-- The tasks that run for a client are the ones that its maps hold: `handle_command` and `session` of
-- crates/tepegoz-core/src/client.rs.
use mathlib.Core.Path.{subst}
use tepegoz.Prelude.{
  ℕ, ◌<◌, ◌≡◌, ◌≢◌, refl, sym, ◌∙◌, Bool, true, not, Option, none, some, List, [], ◌∷◌, ◌==◌,
  filter_by, All, All-map, All-filter_by, Bool-cases, Option-cases, inl, inr, arith, ==_iff,
}
use tepegoz.Daemon.{local, remote, ScopeTarget, DockerActionRequest}
use tepegoz.Daemon.Maps.{get, remove, put, get-remove_self, get-remove_ne, get-put_self, get-put_ne}
use tepegoz.Daemon.Agents.{Pool, AgentSubHandle, route_remote_subscribe}
use tepegoz.Daemon.Session.{
  SubKind, pane_subs, docker_subs, ports_subs, processes_subs, fleet_subs, same_kind, Task, Session,
  Command, Forwards, forward_scope, forward_fleet, forward_pane, forward_remote_pane, kind_of,
  with_subs, abort, drop_sub, spawn_sub, subscribe_here, drop_everywhere, handle_unsubscribe,
  handle_command, hello, ping, other, subscribe_status, subscribe, subscribe_fleet, fleet_action,
  docker_action, unsubscribe, attach_pane, attach, on_host, on_this_machine, nowhere, PanePlace,
  subscribe_remote, keep_handle, act,
}

-- The map of a task's kind holds the task under the id that it forwards to.
abbrev pub IsHeldIn : (SubKind → List (ℕ × ℕ)) → Task → Type 0
IsHeldIn subs t = get t.id (subs (kind_of t.forwards)) ≡ some t.number

abbrev pub AllHeld : Session → Type 0
AllHeld s = All (IsHeldIn s.subs) s.tasks

-- The numbers of the tasks fall, the newest first.
abbrev pub Descending : ℕ → List Task → Type 0
Descending n [] = Unit
Descending n (t ∷ ts) = (t.number < n) × Descending t.number ts

abbrev pub IsTracked : Session → Type 0
IsTracked s = AllHeld s × Descending s.next_task s.tasks

same_kind_refl : (k : SubKind) → same_kind k k ≡ true
same_kind_refl pane_subs = refl
same_kind_refl docker_subs = refl
same_kind_refl ports_subs = refl
same_kind_refl processes_subs = refl
same_kind_refl fleet_subs = refl

pub same_kind_eq : (j k : SubKind) → same_kind j k ≡ true → j ≡ k
same_kind_eq pane_subs pane_subs h = refl
same_kind_eq pane_subs docker_subs h = cc
same_kind_eq pane_subs ports_subs h = cc
same_kind_eq pane_subs processes_subs h = cc
same_kind_eq pane_subs fleet_subs h = cc
same_kind_eq docker_subs pane_subs h = cc
same_kind_eq docker_subs docker_subs h = refl
same_kind_eq docker_subs ports_subs h = cc
same_kind_eq docker_subs processes_subs h = cc
same_kind_eq docker_subs fleet_subs h = cc
same_kind_eq ports_subs pane_subs h = cc
same_kind_eq ports_subs docker_subs h = cc
same_kind_eq ports_subs ports_subs h = refl
same_kind_eq ports_subs processes_subs h = cc
same_kind_eq ports_subs fleet_subs h = cc
same_kind_eq processes_subs pane_subs h = cc
same_kind_eq processes_subs docker_subs h = cc
same_kind_eq processes_subs ports_subs h = cc
same_kind_eq processes_subs processes_subs h = refl
same_kind_eq processes_subs fleet_subs h = cc
same_kind_eq fleet_subs pane_subs h = cc
same_kind_eq fleet_subs docker_subs h = cc
same_kind_eq fleet_subs ports_subs h = cc
same_kind_eq fleet_subs processes_subs h = cc
same_kind_eq fleet_subs fleet_subs h = refl

-- A change of one key of one map leaves what is held under another key, or in another map.
with_subs-IsHeldIn :
    (subs : SubKind → List (ℕ × ℕ)) (kind : SubKind) (id : ℕ) (m : List (ℕ × ℕ)) (t : Task)
    → ((j : ℕ) → j ≢ id → get j m ≡ get j (subs kind))
    → (get id (subs kind) ≢ some t.number)
    → IsHeldIn subs t
    → IsHeldIn (with_subs kind m subs) t
with_subs-IsHeldIn subs kind id m t elsewhere freed h =
    elim (Bool-cases (same_kind (kind_of t.forwards) kind)) [
      | inr e ↦ rw e h
      | inl e ↦
          let same = same_kind_eq (kind_of t.forwards) kind e in
          let there : get t.id (subs kind) ≡ some t.number =
            subst (λ k. get t.id (subs k) ≡ some t.number) same h in
          rw e (elim (Bool-cases (t.id == id)) [
            | inl f ↦
                let found : get id (subs kind) ≡ some t.number =
                  subst (λ j. get j (subs kind) ≡ some t.number) ((==_iff t.id id).0 f) there in
                elim (freed found) [ ]
            | inr f ↦ let apart : t.id ≢ id = λ q. ground (arith, q) in elsewhere t.id apart ∙ there
          ])
    ]

Descending-filter_by :
    (p : Task → Bool) (n : ℕ) (ts : List Task) → Descending n ts → Descending n (filter_by p ts)
Descending-filter_by p n [] h = tt
Descending-filter_by p n (t ∷ ts) h = elim (Bool-cases (p t)) [
  | inl e ↦ rw e (h.0, Descending-filter_by p t.number ts h.1)
  | inr e ↦ rw e (Descending-filter_by p n ts (lower ts h.1))
]
  where
    lower : (ts : List Task) → Descending t.number ts → Descending n ts
    lower [] k = tt
    lower (u ∷ us) k = (omega (arith, k.0, h.0), k.1)

drop_sub-IsTracked :
    (kind : SubKind) (id : ℕ) (s : Session) → IsTracked s → IsTracked (drop_sub kind id s)
unfolding drop_sub abort
drop_sub-IsTracked kind id s h = elim (Option-cases (get id (s.subs kind))) [
  | inl e ↦ rw e (
    All-map s.tasks (λ t k. held t k (λ q. let no : none ≡ some t.number = sym e ∙ q in cc)) h.0,
    h.1,
  )
  | inr (number, e) ↦ rw e (
    All-map _
        (λ t k. held t k.1 (λ q.
          let found : some number ≡ some t.number = sym e ∙ q in
          let same : number ≡ t.number = cc in ground (arith, k.0, same)))
        (All-filter_by (IsHeldIn s.subs) (λ (t : Task). not (t.number == number)) s.tasks h.0),
    Descending-filter_by _ s.next_task s.tasks h.1,
  )
]
  where
    held :
        (t : Task)
        → IsHeldIn s.subs t
        → (get id (s.subs kind) ≢ some t.number)
        → IsHeldIn (with_subs kind (remove id (s.subs kind)) s.subs) t
    held t k freed =
        with_subs-IsHeldIn s.subs kind id (remove id (s.subs kind)) t
          (λ j apart. get-remove_ne j id (s.subs kind) apart) freed k

get-drop_sub :
    (kind : SubKind) (id : ℕ) (s : Session) → get id ((drop_sub kind id s).subs kind) ≡ none
unfolding drop_sub
get-drop_sub kind id s = rw (same_kind_refl kind) (get-remove_self id (s.subs kind))

spawn_sub-IsTracked :
    (forwards : Forwards) (id : ℕ) (s : Session)
    → get id (s.subs (kind_of forwards)) ≡ none
    → IsTracked s
    → IsTracked (spawn_sub forwards id s)
unfolding spawn_sub
spawn_sub-IsTracked forwards id s free h = (
  (
    rw (same_kind_refl (kind_of forwards))
        (get-put_self id s.next_task (s.subs (kind_of forwards))),
    All-map s.tasks held h.0,
  ),
  (omega arith, h.1),
)
  where
    held :
        (t : Task)
        → IsHeldIn s.subs t
        → IsHeldIn
            (with_subs (kind_of forwards) (put id s.next_task (s.subs (kind_of forwards))) s.subs)
            t
    held t k =
        with_subs-IsHeldIn s.subs (kind_of forwards) id
          (put id s.next_task (s.subs (kind_of forwards))) t
          (λ j apart. get-put_ne j id s.next_task (s.subs (kind_of forwards)) apart)
          (λ q. let no : none ≡ some t.number = sym free ∙ q in cc) k

subscribe_here-IsTracked :
    (forwards : Forwards) (id : ℕ) (s : Session)
    → IsTracked s
    → IsTracked (subscribe_here forwards id s)
unfolding subscribe_here
subscribe_here-IsTracked forwards id s h =
    spawn_sub-IsTracked forwards id (drop_sub (kind_of forwards) id s)
      (get-drop_sub (kind_of forwards) id s) (drop_sub-IsTracked (kind_of forwards) id s h)

pub drop_everywhere-IsTracked :
    (id : ℕ) (s : Session) → IsTracked s → IsTracked (drop_everywhere id s)
drop_everywhere-IsTracked id s h = drop_sub-IsTracked fleet_subs id _ (
    drop_sub-IsTracked processes_subs id _ (
      drop_sub-IsTracked ports_subs id _
        (drop_sub-IsTracked pane_subs id _ (drop_sub-IsTracked docker_subs id s h))))

attach-IsTracked :
    (client pane_id id : ℕ) (place : PanePlace) (s : Session)
    → get id (s.subs pane_subs) ≡ none
    → IsTracked s
    → IsTracked (attach client pane_id id place s).0
unfolding attach
attach-IsTracked client pane_id id on_host s free h =
    spawn_sub-IsTracked (forward_remote_pane pane_id) id s free h
attach-IsTracked client pane_id id on_this_machine s free h =
    spawn_sub-IsTracked (forward_pane pane_id) id s free h
attach-IsTracked client pane_id id nowhere s free h = h

keep_handle-IsTracked :
    (id : ℕ) (handle : Option AgentSubHandle) (s : Session)
    → IsTracked s
    → IsTracked (keep_handle id handle s)
unfolding keep_handle
keep_handle-IsTracked id none s h = h
keep_handle-IsTracked id (some handle) s h = h

act-IsTracked :
    (client : ℕ) (pool : Pool) (req : DockerActionRequest) (target : ScopeTarget) (s : Session)
    → IsTracked s
    → IsTracked (act client pool req target s).1
unfolding act
act-IsTracked client pool req local s h = h
act-IsTracked client pool req (remote alias) s h = h

pub handle_command-IsTracked :
    (client : ℕ) (pool : Pool) (s : Session) (command : Command)
    → IsTracked s
    → IsTracked (handle_command client pool s command).1
unfolding handle_command subscribe_remote keep_handle handle_unsubscribe
handle_command-IsTracked client pool s hello h = h
handle_command-IsTracked client pool s ping h = h
handle_command-IsTracked client pool s other h = h
handle_command-IsTracked client pool s (subscribe_status id) h = h
handle_command-IsTracked client pool s (subscribe id scope local) h =
    subscribe_here-IsTracked (forward_scope scope) id s h
handle_command-IsTracked client pool s (subscribe id scope (remote alias)) h =
    keep_handle-IsTracked id (route_remote_subscribe pool client id alias scope).1 s h
handle_command-IsTracked client pool s (subscribe_fleet id) h =
    subscribe_here-IsTracked forward_fleet id s h
handle_command-IsTracked client pool s (fleet_action req) h = h
handle_command-IsTracked client pool s (docker_action req) h =
    act-IsTracked client pool req req.target s h
handle_command-IsTracked client pool s (unsubscribe id) h = drop_everywhere-IsTracked id _ h
handle_command-IsTracked client pool s (attach_pane pane_id id place) h =
    attach-IsTracked client pane_id id place (drop_sub pane_subs id s) (get-drop_sub pane_subs id s)
      (drop_sub-IsTracked pane_subs id s h)
