-- ===== src/Daemon/Ended.antt =====
-- What Unsubscribe, a second subscription under an id and the end of a session do to the running tasks:
-- `handle_command` and `session` of crates/tepegoz-core/src/client.rs.
use mathlib.Core.Path.{subst}
use tepegoz.Prelude.{
  ℕ, ◌<◌, ◌≡◌, ◌≢◌, refl, sym, ◌∙◌, Bool, false, not, ◌&&◌, none, some, List, [], ◌∷◌, ◌==◌, All,
  All-map, All-filter_by, Bool-cases, inl, inr, arith, ==_iff,
}
use tepegoz.Daemon.Maps.{get, get-remove_self}
use tepegoz.Daemon.Agents.{Pool}
use tepegoz.Daemon.Session.{
  SubKind, pane_subs, docker_subs, ports_subs, processes_subs, fleet_subs, same_kind, Task, Session,
  Command, kind_of, abort, drop_sub, drop_everywhere, handle_unsubscribe, new_session,
  handle_command, abort_all, end_session,
}
use tepegoz.Daemon.Tasks.{
  IsHeldIn, Descending, IsTracked, same_kind_eq, drop_everywhere-IsTracked,
  handle_command-IsTracked,
}

-- The sessions that commands lead to, whatever the agents have come to between them.
pub data SessionReached : Session → Type 0 where
  connected : SessionReached new_session
  commanded :
      {s : Session} (client : ℕ) (pool : Pool) (command : Command)
      → SessionReached s
      → SessionReached (handle_command client pool s command).1

SessionReached-IsTracked : (s : Session) → SessionReached s → IsTracked s
SessionReached-IsTracked _ connected = (tt, tt)
SessionReached-IsTracked _ (commanded {s} client pool command r) =
    handle_command-IsTracked client pool s command (SessionReached-IsTracked s r)

-- Two tasks forward to the same id in the same map.
abbrev pub clash : Task → Task → Bool
clash t u = same_kind (kind_of t.forwards) (kind_of u.forwards) && (t.id == u.id)

abbrev pub NoClash : List Task → Type 0
NoClash [] = Unit
NoClash (t ∷ ts) = All (λ u. clash t u ≡ false) ts × NoClash ts

below : (n : ℕ) (ts : List Task) → Descending n ts → All (λ (t : Task). t.number < n) ts
below n [] h = tt
below n (t ∷ ts) h = (h.0, All-map ts (λ u k. omega (arith, k, h.0)) (below t.number ts h.1))

no_clash :
    (subs : SubKind → List (ℕ × ℕ)) (t u : Task)
    → IsHeldIn subs t
    → IsHeldIn subs u
    → u.number < t.number
    → clash t u ≡ false
no_clash subs t u ht hu lower =
    elim (Bool-cases (same_kind (kind_of t.forwards) (kind_of u.forwards))) [
      | inr e ↦ rw e refl
      | inl e ↦ elim (Bool-cases (t.id == u.id)) [
        | inr f ↦ rw (e, f) refl
        | inl f ↦
            let kinds = same_kind_eq (kind_of t.forwards) (kind_of u.forwards) e in
            let ids = (==_iff t.id u.id).0 f in
            let there : get u.id (subs (kind_of u.forwards)) ≡ some t.number =
              subst (λ i. get i (subs (kind_of u.forwards)) ≡ some t.number) ids
                (subst (λ k. get t.id (subs k) ≡ some t.number) kinds ht) in
            let both : some t.number ≡ some u.number = sym there ∙ hu in
            let same : t.number ≡ u.number = cc in ground (arith, lower, same)
      ]
    ]

clashes_none :
    (subs : SubKind → List (ℕ × ℕ)) (t : Task) (ts : List Task)
    → IsHeldIn subs t
    → All (IsHeldIn subs) ts
    → All (λ (u : Task). u.number < t.number) ts
    → All (λ u. clash t u ≡ false) ts
clashes_none subs t [] ht h k = tt
clashes_none subs t (u ∷ us) ht h k =
    (no_clash subs t u ht h.0 k.0, clashes_none subs t us ht h.1 k.1)

IsTracked-NoClash :
    (subs : SubKind → List (ℕ × ℕ)) (n : ℕ) (ts : List Task)
    → All (IsHeldIn subs) ts
    → Descending n ts
    → NoClash ts
IsTracked-NoClash subs n [] h d = tt
IsTracked-NoClash subs n (t ∷ ts) h d = (
  clashes_none subs t ts h.0 h.1 (below t.number ts d.1),
  IsTracked-NoClash subs t.number ts h.1 d.1,
)

-- In every session no two running tasks forward to the same id from the same map, however often the
-- client subscribes under one id.
pub SessionReached-NoClash : (s : Session) → SessionReached s → NoClash s.tasks
SessionReached-NoClash s r =
    let h = SessionReached-IsTracked s r in IsTracked-NoClash s.subs s.next_task s.tasks h.0 h.1

get-drop_everywhere :
    (kind : SubKind) (id : ℕ) (s : Session) → get id ((drop_everywhere id s).subs kind) ≡ none
unfolding drop_sub
get-drop_everywhere pane_subs id s = get-remove_self id (s.subs pane_subs)
get-drop_everywhere docker_subs id s = get-remove_self id (s.subs docker_subs)
get-drop_everywhere ports_subs id s = get-remove_self id (s.subs ports_subs)
get-drop_everywhere processes_subs id s = get-remove_self id (s.subs processes_subs)
get-drop_everywhere fleet_subs id s = get-remove_self id (s.subs fleet_subs)

-- In every session, after the client has unsubscribed an id no task runs that forwards to it, from
-- whatever map.
pub unsubscribe-tasks :
    (pool : Pool) (id : ℕ) (s : Session)
    → SessionReached s
    → All (λ (t : Task). t.id ≢ id) (handle_unsubscribe pool id s).1.tasks
unfolding handle_unsubscribe drop_sub
unsubscribe-tasks pool id s r =
    let dropped = drop_everywhere id s in
    let h = drop_everywhere-IsTracked id s (SessionReached-IsTracked s r) in
    All-map dropped.tasks apart h.0
  where
    apart : (t : Task) → IsHeldIn (drop_everywhere id s).subs t → t.id ≢ id
    apart t k same =
        let found : get id ((drop_everywhere id s).subs (kind_of t.forwards)) ≡ some t.number =
          subst (λ i. get i ((drop_everywhere id s).subs (kind_of t.forwards)) ≡ some t.number) same
            k in
        let no : none ≡ some t.number =
          sym (get-drop_everywhere (kind_of t.forwards) id s) ∙ found in
        cc

-- A map that does not name a task.
abbrev Gone : List (ℕ × ℕ) → Task → Type 0
Gone m t = (i : ℕ) → get i m ≢ some t.number

All-each : (P : Task → Type 0) (ts : List Task) → ((t : Task) → P t) → All P ts
All-each P [] h = tt
All-each P (t ∷ ts) h = (h t, All-each P ts h)

All-both : (P Q : Task → Type 0) (ts : List Task) → All P ts → All Q ts → All (λ t. P t × Q t) ts
All-both P Q [] h k = tt
All-both P Q (t ∷ ts) h k = ((h.0, k.0), All-both P Q ts h.1 k.1)

abort_all-keeps :
    (P : Task → Type 0) (m : List (ℕ × ℕ)) (ts : List Task) → All P ts → All P (abort_all m ts)
unfolding abort_all abort
abort_all-keeps P [] ts h = h
abort_all-keeps P ((id, task) ∷ m) ts h =
    abort_all-keeps P m (abort task ts)
      (All-map _ (λ t k. k.1) (All-filter_by P (λ (t : Task). not (t.number == task)) ts h))

abort_all-Gone : (m : List (ℕ × ℕ)) (ts : List Task) → All (Gone m) (abort_all m ts)
unfolding abort_all abort get
abort_all-Gone [] ts = All-each (Gone []) ts (λ t i q. cc)
abort_all-Gone ((id, task) ∷ m) ts =
    let left = abort task ts in
    let other : All (λ (t : Task). t.number ≢ task) left =
      All-map left (λ t k q. ground (arith, k.0, q))
        (All-filter_by (λ _. Unit) (λ (t : Task). not (t.number == task)) ts
          (All-each (λ _. Unit) ts (λ _. tt))) in
    All-map (abort_all m left) gone (
      All-both (Gone m) (λ (t : Task). t.number ≢ task) (abort_all m left) (abort_all-Gone m left)
        (abort_all-keeps (λ (t : Task). t.number ≢ task) m left other))
  where
    gone : (t : Task) → Gone m t × (t.number ≢ task) → Gone ((id, task) ∷ m) t
    gone t k i q = elim (Bool-cases (id == i)) [
      | inl e ↦
          let found : some task ≡ some t.number = rw e at q in
          let same : task ≡ t.number = cc in k.1 (sym same)
      | inr e ↦ k.0 i (rw e at q)
    ]

-- No task is held by a map that does not name it, whatever its kind.
abbrev AllGone : (SubKind → List (ℕ × ℕ)) → Task → Type 0
AllGone subs t = (kind : SubKind) → Gone (subs kind) t

all_gone :
    (subs : SubKind → List (ℕ × ℕ)) (t : Task)
    → Gone (subs fleet_subs) t
    → Gone (subs processes_subs) t
    → Gone (subs ports_subs) t
    → Gone (subs docker_subs) t
    → Gone (subs pane_subs) t
    → AllGone subs t
all_gone subs t f p o d a pane_subs = a
all_gone subs t f p o d a docker_subs = d
all_gone subs t f p o d a ports_subs = o
all_gone subs t f p o d a processes_subs = p
all_gone subs t f p o d a fleet_subs = f

none_left :
    (subs : SubKind → List (ℕ × ℕ)) (ts : List Task)
    → All (IsHeldIn subs) ts
    → All (Gone (subs fleet_subs)) ts
    → All (Gone (subs processes_subs)) ts
    → All (Gone (subs ports_subs)) ts
    → All (Gone (subs docker_subs)) ts
    → All (Gone (subs pane_subs)) ts
    → ts ≡ []
none_left subs [] h f p o d a = refl
none_left subs (t ∷ ts) h f p o d a =
    elim (all_gone subs t f.0 p.0 o.0 d.0 a.0 (kind_of t.forwards) t.id h.0) [ ]

forwarders_gone :
    (s : Session)
    → All (IsHeldIn s.subs) s.tasks
    → abort_all (s.subs fleet_subs) (
        abort_all (s.subs processes_subs) (
          abort_all
            (s.subs ports_subs)
            (abort_all (s.subs docker_subs) (abort_all (s.subs pane_subs) s.tasks))))
      ≡ []
forwarders_gone s held =
    let t1 = abort_all (s.subs pane_subs) s.tasks in
    let t2 = abort_all (s.subs docker_subs) t1 in
    let t3 = abort_all (s.subs ports_subs) t2 in
    let t4 = abort_all (s.subs processes_subs) t3 in
    let keeps4 = λ (P : Task → Type 0) (h : All P t4). abort_all-keeps P (s.subs fleet_subs) t4 h in
    let keeps3 = λ (P : Task → Type 0) (h : All P t3).
      keeps4 P (abort_all-keeps P (s.subs processes_subs) t3 h) in
    let keeps2 =
      λ (P : Task → Type 0) (h : All P t2). keeps3 P (abort_all-keeps P (s.subs ports_subs) t2 h) in
    let keeps1 = λ (P : Task → Type 0) (h : All P t1).
      keeps2 P (abort_all-keeps P (s.subs docker_subs) t1 h) in
    none_left s.subs (abort_all (s.subs fleet_subs) t4)
      (keeps1 (IsHeldIn s.subs) (abort_all-keeps (IsHeldIn s.subs) (s.subs pane_subs) s.tasks held))
      (abort_all-Gone (s.subs fleet_subs) t4)
      (keeps4 (Gone (s.subs processes_subs)) (abort_all-Gone (s.subs processes_subs) t3))
      (keeps3 (Gone (s.subs ports_subs)) (abort_all-Gone (s.subs ports_subs) t2))
      (keeps2 (Gone (s.subs docker_subs)) (abort_all-Gone (s.subs docker_subs) t1))
      (keeps1 (Gone (s.subs pane_subs)) (abort_all-Gone (s.subs pane_subs) s.tasks))

-- The end of a session leaves none of the tasks running that forward to the client, of whichever map,
-- and leaves the tasks of its actions on containers of this host as they are, which nothing aborts.
pub end_session-tasks :
    (pool : Pool) (s : Session)
    → SessionReached s
    → ((end_session pool s).1.tasks ≡ []) × ((end_session pool s).1.action_tasks ≡ s.action_tasks)
unfolding end_session
end_session-tasks pool s r = (forwarders_gone s (SessionReached-IsTracked s r).0, refl)
