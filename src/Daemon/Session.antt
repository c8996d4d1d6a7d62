-- ===== src/Daemon/Session.antt =====
-- The subscriptions of one client: the state that `session` keeps, `handle_command` for the payloads that
-- change it, and the end of the session, in crates/tepegoz-core/src/client.rs. The maps of the session
-- that hold an abort handle are one function from the kind of a map, and a handle is the number of its
-- task. Opening, closing, listing, resizing and typing into a pane do not touch the subscriptions and are
-- left out.
use tepegoz.Prelude.{
  ℕ, suc, Bool, true, false, not, Option, none, some, List, [], ◌∷◌, ◌++◌, if◌then◌else◌, ◌==◌,
  filter_by, is_empty,
}
use tepegoz.Daemon.{
  ScopeTarget, local, remote, Scope, ports, processes, DockerActionRequest, FleetActionRequest,
  Sent, pong, status, fleet_failed, unknown_pane, to_coordinator,
}
use tepegoz.Daemon.Maps.{get, remove, put}
use tepegoz.Daemon.Agents.{
  Pool, AgentSubHandle, route_remote_subscribe, route_remote_docker_action, unsubscribe_agent,
}

-- The maps `pane_subs`, `docker_subs`, `ports_subs`, `processes_subs` and `fleet_subs`.
pub data SubKind : Type 0 where
  pane_subs docker_subs ports_subs processes_subs fleet_subs : SubKind

abbrev pub same_kind : SubKind → SubKind → Bool
same_kind pane_subs pane_subs = true
same_kind docker_subs docker_subs = true
same_kind ports_subs ports_subs = true
same_kind processes_subs processes_subs = true
same_kind fleet_subs fleet_subs = true
same_kind _ _ = false

-- What a spawned task does: forward a scope of this host, the fleet, or a pane of this or a remote host.
pub data Forwards : Type 0 where
  forward_scope : Scope → Forwards
  forward_fleet : Forwards
  forward_pane forward_remote_pane : ℕ → Forwards

pub record Task : Type 0 where
  pub number : ℕ
  pub id : ℕ
  pub forwards : Forwards

-- The task of an action on a container of this host, whose handle nothing keeps.
pub record ActionTask : Type 0 where
  pub client : ℕ
  pub req : DockerActionRequest

pub record Session : Type 0 where
  pub status_sub : Option ℕ
  pub subs : SubKind → List (ℕ × ℕ)
  pub agent_subs : List (ℕ × AgentSubHandle)
  pub tasks : List Task
  pub next_task : ℕ
  pub action_tasks : List ActionTask

pub data PanePlace : Type 0 where
  on_host on_this_machine nowhere : PanePlace

pub data Command : Type 0 where
  hello ping other : Command
  subscribe_status : ℕ → Command
  subscribe : ℕ → Scope → ScopeTarget → Command
  subscribe_fleet : ℕ → Command
  fleet_action : FleetActionRequest → Command
  docker_action : DockerActionRequest → Command
  unsubscribe : ℕ → Command
  attach_pane : ℕ → ℕ → PanePlace → Command

abbrev pub kind_of_scope : Scope → SubKind
kind_of_scope ports = ports_subs
kind_of_scope processes = processes_subs
kind_of_scope _ = docker_subs

abbrev pub kind_of : Forwards → SubKind
kind_of (forward_scope scope) = kind_of_scope scope
kind_of forward_fleet = fleet_subs
kind_of (forward_pane pane) = pane_subs
kind_of (forward_remote_pane pane) = pane_subs

abbrev pub no_subs : SubKind → List (ℕ × ℕ)
no_subs kind = []

abbrev pub new_session : Session
new_session = record {
  status_sub = none;
  subs = no_subs;
  agent_subs = [];
  tasks = [];
  next_task = 0;
  action_tasks = [];
}

abbrev pub with_subs : SubKind → List (ℕ × ℕ) → (SubKind → List (ℕ × ℕ)) → SubKind → List (ℕ × ℕ)
with_subs kind m subs k = if same_kind k kind then m else subs k

unfoldable pub abort : ℕ → List Task → List Task
abort number tasks = filter_by (λ (t : Task). not (t.number == number)) tasks

abbrev pub abort_found : Option ℕ → List Task → List Task
abort_found none tasks = tasks
abort_found (some number) tasks = abort number tasks

-- `if let Some(prev) = subs.remove(&id) { prev.abort() }`
unfoldable pub drop_sub : SubKind → ℕ → Session → Session
drop_sub kind id s = record s {
  subs = with_subs kind (remove id (s.subs kind)) s.subs;
  tasks = abort_found (get id (s.subs kind)) s.tasks;
}

-- `tokio::spawn` and the entry of its handle.
unfoldable pub spawn_sub : Forwards → ℕ → Session → Session
spawn_sub forwards id s =
    let kind = kind_of forwards in
    record s {
      subs = with_subs kind (put id s.next_task (s.subs kind)) s.subs;
      tasks = record { number = s.next_task; id = id; forwards = forwards } ∷ s.tasks;
      next_task = suc s.next_task;
    }

-- A subscription that runs in the daemon, in place of one under the same id.
unfoldable pub subscribe_here : Forwards → ℕ → Session → Session
subscribe_here forwards id s = spawn_sub forwards id (drop_sub (kind_of forwards) id s)

abbrev pub Handled : Type 0
Handled = Pool × Session × List Sent

unfoldable pub keep_handle : ℕ → Option AgentSubHandle → Session → Session
keep_handle id none s = s
keep_handle id (some handle) s = record s { agent_subs = put id handle s.agent_subs }

unfoldable pub subscribe_remote : ℕ → Pool → ℕ → List ℕ → Scope → Session → Handled
subscribe_remote client pool id alias scope s =
    let (pool', handle, sent) = route_remote_subscribe pool client id alias scope in
    (pool', keep_handle id handle s, sent)

unfoldable pub to_coordinators : List (ℕ × ℕ) → FleetActionRequest → List Sent
to_coordinators [] req = []
to_coordinators ((id, task) ∷ subs) req = to_coordinator task req ∷ to_coordinators subs req

unfoldable pub drop_agent_sub : Option AgentSubHandle → Pool → Pool × List Sent
drop_agent_sub none pool = (pool, [])
drop_agent_sub (some handle) pool = unsubscribe_agent handle pool

abbrev pub clear_status : ℕ → Option ℕ → Option ℕ
clear_status id none = none
clear_status id (some current) = if current == id then none else some current

abbrev pub drop_everywhere : ℕ → Session → Session
drop_everywhere id s = drop_sub fleet_subs id (
    drop_sub processes_subs id
      (drop_sub ports_subs id (drop_sub pane_subs id (drop_sub docker_subs id s))))

unfoldable pub handle_unsubscribe : Pool → ℕ → Session → Handled
handle_unsubscribe pool id s =
    let dropped = drop_everywhere id (record s { status_sub = clear_status id s.status_sub }) in
    let (pool', sent) = drop_agent_sub (get id s.agent_subs) pool in
    (pool', record dropped { agent_subs = remove id s.agent_subs }, sent)

unfoldable pub attach : ℕ → ℕ → ℕ → PanePlace → Session → Session × List Sent
attach client pane_id id on_host s = (spawn_sub (forward_remote_pane pane_id) id s, [])
attach client pane_id id on_this_machine s = (spawn_sub (forward_pane pane_id) id s, [])
attach client pane_id id nowhere s = (s, unknown_pane client pane_id ∷ [])

unfoldable pub act : ℕ → Pool → DockerActionRequest → ScopeTarget → Session → Handled
act client pool req local s =
    (pool, record s { action_tasks = record { client = client; req = req } ∷ s.action_tasks }, [])
act client pool req (remote alias) s =
    let (pool', sent) = route_remote_docker_action pool client alias req in (pool', s, sent)

unfoldable pub handle_command : ℕ → Pool → Session → Command → Handled
handle_command client pool s hello = (pool, s, [])
handle_command client pool s other = (pool, s, [])
handle_command client pool s ping = (pool, s, pong client ∷ [])
handle_command client pool s (subscribe_status id) =
    (pool, record s { status_sub = some id }, status client id ∷ [])
handle_command client pool s (subscribe id scope local) =
    (pool, subscribe_here (forward_scope scope) id s, [])
handle_command client pool s (subscribe id scope (remote alias)) =
    subscribe_remote client pool id alias scope s
handle_command client pool s (subscribe_fleet id) = (pool, subscribe_here forward_fleet id s, [])
handle_command client pool s (fleet_action req) = (
  pool,
  s,
  if is_empty (s.subs fleet_subs)
      then fleet_failed client req ∷ []
      else to_coordinators (s.subs fleet_subs) req,
)
handle_command client pool s (docker_action req) = act client pool req req.target s
handle_command client pool s (unsubscribe id) = handle_unsubscribe pool id s
handle_command client pool s (attach_pane pane_id id place) =
    let (s', sent) = attach client pane_id id place (drop_sub pane_subs id s) in (pool, s', sent)

unfoldable pub abort_all : List (ℕ × ℕ) → List Task → List Task
abort_all [] tasks = tasks
abort_all ((id, task) ∷ subs) tasks = abort_all subs (abort task tasks)

unfoldable pub unsubscribe_all : List (ℕ × AgentSubHandle) → Pool → Pool × List Sent
unsubscribe_all [] pool = (pool, [])
unsubscribe_all ((id, handle) ∷ subs) pool =
    let (pool', sent) = unsubscribe_agent handle pool in
    let (pool'', more) = unsubscribe_all subs pool' in (pool'', sent ++ more)

-- What the end of the session does to the tasks and to the agents.
unfoldable pub end_session : Pool → Session → Pool × Session × List Sent
end_session pool s =
    let tasks = abort_all (s.subs fleet_subs) (
      abort_all (s.subs processes_subs) (
        abort_all (s.subs ports_subs)
          (abort_all (s.subs docker_subs) (abort_all (s.subs pane_subs) s.tasks)))) in
    let (pool', sent) = unsubscribe_all s.agent_subs pool in
    (pool', record s { subs = no_subs; agent_subs = []; tasks = tasks }, sent)
