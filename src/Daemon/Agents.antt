-- ===== src/Daemon/Agents.antt =====
-- The pool of the agents and the routing of their answers: crates/tepegoz-core/src/agent.rs, and
-- `route_remote_subscribe` and `route_remote_docker_action` of crates/tepegoz-core/src/client.rs.
use tepegoz.Prelude.{
  ℕ, suc, Bool, true, false, not, Option, none, some, List, [], ◌∷◌, if◌then◌else◌, ◌||◌,
}
use tepegoz.Text.Same.{same_text}
use tepegoz.App.{DockerActionKind}
use tepegoz.Daemon.{
  Scope, docker, docker_logs, docker_stats, ports, processes, DockerActionRequest, Unserved,
  not_connected, lacks_capability, writer_closed, disconnected, Notice, docker_unavailable,
  docker_stream_ended, ports_unavailable, processes_unavailable, Sent, notice, event, action_result,
  action_failed, action_gone, agent_subscribe, agent_unsubscribe, agent_action,
}
use tepegoz.Daemon.Maps.{get, remove, put, pool_get, pool_remove, pool_put}

pub data RoutedScope : Type 0 where
  subscribed : Scope → RoutedScope
  acting : List ℕ → DockerActionKind → RoutedScope

pub data RoutedKind : Type 0 where
  subscription one_shot : RoutedKind

pub record RoutedSub : Type 0 where
  pub client : ℕ
  pub client_id : ℕ
  pub kind : RoutedKind
  pub scope : RoutedScope

pub record AgentConnection : Type 0 where
  pub capabilities : List (List ℕ)
  pub writer_open : Bool
  pub next_sub_id : ℕ
  pub routing : List (ℕ × RoutedSub)

abbrev pub Pool : Type 0
Pool = List (List ℕ × AgentConnection)

pub record AgentSubHandle : Type 0 where
  pub alias : List ℕ
  pub daemon_id : ℕ

unfoldable pub has_capability : List ℕ → List (List ℕ) → Bool
has_capability wanted [] = false
has_capability wanted (c ∷ cs) = same_text c wanted || has_capability wanted cs

abbrev pub docker_capability : List ℕ
docker_capability = b'd' ∷ b'o' ∷ b'c' ∷ b'k' ∷ b'e' ∷ b'r' ∷ []

abbrev pub required_capability : Scope → List ℕ
required_capability ports = b'p' ∷ b'o' ∷ b'r' ∷ b't' ∷ b's' ∷ []
required_capability processes = b'p' ∷ b'r' ∷ b'o' ∷ b'c' ∷ b'e' ∷ b's' ∷ b's' ∷ b'e' ∷ b's' ∷ []
required_capability _ = docker_capability

unfoldable pub unavailable_for_scope : RoutedScope → Unserved → Notice
unavailable_for_scope (subscribed docker) why = docker_unavailable why
unavailable_for_scope (subscribed (docker_logs container follow tail)) why = docker_stream_ended why
unavailable_for_scope (subscribed (docker_stats container)) why = docker_stream_ended why
unavailable_for_scope (subscribed ports) why = ports_unavailable why
unavailable_for_scope (subscribed processes) why = processes_unavailable why
unavailable_for_scope (acting container kind) why = docker_unavailable why

-- An id is allocated and an entry put under it; where the writer is closed the entry is taken out again.
unfoldable pub registered : AgentConnection → RoutedSub → AgentConnection
registered conn entry = record conn {
  next_sub_id = suc conn.next_sub_id;
  routing = put conn.next_sub_id entry conn.routing;
}

unfoldable pub unrouted : ℕ → AgentConnection → AgentConnection
unrouted daemon_id conn = record conn { routing = remove daemon_id conn.routing }

-- The pool, the handle that the session keeps, and what is sent.
unfoldable pub subscribe_on :
    AgentConnection → Pool → ℕ → ℕ → List ℕ → Scope → Pool × Option AgentSubHandle × List Sent
subscribe_on conn pool client client_id alias scope =
    let entry : RoutedSub = record {
      client = client;
      client_id = client_id;
      kind = subscription;
      scope = subscribed scope;
    } in
    let daemon_id = conn.next_sub_id in
    if not (has_capability (required_capability scope) conn.capabilities)
    then (
      pool,
      none,
      notice client client_id (unavailable_for_scope (subscribed scope) (lacks_capability alias))
          ∷ [],
    )
    else if conn.writer_open
    then (
      pool_put alias (registered conn entry) pool,
      some (record { alias = alias; daemon_id = daemon_id }),
      agent_subscribe alias daemon_id scope ∷ [],
    )
    else (
      pool_put alias (unrouted daemon_id (registered conn entry)) pool,
      none,
      notice client client_id (unavailable_for_scope (subscribed scope) (writer_closed alias)) ∷ [],
    )

unfoldable pub route_with :
    Option AgentConnection
    → Pool
    → ℕ
    → ℕ
    → List ℕ
    → Scope
    → Pool × Option AgentSubHandle × List Sent
route_with none pool client client_id alias scope = (
  pool,
  none,
  notice client client_id (unavailable_for_scope (subscribed scope) (not_connected alias)) ∷ [],
)
route_with (some conn) pool client client_id alias scope =
    subscribe_on conn pool client client_id alias scope

unfoldable pub route_remote_subscribe :
    Pool → ℕ → ℕ → List ℕ → Scope → Pool × Option AgentSubHandle × List Sent
route_remote_subscribe pool client client_id alias scope =
    route_with (pool_get alias pool) pool client client_id alias scope

unfoldable pub act_on :
    Option AgentConnection → Pool → ℕ → List ℕ → DockerActionRequest → Pool × List Sent
act_on none pool client alias req = (pool, action_failed client req (not_connected alias) ∷ [])
act_on (some conn) pool client alias req =
    let entry : RoutedSub = record {
      client = client;
      client_id = req.request_id;
      kind = one_shot;
      scope = acting req.container_id req.kind;
    } in
    let daemon_id = conn.next_sub_id in
    if not (has_capability docker_capability conn.capabilities)
    then (pool, action_failed client req (lacks_capability alias) ∷ [])
    else if conn.writer_open
    then (
      pool_put alias (registered conn entry) pool,
      agent_action alias daemon_id req.container_id req.kind ∷ [],
    )
    else (
      pool_put alias (unrouted daemon_id (registered conn entry)) pool,
      action_failed client req (writer_closed alias) ∷ [],
    )

unfoldable pub route_remote_docker_action :
    Pool → ℕ → List ℕ → DockerActionRequest → Pool × List Sent
route_remote_docker_action pool client alias req =
    act_on (pool_get alias pool) pool client alias req

-- What an agent sends: an event of a subscription, the result of an action, or anything else, which is
-- only logged.
pub data FromAgent : Type 0 where
  agent_event : ℕ → List ℕ → FromAgent
  agent_result : ℕ → List ℕ → FromAgent
  agent_other : FromAgent

unfoldable pub to_client : Option RoutedSub → List ℕ → List Sent
to_client none bytes = []
to_client (some routed) bytes = event routed.client routed.client_id bytes ∷ []

unfoldable pub result_to_client : Option RoutedSub → List ℕ → List Sent
result_to_client none bytes = []
result_to_client (some routed) bytes = elim routed.kind [
  | one_shot ↦ action_result routed.client routed.client_id bytes ∷ []
  | subscription ↦ []
]

unfoldable pub route_agent_envelope : FromAgent → AgentConnection → AgentConnection × List Sent
route_agent_envelope (agent_event daemon_id bytes) conn =
    (conn, to_client (get daemon_id conn.routing) bytes)
route_agent_envelope (agent_result daemon_id bytes) conn =
    (unrouted daemon_id conn, result_to_client (get daemon_id conn.routing) bytes)
route_agent_envelope agent_other conn = (conn, [])

unfoldable pub farewell : List ℕ → RoutedSub → Sent
farewell alias routed = elim routed.scope [
  | subscribed scope ↦
      notice routed.client routed.client_id
        (unavailable_for_scope (subscribed scope) (disconnected alias))
  | acting container kind ↦
      action_gone routed.client routed.client_id container kind (disconnected alias)
]

unfoldable pub drained : List ℕ → List (ℕ × RoutedSub) → List Sent
drained alias [] = []
drained alias ((daemon_id, routed) ∷ routing) = farewell alias routed ∷ drained alias routing

unfoldable pub drain_routing_on_disconnect : List ℕ → AgentConnection → AgentConnection × List Sent
drain_routing_on_disconnect alias conn = (record conn { routing = [] }, drained alias conn.routing)

abbrev pub drained_entry : List ℕ → Option AgentConnection → List Sent
drained_entry alias none = []
drained_entry alias (some conn) = (drain_routing_on_disconnect alias conn).1

-- `remove_and_shutdown_agent`
unfoldable pub remove_agent : List ℕ → Pool → Pool × List Sent
remove_agent alias pool = (pool_remove alias pool, drained_entry alias (pool_get alias pool))

-- The end of `deploy_and_register_inner`: a stale entry is drained and overwritten.
unfoldable pub register_agent : List ℕ → List (List ℕ) → Pool → Pool × List Sent
register_agent alias capabilities pool =
    let conn : AgentConnection = record {
      capabilities = capabilities;
      writer_open = true;
      next_sub_id = 1;
      routing = [];
    } in
    (pool_put alias conn (pool_remove alias pool), drained_entry alias (pool_get alias pool))

-- The part of `Unsubscribe` and of the end of a session that concerns an agent.
unfoldable pub forget_on : Option AgentConnection → AgentSubHandle → Pool → Pool × List Sent
forget_on none handle pool = (pool, [])
forget_on (some conn) handle pool = (
  pool_put handle.alias (unrouted handle.daemon_id conn) pool,
  agent_unsubscribe handle.alias handle.daemon_id ∷ [],
)

unfoldable pub unsubscribe_agent : AgentSubHandle → Pool → Pool × List Sent
unsubscribe_agent handle pool = forget_on (pool_get handle.alias pool) handle pool
