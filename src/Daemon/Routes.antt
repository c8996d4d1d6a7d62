-- ===== src/Daemon/Routes.antt =====
-- Which client an agent's answer reaches: `route_remote_subscribe`, `handle_command` and
-- `route_agent_envelope` of crates/tepegoz-core/src.
use tepegoz.Prelude.{
  ℕ, suc, ◌<◌, ◌≡◌, ◌≢◌, refl, ap, ◌∙◌, true, Option, none, some, List, [], ◌∷◌, length, arith,
}
use tepegoz.Daemon.{Scope, Sent, event, agent_subscribe}
use tepegoz.Daemon.Maps.{
  get, get-remove_self, get-put_self, get-put_ne, pool_get, pool_put, pool_get-put_self,
}
use tepegoz.Daemon.Agents.{
  Pool, AgentConnection, RoutedSub, subscription, subscribed, has_capability, required_capability,
  registered, unrouted, subscribe_on, route_with, route_remote_subscribe, FromAgent, agent_event,
  route_agent_envelope, to_client, register_agent, forget_on, unsubscribe_agent, drained,
  drain_routing_on_disconnect,
}
use tepegoz.Daemon.Fresh.{PoolReached, PoolReached-AllFresh, AllFresh-get}
use tepegoz.Daemon.Session.{
  Session, new_session, handle_unsubscribe, drop_agent_sub, keep_handle, subscribe_remote,
}

-- What the clients are sent of an envelope of the agent of an alias.
abbrev pub deliver_with : Option AgentConnection → FromAgent → List Sent
deliver_with none envelope = []
deliver_with (some conn) envelope = (route_agent_envelope envelope conn).1

abbrev pub deliver : List ℕ → FromAgent → Pool → List Sent
deliver alias envelope pool = deliver_with (pool_get alias pool) envelope

abbrev pub entry_of : ℕ → ℕ → Scope → RoutedSub
entry_of client id scope = record {
  client = client;
  client_id = id;
  kind = subscription;
  scope = subscribed scope;
}

abbrev pub Serves : Scope → AgentConnection → Type 0
Serves scope conn =
    (has_capability (required_capability scope) conn.capabilities ≡ true)
    × (conn.writer_open ≡ true)

module _ (pool : Pool) (client id : ℕ) (alias : List ℕ) (scope : Scope) (conn : AgentConnection)
    (here : pool_get alias pool ≡ some conn) (serves : Serves scope conn) where
  subscribed_pool : route_remote_subscribe pool client id alias scope ≡ (
    pool_put alias (registered conn (entry_of client id scope)) pool,
    some (record { alias = alias; daemon_id = conn.next_sub_id }),
    agent_subscribe alias conn.next_sub_id scope ∷ [],
  )
  unfolding route_remote_subscribe route_with subscribe_on
  subscribed_pool = rw (here, serves.0, serves.1) refl

  subscribed-deliver :
      (bytes : List ℕ) (other : ℕ)
      → other ≢ conn.next_sub_id
      → ((route_remote_subscribe pool client id alias scope).2
          ≡ agent_subscribe alias conn.next_sub_id scope ∷ [])
        × (deliver alias
              (agent_event conn.next_sub_id bytes)
              (route_remote_subscribe pool client id alias scope).0
            ≡ event client id bytes ∷ [])
        × (deliver alias
              (agent_event other bytes)
              (route_remote_subscribe pool client id alias scope).0
            ≡ deliver alias (agent_event other bytes) pool)
  unfolding route_agent_envelope registered to_client
  subscribed-deliver bytes other apart =
      let entry = entry_of client id scope in
      let put_in = pool_get-put_self alias (registered conn entry) pool in
      (
        rw subscribed_pool refl,
        rw (subscribed_pool, put_in, get-put_self conn.next_sub_id entry conn.routing) refl,
        rw
            (
              subscribed_pool,
              put_in,
              here,
              get-put_ne other conn.next_sub_id entry conn.routing apart,
            )
            refl,
      )

  -- In a pool that the daemon comes to, a remote subscription that the agent serves reaches the agent
  -- under an id that reached no client before, and the next subscription gets a greater one. An
  -- event that the agent sends under that id reaches the client under its own id; the events of the
  -- other ids reach whom they reached before.
  pub route_remote_subscribe-deliver :
      (bytes : List ℕ) (other : ℕ)
      → PoolReached pool
      → other ≢ conn.next_sub_id
      → let pool' = (route_remote_subscribe pool client id alias scope).0 in
        (deliver alias (agent_event conn.next_sub_id bytes) pool ≡ [])
        × ((conn' : AgentConnection) × (pool_get alias pool' ≡ some conn')
            × (conn.next_sub_id < conn'.next_sub_id))
        × ((route_remote_subscribe pool client id alias scope).2
            ≡ agent_subscribe alias conn.next_sub_id scope ∷ [])
        × (deliver alias (agent_event conn.next_sub_id bytes) pool' ≡ event client id bytes ∷ [])
        × (deliver alias (agent_event other bytes) pool'
            ≡ deliver alias (agent_event other bytes) pool)
  unfolding route_agent_envelope registered to_client
  route_remote_subscribe-deliver bytes other reached apart =
      let entry = entry_of client id scope in
      let fresh =
        AllFresh-get pool alias (PoolReached-AllFresh pool reached) here conn.next_sub_id
          (omega arith) in
      let (sent, own, others) = subscribed-deliver bytes other apart in
      (
        rw (here, fresh) refl,
        (
          registered conn entry,
          rw subscribed_pool (pool_get-put_self alias (registered conn entry) pool),
          omega arith,
        ),
        sent,
        own,
        others,
      )

unsubscribed-deliver :
    (pool : Pool) (alias : List ℕ) (daemon_id : ℕ) (conn : AgentConnection) (bytes : List ℕ)
    → pool_get alias pool ≡ some conn
    → deliver alias
        (agent_event daemon_id bytes)
        (drop_agent_sub (some (record { alias = alias; daemon_id = daemon_id })) pool).0
      ≡ []
unfolding drop_agent_sub unsubscribe_agent forget_on unrouted route_agent_envelope to_client
unsubscribed-deliver pool alias daemon_id conn bytes here =
    rw
      (
        here,
        pool_get-put_self alias (unrouted daemon_id conn) pool,
        get-remove_self daemon_id conn.routing,
      )
      refl

-- A client subscribes on an agent and keeps the handle, the agent is replaced by a new connection, another
-- client subscribes on it, and the first client unsubscribes.
module _ (pool : Pool) (alias : List ℕ) (capabilities : List (List ℕ)) (first second : ℕ)
    (first_id second_id : ℕ) (scope : Scope) where
  abbrev pub once_connected : Pool
  once_connected = (register_agent alias capabilities pool).0

  abbrev pub first_subscribes : Pool × Session × List Sent
  first_subscribes = subscribe_remote first once_connected first_id alias scope new_session

  abbrev pub reconnected : Pool
  reconnected = (register_agent alias capabilities first_subscribes.0).0

  abbrev pub second_subscribes : Pool × Session × List Sent
  second_subscribes = subscribe_remote second reconnected second_id alias scope new_session

  abbrev pub first_leaves : Pool
  first_leaves = (handle_unsubscribe second_subscribes.0 first_id first_subscribes.1).0

  abbrev new_connection : AgentConnection
  new_connection = record {
    capabilities = capabilities;
    writer_open = true;
    next_sub_id = 1;
    routing = [];
  }

  registered_there :
      (before : Pool)
      → pool_get alias (register_agent alias capabilities before).0 ≡ some new_connection
  unfolding register_agent
  registered_there before = pool_get-put_self alias new_connection _

  abbrev second_connection : AgentConnection
  second_connection = registered new_connection (entry_of second second_id scope)

  -- The ids of an agent start at 1 with every connection, and a handle is not bound to its connection: if
  -- the agent serves the scope, the second client gets its events until the first one unsubscribes the id
  -- that it held on the lost connection, and none from then on.
  pub stale_handle-deliver :
      (bytes : List ℕ)
      → has_capability (required_capability scope) capabilities ≡ true
      → (deliver alias (agent_event 1 bytes) second_subscribes.0
          ≡ event second second_id bytes ∷ [])
        × (deliver alias (agent_event 1 bytes) first_leaves ≡ [])
  unfolding subscribe_remote handle_unsubscribe keep_handle drop_agent_sub
  stale_handle-deliver bytes able =
      let s1 =
        subscribed_pool once_connected first first_id alias scope new_connection
          (registered_there pool) (able, refl) in
      let s2 =
        subscribed_pool reconnected second second_id alias scope new_connection
          (registered_there first_subscribes.0) (able, refl) in
      let held : get first_id first_subscribes.1.agent_subs
          ≡ some (record { alias = alias; daemon_id = 1 }) =
        rw s1 (get-put_self first_id (record { alias = alias; daemon_id = 1 }) []) in
      let there : pool_get alias second_subscribes.0 ≡ some second_connection =
        rw s2 (pool_get-put_self alias second_connection reconnected) in
      let reached =
        subscribed-deliver reconnected second second_id alias scope new_connection
          (registered_there first_subscribes.0) (able, refl) bytes 0 (omega arith) in
      (
        reached.1,
        ap (λ h. deliver alias (agent_event 1 bytes) (drop_agent_sub h second_subscribes.0).0) held
            ∙ unsubscribed-deliver second_subscribes.0 alias 1 second_connection bytes there,
      )

module _ (alias : List ℕ) (conn : AgentConnection) where
  -- The loss of an agent sends one farewell for each entry of its routing, and a second call sends none.
  pub drain_routing_twice :
      (length (drain_routing_on_disconnect alias conn).1 ≡ length conn.routing)
      × ((drain_routing_on_disconnect alias (drain_routing_on_disconnect alias conn).0).1 ≡ [])
  unfolding drain_routing_on_disconnect drained
  drain_routing_twice = (one_each conn.routing, refl)
    where
      one_each : (routing : List (ℕ × RoutedSub)) → length (drained alias routing) ≡ length routing
      one_each [] = refl
      one_each ((daemon_id, routed) ∷ routing) = ap suc (one_each routing)
