-- ===== src/Daemon/Fresh.antt =====
-- The ids that the daemon gives the subscriptions on an agent: `next_sub_id` of
-- crates/tepegoz-core/src/agent.rs. No answer is routed under an id that has not been given out yet.
use tepegoz.Prelude.{
  ℕ, ◌≡◌, ◌≤◌, ◌≢◌, refl, Bool, true, false, not, if◌then◌else◌, Option, none, some, List, [], ◌∷◌,
  arith, ◌==◌, All, Bool-cases, Option-cases, inl, inr, ==_iff,
}
use tepegoz.Text.Same.{same_text}
use tepegoz.Daemon.{
  Scope, DockerActionRequest, Sent, notice, agent_subscribe, action_failed, agent_action, Unserved,
  lacks_capability, writer_closed,
}
use tepegoz.Daemon.Maps.{
  get, get-remove_self, get-remove_ne, get-put_ne, pool_get, pool_put, pool_remove,
}
use tepegoz.Daemon.Agents.{
  Pool, AgentConnection, AgentSubHandle, RoutedSub, unavailable_for_scope, subscription, one_shot,
  subscribed, acting, has_capability, required_capability, docker_capability, registered, unrouted,
  subscribe_on, route_with, route_remote_subscribe, act_on, route_remote_docker_action, FromAgent,
  agent_event, agent_result, agent_other, route_agent_envelope, drain_routing_on_disconnect,
  remove_agent, register_agent, forget_on, unsubscribe_agent,
}

abbrev pub IsFresh : AgentConnection → Type 0
IsFresh conn = (k : ℕ) → conn.next_sub_id ≤ k → get k conn.routing ≡ none

abbrev AllFresh : Pool → Type 0
AllFresh pool = All (λ (e : List ℕ × AgentConnection). IsFresh e.1) pool

-- The pools that the daemon comes to from an empty one.
pub data PoolReached : Pool → Type 0 where
  empty : PoolReached []
  registers :
      {pool : Pool} (alias : List ℕ) (capabilities : List (List ℕ))
      → PoolReached pool
      → PoolReached (register_agent alias capabilities pool).0
  removes :
      {pool : Pool} (alias : List ℕ) → PoolReached pool → PoolReached (remove_agent alias pool).0
  subscribes :
      {pool : Pool} (client id : ℕ) (alias : List ℕ) (scope : Scope)
      → PoolReached pool
      → PoolReached (route_remote_subscribe pool client id alias scope).0
  acts :
      {pool : Pool} (client : ℕ) (alias : List ℕ) (req : DockerActionRequest)
      → PoolReached pool
      → PoolReached (route_remote_docker_action pool client alias req).0
  unsubscribes :
      {pool : Pool} (handle : AgentSubHandle)
      → PoolReached pool
      → PoolReached (unsubscribe_agent handle pool).0
  answers :
      {pool : Pool} (alias : List ℕ) (conn : AgentConnection) (envelope : FromAgent)
      → pool_get alias pool ≡ some conn
      → PoolReached pool
      → PoolReached (pool_put alias (route_agent_envelope envelope conn).0 pool)
  drains :
      {pool : Pool} (alias : List ℕ) (conn : AgentConnection)
      → pool_get alias pool ≡ some conn
      → PoolReached pool
      → PoolReached (pool_put alias (drain_routing_on_disconnect alias conn).0 pool)
  writer_closes :
      {pool : Pool} (alias : List ℕ) (conn : AgentConnection)
      → pool_get alias pool ≡ some conn
      → PoolReached pool
      → PoolReached (pool_put alias (record conn { writer_open = false }) pool)

pub AllFresh-get :
    (pool : Pool) (alias : List ℕ) {conn : AgentConnection}
    → AllFresh pool
    → pool_get alias pool ≡ some conn
    → IsFresh conn
unfolding pool_get
AllFresh-get [] alias h e = cc
AllFresh-get ((j, c) ∷ pool) alias {conn} h e = elim (Bool-cases (same_text j alias)) [
  | inl f ↦ let same : c ≡ conn = cc in rw (← same) h.0
  | inr f ↦ AllFresh-get pool alias h.1 (rw f at e)
]

AllFresh-remove : (pool : Pool) (alias : List ℕ) → AllFresh pool → AllFresh (pool_remove alias pool)
unfolding pool_remove
AllFresh-remove [] alias h = tt
AllFresh-remove ((j, c) ∷ pool) alias h = elim (Bool-cases (same_text j alias)) [
  | inl f ↦ rw f (AllFresh-remove pool alias h.1)
  | inr f ↦ rw f (h.0, AllFresh-remove pool alias h.1)
]

AllFresh-put :
    (pool : Pool) (alias : List ℕ) (conn : AgentConnection)
    → IsFresh conn
    → AllFresh pool
    → AllFresh (pool_put alias conn pool)
AllFresh-put pool alias conn f h = (f, AllFresh-remove pool alias h)

registered-IsFresh :
    (conn : AgentConnection) (entry : RoutedSub) → IsFresh conn → IsFresh (registered conn entry)
unfolding registered
registered-IsFresh conn entry h k above =
    let apart : k ≢ conn.next_sub_id = λ q. ground (arith, above, q) in
    rw (get-put_ne k conn.next_sub_id entry conn.routing apart) (h k (omega (arith, above)))

unrouted-IsFresh :
    (daemon_id : ℕ) (conn : AgentConnection) → IsFresh conn → IsFresh (unrouted daemon_id conn)
unfolding unrouted
unrouted-IsFresh daemon_id conn h k above = elim (Bool-cases (k == daemon_id)) [
  | inl e ↦ rw ((==_iff k daemon_id).0 e) (get-remove_self daemon_id conn.routing)
  | inr e ↦
      let apart : k ≢ daemon_id = λ q. ground (arith, e, q) in
      rw (get-remove_ne k daemon_id conn.routing apart) (h k above)
]

if-AllFresh :
    {R : Type 0} (pool_of : R → Pool) (b c : Bool) (x y z : R)
    → AllFresh (pool_of x)
    → AllFresh (pool_of y)
    → AllFresh (pool_of z)
    → AllFresh (pool_of (if b then x else if c then y else z))
if-AllFresh pool_of true c x y z h k l = h
if-AllFresh pool_of false true x y z h k l = k
if-AllFresh pool_of false false x y z h k l = l

-- With a new entry, and with the entry taken out again.
entered :
    (conn : AgentConnection) (entry : RoutedSub) (pool : Pool) (alias : List ℕ)
    → IsFresh conn
    → AllFresh pool
    → AllFresh (pool_put alias (registered conn entry) pool)
      × AllFresh (pool_put alias (unrouted conn.next_sub_id (registered conn entry)) pool)
entered conn entry pool alias f h =
    let k = registered-IsFresh conn entry f in
    (
      AllFresh-put pool alias (registered conn entry) k h,
      AllFresh-put pool alias (unrouted conn.next_sub_id (registered conn entry))
          (unrouted-IsFresh conn.next_sub_id (registered conn entry) k) h,
    )

subscribe_on-AllFresh :
    (conn : AgentConnection) (pool : Pool) (client id : ℕ) (alias : List ℕ) (scope : Scope)
    → IsFresh conn
    → AllFresh pool
    → AllFresh (subscribe_on conn pool client id alias scope).0
unfolding subscribe_on
subscribe_on-AllFresh conn pool client id alias scope f h =
    let entry : RoutedSub = record {
      client = client;
      client_id = id;
      kind = subscription;
      scope = subscribed scope;
    } in
    let k = entered conn entry pool alias f h in
    let told : Unserved → List Sent =
      λ why. notice client id (unavailable_for_scope (subscribed scope) why) ∷ [] in
    if-AllFresh (λ (q : Pool × Option AgentSubHandle × List Sent). q.0)
      (not (has_capability (required_capability scope) conn.capabilities)) conn.writer_open
      (pool, none, told (lacks_capability alias))
      (
        pool_put alias (registered conn entry) pool,
        some (record { alias = alias; daemon_id = conn.next_sub_id }),
        agent_subscribe alias conn.next_sub_id scope ∷ [],
      )
      (
        pool_put alias (unrouted conn.next_sub_id (registered conn entry)) pool,
        none,
        told (writer_closed alias),
      )
      h k.0 k.1

act_on-AllFresh :
    (conn : AgentConnection) (pool : Pool) (client : ℕ) (alias : List ℕ) (req : DockerActionRequest)
    → IsFresh conn
    → AllFresh pool
    → AllFresh (act_on (some conn) pool client alias req).0
unfolding act_on
act_on-AllFresh conn pool client alias req f h =
    let entry : RoutedSub = record {
      client = client;
      client_id = req.request_id;
      kind = one_shot;
      scope = acting req.container_id req.kind;
    } in
    let k = entered conn entry pool alias f h in
    if-AllFresh (λ (q : Pool × List Sent). q.0)
      (not (has_capability docker_capability conn.capabilities)) conn.writer_open
      (pool, action_failed client req (lacks_capability alias) ∷ [])
      (
        pool_put alias (registered conn entry) pool,
        agent_action alias conn.next_sub_id req.container_id req.kind ∷ [],
      )
      (
        pool_put alias (unrouted conn.next_sub_id (registered conn entry)) pool,
        action_failed client req (writer_closed alias) ∷ [],
      )
      h k.0 k.1

answered-IsFresh :
    (envelope : FromAgent) (conn : AgentConnection)
    → IsFresh conn
    → IsFresh (route_agent_envelope envelope conn).0
unfolding route_agent_envelope
answered-IsFresh (agent_event daemon_id bytes) conn h = h
answered-IsFresh (agent_result daemon_id bytes) conn h = unrouted-IsFresh daemon_id conn h
answered-IsFresh agent_other conn h = h

pub PoolReached-AllFresh : (pool : Pool) → PoolReached pool → AllFresh pool
unfolding register_agent remove_agent route_remote_subscribe route_with route_remote_docker_action
    act_on unsubscribe_agent forget_on drain_routing_on_disconnect get
PoolReached-AllFresh _ empty = tt
PoolReached-AllFresh _ (registers {pool} alias capabilities r) = (
  λ k above. refl,
  AllFresh-remove _ alias (AllFresh-remove pool alias (PoolReached-AllFresh pool r)),
)
PoolReached-AllFresh _ (removes {pool} alias r) =
    AllFresh-remove pool alias (PoolReached-AllFresh pool r)
PoolReached-AllFresh _ (subscribes {pool} client id alias scope r) =
    let h = PoolReached-AllFresh pool r in
    elim (Option-cases (pool_get alias pool)) [
      | inl e ↦ rw e h
      | inr (conn, e) ↦
          rw e
            (subscribe_on-AllFresh conn pool client id alias scope (AllFresh-get pool alias h e) h)
    ]
PoolReached-AllFresh _ (acts {pool} client alias req r) =
    let h = PoolReached-AllFresh pool r in
    elim (Option-cases (pool_get alias pool)) [
      | inl e ↦ rw e h
      | inr (conn, e) ↦
          rw e (act_on-AllFresh conn pool client alias req (AllFresh-get pool alias h e) h)
    ]
PoolReached-AllFresh _ (unsubscribes {pool} handle r) =
    let h = PoolReached-AllFresh pool r in
    elim (Option-cases (pool_get handle.alias pool)) [
      | inl e ↦ rw e h
      | inr (conn, e) ↦ rw e (
          AllFresh-put pool handle.alias (unrouted handle.daemon_id conn)
            (unrouted-IsFresh handle.daemon_id conn (AllFresh-get pool handle.alias h e)) h)
    ]
PoolReached-AllFresh _ (answers {pool} alias conn envelope e r) =
    let h = PoolReached-AllFresh pool r in
    AllFresh-put pool alias (route_agent_envelope envelope conn).0
      (answered-IsFresh envelope conn (AllFresh-get pool alias h e)) h
PoolReached-AllFresh _ (drains {pool} alias conn e r) =
    AllFresh-put pool alias (record conn { routing = [] }) (λ k above. refl)
      (PoolReached-AllFresh pool r)
PoolReached-AllFresh _ (writer_closes {pool} alias conn e r) =
    let h = PoolReached-AllFresh pool r in
    AllFresh-put pool alias (record conn { writer_open = false }) (AllFresh-get pool alias h e) h
