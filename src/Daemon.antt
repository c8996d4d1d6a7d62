-- ===== src/Daemon.antt =====
-- The daemon's side of the subscriptions of its clients: the payloads and envelopes that take part, from
-- crates/tepegoz-proto/src/lib.rs, and the maps by id of crates/tepegoz-core/src/client.rs and agent.rs.
-- A client is named by a number. An envelope to a client whose connection is gone is dropped by the
-- channel, and is sent here all the same.
pub mod Maps
pub mod Agents
pub mod Session
pub mod Fresh
pub mod Tasks
pub mod Ended
pub mod Routes
mod Tests
use tepegoz.Prelude.{ℕ, Bool, true, false, Option, List}
use tepegoz.App.{DockerActionKind}

pub data ScopeTarget : Type 0 where
  local : ScopeTarget
  remote : List ℕ → ScopeTarget

-- The scope of a subscription with what it asks for; those that an agent serves.
pub data Scope : Type 0 where
  docker : Scope
  docker_logs : List ℕ → Bool → ℕ → Scope
  docker_stats : List ℕ → Scope
  ports processes : Scope

pub record DockerActionRequest : Type 0 where
  pub request_id : ℕ
  pub container_id : List ℕ
  pub kind : DockerActionKind
  pub target : ScopeTarget

-- Why a remote scope is not served.
pub data Unserved : Type 0 where
  not_connected lacks_capability writer_closed disconnected : List ℕ → Unserved

-- The events that tell a client so.
pub data Notice : Type 0 where
  docker_unavailable docker_stream_ended ports_unavailable processes_unavailable : Unserved → Notice

pub data FleetActionKind : Type 0 where
  reconnect disconnect : FleetActionKind

pub record FleetActionRequest : Type 0 where
  pub request_id : ℕ
  pub alias : List ℕ
  pub kind : FleetActionKind

-- What is sent: to a client, to an agent, or to a coordinator of the fleet. An event of an agent is its
-- bytes.
pub data Sent : Type 0 where
  pong : ℕ → Sent
  status : ℕ → ℕ → Sent
  notice : ℕ → ℕ → Notice → Sent
  event : ℕ → ℕ → List ℕ → Sent
  action_result : ℕ → ℕ → List ℕ → Sent
  action_failed : ℕ → DockerActionRequest → Unserved → Sent
  action_gone : ℕ → ℕ → List ℕ → DockerActionKind → Unserved → Sent
  fleet_failed : ℕ → FleetActionRequest → Sent
  unknown_pane : ℕ → ℕ → Sent
  agent_subscribe : List ℕ → ℕ → Scope → Sent
  agent_unsubscribe : List ℕ → ℕ → Sent
  agent_action : List ℕ → ℕ → List ℕ → DockerActionKind → Sent
  to_coordinator : ℕ → FleetActionRequest → Sent
