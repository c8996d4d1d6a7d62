-- ===== src/Daemon/Tests.antt =====
-- Sessions of clients and agents as crates/tepegoz-core/src/client.rs and agent.rs serve them.
use tepegoz.Prelude.{ℕ, All, ◌≢◌, ◌<◌, ◌≡◌, refl, true, some, List, [], ◌∷◌, arith}
use tepegoz.Text.Same.{same_text}
use tepegoz.App.{stop}
use tepegoz.Daemon.{DockerActionRequest, local, docker, ports, event, agent_subscribe}
use tepegoz.Daemon.Maps.{pool_get}
use tepegoz.Daemon.Agents.{
  Pool, AgentConnection, has_capability, docker_capability, agent_event, route_remote_subscribe,
  register_agent,
}
use tepegoz.Daemon.Fresh.{empty, registers}
use tepegoz.Daemon.Session.{
  Session, Task, handle_unsubscribe, new_session, handle_command, docker_action, subscribe,
  subscribe_fleet, attach_pane, on_this_machine, end_session,
}
use tepegoz.Daemon.Ended.{
  SessionReached, connected, commanded, NoClash, SessionReached-NoClash, end_session-tasks,
  unsubscribe-tasks,
}
use tepegoz.Daemon.Routes.{
  deliver, entry_of, route_remote_subscribe-deliver, stale_handle-deliver, second_subscribes,
  first_leaves,
}

abbrev box : List ℕ
box = b'b' ∷ b'o' ∷ b'x' ∷ []

abbrev able : List (List ℕ)
able = docker_capability ∷ []

-- Containers twice under id 3, the fleet under 4, a pane under 5.
abbrev twice_subscribed : Session
twice_subscribed =
    (handle_command 1 [] (handle_command 1 [] new_session (subscribe 3 docker local)).1
      (subscribe 3 docker local)).1

abbrev watching : Session
watching =
    (handle_command 1 [] (handle_command 1 [] twice_subscribed (subscribe_fleet 4)).1
      (attach_pane 7 5 on_this_machine)).1

watching_run : SessionReached watching
watching_run = commanded 1 [] (attach_pane 7 5 on_this_machine) (
    commanded 1 [] (subscribe_fleet 4) (
      commanded 1 [] (subscribe 3 docker local)
        (commanded 1 [] (subscribe 3 docker local) connected)))

SessionReached-NoClash_example : NoClash watching.tasks
SessionReached-NoClash_example = SessionReached-NoClash watching watching_run

unsubscribe-tasks_example : All (λ (t : Task). t.id ≢ 4) (handle_unsubscribe [] 4 watching).1.tasks
unsubscribe-tasks_example = unsubscribe-tasks [] 4 watching watching_run

abbrev stop_web : DockerActionRequest
stop_web = record { request_id = 6; container_id = b'w' ∷ []; kind = stop; target = local }

-- A container is being stopped, too.
abbrev acting : Session
acting = (handle_command 1 [] watching (docker_action stop_web)).1

end_session-tasks_example :
    ((end_session [] acting).1.tasks ≡ [])
    × ((end_session [] acting).1.action_tasks ≡ acting.action_tasks)
end_session-tasks_example =
    end_session-tasks [] acting (commanded 1 [] (docker_action stop_web) watching_run)

abbrev agent : AgentConnection
agent = record { capabilities = able; writer_open = true; next_sub_id = 1; routing = [] }

abbrev one_agent : Pool
one_agent = (register_agent box able []).0

agent_here : pool_get box one_agent ≡ some agent
unfolding pool_get same_text register_agent
agent_here = refl

able_to_serve : has_capability docker_capability able ≡ true
unfolding same_text has_capability
able_to_serve = refl

route_remote_subscribe-deliver_example :
    let pool' = (route_remote_subscribe one_agent 1 8 box docker).0 in
    (deliver box (agent_event 1 (b'!' ∷ [])) one_agent ≡ [])
    × ((conn' : AgentConnection) × (pool_get box pool' ≡ some conn') × (1 < conn'.next_sub_id))
    × ((route_remote_subscribe one_agent 1 8 box docker).2 ≡ agent_subscribe box 1 docker ∷ [])
    × (deliver box (agent_event 1 (b'!' ∷ [])) pool' ≡ event 1 8 (b'!' ∷ []) ∷ [])
    × (deliver box (agent_event 2 (b'!' ∷ [])) pool'
        ≡ deliver box (agent_event 2 (b'!' ∷ [])) one_agent)
route_remote_subscribe-deliver_example =
    route_remote_subscribe-deliver one_agent 1 8 box docker agent agent_here (able_to_serve, refl)
      (b'!' ∷ []) 2 (registers box able empty) (omega arith)

stale_handle-deliver_example :
    (deliver box (agent_event 1 (b'!' ∷ [])) (second_subscribes [] box able 1 2 8 9 docker).0
      ≡ event 2 9 (b'!' ∷ []) ∷ [])
    × (deliver box (agent_event 1 (b'!' ∷ [])) (first_leaves [] box able 1 2 8 9 docker) ≡ [])
unfolding has_capability same_text
stale_handle-deliver_example = stale_handle-deliver [] box able 1 2 8 9 docker (b'!' ∷ []) refl

abbrev busy : AgentConnection
busy = record agent { routing = (1, entry_of 1 8 docker) ∷ (2, entry_of 2 9 ports) ∷ [] }
