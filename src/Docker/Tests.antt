-- ===== src/Docker/Tests.antt =====
-- Runs of the Docker tile as crates/tepegoz-tui/src/app.rs handles its keys and events.
use tepegoz.Prelude.{ℕ, Option, none, List, [], ◌∷◌, ◌++◌, All}
use tepegoz.Tile.Tests.{plain_geometry}
use tepegoz.Keys.{char}
use tepegoz.Logs.{stdout}
use tepegoz.App.{Vt100, new_app}
use tepegoz.Daemon.{local, remote}
use tepegoz.Docker.{DockerContainer, Panel, Pushed, new_docker_scope, subscribe_docker}
use tepegoz.Docker.Keys.{handle_scope_key}
use tepegoz.Docker.Events.{container_list, container_log}
use tepegoz.Docker.Steps.{Question}
use tepegoz.Docker.Runs.{
  Happening, pressed, listed, logged, targeted, step, question_after, DockerReached, started,
  happened,
}
use tepegoz.Docker.Selection.{PanelFits, DockerReached-PanelFits}
use tepegoz.Docker.Asked.{IsAnswer, DockerReached-answers}
use tepegoz.Docker.Streams.{subscribed}
use tepegoz.Docker.Streams.Runs.{IsWatching, DockerReached-IsWatching}

abbrev keeper : Vt100 (List ℕ)
keeper = record {
  new_parser = λ rows cols scrollback. [];
  feed = λ parser bytes. parser ++ bytes;
  set_size = λ parser rows cols. parser;
}

abbrev folded : List ℕ → List ℕ
folded text = text

abbrev container_of : List ℕ → DockerContainer
container_of id = record {
  id = id;
  names = (b'/' ∷ id) ∷ [];
  image = [];
  image_id = [];
  command = [];
  created_unix_secs = 0;
  state = [];
  status = [];
  ports = [];
  labels = [];
}

abbrev opened : Panel (List ℕ)
opened = record {
  app = new_app plain_geometry keeper 7 (b's' ∷ []) 40 120;
  docker = new_docker_scope 2;
}

-- A run: the state, what was pushed, and the last question.
abbrev Run : Type 0
Run = Panel (List ℕ) × List Pushed × Option Question

abbrev after : Happening → Run → Run
after h r = ((step folded h r.0).0, r.1 ++ (step folded h r.0).1, question_after folded h r.0 r.2)

abbrev two_listed : Happening
two_listed = listed (container_list (container_of (b'a' ∷ []) ∷ container_of (b'b' ∷ []) ∷ []) [])

abbrev one_listed : Happening
one_listed = listed (container_list (container_of (b'b' ∷ []) ∷ []) [])

-- The second container is asked about, and the first one goes away before the answer.
abbrev asking : Run
asking = after one_listed (
    after (pressed 100 (char b'K')) (
      after (pressed 50 (char b'j'))
        (after two_listed (opened, subscribe_docker 2 local ∷ [], none))))

asking_run : DockerReached plain_geometry keeper folded asking.0 asking.1 asking.2
asking_run = happened one_listed (
    happened (pressed 100 (char b'K'))
      (happened (pressed 50 (char b'j')) (happened two_listed (started 7 (b's' ∷ []) 40 120))))

-- The log of the second container is read, and then the tile is turned to a remote host.
abbrev reading : Run
reading = after (logged (container_log stdout (b'!' ∷ []))) (
    after (pressed 60 (char b'l')) (after two_listed (opened, subscribe_docker 2 local ∷ [], none)))

abbrev turned_away : Run
turned_away = after (targeted (remote (b'h' ∷ []))) reading

turned_away_run :
    DockerReached plain_geometry keeper folded turned_away.0 turned_away.1 turned_away.2
turned_away_run = happened (targeted (remote (b'h' ∷ []))) (
    happened (logged (container_log stdout (b'!' ∷ [])))
      (happened (pressed 60 (char b'l')) (happened two_listed (started 7 (b's' ∷ []) 40 120))))

DockerReached-PanelFits_example : PanelFits folded asking.0
DockerReached-PanelFits_example =
    DockerReached-PanelFits plain_geometry keeper folded asking.0 asking.1 asking.2 asking_run

DockerReached-answers_example :
    All (IsAnswer (char b'y') asking.2) (handle_scope_key folded 200 (char b'y') asking.0).1
DockerReached-answers_example =
    DockerReached-answers plain_geometry keeper folded asking.0 asking.1 asking.2 200 (char b'y')
      asking_run

DockerReached-IsWatching_example : IsWatching folded turned_away.0 (subscribed turned_away.1 [])
DockerReached-IsWatching_example =
    DockerReached-IsWatching plain_geometry keeper folded turned_away.0 turned_away.1 turned_away.2
      turned_away_run
