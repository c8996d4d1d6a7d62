-- ===== src/Docker.antt =====
-- The Docker tile: `DockerScope` of crates/tepegoz-tui/src/app.rs with its rows, over the containers
-- of crates/tepegoz-proto/src/lib.rs. The prompt `pending_confirm` of the scope stands in the state of
-- tepegoz.App, which its focus and its clock reset. An `i64` is its bit pattern, text is the bytes of its UTF-8 form, and
-- `str::to_lowercase` is a parameter.
pub mod Keys
pub mod Events
pub mod Steps
pub mod Runs
pub mod Calm
pub mod Selection
pub mod Streams
pub mod Asked
mod Tests
use tepegoz.Prelude.{
  ℕ, ◌-◌, Bool, true, false, not, ◌&&◌, ◌||◌, Option, none, some, List, [], ◌∷◌, ◌++◌, leb, ltb,
  ◌==◌, if◌then◌else◌, length, is_empty, drop, get_elem?, filter_by,
}
use tepegoz.Text.Same.{contains_text}
use tepegoz.Logs.{LogsView}
use tepegoz.App.{App, AppAction, draw_frame, send_envelope, unsubscribe, DockerActionKind}
use tepegoz.Daemon.{ScopeTarget, local, DockerActionRequest}

pub record DockerPort : Type 0 where
  pub ip : List ℕ
  pub private_port : ℕ
  pub public_port : ℕ
  pub protocol : List ℕ

pub record KeyValue : Type 0 where
  pub key : List ℕ
  pub value : List ℕ

pub record DockerContainer : Type 0 where
  pub id : List ℕ
  pub names : List (List ℕ)
  pub image : List ℕ
  pub image_id : List ℕ
  pub command : List ℕ
  pub created_unix_secs : ℕ
  pub state : List ℕ
  pub status : List ℕ
  pub ports : List DockerPort
  pub labels : List KeyValue

pub data DockerScopeState : Type 0 where
  idle connecting : DockerScopeState
  available : List DockerContainer → List ℕ → DockerScopeState
  unavailable : List ℕ → DockerScopeState

pub data DockerView : Type 0 where
  list : DockerView
  logs : LogsView → DockerView

pub record DockerScope : Type 0 where
  pub state : DockerScopeState
  pub view : DockerView
  pub selection : ℕ
  pub filter : List ℕ
  pub filter_active : Bool
  pub sub_id : ℕ
  pub target : ScopeTarget

-- The fields of `App` that take part.
pub record Panel (Parser : Type 0) : Type 0 where
  pub app : App Parser
  pub docker : DockerScope

-- What the handlers push: the actions of tepegoz.App, and the requests about containers.
pub data Pushed : Type 0 where
  app_action : AppAction → Pushed
  subscribe_docker : ℕ → ScopeTarget → Pushed
  subscribe_docker_logs :
      (id : ℕ) (container_id : List ℕ) (follow : Bool) (tail_lines : ℕ) → ScopeTarget → Pushed
  docker_action : DockerActionRequest → Pushed

abbrev pub redraw : Pushed
redraw = app_action draw_frame

abbrev pub unsubscribed : ℕ → Pushed
unsubscribed id = app_action (send_envelope (unsubscribe id))

unfoldable pub new_docker_scope : ℕ → DockerScope
new_docker_scope sub_id = record {
  state = connecting;
  view = list;
  selection = 0;
  filter = [];
  filter_active = false;
  sub_id = sub_id;
  target = local;
}

unfoldable pub is_current_logs_sub : DockerScope → ℕ → Bool
is_current_logs_sub d sub_id = elim d.view [ list ↦ false | logs l ↦ l.sub_id == sub_id ]

-- `trim_start_matches('/')`
unfoldable pub trim_slashes : List ℕ → List ℕ
trim_slashes [] = []
trim_slashes (b ∷ bs) = let rest = trim_slashes bs in if b == b'/' then rest else b ∷ bs

unfoldable pub take_bytes : ℕ → List ℕ → List ℕ
take_bytes ℕ.zero bs = []
take_bytes (ℕ.suc n) [] = []
take_bytes (ℕ.suc n) (b ∷ bs) = b ∷ take_bytes n bs

-- Whether a character starts here, or the text ends.
abbrev pub is_char_boundary : List ℕ → Bool
is_char_boundary [] = true
is_char_boundary (b ∷ bs) = not (leb 0x80 b && ltb b 0xc0)

-- `id.get(..12).unwrap_or(&id)`
unfoldable pub short_id : List ℕ → List ℕ
short_id id = if leb 12 (length id) && is_char_boundary (drop 12 id) then take_bytes 12 id else id

abbrev pub name_or_short : List (List ℕ) → List ℕ → List ℕ
name_or_short [] id = short_id id
name_or_short (raw ∷ names) id =
    if is_empty (trim_slashes raw) then short_id id else trim_slashes raw

unfoldable pub display_name_for : DockerContainer → List ℕ
display_name_for c = name_or_short c.names c.id

module _ (to_lowercase : List ℕ → List ℕ) where
  unfoldable pub any_contains : List ℕ → List (List ℕ) → Bool
  any_contains q [] = false
  any_contains q (n ∷ names) = contains_text (to_lowercase n) q || any_contains q names

  unfoldable pub container_matches : List ℕ → DockerContainer → Bool
  container_matches filter c =
      let q = to_lowercase filter in
      is_empty filter || (any_contains q c.names || contains_text (to_lowercase c.image) q)

  -- The containers that pass the filter; none where the list is not available.
  unfoldable pub visible_containers : DockerScope → List DockerContainer
  visible_containers d = elim d.state [
    | idle ↦ []
    | connecting ↦ []
    | available containers source ↦ filter_by (container_matches d.filter) containers
    | unavailable reason ↦ []
  ]

  unfoldable pub visible_count : DockerScope → ℕ
  visible_count d = length (visible_containers d)

  unfoldable pub selected_container : DockerScope → Option DockerContainer
  selected_container d = get_elem? (visible_containers d) d.selection

  unfoldable pub clamp_selection : DockerScope → DockerScope
  clamp_selection d =
      let n = visible_count d in
      if n == 0
      then record d { selection = 0 }
      else if leb n d.selection
      then record d { selection = n - 1 }
      else d
