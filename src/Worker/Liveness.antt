-- ===== src/Worker/Liveness.antt =====
-- The life of the worker: the start-up checks, the callbacks of its connection, and its exit code.
pub mod Exit
use data_assistant.Base.Text.{is_empty}
use data_assistant.Tagger.Queue.{TaggerConfig}
use data_assistant.Base.{
  str_eq, none, some, [], ◌&&◌, String, not, if◌then◌else◌, ◌∷◌, List, Option, Bool, false, ℕ, true,
}

pub record WorkerConfig : Type 0 where
  pub tagger : TaggerConfig
  pub nats_enabled : Bool
  pub jetstream_enabled : Bool
  pub queue_group : String
  pub durable_name : String

pub data StartError : Type 0 where
  tagger_disabled no_tagger_url nats_disabled durable_differs : StartError

-- `_validate_jetstream_queue_config`
unfoldable pub is_queue_config : WorkerConfig → Bool
is_queue_config config = not (
    config.jetstream_enabled
    && not (is_empty config.queue_group)
    && not (str_eq config.durable_name config.queue_group))

has_url : Option String → Bool
has_url none = false
has_url (some url) = not (is_empty url)

-- Why the worker does not start.
unfoldable pub start_error : WorkerConfig → Option StartError
unfolding has_url is_queue_config
start_error config =
    if not config.tagger.enabled
    then some tagger_disabled
    else if not (has_url config.tagger.base_url)
    then some no_tagger_url
    else if not config.nats_enabled
    then some nats_disabled
    else if not (is_queue_config config)
    then some durable_differs
    else none

-- `_NATS_LIVENESS`, `shutdown_event` and `nats_closed`.
pub record Life : Type 0 where
  pub required : Bool
  pub connected : Bool
  pub shutdown : Bool
  pub nats_closed : Bool

-- The callbacks of the connection, and a request to stop.
pub data Event : Type 0 where
  errored disconnected reconnected closed stop_requested : Event

unfoldable pub reset_nats_liveness : Bool → Life → Life
reset_nats_liveness required life = record life { required = required; connected = false }

unfoldable pub set_nats_connected : Bool → Life → Life
set_nats_connected connected life = record life { connected = connected }

unfoldable pub worker_is_healthy : Life → Bool
worker_is_healthy life = if not life.required then true else life.connected

-- A close that no shutdown asked for.
close_life : Life → Life
close_life life =
    if life.shutdown then life else record life { nats_closed = true; shutdown = true }

unfoldable pub on_event : Event → Life → Life
unfolding set_nats_connected close_life
on_event errored life = life
on_event disconnected life = set_nats_connected false life
on_event reconnected life = set_nats_connected true life
on_event closed life = close_life (set_nats_connected false life)
on_event stop_requested life = record life { shutdown = true }

unfoldable pub on_events : List Event → Life → Life
unfolding on_event
on_events [] life = life
on_events (event ∷ events) life = on_events events (on_event event life)

-- Right after the connection is made.
unfoldable pub started : Life → Life
unfolding set_nats_connected reset_nats_liveness
started life = set_nats_connected true (reset_nats_liveness true life)

unfoldable pub exit_code : Life → ℕ
exit_code life = if life.nats_closed then 1 else 0
