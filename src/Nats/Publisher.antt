-- ===== src/Nats/Publisher.antt =====
-- The publisher of nats_publisher.py: its module-level state, and one publish. The bus is a
-- parameter: what `connect`, the set-up of the stream and the publish itself come to.
pub mod Delivered
pub mod Payload
use data_assistant.Contract.{task_version, Codec, TaskV2, Integer, encode_task}
use data_assistant.Base.Json.{Json, get, Fields}
use data_assistant.Base.Result.{ok, err, Result}
use data_assistant.Nats.Stream.{leave_stream, StreamConfig, Request, StreamSettings, ensure_stream}
use data_assistant.Base.{
  ◌&&◌, str_eq, true, ◌||◌, [], ◌∷◌, if◌then◌else◌, false, some, String, List, none, Option, Bool,
  ℕ,
}
use data_assistant.Base.Text.{py_str, truthy, is_empty, Python}

-- The id of the connection that is kept, whether it has a JetStream context, and the streams that
-- are known to be set up on it.
pub record PublisherState : Type 0 where
  pub client : Option ℕ
  pub jetstream : Bool
  pub ensured : List StreamSettings

pub record PublisherConfig : Type 0 where
  pub enabled : Bool
  pub jetstream_enabled : Bool
  pub subject : String
  pub stream : StreamSettings

-- What is handed to a connection: the message, and its deduplication header.
pub record Sent : Type 0 where
  pub client : ℕ
  pub subject : String
  pub payload : Fields
  pub msg_id : Option String

-- Whether a connection is up, and what each call on the bus comes to: the text of what it raised, or
-- none. A connection is an id that `connect` chooses.
pub record Bus : Type 0 where
  pub is_connected : ℕ → Bool
  pub connect : Result String ℕ
  pub stream_info : ℕ → Option StreamConfig
  pub request : ℕ → Request → Option String
  pub publish : Sent → Option String

-- `original_url or source_url`
or_source : Option String → String → String
or_source none source_url = source_url
or_source (some url) source_url = if is_empty url then source_url else url

unfoldable pub new_task : Integer → String → String → Option String → Fields → TaskV2
unfolding or_source
new_task image_id sha256 source_url original_url context = record {
  version = task_version;
  image_id = image_id;
  sha256 = sha256;
  source_url = source_url;
  original_url = or_source original_url source_url;
  context = context;
  image_path = none;
}

-- The task is written and read back.
unfoldable pub build_tagger_task_payload :
    Codec → Integer → String → String → Option String → Fields → Option Json
unfolding new_task encode_task
build_tagger_task_payload c image_id sha256 source_url original_url context =
    c.loads (encode_task c (new_task image_id sha256 source_url original_url context))

abbrev pub closed_state : PublisherState
closed_state = record { client = none; jetstream = false; ensured = [] }

same_texts : List String → List String → Bool
same_texts [] [] = true
same_texts (s ∷ ss) (t ∷ ts) = str_eq s t && same_texts ss ts
same_texts _ _ = false

is_key : StreamSettings → StreamSettings → Bool
unfolding same_texts
is_key a b = str_eq a.stream_name b.stream_name && same_texts a.stream_subjects b.stream_subjects

-- `stream_key in _ensured_streams`; a key is the name and the subjects.
unfoldable pub is_ensured : StreamSettings → List StreamSettings → Bool
unfolding is_key
is_ensured key [] = false
is_ensured key (k ∷ ks) = is_key key k || is_ensured key ks

-- `close_nats_publisher`
unfoldable pub close : PublisherState → PublisherState
close s = elim (s.client) [ none ↦ s | some c ↦ closed_state ]

module _ (bus : Bus) where
  -- A connection that is up.
  live_client : Option ℕ → Option ℕ
  live_client none = none
  live_client (some c) = if bus.is_connected c then some c else none

  -- `_get_or_connect_nats`: a new connection forgets what was set up on the old one.
  unfoldable pub get_or_connect : PublisherState → Result String ℕ × PublisherState
  unfolding live_client
  get_or_connect s = elim (live_client s.client) [
    | some c ↦ (ok c, s)
    | none ↦ elim (bus.connect) [
      | err e ↦ (err e, s)
      | ok c ↦ (ok c, record { client = some c; jetstream = false; ensured = [] })
    ]
  ]

  -- `_ensure_stream` on a connection. A request that fails leaves the stream to be set up later.
  pub ask : ℕ → Request → Option String
  ask c leave_stream = none
  ask c request = bus.request c request

  unfoldable pub set_up : PublisherConfig → ℕ → PublisherState → Option String × PublisherState
  unfolding is_ensured ask ensure_stream
  set_up config c s =
      if is_ensured config.stream s.ensured
      then (none, s)
      else elim (ask c (ensure_stream config.stream (bus.stream_info c))) [
        | some e ↦ (some e, s)
        | none ↦ (none, record s { ensured = config.stream ∷ s.ensured })
      ]

  -- The stream, if JetStream is used.
  prepare : PublisherConfig → ℕ → PublisherState → Option String × PublisherState
  unfolding set_up
  prepare config c s =
      if config.jetstream_enabled
      then set_up config c (record s { jetstream = true })
      else (none, s)

  send : Sent → Option String × PublisherState → Result String (List Sent) × PublisherState
  send message (some e, s) = (err e, s)
  send message (none, s) = elim (bus.publish message) [
    | some e ↦ (err e, s)
    | none ↦ (ok (message ∷ []), s)
  ]

  unfoldable pub send_on :
      PublisherConfig
      → Fields
      → Option String
      → Result String ℕ × PublisherState
      → Result String (List Sent) × PublisherState
  unfolding prepare send
  send_on config payload msg_id (err e, s) = (err e, s)
  send_on config payload msg_id (ok c, s) =
      send (record { client = c; subject = config.subject; payload = payload; msg_id = msg_id })
        (prepare config c s)

  -- `publish_tagger_task_with_result`: the error that is returned, or what was published.
  module _ (py : Python) where
    -- `str(payload.get("image_id") or "")`, if it is not empty.
    image_id_of : Fields → Option String
    image_id_of payload =
        if truthy py (get "image_id" payload)
        then non_empty (py_str py (get "image_id" payload))
        else none
      where
        non_empty : String → Option String
        non_empty s = if is_empty s then none else some s

    -- `msg_id or …`
    pub dedup_id : Option String → Fields → Option String
    unfolding image_id_of
    dedup_id none payload = image_id_of payload
    dedup_id (some id) payload = if is_empty id then image_id_of payload else some id

    unfoldable pub publish_with_result :
        PublisherConfig
        → Fields
        → Option String
        → PublisherState
        → Result String (List Sent) × PublisherState
    unfolding send_on get_or_connect dedup_id
    publish_with_result config payload msg_id s =
        if config.enabled
        then send_on config payload (dedup_id msg_id payload) (get_or_connect s)
        else (err "nats_disabled", s)
