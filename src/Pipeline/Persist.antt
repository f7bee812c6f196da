-- ===== src/Pipeline/Persist.antt =====
-- `persist_event` of pipeline.py: an event's row, its message's row, and its images in turn.
use data_assistant.Pipeline.Process.{process_image}
use data_assistant.Napcat.Refresh.{Channel}
use data_assistant.Contract.{Codec}
use data_assistant.Download.Retry.{Answer}
use data_assistant.Napcat.Event.{ImageSegment, OneBotEvent}
use data_assistant.Events.{
  insert_event, insert_message, MessageColumns, Messages, extract_plain_text, EventColumns, Events,
  extract_sender_fields,
}
use data_assistant.Pipeline.Image.{Settings, Job, Faults, Services, World}
use data_assistant.Base.Text.{Python}
use data_assistant.Pipeline.Parts.{text_or, text_column, derive_stream_state}
use data_assistant.Base.{
  List, [], ◌∷◌, ◌||◌, ◌++◌, str_eq, if◌then◌else◌, none, Option, Bool, String, ℕ, some,
}
use data_assistant.Base.Json.{Fields, ℤ}
use data_assistant.Pipeline.Store.{done, escaped, Finished}

pub data EventOutcome : Type 0 where
  db_failed persisted : EventOutcome

-- What an event may change. The metrics count an outcome and a post type.
pub record Log : Type 0 where
  pub world : World
  pub events : Events
  pub messages : Messages
  pub metrics : List (EventOutcome × String)

-- What is answered, what raises, and the clock while the image of an index is processed.
pub record Turn : Type 0 where
  pub get : ℕ → String → ℕ → Answer
  pub client : Option Channel
  pub faults : Faults
  pub now : ℕ
  pub logged_at : String
  pub ts : String

unfoldable pub count_event : EventOutcome → String → Log → Log
count_event outcome post_type log = record log {
  metrics = log.metrics ++ (outcome, post_type) ∷ [];
}

-- The columns of the event's row; `none` if one of its values is no text, which the driver refuses.
unfoldable pub event_columns : String → OneBotEvent → Option EventColumns
unfolding text_column
event_columns event_time event = elim (text_column event.message_type) [
  | none ↦ none
  | some message_type ↦ elim (text_column event.group_name) [
    | none ↦ none
    | some group_name ↦ some (record {
      post_type = event.post_type;
      message_type = message_type;
      user_id = event.user_id;
      group_id = event.group_id;
      group_name = group_name;
      self_id = event.self_id;
      message_id = event.message_id;
      event_time = event_time;
      raw_message = event.raw_message;
      raw = event.raw;
    })
  ]
]

unfoldable pub is_message : String → Bool
is_message post_type = str_eq post_type "message" || str_eq post_type "message_sent"

group_or_private : Option ℤ → String
group_or_private none = "private"
group_or_private (some group_id) = "group"

unless : Bool → Option String → Option String
unless b o = if b then none else o

or_self : ℤ → Option ℤ → ℤ
or_self self_id none = self_id
or_self self_id (some user_id) = user_id

-- The columns of the message's row, from those of the event's.
unfoldable pub message_columns : ℕ → OneBotEvent → EventColumns → MessageColumns
unfolding group_or_private unless or_self text_or extract_sender_fields extract_plain_text
message_columns event_id event columns =
    let message_type = text_or (group_or_private event.group_id) columns.message_type in
    let user_id =
      if str_eq event.post_type "message_sent" then some event.self_id else event.user_id in
    let (nickname, card, role) = extract_sender_fields event.sender in
    let is_private = str_eq message_type "private" in
    record {
      event_id = event_id;
      message_type = message_type;
      user_id = or_self event.self_id user_id;
      group_id = event.group_id;
      group_name = columns.group_name;
      sender_nickname = nickname;
      sender_card = unless is_private card;
      sender_role = unless is_private role;
      message_id = event.message_id;
      plain_text = extract_plain_text event.message_segments event.raw_message;
      message_segments = event.message_segments;
      event_time = columns.event_time;
    }

-- The fields that `_process_image` sets are empty.
unfoldable pub new_job : ℕ → OneBotEvent → ImageSegment → Turn → Job
unfolding derive_stream_state
new_job event_id event image turn = record {
  event_id = event_id;
  image_id = 0;
  event = event;
  columns = record {
    event_id = event_id;
    seq = image.seq;
    url_raw = none;
    url_decoded = none;
    file_name = none;
    sub_type = none;
    file_size = none;
    summary = none;
  };
  transfer = derive_stream_state image.raw_segment;
  now = turn.now;
  logged_at = turn.logged_at;
  ts = turn.ts;
}

unfoldable pub and_then : Finished × World → (World → Finished × World) → Finished × World
and_then (escaped, w) rest = (escaped, w)
and_then (done, w) rest = rest w

unfoldable pub with_world : Log → Finished × World → Finished × Log
with_world log (finished, w) = (finished, record log { world = w })

-- `event_faults` tells whether the insertion of the event and of the message raises.
module _ (py : Python) (c : Codec) (sv : Services) (settings : Settings) (turns : ℕ → Turn)
    (hash_of : Fields → String) (timestamp : ℤ → Option String) (event_faults : Bool × Bool) where
  unfoldable pub services : Turn → Services
  services turn = record sv { get = turn.get; client = turn.client }

  -- The loop over the images, which an exception ends.
  unfoldable pub process_images : ℕ → OneBotEvent → List ImageSegment → World → Finished × World
  unfolding process_image services new_job and_then
  process_images event_id event [] w = (done, w)
  process_images event_id event (image ∷ images) w =
      and_then
        (process_image py c (services (turns image.seq)) settings (turns image.seq).faults
          (new_job event_id event image (turns image.seq)) image w)
        (process_images event_id event images)

  -- With the event's row stored.
  unfoldable pub after_event : OneBotEvent → EventColumns → ℕ × Events → Log → Finished × Log
  unfolding count_event is_message message_columns insert_message process_images with_world
  after_event event columns (event_id, events) log =
      let persisted_log = count_event persisted event.post_type (record log { events = events }) in
      if is_message event.post_type
      then with_world
          (if event_faults.1 then persisted_log else record persisted_log {
            messages = (insert_message (message_columns event_id event columns) log.messages).1;
          })
          (process_images event_id event event.images log.world)
      else (done, persisted_log)

  unfoldable pub store_event : OneBotEvent → Option EventColumns → Log → Finished × Log
  unfolding after_event count_event insert_event
  store_event event none log = (done, count_event db_failed event.post_type log)
  store_event event (some columns) log =
      if event_faults.0
      then (done, count_event db_failed event.post_type log)
      else after_event event columns (insert_event hash_of columns log.events) log

  -- With the event's time, unless that is out of range, which raises.
  unfoldable pub persist_at : OneBotEvent → Option String → Log → Finished × Log
  unfolding store_event event_columns
  persist_at event none log = (escaped, log)
  persist_at event (some event_time) log = store_event event (event_columns event_time event) log

  unfoldable pub persist_event : OneBotEvent → Log → Finished × Log
  unfolding persist_at
  persist_event event log = persist_at event (timestamp event.time) log
