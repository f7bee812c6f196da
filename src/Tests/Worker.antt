-- ===== src/Tests/Worker.antt =====
-- The theorems on events, the stream, the publisher and the worker, applied to concrete inputs.
use data_assistant.Worker.Message.{on_message, Handled}
use data_assistant.Worker.Liveness.Exit.{started-Exit, closes_first, is_up}
use data_assistant.Base.Result.{ok}
use data_assistant.Tests.Contracts.{a_task}
use data_assistant.Contract.{encode_task}
use data_assistant.Tests.Inputs.{a_disk, a_config, json_codec, a_python}
use data_assistant.Worker.Resolve.{resolve_task_image_path, Folder}
use data_assistant.Base.Text.{truthy, strip, is_empty}
use data_assistant.Nats.Stream.Reconcile.{
  reported, Reports, ensure_stream_twice, ensure_stream-IsReady, asked_for, IsReady,
}
use data_assistant.Worker.Liveness.{
  stop_requested, exit_code, closed, reconnected, started, disconnected, on_events, Event, Life,
  worker_is_healthy,
}
use data_assistant.Nats.Publisher.Delivered.{Delivered}
use data_assistant.Worker.Resolve.Found.{resolve_task_image_path-IsFound, IsFound}
use data_assistant.Napcat.Event.{ImageSegment, extract_images_from_segments}
use data_assistant.Worker.Message.Acknowledged.{process_message-Told, Tells}
use data_assistant.Base.Json.{nil, obj, field, str, negsuc, end, cons, Items, Json}
use data_assistant.Napcat.Event.Images.{extract_images_from_segments-AreAt, Rises, AreAt}
use data_assistant.Nats.Publisher.{PublisherState, PublisherConfig, Sent, Bus}
use data_assistant.Base.{
  arith, ℕ, if◌then◌else◌, refl, ◌≡◌, false, [], some, ◌∷◌, true, Option, none, List, String,
}
use data_assistant.Tagger.Batch.{FileSystem}
use data_assistant.Nats.Stream.{eq_age, leave_stream, StreamConfig, ensure_stream, StreamSettings}

abbrev settings : StreamSettings
settings = record {
  stream_name = "tasks";
  stream_subjects = "a" ∷ "b" ∷ [];
  stream_max_age = 60;
  stream_max_bytes = negsuc 0;
  stream_max_msgs = negsuc 0;
}

abbrev old_stream : StreamConfig
old_stream = record {
  subjects = "b" ∷ "c" ∷ [];
  max_age = none;
  max_bytes = some (negsuc 0);
  max_msgs = none;
}

ensure_stream-IsReady_example :
    IsReady settings
      (some old_stream)
      (asked_for (some old_stream) (ensure_stream settings (some old_stream)))
ensure_stream-IsReady_example = ensure_stream-IsReady settings (some old_stream)

-- A server that reports an age which is not set as 0.
abbrev reported_age : Option ℕ → Option ℕ
reported_age none = some 0
reported_age (some n) = some n

abbrev a_server : StreamConfig → StreamConfig
a_server c = record c { max_age = reported_age c.max_age }

reported_age_lem :
    (o : Option ℕ) (n : ℕ) → eq_age o (some n) ≡ true → eq_age (reported_age o) (some n) ≡ true
unfolding eq_age
reported_age_lem none n h = absurd cc
reported_age_lem (some m) n h = h

a_server-Reports : Reports a_server
a_server-Reports = record {
  subjects = λ c. refl;
  max_age = λ c n set h. reported_age_lem c.max_age n h;
  max_bytes = λ c n set h. h;
  max_msgs = λ c n set h. h;
}

ensure_stream_twice_example :
    ensure_stream settings
      (reported a_server (some old_stream) (ensure_stream settings (some old_stream)))
    ≡ leave_stream
ensure_stream_twice_example =
    ensure_stream_twice a_server a_server-Reports settings (omega arith) (λ e. cc) (λ e. cc)
      (some old_stream)

abbrev a_bus : Bus
a_bus = record {
  is_connected = λ c. false;
  connect = ok 3;
  stream_info = λ c. some old_stream;
  request = λ c r. none;
  publish = λ m. none;
}

abbrev publisher_config : PublisherConfig
publisher_config = record {
  enabled = true;
  jetstream_enabled = true;
  subject = "a";
  stream = settings;
}

abbrev a_message : Sent
a_message = record { client = 3; subject = "a"; payload = end; msg_id = some "7" }

abbrev connected_state : PublisherState
connected_state = record { client = some 3; jetstream = true; ensured = settings ∷ [] }

abbrev idle : Life
idle = record { required = false; connected = false; shutdown = false; nats_closed = false }

abbrev a_day : List Event
a_day = disconnected ∷ reconnected ∷ closed ∷ stop_requested ∷ []

started-Exit_example :
    (worker_is_healthy (on_events a_day (started idle)) ≡ is_up true a_day)
    × (exit_code (on_events a_day (started idle)) ≡ (if closes_first a_day then 1 else 0))
started-Exit_example = started-Exit idle a_day refl refl

abbrev a_folder : Folder
a_folder = record {
  save_root = "/images";
  chat_folder = λ kind id. "/images";
  is_folder = λ p. true;
  probe_raises = λ p. false;
  resolve_raises = λ p. false;
  glob = λ root pattern. some ("/images/x.png" ∷ []);
  sha256 = λ p. some "abc";
  mtime = λ p. some 5;
}

-- A file system whose resolved paths are not blank.
abbrev rooted : FileSystem
rooted = record {
  expand = λ p. p;
  exists = λ p. true;
  is_file = λ p. true;
  resolve = λ p. "/images/x.png";
}

resolve_task_image_path-IsFound_example :
    IsFound rooted (resolve_task_image_path a_python rooted a_folder a_task)
resolve_task_image_path-IsFound_example =
    resolve_task_image_path-IsFound a_python rooted a_folder a_task

full : (p : String) → is_empty (strip (rooted.resolve p)) ≡ false
unfolding is_empty strip
full p = refl

abbrev raw_task : Json
raw_task = encode_task json_codec a_task

abbrev answered : Handled
answered = on_message a_python json_codec rooted a_folder a_config true 5 none "now" raw_task a_disk

process_message-Told_example :
    Tells a_python json_codec rooted a_folder a_config 5 none raw_task a_disk answered
      answered.outcome
process_message-Told_example =
    process_message-Told a_python json_codec rooted a_folder a_config 5 none full "now" raw_task
      a_disk

abbrev no_urls : String → List String
no_urls _ = []

abbrev no_text : Json → Option Json
no_text _ = none

abbrev segments : Items
segments = cons (str "hi") (cons (obj (field "type" (str "image") end)) nil)

abbrev the_image : ImageSegment
the_image = record {
  seq = 1;
  url_raw = none;
  url_decoded = none;
  file_name = none;
  sub_type = none;
  file_size = none;
  summary = none;
  raw_segment = field "type" (str "image") end;
}

one_image : extract_images_from_segments a_python no_urls no_text 0 segments ≡ ok (the_image ∷ [])
unfolding extract_images_from_segments truthy
one_image = refl

extract_images_from_segments-AreAt_example :
    AreAt 0 segments (the_image ∷ []) × Rises 0 (the_image ∷ [])
extract_images_from_segments-AreAt_example =
    extract_images_from_segments-AreAt a_python no_urls no_text segments one_image
