-- ===== src/Tests/Persisting.antt =====
-- An event with one image, a pipeline that saves it, and the theorems on both applied to them.
use data_assistant.Tests.Relaying.{a_table}
use data_assistant.Pipeline.Dedup.{process_image-IsDeduplicated}
use data_assistant.Tests.Inputs.{no_int, a_python, json_codec}
use data_assistant.Download.Storage.{safe_filename}
use data_assistant.Download.Retry.Attempts.{download_image_with_retry-IsFirst, IsFirst}
use data_assistant.Pipeline.Process.{process_image}
use data_assistant.Images.{Metadata}
use data_assistant.Images.Rows.{IsDeduplicated}
use data_assistant.Pipeline.Persisted.{persist_event-IsDeduplicated, Persisted}
use data_assistant.Pipeline.Persist.{new_job, Turn, persist_event, Log}
use data_assistant.Download.Storage.Safe.{safe_filename-IsSafeName, IsSafeName}
use data_assistant.Pipeline.Outcomes.{process_image-Told}
use data_assistant.Pipeline.Told.{Told}
use data_assistant.Napcat.Event.{ImageSegment, OneBotEvent}
use data_assistant.Base.{
  ltb, ◌∷◌, if◌then◌else◌, ◌<>◌, refl, ◌≡◌, arith, Option, String, none, false, [], map, ℕ, some,
}
use data_assistant.Base.Json.{end, Fields, ℤ, str, pos}
use data_assistant.Download.Retry.{download_image, download_image_with_retry, Answer, response}
use data_assistant.Pipeline.Image.{Job, World, Services, Settings, Faults, saved}
use data_assistant.Pipeline.Store.{Finished}

no_metadata : Metadata
no_metadata = record {
  format = some "PNG";
  width = some 1;
  height = some 1;
  is_animated = some false;
  frame_count = some 1;
}

-- The first attempt of a download fails, the second succeeds.
abbrev second_succeeds : ℕ → Answer
second_succeeds attempt =
    if ltb attempt 2
    then response 500 [] none none
    else response 200 (1 ∷ []) (some "image/png") none

abbrev a_service : Services
a_service = record {
  is_in = λ text part. false;
  status_text = λ status. "status";
  get = λ round url attempt. second_succeeds attempt;
  client = none;
  number_of = λ s. none;
  sha256 = λ body. "abc";
  pillow = λ body. no_metadata;
  url_name = λ url. "f.png";
  join = λ a b. a <> "/" <> b;
  dumps = λ v. "value";
  jsonb = λ payload. "payload";
}

abbrev a_setting : Settings
a_setting = record { retry_count = 3; save_root = "/images"; subject = "tagger" }

abbrev no_fault : Faults
no_fault = record {
  insert_image = false;
  update_trace = false;
  update_failure = false;
  select = false;
  update_duplicate = false;
  update_success = none;
  write_file = none;
  hand_over = record { insert_fails = false; mark_fails = false; publish_error = none };
}

abbrev an_image : ImageSegment
an_image = record {
  seq = 0;
  url_raw = some (str "http://a/f.png");
  url_decoded = some (str "http://a/f.png");
  file_name = some (str "f.png");
  sub_type = none;
  file_size = none;
  summary = none;
  raw_segment = end;
}

abbrev an_event : OneBotEvent
an_event = record {
  post_type = "message";
  time = pos 100;
  self_id = pos 1;
  message_type = some (str "group");
  sub_type = none;
  message_id = some "5";
  user_id = some (pos 2);
  group_id = some (pos 3);
  group_name = none;
  raw_message = some "hello";
  message_segments = none;
  message_cq = none;
  sender = none;
  images = an_image ∷ [];
  raw = end;
}

abbrev a_turn : ℕ → Turn
a_turn seq = record {
  get = λ round url attempt. second_succeeds attempt;
  client = none;
  faults = no_fault;
  now = 100;
  logged_at = "now";
  ts = "20260101T000000Z";
}

abbrev a_world : World
a_world = record {
  images = record { rows = []; next_id = 1 };
  files = [];
  outbox = a_table;
  bus = [];
  audit = [];
  metrics = [];
}

abbrev a_log : Log
a_log = record {
  world = a_world;
  events = record { rows = []; next_id = 1 };
  messages = record { rows = []; next_id = 1 };
  metrics = [];
}

abbrev a_job : Job
a_job = new_job 1 an_event an_image (a_turn 0)

no_rows-IsDeduplicated : IsDeduplicated a_world.images
no_rows-IsDeduplicated = record {
  unique = λ id. omega arith;
  fresh = λ id h. refl;
  once = λ sha. omega arith;
}

abbrev processed : Finished × World
processed = process_image a_python json_codec a_service a_setting no_fault a_job an_image a_world

process_image-IsDeduplicated_example : IsDeduplicated processed.1.images
process_image-IsDeduplicated_example =
    process_image-IsDeduplicated a_python json_codec a_service a_setting no_fault a_job an_image
      a_world no_rows-IsDeduplicated

process_image-Told_example : Told json_codec a_service a_setting no_fault 100 1 a_world processed
unfolding new_job
process_image-Told_example =
    process_image-Told a_python json_codec a_service a_setting no_fault a_job an_image a_world

abbrev no_hash : Fields → String
no_hash raw = "hash"

abbrev a_time : ℤ → Option String
a_time n = some "now"

abbrev persisted_event : Finished × Log
persisted_event =
    persist_event a_python json_codec a_service a_setting a_turn no_hash a_time (false, false)
      an_event a_log

persist_event-IsDeduplicated_example : IsDeduplicated persisted_event.1.world.images
persist_event-IsDeduplicated_example =
    persist_event-IsDeduplicated a_python json_codec a_service a_setting a_turn no_hash a_time
      (false, false) an_event a_log no_rows-IsDeduplicated

-- The outcome of the image.
saved_test : map (λ m. m.0) processed.1.metrics ≡ saved ∷ []
unfolding process_image download_image
saved_test = refl

download_image_with_retry-IsFirst_example :
    IsFirst no_int
      (λ status. "status")
      second_succeeds
      1
      3
      (download_image_with_retry no_int (λ status. "status") 3 second_succeeds)
download_image_with_retry-IsFirst_example =
    download_image_with_retry-IsFirst no_int (λ status. "status") second_succeeds 3

safe_filename-IsSafeName_example : IsSafeName (safe_filename "../a b.png")
safe_filename-IsSafeName_example = safe_filename-IsSafeName "../a b.png"
