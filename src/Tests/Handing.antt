-- ===== src/Tests/Handing.antt =====
-- The theorems on the way of a task from the logger to the processor, applied to one image.
use data_assistant.Contract.RoundTrip.{IsV2}
use data_assistant.Base.Result.{ok}
use data_assistant.Nats.Publisher.Payload.{sent_task, decode-build}
use data_assistant.Tests.Relaying.{a_table}
use data_assistant.Tests.Inputs.{json_codec-IsLawful, json_codec, a_python}
use data_assistant.Base.{inl, inr, Option, String, refl, ◌≡◌, none, some, false}
use data_assistant.Base.Text.{strip, is_empty}
use data_assistant.Outbox.Rows.{find_row}
use data_assistant.Base.Json.{Fields, pos, obj, end, Json}
use data_assistant.Contract.{TaskV2, task_payload, encode_task, whole, value, Integer, decode_task}
use data_assistant.Outbox.HandOver.{Chance}
use data_assistant.Nats.Publisher.{new_task, build_tagger_task_payload}

abbrev pub failing : Chance
failing = record { insert_fails = false; mark_fails = false; publish_error = some "timeout" }

pub fresh : find_row a_table.next_id a_table.rows ≡ none
unfolding find_row
fresh = refl

-- The driver's text of an empty object, and its reading.
abbrev pub write_empty : Fields → String
write_empty payload = "{}"

abbrev pub read_empty : String → Option Json
read_empty text = some (obj end)

abbrev seven : Integer
seven = whole (pos 7)

abbrev the_task : TaskV2
the_task = sent_task a_python json_codec seven "abc" "http://a" none end "http://a"

task-IsV2 : IsV2 the_task
unfolding value is_empty strip
task-IsV2 = record { version = refl; image_id = refl; sha256 = refl; stripped = refl; context = tt }

abbrev the_payload : Json
the_payload = obj (task_payload the_task)

payload-built :
    build_tagger_task_payload json_codec seven "abc" "http://a" none end ≡ some the_payload
unfolding build_tagger_task_payload encode_task new_task
payload-built = refl

decode-build_example : decode_task a_python json_codec the_payload ≡ ok the_task
decode-build_example =
    decode-build a_python json_codec seven "abc" "http://a" none end "http://a"
      (inr (inl refl, refl)) json_codec-IsLawful task-IsV2 payload-built
