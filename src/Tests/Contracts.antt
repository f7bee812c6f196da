-- ===== src/Tests/Contracts.antt =====
-- The theorems on the task contract, applied to a task with a path.
use data_assistant.Base.Result.{ok}
use data_assistant.Base.{some, [], refl, ◌∷◌, ◌≡◌}
use data_assistant.Tests.Inputs.{json_codec-IsLawful, json_codec, a_python}
use data_assistant.Contract.RoundTrip.{decode-encode, IsV2, sent_path}
use data_assistant.Base.Json.{put, str, get?, dict, pos}
use data_assistant.Base.Text.{strip, is_empty}
use data_assistant.Contract.Validity.{decode_task-IsDecoded, IsDecoded}
use data_assistant.Contract.{encode_task, whole, value, TaskV2, decode_task}

abbrev pub a_task : TaskV2
a_task = record {
  version = pos 2;
  image_id = whole (pos 7);
  sha256 = "abc";
  source_url = "http://a";
  original_url = "http://b";
  context = dict (("group_id", str "1") ∷ []);
  image_path = some " /a.png ";
}

a_task-IsV2 : IsV2 a_task
unfolding value is_empty strip dict get?
a_task-IsV2 = record {
  version = refl;
  image_id = refl;
  sha256 = refl;
  stripped = refl;
  context = (refl, tt, tt);
}

decode-encode_example :
    decode_task a_python json_codec (encode_task json_codec a_task)
    ≡ ok (record a_task { image_path = sent_path a_task.image_path })
decode-encode_example = decode-encode a_python json_codec json_codec-IsLawful a_task a_task-IsV2

abbrev read_task : TaskV2
read_task = record a_task { image_path = sent_path a_task.image_path }

read_task-decoded : decode_task a_python json_codec (encode_task json_codec a_task) ≡ ok read_task
unfolding decode_task encode_task put strip
read_task-decoded = refl

decode_task-IsDecoded_example : IsDecoded read_task
decode_task-IsDecoded_example =
    decode_task-IsDecoded a_python json_codec (encode_task json_codec a_task) read_task-decoded
