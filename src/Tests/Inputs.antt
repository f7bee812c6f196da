-- ===== src/Tests/Inputs.antt =====
-- The built-in conversions, a codec, a file system and a queue that the tests use.
use data_assistant.Base.Result.{err}
use data_assistant.Base.Json.{pos, int, str, dict, Json, Fields}
use data_assistant.Tagger.Run.{Runner}
use data_assistant.Contract.{Codec, IsLawful}
use data_assistant.Tagger.Queue.{not_json, saved, TaggerConfig, Disk}
use data_assistant.Base.{[], ◌∷◌, some, true, refl, ℕ, String, List}
use data_assistant.Base.Text.{value_error, Converted, Python}

abbrev pub no_int : String → Converted
no_int _ = value_error

abbrev pub a_python : Python
a_python = record {
  text_of = λ v. "value";
  int_of_text = no_int;
  int_of_float = no_int;
  float_nonzero = λ s. true;
  float_suc = λ s. s;
  lower = λ s. s;
  unescape = λ s. s;
}

abbrev pub json_codec : Codec
json_codec = record { Bytes = Json; dumps = λ v. v; loads = some }

pub json_codec-IsLawful : IsLawful json_codec
json_codec-IsLawful = record { loads-dumps = λ v h. refl }

abbrev pub a_config : TaggerConfig
a_config = record {
  enabled = true;
  auto_run = true;
  base_url = some "http://tagger";
  batch_size = 2;
  max_attempts = 3;
}

abbrev pub item : String → ℕ → Fields
item path attempts = dict (("image_path", str path) ∷ ("attempt_count", int (pos attempts)) ∷ [])

abbrev pub three_items : List Fields
three_items = item "/a.png" 0 ∷ item "/b.png" 1 ∷ item "/c.png" 2 ∷ []

abbrev pub a_disk : Disk
a_disk = record { queue = saved three_items; inflight = some not_json; archived = []; audit = [] }

-- A runner that raises on every pass.
abbrev pub a_runner : ℕ → Runner
a_runner n items = err "the tagger is down"
