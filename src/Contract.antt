-- ===== src/Contract.antt =====
-- contracts/chat_image_task.py: the tagging task that the logger publishes and the processor
-- reads. `json.dumps(…).encode()` and `json.loads(….decode())` are a codec that is a parameter.
pub mod Validity
pub mod RoundTrip
use data_assistant.Base.{
  false, true, ◌≡◌, String, Bool, ◌&&◌, ◌||◌, not, Option, none, some, List, [], ◌∷◌, str_eq, ltb,
  if◌then◌else◌,
}
use data_assistant.Base.Json.{
  ℤ, pos, negsuc, ltb_ℤ, Json, null, bool, int, float, str, arr, obj, Fields, get?, get, dict,
  IsDistinct, put,
}
use data_assistant.Base.Result.{Result, ok, err, ◌>>=◌}
use data_assistant.Base.Text.{
  Python, Converted, py_int, strip, is_empty, converted, value_error, type_error, overflow_error,
}

-- `json.dumps(v, ensure_ascii=False).encode("utf-8")`, and the way back, which may raise.
pub record Codec : Type 1 where
  pub Bytes : Type 0
  pub dumps : Json → Bytes
  pub loads : Bytes → Option Json

-- Reading back what was written gives the value that was written.
pub record IsLawful (c : Codec) : Type 0 where
  pub loads-dumps : (v : Json) → IsDistinct v → c.loads (c.dumps v) ≡ some v

-- A Python `int`; `bool` is its subclass, and keeps its own JSON form.
pub data Integer : Type 0 where
  whole : ℤ → Integer
  flag : Bool → Integer

unfoldable pub value : Integer → ℤ
value (whole n) = n
value (flag b) = pos (if b then 1 else 0)

unfoldable pub to_json : Integer → Json
to_json (whole n) = int n
to_json (flag b) = bool b

-- `isinstance(v, int)`
unfoldable pub as_integer : Json → Option Integer
as_integer (int n) = some (whole n)
as_integer (bool b) = some (flag b)
as_integer _ = none

abbrev pub task_version : ℤ
task_version = pos 2

pub record TaskV2 : Type 0 where
  pub version : ℤ
  pub image_id : Integer
  pub sha256 : String
  pub source_url : String
  pub original_url : String
  pub context : Fields
  pub image_path : Option String

-- The `ValueError`s of the decoder, and the exceptions that `int()` may raise besides.
pub data DecodeError : Type 0 where
  bad_json not_an_object bad_version bad_image_id empty_sha256 bad_source_url bad_original_url :
      DecodeError
  bad_context bad_image_path empty_image_path bad_context_image_id int_overflow : DecodeError

is_some_str : Option Json → Bool
is_some_str (some (str s)) = true
is_some_str _ = false

unfoldable pub is_v1_payload : Fields → Bool
unfolding get? is_some_str
is_v1_payload payload = elim (get? "version" payload) [
  | none ↦ is_some_str (get? "image_path" payload)
  | some _ ↦ false
]

max_ℤ : ℤ → ℤ → ℤ
max_ℤ a b = if ltb_ℤ a b then b else a

-- The dictionary that `encode_task` dumps; the path is left out when it is empty or `None`.
unfoldable pub task_payload : TaskV2 → Fields
unfolding dict to_json max_ℤ is_empty
task_payload task =
    let fields : List (String × Json) =
      ("version", int (max_ℤ task_version task.version))
      ∷ ("image_id", to_json task.image_id)
      ∷ ("sha256", str task.sha256)
      ∷ ("source_url", str task.source_url)
      ∷ ("original_url", str task.original_url)
      ∷ ("context", obj task.context)
      ∷ [] in
    elim task.image_path [
      | none ↦ dict fields
      | some path ↦ if is_empty path then dict fields else put "image_path" (str path) (dict fields)
    ]

unfoldable pub encode_task : (c : Codec) → TaskV2 → c.Bytes
unfolding task_payload
encode_task c task = c.dumps (obj (task_payload task))

check_version : Json → Result DecodeError ℤ
check_version v = elim (as_integer v) [
  | none ↦ err bad_version
  | some n ↦ if ltb_ℤ (value n) task_version then err bad_version else ok (value n)
]

check_image_id : Json → Result DecodeError Integer
check_image_id v = elim (as_integer v) [
  | none ↦ err bad_image_id
  | some n ↦ if ltb_ℤ (pos 0) (value n) then ok n else err bad_image_id
]

-- The result is stripped, and not empty.
check_text : DecodeError → Json → Result DecodeError String
check_text e (str s) = if is_empty (strip s) then err e else ok (strip s)
check_text e _ = err e

check_str : DecodeError → Json → Result DecodeError String
check_str e (str s) = ok s
check_str e _ = err e

check_dict : Json → Result DecodeError Fields
check_dict (obj d) = ok d
check_dict _ = err bad_context

check_image_path : Json → Result DecodeError (Option String)
check_image_path null = ok none
check_image_path (str s) = ok (some (strip s))
check_image_path _ = err bad_image_path

-- A missing key and a null are both `None`.
pub decode_v2_payload : Fields → Result DecodeError TaskV2
decode_v2_payload payload = do
  version ← check_version (get "version" payload)
  image_id ← check_image_id (get "image_id" payload)
  sha256 ← check_text empty_sha256 (get "sha256" payload)
  source_url ← check_str bad_source_url (get "source_url" payload)
  original_url ← check_str bad_original_url (get "original_url" payload)
  context ← check_dict (get "context" payload)
  image_path ← check_image_path (get "image_path" payload)
  ok (record {
    version = version;
    image_id = image_id;
    sha256 = sha256;
    source_url = source_url;
    original_url = original_url;
    context = context;
    image_path = image_path;
  })

-- `default` if the value is not text.
coerce_str : String → Json → String
coerce_str default (str s) = s
coerce_str default _ = default

positive : Converted → Result DecodeError ℤ
positive (converted n) = if ltb_ℤ (pos 0) n then ok n else err bad_context_image_id
positive value_error = err bad_context_image_id
positive type_error = err bad_context_image_id
positive overflow_error = err int_overflow

module _ (py : Python) where
  coerce_positive_int : Json → Result DecodeError ℤ
  unfolding positive
  coerce_positive_int (bool b) = err bad_context_image_id
  coerce_positive_int v = positive (py_int py v)

  pub decode_v1_payload : Fields → Result DecodeError TaskV2
  decode_v1_payload payload = do
    image_path ← check_text empty_image_path (get "image_path" payload)
    context ← check_dict (get "context" payload)
    image_id ← coerce_positive_int (get "image_id" context)
    let source_url = coerce_str "" (get "source_url" context)
    ok (record {
      version = pos 1;
      image_id = whole image_id;
      sha256 = coerce_str "" (get "hash_sha256" context);
      source_url = source_url;
      original_url = coerce_str source_url (get "original_url" context);
      context = context;
      image_path = some image_path;
    })

  decode_payload : Fields → Result DecodeError TaskV2
  unfolding is_v1_payload decode_v1_payload decode_v2_payload get as_integer value check_version
      check_image_id check_text check_str check_dict check_image_path coerce_str coerce_positive_int
  decode_payload payload =
      if is_v1_payload payload then decode_v1_payload payload else decode_v2_payload payload

  decode_json : Option Json → Result DecodeError TaskV2
  unfolding decode_payload
  decode_json none = err bad_json
  decode_json (some (obj payload)) = decode_payload payload
  decode_json (some _) = err not_an_object

  unfoldable pub decode_task : (c : Codec) → c.Bytes → Result DecodeError TaskV2
  unfolding decode_json
  decode_task c data_bytes = decode_json (c.loads data_bytes)
