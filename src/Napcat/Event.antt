-- ===== src/Napcat/Event.antt =====
-- `parse_event` of event.py, and its caller in handler.py. `cq_urls` gives the URLs that the pattern
-- of CQ images matches in a text. `unescape_other` is `html.unescape` of a value that is not text:
-- `none` if it raises.
pub mod Images
use data_assistant.Base.Result.{◌>>=◌}
use data_assistant.Base.Result.{ok, err, Result}
use data_assistant.Base.Text.{
  py_str, is_empty, truthy, overflow_error, py_int, converted, Converted, Python,
}
use data_assistant.Base.Json.{
  nil, null, end, obj, cons, arr, str, Fields, Items, dict, ℤ, Json, get,
}
use data_assistant.Base.{
  str_eq, some, suc, if◌then◌else◌, [], none, ◌∷◌, false, List, Option, Bool, ℕ, String,
}

-- The `ValueError`s of the parser; `uncaught` stands for any other exception.
pub data Raised : Type 0 where
  missing_time invalid_time missing_self_id invalid_self_id invalid_post_type uncaught : Raised

-- `url`, `file` and `summary` are not checked to be text.
pub record ImageSegment : Type 0 where
  pub seq : ℕ
  pub url_raw : Option Json
  pub url_decoded : Option Json
  pub file_name : Option Json
  pub sub_type : Option String
  pub file_size : Option ℤ
  pub summary : Option Json
  pub raw_segment : Fields

pub record OneBotEvent : Type 0 where
  pub post_type : String
  pub time : ℤ
  pub self_id : ℤ
  pub message_type : Option Json
  pub sub_type : Option Json
  pub message_id : Option String
  pub user_id : Option ℤ
  pub group_id : Option ℤ
  pub group_name : Option Json
  pub raw_message : Option String
  pub message_segments : Option Items
  pub message_cq : Option String
  pub sender : Option Fields
  pub images : List ImageSegment
  pub raw : Fields

converted_or : Raised → Converted → Result Raised ℤ
converted_or e (converted n) = ok n
converted_or e overflow_error = err uncaught
converted_or e _ = err e

converted_or_none : Converted → Result Raised (Option ℤ)
converted_or_none (converted n) = ok (some n)
converted_or_none overflow_error = err uncaught
converted_or_none _ = ok none

list_field : Json → Option Items
list_field (arr vs) = some vs
list_field _ = none

text_field : Json → Option String
text_field (str s) = some s
text_field _ = none

dict_field : Json → Option Fields
dict_field (obj d) = some d
dict_field _ = none

post_type_of : Json → Result Raised String
post_type_of (str s) = if is_empty s then err invalid_post_type else ok s
post_type_of _ = err invalid_post_type

is_image : Json → Bool
is_image (str s) = str_eq s "image"
is_image _ = false

-- A segment that is a dictionary of type `image`.
unfoldable pub image_segment : Json → Option Fields
unfolding is_image get
image_segment (obj seg) = if is_image (get "type" seg) then some seg else none
image_segment _ = none

module _ (py : Python) where
  required_int : Raised → Raised → Json → Result Raised ℤ
  unfolding converted_or
  required_int missing invalid null = err missing
  required_int missing invalid v = converted_or invalid (py_int py v)

  optional_int : Json → Result Raised (Option ℤ)
  unfolding converted_or_none
  optional_int null = ok none
  optional_int v = converted_or_none (py_int py v)

  -- `v or None`
  or_none : Json → Option Json
  or_none v = if truthy py v then some v else none

  -- `str(v)`, if `v` is not `None`.
  optional_str : Json → Option String
  optional_str null = none
  optional_str v = some (py_str py v)

  -- `v or {}`, of which `get` is called.
  data_of : Json → Result Raised Fields
  data_of v =
      if truthy py v then elim (dict_field v) [ some d ↦ ok d | none ↦ err uncaught ] else ok end

  module _ (cq_urls : String → List String) (unescape_other : Json → Option Json) where
    decoded : Option Json → Result Raised (Option Json)
    decoded none = ok none
    decoded (some (str s)) = ok (some (str (py.unescape s)))
    decoded (some v) = elim (unescape_other v) [ some u ↦ ok (some u) | none ↦ err uncaught ]

    image_of : ℕ → Fields → Result Raised ImageSegment
    unfolding data_of decoded optional_int optional_str or_none get
    image_of seq seg = do
      data_fields ← data_of (get "data" seg)
      let url_raw = or_none (get "url" data_fields)
      url_decoded ← decoded url_raw
      file_size ← optional_int (get "file_size" data_fields)
      ok (record {
        seq = seq;
        url_raw = url_raw;
        url_decoded = url_decoded;
        file_name = or_none (get "file" data_fields);
        sub_type = optional_str (get "sub_type" data_fields);
        file_size = file_size;
        summary = or_none (get "summary" data_fields);
        raw_segment = seg;
      })

    -- `_extract_images_from_segments`, from the segment at `seq` on.
    unfoldable pub extract_images_from_segments : ℕ → Items → Result Raised (List ImageSegment)
    unfolding image_segment image_of data_of decoded optional_int optional_str or_none dict_field
    extract_images_from_segments seq nil = ok []
    extract_images_from_segments seq (cons v vs) = elim (image_segment v) [
      | none ↦ extract_images_from_segments (suc seq) vs
      | some seg ↦ do
        image ← image_of seq seg
        images ← extract_images_from_segments (suc seq) vs
        ok (image ∷ images)
    ]

    cq_image : ℕ → String → ImageSegment
    unfolding dict
    cq_image seq url = record {
      seq = seq;
      url_raw = some (str url);
      url_decoded = if is_empty url then none else some (str (py.unescape url));
      file_name = none;
      sub_type = none;
      file_size = none;
      summary = none;
      raw_segment = dict (
          ("type", str "image")
          ∷ ("data", obj (dict (("url", str url) ∷ ("_source", str "cq_fallback") ∷ [])))
          ∷ []);
    }

    cq_images : ℕ → List String → List ImageSegment
    cq_images seq [] = []
    cq_images seq (url ∷ urls) = cq_image seq url ∷ cq_images (suc seq) urls

    unfoldable pub extract_images_from_cq : String → List ImageSegment
    unfolding cq_images cq_image
    extract_images_from_cq text = cq_images 0 (cq_urls text)

    -- Nothing is found in a message that is missing or empty.
    images_of_raw : Option String → List ImageSegment
    unfolding extract_images_from_cq
    images_of_raw none = []
    images_of_raw (some text) = if is_empty text then [] else extract_images_from_cq text

    or_images : List ImageSegment → List ImageSegment → List ImageSegment
    or_images [] images = images
    or_images (image ∷ images) _ = image ∷ images

    is_text : String → Option String → Bool
    is_text text none = false
    is_text text (some s) = str_eq text s

    images_of : Json → Option String → Result Raised (List ImageSegment)
    unfolding extract_images_from_segments images_of_raw or_images is_text
    images_of (arr vs) raw_message = do
      images ← extract_images_from_segments 0 vs
      ok (or_images images (images_of_raw raw_message))
    images_of (str text) raw_message = ok (
        or_images (extract_images_from_cq text)
          (if is_text text raw_message then [] else images_of_raw raw_message))
    images_of _ raw_message = ok (images_of_raw raw_message)

    unfoldable pub parse_event : Fields → Result Raised OneBotEvent
    unfolding required_int post_type_of optional_int optional_str or_none images_of text_field
        dict_field list_field get
    parse_event raw = do
      time ← required_int missing_time invalid_time (get "time" raw)
      self_id ← required_int missing_self_id invalid_self_id (get "self_id" raw)
      post_type ← post_type_of (get "post_type" raw)
      user_id ← optional_int (get "user_id" raw)
      group_id ← optional_int (get "group_id" raw)
      let raw_message = text_field (get "raw_message" raw)
      images ← images_of (get "message" raw) raw_message
      ok (record {
        post_type = post_type;
        time = time;
        self_id = self_id;
        message_type = or_none (get "message_type" raw);
        sub_type = or_none (get "sub_type" raw);
        message_id = optional_str (get "message_id" raw);
        user_id = user_id;
        group_id = group_id;
        group_name = or_none (get "group_name" raw);
        raw_message = raw_message;
        message_segments = list_field (get "message" raw);
        message_cq = text_field (get "message" raw);
        sender = dict_field (get "sender" raw);
        images = images;
        raw = raw;
      })

    -- `handle_raw_event`: the event that is handed to the callback, if the parser did not raise a
    -- `ValueError`. Another exception leaves the function. What the callback raises is only logged.
    unfoldable pub handle_raw_event : Fields → Result Raised (Option OneBotEvent)
    unfolding parse_event
    handle_raw_event raw = elim (parse_event raw) [
      | ok event ↦ ok (some event)
      | err uncaught ↦ err uncaught
      | err _ ↦ ok none
    ]
