-- ===== src/Tagger/Batch.antt =====
-- The HTTP runner of tagger_pipeline.py. The file system, the HTTP client and the JSON parser are
-- parameters.
pub mod OnePerItem
use data_assistant.Base.Result.{◌>>=◌, ok, err, Result}
use data_assistant.Base.Text.{py_str, is_empty, truthy, strip, Python}
use data_assistant.Base.{
  ◌++◌, map, str_eq, false, none, leb, ◌<>◌, ◌∷◌, not, [], some, Bool, if◌then◌else◌, List, ℕ,
  Option, String,
}
use data_assistant.Base.Json.{
  null, nil, str, obj, cons, put, bool, arr, Fields, get, strs, get_default, Items, dict, Json,
}
use data_assistant.Tagger.Queue.{json, path_of, as_str}

-- `Path(…).expanduser()`, `exists`, `is_file`, `str(….resolve())`.
pub record FileSystem : Type 0 where
  pub expand : String → String
  pub exists : String → Bool
  pub is_file : String → Bool
  pub resolve : String → String

-- What the client does with a request: a response, or one of the exceptions that are caught.
pub data Reply : Type 0 where
  response : ℕ → String → Reply
  timed_out : Reply
  client_error : String → Reply

-- The optional request settings, as the JSON values that are sent.
pub record Settings : Type 0 where
  pub threshold : Option Json
  pub use_chinese_name : Option Json
  pub top_k : Option Json

put_some : String → Option Json → Fields → Fields
put_some k none d = d
put_some k (some v) d = put k v d

unfoldable pub build_tagger_request_payload : Settings → List String → Fields
unfolding put_some dict
build_tagger_request_payload settings image_paths = put_some "top_k" settings.top_k (
    put_some "use_chinese_name" settings.use_chinese_name (
      put_some "threshold" settings.threshold
        (dict (("image_paths", arr (strs image_paths)) ∷ []))))

pub data BatchError : Type 0 where
  no_base_url : BatchError
  http_status : ℕ → String → BatchError
  request_timed_out : BatchError
  request_failed : String → BatchError
  invalid_json payload_not_object no_results : BatchError

parsed_body : Option Json → Result BatchError Fields
parsed_body none = err invalid_json
parsed_body (some (obj d)) = ok d
parsed_body (some _) = err payload_not_object

-- `_post_tagger_batch`, from the client's reply on.
unfoldable pub post_tagger_batch : (String → Option Json) → Reply → Result BatchError Fields
unfolding parsed_body
post_tagger_batch loads timed_out = err request_timed_out
post_tagger_batch loads (client_error text) = err (request_failed text)
post_tagger_batch loads (response status text) =
    if leb 400 status then err (http_status status text) else parsed_body (loads text)

-- A batch result: the item with its tags, or with an error.
unfoldable pub failed_item : Fields → String → Fields
unfolding dict
failed_item item error =
    dict (("item", obj item) ∷ ("status", str "failed") ∷ ("error", str error) ∷ [])

success_item : Fields → List String → Fields
unfolding dict strs
success_item item tags =
    dict (("item", obj item) ∷ ("status", str "success") ∷ ("tags", arr (strs tags)) ∷ [])

is_true : Json → Bool
is_true (bool b) = b
is_true _ = false

module _ (py : Python) where
  tag_name : Json → String
  unfolding get_default
  tag_name (obj d) = strip (py_str py (get_default "name" (str "") d))
  tag_name v = strip (py_str py v)

  tag_names : Items → List String
  unfolding tag_name
  tag_names nil = []
  tag_names (cons v vs) =
      let name = tag_name v in
      let rest = tag_names vs in if is_empty name then rest else name ∷ rest

  with_tags : Fields → Json → Fields
  unfolding success_item failed_item tag_names
  with_tags item (arr vs) = success_item item (tag_names vs)
  with_tags item _ = failed_item item "tagger response tags is not a list"

  -- `value or default`
  or_else : Json → String → Json
  or_else v default = if truthy py v then v else str default

  with_error : Fields → Fields → Fields
  unfolding failed_item or_else
  with_error item d =
      let error_type = strip (py_str py (or_else (get "error_type" d) "")) in
      let error = py_str py (or_else (get "error" d) "unknown tagger error") in
      failed_item item (if is_empty error_type then error else error_type <> ": " <> error)

  unfoldable pub normalize_batch_result : Fields → Json → Fields
  unfolding with_tags with_error failed_item is_true get get_default
  normalize_batch_result item (obj d) =
      if is_true (get "success" d)
      then with_tags item (get_default "tags" (arr nil) d)
      else with_error item d
  normalize_batch_result item _ = failed_item item "invalid tagger response item"

module _ (py : Python) (fs : FileSystem) where
  -- `none` also stands for a path that is blank.
  text_path : Option String → Option String
  text_path none = none
  text_path (some s) = if is_empty (strip s) then none else some (fs.resolve (fs.expand (strip s)))

  unfoldable pub extract_result_image_path : Json → Option String
  unfolding text_path as_str
  extract_result_image_path (obj d) = text_path (as_str (get "image_path" d))
  extract_result_image_path _ = none

  source_path : Fields → String
  unfolding get_default
  source_path item = fs.expand (py_str py (get_default "image_path" (str "") item))

  -- Why an item is not sent; `none` if it is.
  unfoldable pub pre_failure : Fields → Option Fields
  unfolding source_path failed_item
  pre_failure item =
      if not (fs.exists (source_path item))
      then some (failed_item item ("image not found: " <> source_path item))
      else if not (fs.is_file (source_path item))
      then some (failed_item item ("path is not a file: " <> source_path item))
      else none

  unfoldable pub pre_failures : List Fields → List Fields
  pre_failures [] = []
  pre_failures (item ∷ items) =
      let rest = pre_failures items in
      elim (pre_failure item) [ none ↦ rest | some failure ↦ failure ∷ rest ]

  unfoldable pub ready_items : List Fields → List Fields
  ready_items [] = []
  ready_items (item ∷ items) =
      let rest = ready_items items in
      elim (pre_failure item) [ none ↦ item ∷ rest | some failure ↦ rest ]

  unfoldable pub request_path : Fields → String
  unfolding source_path
  request_path item = fs.resolve (source_path item)

  -- The results that name their image, newest first, and those that do not, in their order.
  named_results : Items → List (String × Json) → List (String × Json)
  named_results nil named = named
  named_results (cons v vs) named = elim (extract_result_image_path v) [
    | none ↦ named_results vs named
    | some p ↦ if is_empty p then named_results vs named else named_results vs ((p, v) ∷ named)
  ]

  unnamed_results : Items → List Json
  unnamed_results nil = []
  unnamed_results (cons v vs) =
      let rest = unnamed_results vs in
      elim (extract_result_image_path v) [
        | none ↦ v ∷ rest
        | some p ↦ if is_empty p then v ∷ rest else rest
      ]

  find_named : String → List (String × Json) → Option Json
  find_named p [] = none
  find_named p ((q, v) ∷ named) = if str_eq p q then some v else find_named p named

  -- A null stands for no result.
  result_of : Fields → Json → Fields
  unfolding failed_item
  result_of item null = failed_item item "missing result from tagger service"
  result_of item v = normalize_batch_result py item v

  -- An item without a named result takes the next unnamed one, while there is one.
  unfoldable pub pair_results : List (String × Json) → List Json → List Fields → List Fields
  unfolding result_of find_named
  pair_results named unnamed [] = []
  pair_results named unnamed (item ∷ items) = elim (find_named (request_path item) named) [
    | some v ↦ result_of item v ∷ pair_results named unnamed items
    | none ↦ elim unnamed [
      | [] ↦ result_of item null ∷ pair_results named [] items
      | v ∷ vs ↦ result_of item v ∷ pair_results named vs items
    ]
  ]

  results_of : List Fields → Json → Result BatchError (List Fields)
  unfolding pair_results named_results unnamed_results
  results_of items (arr vs) = ok (pair_results (named_results vs []) (unnamed_results vs) items)
  results_of items _ = err no_results

  -- `client` sends the request's payload to the tagger.
  send_ready :
      Settings
      → (String → Option Json)
      → (Fields → Reply)
      → List Fields
      → List Fields
      → Result BatchError (List Fields)
  unfolding results_of
  send_ready settings loads client failures [] = ok failures
  send_ready settings loads client failures (item ∷ items) = do
    let paths = map request_path (item ∷ items)
    body ← post_tagger_batch loads (client (build_tagger_request_payload settings paths))
    results ← results_of (item ∷ items) (get "results" body)
    ok (failures ++ results)

  unfoldable pub run_http_tagger_batch :
      Option String
      → Settings
      → (String → Option Json)
      → (Fields → Reply)
      → List Fields
      → Result BatchError (List Fields)
  unfolding send_ready pre_failures ready_items
  run_http_tagger_batch none settings loads client items = err no_base_url
  run_http_tagger_batch (some url) settings loads client items =
      if is_empty url
      then err no_base_url
      else send_ready settings loads client (pre_failures items) (ready_items items)
