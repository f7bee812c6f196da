-- ===== src/Pipeline/Parts.antt =====
-- The helpers at the top of pipeline.py, and the texts and lines that it writes.
use data_assistant.Images.{Transfer, ImageColumns}
use data_assistant.Napcat.Refresh.{RefreshResult, RefreshAttempt}
use data_assistant.Napcat.Event.{ImageSegment}
use data_assistant.Base.Json.{
  bool, arr, end, pos, obj, int, str, Fields, null, items_of, get, Json, dict,
}
use data_assistant.Download.Retry.{DownloadError}
use data_assistant.Base.{
  map, [], max, ◌∷◌, ◌||◌, str_eq, none, ltb, if◌then◌else◌, ◌<>◌, some, String, Option, ℕ,
}
use data_assistant.Base.Text.{strip, is_empty, Python}

unfoldable pub attempts_from_error : DownloadError → ℕ → ℕ
attempts_from_error e default = if ltb 0 e.attempts then e.attempts else max 1 default

-- A text, or null.
unfoldable pub or_null : Option String → Json
or_null none = null
or_null (some s) = str s

unfoldable pub attempt_json : RefreshAttempt → Json
unfolding dict or_null
attempt_json attempt = obj (
    dict (
      ("action", str attempt.action)
      ∷ ("params", obj attempt.params)
      ∷ ("ok", bool attempt.ok)
      ∷ ("detail", str attempt.detail)
      ∷ ("url", or_null attempt.url)
      ∷ []))

unfoldable pub refresh_trace_payload : RefreshResult → Json
unfolding dict or_null items_of attempt_json
refresh_trace_payload result = obj (
    dict (
      ("url", or_null result.url)
      ∷ ("final_phase", str result.final_phase)
      ∷ ("error", or_null result.error)
      ∷ ("attempts", arr (items_of (map attempt_json result.attempts)))
      ∷ []))

-- The trace of a refresh, or null if there was none.
unfoldable pub trace_or_null : Option RefreshResult → Json
unfolding refresh_trace_payload
trace_or_null none = null
trace_or_null (some result) = refresh_trace_payload result

-- `_build_failure_error`, of the text of an exception.
unfoldable pub build_failure_error : (Json → String) → String → Option RefreshResult → String
unfolding dict refresh_trace_payload
build_failure_error dumps error none = error
build_failure_error dumps error (some result) =
    dumps (obj (dict (("error", str error) ∷ ("refresh", refresh_trace_payload result) ∷ [])))

as_dict_or_empty : Json → Fields
as_dict_or_empty (obj d) = d
as_dict_or_empty _ = end

phase_of : Json → Option String
phase_of (str s) =
    if str_eq s "stream" || str_eq s "response" || str_eq s "error" then some s else none
phase_of _ = none

data_type_of : Json → Option String
data_type_of (str s) = if is_empty (strip s) then none else some (strip s)
data_type_of _ = none

-- `_derive_stream_state`
unfoldable pub derive_stream_state : Fields → Transfer
unfolding as_dict_or_empty phase_of data_type_of get
derive_stream_state segment =
    let fields = as_dict_or_empty (get "data" segment) in
    let phase = phase_of (get "type" fields) in
    record {
      transfer_mode = elim phase [ some s ↦ "stream" | none ↦ "normal" ];
      stream_phase = phase;
      stream_data_type = data_type_of (get "data_type" fields);
    }

-- The text of a `DownloadError`.
unfoldable pub error_text : Python → DownloadError → String
error_text py e =
    "download failed after " <> py.text_of (int (pos e.attempts)) <> " attempts: " <> e.last_error

-- An empty text counts as none.
unfoldable pub full_text : Option String → Option String
full_text none = none
full_text (some s) = if is_empty s then none else some s

-- `a or b`
unfoldable pub or_text : Option String → Option String → Option String
unfolding full_text
or_text a b = elim (full_text a) [ some s ↦ some s | none ↦ full_text b ]

unfoldable pub text_or : String → Option String → String
unfolding full_text
text_or default o = elim (full_text o) [ some s ↦ s | none ↦ default ]

-- The columns of a segment; `none` if one of its values is no text, which the driver refuses.
unfoldable pub text_column : Option Json → Option (Option String)
text_column none = some none
text_column (some (str s)) = some (some s)
text_column (some _) = none

unfoldable pub image_columns : ℕ → ImageSegment → Option ImageColumns
unfolding text_column
image_columns event_id image = elim (text_column image.url_raw) [
  | none ↦ none
  | some url_raw ↦ elim (text_column image.url_decoded) [
    | none ↦ none
    | some url_decoded ↦ elim (text_column image.file_name) [
      | none ↦ none
      | some file_name ↦ elim (text_column image.summary) [
        | none ↦ none
        | some summary ↦ some (record {
          event_id = event_id;
          seq = image.seq;
          url_raw = url_raw;
          url_decoded = url_decoded;
          file_name = file_name;
          sub_type = image.sub_type;
          file_size = image.file_size;
          summary = summary;
        })
      ]
    ]
  ]
]
