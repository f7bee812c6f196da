-- ===== src/Napcat/Refresh.antt =====
-- The refresh of an image URL, handler.py. `call` is `OneBotActionClient.call_action`: a response,
-- or the text of what it raised. `number_of` reads the digits of a message id.
pub mod Traced
use data_assistant.Outbox.Rows.{map_option}
use data_assistant.Base.Result.{ok, err, Result}
use data_assistant.Base.Json.{
  obj, arr, float, bool, str, pos, end, int, get_default, Fields, dict, get, Json,
}
use data_assistant.Base.{
  zero, not, ◌++◌, true, ◌||◌, [], str_eq, if◌then◌else◌, ◌∷◌, false, ◌<>◌, none, Bool, some, List,
  ℕ, String, Option,
}
use data_assistant.Base.Text.{strip, is_empty, py_str, Python}
use data_assistant.Napcat.Search.{extract_first_http_url, extract_file_id}

pub record RefreshAttempt : Type 0 where
  pub action : String
  pub params : Fields
  pub ok : Bool
  pub detail : String
  pub url : Option String

pub record RefreshResult : Type 0 where
  pub url : Option String
  pub attempts : List RefreshAttempt
  pub final_phase : String
  pub error : Option String

abbrev pub Channel : Type 0
Channel = String → Fields → Result String Fields

contains_any : (String → Bool) → List String → Bool
contains_any has [] = false
contains_any has (k ∷ ks) = has k || contains_any has ks

module _ (py : Python) where
  -- `v in {0, "0"}`, which raises for a list or a dictionary.
  is_zero : Json → Option Bool
  is_zero (int (pos zero)) = some true
  is_zero (bool b) = some (not b)
  is_zero (float s) = some (not (py.float_nonzero s))
  is_zero (str s) = some (str_eq s "0")
  is_zero (arr vs) = none
  is_zero (obj d) = none
  is_zero _ = some false

  -- `is_in text keyword` is `keyword in text`.
  unfoldable pub is_probably_expired_url_error : (String → String → Bool) → String → Bool
  unfolding contains_any
  is_probably_expired_url_error is_in error = contains_any (is_in (py.lower error)) (
      "expire" ∷ "expired" ∷ "rkey" ∷ "forbidden" ∷ "signature" ∷ "access denied" ∷ "status=401"
      ∷ "status=403" ∷ "status 401" ∷ "status 403" ∷ "status=410" ∷ "status 410" ∷ [])

  unfoldable pub is_action_ok : Fields → Option Bool
  unfolding get get_default is_zero
  is_action_ok response =
      let status = py.lower (py_str py (get_default "status" (str "") response)) in
      if str_eq status "ok" || str_eq status "success"
      then some true
      else is_zero (get "retcode" response)

  -- The attempts so far, the URL if one was found, and the file id of the last response.
  pub record Tried : Type 0 where
    pub attempts : List RefreshAttempt
    pub url : Option String
    pub file_id : Option String

  failed_attempt : String → Fields → String → RefreshAttempt
  failed_attempt action params detail = record {
    action = action;
    params = params;
    ok = false;
    detail = detail;
    url = none;
  }

  response_attempt : String → Fields → Fields → Bool → RefreshAttempt
  response_attempt action params response is_ok = record {
    action = action;
    params = params;
    ok = is_ok;
    detail =
        "status="
        <> py_str py (get "status" response)
        <> " retcode="
        <> py_str py (get "retcode" response);
    url = extract_first_http_url py (get "data" response);
  }

  -- `_try_action`: the candidates in turn, until a response has a URL; `none` if a response raises.
  unfoldable pub try_action : Channel → String → List Fields → Tried → Option Tried
  unfolding failed_attempt response_attempt is_action_ok
  try_action call action [] t = some (record t { url = none })
  try_action call action (params ∷ candidates) t = elim (call action params) [
    | err e ↦
        try_action call action candidates
          (record t { attempts = t.attempts ++ failed_attempt action params e ∷ [] })
    | ok response ↦ elim (is_action_ok response) [
      | none ↦ none
      | some is_ok ↦
          let attempt = response_attempt action params response is_ok in
          let t' : Tried = record {
            attempts = t.attempts ++ attempt ∷ [];
            url = attempt.url;
            file_id = extract_file_id py (get "data" response);
          } in
          elim attempt.url [ some url ↦ some t' | none ↦ try_action call action candidates t' ]
    ]
  ]

  message_params : (String → Option ℕ) → String → Fields
  unfolding dict
  message_params number_of id = elim (number_of id) [
    | some n ↦ dict (("message_id", int (pos n)) ∷ [])
    | none ↦ dict (("message_id", str id) ∷ [])
  ]

  file_params : Option String → List Fields
  unfolding dict
  file_params none = end ∷ []
  file_params (some id) =
      if is_empty id
      then end ∷ []
      else dict (("file_id", str id) ∷ []) ∷ dict (("file", str id) ∷ []) ∷ []

  -- The candidates of an action; `none` skips it.
  params_candidates :
      (String → Option ℕ) → Option String → Option String → String → Option (List Fields)
  unfolding message_params file_params
  params_candidates number_of message_id file_id action =
      if str_eq action "get_msg"
      then elim message_id [
        | none ↦ none
        | some id ↦ if is_empty id then none else some (message_params number_of id ∷ [])
      ]
      else some (file_params file_id)

  or_found : Option String → Option String → Option String
  or_found none old = old
  or_found (some id) old = some id

  -- The loop over the actions.
  unfoldable pub try_actions :
      Channel
      → (String → Option ℕ)
      → Option String
      → List String
      → Option String
      → List RefreshAttempt
      → Option RefreshResult
  unfolding params_candidates try_action or_found
  try_actions call number_of message_id [] file_id attempts = some (record {
    url = none;
    attempts = attempts;
    final_phase = "error";
    error = some "refresh_chain_exhausted";
  })
  try_actions call number_of message_id (action ∷ actions) file_id attempts =
      elim (params_candidates number_of message_id file_id action) [
        | none ↦ try_actions call number_of message_id actions file_id attempts
        | some candidates ↦
            elim (try_action call action candidates
              (record { attempts = attempts; url = none; file_id = none })) [
                | none ↦ none
                | some t ↦ elim t.url [
                  | some url ↦ some (record {
                    url = some url;
                    attempts = t.attempts;
                    final_phase = "response";
                    error = none;
                  })
                  | none ↦
                      try_actions call number_of message_id actions (or_found t.file_id file_id)
                        t.attempts
                ]
              ]
      ]

  abbrev pub not_connected : RefreshResult
  not_connected = record {
    url = none;
    attempts =
        record {
          action = "connection";
          params = end;
          ok = false;
          detail = "NapCat action channel is not connected";
          url = none;
        }
        ∷ [];
    final_phase = "error";
    error = some "NapCat action channel is not connected";
  }

  unfoldable pub refresh_image_url :
      Option Channel → (String → Option ℕ) → Option String → Option String → Option RefreshResult
  unfolding try_actions
  refresh_image_url none number_of message_id file_id = some not_connected
  refresh_image_url (some call) number_of message_id file_id =
      try_actions call number_of message_id
        ("nc_get_rkey" ∷ "get_image" ∷ "get_file" ∷ "get_msg" ∷ []) (map_option strip file_id) []
