-- ===== src/Napcat/Refresh/Traced.antt =====
-- What the result of a refresh tells, and its list of attempts.
use data_assistant.Outbox.Rows.{map_option}
use data_assistant.Napcat.Search.{extract_file_id}
use data_assistant.Base.Result.{ok, err, Result}
use data_assistant.Base.Json.{get, Fields}
use data_assistant.Base.Text.{strip, Python}
use data_assistant.Napcat.Refresh.{
  is_action_ok, params_candidates, or_found, failed_attempt, try_actions, refresh_image_url,
  response_attempt, Tried, try_action, RefreshAttempt, Channel, RefreshResult,
}
use data_assistant.Base.{Bool, ℕ, [], ◌++◌, ◌∷◌, none, ◌≡◌, some, String, Option, List, refl}

-- The last attempt has the URL.
abbrev pub EndsWith : List RefreshAttempt → Option String → Type 0
EndsWith attempts none = Unit
EndsWith attempts (some url) =
    (earlier : List RefreshAttempt) × (last : RefreshAttempt) × (attempts ≡ earlier ++ last ∷ [])
    × (last.url ≡ some url)

-- With a URL, the result is a response without an error, and the last attempt has the URL; without
-- one, it is an error.
abbrev pub IsTraced : RefreshResult → Option String → Type 0
IsTraced r none = r.final_phase ≡ "error"
IsTraced r (some url) =
    (r.final_phase ≡ "response") × (r.error ≡ none) × EndsWith r.attempts (some url)

module _ (py : Python) where
  -- The tries do not raise, or they end with the URL.
  abbrev Ends : Option (Tried py) → Type 0
  Ends none = Unit
  Ends (some t) = EndsWith t.attempts t.url

  module _ (call : Channel) (action : String) where
    abbrev Tries : List Fields → Type 0
    Tries candidates = (t : Tried py) → Ends (try_action py call action candidates t)

    after_response :
        (attempt : RefreshAttempt) (candidates : List Fields) (t t' : Tried py)
        (url : Option String)
        → Tries candidates
        → t'.attempts ≡ t.attempts ++ attempt ∷ []
        → t'.url ≡ url
        → attempt.url ≡ url
        → Ends (elim url [ some u ↦ some t' | none ↦ try_action py call action candidates t' ])
    after_response attempt candidates t t' (some u) rest a b c = rw b (t.attempts, attempt, a, c)
    after_response attempt candidates t t' none rest a b c = rest t'

    try_action-Ends : (candidates : List Fields) → Tries candidates
    unfolding try_action
    try_action-Ends [] t = tt
    try_action-Ends (params ∷ candidates) t =
        of_answer (call action params) (try_action-Ends candidates)
      where
        of_test :
            (response : Fields)
            → Tries candidates
            → (o : Option Bool)
            → Ends (elim o [
              | none ↦ none
              | some is_ok ↦
                  let attempt = response_attempt py action params response is_ok in
                  let t' : Tried py = record {
                    attempts = t.attempts ++ attempt ∷ [];
                    url = attempt.url;
                    file_id = extract_file_id py (get "data" response);
                  } in
                  elim attempt.url [
                    | some url ↦ some t'
                    | none ↦ try_action py call action candidates t'
                  ]
            ])
        of_test response rest none = tt
        of_test response rest (some is_ok) =
            after_response (response_attempt py action params response is_ok) candidates t _ _ rest
              refl refl refl

        of_answer :
            (o : Result String Fields)
            → Tries candidates
            → Ends (elim o [
              | err e ↦
                  try_action py call action candidates
                    (record t { attempts = t.attempts ++ failed_attempt py action params e ∷ [] })
              | ok response ↦ elim (is_action_ok py response) [
                | none ↦ none
                | some is_ok ↦
                    let attempt = response_attempt py action params response is_ok in
                    let t' : Tried py = record {
                      attempts = t.attempts ++ attempt ∷ [];
                      url = attempt.url;
                      file_id = extract_file_id py (get "data" response);
                    } in
                    elim attempt.url [
                      | some url ↦ some t'
                      | none ↦ try_action py call action candidates t'
                    ]
              ]
            ])
        of_answer (err e) rest = rest _
        of_answer (ok response) rest = of_test response rest (is_action_ok py response)

  abbrev pub Traced : Option RefreshResult → Type 0
  Traced none = Unit
  Traced (some r) = IsTraced r r.url

  module _ (call : Channel) (number_of : String → Option ℕ) (message_id : Option String) where
    abbrev AllTraced : List String → Type 0
    AllTraced actions =
        (file_id : Option String) (attempts : List RefreshAttempt)
        → Traced (try_actions py call number_of message_id actions file_id attempts)

    after_url :
        (actions : List String) (file_id url : Option String) (t : Tried py)
        → AllTraced actions
        → EndsWith t.attempts url
        → Traced (elim url [
          | some url ↦ some (record {
            url = some url;
            attempts = t.attempts;
            final_phase = "response";
            error = none;
          })
          | none ↦
              try_actions py call number_of message_id actions
                (or_found py t.file_id file_id)
                t.attempts
        ])
    after_url actions file_id (some u) t rest e = (refl, refl, e)
    after_url actions file_id none t rest e = rest _ _

    after_action :
        (actions : List String) (file_id : Option String) (o : Option (Tried py))
        → AllTraced actions
        → Ends o
        → Traced (elim o [
          | none ↦ none
          | some t ↦ elim t.url [
            | some url ↦ some (record {
              url = some url;
              attempts = t.attempts;
              final_phase = "response";
              error = none;
            })
            | none ↦
                try_actions py call number_of message_id actions
                  (or_found py t.file_id file_id)
                  t.attempts
          ]
        ])
    after_action actions file_id none rest e = tt
    after_action actions file_id (some t) rest e = after_url actions file_id t.url t rest e

    try_actions-Traced : (actions : List String) → AllTraced actions
    unfolding try_actions
    try_actions-Traced [] file_id attempts = refl
    try_actions-Traced (action ∷ actions) file_id attempts =
        of_candidates (params_candidates py number_of message_id file_id action)
          (try_actions-Traced actions)
      where
        of_candidates :
            (o : Option (List Fields))
            → AllTraced actions
            → Traced (elim o [
              | none ↦ try_actions py call number_of message_id actions file_id attempts
              | some candidates ↦
                  elim (try_action py call action candidates
                    (record { attempts = attempts; url = none; file_id = none })) [
                      | none ↦ none
                      | some t ↦ elim t.url [
                        | some url ↦ some (record {
                          url = some url;
                          attempts = t.attempts;
                          final_phase = "response";
                          error = none;
                        })
                        | none ↦
                            try_actions py call number_of message_id actions
                              (or_found py t.file_id file_id)
                              t.attempts
                      ]
                    ]
            ])
        of_candidates none rest = rest file_id attempts
        of_candidates (some candidates) rest =
            after_action actions file_id
              (try_action py call action candidates
                (record { attempts = attempts; url = none; file_id = none }))
              rest
              (try_action-Ends call action candidates
                (record { attempts = attempts; url = none; file_id = none }))

  -- Unless a response makes it raise, a refresh that gives a URL is a response without an error, and the
  -- URL is that of its last attempt; one that gives none is an error.
  pub refresh_image_url-Traced :
      (client : Option Channel) (number_of : String → Option ℕ) (message_id file_id : Option String)
      → Traced (refresh_image_url py client number_of message_id file_id)
  unfolding refresh_image_url
  refresh_image_url-Traced none number_of message_id file_id = refl
  refresh_image_url-Traced (some call) number_of message_id file_id =
      try_actions-Traced call number_of message_id
        ("nc_get_rkey" ∷ "get_image" ∷ "get_file" ∷ "get_msg" ∷ []) (map_option strip file_id) []
