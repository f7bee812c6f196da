-- ===== src/Tests/Refreshing.antt =====
-- The theorem on the refresh of an image URL, applied to a client that answers the second action.
use data_assistant.Base.Text.{py_str, strip, is_empty}
use data_assistant.Base.Json.{nil, arr, str, dict}
use data_assistant.Base.Result.{err, ok}
use data_assistant.Tests.Inputs.{a_python}
use data_assistant.Napcat.Refresh.{refresh_image_url, Channel}
use data_assistant.Base.{refl, ◌≡◌, [], ◌∷◌, some, none, str_eq, ℕ, Option, if◌then◌else◌, String}
use data_assistant.Napcat.Refresh.Traced.{Traced, refresh_image_url-Traced}

a_channel : Channel
a_channel action params =
    if str_eq action "get_image"
    then ok (dict (("status", str "ok") ∷ ("data", str "http://new") ∷ []))
    else err "timeout"

no_number : String → Option ℕ
no_number _ = none

refresh_image_url-Traced_example :
    Traced a_python
      (refresh_image_url a_python (some a_channel) no_number (some "5") (some "f.png"))
refresh_image_url-Traced_example =
    refresh_image_url-Traced a_python (some a_channel) no_number (some "5") (some "f.png")

-- A retcode that is a list.
abbrev list_channel : Channel
list_channel action params = ok (dict (("retcode", arr nil) ∷ []))

raises_test : refresh_image_url a_python (some list_channel) no_number none (some "f.png") ≡ none
unfolding refresh_image_url is_empty strip py_str
raises_test = refl
