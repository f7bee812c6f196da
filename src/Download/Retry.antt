-- ===== src/Download/Retry.antt =====
-- downloader.py: one request, and the loop that repeats it. What the HTTP client answers to each
-- attempt is a parameter, as is the text of the exception that it raises for a status.
pub mod Attempts
use data_assistant.Base.Result.{err, ok, Result}
use data_assistant.Base.Json.{pos, ℤ}
use data_assistant.Base.{
  ◌-◌, zero, leb, suc, length, if◌then◌else◌, max, none, some, List, ℕ, Option, String,
}
use data_assistant.Base.Text.{converted, Converted}

-- The bytes of a body.
abbrev pub Body : Type 0
Body = List ℕ

pub record DownloadedImage : Type 0 where
  pub body : Body
  pub content_type : Option String
  pub content_length : Option ℤ

-- A response with its headers, or the text of an exception.
pub data Answer : Type 0 where
  response : ℕ → Body → Option String → Option String → Answer
  raised : String → Answer

pub record FetchError : Type 0 where
  pub text : String
  pub status_code : Option ℕ

pub record DownloadError : Type 0 where
  pub attempts : ℕ
  pub last_error : String
  pub status_code : Option ℕ

int_or_none : Converted → Option ℤ
int_or_none (converted n) = some n
int_or_none _ = none

-- The length that the header gives, or else that of the body.
content_length_of : (String → Converted) → Option String → Body → Option ℤ
unfolding int_or_none
content_length_of to_int none body = some (pos (length body))
content_length_of to_int (some raw) body = elim (int_or_none (to_int raw)) [
  | some n ↦ some n
  | none ↦ some (pos (length body))
]

or_status : Option ℕ → Option ℕ → Option ℕ
or_status none old = old
or_status (some status) old = some status

module _ (to_int : String → Converted) (status_text : ℕ → String) where
  -- `_download_image`, from the answer on.
  unfoldable pub download_image : Answer → Result FetchError DownloadedImage
  unfolding content_length_of
  download_image (raised text) = err (record { text = text; status_code = none })
  download_image (response status body content_type content_length) =
      if leb 400 status
      then err (record { text = status_text status; status_code = some status })
      else ok (record {
        body = body;
        content_type = content_type;
        content_length = content_length_of to_int content_length body;
      })

  -- The loop from an attempt on, with the number of attempts that may follow it.
  unfoldable pub retry :
      (ℕ → Answer) → Option ℕ → ℕ → ℕ → Result DownloadError (DownloadedImage × ℕ)
  unfolding or_status
  retry get status_code attempt zero = elim (download_image (get attempt)) [
    | ok downloaded ↦ ok (downloaded, attempt)
    | err e ↦ err (record {
      attempts = attempt;
      last_error = e.text;
      status_code = or_status e.status_code status_code;
    })
  ]
  retry get status_code attempt (suc more) = elim (download_image (get attempt)) [
    | ok downloaded ↦ ok (downloaded, attempt)
    | err e ↦ retry get (or_status e.status_code status_code) (suc attempt) more
  ]

  -- There are `max(1, retry_count)` attempts.
  unfoldable pub download_image_with_retry :
      ℕ → (ℕ → Answer) → Result DownloadError (DownloadedImage × ℕ)
  unfolding retry
  download_image_with_retry retry_count get = retry get none 1 (max 1 retry_count - 1)
