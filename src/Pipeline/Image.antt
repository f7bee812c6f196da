-- ===== src/Pipeline/Image.antt =====
-- The state that the pipeline changes, the services it calls, and the first half of
use data_assistant.Outbox.Relay.{Message}
use data_assistant.Outbox.Table.{Table}
use data_assistant.Outbox.HandOver.{Chance}
use data_assistant.Base.Result.{err, ok, Result}
use data_assistant.Napcat.Refresh.{
  is_probably_expired_url_error, Channel, RefreshAttempt, RefreshResult, refresh_image_url,
}
use data_assistant.Pipeline.Parts.{
  trace_or_null, refresh_trace_payload, build_failure_error, or_null, attempts_from_error,
  error_text,
}
use data_assistant.Napcat.Event.{OneBotEvent}
use data_assistant.Base.Json.{pos, int, str, Json, dict, Fields}
use data_assistant.Images.{
  Transfer, Metadata, ImageColumns, update_image_download_failure, update_image_refresh_trace,
  Images,
}
use data_assistant.Base.Text.{Python}
use data_assistant.Download.Retry.{
  DownloadError, Body, download_image_with_retry, Answer, DownloadedImage,
}
use data_assistant.Base.{
  some, false, ◌+◌, none, true, length, [], ◌∷◌, Option, ◌++◌, List, if◌then◌else◌, String, Bool, ℕ,
}

-- `_process_image`: the download of an image, with a refresh of its URL if that has expired.
-- Lines of the audit file are taken to be written.

-- What becomes of an image.
pub data ImageOutcome : Type 0 where
  insert_failed failed duplicate db_update_failed saved : ImageOutcome

-- The metrics count an outcome and a transfer mode.
pub record World : Type 0 where
  pub images : Images
  pub files : List (String × Body)
  pub outbox : Table
  pub bus : List Message
  pub audit : List Fields
  pub metrics : List (ImageOutcome × String)

-- The HTTP client's answer to an attempt of the first or the second download of a URL, the action
-- channel of NapCat, and what libraries compute.
pub record Services : Type 0 where
  pub is_in : String → String → Bool
  pub status_text : ℕ → String
  pub get : ℕ → String → ℕ → Answer
  pub client : Option Channel
  pub number_of : String → Option ℕ
  pub sha256 : Body → String
  pub pillow : Body → Metadata
  pub url_name : String → String
  pub join : String → String → String
  pub dumps : Json → String
  pub jsonb : Fields → String

pub record Settings : Type 0 where
  pub retry_count : ℕ
  pub save_root : String
  pub subject : String

-- Which calls of the database raise, and the texts of what the last update and the writing of the
-- file raise.
pub record Faults : Type 0 where
  pub insert_image : Bool
  pub update_trace : Bool
  pub update_failure : Bool
  pub select : Bool
  pub update_duplicate : Bool
  pub update_success : Option String
  pub write_file : Option String
  pub hand_over : Chance

-- What is fixed while an image is processed.
pub record Job : Type 0 where
  pub event_id : ℕ
  pub image_id : ℕ
  pub event : OneBotEvent
  pub columns : ImageColumns
  pub transfer : Transfer
  pub now : ℕ
  pub logged_at : String
  pub ts : String

-- An image that was fetched, after so many attempts, from a URL, perhaps after a refresh; or why it
-- was not, and the phase to record; or the refresh raised.
pub data Fetch : Type 0 where
  got : DownloadedImage → ℕ → String → Option RefreshResult → Fetch
  lost : String → ℕ → String → Option RefreshResult → Option String → Fetch
  crashed : Fetch

unfoldable pub count_metric : ImageOutcome → String → World → World
count_metric outcome transfer_mode w = record w {
  metrics = w.metrics ++ (outcome, transfer_mode) ∷ [];
}

unfoldable pub audit_line : Fields → World → World
audit_line line w = record w { audit = w.audit ++ line ∷ [] }

-- A statement on the images, unless it raises.
unfoldable pub unless_fault : Bool → (Images → Images) → World → World
unless_fault fault f w = if fault then w else record w { images = f w.images }

module _ (py : Python) (sv : Services) (settings : Settings) (faults : Faults) (job : Job) where
  unfoldable pub failed_line : String → ℕ → Option String → Option RefreshResult → Fields
  unfolding dict or_null trace_or_null
  failed_line error attempts url refresh = dict (
      ("logged_at", str job.logged_at)
      ∷ ("event_id", int (pos job.event_id))
      ∷ ("image_id", int (pos job.image_id))
      ∷ ("seq", int (pos job.columns.seq))
      ∷ ("url", or_null url)
      ∷ ("status", str "failed")
      ∷ ("error", str error)
      ∷ ("download_attempt", int (pos attempts))
      ∷ ("refresh", trace_or_null refresh)
      ∷ [])

  -- `_mark_failed`
  unfoldable pub mark_failed :
      String → ℕ → Option String → Option RefreshResult → Option String → World → World
  unfolding failed_line unless_fault update_image_download_failure audit_line count_metric
  mark_failed error attempts url refresh phase w = count_metric failed job.transfer.transfer_mode (
      audit_line (failed_line error attempts url refresh) (
        unless_fault faults.update_failure
          (update_image_download_failure job.image_id error attempts
            (record job.transfer { stream_phase = phase }))
          w))

  unfoldable pub is_nil : List RefreshAttempt → Bool
  is_nil [] = true
  is_nil (attempt ∷ attempts) = false

  unfoldable pub trace_refresh : RefreshResult → World → World
  unfolding is_nil unless_fault update_image_refresh_trace refresh_trace_payload
  trace_refresh result w =
      if is_nil result.attempts
      then w
      else unless_fault faults.update_trace
          (update_image_refresh_trace job.image_id (length result.attempts)
            (refresh_trace_payload result))
          w

  unfoldable pub download : ℕ → String → Result DownloadError (DownloadedImage × ℕ)
  unfolding download_image_with_retry
  download round url =
      download_image_with_retry py.int_of_text sv.status_text settings.retry_count
        (sv.get round url)

  unfoldable pub second_fetch : RefreshResult → ℕ → String → Fetch
  unfolding download attempts_from_error build_failure_error error_text
  second_fetch result total url = elim (download 1 url) [
    | ok (downloaded, attempts) ↦ got downloaded (total + attempts) url (some result)
    | err e ↦
        lost (build_failure_error sv.dumps (error_text py e) (some result))
          (total + attempts_from_error e settings.retry_count) url (some result)
          (some result.final_phase)
  ]

  unfoldable pub refreshed_fetch : DownloadError → String → RefreshResult → Fetch
  unfolding second_fetch attempts_from_error build_failure_error error_text
  refreshed_fetch e url result = elim result.url [
    | none ↦
        lost (build_failure_error sv.dumps (error_text py e) (some result))
          (attempts_from_error e settings.retry_count) url (some result) (some result.final_phase)
    | some url' ↦ second_fetch result (attempts_from_error e settings.retry_count) url'
  ]

  unfoldable pub refresh : Option RefreshResult
  unfolding refresh_image_url
  refresh = refresh_image_url py sv.client sv.number_of job.event.message_id job.columns.file_name

  unfoldable pub after_refresh :
      DownloadError → String → Option RefreshResult → World → Fetch × World
  unfolding refreshed_fetch trace_refresh
  after_refresh e url none w = (crashed, w)
  after_refresh e url (some result) w = (refreshed_fetch e url result, trace_refresh result w)

  -- After the first download: if its error looks like an expired URL, the refresh and the second.
  unfoldable pub fetch_after :
      Result DownloadError (DownloadedImage × ℕ) → String → World → Fetch × World
  unfolding after_refresh refresh error_text attempts_from_error
  fetch_after (ok (downloaded, attempts)) url w = (got downloaded attempts url none, w)
  fetch_after (err e) url w =
      if is_probably_expired_url_error py sv.is_in (error_text py e)
      then after_refresh e url refresh w
      else (
        lost (error_text py e) (attempts_from_error e settings.retry_count) url none
            job.transfer.stream_phase,
        w,
      )

  unfoldable pub fetch_image : String → World → Fetch × World
  unfolding download fetch_after
  fetch_image url w = fetch_after (download 0 url) url w
