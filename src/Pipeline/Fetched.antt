-- ===== src/Pipeline/Fetched.antt =====
-- What a download and a refresh change: only the images, and none of their ids.
use data_assistant.Pipeline.Parts.{refresh_trace_payload, error_text}
use data_assistant.Napcat.Refresh.{RefreshResult, is_probably_expired_url_error}
use data_assistant.Base.Text.{Python}
use data_assistant.Base.{
  none, length, Option, refl, true, false, if◌then◌else◌, String, Bool, ◌≡◌, ℕ, some,
}
use data_assistant.Base.Result.{err, ok, Result}
use data_assistant.Contract.{Codec}
use data_assistant.Download.Retry.{DownloadedImage, DownloadError}
use data_assistant.Images.{set_trace, update_image_refresh_trace, Images}
use data_assistant.Images.Rows.{ids, ids-update_image}
use data_assistant.Pipeline.Image.{
  after_refresh, is_nil, refresh, fetch_after, Fetch, trace_refresh, unless_fault, Job, Faults,
  Settings, Services, World,
}

-- Only the images change, and none of the ids.
abbrev pub Traced : ℕ → World → World → Type 0
Traced id w w' =
    (w' ≡ record w { images = w'.images }) × (ids id w'.images.rows ≡ ids id w.images.rows)

module _ (py : Python) (c : Codec) (sv : Services) (settings : Settings) (faults : Faults)
    (job : Job) where
  unless_fault-same :
      (b : Bool) (f : Images → Images) (w : World)
      → ((t : Images) → ids job.image_id (f t).rows ≡ ids job.image_id t.rows)
      → Traced job.image_id w (unless_fault b f w)
  unfolding unless_fault
  unless_fault-same true f w keep = (refl, refl)
  unless_fault-same false f w keep = (refl, keep w.images)

  trace_refresh-Traced :
      (b : Bool) (w w' : World)
      → Traced job.image_id w w'
      → Traced job.image_id w (if b then w else w')
  trace_refresh-Traced true w w' h = (refl, refl)
  trace_refresh-Traced false w w' h = h

  split-Traced :
      (b : Bool) (w : World) (x y : Fetch × World)
      → Traced job.image_id w x.1
      → Traced job.image_id w y.1
      → Traced job.image_id w (if b then x else y).1
  split-Traced true w x y h k = h
  split-Traced false w x y h k = k

  refreshed-Traced :
      (result : RefreshResult) (w : World)
      → Traced job.image_id w (trace_refresh py sv settings faults job result w)
  unfolding trace_refresh update_image_refresh_trace set_trace
  refreshed-Traced result w =
      trace_refresh-Traced (is_nil py sv settings faults job result.attempts) w _ (
        unless_fault-same faults.update_trace
          (update_image_refresh_trace job.image_id (length result.attempts)
            (refresh_trace_payload result))
          w
          (λ t.
            ids-update_image job.image_id job.image_id
              (set_trace (length result.attempts) (refresh_trace_payload result)) t.rows
              (λ row. refl)))

  after_refresh-Traced :
      (e : DownloadError) (url : String) (result : Option RefreshResult) (w : World)
      → Traced job.image_id w (after_refresh py sv settings faults job e url result w).1
  unfolding after_refresh
  after_refresh-Traced e url none w = (refl, refl)
  after_refresh-Traced e url (some result) w = refreshed-Traced result w

  pub fetch_after-Traced :
      (o : Result DownloadError (DownloadedImage × ℕ)) (url : String) (w : World)
      → Traced job.image_id w (fetch_after py sv settings faults job o url w).1
  unfolding fetch_after
  fetch_after-Traced (ok (downloaded, attempts)) url w = (refl, refl)
  fetch_after-Traced (err e) url w =
      split-Traced (is_probably_expired_url_error py sv.is_in (error_text py e)) w _ _
        (after_refresh-Traced e url (refresh py sv settings faults job) w) (refl, refl)
