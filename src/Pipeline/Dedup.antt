-- ===== src/Pipeline/Dedup.antt =====
-- No two saved images have the same hash, whatever fails.
use data_assistant.Napcat.Event.{ImageSegment}
use data_assistant.Pipeline.Process.{
  process_stored, finish_image, after_insert, process_columns, process_url, process_image,
}
use data_assistant.Pipeline.Parts.{
  image_columns, derive_stream_state, text_or, or_text, refresh_trace_payload, error_text,
}
use mathlib.Core.Path.{subst}
use data_assistant.Base.Result.{err, ok, Result}
use data_assistant.Download.Retry.{DownloadedImage, DownloadError, Body}
use data_assistant.Base.Json.{obj, Json}
use data_assistant.Napcat.Refresh.{is_probably_expired_url_error, RefreshResult}
use data_assistant.Pipeline.Store.{
  write_file, saved_of, store_image, save_image, pass_on, record_duplicate, record_success,
}
use data_assistant.Images.{
  insert_image, ImageColumns, update_image_download_duplicate, update_image_refresh_trace,
  update_image_download_failure, has_saved, Saved, Images,
}
use data_assistant.Images.Rows.{
  insert_image-IsDeduplicated, success-IsDeduplicated, trace-IsDeduplicated,
  duplicate-IsDeduplicated, failure-IsDeduplicated, IsDeduplicated,
}
use data_assistant.Base.{
  refl, none, sym, length, some, if◌then◌else◌, max, ◌≡◌, ℕ, Option, String, false, true, Bool,
}
use data_assistant.Contract.{Codec}
use data_assistant.Pipeline.Image.{
  crashed, after_refresh, download, lost, fetch_image, got, fetch_after, Fetch, is_nil, refresh,
  trace_refresh, mark_failed, Job, Faults, Settings, Services, World, unless_fault,
}
use data_assistant.Base.Text.{Python}

abbrev pub Kept : World → Type 0
Kept w = IsDeduplicated w.images

unless_fault-Kept :
    (b : Bool) (f : Images → Images) (w : World)
    → (IsDeduplicated w.images → IsDeduplicated (f w.images))
    → Kept w
    → Kept (unless_fault b f w)
unfolding unless_fault
unless_fault-Kept true f w k h = h
unless_fault-Kept false f w k h = k h

split-Kept : (b : Bool) (x y : World) → Kept x → (b ≡ false → Kept y) → Kept (if b then x else y)
split-Kept true x y h k = h
split-Kept false x y h k = k refl

split_second-Kept :
    {A : Type 0} (b : Bool) (x y : A × World)
    → Kept x.1
    → (b ≡ false → Kept y.1)
    → Kept (if b then x else y).1
split_second-Kept true x y h k = h
split_second-Kept false x y h k = k refl

module _ (py : Python) (c : Codec) (sv : Services) (settings : Settings) (faults : Faults)
    (job : Job) where
  mark_failed-Kept :
      (error : String) (attempts : ℕ) (url : Option String) (refreshed : Option RefreshResult)
      (phase : Option String) (w : World)
      → Kept w
      → Kept (mark_failed py sv settings faults job error attempts url refreshed phase w)
  unfolding mark_failed
  mark_failed-Kept error attempts url refreshed phase w h =
      unless_fault-Kept faults.update_failure
        (update_image_download_failure job.image_id error attempts
          (record job.transfer { stream_phase = phase }))
        w
        (failure-IsDeduplicated job.image_id error attempts
          (record job.transfer { stream_phase = phase }) w.images)
        h

  trace_refresh-Kept :
      (result : RefreshResult) (w : World)
      → Kept w
      → Kept (trace_refresh py sv settings faults job result w)
  unfolding trace_refresh
  trace_refresh-Kept result w h =
      split-Kept (is_nil py sv settings faults job result.attempts) _ _ h (λ e.
        unless_fault-Kept faults.update_trace
          (update_image_refresh_trace job.image_id (length result.attempts)
            (refresh_trace_payload result))
          w
          (trace-IsDeduplicated job.image_id (length result.attempts) (refresh_trace_payload result)
            w.images)
          h)

  after_refresh-Kept :
      (e : DownloadError) (url : String) (result : Option RefreshResult) (w : World)
      → Kept w
      → Kept (after_refresh py sv settings faults job e url result w).1
  unfolding after_refresh
  after_refresh-Kept e url none w h = h
  after_refresh-Kept e url (some result) w h = trace_refresh-Kept result w h

  fetch_after-Kept :
      (o : Result DownloadError (DownloadedImage × ℕ)) (url : String) (w : World)
      → Kept w
      → Kept (fetch_after py sv settings faults job o url w).1
  unfolding fetch_after
  fetch_after-Kept (ok (downloaded, attempts)) url w h = h
  fetch_after-Kept (err e) url w h =
      split_second-Kept (is_probably_expired_url_error py sv.is_in (error_text py e)) _ _
        (after_refresh-Kept e url (refresh py sv settings faults job) w h) (λ x. h)

  pass_on-images :
      (payload : Option Json) (w : World)
      → (pass_on py c sv settings faults job payload w).1.images ≡ w.images
  unfolding pass_on
  pass_on-images none w = refl
  pass_on-images (some (obj d)) w = refl
  pass_on-images (some _) w = refl

  record_success-Kept :
      (fault : Option String) (result : Saved) (body : Body) (total : ℕ) (url original_url : String)
      (refreshed : Option RefreshResult) (w : World)
      → has_saved result.hash_sha256 w.images.rows ≡ false
      → Kept w
      → Kept
          (record_success py c sv settings faults job fault result body total url original_url
            refreshed w).1
  unfolding record_success
  record_success-Kept (some e) result body total url original_url refreshed w absent h = h
  record_success-Kept none result body total url original_url refreshed w absent h =
      subst IsDeduplicated (sym (pass_on-images _ _))
        (success-IsDeduplicated job.now job.image_id result (max 1 total) _ w.images absent h)

  record_duplicate-Kept :
      (sha : String) (total : ℕ) (url : String) (refreshed : Option RefreshResult) (w : World)
      → Kept w
      → Kept (record_duplicate py c sv settings faults job sha total url refreshed w)
  unfolding record_duplicate
  record_duplicate-Kept sha total url refreshed w h =
      unless_fault-Kept faults.update_duplicate
        (update_image_download_duplicate job.now job.image_id sha (max 1 total) job.transfer) w
        (duplicate-IsDeduplicated job.now job.image_id sha (max 1 total) job.transfer w.images) h

  save_image-Kept :
      (fault : Option String) (downloaded : DownloadedImage) (total : ℕ) (url original_url : String)
      (refreshed : Option RefreshResult) (w : World)
      → has_saved (sv.sha256 downloaded.body) w.images.rows ≡ false
      → Kept w
      → Kept
          (save_image py c sv settings faults job fault downloaded total url original_url refreshed
            w).1
  unfolding save_image
  save_image-Kept (some e) downloaded total url original_url refreshed w absent h =
      mark_failed-Kept _ (max 1 total) (some url) refreshed job.transfer.stream_phase w h
  save_image-Kept none downloaded total url original_url refreshed w absent h =
      record_success-Kept faults.update_success
        (saved_of py c sv settings faults job downloaded url) downloaded.body total url original_url
        refreshed _ (unfold saved_of write_file in absent) (unfold write_file in h)

  store_image-Kept :
      (downloaded : DownloadedImage) (total : ℕ) (url original_url : String)
      (refreshed : Option RefreshResult) (w : World)
      → Kept w
      → Kept
          (store_image py c sv settings faults job downloaded total url original_url refreshed w).1
  unfolding store_image
  store_image-Kept downloaded total url original_url refreshed w h =
      split_second-Kept faults.select _ _ h (λ e.
        split_second-Kept (has_saved (sv.sha256 downloaded.body) w.images.rows) _ _
          (record_duplicate-Kept (sv.sha256 downloaded.body) total url refreshed w h)
          (λ f.
            save_image-Kept faults.write_file downloaded total url original_url refreshed w f h))

  finish_image-Kept :
      (original_url : String) (o : Fetch × World)
      → Kept o.1
      → Kept (finish_image py c sv settings faults job original_url o).1
  unfolding finish_image
  finish_image-Kept original_url (got downloaded total url refreshed, w) h =
      store_image-Kept downloaded total url original_url refreshed w h
  finish_image-Kept original_url (lost error total url refreshed phase, w) h =
      mark_failed-Kept error total (some url) refreshed phase w h
  finish_image-Kept original_url (crashed, w) h = h

  process_url-Kept :
      (url : Option String) (w : World)
      → Kept w
      → Kept (process_url py c sv settings faults job url w).1
  unfolding process_url fetch_image
  process_url-Kept none w h =
      mark_failed-Kept "missing_image_url" 0 none none
        (some (text_or "error" job.transfer.stream_phase)) w h
  process_url-Kept (some url) w h =
      finish_image-Kept url (fetch_image py sv settings faults job url w)
        (fetch_after-Kept (download py sv settings faults job 0 url) url w h)

module _ (py : Python) (c : Codec) (sv : Services) (settings : Settings) (faults : Faults) where
  after_insert-Kept :
      (job : Job) (o : Option ℕ × Images) (w : World)
      → IsDeduplicated o.1
      → Kept (after_insert py c sv settings faults job o w).1
  unfolding after_insert process_stored
  after_insert-Kept job (none, t) w h = h
  after_insert-Kept job (some id, t) w h =
      process_url-Kept py c sv settings faults (record job { image_id = id })
        (or_text job.columns.url_decoded job.columns.url_raw) (record w { images = t }) h

  process_columns-Kept :
      (job : Job) (columns : Option ImageColumns) (w : World)
      → Kept w
      → Kept (process_columns py c sv settings faults job columns w).1
  unfolding process_columns
  process_columns-Kept job none w h = h
  process_columns-Kept job (some columns) w h = split_second-Kept faults.insert_image _ _ h (λ e.
      after_insert-Kept (record job { columns = columns }) (insert_image columns w.images) w
        (insert_image-IsDeduplicated columns w.images h))

  -- If no two saved images have the same hash, and ids are unique and below the sequence, then this
  -- is still so after an image is processed, whatever the network answers and whichever calls fail.
  pub process_image-IsDeduplicated :
      (job : Job) (image : ImageSegment) (w : World)
      → IsDeduplicated w.images
      → IsDeduplicated (process_image py c sv settings faults job image w).1.images
  unfolding process_image
  process_image-IsDeduplicated job image w h =
      process_columns-Kept (record job { transfer = derive_stream_state image.raw_segment })
        (image_columns job.event_id image) w h
