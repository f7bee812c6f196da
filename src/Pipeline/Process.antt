-- ===== src/Pipeline/Process.antt =====
-- `_process_image` as a whole.
use data_assistant.Napcat.Event.{ImageSegment}
use data_assistant.Base.{if◌then◌else◌, some, none, ℕ, Option, String}
use data_assistant.Images.{ImageColumns, Images, insert_image}
use data_assistant.Pipeline.Parts.{text_or, image_columns, or_text, derive_stream_state}
use data_assistant.Pipeline.Store.{escaped, done, Finished, store_image}
use data_assistant.Pipeline.Image.{
  crashed, insert_failed, lost, got, World, Fetch, Job, Faults, mark_failed, fetch_image,
  count_metric, Settings, Services,
}
use data_assistant.Contract.{Codec}
use data_assistant.Base.Text.{Python}

module _ (py : Python) (c : Codec) (sv : Services) (settings : Settings) where
  unfoldable pub finish_image : Faults → Job → String → Fetch × World → Finished × World
  unfolding store_image mark_failed
  finish_image faults job original_url (got downloaded total url refresh, w) =
      store_image py c sv settings faults job downloaded total url original_url refresh w
  finish_image faults job original_url (lost error total url refresh phase, w) =
      (done, mark_failed py sv settings faults job error total (some url) refresh phase w)
  finish_image faults job original_url (crashed, w) = (escaped, w)

  -- With the image's URL, if it has one.
  unfoldable pub process_url : Faults → Job → Option String → World → Finished × World
  unfolding finish_image fetch_image mark_failed text_or
  process_url faults job none w = (
    done,
    mark_failed py sv settings faults job "missing_image_url" 0 none none
        (some (text_or "error" job.transfer.stream_phase)) w,
  )
  process_url faults job (some url) w =
      finish_image faults job url (fetch_image py sv settings faults job url w)

  unfoldable pub process_stored : Faults → Job → World → Finished × World
  unfolding process_url or_text
  process_stored faults job w =
      process_url faults job (or_text job.columns.url_decoded job.columns.url_raw) w

  -- After the insertion of the row, which may be refused.
  unfoldable pub after_insert : Faults → Job → Option ℕ × Images → World → Finished × World
  unfolding process_stored count_metric
  after_insert faults job (none, t) w =
      (done, count_metric insert_failed job.transfer.transfer_mode (record w { images = t }))
  after_insert faults job (some id, t) w =
      process_stored faults (record job { image_id = id }) (record w { images = t })

  -- With the columns of the row, if the driver takes them.
  unfoldable pub process_columns : Faults → Job → Option ImageColumns → World → Finished × World
  unfolding after_insert count_metric insert_image
  process_columns faults job none w =
      (done, count_metric insert_failed job.transfer.transfer_mode w)
  process_columns faults job (some columns) w =
      if faults.insert_image
      then (done, count_metric insert_failed job.transfer.transfer_mode w)
      else after_insert faults (record job { columns = columns }) (insert_image columns w.images) w

  -- `_process_image`. The row's id, its columns and the transfer in `job` are set here.
  unfoldable pub process_image : Faults → Job → ImageSegment → World → Finished × World
  unfolding process_columns derive_stream_state image_columns
  process_image faults job image w =
      process_columns faults (record job { transfer = derive_stream_state image.raw_segment })
        (image_columns job.event_id image) w
