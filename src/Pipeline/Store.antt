-- ===== src/Pipeline/Store.antt =====
-- The second half of `_process_image`: what is done with an image that was fetched.
use data_assistant.Nats.Publisher.{build_tagger_task_payload}
use data_assistant.Napcat.Refresh.{RefreshResult}
use data_assistant.Tagger.Queue.{as_str}
use data_assistant.Base.Json.{obj, str, null, int, pos, Fields, ℤ, Json, dict}
use data_assistant.Download.Retry.{Body, DownloadedImage}
use data_assistant.Outbox.HandOver.{hand_over}
use data_assistant.Pipeline.Parts.{trace_or_null, text_or, or_null}
use data_assistant.Download.Storage.{build_image_save_path}
use data_assistant.Base.{
  zero, [], ◌++◌, max, length, if◌then◌else◌, ◌∷◌, ◌<>◌, none, List, ℕ, some, String, Option,
}
use data_assistant.Images.{
  Transfer, update_image_download_duplicate, update_image_download_success, Saved, has_saved,
}
use data_assistant.Pipeline.Image.{
  saved, duplicate, db_update_failed, unless_fault, World, count_metric, mark_failed, audit_line,
  Job, Faults, Settings, Services,
}
use data_assistant.Contract.{whole, Codec}
use data_assistant.Base.Text.{Python}

-- `_process_image` returns, or an exception that it does not catch leaves it.
pub data Finished : Type 0 where
  done escaped : Finished

module _ (py : Python) (c : Codec) (sv : Services) (settings : Settings) (faults : Faults)
    (job : Job) where
  -- The first fields of a line of the audit file, and its last.
  unfoldable pub line :
      String
      → String
      → List (String × Json)
      → ℕ
      → List (String × Json)
      → Option RefreshResult
      → Fields
  unfolding dict trace_or_null
  line url status fields total more refresh = dict (
      ("logged_at", str job.logged_at)
      ∷ ("event_id", int (pos job.event_id))
      ∷ ("image_id", int (pos job.image_id))
      ∷ ("seq", int (pos job.columns.seq))
      ∷ ("url", str url)
      ∷ ("status", str status)
      ∷ (fields
          ++ ("download_attempt", int (pos (max 1 total)))
            ∷ (more ++ ("refresh", trace_or_null refresh) ∷ [])))

  unfoldable pub saved_fields : Saved → Body → List (String × Json)
  unfolding or_null
  saved_fields result body =
      ("local_path", str result.local_path)
      ∷ ("size", int (pos (length body)))
      ∷ ("hash_sha256", str result.hash_sha256)
      ∷ ("format", or_null result.metadata.format)
      ∷ []

  -- `str(event.group_id or event.user_id or "unknown")`; 0 counts as none.
  unfoldable pub number_or : Option ℤ → String → String
  number_or none default = default
  number_or (some (pos zero)) default = default
  number_or (some n) default = py.text_of (int n)

  -- The columns of the events take only text, so this is text by now.
  unfoldable pub chat_type : String
  unfolding text_or as_str
  chat_type = elim (job.event.message_type) [
    | none ↦ "unknown"
    | some v ↦ text_or "unknown" (as_str v)
  ]

  unfoldable pub chat_id : String
  unfolding number_or
  chat_id = number_or job.event.group_id (number_or job.event.user_id "unknown")

  unfoldable pub message_id : String
  unfolding text_or
  message_id = text_or "unknown" job.event.message_id

  unfoldable pub save_path : String → String
  unfolding build_image_save_path chat_type chat_id message_id
  save_path url =
      build_image_save_path py sv.url_name sv.join settings.save_root job.ts chat_type chat_id
        message_id job.columns.seq job.columns.file_name (some url)

  unfoldable pub int_or_null : Option ℤ → Json
  int_or_null none = null
  int_or_null (some n) = int n

  unfoldable pub value_or_null : Option Json → Json
  value_or_null none = null
  value_or_null (some v) = v

  unfoldable pub tag_context : String → String → Fields
  unfolding dict int_or_null value_or_null chat_type chat_id message_id
  tag_context url original_url = dict (
      ("event_id", int (pos job.event_id))
      ∷ ("image_id", int (pos job.image_id))
      ∷ ("post_type", str job.event.post_type)
      ∷ ("message_type", value_or_null job.event.message_type)
      ∷ ("chat_type", str chat_type)
      ∷ ("chat_id", str chat_id)
      ∷ ("user_id", int_or_null job.event.user_id)
      ∷ ("group_id", int_or_null job.event.group_id)
      ∷ ("message_id", str message_id)
      ∷ ("seq", int (pos job.columns.seq))
      ∷ ("source_url", str url)
      ∷ ("original_url", str original_url)
      ∷ [])

  -- The task of the saved image, stored and published.
  unfoldable pub pass_on : Option Json → World → Finished × World
  unfolding hand_over count_metric
  pass_on (some (obj payload)) w =
      let (outbox, bus) =
        hand_over sv.jsonb faults.hand_over job.now job.image_id settings.subject payload w.outbox
          w.bus in
      (
        done,
        count_metric saved job.transfer.transfer_mode (record w { outbox = outbox; bus = bus }),
      )
  pass_on _ w = (escaped, w)

  unfoldable pub success_transfer : Option RefreshResult → Transfer
  success_transfer none = job.transfer
  success_transfer (some result) = record job.transfer {
    stream_phase = some result.final_phase;
    stream_data_type = elim (job.transfer.stream_data_type) [
      | some s ↦ some s
      | none ↦ some "url_refresh"
    ];
  }

  -- The update of the row may raise.
  unfoldable pub record_success :
      Option String
      → Saved
      → Body
      → ℕ
      → String
      → String
      → Option RefreshResult
      → World
      → Finished × World
  unfolding audit_line line saved_fields count_metric update_image_download_success pass_on
      tag_context build_tagger_task_payload success_transfer
  record_success (some e) result body total url original_url refresh w = (
    done,
    count_metric db_update_failed job.transfer.transfer_mode (
        audit_line
          (line url "db_update_failed" (saved_fields result body) total (("error", str e) ∷ [])
            refresh)
          w),
  )
  record_success none result body total url original_url refresh w =
      pass_on
        (build_tagger_task_payload c (whole (pos job.image_id)) result.hash_sha256 url
          (some original_url) (tag_context url original_url))
        (audit_line (line url "saved" (saved_fields result body) total [] refresh) (record w {
          images =
              update_image_download_success job.now job.image_id result (max 1 total)
                (success_transfer refresh) w.images;
        }))

  unfoldable pub record_duplicate : String → ℕ → String → Option RefreshResult → World → World
  unfolding audit_line line count_metric update_image_download_duplicate unless_fault
  record_duplicate sha total url refresh w = count_metric duplicate job.transfer.transfer_mode (
      audit_line (line url "duplicate" (("hash_sha256", str sha) ∷ []) total [] refresh) (
        unless_fault faults.update_duplicate
          (update_image_download_duplicate job.now job.image_id sha (max 1 total) job.transfer) w))

  unfoldable pub write_file : String → Body → World → World
  write_file path body w = record w { files = (path, body) ∷ w.files }

  unfoldable pub saved_of : DownloadedImage → String → Saved
  unfolding save_path
  saved_of downloaded url = record {
    local_path = save_path url;
    hash_sha256 = sv.sha256 downloaded.body;
    metadata = sv.pillow downloaded.body;
    http_content_type = downloaded.content_type;
    http_content_length = downloaded.content_length;
  }

  -- The writing of the file may raise.
  unfoldable pub save_image :
      Option String
      → DownloadedImage
      → ℕ
      → String
      → String
      → Option RefreshResult
      → World
      → Finished × World
  unfolding write_file mark_failed record_success saved_of
  save_image (some e) downloaded total url original_url refresh w = (
    done,
    mark_failed py sv settings faults job ("file_write_error: " <> e) (max 1 total) (some url)
        refresh job.transfer.stream_phase w,
  )
  save_image none downloaded total url original_url refresh w =
      record_success faults.update_success (saved_of downloaded url) downloaded.body total url
        original_url refresh (write_file (save_path url) downloaded.body w)

  unfoldable pub store_image :
      DownloadedImage → ℕ → String → String → Option RefreshResult → World → Finished × World
  unfolding save_image record_duplicate has_saved
  store_image downloaded total url original_url refresh w =
      if faults.select
      then (escaped, w)
      else if has_saved (sv.sha256 downloaded.body) w.images.rows
      then (done, record_duplicate (sv.sha256 downloaded.body) total url refresh w)
      else save_image faults.write_file downloaded total url original_url refresh w
