-- ===== src/Images.antt =====
-- The table onebot_message_images and its statements, as repository.py runs them.
pub mod Rows
use data_assistant.Base.Json.{Json, ℤ}
use data_assistant.Base.{
  str_eq, ◌++◌, ◌&&◌, [], ◌||◌, false, suc, ◌==◌, ◌∷◌, some, none, Bool, if◌then◌else◌, ℕ, Option,
  String, List,
}

pub data ImageStatus : Type 0 where
  pending saved duplicate failed : ImageStatus

-- The columns that the insertion fills.
pub record ImageColumns : Type 0 where
  pub event_id : ℕ
  pub seq : ℕ
  pub url_raw : Option String
  pub url_decoded : Option String
  pub file_name : Option String
  pub sub_type : Option String
  pub file_size : Option ℤ
  pub summary : Option String

-- What Pillow tells of an image.
pub record Metadata : Type 0 where
  pub format : Option String
  pub width : Option ℕ
  pub height : Option ℕ
  pub is_animated : Option Bool
  pub frame_count : Option ℕ

-- How an image was fetched.
pub record Transfer : Type 0 where
  pub transfer_mode : String
  pub stream_phase : Option String
  pub stream_data_type : Option String

pub record ImageRow : Type 0 where
  pub id : ℕ
  pub columns : ImageColumns
  pub local_path : Option String
  pub download_status : ImageStatus
  pub download_error : Option String
  pub downloaded_at : Option ℕ
  pub hash_sha256 : Option String
  pub metadata : Option Metadata
  pub http_content_type : Option String
  pub http_content_length : Option ℤ
  pub download_attempt : ℕ
  pub refresh_attempt_count : ℕ
  pub refresh_trace : Option Json
  pub transfer : Option Transfer

-- The rows in the order of their ids, and the next value of the id sequence.
pub record Images : Type 0 where
  pub rows : List ImageRow
  pub next_id : ℕ

unfoldable pub new_image : ℕ → ImageColumns → ImageRow
new_image id columns = record {
  id = id;
  columns = columns;
  local_path = none;
  download_status = pending;
  download_error = none;
  downloaded_at = none;
  hash_sha256 = none;
  metadata = none;
  http_content_type = none;
  http_content_length = none;
  download_attempt = 0;
  refresh_attempt_count = 0;
  refresh_trace = none;
  transfer = none;
}

-- The pair of event and index is unique: a second row for it is refused.
unfoldable pub has_pair : ℕ → ℕ → List ImageRow → Bool
has_pair event_id seq [] = false
has_pair event_id seq (row ∷ rows) =
    ((event_id == row.columns.event_id) && (seq == row.columns.seq)) || has_pair event_id seq rows

-- `insert_image`. A refused insertion uses up a value of the id sequence.
unfoldable pub insert_image : ImageColumns → Images → Option ℕ × Images
unfolding new_image has_pair
insert_image columns t =
    if has_pair columns.event_id columns.seq t.rows
    then (none, record t { next_id = suc t.next_id })
    else (
      some t.next_id,
      record { rows = t.rows ++ new_image t.next_id columns ∷ []; next_id = suc t.next_id },
    )

-- `UPDATE … WHERE id=$1`
unfoldable pub update_image : ℕ → (ImageRow → ImageRow) → List ImageRow → List ImageRow
update_image id f [] = []
update_image id f (row ∷ rows) = (if row.id == id then f row else row) ∷ update_image id f rows

unfoldable pub set_trace : ℕ → Json → ImageRow → ImageRow
set_trace count trace row = record row { refresh_attempt_count = count; refresh_trace = some trace }

-- What a download left on the disk, and where it came from.
pub record Saved : Type 0 where
  pub local_path : String
  pub hash_sha256 : String
  pub metadata : Metadata
  pub http_content_type : Option String
  pub http_content_length : Option ℤ

unfoldable pub set_saved : ℕ → Saved → ℕ → Transfer → ImageRow → ImageRow
set_saved now result attempt transfer row = record row {
  download_status = saved;
  local_path = some result.local_path;
  downloaded_at = some now;
  hash_sha256 = some result.hash_sha256;
  metadata = some result.metadata;
  http_content_type = result.http_content_type;
  http_content_length = result.http_content_length;
  download_attempt = attempt;
  transfer = some transfer;
}

unfoldable pub set_duplicate : ℕ → String → ℕ → Transfer → ImageRow → ImageRow
set_duplicate now sha attempt transfer row = record row {
  download_status = duplicate;
  hash_sha256 = some sha;
  download_attempt = attempt;
  downloaded_at = some now;
  transfer = some transfer;
}

unfoldable pub set_unsaved : String → ℕ → Transfer → ImageRow → ImageRow
set_unsaved error attempt transfer row = record row {
  download_status = failed;
  download_error = some error;
  download_attempt = attempt;
  transfer = some transfer;
}

unfoldable pub update_image_refresh_trace : ℕ → ℕ → Json → Images → Images
unfolding update_image set_trace
update_image_refresh_trace id count trace t = record t {
  rows = update_image id (set_trace count trace) t.rows;
}

unfoldable pub update_image_download_success : ℕ → ℕ → Saved → ℕ → Transfer → Images → Images
unfolding update_image set_saved
update_image_download_success now id result attempt transfer t = record t {
  rows = update_image id (set_saved now result attempt transfer) t.rows;
}

unfoldable pub update_image_download_duplicate : ℕ → ℕ → String → ℕ → Transfer → Images → Images
unfolding update_image set_duplicate
update_image_download_duplicate now id sha attempt transfer t = record t {
  rows = update_image id (set_duplicate now sha attempt transfer) t.rows;
}

unfoldable pub update_image_download_failure : ℕ → String → ℕ → Transfer → Images → Images
unfolding update_image set_unsaved
update_image_download_failure id error attempt transfer t = record t {
  rows = update_image id (set_unsaved error attempt transfer) t.rows;
}

-- The hash of a row that is marked as saved.
unfoldable pub saved_hash : ImageRow → Option String
saved_hash row = elim (row.download_status) [ saved ↦ row.hash_sha256 | _ ↦ none ]

unfoldable pub is_hash : String → Option String → Bool
is_hash sha none = false
is_hash sha (some s) = str_eq sha s

-- `SELECT id … WHERE hash_sha256=$1 AND download_status='saved' LIMIT 1`, if it finds a row.
unfoldable pub has_saved : String → List ImageRow → Bool
unfolding saved_hash is_hash
has_saved sha [] = false
has_saved sha (row ∷ rows) = is_hash sha (saved_hash row) || has_saved sha rows
