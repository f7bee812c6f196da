-- ===== src/Pipeline/Outcomes.antt =====
-- What the count of a processed image tells, from the insertion of its row on.
use data_assistant.Pipeline.Fetched.{fetch_after-Traced}
use data_assistant.Pipeline.Told.{
  mark_failed-Told, split-Told, store_image-Told, Meaning, Tells, Told,
}
use data_assistant.Napcat.Event.{ImageSegment}
use data_assistant.Pipeline.Process.{
  process_image, process_columns, process_stored, after_insert, process_url, finish_image,
}
use data_assistant.Pipeline.Parts.{image_columns, derive_stream_state, or_text, text_or}
use data_assistant.Base.Text.{Python}
use data_assistant.Base.{
  suc, none, arith, ◌≤◌, Option, refl, true, [], ◌∷◌, ◌++◌, false, if◌then◌else◌, String, Bool, ◌≡◌,
  ℕ, some,
}
use data_assistant.Contract.{Codec}
use data_assistant.Images.{ImageColumns, new_image, has_pair, Images, insert_image}
use data_assistant.Images.Rows.{ids, ids-append}
use data_assistant.Pipeline.Image.{
  crashed, download, lost, got, fetch_image, count_metric, Fetch, Job, Faults, Settings, Services,
  saved, failed, duplicate, db_update_failed, insert_failed, World, ImageOutcome,
}
use data_assistant.Pipeline.Store.{done, escaped, Finished}
use mathlib.Core.Path.{subst}

module _ (py : Python) (c : Codec) (sv : Services) (settings : Settings) (faults : Faults)
    (job : Job) where
  finish_image-Told :
      (original_url : String) (o : Fetch × World)
      → 1 ≤ ids job.image_id o.1.images.rows
      → Tells py c sv settings faults job o.1
          (finish_image py c sv settings faults job original_url o)
  unfolding finish_image
  finish_image-Told original_url (got downloaded total url refreshed, w) present =
      store_image-Told py c sv settings faults job downloaded total url original_url refreshed w
        present
  finish_image-Told original_url (lost error total url refreshed phase, w) present =
      mark_failed-Told py c sv settings faults job error total (some url) refreshed phase w
  finish_image-Told original_url (crashed, w) present = (refl, refl, refl)

  Traced-Meaning :
      (outcome : ImageOutcome) (w w' : World) (t : Images)
      → Meaning c sv settings faults job.now job.image_id outcome (record w { images = t }) w'
      → Meaning c sv settings faults job.now job.image_id outcome w w'
  Traced-Meaning saved w w' t m = record {
    path = m.path;
    body = m.body;
    source_url = m.source_url;
    original_url = m.original_url;
    context = m.context;
    payload = m.payload;
    file = m.file;
    row = m.row;
    task = m.task;
    handed = m.handed;
  }
  Traced-Meaning db_update_failed w w' t m = record {
    path = m.path;
    body = m.body;
    file = m.file;
    unsent = m.unsent;
  }
  Traced-Meaning insert_failed w w' t m = m
  Traced-Meaning failed w w' t m = m
  Traced-Meaning duplicate w w' t m = m

  -- A change of the images alone is none of what is told.
  images-Told :
      (w : World) (t : Images) (o : Finished × World)
      → Tells py c sv settings faults job (record w { images = t }) o
      → Tells py c sv settings faults job w o
  images-Told w t (done, w') h = (h.0, h.1, h.2, Traced-Meaning h.0 w w' t h.3)
  images-Told w t (escaped, w') h = h

  process_url-Told :
      (url : Option String) (w : World)
      → 1 ≤ ids job.image_id w.images.rows
      → Tells py c sv settings faults job w (process_url py c sv settings faults job url w)
  unfolding process_url fetch_image
  process_url-Told none w present =
      mark_failed-Told py c sv settings faults job "missing_image_url" 0 none none
        (some (text_or "error" job.transfer.stream_phase)) w
  process_url-Told (some url) w present =
      let traced =
        fetch_after-Traced py c sv settings faults job (download py sv settings faults job 0 url)
          url w in
      images-Told w (fetch_image py sv settings faults job url w).1.images _ (
        subst
          (λ x. Tells py c sv settings faults job x (
            finish_image py c sv settings faults job url
              (fetch_image py sv settings faults job url w)))
          traced.0
          (finish_image-Told url (fetch_image py sv settings faults job url w)
            (omega (arith, traced.1))))

-- A row that is inserted has the next id, and is there.
abbrev IsInserted : ℕ → Option ℕ × Images → Type 0
IsInserted next_id (none, t) = Unit
IsInserted next_id (some id, t) = (id ≡ next_id) × (1 ≤ ids id t.rows)

insert_image-IsInserted :
    (columns : ImageColumns) (t : Images) → IsInserted t.next_id (insert_image columns t)
unfolding insert_image
insert_image-IsInserted columns t = of_test (has_pair columns.event_id columns.seq t.rows)
  where
    of_test :
        (b : Bool)
        → IsInserted t.next_id (
            if b then (none, record t { next_id = suc t.next_id }) else (
              some t.next_id,
              record { rows = t.rows ++ new_image t.next_id columns ∷ []; next_id = suc t.next_id },
            ))
    of_test true = tt
    of_test false = (
      refl,
      unfold new_image in ground (arith, ids-append t.next_id t.rows (new_image t.next_id columns)),
    )

module _ (py : Python) (c : Codec) (sv : Services) (settings : Settings) (faults : Faults) where
  after_insert-Told :
      (job : Job) (o : Option ℕ × Images) (w : World)
      → IsInserted w.images.next_id o
      → Told c sv settings faults job.now w.images.next_id w
          (after_insert py c sv settings faults job o w)
  unfolding after_insert process_stored count_metric
  after_insert-Told job (none, t) w h =
      (insert_failed, job.transfer.transfer_mode, refl, (refl, refl, refl))
  after_insert-Told job (some id, t) w h =
      subst
        (λ i.
          Told c sv settings faults job.now i w
            (after_insert py c sv settings faults job (some id, t) w))
        h.0
        (images-Told py c sv settings faults (record job { image_id = id }) w t _
          (process_url-Told py c sv settings faults (record job { image_id = id })
            (or_text job.columns.url_decoded job.columns.url_raw) (record w { images = t }) h.1))

  process_columns-Told :
      (job : Job) (columns : Option ImageColumns) (w : World)
      → Told c sv settings faults job.now w.images.next_id w
          (process_columns py c sv settings faults job columns w)
  unfolding process_columns count_metric
  process_columns-Told job none w =
      (insert_failed, job.transfer.transfer_mode, refl, (refl, refl, refl))
  process_columns-Told job (some columns) w =
      split-Told c sv settings faults job.now w.images.next_id faults.insert_image w _ _
        (insert_failed, job.transfer.transfer_mode, refl, (refl, refl, refl))
        (λ e.
          after_insert-Told (record job { columns = columns }) (insert_image columns w.images) w
            (insert_image-IsInserted columns w.images))

  -- An image whose processing returns is counted once, and its outcome tells what happened. If it is
  -- saved, then one file was written with its bytes, a saved row has their hash, and the task with
  -- that hash was handed over under the id of the new row. If the last update failed, only the file was
  -- written. With any other outcome no file was written and no task passed on. If an exception
  -- escapes, nothing is counted or passed on.
  pub process_image-Told :
      (job : Job) (image : ImageSegment) (w : World)
      → Told c sv settings faults job.now w.images.next_id w
          (process_image py c sv settings faults job image w)
  unfolding process_image
  process_image-Told job image w =
      process_columns-Told (record job { transfer = derive_stream_state image.raw_segment })
        (image_columns job.event_id image) w
