-- ===== src/Pipeline/Told.antt =====
-- What the count of an image tells of the files, the rows, the outbox and the bus, once it is fetched.
use data_assistant.Outbox.HandOver.{hand_over}
use data_assistant.Nats.Publisher.{build_tagger_task_payload}
use data_assistant.Napcat.Refresh.{RefreshResult}
use data_assistant.Base.Text.{Python}
use data_assistant.Base.{
  ◌<>◌, none, max, inl, ◌==◌, Bool-cases, arith, ◌≤◌, Option, List, refl, true, [], ◌∷◌, ◌++◌,
  false, if◌then◌else◌, String, Bool, ◌≡◌, ℕ, some,
}
use data_assistant.Base.Json.{str, obj, pos, Json, Fields}
use data_assistant.Contract.{whole, Codec}
use data_assistant.Download.Retry.{DownloadedImage, Body}
use data_assistant.Images.{
  update_image_download_duplicate, update_image_download_success, update_image_download_failure,
  ImageRow, Transfer, Saved, is_hash, saved_hash, has_saved, set_saved, update_image,
}
use data_assistant.Base.{inl, inr, eq_iff}
use data_assistant.Images.Rows.{ids}
use data_assistant.Pipeline.Image.{
  failed_line, audit_line, count_metric, mark_failed, unless_fault, Job, Faults, Settings, Services,
  saved, failed, duplicate, db_update_failed, World, ImageOutcome,
}
use data_assistant.Pipeline.Store.{
  save_path, store_image, saved_of, record_duplicate, save_image, success_transfer, line, pass_on,
  tag_context, write_file, record_success, done, escaped, Finished,
}

-- No file is written and no task is passed on.
abbrev pub Unsent : World → World → Type 0
Unsent w w' = (w'.files ≡ w.files) × (w'.outbox ≡ w.outbox) × (w'.bus ≡ w.bus)

module _ (c : Codec) (sv : Services) (settings : Settings) (faults : Faults) (now id : ℕ) where
  -- The file is there, the table has a saved row with its hash, and the task of the image, with its
  -- hash, was handed over.
  pub record IsSaved (w w' : World) : Type 0 where
    pub path : String
    pub body : Body
    pub source_url : String
    pub original_url : String
    pub context : Fields
    pub payload : Fields
    pub file : w'.files ≡ (path, body) ∷ w.files
    pub row : has_saved (sv.sha256 body) w'.images.rows ≡ true
    pub task :
        build_tagger_task_payload c
          (whole (pos id))
          (sv.sha256 body)
          source_url
          (some original_url)
          context
        ≡ some (obj payload)
    pub handed :
        (w'.outbox, w'.bus)
        ≡ hand_over sv.jsonb faults.hand_over now id settings.subject payload w.outbox w.bus

  -- Only the file is written.
  pub record IsOrphaned (w w' : World) : Type 0 where
    pub path : String
    pub body : Body
    pub file : w'.files ≡ (path, body) ∷ w.files
    pub unsent : (w'.outbox ≡ w.outbox) × (w'.bus ≡ w.bus)

  abbrev pub Meaning : ImageOutcome → World → World → Type 0
  Meaning saved w w' = IsSaved w w'
  Meaning db_update_failed w w' = IsOrphaned w w'
  Meaning _ w w' = Unsent w w'

  -- An image that is done is counted once, with an outcome that tells the truth. If an exception
  -- leaves the function, nothing is counted or passed on.
  abbrev pub Told : World → Finished × World → Type 0
  Told w (done, w') =
      (outcome : ImageOutcome) × (mode : String) × (w'.metrics ≡ w.metrics ++ (outcome, mode) ∷ [])
      × Meaning outcome w w'
  Told w (escaped, w') = (w'.metrics ≡ w.metrics) × (w'.outbox ≡ w.outbox) × (w'.bus ≡ w.bus)

  pub split-Told :
      (b : Bool) (w : World) (x y : Finished × World)
      → Told w x
      → (b ≡ false → Told w y)
      → Told w (if b then x else y)
  split-Told true w x y h k = h
  split-Told false w x y h k = k refl

has_saved-set :
    (now id : ℕ) (result : Saved) (attempt : ℕ) (transfer : Transfer) (rows : List ImageRow)
    → 1 ≤ ids id rows
    → has_saved result.hash_sha256 (update_image id (set_saved now result attempt transfer) rows)
      ≡ true
unfolding update_image set_saved has_saved saved_hash is_hash
has_saved-set now id result attempt transfer [] h = absurd (omega arith)
has_saved-set now id result attempt transfer (row ∷ rows) h = elim (Bool-cases (row.id == id)) [
  | inl e ↦ rw (e, (eq_iff result.hash_sha256 result.hash_sha256).1 refl) refl
  | inr e ↦
      rw e
        (ground (arith, has_saved-set now id result attempt transfer rows (ground (arith, e, h))))
]

module _ (py : Python) (c : Codec) (sv : Services) (settings : Settings) (faults : Faults)
    (job : Job) where
  abbrev pub Tells : World → Finished × World → Type 0
  Tells w o = Told c sv settings faults job.now job.image_id w o

  pub mark_failed-Told :
      (error : String) (attempts : ℕ) (url : Option String) (refreshed : Option RefreshResult)
      (phase : Option String) (w : World)
      → Tells w (done, mark_failed py sv settings faults job error attempts url refreshed phase w)
  unfolding mark_failed count_metric audit_line unless_fault
  mark_failed-Told error attempts url refreshed phase w = of_fault faults.update_failure
    where
      of_fault :
          (b : Bool)
          → Tells w (
            done,
            count_metric failed job.transfer.transfer_mode (
                audit_line (failed_line py sv settings faults job error attempts url refreshed) (
                  unless_fault b
                    (update_image_download_failure job.image_id error attempts
                      (record job.transfer { stream_phase = phase }))
                    w)),
          )
      of_fault true = (failed, job.transfer.transfer_mode, refl, (refl, refl, refl))
      of_fault false = (failed, job.transfer.transfer_mode, refl, (refl, refl, refl))

  passed-Told :
      (o : Option Json) (path : String) (body : Body) (url original_url : String) (context : Fields)
      (w w' : World)
      → build_tagger_task_payload c
          (whole (pos job.image_id))
          (sv.sha256 body)
          url
          (some original_url)
          context
        ≡ o
      → w'.metrics ≡ w.metrics
      → w'.outbox ≡ w.outbox
      → w'.bus ≡ w.bus
      → w'.files ≡ (path, body) ∷ w.files
      → has_saved (sv.sha256 body) w'.images.rows ≡ true
      → Tells w (pass_on py c sv settings faults job o w')
  unfolding pass_on count_metric
  passed-Told none path body url original_url context w w' e metrics outbox bus file row =
      (metrics, outbox, bus)
  passed-Told (some (obj payload)) path body url original_url context w w' e metrics outbox bus file
        row =
      (
        saved,
        job.transfer.transfer_mode,
        rw metrics refl,
        record {
          path = path;
          body = body;
          source_url = url;
          original_url = original_url;
          context = context;
          payload = payload;
          file = file;
          row = row;
          task = e;
          handed = rw (outbox, bus) refl;
        },
      )
  passed-Told (some _) path body url original_url context w w' e metrics outbox bus file row =
      (metrics, outbox, bus)

  record_success-Told :
      (fault : Option String) (downloaded : DownloadedImage) (total : ℕ) (url original_url : String)
      (refreshed : Option RefreshResult) (w : World)
      → 1 ≤ ids job.image_id w.images.rows
      → Tells w (
          record_success py c sv settings faults job fault
            (saved_of py c sv settings faults job downloaded url)
            downloaded.body
            total
            url
            original_url
            refreshed
            (write_file py c sv settings faults job
              (save_path py c sv settings faults job url)
              downloaded.body
              w))
  unfolding record_success write_file count_metric audit_line saved_of update_image_download_success
  record_success-Told (some e) downloaded total url original_url refreshed w present = (
    db_update_failed,
    job.transfer.transfer_mode,
    refl,
    record {
      path = save_path py c sv settings faults job url;
      body = downloaded.body;
      file = refl;
      unsent = (refl, refl);
    },
  )
  record_success-Told none downloaded total url original_url refreshed w present =
      passed-Told _ (save_path py c sv settings faults job url) downloaded.body url original_url
        (tag_context py c sv settings faults job url original_url) w _ refl refl refl refl refl
        (has_saved-set job.now job.image_id (saved_of py c sv settings faults job downloaded url)
          (max 1 total) (success_transfer py c sv settings faults job refreshed) w.images.rows
          present)

  save_image-Told :
      (fault : Option String) (downloaded : DownloadedImage) (total : ℕ) (url original_url : String)
      (refreshed : Option RefreshResult) (w : World)
      → 1 ≤ ids job.image_id w.images.rows
      → Tells w (
          save_image py c sv settings faults job fault downloaded total url original_url refreshed
            w)
  unfolding save_image
  save_image-Told (some e) downloaded total url original_url refreshed w present =
      mark_failed-Told ("file_write_error: " <> e) (max 1 total) (some url) refreshed
        job.transfer.stream_phase w
  save_image-Told none downloaded total url original_url refreshed w present =
      record_success-Told faults.update_success downloaded total url original_url refreshed w
        present

  record_duplicate-Told :
      (sha : String) (total : ℕ) (url : String) (refreshed : Option RefreshResult) (w : World)
      → Tells w (done, record_duplicate py c sv settings faults job sha total url refreshed w)
  unfolding record_duplicate count_metric audit_line unless_fault
  record_duplicate-Told sha total url refreshed w = of_fault faults.update_duplicate
    where
      of_fault :
          (b : Bool)
          → Tells w (
            done,
            count_metric duplicate job.transfer.transfer_mode (
                audit_line
                  (line py c sv settings faults job url "duplicate"
                    (("hash_sha256", str sha) ∷ [])
                    total
                    []
                    refreshed)
                  (unless_fault b
                    (update_image_download_duplicate job.now job.image_id sha
                      (max 1 total)
                      job.transfer)
                    w)),
          )
      of_fault true = (duplicate, job.transfer.transfer_mode, refl, (refl, refl, refl))
      of_fault false = (duplicate, job.transfer.transfer_mode, refl, (refl, refl, refl))

  pub store_image-Told :
      (downloaded : DownloadedImage) (total : ℕ) (url original_url : String)
      (refreshed : Option RefreshResult) (w : World)
      → 1 ≤ ids job.image_id w.images.rows
      → Tells w
          (store_image py c sv settings faults job downloaded total url original_url refreshed w)
  unfolding store_image
  store_image-Told downloaded total url original_url refreshed w present =
      split-Told c sv settings faults job.now job.image_id faults.select w _ _ (refl, refl, refl)
        (λ e.
          split-Told c sv settings faults job.now job.image_id
            (has_saved (sv.sha256 downloaded.body) w.images.rows) w _ _
            (record_duplicate-Told (sv.sha256 downloaded.body) total url refreshed w)
            (λ f.
              save_image-Told faults.write_file downloaded total url original_url refreshed w
                present))
