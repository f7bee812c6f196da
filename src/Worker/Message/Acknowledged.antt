-- ===== src/Worker/Message/Acknowledged.antt =====
-- A message that is acknowledged is worthless, or its image is queued.
use data_assistant.Tagger.Queue.Files.{queue_of}
use data_assistant.Tagger.Queue.Enqueue.{any_path-enqueue, NamesImage}
use data_assistant.Worker.Resolve.Found.{resolve_task_image_path-IsFound, IsFound}
use data_assistant.Base.Json.{Fields, get, dict}
use data_assistant.Base.Result.{ok, Result, err}
use data_assistant.Worker.Message.{
  Answer, nak, ack, no_answer, on_message, answer_message, Handled, ack_or_nak, invalid_payload,
  unresolved_path, enqueued, failed, task_message, process_task, enqueue_task, process_message,
  Outcome, Processed,
}
use data_assistant.Tagger.Queue.{any_path, as_str, Disk, TaggerConfig}
use data_assistant.Worker.Resolve.{Search, resolve_task_image_path, Folder}
use data_assistant.Tagger.Batch.{FileSystem}
use data_assistant.Contract.{TaskV2, decode_task, DecodeError, Codec}
use data_assistant.Base.Text.{strip, is_empty, Python}
use data_assistant.Base.{
  zero, ◌⊎◌, arith, inl, suc, ◌<◌, inr, ℕ, some, none, true, Option, false, ◌≡◌, String, refl,
}

-- The message is refused, with the delay unless that is 0.
abbrev pub IsRefused : ℕ → Answer → Type 0
IsRefused nak_delay answer =
    ((0 < nak_delay) × (answer ≡ nak (some nak_delay))) ⊎ ((nak_delay ≡ 0) × (answer ≡ nak none))

refused : (nak_delay : ℕ) → IsRefused nak_delay (ack_or_nak true false nak_delay)
unfolding ack_or_nak
refused zero = inr (refl, refl)
refused (suc n) = inl (omega arith, ground arith)

module _ (py : Python) (c : Codec) (fs : FileSystem) (folder : Folder) (config : TaggerConfig)
    (nak_delay : ℕ) (failure : Option Disk) where
  -- What the outcome, if there is one, tells of a message, of its answer, and of the disk.
  abbrev pub Tells : c.Bytes → Disk → Handled → Option Outcome → Type 0
  Tells raw d r none =
      ((task : TaskV2) × (decode_task py c raw ≡ ok task)
        × (resolve_task_image_path py fs folder task ≡ none))
      × (r.answer ≡ no_answer)
      × (r.disk ≡ d)
  Tells raw d r (some invalid_payload) =
      ((e : DecodeError) × (decode_task py c raw ≡ err e)) × (r.answer ≡ ack) × (r.disk ≡ d)
  Tells raw d r (some unresolved_path) =
      ((task : TaskV2) × (decode_task py c raw ≡ ok task)
        × (resolve_task_image_path py fs folder task ≡ some none))
      × IsRefused nak_delay r.answer
      × (r.disk ≡ d)
  Tells raw d r (some enqueued) =
      ((task : TaskV2) × (path : String) × (decode_task py c raw ≡ ok task)
        × (resolve_task_image_path py fs folder task ≡ some (some path))
        × (any_path (fs.resolve (strip path)) (queue_of r.disk) ≡ true))
      × (r.answer ≡ ack)
      × (failure ≡ none)
  Tells raw d r (some failed) =
      ((task : TaskV2) × (path : String) × (decode_task py c raw ≡ ok task)
        × (resolve_task_image_path py fs folder task ≡ some (some path)))
      × IsRefused nak_delay r.answer
      × (failure ≡ some r.disk)

  abbrev Told : c.Bytes → Disk → Option Processed → Type 0
  Told raw d o = let r = answer_message true nak_delay d o in Tells raw d r r.outcome

  module _ (full : (p : String) → is_empty (strip (fs.resolve p)) ≡ false) where
    names_image :
        (path : String) (context : Fields)
        → is_empty (strip path) ≡ false
        → NamesImage fs.resolve config (task_message path context) path
    unfolding task_message dict get as_str
    names_image path context h = record { text = refl; full = h }

    enqueue_task-Told :
        (o : Option Disk) (now path : String) (raw : c.Bytes) (task : TaskV2) (d : Disk)
        → failure ≡ o
        → decode_task py c raw ≡ ok task
        → resolve_task_image_path py fs folder task ≡ some (some path)
        → is_empty (strip path) ≡ false
        → Told raw d (some (enqueue_task py c fs folder config o now path task.context d))
    unfolding enqueue_task answer_message ack_or_nak
    enqueue_task-Told (some left) now path raw task d f e p h =
        ((task, path, e, p), unfold ack_or_nak in refused nak_delay, f)
    enqueue_task-Told none now path raw task d f e p h = (
      (
        task,
        path,
        e,
        p,
        any_path-enqueue fs.resolve config (task_message path task.context) path now d
            (names_image path task.context h),
      ),
      refl,
      f,
    )

    process_task-Told :
        (now : String) (raw : c.Bytes) (task : TaskV2) (d : Disk)
        → decode_task py c raw ≡ ok task
        → Told raw d (process_task py c fs folder config failure now task d)
    unfolding process_task answer_message ack_or_nak
    process_task-Told now raw task d e =
        of_path (resolve_task_image_path py fs folder task) refl
          (resolve_task_image_path-IsFound py fs folder task)
      where
        of_path :
            (o : Search)
            → resolve_task_image_path py fs folder task ≡ o
            → IsFound fs o
            → Told raw d (elim o [
              | none ↦ none
              | some none ↦ some (record { success = false; outcome = unresolved_path; disk = d })
              | some (some path) ↦
                  some (enqueue_task py c fs folder config failure now path task.context d)
            ])
        of_path none p f = ((task, e, p), refl, refl)
        of_path (some none) p f = ((task, e, p), refused nak_delay, refl)
        of_path (some (some path)) p f =
            enqueue_task-Told failure now path raw task d refl e p (rw f.1 (full f.0))

    -- What is answered to a message of JetStream. One whose payload cannot be read is acknowledged and
    -- changes nothing. One whose image is not found is refused and changes nothing. One that is
    -- counted as enqueued is acknowledged, and an item of the queue has its resolved path. One
    -- whose enqueueing raises is refused. If the search for the image raises, the message gets no
    -- answer, and nothing changes. What the file system resolves a path to is not blank.
    pub process_message-Told :
        (now : String) (raw : c.Bytes) (d : Disk)
        → let r = on_message py c fs folder config true nak_delay failure now raw d in
          Tells raw d r r.outcome
    unfolding process_message on_message answer_message
    process_message-Told now raw d = of_task (decode_task py c raw) refl
      where
        of_task :
            (r : Result DecodeError TaskV2)
            → decode_task py c raw ≡ r
            → Told raw d (elim r [
              | err e ↦ some (record { success = true; outcome = invalid_payload; disk = d })
              | ok task ↦ process_task py c fs folder config failure now task d
            ])
        of_task (err e) h = ((e, h), unfold ack_or_nak in refl, refl)
        of_task (ok task) h = process_task-Told now raw task d h
