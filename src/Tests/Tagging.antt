-- ===== src/Tests/Tagging.antt =====
-- The theorems on the tagger's queue, applied to a queue of three items.
use data_assistant.Tagger.Run.Accounting.{weight, weights}
use data_assistant.Base.Json.{pos, int, obj, str, field, get?, get_default, get, end, dict}
use data_assistant.Base.{[], ◌∷◌, arith, ◌<◌, ◌++◌, refl, if◌then◌else◌, true, ◌≡◌}
use data_assistant.Base.Text.{strip, is_empty}
use data_assistant.Tests.Inputs.{item, a_runner, a_disk, a_python, a_config}
use data_assistant.Tagger.Run.Crash.{waiting-take_batch, take_batch_twice, waiting}
use data_assistant.Tagger.Queue.Files.{queue_of}
use data_assistant.Tagger.Queue.Enqueue.{
  queue-enqueue, enqueue_twice, enqueue-NodupPaths, NamesImage,
}
use data_assistant.Tagger.Queue.Paths.{NodupPaths}
use data_assistant.Tagger.Queue.{
  is_queued, path_of, as_dict, as_str, duplicate, objs, any_path, restore_inflight, enqueue, Disk,
  load,
}
use data_assistant.Tagger.Run.Termination.{run_until_empty-Ended, Ended}
use data_assistant.Tagger.Run.{
  attempt_of, no_work, run_until_empty, run_tagger_once, Summary, is_configured, take_batch,
}
use data_assistant.Tagger.Run.Pass.{work}

is_configured-a_config : is_configured a_config ≡ true
unfolding is_configured is_empty
is_configured-a_config = refl

a_disk-NodupPaths : NodupPaths (waiting a_disk)
unfolding restore_inflight load any_path objs dict
a_disk-NodupPaths = (refl, (refl, (refl, tt)))

pub work-a_disk : work a_python 3 a_disk < 20
unfolding load objs weights attempt_of weight dict
work-a_disk = omega arith

run_until_empty-Ended_example :
    Ended (run_until_empty a_python a_config a_runner "now" 20 no_work a_disk)
run_until_empty-Ended_example =
    run_until_empty-Ended a_python a_config "now" a_runner 20 no_work a_disk is_configured-a_config
      (omega arith) refl (omega arith) work-a_disk

waiting-take_batch_example : waiting (take_batch 2 a_disk).1 ≡ waiting a_disk
waiting-take_batch_example = waiting-take_batch 2 a_disk a_disk-NodupPaths

take_batch_twice_example : (take_batch 2 (take_batch 2 a_disk).1).0 ≡ (take_batch 2 a_disk).0
take_batch_twice_example = take_batch_twice 2 a_disk a_disk-NodupPaths

abbrev one_pass : Summary
one_pass = record { picked = 2; success = 0; failed = 2; requeued = 2 }

abbrev disk_after : Disk
disk_after = (run_tagger_once a_python a_config (a_runner 0) "now" a_disk).1

names_image : NamesImage (λ s. s) a_config (item " /d.png " 0) " /d.png "
unfolding as_str get dict is_empty strip
names_image = record { text = refl; full = refl }

queue-enqueue_example : queue_of (enqueue (λ s. s) a_config (item " /d.png " 0) "now" a_disk).1 ≡ (
    if any_path "/d.png" (queue_of a_disk)
    then queue_of a_disk
    else queue_of a_disk
      ++ field "image_path" (str "/d.png") (
          field "context"
            (obj end)
            (field "enqueued_at" (str "now") (field "attempt_count" (int (pos 0)) end)))
        ∷ [])
unfolding strip as_dict get_default get? dict
queue-enqueue_example =
    queue-enqueue (λ s. s) a_config (item " /d.png " 0) " /d.png " "now" a_disk names_image

enqueue_twice_example :
    enqueue
      (λ s. s)
      a_config
      (item " /d.png " 0)
      "later"
      (enqueue (λ s. s) a_config (item " /d.png " 0) "now" a_disk).1
    ≡ (duplicate, (enqueue (λ s. s) a_config (item " /d.png " 0) "now" a_disk).1)
enqueue_twice_example =
    enqueue_twice (λ s. s) a_config (item " /d.png " 0) " /d.png " "now" "later" a_disk names_image

queue_a_disk : NodupPaths (queue_of a_disk)
unfolding load any_path objs dict path_of is_queued
queue_a_disk = (refl, (refl, (refl, tt)))

enqueue-NodupPaths_example :
    NodupPaths (queue_of (enqueue (λ s. s) a_config (item " /d.png " 0) "now" a_disk).1)
enqueue-NodupPaths_example =
    enqueue-NodupPaths (λ s. s) a_config (item " /d.png " 0) " /d.png " "now" a_disk names_image
      queue_a_disk
