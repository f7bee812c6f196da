-- ===== src/Worker/Message.antt =====
-- `_process_tagger_task_message`, and what is answered to the bus. `failure` is what the file system
-- may do to the enqueueing: the disk that is left where it raises.
pub mod Acknowledged
use data_assistant.Base.Result.{err, ok}
use data_assistant.Worker.Resolve.{resolve_task_image_path, Folder}
use data_assistant.Tagger.Batch.{FileSystem}
use data_assistant.Tagger.Queue.{enqueue, TaggerConfig, Disk}
use data_assistant.Contract.{TaskV2, decode_task, Codec}
use data_assistant.Base.Json.{obj, str, Fields, dict}
use data_assistant.Base.Text.{Python}
use data_assistant.Base.{
  ltb, false, if◌then◌else◌, some, none, true, [], ◌∷◌, ℕ, String, Option, Bool,
}

pub data Outcome : Type 0 where
  invalid_payload unresolved_path enqueued failed : Outcome

-- The result, the outcome that is counted, and the disk.
pub record Processed : Type 0 where
  pub success : Bool
  pub outcome : Outcome
  pub disk : Disk

task_message : String → Fields → Fields
unfolding dict
task_message path context = dict (("image_path", str path) ∷ ("context", obj context) ∷ [])

module _ (py : Python) (c : Codec) (fs : FileSystem) (folder : Folder) (config : TaggerConfig) where
  enqueue_task : Option Disk → String → String → Fields → Disk → Processed
  unfolding enqueue task_message
  enqueue_task none now path context d = record {
    success = true;
    outcome = enqueued;
    disk = (enqueue fs.resolve config (task_message path context) now d).1;
  }
  enqueue_task (some left) now path context d = record {
    success = false;
    outcome = failed;
    disk = left;
  }

  -- `none` if the search for the image raises, which nothing here catches.
  process_task : Option Disk → String → TaskV2 → Disk → Option Processed
  unfolding enqueue_task resolve_task_image_path
  process_task failure now task d = elim (resolve_task_image_path py fs folder task) [
    | none ↦ none
    | some none ↦ some (record { success = false; outcome = unresolved_path; disk = d })
    | some (some path) ↦ some (enqueue_task failure now path task.context d)
  ]

  unfoldable pub process_message : Option Disk → String → c.Bytes → Disk → Option Processed
  unfolding process_task decode_task
  process_message failure now raw d = elim (decode_task py c raw) [
    | err e ↦ some (record { success = true; outcome = invalid_payload; disk = d })
    | ok task ↦ process_task failure now task d
  ]

-- What is answered to a message of JetStream, which carries metadata; a delay of 0 is none.
pub data Answer : Type 0 where
  no_answer ack : Answer
  nak : Option ℕ → Answer

unfoldable pub ack_or_nak : Bool → Bool → ℕ → Answer
ack_or_nak false success nak_delay = no_answer
ack_or_nak true true nak_delay = ack
ack_or_nak true false nak_delay = if ltb 0 nak_delay then nak (some nak_delay) else nak none

-- What came of a message: the answer, the outcome that was counted, if the processing returned, and
-- the disk.
pub record Handled : Type 0 where
  pub answer : Answer
  pub outcome : Option Outcome
  pub disk : Disk

-- `_on_message`: an exception that escapes ends it before the answer.
unfoldable pub answer_message : Bool → ℕ → Disk → Option Processed → Handled
unfolding ack_or_nak
answer_message has_metadata nak_delay d none = record {
  answer = no_answer;
  outcome = none;
  disk = d;
}
answer_message has_metadata nak_delay d (some r) = record {
  answer = ack_or_nak has_metadata r.success nak_delay;
  outcome = some r.outcome;
  disk = r.disk;
}

unfoldable pub on_message :
    (py : Python) (c : Codec)
    → FileSystem
    → Folder
    → TaggerConfig
    → Bool
    → ℕ
    → Option Disk
    → String
    → c.Bytes
    → Disk
    → Handled
unfolding process_message answer_message
on_message py c fs folder config has_metadata nak_delay failure now raw d =
    answer_message has_metadata nak_delay d
      (process_message py c fs folder config failure now raw d)
