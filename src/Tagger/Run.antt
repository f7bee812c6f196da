-- ===== src/Tagger/Run.antt =====
-- `run_tagger_once` and the loops over it, in tagger_pipeline.py. The runner is a parameter: it
-- returns the results of a batch, or raises with a text. `now` is the clock's text.
pub mod Crash
pub mod Accounting
pub mod Retried
pub mod Pass
pub mod Termination
use data_assistant.Base.Result.{err, ok, Result}
use data_assistant.Base.Json.{
  float, elements, bool, pos, suc_ℤ, nil, end, ltb_ℤ, ℤ, obj, int, arr, get?, str, put, get_default,
  Fields, Items, get, dict, Json,
}
use data_assistant.Base.Text.{py_str, py_int, converted, Converted, is_empty, Python}
use data_assistant.Base.{
  zero, map, not, length, drop, suc, take, false, str_eq, some, true, ◌++◌, ◌∷◌, ◌&&◌, none,
  if◌then◌else◌, Bool, ◌+◌, Option, String, List, [], ℕ,
}
use data_assistant.Tagger.Queue.{
  save_inflight, clear_inflight, save_queue, TaggerConfig, load_queue, json, path_of,
  restore_inflight, Disk,
}

pub record Summary : Type 0 where
  pub picked : ℕ
  pub success : ℕ
  pub failed : ℕ
  pub requeued : ℕ

abbrev pub no_work : Summary
no_work = record { picked = 0; success = 0; failed = 0; requeued = 0 }

-- A runner's result list, or the text of what it raised.
abbrev pub Runner : Type 0
Runner = List Fields → Result String (List Fields)

-- The batch moves from the queue to the in-flight file.
unfoldable pub take_from : ℕ → List Fields → Disk → Option (List Fields) × Disk
unfolding save_queue save_inflight
take_from size [] d = (none, d)
take_from size (item ∷ items) d =
    let all : List Fields = item ∷ items in
    (some (take size all), save_queue (drop size all) (save_inflight (take size all) d))

-- The first section under the lock; `none` if the queue is empty.
unfoldable pub take_batch : ℕ → Disk → Option (List Fields) × Disk
unfolding load_queue take_from
take_batch size d = let (items, d1) = load_queue (restore_inflight d) in take_from size items d1

failed_result : String → Fields → Fields
unfolding dict
failed_result error item =
    dict (("item", obj item) ∷ ("status", str "failed") ∷ ("error", str error) ∷ [])

-- What the batch loop has done so far: the counters, the items to queue again, the audit lines.
pub record Tally : Type 0 where
  pub success : ℕ
  pub failed : ℕ
  pub requeue : List Fields
  pub lines : List Fields

abbrev pub no_tally : Tally
no_tally = record { success = 0; failed = 0; requeue = []; lines = [] }

-- A runner's results by path. The dictionary is only looked up, so the newest entry stands first.
abbrev pub ByPath : Type 0
ByPath = List (String × Fields)

unfoldable pub result_for : String → ByPath → Option Fields
result_for p [] = none
result_for p ((q, r) ∷ by_path) = if str_eq p q then some r else result_for p by_path

list_or_empty : Json → Items
list_or_empty (arr vs) = vs
list_or_empty _ = nil

is_success : Json → Bool
is_success (str s) = str_eq s "success"
is_success _ = false

-- `except Exception`: each item fails with the exception's text.
unfoldable pub run_batch : Runner → List Fields → List Fields
unfolding failed_result
run_batch runner batch = elim (runner batch) [
  | ok results ↦ results
  | err e ↦ map (failed_result e) batch
]

pub data Ran : Type 0 where
  returned : Summary → Ran
  raised : Ran

-- The second section under the lock: the queue is read again, for it may have grown.
requeue_items : List Fields → Disk → Disk
requeue_items [] d = d
requeue_items (item ∷ items) d =
    let (queue_items, d1) = load_queue d in save_queue ((item ∷ items) ++ queue_items) d1

append_audit : List Fields → Disk → Disk
append_audit lines d = record d { audit = d.audit ++ lines }

unfoldable pub is_configured : TaggerConfig → Bool
is_configured config =
    config.enabled && (elim config.base_url [ none ↦ false | some url ↦ not (is_empty url) ])

abbrev pub add_summary : Summary → Summary → Summary
add_summary a b = record {
  picked = a.picked + b.picked;
  success = a.success + b.success;
  failed = a.failed + b.failed;
  requeued = a.requeued + b.requeued;
}

-- `int(n) + 1`, which may raise.
next_attempt : Converted → Option ℤ
next_attempt (converted n) = some (suc_ℤ n)
next_attempt _ = none

-- What `run_tagger_until_empty` does after a pass: `loop` is its next round.
after_pass : (Summary → Disk → Option (Ran × Disk)) → Summary → Ran × Disk → Option (Ran × Disk)
after_pass loop total (raised, d) = some (raised, d)
after_pass loop total (returned s, d) = elim (s.picked) [
  | zero ↦ some (returned total, d)
  | suc n ↦ loop (add_summary total s) d
]

module _ (py : Python) where
  -- `str(item.get("image_path", ""))`
  unfoldable pub image_path : Fields → String
  unfolding get_default get? py_str
  image_path item = py_str py (get_default "image_path" (str "") item)

  add_result : Fields → ByPath → Json → ByPath
  add_result result by_path (obj item) =
      if is_empty (image_path item) then by_path else (image_path item, result) ∷ by_path
  add_result result by_path _ = by_path

  unfoldable pub result_by_path : List Fields → ByPath → ByPath
  unfolding get add_result
  result_by_path [] by_path = by_path
  result_by_path (result ∷ results) by_path =
      result_by_path results (add_result result by_path (get "item" result))

  -- `n + 1`, which raises for what is no number.
  plus_one : Json → Option Json
  plus_one (int n) = some (int (suc_ℤ n))
  plus_one (bool b) = some (int (pos (if b then 2 else 1)))
  plus_one (float s) = some (float (py.float_suc s))
  plus_one _ = none

  -- The attempt that an item is at, `int(item.get("attempt_count", 0)) + 1`.
  unfoldable pub attempt_of : Fields → Option ℤ
  unfolding next_attempt get_default get? py_int
  attempt_of item = next_attempt (py_int py (get_default "attempt_count" (int (pos 0)) item))

  module _ (max_attempts : ℕ) (now : String) where
    succeed : Fields → Fields → Tally → Option Tally
    unfolding list_or_empty plus_one dict get_default
    succeed item result t =
        let tags = list_or_empty (get_default "tags" (arr nil) result) in
        elim (plus_one (get_default "attempt_count" (int (pos 0)) item)) [
          | none ↦ none
          | some attempts ↦ some (record t {
            success = suc t.success;
            lines =
                t.lines
                ++ dict (
                    ("logged_at", str now)
                    ∷ ("status", str "success")
                    ∷ ("image_path", str (image_path item))
                    ∷ ("tag_count", int (pos (length (elements tags))))
                    ∷ ("tags", arr tags)
                    ∷ ("attempt_count", attempts)
                    ∷ ("context", get_default "context" (obj end) item)
                    ∷ [])
                  ∷ [];
          })
        ]

    failure_line : String → Fields → String → ℤ → Fields
    unfolding dict get_default
    failure_line status item error attempts = dict (
        ("logged_at", str now)
        ∷ ("status", str status)
        ∷ ("image_path", str (image_path item))
        ∷ ("error", str error)
        ∷ ("attempt_count", int attempts)
        ∷ ("context", get_default "context" (obj end) item)
        ∷ [])

    fail : Fields → String → ℤ → Tally → Tally
    unfolding put failure_line
    fail item error attempts t =
        if ltb_ℤ attempts (pos max_attempts)
        then record t {
          failed = suc t.failed;
          requeue = t.requeue ++ put "attempt_count" (int attempts) item ∷ [];
          lines = t.lines ++ failure_line "retrying" item error attempts ∷ [];
        }
        else record t {
          failed = suc t.failed;
          lines = t.lines ++ failure_line "failed" item error attempts ∷ [];
        }

    -- The loop's body for one item and its result; `none` if it raises.
    settle_with : Fields → Fields → Tally → Option Tally
    unfolding is_success succeed fail get attempt_of get_default
    settle_with item result t =
        if is_success (get "status" result) then succeed item result t else elim (attempt_of item) [
          | none ↦ none
          | some attempts ↦ some (
              fail item (py_str py (get_default "error" (str "unknown tagger error") result))
                attempts t)
        ]

    unfoldable pub settle : ByPath → Fields → Tally → Option Tally
    unfolding settle_with result_for failed_result
    settle by_path item t = elim (result_for (image_path item) by_path) [
      | none ↦ settle_with item (failed_result "missing result from tagger runner" item) t
      | some result ↦ settle_with item result t
    ]

    -- The loop; the flag is false if it raised.
    unfoldable pub settle_all : ByPath → List Fields → Tally → Tally × Bool
    settle_all by_path [] t = (t, true)
    settle_all by_path (item ∷ items) t = elim (settle by_path item t) [
      | none ↦ (t, false)
      | some t' ↦ settle_all by_path items t'
    ]

  -- What follows the runner. `d` is the disk at the end of the batch.
  unfoldable pub finish : TaggerConfig → String → List Fields → List Fields → Disk → Ran × Disk
  unfolding requeue_items append_audit load_queue save_queue clear_inflight
  finish config now batch results d =
      let (t, done) =
        settle_all config.max_attempts now (result_by_path results []) batch no_tally in
      let d1 = append_audit t.lines d in
      if done
      then (
        returned (record {
          picked = length batch;
          success = t.success;
          failed = t.failed;
          requeued = length t.requeue;
        }),
        clear_inflight (requeue_items t.requeue d1),
      )
      else (raised, d1)

  after_take : TaggerConfig → Runner → String → Option (List Fields) × Disk → Ran × Disk
  after_take config runner now (none, d) = (returned no_work, d)
  after_take config runner now (some items, d) = finish config now items (run_batch runner items) d

  unfoldable pub run_tagger_once : TaggerConfig → Runner → String → Disk → Ran × Disk
  unfolding is_configured is_empty after_take
  run_tagger_once config runner now d =
      if is_configured config
      then after_take config runner now (take_batch config.batch_size d)
      else (returned no_work, d)

  -- `run_tagger_until_empty` with fuel; `none` if the fuel runs out. The runner may answer
  -- differently on each pass.
  unfoldable pub run_until_empty :
      TaggerConfig → (ℕ → Runner) → String → ℕ → Summary → Disk → Option (Ran × Disk)
  unfolding after_pass
  run_until_empty config runner now zero total d = none
  run_until_empty config runner now (suc fuel) total d =
      after_pass (run_until_empty config runner now fuel) total
        (run_tagger_once config (runner fuel) now d)
