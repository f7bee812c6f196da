-- ===== src/Tagger/Queue.antt =====
-- The queue file, the in-flight file and the audit log, and what is done to them under the lock.
-- A file holds JSON, or text that is no JSON; `none` is a file that does not exist. A corrupt file
-- is moved to a fresh name: `archived` lists what was moved away, and no name is used twice.
pub mod Files
pub mod Paths
pub mod Enqueue
use data_assistant.Base.Text.{strip, is_empty}
use Prim.Native.Nat.{ℕ}
use data_assistant.Base.{
  String, [], ◌||◌, str_eq, ◌++◌, length, ◌∷◌, some, if◌then◌else◌, false, Bool, List, Option, none,
}
use data_assistant.Base.Json.{
  int, end, arr, obj, nil, cons, str, get_default, Fields, Json, Items, dict, get, pos,
}

pub data Content : Type 0 where
  not_json : Content
  json : Json → Content

pub record Disk : Type 0 where
  pub queue : Option Content
  pub inflight : Option Content
  pub archived : List Content
  pub audit : List Fields

pub record TaggerConfig : Type 0 where
  pub enabled : Bool
  pub auto_run : Bool
  pub base_url : Option String
  pub batch_size : ℕ
  pub max_attempts : ℕ

-- `[item for item in payload if isinstance(item, dict)]`
unfoldable pub dicts : Items → List Fields
dicts nil = []
dicts (cons (obj d) vs) = d ∷ dicts vs
dicts (cons _ vs) = dicts vs

unfoldable pub objs : List Fields → Items
objs [] = nil
objs (d ∷ ds) = cons (obj d) (objs ds)

pub record Loaded : Type 0 where
  pub items : List Fields
  pub file : Option Content
  pub moved : List Content

-- `_load_queue`, for either file: a file that holds no list is archived, and reads as empty.
unfoldable pub load : Option Content → Loaded
unfolding dicts
load none = record { items = []; file = none; moved = [] }
load (some (json (arr vs))) = record { items = dicts vs; file = some (json (arr vs)); moved = [] }
load (some c) = record { items = []; file = none; moved = c ∷ [] }

unfoldable pub load_queue : Disk → List Fields × Disk
load_queue d =
    let l = load d.queue in (l.items, record d { queue = l.file; archived = d.archived ++ l.moved })

unfoldable pub load_inflight : Disk → List Fields × Disk
load_inflight d =
    let l = load d.inflight in
    (l.items, record d { inflight = l.file; archived = d.archived ++ l.moved })

-- `_save_queue` writes a temporary file and moves it over the old one.
abbrev pub saved : List Fields → Option Content
saved items = some (json (arr (objs items)))

unfoldable pub save_queue : List Fields → Disk → Disk
save_queue items d = record d { queue = saved items }

unfoldable pub save_inflight : List Fields → Disk → Disk
save_inflight items d = record d { inflight = saved items }

unfoldable pub clear_inflight : Disk → Disk
clear_inflight d = record d { inflight = none }

-- `item.get("image_path")`, if it is text.
unfoldable pub as_str : Json → Option String
as_str (str s) = some s
as_str _ = none

unfoldable pub path_of : Fields → Option String
unfolding get as_str
path_of item = as_str (get "image_path" item)

has_path : String → Option String → Bool
has_path p none = false
has_path p (some q) = str_eq p q

-- `any(item.get("image_path") == path for item in items)`
unfoldable pub any_path : String → List Fields → Bool
unfolding path_of has_path
any_path p [] = false
any_path p (item ∷ items) = has_path p (path_of item) || any_path p items

unfoldable pub is_queued : List Fields → Option String → Bool
is_queued queue none = false
is_queued queue (some p) = any_path p queue

-- The in-flight items that are not queued; one whose path is not text is kept.
unfoldable pub not_queued : List Fields → List Fields → List Fields
unfolding is_queued
not_queued queue [] = []
not_queued queue (item ∷ items) =
    let rest = not_queued queue items in
    if is_queued queue (path_of item) then rest else item ∷ rest

-- The tail of `_restore_inflight`, when there is something to restore.
restore_items : List Fields → Disk → Disk
restore_items [] d = d
restore_items (item ∷ inflight_items) d =
    let (queue_items, d1) = load_queue d in
    elim (not_queued queue_items (item ∷ inflight_items)) [
      | [] ↦ d1
      | restored ∷ more ↦ save_queue ((restored ∷ more) ++ queue_items) d1
    ]

unfoldable pub restore_inflight : Disk → Disk
unfolding load_queue load_inflight save_queue clear_inflight restore_items not_queued
restore_inflight d =
    let (inflight_items, d1) = load_inflight d in clear_inflight (restore_items inflight_items d1)

-- What `enqueue_tagger_task_payload` did; a queued item may start the auto-run worker.
pub data Enqueued : Type 0 where
  ignored : Enqueued
  duplicate : Enqueued
  queued : Bool → Enqueued

unfoldable pub as_dict : Json → Fields
as_dict (obj d) = d
as_dict _ = end

pub queue_item : String → Fields → String → Fields
unfolding dict
queue_item path context now = dict (
    ("image_path", str path)
    ∷ ("context", obj context)
    ∷ ("enqueued_at", str now)
    ∷ ("attempt_count", int (pos 0))
    ∷ [])

-- `resolve` is `Path(…).resolve()`, and `now` the clock's text.
module _ (resolve : String → String) where
  -- The section under the lock.
  append_item : TaggerConfig → String → Fields → String → Disk → Enqueued × Disk
  append_item config path context now d =
      let (items, d1) = load_queue d in
      if any_path path items
      then (duplicate, d1)
      else (queued config.auto_run, save_queue (items ++ queue_item path context now ∷ []) d1)

  unfoldable pub enqueue : TaggerConfig → Fields → String → Disk → Enqueued × Disk
  unfolding append_item
  enqueue config payload now d = elim (as_str (get "image_path" payload)) [
    | none ↦ (ignored, d)
    | some raw ↦
        if is_empty (strip raw)
        then (ignored, d)
        else append_item config (resolve (strip raw))
            (as_dict (get_default "context" (obj end) payload)) now d
  ]

-- `get_pending_tagger_count`
unfoldable pub pending_count : TaggerConfig → Disk → ℕ × Disk
unfolding restore_inflight
pending_count config d =
    if config.enabled
    then (let (items, d1) = load_queue (restore_inflight d) in (length items, d1))
    else (0, d)
