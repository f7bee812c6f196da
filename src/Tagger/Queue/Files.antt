-- ===== src/Tagger/Queue/Files.antt =====
-- What the files hold after each operation on them.
use data_assistant.Base.Json.{arr, Fields}
use data_assistant.Base.{refl, ◌++◌, ap, [], ◌∷◌, some, ◌≡◌, none, List, Option}
use data_assistant.Tagger.Queue.{
  json, save_queue, not_queued, Content, load_queue, restore_inflight, restore_items, Disk, load,
  dicts, objs, saved,
}

-- What the queue file and the in-flight file read as.
abbrev pub queue_of : Disk → List Fields
queue_of d = (load d.queue).items

abbrev pub inflight_of : Disk → List Fields
inflight_of d = (load d.inflight).items

pub dicts-objs : (ds : List Fields) → dicts (objs ds) ≡ ds
unfolding dicts objs
dicts-objs [] = refl
dicts-objs (d ∷ ds) = ap (λ l. d ∷ l) (dicts-objs ds)

-- A file that was saved reads back as the items that were saved, and is kept.
pub load-saved :
    (ds : List Fields) → load (saved ds) ≡ record { items = ds; file = saved ds; moved = [] }
unfolding load
load-saved ds = rw dicts-objs

pub load-none : load none ≡ record { items = []; file = none; moved = [] }
unfolding load
load-none = refl

pub items-load : (f : Option Content) → (load (load f).file).items ≡ (load f).items
unfolding load
items-load none = refl
items-load (some (json (arr vs))) = refl
items-load (some _) = refl

queue-restore_items :
    (inflight_items : List Fields) (d : Disk)
    → queue_of (restore_items inflight_items d)
      ≡ not_queued (queue_of d) inflight_items ++ queue_of d
unfolding restore_items load_queue save_queue
queue-restore_items [] d = unfold not_queued in refl
queue-restore_items (item ∷ items) d = of_list (not_queued (queue_of d) (item ∷ items)) refl
  where
    of_list :
        (l : List Fields)
        → not_queued (queue_of d) (item ∷ items) ≡ l
        → queue_of (restore_items (item ∷ items) d) ≡ l ++ queue_of d
    of_list [] e = rw (restore_items, e) (items-load d.queue)
    of_list (x ∷ l) e = rw (restore_items, e) (ap (λ r. r.items) (load-saved (x ∷ l ++ queue_of d)))

-- After a restore the queue holds the in-flight items that it lacked, and then what it held.
pub queue-restore_inflight :
    (d : Disk)
    → queue_of (restore_inflight d) ≡ not_queued (queue_of d) (inflight_of d) ++ queue_of d
unfolding restore_inflight
queue-restore_inflight d = queue-restore_items (inflight_of d) _

pub inflight-restore_inflight : (d : Disk) → (restore_inflight d).inflight ≡ none
unfolding restore_inflight
inflight-restore_inflight d = refl

audit-restore_items : (items : List Fields) (d : Disk) → (restore_items items d).audit ≡ d.audit
unfolding restore_items load_queue save_queue
audit-restore_items [] d = refl
audit-restore_items (item ∷ items) d = of_list (not_queued (queue_of d) (item ∷ items)) refl
  where
    of_list :
        (l : List Fields)
        → not_queued (queue_of d) (item ∷ items) ≡ l
        → (restore_items (item ∷ items) d).audit ≡ d.audit
    of_list [] e = rw (e, restore_items)
    of_list (x ∷ l) e = rw (e, restore_items)

pub audit-restore_inflight : (d : Disk) → (restore_inflight d).audit ≡ d.audit
unfolding restore_inflight
audit-restore_inflight d = audit-restore_items (inflight_of d) _
