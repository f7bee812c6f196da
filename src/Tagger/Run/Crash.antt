-- ===== src/Tagger/Run/Crash.antt =====
-- A batch whose pass stops before its end, and two passes at once.
use data_assistant.Base.Json.{Fields}
use data_assistant.Tagger.Queue.Files.{
  load-none, inflight-restore_inflight, items-load, load-saved, queue_of, inflight_of,
  queue-restore_inflight,
}
use data_assistant.Base.{
  sym, zero, ◌∙◌, suc, refl, some, ap, take, none, [], drop, take-append-drop, Option, ◌∷◌, ◌≡◌,
  List, ℕ,
}
use data_assistant.Tagger.Queue.{load, restore_inflight, Disk}
use data_assistant.Tagger.Run.{take_from, take_batch}
use data_assistant.Tagger.Queue.Paths.{not_queued-drop-take, NodupPaths}

-- The items that a pass finds: what is in flight is restored first.
abbrev pub waiting : Disk → List Fields
waiting d = queue_of (restore_inflight d)

-- What a pass takes from the waiting items.
abbrev pub first_batch : ℕ → List Fields → Option (List Fields)
first_batch size [] = none
first_batch size (item ∷ items) = some (take size (item ∷ items))

pub drop-nil : (n : ℕ) → drop {A = Fields} n [] ≡ []
drop-nil zero = refl
drop-nil (suc n) = refl

pub take-nil : (n : ℕ) → take {A = Fields} n [] ≡ []
take-nil zero = refl
take-nil (suc n) = refl

module _ (size : ℕ) where
  first_batch-take_from :
      (items : List Fields) (d : Disk) → (take_from size items d).0 ≡ first_batch size items
  unfolding take_from
  first_batch-take_from [] d = refl
  first_batch-take_from (item ∷ items) d = refl

  queue-take_from :
      (items : List Fields) (d : Disk)
      → queue_of d ≡ items
      → queue_of (take_from size items d).1 ≡ drop size items
  unfolding take_from
  queue-take_from [] d e = e ∙ sym (drop-nil size)
  queue-take_from (item ∷ items) d e = ap (λ r. r.items) (load-saved (drop size (item ∷ items)))

  inflight-take_from :
      (items : List Fields) (d : Disk)
      → inflight_of d ≡ []
      → inflight_of (take_from size items d).1 ≡ take size items
  unfolding take_from
  inflight-take_from [] d e = e ∙ sym (take-nil size)
  inflight-take_from (item ∷ items) d e = ap (λ r. r.items) (load-saved (take size (item ∷ items)))

  pub take_batch-first_batch : (d : Disk) → (take_batch size d).0 ≡ first_batch size (waiting d)
  unfolding take_batch
  take_batch-first_batch d = first_batch-take_from (waiting d) _

  pub queue-take_batch : (d : Disk) → queue_of (take_batch size d).1 ≡ drop size (waiting d)
  unfolding take_batch
  queue-take_batch d = queue-take_from (waiting d) _ (items-load (restore_inflight d).queue)

  pub inflight-take_batch : (d : Disk) → inflight_of (take_batch size d).1 ≡ take size (waiting d)
  unfolding take_batch
  inflight-take_batch d =
      inflight-take_from (waiting d) _
        (ap (λ f. (load f).items) (inflight-restore_inflight d) ∙ ap (λ r. r.items) load-none)

-- If the process stops while a batch is in flight, and no two waiting items have the same path,
-- the next restore brings back exactly the items that were waiting, in their order.
pub waiting-take_batch :
    (size : ℕ) (d : Disk) → NodupPaths (waiting d) → waiting (take_batch size d).1 ≡ waiting d
waiting-take_batch size d h =
    rw
      (
        queue-restore_inflight (take_batch size d).1,
        queue-take_batch size d,
        inflight-take_batch size d,
        not_queued-drop-take size (waiting d) h,
      )
      (take-append-drop size (waiting d))

-- A pass that starts while the batch of another is in flight takes that same batch again, if no two
-- waiting items have the same path.
pub take_batch_twice :
    (size : ℕ) (d : Disk)
    → NodupPaths (waiting d)
    → (take_batch size (take_batch size d).1).0 ≡ (take_batch size d).0
take_batch_twice size d h = rw (
  take_batch-first_batch size (take_batch size d).1,
  take_batch-first_batch size d,
  waiting-take_batch size d h,
)
