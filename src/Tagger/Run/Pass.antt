-- ===== src/Tagger/Run/Pass.antt =====
-- What one whole pass of `run_tagger_once` does to the queue and the audit log.
use data_assistant.Tagger.Run.Retried.{Retries}
use data_assistant.Base.Json.{Fields}
use data_assistant.Tagger.Run.Crash.{
  inflight-take_batch, queue-take_batch, take_batch-first_batch, take-nil, drop-nil, first_batch,
  waiting,
}
use data_assistant.Tagger.Queue.Files.{
  load-none, audit-restore_inflight, load-saved, queue-restore_inflight, inflight_of, queue_of,
}
use data_assistant.Base.{
  none, length-drop, length-take, some, Option, min, length-append, Bool-cases, inl, inr, false,
  ◌⊎◌, true, Bool, String, take-append-drop, refl, sym, drop, [], ap, ◌++◌, ◌∷◌, length, arith,
  take, ◌+◌, ◌≤◌, ◌∙◌, List, ◌≡◌, ℕ,
}
use data_assistant.Tagger.Queue.{TaggerConfig, save_queue, not_queued, load_queue, Disk}
use data_assistant.Tagger.Run.{
  run_batch, run_tagger_once, is_configured, after_take, Runner, no_work, no_tally, result_by_path,
  settle_all, Tally, finish, raised, returned, Ran, Summary, requeue_items, take_batch, take_from,
}
use data_assistant.Base.Text.{Python}
use data_assistant.Tagger.Run.Accounting.{settle_all-Settled, weights, weights-append}

-- What is to be done: the items that wait, and the items in flight, each with its attempts.
abbrev pub work : Python → ℕ → Disk → ℕ
work py max_attempts d =
    weights py max_attempts (queue_of d) + weights py max_attempts (inflight_of d)

-- A pass over the items that `d` has waiting returned `s` and left `d'`.
pub record Passed (py : Python) (config : TaggerConfig) (d d' : Disk) (s : Summary) : Type 0 where
  -- A whole batch is picked, or all that waits.
  pub picked : s.picked ≡ min config.batch_size (length (waiting d))
  -- Every item that was picked succeeded or failed.
  pub settled : s.picked ≡ s.success + s.failed
  -- Only failed items are queued again.
  pub requeued : s.requeued ≤ s.failed
  -- No item is lost but those that succeeded or failed for good.
  pub queue : length (queue_of d') + s.picked ≡ length (waiting d) + s.requeued
  -- Nothing is in flight at the end.
  pub inflight : inflight_of d' ≡ []
  -- One audit line is written for each item.
  pub audit : length d'.audit ≡ length d.audit + s.picked
  -- Each item that was picked used up an attempt.
  pub work_falls : work py config.max_attempts d' + s.picked ≤ work py config.max_attempts d

audit-take_from :
    (size : ℕ) (items : List Fields) (d : Disk) → (take_from size items d).1.audit ≡ d.audit
unfolding take_from
audit-take_from size [] d = refl
audit-take_from size (item ∷ items) d = refl

audit-take_batch : (size : ℕ) (d : Disk) → (take_batch size d).1.audit ≡ d.audit
unfolding take_batch
audit-take_batch size d = audit-take_from size (waiting d) _ ∙ audit-restore_inflight d

queue-requeue_items :
    (items : List Fields) (d : Disk) → queue_of (requeue_items items d) ≡ items ++ queue_of d
unfolding requeue_items load_queue save_queue
queue-requeue_items [] d = refl
queue-requeue_items (item ∷ items) d = ap (λ r. r.items) (load-saved _)

audit-requeue_items : (items : List Fields) (d : Disk) → (requeue_items items d).audit ≡ d.audit
unfolding requeue_items load_queue save_queue
audit-requeue_items [] d = refl
audit-requeue_items (item ∷ items) d = refl

module _ (py : Python) (max_attempts : ℕ) where
  weights-not_queued :
      (queue items : List Fields)
      → weights py max_attempts (not_queued queue items) ≤ weights py max_attempts items
  unfolding not_queued weights
  weights-not_queued queue [] = omega arith
  weights-not_queued queue (item ∷ items) = ground (arith, weights-not_queued queue items)

  weights-waiting : (d : Disk) → weights py max_attempts (waiting d) ≤ work py max_attempts d
  weights-waiting d = rw (queue-restore_inflight d) (
      omega (
        arith,
        weights-append py max_attempts (not_queued (queue_of d) (inflight_of d)) (queue_of d),
        weights-not_queued (queue_of d) (inflight_of d),
      ))

  weights-take-drop :
      (n : ℕ) (xs : List Fields)
      → weights py max_attempts (take n xs) + weights py max_attempts (drop n xs)
        ≡ weights py max_attempts xs
  weights-take-drop n xs =
      sym (weights-append py max_attempts (take n xs) (drop n xs))
      ∙ ap (weights py max_attempts) (take-append-drop n xs)

-- The queue after a pass over what waited on `d`: the items of the batch that failed and have
-- attempts left, and behind them all that was not in the batch.
abbrev pub QueuesAgain : Python → TaggerConfig → Runner → Disk → Summary → Disk → Type 0
QueuesAgain py config runner d s d' =
    let batch = take config.batch_size (waiting d) in
    (again : List Fields) × (queue_of d' ≡ again ++ drop config.batch_size (waiting d))
    × (length again ≡ s.requeued)
    × Retries py config.max_attempts (result_by_path py (run_batch runner batch) []) batch again

abbrev pub OnReturn : (Summary → Disk → Type 0) → Ran × Disk → Type 0
OnReturn P (returned s, d) = P s d
OnReturn P (raised, d) = Unit

module _ (py : Python) (config : TaggerConfig) (now : String) where
  -- The end of a pass, from a disk `d` on which the batch was taken from what waited on `d0`.
  finish-Passed :
      (batch results : List Fields) (d0 d : Disk)
      → length batch ≡ min config.batch_size (length (waiting d0))
      → length (queue_of d) + length batch ≡ length (waiting d0)
      → d.audit ≡ d0.audit
      → weights py config.max_attempts batch + weights py config.max_attempts (queue_of d)
        ≤ work py config.max_attempts d0
      → OnReturn (λ s d'. Passed py config d0 d' s) (finish py config now batch results d)
  unfolding finish
  finish-Passed batch results d0 d hp hq ha hw = of_loop (Bool-cases loop.1)
    where
      m : ℕ
      m = config.max_attempts

      loop : Tally × Bool
      loop = settle_all py m now (result_by_path py results []) batch no_tally

      t : Tally
      t = loop.0

      of_loop :
          (loop.1 ≡ true) ⊎ (loop.1 ≡ false)
          → OnReturn (λ s d'. Passed py config d0 d' s) (finish py config now batch results d)
      of_loop (inr e) = rw (e, finish) tt
      of_loop (inl e) =
          let s = settle_all-Settled py m now (result_by_path py results []) batch no_tally e in
          let d1 : Disk = record d { audit = d.audit ++ t.lines } in
          let q : queue_of (requeue_items t.requeue d1) ≡ t.requeue ++ queue_of d =
            queue-requeue_items t.requeue d1 in
          let a : (requeue_items t.requeue d1).audit ≡ d.audit ++ t.lines =
            audit-requeue_items t.requeue d1 in
          rw (e, finish)
            (record {
              picked = hp;
              settled = omega (arith, s.counters);
              requeued = omega (arith, s.requeued);
              queue = rw q (omega (arith, length-append {0} t.requeue (queue_of d)));
              inflight = ap (λ r. r.items) load-none;
              audit = rw (a, ← ha) (omega (arith, length-append {0} d.audit t.lines, s.lines));
              work_falls =
                  rw (q, ap (λ r. r.items) load-none)
                    (unfold weights in
                      omega (arith, weights-append py m t.requeue (queue_of d), s.weights_fall));
            })

  -- With nothing that waits, a pass does no work.
  idle-Passed :
      (d0 d : Disk)
      → waiting d0 ≡ []
      → queue_of d ≡ []
      → inflight_of d ≡ []
      → d.audit ≡ d0.audit
      → Passed py config d0 d no_work
  unfolding weights
  idle-Passed d0 d hw hq hi ha = record {
    picked = rw hw (omega arith);
    settled = omega arith;
    requeued = omega arith;
    queue = rw (hw, hq) (omega arith);
    inflight = hi;
    audit = rw ha (omega arith);
    work_falls = rw (hq, hi) (omega arith);
  }

  after_take-Passed :
      (runner : Runner) (d0 d : Disk) (o : Option (List Fields)) (items : List Fields)
      → waiting d0 ≡ items
      → o ≡ first_batch config.batch_size items
      → queue_of d ≡ drop config.batch_size items
      → inflight_of d ≡ take config.batch_size items
      → d.audit ≡ d0.audit
      → OnReturn (λ s d'. Passed py config d0 d' s) (after_take py config runner now (o, d))
  unfolding after_take
  after_take-Passed runner d0 d none [] w eo eq ei ea =
      idle-Passed d0 d w (eq ∙ drop-nil config.batch_size) (ei ∙ take-nil config.batch_size) ea
  after_take-Passed runner d0 d (some b) [] w eo eq ei ea = cc
  after_take-Passed runner d0 d none (x ∷ xs) w eo eq ei ea = cc
  after_take-Passed runner d0 d (some b) (x ∷ xs) w eo eq ei ea =
      finish-Passed b (run_batch runner b) d0 d (rw (eb, w) (length-take n (x ∷ xs)))
        (rw (eb, eq, w) (omega (arith, length-take {0} n (x ∷ xs), length-drop {0} n (x ∷ xs)))) ea
        (rw (eb, eq)
          (omega (
            arith,
            weights-take-drop py config.max_attempts n (x ∷ xs),
            weights-waiting py config.max_attempts d0,
            ap (weights py config.max_attempts) w,
          )))
    where
      n : ℕ
      n = config.batch_size

      eb : b ≡ take n (x ∷ xs)
      eb = cc

  pub run_tagger_once-OnReturn :
      (runner : Runner) (d : Disk)
      → is_configured config ≡ true
      → OnReturn (λ s d'. Passed py config d d' s) (run_tagger_once py config runner now d)
  unfolding run_tagger_once
  run_tagger_once-OnReturn runner d on = rw on (
      after_take-Passed runner d (take_batch config.batch_size d).1
        (take_batch config.batch_size d).0 (waiting d) refl
        (take_batch-first_batch config.batch_size d) (queue-take_batch config.batch_size d)
        (inflight-take_batch config.batch_size d) (audit-take_batch config.batch_size d))
