-- ===== src/Tagger/Run/Termination.antt =====
-- `run_tagger_until_empty` ends: every pass that picks an item uses up one of its attempts.
use data_assistant.Tagger.Run.Pass.{OnReturn, run_tagger_once-OnReturn, work, Passed}
use data_assistant.Tagger.Queue.Files.{inflight_of, queue_of}
use data_assistant.Tagger.Queue.{Disk, TaggerConfig}
use data_assistant.Base.Text.{Python}
use data_assistant.Base.{
  zero, suc, none, true, refl, ◌<◌, arith, ◌≤◌, ◌+◌, ◌∷◌, [], ℕ, ◌≡◌, String, some, length, List,
  Option,
}
use data_assistant.Tagger.Run.{
  add_summary, after_pass, run_tagger_once, is_configured, Summary, run_until_empty, Runner,
  returned, Ran, raised,
}

-- The loop ended: it raised, or it returned with nothing left to do and its counters add up.
abbrev pub Ended : Option (Ran × Disk) → Type 0
Ended none = ⊥
Ended (some (raised, d)) = Unit
Ended (some (returned total, d)) =
    (total.picked ≡ total.success + total.failed)
    × (total.requeued ≤ total.failed)
    × (queue_of d ≡ [])
    × (inflight_of d ≡ [])

nil-of_length : {A : Type 0} (xs : List A) → length xs ≡ 0 → xs ≡ []
nil-of_length [] h = refl
nil-of_length (x ∷ xs) h = absurd (omega arith)

module _ (py : Python) (config : TaggerConfig) (now : String) (runner : ℕ → Runner) where
  -- A pass that picks nothing found nothing.
  drained :
      (d d' : Disk) (s : Summary)
      → 0 < config.batch_size
      → Passed py config d d' s
      → s.picked ≡ 0
      → queue_of d' ≡ []
  drained d d' s size p none_picked =
      nil-of_length (queue_of d') (omega (arith, p.queue, p.picked, p.settled, p.requeued))

  -- The next round ends, if it starts with less work and with counters that add up.
  abbrev Loops : ℕ → (Summary → Disk → Option (Ran × Disk)) → Type 0
  Loops fuel loop =
      (total : Summary) (d : Disk)
      → total.picked ≡ total.success + total.failed
      → total.requeued ≤ total.failed
      → work py config.max_attempts d < fuel
      → Ended (loop total d)

  after_pass-Ended :
      (fuel : ℕ) (loop : Summary → Disk → Option (Ran × Disk)) (total : Summary) (d : Disk)
      → 0 < config.batch_size
      → Loops fuel loop
      → total.picked ≡ total.success + total.failed
      → total.requeued ≤ total.failed
      → work py config.max_attempts d < suc fuel
      → (r : Ran × Disk) → OnReturn (λ s d'. Passed py config d d' s) r
      → Ended (after_pass loop total r)
  unfolding after_pass
  after_pass-Ended fuel loop total d size ih sum less h (raised, d') p = tt
  after_pass-Ended fuel loop total d size ih sum less h (returned s, d') p = of_picked s.picked refl
    where
      of_picked : (n : ℕ) → s.picked ≡ n → Ended (after_pass loop total (returned s, d'))
      of_picked zero e = rw e (sum, less, drained d d' s size p e, p.inflight)
      of_picked (suc n) e = rw e (
          ih (add_summary total s) d' (omega (arith, p.settled)) (omega (arith, p.requeued))
            (omega (arith, p.work_falls)))

  -- With more fuel than there is work on the disk, the loop ends, whatever the runner answers on
  -- each pass. If it does not raise, the queue and the in-flight file read as empty, and the
  -- counters add up.
  pub run_until_empty-Ended :
      (fuel : ℕ) (total : Summary) (d : Disk)
      → is_configured config ≡ true
      → 0 < config.batch_size
      → total.picked ≡ total.success + total.failed
      → total.requeued ≤ total.failed
      → work py config.max_attempts d < fuel
      → Ended (run_until_empty py config runner now fuel total d)
  unfolding run_until_empty
  run_until_empty-Ended zero total d on size sum less h = absurd (omega arith)
  run_until_empty-Ended (suc fuel) total d on size sum less h =
      after_pass-Ended fuel (run_until_empty py config runner now fuel) total d size
        (λ t d' a b c. run_until_empty-Ended fuel t d' on size a b c) sum less h
        (run_tagger_once py config (runner fuel) now d)
        (run_tagger_once-OnReturn py config now (runner fuel) d on)
