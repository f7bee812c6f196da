-- ===== src/Config/Drained.antt =====
-- The tagger with the settings that the processor loads.
use data_assistant.Config.Limits.{env_int-bound}
use data_assistant.Tagger.Run.Termination.{run_until_empty-Ended, Ended}
use data_assistant.Tagger.Run.Pass.{work}
use data_assistant.Tagger.Run.{is_configured, no_work, no_work, run_until_empty, Runner}
use data_assistant.Tagger.Queue.{Disk, TaggerConfig}
use data_assistant.Config.{non_empty, Env, Floats}
use data_assistant.Base.Text.{is_empty, Python}
use data_assistant.Base.{
  arith, refl, inr, inl, ◌<◌, Bool-cases, true, not, ◌≡◌, false, none, ◌≢◌, ℕ, String, some,
}
use data_assistant.Base.Json.{pos_part, pos}
use data_assistant.Config.Processor.{TaggerPipelineConfig, load_tagger_config}

module _ (py : Python) (fl : Floats) where
  -- What the pipeline reads of the settings.
  unfoldable pub tagger_config : TaggerPipelineConfig py fl → TaggerConfig
  tagger_config c = record {
    enabled = c.enabled;
    auto_run = c.auto_run;
    base_url = c.base_url;
    batch_size = pos_part c.batch_size;
    max_attempts = pos_part c.max_attempts;
  }

  non_empty-full :
      (s : String)
      → non_empty s ≢ none
      → (elim (non_empty s) [ none ↦ false | some url ↦ not (is_empty url) ]) ≡ true
  unfolding non_empty
  non_empty-full s h = elim (Bool-cases (is_empty s)) [
    | inl e ↦ absurd (h (rw e refl))
    | inr e ↦ rw (e, e) refl
  ]

  module _ (env : Env) where
    abbrev pub loaded : TaggerConfig
    loaded = tagger_config (load_tagger_config py fl env)

    -- With the settings of an environment that enables the tagger and gives its URL, the loop that runs the
    -- tagger until nothing waits ends, whatever the tagger answers, if the fuel is more than the attempts
    -- that the items on the disk have left.
    pub load_tagger_config-Ended :
        (now : String) (runner : ℕ → Runner) (fuel : ℕ) (d : Disk)
        → loaded.enabled ≡ true
        → loaded.base_url ≢ none
        → work py loaded.max_attempts d < fuel
        → Ended (run_until_empty py loaded runner now fuel no_work d)
    unfolding tagger_config load_tagger_config
    load_tagger_config-Ended now runner fuel d on url less =
        run_until_empty-Ended py loaded now runner fuel no_work d
          (unfold is_configured in rw on (non_empty-full _ url))
          (omega (
            arith,
            env_int-bound py env "CHAT_IMAGE_TAGGER_BATCH_SIZE" (pos 16) (pos 1) (omega arith),
          ))
          refl (omega arith) less
