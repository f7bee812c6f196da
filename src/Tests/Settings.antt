-- ===== src/Tests/Settings.antt =====
-- The theorems on the settings, applied to an environment that enables the tagger.
use data_assistant.Base.Text.{is_empty}
use data_assistant.Database.{create_pool_with_retry}
use data_assistant.Config.Connections.{load_postgres_config}
use data_assistant.Tests.Inputs.{a_disk, a_runner, a_python}
use data_assistant.Tagger.Run.{no_work, run_until_empty}
use data_assistant.Base.Json.{pos_part}
use data_assistant.Config.Processor.{load_tagger_config}
use data_assistant.Database.Opening.{create_pool_with_retry-IsTried, IsTried}
use data_assistant.Config.Limits.{
  load_logger-IsLoggerUsable, load_processor-IsProcessorUsable, IsLoggerUsable, IsProcessorUsable,
}
use data_assistant.Tagger.Run.Termination.{Ended}
use data_assistant.Config.{env_bool, stream_subjects, Floats, Env}
use data_assistant.Config.Drained.{load_tagger_config-Ended, tagger_config, loaded}
use data_assistant.Base.{
  sym, ◌∙◌, [], none, true, ◌∷◌, refl, str_eq, ◌≡◌, ◌≢◌, ltb, String, if◌then◌else◌, ℕ, some,
}
use data_assistant.Base.Result.{Result, ok, err}
use data_assistant.Tests.Tagging.{work-a_disk}
use data_assistant.Config.Logger
use data_assistant.Config.Processor

-- Floats are kept as texts, and the greater is taken to be the minimum.
abbrev texts : Floats
texts = record { F = String; float_of_text = λ s. some s; literal = λ s. s; max_of = λ a b. a }

abbrev an_env : Env
an_env name =
    if str_eq name "CHAT_IMAGE_TAGGER_ENABLED"
    then some " yes "
    else if str_eq name "CHAT_IMAGE_TAGGER_BASE_URL"
    then some "http://tagger/"
    else if str_eq name "CHAT_IMAGE_NATS_STREAM_SUBJECTS"
    then some "other, ,last"
    else none

load_logger-IsLoggerUsable_example :
    IsLoggerUsable a_python an_env texts (Logger.load_chat_image_config a_python texts an_env)
load_logger-IsLoggerUsable_example = load_logger-IsLoggerUsable a_python an_env texts

load_processor-IsProcessorUsable_example :
    IsProcessorUsable a_python an_env texts (Processor.load_chat_image_config a_python texts an_env)
load_processor-IsProcessorUsable_example = load_processor-IsProcessorUsable a_python an_env texts

subjects_test : stream_subjects a_python an_env ≡ "chat.image.tagger.task" ∷ "other" ∷ "last" ∷ []
unfolding stream_subjects is_empty
subjects_test = refl

enabled_test : (loaded a_python texts an_env).enabled ≡ true
unfolding tagger_config load_tagger_config env_bool
enabled_test = refl

url_test : (loaded a_python texts an_env).base_url ≡ some "http://tagger"
unfolding tagger_config load_tagger_config is_empty
url_test = refl

no_text : (s : String) → some s ≢ none
no_text s e = cc

url_given : (loaded a_python texts an_env).base_url ≢ none
url_given e = no_text "http://tagger" (sym url_test ∙ e)

attempts_test : (loaded a_python texts an_env).max_attempts ≡ 3
unfolding tagger_config load_tagger_config
attempts_test = refl

load_tagger_config-Ended_example :
    Ended (run_until_empty a_python (loaded a_python texts an_env) a_runner "now" 20 no_work a_disk)
load_tagger_config-Ended_example =
    load_tagger_config-Ended a_python texts an_env "now" a_runner 20 a_disk enabled_test url_given
      (rw attempts_test work-a_disk)

-- The database is ready at the third attempt.
abbrev third_time : ℕ → Result String ℕ
third_time attempt = if ltb attempt 3 then err "refused" else ok 7

create_pool_with_retry-IsTried_example :
    IsTried third_time 1
      (pos_part (load_postgres_config a_python texts an_env).connect_max_attempts)
      (create_pool_with_retry third_time
        (load_postgres_config a_python texts an_env).connect_max_attempts)
create_pool_with_retry-IsTried_example =
    create_pool_with_retry-IsTried third_time a_python texts an_env
