-- ===== src/Config/Processor.antt =====
-- processor_service/service/chat_image/config.py: the settings of the worker and the tagger.
use data_assistant.Base.{true, false, List, Option, Bool, String}
use data_assistant.Config.{
  non_empty, rstrip_slashes, env_optional_int, env_optional_bool, env_optional_float, env_int,
  stream_subjects, nats_subject, env_text, nats_servers, env_float, getenv, env_bool, Env, Floats,
}
use data_assistant.Base.Text.{strip, Python}
use data_assistant.Base.Json.{ℤ, pos, negsuc}

module _ (py : Python) (fl : Floats) where
  pub record TaggerPipelineConfig : Type 0 where
    pub enabled : Bool
    pub auto_run : Bool
    pub drain_interval_sec : fl.F
    pub healthcheck_path : String
    pub base_url : Option String
    pub threshold : Option fl.F
    pub use_chinese_name : Option Bool
    pub top_k : Option ℤ
    pub queue_file : String
    pub audit_log_file : String
    pub batch_size : ℤ
    pub timeout_sec : fl.F
    pub max_attempts : ℤ

  pub record NatsTaskBusConfig : Type 0 where
    pub enabled : Bool
    pub servers : List String
    pub subject : String
    pub queue_group : String
    pub client_name : String
    pub connect_timeout_sec : fl.F
    pub jetstream_enabled : Bool
    pub stream_name : String
    pub stream_subjects : List String
    pub durable_name : String
    pub ack_wait_sec : fl.F
    pub max_deliver : ℤ
    pub nak_delay_sec : fl.F
    pub stream_max_age_sec : fl.F
    pub stream_max_bytes : ℤ
    pub stream_max_msgs : ℤ

  pub record ChatImageConfig : Type 0 where
    pub save_root : String
    pub nats : NatsTaskBusConfig
    pub tagger : TaggerPipelineConfig

  module _ (env : Env) where
    unfoldable pub load_nats_config : NatsTaskBusConfig
    unfolding env_bool nats_servers nats_subject env_text env_float stream_subjects env_int
    load_nats_config = record {
      enabled = env_bool py env "CHAT_IMAGE_NATS_ENABLED" false;
      servers = nats_servers py env;
      subject = nats_subject py env;
      queue_group = env_text py env "CHAT_IMAGE_NATS_QUEUE_GROUP" "chat-image-tagger-workers";
      client_name = env_text py env "CHAT_IMAGE_NATS_CLIENT_NAME" "data-assistant";
      connect_timeout_sec = env_float py env fl "CHAT_IMAGE_NATS_CONNECT_TIMEOUT_SEC" "5.0" "0.1";
      jetstream_enabled = env_bool py env "CHAT_IMAGE_NATS_JETSTREAM_ENABLED" true;
      stream_name = env_text py env "CHAT_IMAGE_NATS_STREAM" "CHAT_IMAGE_TAGGER_TASKS";
      stream_subjects = stream_subjects py env;
      durable_name = env_text py env "CHAT_IMAGE_NATS_DURABLE" "chat-image-tagger-workers";
      ack_wait_sec = env_float py env fl "CHAT_IMAGE_NATS_ACK_WAIT_SEC" "120.0" "1.0";
      max_deliver = env_int py env "CHAT_IMAGE_NATS_MAX_DELIVER" (pos 10) (pos 1);
      nak_delay_sec = env_float py env fl "CHAT_IMAGE_NATS_NAK_DELAY_SEC" "5.0" "0.0";
      stream_max_age_sec =
          env_float py env fl "CHAT_IMAGE_NATS_STREAM_MAX_AGE_SEC" "604800.0" "0.0";
      stream_max_bytes = env_int py env "CHAT_IMAGE_NATS_STREAM_MAX_BYTES" (negsuc 0) (negsuc 0);
      stream_max_msgs = env_int py env "CHAT_IMAGE_NATS_STREAM_MAX_MSGS" (negsuc 0) (negsuc 0);
    }

    unfoldable pub load_tagger_config : TaggerPipelineConfig
    unfolding getenv env_bool env_float env_text env_int env_optional_float env_optional_bool
        env_optional_int rstrip_slashes non_empty strip
    load_tagger_config = record {
      enabled = env_bool py env "CHAT_IMAGE_TAGGER_ENABLED" false;
      auto_run = env_bool py env "CHAT_IMAGE_TAGGER_AUTO_RUN" false;
      drain_interval_sec = env_float py env fl "CHAT_IMAGE_TAGGER_DRAIN_INTERVAL_SEC" "10.0" "0.5";
      healthcheck_path = env_text py env "CHAT_IMAGE_TAGGER_HEALTHCHECK_PATH" "/healthz";
      base_url = non_empty (rstrip_slashes (strip (getenv py env "CHAT_IMAGE_TAGGER_BASE_URL" "")));
      threshold = env_optional_float py env fl "CHAT_IMAGE_TAGGER_THRESHOLD" "0.0";
      use_chinese_name = env_optional_bool py env "CHAT_IMAGE_TAGGER_USE_CHINESE_NAME";
      top_k = env_optional_int py env "CHAT_IMAGE_TAGGER_TOP_K" (pos 1);
      queue_file = getenv py env "CHAT_IMAGE_TAGGER_QUEUE_FILE" "data/chat_image_tagger_queue.json";
      audit_log_file =
          getenv py env "CHAT_IMAGE_TAGGER_AUDIT_LOG_FILE" "data/group_image_tags.jsonl";
      batch_size = env_int py env "CHAT_IMAGE_TAGGER_BATCH_SIZE" (pos 16) (pos 1);
      timeout_sec = env_float py env fl "CHAT_IMAGE_TAGGER_TIMEOUT_SEC" "3600.0" "1.0";
      max_attempts = env_int py env "CHAT_IMAGE_TAGGER_MAX_ATTEMPTS" (pos 3) (pos 1);
    }

    unfoldable pub load_chat_image_config : ChatImageConfig
    unfolding getenv load_nats_config load_tagger_config
    load_chat_image_config = record {
      save_root =
          getenv py env "CHAT_IMAGE_SAVE_DIR"
            (getenv py env "GROUP_IMAGE_SAVE_DIR" "data/chat_images");
      nats = load_nats_config;
      tagger = load_tagger_config;
    }
