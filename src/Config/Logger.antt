-- ===== src/Config/Logger.antt =====
-- logger_service/service/chat_image/config.py: the settings of the pipeline, the bus and the relay.
use data_assistant.Base.{false, true, List, String, Bool}
use data_assistant.Config.{
  stream_subjects, env_text, env_int, nats_subject, nats_servers, env_float, env_bool, getenv, Env,
  Floats,
}
use data_assistant.Base.Text.{Python}
use data_assistant.Base.Json.{ℤ, pos, negsuc}

module _ (py : Python) (fl : Floats) where
  pub record NatsTaskBusConfig : Type 0 where
    pub enabled : Bool
    pub servers : List String
    pub subject : String
    pub client_name : String
    pub connect_timeout_sec : fl.F
    pub publish_timeout_sec : fl.F
    pub jetstream_enabled : Bool
    pub stream_name : String
    pub stream_subjects : List String
    pub stream_max_age_sec : fl.F
    pub stream_max_bytes : ℤ
    pub stream_max_msgs : ℤ

  pub record OutboxRelayConfig : Type 0 where
    pub enabled : Bool
    pub interval_sec : fl.F
    pub batch_size : ℤ
    pub max_attempts : ℤ
    pub min_age_sec : fl.F

  pub record ChatImageConfig : Type 0 where
    pub save_root : String
    pub timeout_sec : fl.F
    pub retry_count : ℤ
    pub retry_delay_sec : fl.F
    pub audit_log_file : String
    pub nats : NatsTaskBusConfig
    pub outbox : OutboxRelayConfig

  module _ (env : Env) where
    unfoldable pub load_nats_config : NatsTaskBusConfig
    unfolding env_bool nats_servers nats_subject env_text env_float stream_subjects env_int
    load_nats_config = record {
      enabled = env_bool py env "CHAT_IMAGE_NATS_ENABLED" false;
      servers = nats_servers py env;
      subject = nats_subject py env;
      client_name = env_text py env "CHAT_IMAGE_NATS_CLIENT_NAME" "data-assistant";
      connect_timeout_sec = env_float py env fl "CHAT_IMAGE_NATS_CONNECT_TIMEOUT_SEC" "5.0" "0.1";
      publish_timeout_sec = env_float py env fl "CHAT_IMAGE_NATS_PUBLISH_TIMEOUT_SEC" "3.0" "0.1";
      jetstream_enabled = env_bool py env "CHAT_IMAGE_NATS_JETSTREAM_ENABLED" true;
      stream_name = env_text py env "CHAT_IMAGE_NATS_STREAM" "CHAT_IMAGE_TAGGER_TASKS";
      stream_subjects = stream_subjects py env;
      stream_max_age_sec =
          env_float py env fl "CHAT_IMAGE_NATS_STREAM_MAX_AGE_SEC" "604800.0" "0.0";
      stream_max_bytes = env_int py env "CHAT_IMAGE_NATS_STREAM_MAX_BYTES" (negsuc 0) (negsuc 0);
      stream_max_msgs = env_int py env "CHAT_IMAGE_NATS_STREAM_MAX_MSGS" (negsuc 0) (negsuc 0);
    }

    unfoldable pub load_outbox_config : OutboxRelayConfig
    unfolding env_bool env_float env_int
    load_outbox_config = record {
      enabled = env_bool py env "CHAT_IMAGE_NATS_OUTBOX_RELAY_ENABLED" true;
      interval_sec = env_float py env fl "CHAT_IMAGE_NATS_OUTBOX_RELAY_INTERVAL_SEC" "30.0" "1.0";
      batch_size = env_int py env "CHAT_IMAGE_NATS_OUTBOX_RELAY_BATCH_SIZE" (pos 100) (pos 1);
      max_attempts = env_int py env "CHAT_IMAGE_NATS_OUTBOX_MAX_ATTEMPTS" (pos 0) (pos 0);
      min_age_sec = env_float py env fl "CHAT_IMAGE_NATS_OUTBOX_MIN_AGE_SEC" "15.0" "0.0";
    }

    unfoldable pub load_chat_image_config : ChatImageConfig
    unfolding getenv env_float env_int load_nats_config load_outbox_config
    load_chat_image_config = record {
      save_root =
          getenv py env "CHAT_IMAGE_SAVE_DIR"
            (getenv py env "GROUP_IMAGE_SAVE_DIR" "data/chat_images");
      timeout_sec = env_float py env fl "GROUP_IMAGE_TIMEOUT_SEC" "20.0" "0.1";
      retry_count = env_int py env "GROUP_IMAGE_RETRY_COUNT" (pos 3) (pos 1);
      retry_delay_sec = env_float py env fl "GROUP_IMAGE_RETRY_DELAY_SEC" "0.8" "0.0";
      audit_log_file = "data/group_images.jsonl";
      nats = load_nats_config;
      outbox = load_outbox_config;
    }
