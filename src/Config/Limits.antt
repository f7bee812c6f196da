-- ===== src/Config/Limits.antt =====
-- The limits that hold of the settings of both services, whatever the environment.
use data_assistant.Config.{
  optional_int_from, getenv, nats_subject, with_subject, or_default_text, nats_servers, env_text,
  env_optional_int, Floats, stream_subjects, some_at_least, at_least, env_int, or_tuple, int_from,
  Env, is_one_of, max_ℤ,
}
use data_assistant.Base.{
  if◌then◌else◌, ◌+◌, refl, false, eq_iff, ◌≢◌, true, ltb→lt, [], ◌≡◌, arith, Bool, List, none,
  String, Bool-cases, Option, some, inl, inr, ◌∷◌,
}
use data_assistant.Base.Text.{
  strip, overflow_error, type_error, value_error, is_empty, Converted, Python, converted,
}
use data_assistant.Base.Json.{neg_part, pos_part, ltb_ℤ, ℤ, pos, negsuc, ◌≤ℤ◌}
use data_assistant.Config.Logger
use data_assistant.Config.Processor

max_ℤ-bound : (a b : ℤ) → a ≤ℤ max_ℤ a b
unfolding max_ℤ
max_ℤ-bound a b = elim (Bool-cases (ltb_ℤ a b)) [
  | inl e ↦ rw e (omega (arith, ltb→lt (pos_part a + neg_part b) (pos_part b + neg_part a) e))
  | inr e ↦ rw e (omega arith)
]

abbrev pub AtLeast : ℤ → Option ℤ → Type 0
AtLeast minimum none = Unit
AtLeast minimum (some n) = minimum ≤ℤ n

is_one_of-head : (s : String) (ss : List String) → is_one_of s (s ∷ ss) ≡ true
unfolding is_one_of
is_one_of-head s ss = rw ((eq_iff s s).1 refl) refl

module _ (py : Python) (env : Env) where
  at_least-bound :
      (minimum default : ℤ) (o : Converted)
      → minimum ≤ℤ default
      → minimum ≤ℤ at_least py env minimum default o
  unfolding at_least
  at_least-bound minimum default (converted n) h = max_ℤ-bound minimum n
  at_least-bound minimum default value_error h = h
  at_least-bound minimum default type_error h = h
  at_least-bound minimum default overflow_error h = h

  int_from-bound :
      (minimum default : ℤ) (o : Option String)
      → minimum ≤ℤ default
      → minimum ≤ℤ int_from py env minimum default o
  unfolding int_from
  int_from-bound minimum default none h = h
  int_from-bound minimum default (some raw) h =
      at_least-bound minimum default (py.int_of_text raw) h

  pub env_int-bound :
      (name : String) (default minimum : ℤ)
      → minimum ≤ℤ default
      → minimum ≤ℤ env_int py env name default minimum
  unfolding env_int
  env_int-bound name default minimum h = int_from-bound minimum default (env name) h

  some_at_least-AtLeast :
      (minimum : ℤ) (o : Converted) → AtLeast minimum (some_at_least py env minimum o)
  unfolding some_at_least
  some_at_least-AtLeast minimum (converted n) = max_ℤ-bound minimum n
  some_at_least-AtLeast minimum value_error = tt
  some_at_least-AtLeast minimum type_error = tt
  some_at_least-AtLeast minimum overflow_error = tt

  env_optional_int-AtLeast :
      (name : String) (minimum : ℤ) → AtLeast minimum (env_optional_int py env name minimum)
  unfolding env_optional_int
  env_optional_int-AtLeast name minimum = of_raw (env name)
    where
      unless_blank :
          (b : Bool) (raw : String)
          → AtLeast minimum (if b then none else some_at_least py env minimum (py.int_of_text raw))
      unless_blank true raw = tt
      unless_blank false raw = some_at_least-AtLeast minimum (py.int_of_text raw)

      of_raw : (o : Option String) → AtLeast minimum (optional_int_from py env minimum o)
      of_raw none = unfold optional_int_from in tt
      of_raw (some raw) = unfold optional_int_from in unless_blank (is_empty (strip raw)) raw

  env_text-full :
      (name default : String)
      → is_empty default ≡ false
      → is_empty (env_text py env name default) ≡ false
  unfolding env_text or_default_text
  env_text-full name default h = elim (Bool-cases (is_empty (strip (getenv py env name default)))) [
    | inl e ↦ rw e h
    | inr e ↦ rw (e, e) refl
  ]

  or_tuple-full : (ss : List String) (s : String) → or_tuple ss (s ∷ []) ≢ []
  unfolding or_tuple
  or_tuple-full [] s e = cc
  or_tuple-full (t ∷ ts) s e = cc

  subject-is_one_of : is_one_of (nats_subject py env) (stream_subjects py env) ≡ true
  unfolding stream_subjects with_subject
  subject-is_one_of = of_subjects _
    where
      of_subjects :
          (ss : List String)
          → is_one_of
              (nats_subject py env)
              (if is_one_of (nats_subject py env) ss then ss else nats_subject py env ∷ ss)
            ≡ true
      of_subjects ss = elim (Bool-cases (is_one_of (nats_subject py env) ss)) [
        | inl e ↦ rw (e, e) refl
        | inr e ↦ rw e (is_one_of-head (nats_subject py env) ss)
      ]

  module _ (fl : Floats) where
    -- What both services need of the message bus, and the numbers of each.
    pub record IsLoggerUsable (c : Logger.ChatImageConfig py fl) : Type 0 where
      pub subject : is_one_of c.nats.subject c.nats.stream_subjects ≡ true
      pub subject_full : is_empty c.nats.subject ≡ false
      pub stream_full : is_empty c.nats.stream_name ≡ false
      pub servers : c.nats.servers ≢ []
      pub max_bytes : negsuc 0 ≤ℤ c.nats.stream_max_bytes
      pub max_msgs : negsuc 0 ≤ℤ c.nats.stream_max_msgs
      pub retry_count : pos 1 ≤ℤ c.retry_count
      pub batch_size : pos 1 ≤ℤ c.outbox.batch_size
      pub max_attempts : pos 0 ≤ℤ c.outbox.max_attempts

    pub record IsProcessorUsable (c : Processor.ChatImageConfig py fl) : Type 0 where
      pub subject : is_one_of c.nats.subject c.nats.stream_subjects ≡ true
      pub subject_full : is_empty c.nats.subject ≡ false
      pub stream_full : is_empty c.nats.stream_name ≡ false
      pub queue_group_full : is_empty c.nats.queue_group ≡ false
      pub durable_full : is_empty c.nats.durable_name ≡ false
      pub servers : c.nats.servers ≢ []
      pub max_bytes : negsuc 0 ≤ℤ c.nats.stream_max_bytes
      pub max_msgs : negsuc 0 ≤ℤ c.nats.stream_max_msgs
      pub max_deliver : pos 1 ≤ℤ c.nats.max_deliver
      pub batch_size : pos 1 ≤ℤ c.tagger.batch_size
      pub max_attempts : pos 1 ≤ℤ c.tagger.max_attempts
      pub top_k : AtLeast (pos 1) c.tagger.top_k

    -- Whatever the environment, the logger's stream has the subject that it publishes to, its name, its subject
    -- and its list of servers are not empty, its limits are at least -1, and it tries each download and
    -- reads each batch of the relay at least once.
    pub load_logger-IsLoggerUsable : IsLoggerUsable (Logger.load_chat_image_config py fl env)
    unfolding Logger.load_chat_image_config Logger.load_nats_config Logger.load_outbox_config
        nats_servers nats_subject
    load_logger-IsLoggerUsable = record {
      subject = subject-is_one_of;
      subject_full =
          env_text-full "CHAT_IMAGE_NATS_SUBJECT" "chat.image.tagger.task"
            (unfold is_empty in refl);
      stream_full =
          env_text-full "CHAT_IMAGE_NATS_STREAM" "CHAT_IMAGE_TAGGER_TASKS"
            (unfold is_empty in refl);
      servers = or_tuple-full _ "nats://127.0.0.1:4222";
      max_bytes =
          env_int-bound "CHAT_IMAGE_NATS_STREAM_MAX_BYTES" (negsuc 0) (negsuc 0) (omega arith);
      max_msgs =
          env_int-bound "CHAT_IMAGE_NATS_STREAM_MAX_MSGS" (negsuc 0) (negsuc 0) (omega arith);
      retry_count = env_int-bound "GROUP_IMAGE_RETRY_COUNT" (pos 3) (pos 1) (omega arith);
      batch_size =
          env_int-bound "CHAT_IMAGE_NATS_OUTBOX_RELAY_BATCH_SIZE" (pos 100) (pos 1) (omega arith);
      max_attempts =
          env_int-bound "CHAT_IMAGE_NATS_OUTBOX_MAX_ATTEMPTS" (pos 0) (pos 0) (omega arith);
    }

    -- Whatever the environment, the processor's stream has the subject that it subscribes to, its names, its
    -- subject and its list of servers are not empty, the stream's limits are at least -1, and deliveries, batches,
    -- attempts and the number of tags, if given, are at least 1.
    pub load_processor-IsProcessorUsable :
        IsProcessorUsable (Processor.load_chat_image_config py fl env)
    unfolding Processor.load_chat_image_config Processor.load_nats_config
        Processor.load_tagger_config nats_servers nats_subject
    load_processor-IsProcessorUsable = record {
      subject = subject-is_one_of;
      subject_full =
          env_text-full "CHAT_IMAGE_NATS_SUBJECT" "chat.image.tagger.task"
            (unfold is_empty in refl);
      stream_full =
          env_text-full "CHAT_IMAGE_NATS_STREAM" "CHAT_IMAGE_TAGGER_TASKS"
            (unfold is_empty in refl);
      queue_group_full =
          env_text-full "CHAT_IMAGE_NATS_QUEUE_GROUP" "chat-image-tagger-workers"
            (unfold is_empty in refl);
      durable_full =
          env_text-full "CHAT_IMAGE_NATS_DURABLE" "chat-image-tagger-workers"
            (unfold is_empty in refl);
      servers = or_tuple-full _ "nats://127.0.0.1:4222";
      max_bytes =
          env_int-bound "CHAT_IMAGE_NATS_STREAM_MAX_BYTES" (negsuc 0) (negsuc 0) (omega arith);
      max_msgs =
          env_int-bound "CHAT_IMAGE_NATS_STREAM_MAX_MSGS" (negsuc 0) (negsuc 0) (omega arith);
      max_deliver = env_int-bound "CHAT_IMAGE_NATS_MAX_DELIVER" (pos 10) (pos 1) (omega arith);
      batch_size = env_int-bound "CHAT_IMAGE_TAGGER_BATCH_SIZE" (pos 16) (pos 1) (omega arith);
      max_attempts = env_int-bound "CHAT_IMAGE_TAGGER_MAX_ATTEMPTS" (pos 3) (pos 1) (omega arith);
      top_k = env_optional_int-AtLeast "CHAT_IMAGE_TAGGER_TOP_K" (pos 1);
    }
