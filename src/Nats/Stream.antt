-- ===== src/Nats/Stream.antt =====
-- The set-up of the JetStream stream: `_ensure_stream` of nats_publisher.py and
-- `_ensure_jetstream_stream` of tagger_worker.py, which make the same choice. An age is a
-- whole number of units of 2^-1074 seconds, as every finite float that is not negative is, so the tests
-- for equality and for 0 are those of the code; a negative age acts as 0, and infinity is left out.
pub mod Covers
pub mod Reconcile
use data_assistant.Base.Json.{ltb_ℤ, ℤ}
use data_assistant.Base.{
  ◌==◌, ◌&&◌, str_eq, ◌||◌, ◌++◌, none, [], ltb, ◌∷◌, ℕ, if◌then◌else◌, not, true, false, some,
  Bool, List, String, Option,
}

pub record StreamSettings : Type 0 where
  pub stream_name : String
  pub stream_subjects : List String
  pub stream_max_age : ℕ
  pub stream_max_bytes : ℤ
  pub stream_max_msgs : ℤ

-- What the code reads and writes of a stream's configuration; the rest is left as it is.
pub record StreamConfig : Type 0 where
  pub subjects : List String
  pub max_age : Option ℕ
  pub max_bytes : Option ℤ
  pub max_msgs : Option ℤ

-- The request that follows: to add the stream, to update it, or none.
pub data Request : Type 0 where
  add_stream : String → StreamConfig → Request
  update_stream : StreamConfig → Request
  leave_stream : Request

-- No limit is 0.
unfoldable pub max_age_of : StreamSettings → Option ℕ
max_age_of settings = if ltb 0 settings.stream_max_age then some settings.stream_max_age else none

unfoldable pub elem : String → List String → Bool
elem s [] = false
elem s (t ∷ ts) = str_eq s t || elem s ts

unfoldable pub missing_subjects : List String → List String → List String
unfolding elem
missing_subjects existing [] = []
missing_subjects existing (s ∷ desired) =
    let rest = missing_subjects existing desired in if elem s existing then rest else s ∷ rest

unfoldable pub eq_age : Option ℕ → Option ℕ → Bool
eq_age none none = true
eq_age (some m) (some n) = m == n
eq_age _ _ = false

unfoldable pub eq_limit : Option ℤ → ℤ → Bool
eq_limit none n = false
eq_limit (some m) n = not (ltb_ℤ m n) && not (ltb_ℤ n m)

is_nil : List String → Bool
is_nil [] = true
is_nil (s ∷ ss) = false

-- Each attribute is set if it differs.
unfoldable pub reconciled : StreamSettings → StreamConfig → StreamConfig
unfolding missing_subjects max_age_of eq_age eq_limit is_nil
reconciled settings c =
    let missing = missing_subjects c.subjects settings.stream_subjects in
    record {
      subjects = if is_nil missing then c.subjects else c.subjects ++ missing;
      max_age = if eq_age c.max_age (max_age_of settings) then c.max_age else max_age_of settings;
      max_bytes =
          if eq_limit c.max_bytes settings.stream_max_bytes
          then c.max_bytes
          else some settings.stream_max_bytes;
      max_msgs =
          if eq_limit c.max_msgs settings.stream_max_msgs
          then c.max_msgs
          else some settings.stream_max_msgs;
    }

unfoldable pub needs_update : StreamSettings → StreamConfig → Bool
unfolding missing_subjects max_age_of eq_age eq_limit is_nil
needs_update settings c =
    not (is_nil (missing_subjects c.subjects settings.stream_subjects))
    || not (eq_age c.max_age (max_age_of settings))
    || not (eq_limit c.max_bytes settings.stream_max_bytes)
    || not (eq_limit c.max_msgs settings.stream_max_msgs)

-- `stream_info` answers with the configuration, or raises.
unfoldable pub ensure_stream : StreamSettings → Option StreamConfig → Request
unfolding reconciled needs_update
ensure_stream settings none = add_stream settings.stream_name (record {
  subjects = settings.stream_subjects;
  max_age = max_age_of settings;
  max_bytes = some settings.stream_max_bytes;
  max_msgs = some settings.stream_max_msgs;
})
ensure_stream settings (some c) =
    if needs_update settings c then update_stream (reconciled settings c) else leave_stream
