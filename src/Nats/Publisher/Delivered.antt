-- ===== src/Nats/Publisher/Delivered.antt =====
-- What a publish that succeeds has done.
use data_assistant.Base.Result.{err, Result, ok}
use data_assistant.Nats.Stream.{ensure_stream}
use data_assistant.Base.Json.{Fields}
use data_assistant.Nats.Publisher.{ask, is_ensured, PublisherState, Sent, PublisherConfig, Bus}
use data_assistant.Base.{
  ◌⊎◌, ◌||◌, not, false, none, [], ◌∷◌, true, some, ◌≡◌, Option, ℕ, String, List,
}

-- The publish from `s0` sent one message, which the bus took, on the connection that is now kept. With
-- JetStream, that connection was kept before and the stream was known to be set up on it, or the set-up
-- went well on it now.
pub record Delivered (bus : Bus) (config : PublisherConfig) (payload : Fields)
    (msg_id : Option String) (s0 : PublisherState) (sent : List Sent) (s : PublisherState)
    : Type 0 where
  pub message : Sent
  pub only : sent ≡ message ∷ []
  pub payload_sent : message.payload ≡ payload
  pub id_sent : message.msg_id ≡ msg_id
  pub client : s.client ≡ some message.client
  pub taken : bus.publish message ≡ none
  pub ensured : (not config.jetstream_enabled || is_ensured config.stream s.ensured) ≡ true
  pub was_set_up :
      (config.jetstream_enabled ≡ false)
      ⊎ ((s0.client ≡ some message.client) × (is_ensured config.stream s0.ensured ≡ true))
      ⊎ (ask bus message.client (ensure_stream config.stream (bus.stream_info message.client))
          ≡ none)

abbrev OnOk :
    (List Sent → PublisherState → Type 0) → Result String (List Sent) × PublisherState → Type 0
OnOk P (ok sent, s) = P sent s
OnOk P (err e, s) = Unit

-- The stream is set up on the connection, from the state `s0`, unless the step failed.
abbrev IsPrepared :
    Bus → PublisherConfig → ℕ → PublisherState → Option String × PublisherState → Type 0
IsPrepared bus config c s0 (some e, s) = Unit
IsPrepared bus config c s0 (none, s) =
    (s.client ≡ some c)
    × ((not config.jetstream_enabled || is_ensured config.stream s.ensured) ≡ true)
    × ((config.jetstream_enabled ≡ false)
        ⊎ (is_ensured config.stream s0.ensured ≡ true)
        ⊎ (ask bus c (ensure_stream config.stream (bus.stream_info c)) ≡ none))

module _ (bus : Bus) (config : PublisherConfig) where
  -- What was set up on a connection that is handed out was set up on it before.
  abbrev Kept : PublisherState → Result String ℕ × PublisherState → Type 0
  Kept s0 (ok c, s) =
      (s.client ≡ some c) × (((s0.client ≡ some c) × (s.ensured ≡ s0.ensured)) ⊎ (s.ensured ≡ []))
  Kept s0 (err e, s) = Unit
