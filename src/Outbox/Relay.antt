-- ===== src/Outbox/Relay.antt =====
-- One pass of the outbox relay, `relay_once`. What a publish comes to is a parameter: the bus
-- accepts the message, or the publisher returns an error, which may be empty.
use data_assistant.Base.Text.{is_empty}
use data_assistant.Base.{
  ◌++◌, [], ◌+◌, length, ◌∷◌, some, if◌then◌else◌, List, none, Option, ℕ, String,
}
use data_assistant.Base.Json.{str, obj, Fields, Json}
use data_assistant.Outbox.Table.{
  fetch_unpublished, mark_nats_dispatch_failed, mark_nats_dispatch_published, Table, Dispatch,
}

pub record RelayConfig : Type 0 where
  pub batch_size : ℕ
  pub max_attempts : ℕ
  pub min_age : ℕ

pub record RelaySummary : Type 0 where
  pub picked : ℕ
  pub published : ℕ
  pub failed : ℕ

-- What was sent to the bus: the payload, and its deduplication id.
pub record Message : Type 0 where
  pub payload : Fields
  pub msg_id : ℕ

-- `publish_tagger_task_with_result`, as the relay sees it: `none` if the bus took the message. Each row
-- is published once in a pass, and its call has an answer of its own: the rows' ids tell them apart.
abbrev pub Publisher : Type 0
Publisher = ℕ → Message → Option String

as_object : Json → Option Fields
as_object (obj d) = some d
as_object _ = none

-- `_decode_payload`: asyncpg hands jsonb over as text, which `loads` parses.
unfoldable pub decode_payload : (String → Option Json) → Json → Option Fields
unfolding as_object
decode_payload loads (obj d) = some d
decode_payload loads (str s) = elim (loads s) [ none ↦ none | some v ↦ as_object v ]
decode_payload loads _ = none

-- The state of a pass: the table, the messages that the bus took, and the counters.
pub record Pass : Type 0 where
  pub table : Table
  pub bus : List Message
  pub published : ℕ
  pub failed : ℕ

-- `error or default`
unfoldable pub error_or : String → String → String
error_or default error = if is_empty error then default else error

module _ (loads : String → Option Json) (publish : Publisher) (now : ℕ) where
  unfoldable pub fail_row : ℕ → String → Pass → Pass
  unfolding mark_nats_dispatch_failed
  fail_row id error p = record p {
    table = mark_nats_dispatch_failed now id error p.table;
    failed = p.failed + 1;
  }

  unfoldable pub publish_row : ℕ → Message → Pass → Pass
  unfolding fail_row mark_nats_dispatch_published error_or
  publish_row id message p = elim (publish id message) [
    | some error ↦ fail_row id (error_or "nats_publish_failed" error) p
    | none ↦ record p {
      table = mark_nats_dispatch_published now id p.table;
      bus = p.bus ++ message ∷ [];
      published = p.published + 1;
    }
  ]

  -- The loop's body.
  unfoldable pub relay_row : Dispatch → Pass → Pass
  unfolding publish_row
  relay_row row p = elim (decode_payload loads row.payload) [
    | none ↦ fail_row row.id "invalid outbox payload" p
    | some payload ↦ publish_row row.id (record { payload = payload; msg_id = row.image_id }) p
  ]

  unfoldable pub relay_rows : List Dispatch → Pass → Pass
  unfolding relay_row
  relay_rows [] p = p
  relay_rows (row ∷ rows) p = relay_rows rows (relay_row row p)

  unfoldable pub relay_once :
      RelayConfig → Table → List Message → RelaySummary × Table × List Message
  unfolding fetch_unpublished relay_rows
  relay_once config t bus =
      let rows = fetch_unpublished now config.batch_size config.max_attempts config.min_age t in
      let p = relay_rows rows (record { table = t; bus = bus; published = 0; failed = 0 }) in
      (record { picked = length rows; published = p.published; failed = p.failed }, p.table, p.bus)
