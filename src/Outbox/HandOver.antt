-- ===== src/Outbox/HandOver.antt =====
-- The end of `_process_image` in pipeline.py: a saved image's task is stored in the outbox, then
-- published, and its row is marked. Each call of the database may raise, which is only logged.
use data_assistant.Outbox.Relay.{decode_payload, Message, error_or}
use data_assistant.Base.Json.{Json, str, Fields}
use data_assistant.Outbox.Rows.{find_row}
use data_assistant.Outbox.Table.{
  is_due, pending, Dispatch, Table, mark_nats_dispatch_failed, insert_nats_dispatch,
  mark_nats_dispatch_published,
}
use data_assistant.Base.{
  true, ◌⊎◌, arith, [], none, ◌∷◌, ◌≡◌, if◌then◌else◌, some, ◌++◌, String, List, Bool, ℕ, Option,
}

-- Which calls raise, and what the publish comes to: `none` if the bus takes the message.
pub record Chance : Type 0 where
  pub insert_fails : Bool
  pub mark_fails : Bool
  pub publish_error : Option String

-- The payload is written as jsonb, which the driver hands back as a text: `jsonb` is that text.
unfoldable pub store :
    (Fields → String) → Chance → ℕ → ℕ → String → Fields → Table → Option ℕ × Table
unfolding insert_nats_dispatch
store jsonb chance now image_id subject payload t =
    if chance.insert_fails
    then (none, t)
    else let (id, t') =
        insert_nats_dispatch now image_id subject (str (jsonb payload)) pending none t in
      (some id, t')

unfoldable pub mark : Chance → ℕ → Option ℕ → Table → Table
unfolding mark_nats_dispatch_published mark_nats_dispatch_failed error_or
mark chance now none t = t
mark chance now (some id) t = if chance.mark_fails then t else elim (chance.publish_error) [
  | none ↦ mark_nats_dispatch_published now id t
  | some e ↦ mark_nats_dispatch_failed now id (error_or "nats_publish_failed" e) t
]

-- The bus after the publish.
unfoldable pub deliver : Option String → Message → List Message → List Message
deliver none message bus = bus ++ message ∷ []
deliver (some e) message bus = bus

-- The outbox and the bus after the hand-over.
unfoldable pub hand_over :
    (Fields → String)
    → Chance
    → ℕ
    → ℕ
    → String
    → Fields
    → Table
    → List Message
    → Table × List Message
unfolding store mark deliver
hand_over jsonb chance now image_id subject payload t bus =
    let (dispatch_id, t') = store jsonb chance now image_id subject payload t in
    let bus' = deliver chance.publish_error (record { payload = payload; msg_id = image_id }) bus in
    (mark chance now dispatch_id t', bus')

unfoldable pub new_row : (Fields → String) → ℕ → ℕ → ℕ → String → Fields → Dispatch
new_row jsonb id now image_id subject payload = record {
  id = id;
  image_id = image_id;
  subject = subject;
  payload = str (jsonb payload);
  status = pending;
  error = none;
  created_at = now;
  attempt_count = 0;
  updated_at = none;
}

pub find_row-append :
    (id : ℕ) (rows : List Dispatch) (row : Dispatch)
    → find_row id rows ≡ none
    → row.id ≡ id
    → find_row id (rows ++ row ∷ []) ≡ some row
unfolding find_row
find_row-append id [] row h e = ground (arith, e)
find_row-append id (other ∷ rows) row h e = ground (arith, h, e, find_row-append id rows row)

module _ (loads : String → Option Json) (jsonb : Fields → String) (later max_attempts min_age : ℕ)
    (now image_id : ℕ) (subject : String) (payload : Fields) (t : Table) (bus : List Message) where
  -- The row holds the task, and it is due for a relay that reads the table at the time `later`, or the
  -- bus has the task.
  pub record IsHandedOver (bus' : List Message) (row : Dispatch) : Type 0 where
    pub image : row.image_id ≡ image_id
    pub payload_kept : decode_payload loads row.payload ≡ some payload
    pub delivered :
        (is_due later max_attempts min_age row ≡ true)
        ⊎ (bus' ≡ bus ++ record { payload = payload; msg_id = image_id } ∷ [])

  abbrev pub HandsOver : Chance → Type 0
  HandsOver chance =
      let (t', bus') = hand_over jsonb chance now image_id subject payload t bus in
      (row : Dispatch) × (find_row t.next_id t'.rows ≡ some row) × IsHandedOver bus' row

  abbrev the_row : Dispatch
  the_row = new_row jsonb t.next_id now image_id subject payload
