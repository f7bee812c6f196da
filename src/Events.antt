-- ===== src/Events.antt =====
-- The tables onebot_events and onebot_messages, and the functions of repository.py that fill them.
use data_assistant.Base.Json.{nil, obj, str, cons, ℤ, Fields, get, Json, Items}
use data_assistant.Base.{
  if◌then◌else◌, suc, [], str_eq, ◌<>◌, false, ◌∷◌, Bool, none, ◌++◌, Option, List, ℕ, String, some,
}

-- The columns that the insertion fills. `payload_hash` is computed from `raw`.
pub record EventColumns : Type 0 where
  pub post_type : String
  pub message_type : Option String
  pub user_id : Option ℤ
  pub group_id : Option ℤ
  pub group_name : Option String
  pub self_id : ℤ
  pub message_id : Option String
  pub event_time : String
  pub raw_message : Option String
  pub raw : Fields

pub record EventRow : Type 0 where
  pub id : ℕ
  pub columns : EventColumns
  pub payload_hash : String

pub record MessageColumns : Type 0 where
  pub event_id : ℕ
  pub message_type : String
  pub user_id : ℤ
  pub group_id : Option ℤ
  pub group_name : Option String
  pub sender_nickname : Option String
  pub sender_card : Option String
  pub sender_role : Option String
  pub message_id : Option String
  pub plain_text : Option String
  pub message_segments : Option Items
  pub event_time : String

pub record MessageRow : Type 0 where
  pub id : ℕ
  pub columns : MessageColumns

-- The rows in the order of their ids, and the next values of the id sequences.
pub record Events : Type 0 where
  pub rows : List EventRow
  pub next_id : ℕ

pub record Messages : Type 0 where
  pub rows : List MessageRow
  pub next_id : ℕ

text_of : Json → Option String
text_of (str s) = some s
text_of _ = none

dict_of : Json → Option Fields
dict_of (obj d) = some d
dict_of _ = none

-- The text of a segment of type `text`, which is empty for any other segment.
unfoldable pub segment_text : Json → String
unfolding text_of dict_of get
segment_text segment = elim (dict_of segment) [
  | none ↦ ""
  | some fields ↦
      if is_text (text_of (get "type" fields))
      then elim (dict_of (get "data" fields)) [
        | none ↦ ""
        | some inner ↦ elim (text_of (get "text" inner)) [ none ↦ "" | some s ↦ s ]
      ]
      else ""
]
  where
    is_text : Option String → Bool
    is_text none = false
    is_text (some s) = str_eq s "text"

unfoldable pub join_texts : Items → String
unfolding segment_text
join_texts nil = ""
join_texts (cons segment segments) = segment_text segment <> join_texts segments

unfoldable pub extract_plain_text : Option Items → Option String → Option String
unfolding join_texts
extract_plain_text none raw_message = raw_message
extract_plain_text (some segments) raw_message = some (join_texts segments)

-- The nickname, the card and the role.
unfoldable pub extract_sender_fields : Option Fields → Option String × Option String × Option String
unfolding text_of get
extract_sender_fields none = (none, none, none)
extract_sender_fields (some sender) =
    (text_of (get "nickname" sender), text_of (get "card" sender), text_of (get "role" sender))

unfoldable pub insert_event : (Fields → String) → EventColumns → Events → ℕ × Events
insert_event hash_of columns t = (
  t.next_id,
  record {
    rows =
        t.rows
        ++ record { id = t.next_id; columns = columns; payload_hash = hash_of columns.raw } ∷ [];
    next_id = suc t.next_id;
  },
)

unfoldable pub insert_message : MessageColumns → Messages → ℕ × Messages
insert_message columns t = (
  t.next_id,
  record {
    rows = t.rows ++ record { id = t.next_id; columns = columns } ∷ [];
    next_id = suc t.next_id;
  },
)
