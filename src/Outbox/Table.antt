-- ===== src/Outbox/Table.antt =====
-- The table onebot_nats_dispatches and its statements, as repository.py runs them.
use data_assistant.Base.Json.{Json}
use data_assistant.Base.{
  suc, ◌||◌, ◌++◌, [], ltb, leb, ◌==◌, ◌+◌, if◌then◌else◌, Option, false, ◌&&◌, ◌∷◌, some, true,
  not, take, Bool, List, none, String, ℕ,
}

pub data Status : Type 0 where
  pending published failed : Status

pub record Dispatch : Type 0 where
  pub id : ℕ
  pub image_id : ℕ
  pub subject : String
  pub payload : Json
  pub status : Status
  pub error : Option String
  pub created_at : ℕ
  pub attempt_count : ℕ
  pub updated_at : Option ℕ

-- The rows in the order of their ids, and the next value of the id sequence.
pub record Table : Type 0 where
  pub rows : List Dispatch
  pub next_id : ℕ

-- `insert_nats_dispatch`: `status` and `error` as given, the other columns by default.
unfoldable pub insert_nats_dispatch :
    ℕ → ℕ → String → Json → Status → Option String → Table → ℕ × Table
insert_nats_dispatch now image_id subject payload status error t = (
  t.next_id,
  record {
    rows =
        t.rows
        ++ record {
          id = t.next_id;
          image_id = image_id;
          subject = subject;
          payload = payload;
          status = status;
          error = error;
          created_at = now;
          attempt_count = 0;
          updated_at = none;
        }
          ∷ [];
    next_id = suc t.next_id;
  },
)

-- `UPDATE … WHERE id=$1`
unfoldable pub update_rows : ℕ → (Dispatch → Dispatch) → List Dispatch → List Dispatch
update_rows id f [] = []
update_rows id f (row ∷ rows) = (if row.id == id then f row else row) ∷ update_rows id f rows

unfoldable pub set_published : ℕ → Dispatch → Dispatch
set_published now row = record row { status = published; error = none; updated_at = some now }

unfoldable pub set_failed : ℕ → String → Dispatch → Dispatch
set_failed now error row = record row {
  status = failed;
  error = some error;
  attempt_count = row.attempt_count + 1;
  updated_at = some now;
}

unfoldable pub mark_nats_dispatch_published : ℕ → ℕ → Table → Table
unfolding update_rows set_published
mark_nats_dispatch_published now id t = record t {
  rows = update_rows id (set_published now) t.rows;
}

unfoldable pub mark_nats_dispatch_failed : ℕ → ℕ → String → Table → Table
unfolding update_rows set_failed
mark_nats_dispatch_failed now id error t = record t {
  rows = update_rows id (set_failed now error) t.rows;
}

unfoldable pub is_published : Status → Bool
is_published published = true
is_published _ = false

-- The `WHERE` of `fetch_unpublished_nats_dispatches`. No limit is `max_attempts <= 0`.
unfoldable pub is_due : ℕ → ℕ → ℕ → Dispatch → Bool
unfolding is_published
is_due now max_attempts min_age row =
    not (is_published row.status)
    && ltb (row.created_at + min_age) now
    && (leb max_attempts 0 || ltb row.attempt_count max_attempts)

-- A stable insertion by `created_at`, for `ORDER BY created_at`; rows of one time keep their order.
unfoldable pub insert_by_age : Dispatch → List Dispatch → List Dispatch
insert_by_age row [] = row ∷ []
insert_by_age row (other ∷ rows) =
    if leb row.created_at other.created_at
    then row ∷ other ∷ rows
    else other ∷ insert_by_age row rows

unfoldable pub by_age : List Dispatch → List Dispatch
unfolding insert_by_age
by_age [] = []
by_age (row ∷ rows) = insert_by_age row (by_age rows)

unfoldable pub due_rows : ℕ → ℕ → ℕ → List Dispatch → List Dispatch
unfolding is_due
due_rows now max_attempts min_age [] = []
due_rows now max_attempts min_age (row ∷ rows) =
    let rest = due_rows now max_attempts min_age rows in
    if is_due now max_attempts min_age row then row ∷ rest else rest

unfoldable pub fetch_unpublished : ℕ → ℕ → ℕ → ℕ → Table → List Dispatch
unfolding by_age due_rows
fetch_unpublished now limit max_attempts min_age t =
    take limit (by_age (due_rows now max_attempts min_age t.rows))
