-- ===== src/Outbox/Recovery.antt =====
-- Once the bus works again, a pass hands over every row that is due.
use data_assistant.Outbox.Picked.{
  HasMessage-accepted, HasMessage, HasRow-by_age, HasRow-due_rows, HasRow,
}
use mathlib.Core.Path.{subst}
use mathlib.Core.Option.{some-injective}
use data_assistant.Outbox.Delivery.{
  relay_once-counts, accepted, outcome-accepted, find_row-relay_row, message_of, accepts, outcome,
}
use data_assistant.Outbox.Relay.{
  Message, RelayConfig, relay_once, relay_row, Pass, relay_rows, Publisher,
}
use data_assistant.Base.Json.{Json}
use data_assistant.Base.{
  ◌++◌, inr, inl, Bool-cases, none, some, if◌then◌else◌, zero, true, refl, [], ap, ◌||◌, ◌∙◌, arith,
  take, ◌==◌, suc, false, ◌∷◌, ◌≤◌, length, ◌≡◌, Bool, Option, List, ℕ, String,
}
use data_assistant.Outbox.Table.{
  published, Table, is_due, fetch_unpublished, set_published, Dispatch, due_rows, insert_by_age,
  by_age,
}
use data_assistant.Outbox.Rows.{All-by_age, IsRowOf, map_option, All, find_row}

abbrev any_id : ℕ → List Dispatch → Bool
any_id j [] = false
any_id j (row ∷ rows) = (j == row.id) || any_id j rows

any_id-insert_by_age :
    (j : ℕ) (row : Dispatch) (rows : List Dispatch)
    → any_id j (insert_by_age row rows) ≡ ((j == row.id) || any_id j rows)
unfolding insert_by_age
any_id-insert_by_age j row [] = refl
any_id-insert_by_age j row (other ∷ rows) = ground (arith, any_id-insert_by_age j row rows)

any_id-by_age : (j : ℕ) (rows : List Dispatch) → any_id j (by_age rows) ≡ any_id j rows
unfolding by_age
any_id-by_age j [] = refl
any_id-by_age j (row ∷ rows) =
    any_id-insert_by_age j row (by_age rows) ∙ ap (λ b. (j == row.id) || b) (any_id-by_age j rows)

length-insert_by_age :
    (row : Dispatch) (rows : List Dispatch) → length (insert_by_age row rows) ≡ suc (length rows)
unfolding insert_by_age
length-insert_by_age row [] = refl
length-insert_by_age row (other ∷ rows) = ground (arith, length-insert_by_age row rows)

length-by_age : (rows : List Dispatch) → length (by_age rows) ≡ length rows
unfolding by_age
length-by_age [] = refl
length-by_age (row ∷ rows) = length-insert_by_age row (by_age rows) ∙ ap suc (length-by_age rows)

take-all {ℓ} : {A : Type ℓ} (n : ℕ) (xs : List A) → length xs ≤ n → take n xs ≡ xs
take-all zero [] h = refl
take-all zero (x ∷ xs) h = absurd (omega arith)
take-all (suc n) [] h = refl
take-all (suc n) (x ∷ xs) h = ap (λ l. x ∷ l) (take-all n xs (omega arith))

any_id-due_rows :
    (now max_attempts min_age : ℕ) (rows : List Dispatch) (row : Dispatch)
    → IsRowOf rows row
    → is_due now max_attempts min_age row ≡ true
    → any_id row.id (due_rows now max_attempts min_age rows) ≡ true
unfolding find_row due_rows
any_id-due_rows now m a [] row h due = cc
any_id-due_rows now m a (first ∷ rows) row h due = elim (Bool-cases (row.id == first.id)) [
  | inl e ↦
      let same : some first ≡ some row = rw e at h in of_first (some-injective first row same) e
  | inr e ↦
      let rest = any_id-due_rows now m a rows row (rw e at h) due in
      elim (Bool-cases (is_due now m a first)) [
        | inl f ↦ rw (f, rest) (ground arith)
        | inr f ↦ rw f rest
      ]
]
  where
    of_first :
        first ≡ row
        → (row.id == first.id) ≡ true
        → any_id row.id (due_rows now m a (first ∷ rows)) ≡ true
    of_first s e = let f : is_due now m a first ≡ true = rw (← s) at due in rw f (rw e refl)

module _ (loads : String → Option Json) (publish : Publisher) (now : ℕ) where
  abbrev pub IsAccepted : Dispatch → Type 0
  IsAccepted row = accepts loads publish now row.id (message_of loads row) ≡ true

  map_option-outcome :
      (row : Dispatch) (o : Option Dispatch)
      → IsAccepted row
      → map_option (outcome loads publish now row) o ≡ map_option (set_published now) o
  map_option-outcome row none h = refl
  map_option-outcome row (some r) h = ap some (outcome-accepted loads publish now row r h)

  map_option-set_published_twice :
      (o : Option Dispatch)
      → map_option (set_published now) (map_option (set_published now) o)
        ≡ map_option (set_published now) o
  unfolding set_published
  map_option-set_published_twice none = refl
  map_option-set_published_twice (some r) = refl

  find_row-relay_rows :
      (j : ℕ) (rows : List Dispatch) (p : Pass)
      → All IsAccepted rows
      → find_row j (relay_rows loads publish now rows p).table.rows ≡ (
          if any_id j rows
          then map_option (set_published now) (find_row j p.table.rows)
          else find_row j p.table.rows)
  unfolding relay_rows
  find_row-relay_rows j [] p h = refl
  find_row-relay_rows j (row ∷ rows) p h =
      find_row-relay_rows j rows (relay_row loads publish now row p) h.1
      ∙ ap (λ o. if any_id j rows then map_option (set_published now) o else o)
          (find_row-relay_row loads publish now j row p
            ∙ ap (λ o. if j == row.id then o else find_row j p.table.rows)
                (map_option-outcome row (find_row j p.table.rows) h.0))
      ∙ both (j == row.id) (any_id j rows) (find_row j p.table.rows)
    where
      both :
          (b c : Bool) (o : Option Dispatch)
          → (if c
              then map_option
                  (set_published now)
                  (if b then map_option (set_published now) o else o)
              else (if b then map_option (set_published now) o else o))
            ≡ (if b || c then map_option (set_published now) o else o)
      both true true o = map_option-set_published_twice o
      both true false o = refl
      both false true o = refl
      both false false o = refl

  -- The row that a pass leaves in the place of one that is due.
  find_row-relay_once :
      (config : RelayConfig) (t : Table) (bus : List Message) (row : Dispatch)
      → length (due_rows now config.max_attempts config.min_age t.rows) ≤ config.batch_size
      → All IsAccepted (due_rows now config.max_attempts config.min_age t.rows)
      → IsRowOf t.rows row
      → is_due now config.max_attempts config.min_age row ≡ true
      → find_row row.id (relay_once loads publish now config t bus).1.rows
        ≡ some (set_published now row)
  unfolding relay_once fetch_unpublished
  find_row-relay_once config t bus row room all here due =
      find_row-relay_rows row.id picked _ (rw whole (All-by_age IsAccepted rows all))
      ∙ rw
          (
            whole,
            any_id-by_age row.id rows,
            any_id-due_rows now config.max_attempts config.min_age t.rows row here due,
            here,
          )
          refl
    where
      rows : List Dispatch
      rows = due_rows now config.max_attempts config.min_age t.rows

      picked : List Dispatch
      picked = take config.batch_size (by_age rows)

      whole : picked ≡ by_age rows
      whole = take-all config.batch_size (by_age rows) (omega (arith, length-by_age rows))

  -- The row is marked as published, and its message is one of those that the pass put on the bus.
  pub record IsRelayed (row : Dispatch) (bus : List Message) (t' : Table) (bus' : List Message)
      : Type 0 where
    pub marked :
        find_row row.id t'.rows
        ≡ some (record row { status = published; error = none; updated_at = some now })
    pub message : Message
    pub of_row : message_of loads row ≡ some message
    pub sent : List Message
    pub bus_after : bus' ≡ bus ++ sent
    pub delivered : HasMessage message sent

  -- If the batch has room for all rows that are due, and each of these has a payload that decodes
  -- and that the bus accepts, then one pass puts the message of each row that is due on the bus, and
  -- the row's status is published, with no error.
  pub relay_once-recovers :
      (config : RelayConfig) (t : Table) (bus : List Message) (row : Dispatch)
      → length (due_rows now config.max_attempts config.min_age t.rows) ≤ config.batch_size
      → All IsAccepted (due_rows now config.max_attempts config.min_age t.rows)
      → IsRowOf t.rows row
      → is_due now config.max_attempts config.min_age row ≡ true
      → let (s, t', bus') = relay_once loads publish now config t bus in IsRelayed row bus t' bus'
  unfolding set_published
  relay_once-recovers config t bus row room all here due =
      let (m, e, sent) = HasMessage-accepted loads publish now row picked ok_row in_picked in
      record {
        marked = find_row-relay_once config t bus row room all here due;
        message = m;
        of_row = e;
        sent = accepted loads publish now picked;
        bus_after = (relay_once-counts loads publish now config t bus).0;
        delivered = sent;
      }
    where
      rows : List Dispatch
      rows = due_rows now config.max_attempts config.min_age t.rows

      picked : List Dispatch
      picked = fetch_unpublished now config.batch_size config.max_attempts config.min_age t

      in_rows : HasRow row rows
      in_rows = HasRow-due_rows now config.max_attempts config.min_age t.rows row here due

      in_picked : HasRow row picked
      in_picked =
          unfold fetch_unpublished in
          rw (take-all config.batch_size (by_age rows) (omega (arith, room, length-by_age rows)))
            (HasRow-by_age row rows in_rows)

      of_all : (xs : List Dispatch) → All IsAccepted xs → HasRow row xs → IsAccepted row
      of_all [] h k = absurd k
      of_all (x ∷ xs) h (inl e) = subst IsAccepted e h.0
      of_all (x ∷ xs) h (inr k) = of_all xs h.1 k

      ok_row : IsAccepted row
      ok_row = of_all rows all in_rows
