-- ===== src/Outbox/Delivery.antt =====
-- What one pass of the relay does to the rows and to the bus.
use mathlib.Core.List.{append-nil, append_assoc}
use data_assistant.Outbox.Rows.{
  All-map, All-by_age, All-take, find_row-update_rows, IsRowOf, NodupIds, find_row, All,
  due_rows-IsRowOf, map_option,
}
use data_assistant.Outbox.Table.{
  is_due, due_rows, by_age, update_rows, Table, mark_nats_dispatch_failed, fetch_unpublished,
  set_failed, mark_nats_dispatch_published, set_published, Dispatch,
}
use data_assistant.Base.Json.{Fields, Json}
use data_assistant.Base.{
  inr, ==_iff, inl, Bool-cases, ◌==◌, if◌then◌else◌, refl, length-append, length-take, ap, ◌≤◌, ◌∙◌,
  sym, arith, ◌++◌, true, length, none, ◌≡◌, some, [], false, ◌∷◌, ◌+◌, List, Bool, ℕ, Option,
  String,
}
use data_assistant.Outbox.Relay.{
  fail_row, publish_row, RelayConfig, error_or, relay_rows, relay_once, decode_payload, relay_row,
  Message, Publisher, Pass,
}

-- Whether a row's payload decodes and the publisher accepts it; the message is what is sent.
abbrev pub message_of : (String → Option Json) → Dispatch → Option Message
message_of loads row =
    map_option (λ d. record { payload = d; msg_id = row.image_id })
      (decode_payload loads row.payload)

fetch-le :
    (now : ℕ) (config : RelayConfig) (t : Table)
    → length (fetch_unpublished now config.batch_size config.max_attempts config.min_age t)
      ≤ config.batch_size
unfolding fetch_unpublished
fetch-le now config t = omega (
  arith,
  length-take {0} config.batch_size
      (by_age (due_rows now config.max_attempts config.min_age t.rows)),
)

module _ (loads : String → Option Json) (publish : Publisher) (now : ℕ) where
  unfoldable pub accepts : ℕ → Option Message → Bool
  accepts id none = false
  accepts id (some message) = elim (publish id message) [ none ↦ true | some error ↦ false ]

  -- The messages of the rows that are accepted, in order.
  unfoldable pub accepted : List Dispatch → List Message
  accepted [] = []
  accepted (row ∷ rows) =
      let rest = accepted rows in
      elim (message_of loads row) [
        | none ↦ rest
        | some m ↦ elim (publish row.id m) [ none ↦ m ∷ rest | some error ↦ rest ]
      ]

  -- `p'` is `p` after the rows.
  record Relayed (rows : List Dispatch) (p p' : Pass) : Type 0 where
    counters : p'.published + p'.failed ≡ p.published + p.failed + length rows
    bus : p'.bus ≡ p.bus ++ accepted rows
    published : p'.published ≡ p.published + length (accepted rows)

  relay_row-Relayed :
      (row : Dispatch) (p : Pass) → Relayed (row ∷ []) p (relay_row loads publish now row p)
  unfolding accepted relay_row
  relay_row-Relayed row p = of_payload (decode_payload loads row.payload) refl
    where
      skipped :
          (error : String)
          → accepted (row ∷ []) ≡ []
          → Relayed (row ∷ []) p (fail_row loads publish now row.id error p)
      skipped error acc = record {
        counters = unfold fail_row in omega arith;
        bus = unfold fail_row in rw acc (sym (append-nil p.bus));
        published = unfold fail_row in rw acc (omega arith);
      }

      of_publish :
          (d : Fields) (o : Option String)
          → decode_payload loads row.payload ≡ some d
          → publish row.id (record { payload = d; msg_id = row.image_id }) ≡ o
          → Relayed (row ∷ []) p (relay_row loads publish now row p)
      of_publish d none e f =
          let acc : accepted (row ∷ []) ≡ record { payload = d; msg_id = row.image_id } ∷ [] =
            rw (e, f, accepted) refl in
          rw (e, relay_row, f, publish_row)
            (record {
              counters = omega arith;
              bus = ap (λ l. p.bus ++ l) (sym acc);
              published = omega (arith, ap length acc);
            })
      of_publish d (some error) e f =
          rw (e, relay_row, f, publish_row)
            (skipped (error_or "nats_publish_failed" error) (rw (e, f, accepted) refl))

      of_payload :
          (o : Option Fields)
          → decode_payload loads row.payload ≡ o
          → Relayed (row ∷ []) p (relay_row loads publish now row p)
      of_payload none e =
          rw (e, relay_row) (skipped "invalid outbox payload" (rw (e, accepted) refl))
      of_payload (some d) e = of_publish d _ e refl

  accepted-cons :
      (row : Dispatch) (rows : List Dispatch)
      → accepted (row ∷ rows) ≡ accepted (row ∷ []) ++ accepted rows
  unfolding accepted
  accepted-cons row rows = ground arith

  relay_rows-Relayed :
      (rows : List Dispatch) (p : Pass) → Relayed rows p (relay_rows loads publish now rows p)
  unfolding relay_rows
  relay_rows-Relayed [] p = record {
    counters = omega arith;
    bus = unfold accepted in sym (append-nil p.bus);
    published = unfold accepted in omega arith;
  }
  relay_rows-Relayed (row ∷ rows) p =
      let a = relay_row-Relayed row p in
      let b = relay_rows-Relayed rows (relay_row loads publish now row p) in
      record {
        counters = omega (arith, a.counters, b.counters);
        bus = rw accepted-cons (
            b.bus
            ∙ ap (λ l. l ++ accepted rows) a.bus
            ∙ append_assoc p.bus (accepted (row ∷ [])) (accepted rows));
        published = rw accepted-cons (
            omega (
              arith,
              a.published,
              b.published,
              length-append {0} (accepted (row ∷ [])) (accepted rows),
            ));
      }

  -- A pass tries each row that it picks once. What it counts as published is what the bus took, in
  -- the order of the rows, and every other row counts as failed.
  pub relay_once-counts :
      (config : RelayConfig) (t : Table) (bus : List Message)
      → let picked = fetch_unpublished now config.batch_size config.max_attempts config.min_age t in
        let (s, t', bus') = relay_once loads publish now config t bus in
        (bus' ≡ bus ++ accepted picked)
        × (s.published ≡ length (accepted picked))
        × (s.picked ≡ s.published + s.failed)
        × (s.picked ≤ config.batch_size)
  unfolding relay_once
  relay_once-counts config t bus =
      let picked = fetch_unpublished now config.batch_size config.max_attempts config.min_age t in
      let r =
        relay_rows-Relayed picked (record { table = t; bus = bus; published = 0; failed = 0 }) in
      (r.bus, omega (arith, r.published), omega (arith, r.counters), fetch-le now config t)

  -- What a pass makes of the row that it tries.
  pub outcome : Dispatch → Dispatch → Dispatch
  outcome row = elim (decode_payload loads row.payload) [
    | none ↦ set_failed now "invalid outbox payload"
    | some d ↦ elim (publish row.id (record { payload = d; msg_id = row.image_id })) [
      | none ↦ set_published now
      | some error ↦ set_failed now (error_or "nats_publish_failed" error)
    ]
  ]

  id-outcome : (row r : Dispatch) → (outcome row r).id ≡ r.id
  unfolding outcome set_published set_failed
  id-outcome row r = ground arith

  rows-relay_row :
      (row : Dispatch) (p : Pass)
      → (relay_row loads publish now row p).table.rows
        ≡ update_rows row.id (outcome row) p.table.rows
  unfolding outcome relay_row mark_nats_dispatch_published mark_nats_dispatch_failed
  rows-relay_row row p = ground arith

  pub find_row-relay_row :
      (j : ℕ) (row : Dispatch) (p : Pass)
      → find_row j (relay_row loads publish now row p).table.rows ≡ (
          if j == row.id
          then map_option (outcome row) (find_row j p.table.rows)
          else find_row j p.table.rows)
  find_row-relay_row j row p =
      rw (rows-relay_row row p)
        (find_row-update_rows j row.id (outcome row) p.table.rows (id-outcome row))

  -- A row that is not tried does not change.
  find_row-relay_rows_other :
      (j : ℕ) (rows : List Dispatch) (p : Pass)
      → All (λ row. (j == row.id) ≡ false) rows
      → find_row j (relay_rows loads publish now rows p).table.rows ≡ find_row j p.table.rows
  unfolding relay_rows
  find_row-relay_rows_other j [] p h = refl
  find_row-relay_rows_other j (row ∷ rows) p h =
      find_row-relay_rows_other j rows (relay_row loads publish now row p) h.1
      ∙ find_row-relay_row j row p
      ∙ rw h.0 refl

  picked-IsRowOf :
      (config : RelayConfig) (t : Table)
      → NodupIds t.rows
      → All
          (λ row. IsRowOf t.rows row × (is_due now config.max_attempts config.min_age row ≡ true))
          (fetch_unpublished now config.batch_size config.max_attempts config.min_age t)
  unfolding fetch_unpublished
  picked-IsRowOf config t u =
      All-take _ config.batch_size (by_age (due_rows now config.max_attempts config.min_age t.rows))
        (All-by_age _ (due_rows now config.max_attempts config.min_age t.rows)
          (due_rows-IsRowOf now config.max_attempts config.min_age t.rows u))

  -- A pass leaves a row alone that is not due: one that is published, too young, or out of
  -- attempts. The ids of the table are distinct.
  pub relay_once_not_due :
      (config : RelayConfig) (t : Table) (bus : List Message) (row : Dispatch)
      → NodupIds t.rows
      → IsRowOf t.rows row
      → is_due now config.max_attempts config.min_age row ≡ false
      → IsRowOf (relay_once loads publish now config t bus).1.rows row
  unfolding relay_once
  relay_once_not_due config t bus row u here not_due =
      find_row-relay_rows_other row.id picked _
        (All-map picked (λ r h. apart r h.0 h.1) (picked-IsRowOf config t u))
      ∙ here
    where
      picked : List Dispatch
      picked = fetch_unpublished now config.batch_size config.max_attempts config.min_age t

      apart :
          (r : Dispatch)
          → IsRowOf t.rows r
          → is_due now config.max_attempts config.min_age r ≡ true
          → (row.id == r.id) ≡ false
      apart r there due = elim (Bool-cases (row.id == r.id)) [
        | inl e ↦
            let same : row.id ≡ r.id = (==_iff row.id r.id).0 e in
            cc (here, there, due, not_due, ap (λ i. find_row i t.rows) same)
        | inr e ↦ e
      ]

  pub outcome-accepted :
      (row r : Dispatch)
      → accepts row.id (message_of loads row) ≡ true
      → outcome row r ≡ set_published now r
  unfolding outcome accepts
  outcome-accepted row r h = ground arith
