-- ===== src/Outbox/Interleaving/Runs.antt =====
-- The hand-over of a saved image and a pass of the relay are made of these steps.
use data_assistant.Outbox.HandOver.{Chance, hand_over}
use data_assistant.Outbox.Delivery.{message_of}
use data_assistant.Outbox.Rows.{
  due_rows-IsRowOf, due_rows-IsRowOf, All-by_age, All-take, find_row-update_rows, NodupIds, All-map,
  All, find_row,
}
use data_assistant.Outbox.Relay.{
  error_or, decode_payload, RelayConfig, Message, publish_row, relay_rows, fail_row, relay_row,
  relay_once, Pass, Publisher,
}
use data_assistant.Base.Json.{str, Fields, Json}
use data_assistant.Base.{
  false, false, true, ◌∙◌, ◌+◌, arith, ◌++◌, ◌==◌, refl, take, Bool, ◌≡◌, List, ℕ, Option, String,
  some, none, ◌∷◌, [],
}
use data_assistant.Outbox.Interleaving.{
  is_acked, Steps-trans, Relaying, sent, marked, unmarked, here, next, Steps,
}
use data_assistant.Outbox.Table.{
  pending, insert_nats_dispatch, set_published, set_published, due_rows, by_age,
  mark_nats_dispatch_published, update_rows, set_failed, fetch_unpublished,
  mark_nats_dispatch_failed, Dispatch, Table,
}

module _ (loads : String → Option Json) where
  -- The table's row with the id has the message of this one, which was read before.
  abbrev Current : Table → Dispatch → Type 0
  Current t row =
      (r : Dispatch) × (find_row row.id t.rows ≡ some r)
      × (message_of loads r ≡ message_of loads row)

  Current-update :
      (id : ℕ) (f : Dispatch → Dispatch) (t : Table) (row : Dispatch)
      → ((r : Dispatch) → (f r).id ≡ r.id)
      → ((r : Dispatch) → message_of loads (f r) ≡ message_of loads r)
      → Current t row
      → Current (record t { rows = update_rows id f t.rows }) row
  Current-update id f t row keep same (r, e, m) = of_test (row.id == id) refl
    where
      of_test :
          (b : Bool)
          → (row.id == id) ≡ b
          → Current (record t { rows = update_rows id f t.rows }) row
      of_test true g =
          (f r, ground (arith, e, g, find_row-update_rows row.id id f t.rows keep), same r ∙ m)
      of_test false g = (r, ground (arith, e, g, find_row-update_rows row.id id f t.rows keep), m)

  module _ (publish : Publisher) (now : ℕ) where
    abbrev at_pass : Pass → List ℕ → Relaying
    at_pass p acked = record { table = p.table; bus = p.bus; acked = acked }

    -- One pass leads to another by steps, and the rows that were read are still current.
    record Goes (acked : List ℕ) (p p' : Pass) : Type 0 where
      acked_after : List ℕ
      steps : Steps loads (at_pass p acked) (at_pass p' acked_after)
      current : (row : Dispatch) → Current p.table row → Current p'.table row

    fail_row-Goes :
        (acked : List ℕ) (id : ℕ) (error : String) (p : Pass)
        → Goes acked p (fail_row loads publish now id error p)
    unfolding fail_row mark_nats_dispatch_failed set_failed
    fail_row-Goes acked id error p = record {
      acked_after = acked;
      steps =
          next here (unfold mark_nats_dispatch_failed in unmarked now id error (at_pass p acked));
      current =
          λ row h. Current-update id (set_failed now error) p.table row (λ r. refl) (λ r. refl) h;
    }

    publish_row-Goes :
        (acked : List ℕ) (row : Dispatch) (message : Message) (p : Pass)
        → Current p.table row
        → message_of loads row ≡ some message
        → Goes acked p (publish_row loads publish now row.id message p)
    unfolding publish_row
    publish_row-Goes acked row message p (r, e, m) g = of_answer (publish row.id message)
      where
        of_answer :
            (o : Option String)
            → Goes acked p (elim o [
              | some error ↦
                  fail_row loads publish now row.id (error_or "nats_publish_failed" error) p
              | none ↦ record p {
                table = mark_nats_dispatch_published now row.id p.table;
                bus = p.bus ++ message ∷ [];
                published = p.published + 1;
              }
            ])
        of_answer (some error) = fail_row-Goes acked row.id (error_or "nats_publish_failed" error) p
        of_answer none = record {
          acked_after = row.id ∷ acked;
          steps = next (next here (sent row.id r message (at_pass p acked) e (m ∙ g))) (
              marked now row.id
                (record (at_pass p acked) { bus = p.bus ++ message ∷ []; acked = row.id ∷ acked })
                (unfold is_acked in ground arith));
          current = λ other h.
              unfold mark_nats_dispatch_published set_published in
              Current-update row.id (set_published now) p.table other (λ x. refl) (λ x. refl) h;
        }

    relay_row-Goes :
        (acked : List ℕ) (row : Dispatch) (p : Pass)
        → Current p.table row
        → Goes acked p (relay_row loads publish now row p)
    unfolding relay_row
    relay_row-Goes acked row p h = of_payload (decode_payload loads row.payload) refl
      where
        of_payload :
            (o : Option Fields)
            → decode_payload loads row.payload ≡ o
            → Goes acked p (elim o [
              | none ↦ fail_row loads publish now row.id "invalid outbox payload" p
              | some payload ↦
                  publish_row loads publish now row.id
                    (record { payload = payload; msg_id = row.image_id })
                    p
            ])
        of_payload none e = fail_row-Goes acked row.id "invalid outbox payload" p
        of_payload (some payload) e =
            publish_row-Goes acked row (record { payload = payload; msg_id = row.image_id }) p h
              (rw e refl)

    relay_rows-Goes :
        (acked : List ℕ) (rows : List Dispatch) (p : Pass)
        → All (Current p.table) rows
        → Goes acked p (relay_rows loads publish now rows p)
    unfolding relay_rows
    relay_rows-Goes acked [] p h = record {
      acked_after = acked;
      steps = here;
      current = λ row k. k;
    }
    relay_rows-Goes acked (row ∷ rows) p h =
        let first = relay_row-Goes acked row p h.0 in
        let rest =
          relay_rows-Goes first.acked_after rows (relay_row loads publish now row p)
            (All-map rows first.current h.1) in
        record {
          acked_after = rest.acked_after;
          steps = Steps-trans loads first.steps rest.steps;
          current = λ r k. rest.current r (first.current r k);
        }

    -- A pass of the relay over a table whose ids are distinct is made of single steps of the outbox.
    pub relay_once-Steps :
        (config : RelayConfig) (t : Table) (bus : List Message) (acked : List ℕ)
        → NodupIds t.rows
        → let (s, t', bus') = relay_once loads publish now config t bus in
          (acked' : List ℕ) × Steps loads
            (record { table = t; bus = bus; acked = acked })
            (record { table = t'; bus = bus'; acked = acked' })
    unfolding relay_once fetch_unpublished
    relay_once-Steps config t bus acked u =
        let run =
          relay_rows-Goes acked _ (record { table = t; bus = bus; published = 0; failed = 0 })
            picked in
        (run.acked_after, run.steps)
      where
        picked : All (Current t) (
            take config.batch_size
              (by_age (due_rows now config.max_attempts config.min_age t.rows)))
        picked =
            All-take (Current t) config.batch_size
              (by_age (due_rows now config.max_attempts config.min_age t.rows))
              (All-by_age (Current t) (due_rows now config.max_attempts config.min_age t.rows) (
                All-map (due_rows now config.max_attempts config.min_age t.rows)
                  (λ r h. (r, h.0, refl))
                  (due_rows-IsRowOf now config.max_attempts config.min_age t.rows u)))

  module _ (jsonb : Fields → String) (now image_id : ℕ) (subject : String) (payload : Fields)
      (t : Table) (bus : List Message) (acked : List ℕ) where
    abbrev pub HandsOverBySteps : Chance → Type 0
    HandsOverBySteps chance =
        let (t', bus') = hand_over jsonb chance now image_id subject payload t bus in
        (acked' : List ℕ) × Steps loads (record { table = t; bus = bus; acked = acked })
          (record { table = t'; bus = bus'; acked = acked' })

    abbrev the_message : Message
    the_message = record { payload = payload; msg_id = image_id }

    abbrev before : Relaying
    before = record { table = t; bus = bus; acked = acked }

    abbrev with_row : Relaying
    with_row = record before {
      table = (insert_nats_dispatch now image_id subject (str (jsonb payload)) pending none t).1;
    }
