-- ===== src/Tests/Interleaving.antt =====
-- The theorems on the steps of the outbox, applied to a table and to one that starts empty.
use data_assistant.Tests.Handing.{fresh}
use data_assistant.Tests.Relaying.{row, distinct, relay_config, a_table, a_publisher, no_json}
use data_assistant.Base.Json.{obj, end}
use data_assistant.Outbox.Interleaving.Runs.{relay_once-Steps}
use data_assistant.Outbox.Rows.{find_row}
use data_assistant.Outbox.Relay.{decode_payload, relay_once, Message}
use data_assistant.Base.{ℕ, List, refl, none, ◌∷◌, []}
use data_assistant.Outbox.Interleaving.{
  Steps-IsDelivered, is_acked, IsDelivered, stored, sent, marked, here, next, Relaying, Steps,
}
use data_assistant.Outbox.Table.{
  Dispatch, mark_nats_dispatch_published, insert_nats_dispatch, pending,
}

abbrev nothing : Relaying
nothing = record { table = record { rows = []; next_id = 1 }; bus = []; acked = [] }

nothing-IsDelivered : IsDelivered no_json nothing
unfolding find_row is_acked
nothing-IsDelivered = record {
  rows = λ id row e status. absurd cc;
  acks = λ id row e ack. absurd cc;
  fresh = λ id le. refl;
  below = λ id ack. absurd cc;
}

abbrev one_row : Relaying
one_row = record nothing {
  table = (insert_nats_dispatch 100 7 "tagger" (obj end) pending none nothing.table).1;
}

abbrev one_message : Message
one_message = record { payload = end; msg_id = 7 }

abbrev one_sent : Relaying
one_sent = record one_row { bus = one_message ∷ []; acked = 1 ∷ [] }

abbrev one_marked : Relaying
one_marked = record one_sent { table = mark_nats_dispatch_published 101 1 one_row.table }

abbrev the_row : Dispatch
the_row = record (row 1 pending) { image_id = 7; created_at = 100 }

to_marked : Steps no_json nothing one_marked
unfolding insert_nats_dispatch find_row decode_payload is_acked
to_marked =
    next
      (next (next here (stored 100 7 "tagger" (obj end) nothing))
        (sent 1 the_row one_message one_row refl refl))
      (marked 101 1 one_sent refl)

Steps-IsDelivered_example : IsDelivered no_json one_marked
Steps-IsDelivered_example = Steps-IsDelivered no_json nothing-IsDelivered to_marked

relay_once-Steps_example :
    let (s, t', bus') = relay_once no_json a_publisher 100 relay_config a_table [] in
    (acked' : List ℕ) × Steps no_json
      (record { table = a_table; bus = []; acked = [] })
      (record { table = t'; bus = bus'; acked = acked' })
relay_once-Steps_example =
    relay_once-Steps no_json a_publisher 100 relay_config a_table [] [] distinct
