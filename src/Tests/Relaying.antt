-- ===== src/Tests/Relaying.antt =====
-- The theorems on the outbox, applied to a table with a pending and a published row, and the one on
-- the search of a response.
use data_assistant.Napcat.Search.Preorder.{extract_first_http_url-url_in, url_in}
use data_assistant.Outbox.Recovery.{IsRelayed, relay_once-recovers, IsAccepted}
use data_assistant.Outbox.Delivery.{accepts, relay_once-counts, accepted, relay_once_not_due}
use data_assistant.Tests.Inputs.{a_python}
use data_assistant.Napcat.Search.{extract_first_http_url}
use data_assistant.Base.Json.{nil, str, field, end, obj, cons, arr, Json}
use data_assistant.Base.{
  false, refl, true, arith, ◌+◌, ◌++◌, [], ◌≤◌, ◌∷◌, ◌≡◌, Option, length, none, String, ℕ,
}
use data_assistant.Outbox.Rows.{All, NodupIds, IsRowOf, find_row}
use data_assistant.Outbox.Table.{
  Dispatch, pending, published, Status, Table, is_due, fetch_unpublished, due_rows,
}
use data_assistant.Outbox.Relay.{relay_once, decode_payload, Publisher, RelayConfig}

abbrev pub row : ℕ → Status → Dispatch
row id status = record {
  id = id;
  image_id = 10 + id;
  subject = "tagger";
  payload = obj end;
  status = status;
  error = none;
  created_at = id;
  attempt_count = 0;
  updated_at = none;
}

abbrev pub a_table : Table
a_table = record { rows = row 1 pending ∷ row 2 published ∷ []; next_id = 3 }

abbrev pub relay_config : RelayConfig
relay_config = record { batch_size = 5; max_attempts = 3; min_age = 10 }

abbrev pub a_publisher : Publisher
a_publisher _ _ = none

abbrev pub no_json : String → Option Json
no_json _ = none

few_due : length (due_rows 100 3 10 a_table.rows) ≤ 5
unfolding due_rows is_due
few_due = omega arith

All-IsAccepted : All (IsAccepted no_json a_publisher 100) (due_rows 100 3 10 a_table.rows)
unfolding due_rows is_due decode_payload accepts
All-IsAccepted = (refl, tt)

here : IsRowOf a_table.rows (row 1 pending)
unfolding find_row
here = refl

there : IsRowOf a_table.rows (row 2 published)
unfolding find_row
there = refl

pub distinct : NodupIds a_table.rows
unfolding find_row
distinct = (refl, (refl, tt))

is_due-row : is_due 100 3 10 (row 1 pending) ≡ true
unfolding is_due
is_due-row = refl

not_due : is_due 100 3 10 (row 2 published) ≡ false
unfolding is_due
not_due = refl

relay_once-recovers_example :
    let (s, t', bus') = relay_once no_json a_publisher 100 relay_config a_table [] in
    IsRelayed no_json a_publisher 100 (row 1 pending) [] t' bus'
relay_once-recovers_example =
    relay_once-recovers no_json a_publisher 100 relay_config a_table [] (row 1 pending) few_due
      All-IsAccepted here is_due-row

relay_once-counts_example :
    let picked = fetch_unpublished 100 5 3 10 a_table in
    let (s, t', bus') = relay_once no_json a_publisher 100 relay_config a_table [] in
    (bus' ≡ [] ++ accepted no_json a_publisher 100 picked)
    × (s.published ≡ length (accepted no_json a_publisher 100 picked))
    × (s.picked ≡ s.published + s.failed)
    × (s.picked ≤ 5)
relay_once-counts_example = relay_once-counts no_json a_publisher 100 relay_config a_table []

relay_once_not_due_example :
    IsRowOf (relay_once no_json a_publisher 100 relay_config a_table []).1.rows (row 2 published)
relay_once_not_due_example =
    relay_once_not_due no_json a_publisher 100 relay_config a_table [] (row 2 published) distinct
      there not_due

abbrev an_answer : Json
an_answer = arr (cons (obj (field "file" (str "x") (field "url" (str " http://a ") end))) nil)

extract_first_http_url-url_in_example :
    extract_first_http_url a_python an_answer ≡ url_in a_python an_answer
extract_first_http_url-url_in_example = extract_first_http_url-url_in a_python an_answer
