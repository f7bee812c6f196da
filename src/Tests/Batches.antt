-- ===== src/Tests/Batches.antt =====
-- The theorem on the HTTP runner, applied to a batch of which one file is missing.
use data_assistant.Base.Text.{py_str, is_empty}
use mathlib.Core.List.{Perm}
use data_assistant.Tagger.Batch.OnePerItem.{run_http_tagger_batch-items, rejected_items}
use data_assistant.Tests.Inputs.{three_items, a_python, item}
use data_assistant.Base.Json.{nil, arr, dict, obj, Json, get, Fields}
use data_assistant.Tagger.Batch.{
  post_tagger_batch, pre_failure, ready_items, response, failed_item, BatchError, Reply, FileSystem,
  run_http_tagger_batch, Settings,
}
use data_assistant.Base.Result.{ok, Result}
use data_assistant.Base.{
  ◌++◌, [], true, ◌∷◌, refl, some, str_eq, none, not, ◌≡◌, Option, List, String, map,
}

abbrev a_file_system : FileSystem
a_file_system = record {
  expand = λ p. p;
  exists = λ p. not (str_eq p "/b.png");
  is_file = λ p. true;
  resolve = λ p. p;
}

abbrev no_settings : Settings
no_settings = record { threshold = none; use_chinese_name = none; top_k = none }

abbrev a_client : Fields → Reply
a_client _ = response 200 "[]"

abbrev a_parser : String → Option Json
a_parser _ = some (obj (dict (("results", arr nil) ∷ [])))

abbrev a_batch : Result BatchError (List Fields)
a_batch =
    run_http_tagger_batch a_python a_file_system (some "http://tagger") no_settings a_parser
      a_client three_items

abbrev results_of_batch : List Fields
results_of_batch =
    failed_item (item "/b.png" 1) "image not found: /b.png"
    ∷ failed_item (item "/a.png" 0) "missing result from tagger service"
    ∷ failed_item (item "/c.png" 2) "missing result from tagger service"
    ∷ []

a_batch-ok : a_batch ≡ ok results_of_batch
unfolding run_http_tagger_batch is_empty pre_failure py_str post_tagger_batch get
a_batch-ok = refl

run_http_tagger_batch-items_example :
    (map (get "item") results_of_batch
      ≡ map obj (
          rejected_items a_python a_file_system three_items
          ++ ready_items a_python a_file_system three_items))
    × Perm
        (rejected_items a_python a_file_system three_items
          ++ ready_items a_python a_file_system three_items)
        three_items
run_http_tagger_batch-items_example =
    run_http_tagger_batch-items a_python a_file_system (some "http://tagger") no_settings a_parser
      a_client three_items a_batch-ok
