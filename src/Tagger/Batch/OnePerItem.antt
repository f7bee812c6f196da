-- ===== src/Tagger/Batch/OnePerItem.antt =====
-- The HTTP runner returns one result for each item of the batch.
use data_assistant.Base.Result.{Ensures-bind, Ensures-ok, ok, Ensures-skip, Ensures}
use mathlib.Core.List.{Perm, perm_middle, map-append, append-nil}
use mathlib.Core.List.Perm
use mathlib.Core.Path.{ap₂}
use data_assistant.Base.{
  sym, ◌∙◌, Bool-cases, inr, Option, inl, Option-cases, ◌++◌, refl, some, [], arith, none, ◌≡◌,
  String, map, ◌∷◌, List,
}
use data_assistant.Base.Json.{arr, null, obj, get, Json, Fields}
use data_assistant.Base.Text.{is_empty, Python}
use data_assistant.Tagger.Batch.{
  build_tagger_request_payload, post_tagger_batch, run_http_tagger_batch, results_of, Reply,
  request_path, find_named, Settings, send_ready, ready_items, success_item, pre_failure,
  with_error, with_tags, failed_item, normalize_batch_result, pair_results, result_of, FileSystem,
  pre_failures,
}

abbrev item_of : Fields → Json
item_of = get "item"

module _ (py : Python) where
  item-normalize :
      (item : Fields) (v : Json) → item_of (normalize_batch_result py item v) ≡ obj item
  unfolding get normalize_batch_result with_tags with_error failed_item success_item
  item-normalize item v = ground arith

module _ (py : Python) (fs : FileSystem) where
  pub rejected_items : List Fields → List Fields
  rejected_items [] = []
  rejected_items (item ∷ items) =
      let rest = rejected_items items in
      elim (pre_failure py fs item) [ none ↦ rest | some failure ↦ item ∷ rest ]

  item-result_of : (item : Fields) (v : Json) → item_of (result_of py fs item v) ≡ obj item
  unfolding result_of get failed_item
  item-result_of item null = refl
  item-result_of item v = item-normalize py item v

  items-pair_results :
      (named : List (String × Json)) (unnamed : List Json) (items : List Fields)
      → map item_of (pair_results py fs named unnamed items) ≡ map obj items
  unfolding pair_results
  items-pair_results named unnamed [] = refl
  items-pair_results named [] (item ∷ items) =
      elim (Option-cases (find_named py fs (request_path py fs item) named)) [
        | inl e ↦
            rw (e, pair_results)
              (ap₂ ◌∷◌ (item-result_of item null) (items-pair_results named [] items))
        | inr (v, e) ↦
            rw (e, pair_results)
              (ap₂ ◌∷◌ (item-result_of item v) (items-pair_results named [] items))
      ]
  items-pair_results named (u ∷ us) (item ∷ items) =
      elim (Option-cases (find_named py fs (request_path py fs item) named)) [
        | inl e ↦
            rw (e, pair_results)
              (ap₂ ◌∷◌ (item-result_of item u) (items-pair_results named us items))
        | inr (v, e) ↦
            rw (e, pair_results)
              (ap₂ ◌∷◌ (item-result_of item v) (items-pair_results named (u ∷ us) items))
      ]

  item-pre_failure :
      (item : Fields) {failure : Fields}
      → pre_failure py fs item ≡ some failure
      → item_of failure ≡ obj item
  unfolding pre_failure get failed_item
  item-pre_failure item h = ground arith

  items-pre_failures :
      (items : List Fields)
      → map item_of (pre_failures py fs items) ≡ map obj (rejected_items items)
  unfolding pre_failures rejected_items
  items-pre_failures [] = refl
  items-pre_failures (item ∷ items) = elim (Option-cases (pre_failure py fs item)) [
    | inl e ↦ rw (e, pre_failures, rejected_items) (items-pre_failures items)
    | inr (failure, e) ↦
        rw (e, pre_failures, rejected_items)
          (ap₂ ◌∷◌ (item-pre_failure item e) (items-pre_failures items))
  ]

  perm-rejected-ready :
      (items : List Fields) → Perm (rejected_items items ++ ready_items py fs items) items
  unfolding rejected_items ready_items
  perm-rejected-ready [] = Perm.refl []
  perm-rejected-ready (item ∷ items) = elim (Option-cases (pre_failure py fs item)) [
    | inl e ↦
        rw (e, rejected_items, ready_items)
          (Perm.trans (perm_middle (rejected_items items) (ready_items py fs items))
            (Perm.cons item (perm-rejected-ready items)))
    | inr (failure, e) ↦
        rw (e, rejected_items, ready_items) (Perm.cons item (perm-rejected-ready items))
  ]

  results_of-items :
      (items : List Fields) (v : Json)
      → Ensures (λ results. map item_of results ≡ map obj items) (results_of py fs items v)
  unfolding results_of
  results_of-items items (arr vs) = items-pair_results _ _ items
  results_of-items items _ = tt

  send_ready-items :
      (settings : Settings) (loads : String → Option Json) (client : Fields → Reply)
      (failures items : List Fields) (rejected : List Fields)
      → map item_of failures ≡ map obj rejected
      → Ensures
          (λ results. map item_of results ≡ map obj (rejected ++ items))
          (send_ready py fs settings loads client failures items)
  unfolding send_ready
  send_ready-items settings loads client failures [] rejected h = rw append-nil h
  send_ready-items settings loads client failures (item ∷ items) rejected h =
      Ensures-skip _
        (post_tagger_batch loads (client (build_tagger_request_payload settings paths))) _
        λ body.
          Ensures-bind (λ results. map item_of results ≡ map obj (item ∷ items)) _
            (results_of py fs (item ∷ items) (get "results" body)) _
            (results_of-items (item ∷ items) (get "results" body))
            λ results e.
              map-append item_of failures results
              ∙ ap₂ ◌++◌ h e
              ∙ sym (map-append obj rejected (item ∷ items))
    where
      paths : List String
      paths = map (request_path py fs) (item ∷ items)

  run_http-Ensures :
      (base_url : Option String) (settings : Settings) (loads : String → Option Json)
      (client : Fields → Reply) (items : List Fields)
      → Ensures
          (λ results.
            map item_of results ≡ map obj (rejected_items items ++ ready_items py fs items))
          (run_http_tagger_batch py fs base_url settings loads client items)
  unfolding run_http_tagger_batch
  run_http-Ensures none settings loads client items = tt
  run_http-Ensures (some url) settings loads client items = elim (Bool-cases (is_empty url)) [
    | inl e ↦ rw e tt
    | inr e ↦ rw e (
        send_ready-items settings loads client (pre_failures py fs items) (ready_items py fs items)
          (rejected_items items) (items-pre_failures items))
  ]

  -- If the HTTP runner returns, the items that its results carry are those of the batch, each as
  -- often as it stands there: first the items that were not sent, then the others in their order.
  pub run_http_tagger_batch-items :
      (base_url : Option String) (settings : Settings) (loads : String → Option Json)
      (client : Fields → Reply) (items : List Fields) {results : List Fields}
      → run_http_tagger_batch py fs base_url settings loads client items ≡ ok results
      → (map item_of results ≡ map obj (rejected_items items ++ ready_items py fs items))
        × Perm (rejected_items items ++ ready_items py fs items) items
  run_http_tagger_batch-items base_url settings loads client items h = (
    Ensures-ok
        (λ results. map item_of results ≡ map obj (rejected_items items ++ ready_items py fs items))
        (run_http_tagger_batch py fs base_url settings loads client items)
        (run_http-Ensures base_url settings loads client items) h,
    perm-rejected-ready items,
  )
