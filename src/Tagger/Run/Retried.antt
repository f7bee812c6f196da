-- ===== src/Tagger/Run/Retried.antt =====
-- Which items of a batch the loop of `run_tagger_once` queues again, and what they look like.
use mathlib.Core.List.{append-nil, append_assoc}
use data_assistant.Tagger.Run.Accounting.{OnSome}
use data_assistant.Base.Json.{put, dict, int, get?, pos, ltb_ℤ, get_default, get, ℤ, Fields}
use data_assistant.Tagger.Run.{
  failed_result, settle_with, plus_one, attempt_of, image_path, is_success, result_for, settle_all,
  settle, succeed, Tally, fail, ByPath,
}
use data_assistant.Base.Text.{Python}
use data_assistant.Base.{
  ap, refl, Option, inr, ◌∙◌, Bool-cases, inl, sym, none, false, Option-cases, true, ◌++◌, some,
  ◌≡◌, [], Bool, String, List, ℕ, ◌∷◌,
}

-- The runner has a result for the item that says success.
unfoldable pub has_succeeded : Python → ByPath → Fields → Bool
unfolding is_success
has_succeeded py by_path item = elim (result_for (image_path py item) by_path) [
  | none ↦ false
  | some result ↦ is_success (get "status" result)
]

-- The items of a batch, and those of them that are queued again.
pub data Retries (py : Python) (max_attempts : ℕ) (by_path : ByPath)
    : List Fields → List Fields → Type 0 where
  no_items : Retries py max_attempts by_path [] []
  succeeded :
      {items again : List Fields} (item : Fields)
      → has_succeeded py by_path item ≡ true
      → Retries py max_attempts by_path items again
      → Retries py max_attempts by_path (item ∷ items) again
  -- The item failed, and this was its last attempt.
  gave_up :
      {items again : List Fields} (item : Fields) (a : ℤ)
      → has_succeeded py by_path item ≡ false
      → attempt_of py item ≡ some a
      → ltb_ℤ a (pos max_attempts) ≡ false
      → Retries py max_attempts by_path items again
      → Retries py max_attempts by_path (item ∷ items) again
  -- The item failed, and goes back with this attempt counted and all else kept.
  retried :
      {items again : List Fields} (item : Fields) (a : ℤ)
      → has_succeeded py by_path item ≡ false
      → attempt_of py item ≡ some a
      → ltb_ℤ a (pos max_attempts) ≡ true
      → Retries py max_attempts by_path items again
      → Retries py max_attempts by_path (item ∷ items) (put "attempt_count" (int a) item ∷ again)

has_succeeded_lem :
    (py : Python) (by_path : ByPath) (item : Fields) (o : Option Fields)
    → result_for (image_path py item) by_path ≡ o
    → has_succeeded py by_path item
      ≡ elim o [ none ↦ false | some result ↦ is_success (get "status" result) ]
unfolding has_succeeded
has_succeeded_lem py by_path item o e =
    ap (λ r. elim r [ none ↦ false | some result ↦ is_success (get "status" result) ]) e

module _ (py : Python) (max_attempts : ℕ) (now : String) (by_path : ByPath) where
  -- One item settled puts `again` behind what is queued again.
  record Requeued (item : Fields) (t t' : Tally) : Type 0 where
    again : List Fields
    requeue : t'.requeue ≡ t.requeue ++ again
    retries :
        (items more : List Fields)
        → Retries py max_attempts by_path items more
        → Retries py max_attempts by_path (item ∷ items) (again ++ more)

  fail-Requeued :
      (item : Fields) (error : String) (a : ℤ) (t : Tally)
      → has_succeeded py by_path item ≡ false
      → attempt_of py item ≡ some a
      → Requeued item t (fail py max_attempts now item error a t)
  unfolding fail
  fail-Requeued item error a t f e = elim (Bool-cases (ltb_ℤ a (pos max_attempts))) [
    | inl less ↦ rw less (record {
      again = put "attempt_count" (int a) item ∷ [];
      requeue = refl;
      retries = λ items more r. retried item a f e less r;
    })
    | inr last ↦ rw last (record {
      again = [];
      requeue = sym (append-nil t.requeue);
      retries = λ items more r. gave_up item a f e last r;
    })
  ]

  succeed-Requeued :
      (item result : Fields) (t : Tally)
      → has_succeeded py by_path item ≡ true
      → OnSome (Requeued item t) (succeed py max_attempts now item result t)
  unfolding succeed
  succeed-Requeued item result t s =
      elim (Option-cases (plus_one py (get_default "attempt_count" (int (pos 0)) item))) [
        | inl e ↦ rw (e, OnSome) tt
        | inr (a, e) ↦
            rw (e, OnSome)
              (record {
                again = [];
                requeue = sym (append-nil t.requeue);
                retries = λ items more r. succeeded item s r;
              })
      ]

  settle_with-Requeued :
      (item result : Fields) (t : Tally)
      → has_succeeded py by_path item ≡ is_success (get "status" result)
      → OnSome (Requeued item t) (settle_with py max_attempts now item result t)
  settle_with-Requeued item result t s = elim (Bool-cases (is_success (get "status" result))) [
    | inl e ↦ unfold settle_with in rw e (succeed-Requeued item result t (s ∙ e))
    | inr e ↦ elim (Option-cases (attempt_of py item)) [
      | inl f ↦ unfold settle_with in rw (e, f, OnSome) tt
      | inr (a, f) ↦ unfold settle_with in rw (e, f) (fail-Requeued item _ a t (s ∙ e) f)
    ]
  ]

  settle-Requeued :
      (item : Fields) (t : Tally)
      → OnSome (Requeued item t) (settle py max_attempts now by_path item t)
  unfolding settle
  settle-Requeued item t = elim (Option-cases (result_for (image_path py item) by_path)) [
    | inl e ↦
        rw (e, OnSome)
          (settle_with-Requeued item (failed_result "missing result from tagger runner" item) t (
            has_succeeded_lem py by_path item none e
            ∙ (unfold failed_result is_success get get? dict in refl)))
    | inr (r, e) ↦
        rw (e, OnSome)
          (settle_with-Requeued item r t (has_succeeded_lem py by_path item (some r) e))
  ]

  -- A loop that does not raise queues again what failed and has attempts left, in order.
  pub settle_all-Retries :
      (items : List Fields) (t : Tally)
      → (settle_all py max_attempts now by_path items t).1 ≡ true
      → (again : List Fields) × ((settle_all py max_attempts now by_path items t).0.requeue
          ≡ t.requeue ++ again)
        × Retries py max_attempts by_path items again
  unfolding settle_all
  settle_all-Retries [] t h = ([], sym (append-nil t.requeue), no_items)
  settle_all-Retries (item ∷ items) t h =
      of_step (settle py max_attempts now by_path item t) refl (settle_all-Retries items)
    where
      of_step :
          (o : Option Tally)
          → settle py max_attempts now by_path item t ≡ o
          → ((t' : Tally)
              → (settle_all py max_attempts now by_path items t').1 ≡ true
              → (again : List Fields) × ((settle_all py max_attempts now by_path items t').0.requeue
                  ≡ t'.requeue ++ again)
                × Retries py max_attempts by_path items again)
          → (again : List Fields) × ((settle_all py max_attempts now by_path
                (item ∷ items)
                t).0.requeue
              ≡ t.requeue ++ again)
            × Retries py max_attempts by_path (item ∷ items) again
      of_step none e ih = cc (rw (e, settle_all) at h)
      of_step (some t') e ih =
          let step : Requeued item t t' = rw e at (settle-Requeued item t) in
          let (more, q, r) = ih t' (rw (e, settle_all) at h) in
          (
            step.again ++ more,
            rw (e, settle_all, q, step.requeue) (append_assoc t.requeue step.again more),
            step.retries items more r,
          )
