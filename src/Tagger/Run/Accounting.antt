-- ===== src/Tagger/Run/Accounting.antt =====
-- What one pass over a batch adds to the tally: the counters, the audit lines, the items to queue
-- again, and the attempts that they have left.
use data_assistant.Base.Json.{
  get_default-put, get_default, get, suc_ℤ, pos, pos_part, ltb_ℤ, int, neg_part, put, ℤ, Fields,
}
use data_assistant.Base.{
  refl, length-append, inr, true, inl, Bool-cases, length, Option-cases, ◌-◌, arith, [], ◌≡◌, ◌≤◌,
  ◌+◌, ◌∷◌, suc, ◌++◌, none, List, String, some, ℕ, Option,
}
use data_assistant.Base.Text.{py_int, Python}
use data_assistant.Tagger.Run.{
  failed_result, result_for, settle, settle_all, ByPath, next_attempt, plus_one, is_success,
  settle_with, fail, succeed, attempt_of, Tally, image_path,
}

module _ {A : Type 0} where
  abbrev pub OnSome : (A → Type 0) → Option A → Type 0
  OnSome P none = Unit
  OnSome P (some a) = P a

module _ (py : Python) (max_attempts : ℕ) where
  -- The attempts that an item has left at most, and one more.
  unfoldable pub weight : Fields → ℕ
  weight item = elim (attempt_of py item) [
    | none ↦ 1
    | some a ↦ suc (max_attempts + neg_part a - pos_part a)
  ]

  unfoldable pub weights : List Fields → ℕ
  weights [] = 0
  weights (item ∷ items) = weight item + weights items

  pub weights-append : (xs ys : List Fields) → weights (xs ++ ys) ≡ weights xs + weights ys
  unfolding weights
  weights-append [] ys = omega arith
  weights-append (x ∷ xs) ys = omega (arith, weights-append xs ys)

  weight-pos : (item : Fields) → 1 ≤ weight item
  unfolding weight
  weight-pos item = ground arith

  -- `t'` is `t` with the items settled.
  pub record Settled (items : List Fields) (t t' : Tally) : Type 0 where
    pub counters : t'.success + t'.failed ≡ t.success + t.failed + length items
    pub requeued : length t'.requeue + t.failed ≤ length t.requeue + t'.failed
    pub lines : length t'.lines ≡ length t.lines + length items
    pub weights_fall : weights t'.requeue + length items ≤ weights t.requeue + weights items

  attempt_of_lem :
      (item : Fields)
      → attempt_of py item
        ≡ next_attempt (py_int py (get_default "attempt_count" (int (pos 0)) item))
  unfolding attempt_of
  attempt_of_lem item = refl

  attempt_of-put :
      (item : Fields) (n : ℤ) → attempt_of py (put "attempt_count" (int n) item) ≡ some (suc_ℤ n)
  unfolding next_attempt py_int
  attempt_of-put item n = rw (
    attempt_of_lem (put "attempt_count" (int n) item),
    get_default-put "attempt_count" "attempt_count" (int (pos 0)) (int n) item,
  )

  weight-put :
      (item : Fields) (a : ℤ)
      → attempt_of py item ≡ some a
      → ltb_ℤ a (pos max_attempts) ≡ true
      → weight (put "attempt_count" (int a) item) + 1 ≤ weight item
  unfolding weight
  weight-put item a e less = rw (attempt_of-put item a, e, weight) (ground arith)

module _ (py : Python) (max_attempts : ℕ) (now : String) where
  fail-Settled :
      (item : Fields) (error : String) (a : ℤ) (t : Tally)
      → attempt_of py item ≡ some a
      → Settled py max_attempts (item ∷ []) t (fail py max_attempts now item error a t)
  unfolding fail weights
  fail-Settled item error a t e = elim (Bool-cases (ltb_ℤ a (pos max_attempts))) [
    | inl less ↦ rw less (record {
      counters = omega arith;
      requeued = omega (arith, length-append {0} t.requeue (put "attempt_count" (int a) item ∷ []));
      lines = length-append t.lines _;
      weights_fall = omega (
        arith,
        weights-append py max_attempts t.requeue (put "attempt_count" (int a) item ∷ []),
        weight-put py max_attempts item a e less,
      );
    })
    | inr last ↦ rw last (record {
      counters = omega arith;
      requeued = omega arith;
      lines = length-append t.lines _;
      weights_fall = omega (arith, weight-pos py max_attempts item);
    })
  ]

  succeed-Settled :
      (item result : Fields) (t : Tally)
      → OnSome (Settled py max_attempts (item ∷ []) t) (succeed py max_attempts now item result t)
  unfolding succeed weights
  succeed-Settled item result t =
      elim (Option-cases (plus_one py (get_default "attempt_count" (int (pos 0)) item))) [
        | inl e ↦ rw (e, OnSome) tt
        | inr (a, e) ↦
            rw (e, OnSome)
              (record {
                counters = omega arith;
                requeued = omega arith;
                lines = length-append t.lines _;
                weights_fall = omega (arith, weight-pos py max_attempts item);
              })
      ]

  settle_with-Settled :
      (item result : Fields) (t : Tally)
      → OnSome
          (Settled py max_attempts (item ∷ []) t)
          (settle_with py max_attempts now item result t)
  settle_with-Settled item result t = elim (Bool-cases (is_success (get "status" result))) [
    | inl e ↦ unfold settle_with in rw e (succeed-Settled item result t)
    | inr e ↦ elim (Option-cases (attempt_of py item)) [
      | inl f ↦ unfold settle_with in rw (e, f, OnSome) tt
      | inr (a, f) ↦ unfold settle_with in rw (e, f) (fail-Settled item _ a t f)
    ]
  ]

  settle-Settled :
      (by_path : ByPath) (item : Fields) (t : Tally)
      → OnSome (Settled py max_attempts (item ∷ []) t) (settle py max_attempts now by_path item t)
  unfolding settle
  settle-Settled by_path item t = elim (Option-cases (result_for (image_path py item) by_path)) [
    | inl e ↦
        rw (e, OnSome)
          (settle_with-Settled item (failed_result "missing result from tagger runner" item) t)
    | inr (r, e) ↦ rw (e, OnSome) (settle_with-Settled item r t)
  ]

  Settled-cons :
      {item : Fields} {items : List Fields} {t t' t'' : Tally}
      → Settled py max_attempts (item ∷ []) t t'
      → Settled py max_attempts items t' t''
      → Settled py max_attempts (item ∷ items) t t''
  unfolding weights
  Settled-cons a b = record {
    counters = omega (arith, a.counters, b.counters);
    requeued = omega (arith, a.requeued, b.requeued);
    lines = omega (arith, a.lines, b.lines);
    weights_fall = omega (arith, a.weights_fall, b.weights_fall);
  }

  -- A loop that does not raise settles every item.
  pub settle_all-Settled :
      (by_path : ByPath) (items : List Fields) (t : Tally)
      → (settle_all py max_attempts now by_path items t).1 ≡ true
      → Settled py max_attempts items t (settle_all py max_attempts now by_path items t).0
  unfolding settle_all
  settle_all-Settled by_path [] t h =
      unfold weights in
      record {
        counters = omega arith;
        requeued = omega arith;
        lines = omega arith;
        weights_fall = omega arith;
      }
  settle_all-Settled by_path (item ∷ items) t h =
      of_step (settle py max_attempts now by_path item t) refl
        (λ t'. settle_all-Settled by_path items t')
    where
      of_step :
          (o : Option Tally)
          → settle py max_attempts now by_path item t ≡ o
          → ((t' : Tally)
              → (settle_all py max_attempts now by_path items t').1 ≡ true
              → Settled py max_attempts items t'
                  (settle_all py max_attempts now by_path items t').0)
          → Settled py max_attempts
              (item ∷ items)
              t
              (settle_all py max_attempts now by_path (item ∷ items) t).0
      of_step none e ih = cc (rw (e, settle_all) at h)
      of_step (some t') e ih =
          let step : Settled py max_attempts (item ∷ []) t t' =
            rw e at (settle-Settled by_path item t) in
          rw (e, settle_all) (Settled-cons step (ih t' (rw (e, settle_all) at h)))
