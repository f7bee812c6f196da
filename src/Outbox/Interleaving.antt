-- ===== src/Outbox/Interleaving.antt =====
-- The statements and the publishes of the pipeline and of the relay as single steps, in any order: several
-- events and a pass of the relay may run at once.
pub mod Runs
use data_assistant.Outbox.Delivery.{message_of}
use data_assistant.Outbox.Rows.{IsRowOf, find_row-update_rows, find_row}
use data_assistant.Outbox.Relay.{Message}
use data_assistant.Base.Json.{obj, Fields, Json}
use mathlib.Core.Path.{subst}
use data_assistant.Base.{
  ltb→lt, ltb, sym, suc, ◌∙◌, ap, ◌≢◌, ◌<◌, Bool-cases, refl, ◌≤◌, arith, ◌||◌, true, ◌⊎◌, ◌==◌,
  ◌≡◌, ◌++◌, false, Bool, Option, List, String, ℕ, some, none, inl, inr, ◌∷◌, [],
}
use data_assistant.Outbox.Table.{
  set_failed, set_published, mark_nats_dispatch_failed, mark_nats_dispatch_published,
  insert_nats_dispatch, update_rows, Dispatch, Table, pending, published, failed,
}

-- `acked` has the ids of the rows whose message a publisher was told that the bus has.
pub record Relaying : Type 0 where
  pub table : Table
  pub bus : List Message
  pub acked : List ℕ

unfoldable pub is_acked : ℕ → List ℕ → Bool
is_acked id [] = false
is_acked id (i ∷ ids) = (id == i) || is_acked id ids

module _ (loads : String → Option Json) where
  pub data Step : Relaying → Relaying → Type 0 where
    stored :
        (now image_id : ℕ) (subject : String) (payload : Json) (s : Relaying)
        → Step s (record s {
          table = (insert_nats_dispatch now image_id subject payload pending none s.table).1;
        })
    -- The bus takes a row's message, and the publisher hears of it.
    sent :
        (id : ℕ) (row : Dispatch) (message : Message) (s : Relaying)
        → find_row id s.table.rows ≡ some row
        → message_of loads row ≡ some message
        → Step s (record s { bus = s.bus ++ message ∷ []; acked = id ∷ s.acked })
    -- The bus takes a message that has no row, or the publisher does not hear of it.
    unheard : (message : Message) (s : Relaying) → Step s (record s { bus = s.bus ++ message ∷ [] })
    marked :
        (now id : ℕ) (s : Relaying)
        → is_acked id s.acked ≡ true
        → Step s (record s { table = mark_nats_dispatch_published now id s.table })
    unmarked :
        (now id : ℕ) (error : String) (s : Relaying)
        → Step s (record s { table = mark_nats_dispatch_failed now id error s.table })

  pub data Steps (s : Relaying) : Relaying → Type 0 where
    here : Steps s s
    next : {t u : Relaying} → Steps s t → Step t u → Steps s u

  pub Steps-trans : {s t u : Relaying} → Steps s t → Steps t u → Steps s u
  Steps-trans h here = h
  Steps-trans h (next steps step) = next (Steps-trans h steps) step

  abbrev pub Has : Message → List Message → Type 0
  Has m [] = ⊥
  Has m (x ∷ xs) = (x ≡ m) ⊎ Has m xs

  Has-append : (m : Message) (xs ys : List Message) → Has m xs → Has m (xs ++ ys)
  Has-append m [] ys h = absurd h
  Has-append m (x ∷ xs) ys (inl e) = inl e
  Has-append m (x ∷ xs) ys (inr h) = inr (Has-append m xs ys h)

  Has-last : (m : Message) (xs : List Message) → Has m (xs ++ m ∷ [])
  Has-last m [] = inl refl
  Has-last m (x ∷ xs) = inr (Has-last m xs)

  -- The bus has the row's message.
  abbrev pub IsOnBus : List Message → Dispatch → Type 0
  IsOnBus bus row = (m : Message) × (message_of loads row ≡ some m) × Has m bus

  later : (bus more : List Message) (row : Dispatch) → IsOnBus bus row → IsOnBus (bus ++ more) row
  later bus more row (m, e, h) = (m, e, Has-append m bus more h)

  -- A row that is marked as published has its message on the bus; ids are below the sequence.
  pub record IsDelivered (s : Relaying) : Type 0 where
    pub rows :
        (id : ℕ) (row : Dispatch)
        → find_row id s.table.rows ≡ some row
        → row.status ≡ published
        → IsOnBus s.bus row
    pub acks :
        (id : ℕ) (row : Dispatch)
        → find_row id s.table.rows ≡ some row
        → is_acked id s.acked ≡ true
        → IsOnBus s.bus row
    pub fresh : (id : ℕ) → s.table.next_id ≤ id → find_row id s.table.rows ≡ none
    pub below : (id : ℕ) → is_acked id s.acked ≡ true → id < s.table.next_id

  -- A row after one was changed: the change of the row with the id, or the row as it was.
  changed :
      (j id : ℕ) (f : Dispatch → Dispatch) (rows : List Dispatch) (row : Dispatch)
      → ((r : Dispatch) → (f r).id ≡ r.id)
      → find_row j (update_rows id f rows) ≡ some row
      → (old : Dispatch) × (find_row j rows ≡ some old) × (((j ≡ id) × (row ≡ f old)) ⊎ (row ≡ old))
  changed j id f rows row keep e = of_test (j == id) refl (find_row j rows) refl
    where
      of_test :
          (b : Bool)
          → (j == id) ≡ b
          → (o : Option Dispatch) → find_row j rows ≡ o
          → (old : Dispatch) × (find_row j rows ≡ some old)
            × (((j ≡ id) × (row ≡ f old)) ⊎ (row ≡ old))
      of_test true t none g =
          absurd (ground (arith, e, t, g, find_row-update_rows j id f rows keep))
      of_test true t (some old) g = (
        old,
        g,
        inl (ground (arith, t), ground (arith, e, t, g, find_row-update_rows j id f rows keep)),
      )
      of_test false t none g =
          absurd (ground (arith, e, t, g, find_row-update_rows j id f rows keep))
      of_test false t (some old) g =
          (old, g, inr (ground (arith, e, t, g, find_row-update_rows j id f rows keep)))

  added :
      (j : ℕ) (rows : List Dispatch) (new row : Dispatch)
      → find_row j (rows ++ new ∷ []) ≡ some row
      → (find_row j rows ≡ some row) ⊎ ((j ≡ new.id) × (row ≡ new))
  unfolding find_row
  added j [] new row e = elim (Bool-cases (j == new.id)) [
    | inl t ↦ inr (ground (arith, t), ground (arith, t, e))
    | inr t ↦ absurd (ground (arith, t, e))
  ]
  added j (first ∷ rows) new row e = elim (Bool-cases (j == first.id)) [
    | inl t ↦ inl (ground (arith, t, e))
    | inr t ↦ rw t (added j rows new row (ground (arith, t, e)))
  ]

  none_added :
      (j : ℕ) (rows : List Dispatch) (new : Dispatch)
      → find_row j rows ≡ none
      → (j == new.id) ≡ false
      → find_row j (rows ++ new ∷ []) ≡ none
  unfolding find_row
  none_added j [] new h ne = rw ne refl
  none_added j (first ∷ rows) new h ne = ground (arith, h, none_added j rows new)

  -- A change that keeps the message of a row, and marks it as published only if it is acknowledged.
  changed-IsDelivered :
      (id : ℕ) (f : Dispatch → Dispatch) (s : Relaying)
      → ((r : Dispatch) → (f r).id ≡ r.id)
      → ((r : Dispatch) → message_of loads (f r) ≡ message_of loads r)
      → ((r : Dispatch) → (f r).status ≡ published → is_acked id s.acked ≡ true)
      → IsDelivered s
      → IsDelivered (record s { table = record s.table { rows = update_rows id f s.table.rows } })
  changed-IsDelivered id f s keep same marks h = record {
    rows = λ j row e status. of_row j row status (changed j id f s.table.rows row keep e);
    acks = λ j row e ack. of_ack j row ack (changed j id f s.table.rows row keep e);
    fresh = λ j le. ground (arith, h.fresh j le, find_row-update_rows j id f s.table.rows keep);
    below = h.below;
  }
    where
      moved : (old row : Dispatch) → row ≡ f old → IsOnBus s.bus old → IsOnBus s.bus row
      moved old row e (m, g, has) = (m, ap (message_of loads) e ∙ same old ∙ g, has)

      of_row :
          (j : ℕ) (row : Dispatch)
          → row.status ≡ published
          → (old : Dispatch) × (find_row j s.table.rows ≡ some old)
            × (((j ≡ id) × (row ≡ f old)) ⊎ (row ≡ old))
          → IsOnBus s.bus row
      of_row j row status (old, e, inl (i, g)) = moved old row g (
          h.acks j old e (
            subst (λ k. is_acked k s.acked ≡ true) (sym i)
              (marks old (ap (λ (r : Dispatch). r.status) (sym g) ∙ status))))
      of_row j row status (old, e, inr g) =
          subst (IsOnBus s.bus) (sym g)
            (h.rows j old e (ap (λ (r : Dispatch). r.status) (sym g) ∙ status))

      of_ack :
          (j : ℕ) (row : Dispatch)
          → is_acked j s.acked ≡ true
          → (old : Dispatch) × (find_row j s.table.rows ≡ some old)
            × (((j ≡ id) × (row ≡ f old)) ⊎ (row ≡ old))
          → IsOnBus s.bus row
      of_ack j row ack (old, e, inl (i, g)) = moved old row g (h.acks j old e ack)
      of_ack j row ack (old, e, inr g) = subst (IsOnBus s.bus) (sym g) (h.acks j old e ack)

  stored-IsDelivered :
      (now image_id : ℕ) (subject : String) (payload : Json) (s : Relaying)
      → IsDelivered s
      → IsDelivered (record s {
        table = (insert_nats_dispatch now image_id subject payload pending none s.table).1;
      })
  unfolding insert_nats_dispatch
  stored-IsDelivered now image_id subject payload s h = record {
    rows = λ j row e status. elim (added j s.table.rows _ row e) [
      | inl before ↦ h.rows j row before status
      | inr (i, g) ↦ absurd (not_pending (sym (ap (λ (r : Dispatch). r.status) g) ∙ status))
    ];
    acks = λ j row e ack. elim (added j s.table.rows _ row e) [
      | inl before ↦ h.acks j row before ack
      | inr (i, g) ↦ absurd (omega (arith, i, h.below j ack))
    ];
    fresh = λ j le. none_added j s.table.rows _ (h.fresh j (omega arith)) (ground (arith, le));
    below = λ j ack. omega (arith, h.below j ack);
  }
    where
      not_pending : pending ≢ published
      not_pending e = cc

  -- An acknowledged id is one of a row.
  id-below :
      (id : ℕ) (row : Dispatch) (s : Relaying)
      → find_row id s.table.rows ≡ some row
      → IsDelivered s
      → id < s.table.next_id
  id-below id row s e h = elim (Bool-cases (ltb id s.table.next_id)) [
    | inl t ↦ omega (arith, ltb→lt id s.table.next_id t)
    | inr t ↦ absurd (ground (arith, e, h.fresh id (ground (arith, t))))
  ]

  Step-IsDelivered : {s t : Relaying} → Step s t → IsDelivered s → IsDelivered t
  Step-IsDelivered (stored now image_id subject payload s) h =
      stored-IsDelivered now image_id subject payload s h
  Step-IsDelivered (sent id row message s e m) h = record {
    rows = λ j r g status. later s.bus (message ∷ []) r (h.rows j r g status);
    acks = λ j r g ack. of_test j r g ack (j == id) refl;
    fresh = h.fresh;
    below = λ j ack. below_test j ack (j == id) refl;
  }
    where
      of_test :
          (j : ℕ) (r : Dispatch)
          → find_row j s.table.rows ≡ some r
          → is_acked j (id ∷ s.acked) ≡ true
          → (b : Bool) → (j == id) ≡ b
          → IsOnBus (s.bus ++ message ∷ []) r
      of_test j r g ack true t =
          let i : j ≡ id = ground (arith, t) in
          let same : r ≡ row = ground (arith, g, e, ap (λ k. find_row k s.table.rows) i) in
          (message, ap (message_of loads) same ∙ m, Has-last message s.bus)
      of_test j r g ack false t =
          later s.bus (message ∷ []) r (h.acks j r g (unfold is_acked in ground (arith, ack, t)))

      below_test :
          (j : ℕ)
          → is_acked j (id ∷ s.acked) ≡ true
          → (b : Bool) → (j == id) ≡ b
          → j < s.table.next_id
      below_test j ack true t = ground (arith, t, id-below id row s e h)
      below_test j ack false t = h.below j (unfold is_acked in ground (arith, ack, t))
  Step-IsDelivered (unheard message s) h = record {
    rows = λ j r g status. later s.bus (message ∷ []) r (h.rows j r g status);
    acks = λ j r g ack. later s.bus (message ∷ []) r (h.acks j r g ack);
    fresh = h.fresh;
    below = h.below;
  }
  Step-IsDelivered (marked now id s ack) h =
      unfold mark_nats_dispatch_published set_published in
      changed-IsDelivered id (set_published now) s (λ r. refl) (λ r. refl) (λ r e. ack) h
  Step-IsDelivered (unmarked now id error s) h =
      unfold mark_nats_dispatch_failed set_failed in
      changed-IsDelivered id (set_failed now error) s (λ r. refl) (λ r. refl) (λ r e. absurd cc) h

  -- Whatever steps the pipeline and the relay take, in whatever order: if every row that is marked as published
  -- had its message on the bus, acknowledged ids were of rows, and ids are below the sequence, then this
  -- is still so.
  pub Steps-IsDelivered : {s t : Relaying} → IsDelivered s → Steps s t → IsDelivered t
  Steps-IsDelivered h here = h
  Steps-IsDelivered h (next steps step) = Step-IsDelivered step (Steps-IsDelivered h steps)
