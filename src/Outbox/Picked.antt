-- ===== src/Outbox/Picked.antt =====
-- A row that is due is among the rows that a pass reads, and its message among those that the bus takes.
use data_assistant.Outbox.Delivery.{message_of, accepts, accepted}
use data_assistant.Base.Json.{Json}
use data_assistant.Outbox.Relay.{Publisher, Message}
use data_assistant.Outbox.Rows.{IsRowOf, find_row}
use data_assistant.Outbox.Table.{is_due, due_rows, by_age, Dispatch, insert_by_age}
use mathlib.Core.Option.{some-injective}
use mathlib.Core.Path.{subst}
use data_assistant.Base.{
  refl, sym, false, none, leb, some, ◌==◌, Bool-cases, true, [], ◌⊎◌, inr, inl, ◌≡◌, ℕ, List,
  Option, String, ◌∷◌,
}

-- One of the rows is this one.
abbrev pub HasRow : Dispatch → List Dispatch → Type 0
HasRow row [] = ⊥
HasRow row (first ∷ rows) = (first ≡ row) ⊎ HasRow row rows

-- One of the messages is this one.
abbrev pub HasMessage : Message → List Message → Type 0
HasMessage m [] = ⊥
HasMessage m (first ∷ messages) = (first ≡ m) ⊎ HasMessage m messages

HasRow-insert_by_age :
    (row other : Dispatch) (rows : List Dispatch)
    → (other ≡ row) ⊎ HasRow row rows
    → HasRow row (insert_by_age other rows)
unfolding insert_by_age
HasRow-insert_by_age row other [] h = h
HasRow-insert_by_age row other (first ∷ rows) h =
    elim (Bool-cases (leb other.created_at first.created_at)) [
      | inl e ↦ rw e h
      | inr e ↦ rw e (swapped (HasRow-insert_by_age row other rows) h)
    ]
  where
    swapped :
        ((other ≡ row) ⊎ HasRow row rows → HasRow row (insert_by_age other rows))
        → (other ≡ row) ⊎ ((first ≡ row) ⊎ HasRow row rows)
        → (first ≡ row) ⊎ HasRow row (insert_by_age other rows)
    swapped ih (inl h) = inr (ih (inl h))
    swapped ih (inr (inl h)) = inl h
    swapped ih (inr (inr h)) = inr (ih (inr h))

pub HasRow-by_age :
    (row : Dispatch) (rows : List Dispatch) → HasRow row rows → HasRow row (by_age rows)
unfolding by_age
HasRow-by_age row [] h = h
HasRow-by_age row (first ∷ rows) (inl h) = HasRow-insert_by_age row first (by_age rows) (inl h)
HasRow-by_age row (first ∷ rows) (inr h) =
    HasRow-insert_by_age row first (by_age rows) (inr (HasRow-by_age row rows h))

pub HasRow-due_rows :
    (now max_attempts min_age : ℕ) (rows : List Dispatch) (row : Dispatch)
    → IsRowOf rows row
    → is_due now max_attempts min_age row ≡ true
    → HasRow row (due_rows now max_attempts min_age rows)
unfolding find_row due_rows
HasRow-due_rows now m a [] row h due = absurd cc
HasRow-due_rows now m a (first ∷ rows) row h due = elim (Bool-cases (row.id == first.id)) [
  | inl e ↦ let same : some first ≡ some row = rw e at h in of_first (some-injective first row same)
  | inr e ↦
      let rest = HasRow-due_rows now m a rows row (rw e at h) due in
      elim (Bool-cases (is_due now m a first)) [ inl f ↦ rw f (inr rest) | inr f ↦ rw f rest ]
]
  where
    of_first : first ≡ row → HasRow row (due_rows now m a (first ∷ rows))
    of_first s = let f : is_due now m a first ≡ true = rw (← s) at due in rw f (inl s)

module _ (loads : String → Option Json) (publish : Publisher) (now : ℕ) where
  HasMessage-first :
      (id : ℕ) (o : Option Message) (rest : List Message)
      → accepts loads publish now id o ≡ true
      → (m : Message) × (o ≡ some m)
        × HasMessage m (elim o [
          | none ↦ rest
          | some m ↦ elim (publish id m) [ none ↦ m ∷ rest | some error ↦ rest ]
        ])
  unfolding accepts
  HasMessage-first id none rest h = absurd cc
  HasMessage-first id (some m) rest h = (m, refl, of_answer (publish id m) h)
    where
      of_answer :
          (o : Option String)
          → (elim o [ none ↦ true | some error ↦ false ]) ≡ true
          → HasMessage m (elim o [ none ↦ m ∷ rest | some error ↦ rest ])
      of_answer none h = inl refl
      of_answer (some error) h = absurd cc

  -- A row whose message the bus takes has it among the accepted ones.
  pub HasMessage-accepted :
      (row : Dispatch) (rows : List Dispatch)
      → accepts loads publish now row.id (message_of loads row) ≡ true
      → HasRow row rows
      → (m : Message) × (message_of loads row ≡ some m)
        × HasMessage m (accepted loads publish now rows)
  unfolding accepted
  HasMessage-accepted row [] h here = absurd here
  HasMessage-accepted row (first ∷ rows) h (inl e) =
      subst
        (λ r.
          (m : Message) × (message_of loads r ≡ some m)
          × HasMessage m (accepted loads publish now (first ∷ rows)))
        e
        (HasMessage-first first.id (message_of loads first) (accepted loads publish now rows)
          (subst (λ r. accepts loads publish now r.id (message_of loads r) ≡ true) (sym e) h))
  HasMessage-accepted row (first ∷ rows) h (inr there) =
      let (m, g, k) = HasMessage-accepted row rows h there in (m, g, longer m k)
    where
      of_answer :
          (m n : Message) (o : Option String)
          → HasMessage m (accepted loads publish now rows)
          → HasMessage m (elim o [
            | none ↦ n ∷ accepted loads publish now rows
            | some error ↦ accepted loads publish now rows
          ])
      of_answer m n none k = inr k
      of_answer m n (some error) k = k

      of_first :
          (m : Message) (o : Option Message)
          → HasMessage m (accepted loads publish now rows)
          → HasMessage m (elim o [
            | none ↦ accepted loads publish now rows
            | some n ↦ elim (publish first.id n) [
              | none ↦ n ∷ accepted loads publish now rows
              | some error ↦ accepted loads publish now rows
            ]
          ])
      of_first m none k = k
      of_first m (some n) k = of_answer m n (publish first.id n) k

      longer :
          (m : Message)
          → HasMessage m (accepted loads publish now rows)
          → HasMessage m (accepted loads publish now (first ∷ rows))
      longer m k = of_first m (message_of loads first) k
