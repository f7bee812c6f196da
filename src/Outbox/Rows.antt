-- ===== src/Outbox/Rows.antt =====
-- The rows of the table, looked up by their ids.
use data_assistant.Base.{
  refl, ap, ==_iff, arith, inr, inl, leb, ◌==◌, zero, suc, if◌then◌else◌, [], true, Bool-cases,
  none, some, Option, take, ◌∷◌, ◌≡◌, List, ℕ,
}
use data_assistant.Outbox.Table.{Dispatch, update_rows, due_rows, by_age, insert_by_age, is_due}

unfoldable pub find_row : ℕ → List Dispatch → Option Dispatch
find_row id [] = none
find_row id (row ∷ rows) = if id == row.id then some row else find_row id rows

-- No two rows have one id.
abbrev pub NodupIds : List Dispatch → Type 0
NodupIds [] = Unit
NodupIds (row ∷ rows) = (find_row row.id rows ≡ none) × NodupIds rows

abbrev pub All {ℓ} : {A : Type 0} → (A → Type ℓ) → List A → Type ℓ
All P [] = Unit
All P (x ∷ xs) = P x × All P xs

pub All-map :
    {A : Type 0} {P Q : A → Type 0} (xs : List A) → ((x : A) → P x → Q x) → All P xs → All Q xs
All-map [] f h = tt
All-map (x ∷ xs) f h = (f x h.0, All-map xs f h.1)

pub All-take : {A : Type 0} (P : A → Type 0) (n : ℕ) (xs : List A) → All P xs → All P (take n xs)
All-take P zero xs h = tt
All-take P (suc n) [] h = tt
All-take P (suc n) (x ∷ xs) h = (h.0, All-take P n xs h.1)

All-insert_by_age :
    (P : Dispatch → Type 0) (row : Dispatch) (rows : List Dispatch)
    → P row
    → All P rows
    → All P (insert_by_age row rows)
unfolding insert_by_age
All-insert_by_age P row [] p h = (p, tt)
All-insert_by_age P row (other ∷ rows) p h =
    elim (Bool-cases (leb row.created_at other.created_at)) [
      | inl e ↦ rw e (p, (h.0, h.1))
      | inr e ↦ rw e (h.0, All-insert_by_age P row rows p h.1)
    ]

pub All-by_age : (P : Dispatch → Type 0) (rows : List Dispatch) → All P rows → All P (by_age rows)
unfolding by_age
All-by_age P [] h = tt
All-by_age P (row ∷ rows) h = All-insert_by_age P row (by_age rows) h.0 (All-by_age P rows h.1)

abbrev pub map_option : {A B : Type 0} → (A → B) → Option A → Option B
map_option f none = none
map_option f (some a) = some (f a)

-- A change of the row with one id, which keeps its id.
pub find_row-update_rows :
    (j id : ℕ) (f : Dispatch → Dispatch) (rows : List Dispatch)
    → ((row : Dispatch) → (f row).id ≡ row.id)
    → find_row j (update_rows id f rows)
      ≡ (if j == id then map_option f (find_row j rows) else find_row j rows)
unfolding find_row update_rows
find_row-update_rows j id f [] keep = ground arith
find_row-update_rows j id f (row ∷ rows) keep =
    ground (arith, keep row, find_row-update_rows j id f rows keep)

-- `row` is the row of the table that has its id.
abbrev pub IsRowOf : List Dispatch → Dispatch → Type 0
IsRowOf rows row = find_row row.id rows ≡ some row

IsRowOf-cons :
    (first : Dispatch) (rows : List Dispatch) (row : Dispatch)
    → find_row first.id rows ≡ none
    → IsRowOf rows row
    → IsRowOf (first ∷ rows) row
unfolding find_row
IsRowOf-cons first rows row fresh h = elim (Bool-cases (row.id == first.id)) [
  | inl e ↦
      let same : row.id ≡ first.id = (==_iff row.id first.id).0 e in
      cc (h, fresh, ap (λ i. find_row i rows) same)
  | inr e ↦ rw e h
]

pub due_rows-IsRowOf :
    (now max_attempts min_age : ℕ) (rows : List Dispatch)
    → NodupIds rows
    → All
        (λ row. IsRowOf rows row × (is_due now max_attempts min_age row ≡ true))
        (due_rows now max_attempts min_age rows)
unfolding due_rows find_row
due_rows-IsRowOf now m a [] u = tt
due_rows-IsRowOf now m a (row ∷ rows) u =
    let rest : All (λ r. IsRowOf (row ∷ rows) r × (is_due now m a r ≡ true))
        (due_rows now m a rows) =
      All-map (due_rows now m a rows) (λ r h. (IsRowOf-cons row rows r u.0 h.0, h.1))
        (due_rows-IsRowOf now m a rows u.1) in
    elim (Bool-cases (is_due now m a row)) [
      | inl e ↦ rw e ((rw ((==_iff row.id row.id).1 refl) refl, e), rest)
      | inr e ↦ rw e rest
    ]
