-- ===== src/Export/Selected.antt =====
-- The rows that the query of an export selects.
use mathlib.Core.Path.{subst}
use data_assistant.Base.Json.{ltb_ℤ, ℤ}
use data_assistant.Base.{
  String, str_eq, if◌then◌else◌, sym, length-append, ◌∙◌, true, false, arith, refl, ◌&&◌, not, ◌≤◌,
  ◌≡◌, ◌++◌, length, ◌<◌, get_elem?, Bool, Option, List, ℕ, some, none, ◌∷◌, [], zero, suc,
}
use data_assistant.Export.{build_query, add_limit, Query, add_clause, Args}

-- What the query reads of a message's row.
pub record Row : Type 0 where
  pub user_id : ℤ
  pub group_id : Option ℤ
  pub event_time : ℤ

abbrev pub eq_ℤ : ℤ → ℤ → Bool
eq_ℤ a b = not (ltb_ℤ a b) && not (ltb_ℤ b a)

abbrev pub leb_ℤ : ℤ → ℤ → Bool
leb_ℤ a b = not (ltb_ℤ b a)

-- A comparison with NULL selects no row.
abbrev pub is_group : Option ℤ → ℤ → Bool
is_group none v = false
is_group (some n) v = eq_ℤ n v

-- Whether a row meets a clause of SQL, given by the text before its placeholder. A text that is none of
-- these comparisons selects no row.
unfoldable pub meets : String → ℤ → Row → Bool
meets text v row =
    if str_eq text "user_id = "
    then eq_ℤ row.user_id v
    else if str_eq text "group_id = "
    then is_group row.group_id v
    else if str_eq text "event_time >= "
    then not (ltb_ℤ row.event_time v)
    else if str_eq text "event_time <= "
    then not (ltb_ℤ v row.event_time)
    else if str_eq text "event_time > "
    then ltb_ℤ v row.event_time
    else if str_eq text "event_time < "
    then ltb_ℤ row.event_time v
    else false

-- The value of a placeholder; they are counted from 1.
abbrev pub value_of : ℕ → List ℤ → Option ℤ
value_of zero values = none
value_of (suc n) values = get_elem? values n

abbrev pub meets_value : String → Option ℤ → Row → Bool
meets_value text none row = false
meets_value text (some v) row = meets text v row

-- Whether the database selects a row, given the values.
abbrev pub selects : List ℤ → List (String × ℕ) → Row → Bool
selects values [] row = true
selects values ((text, n) ∷ clauses) row =
    meets_value text (value_of n values) row && selects values clauses row

-- What a clause asks, if its option is given.
abbrev asks : String → Option ℤ → Row → Bool
asks text none row = true
asks text (some v) row = meets text v row

-- An option that is not given asks for nothing.
abbrev pub holds_if : (ℤ → Bool) → Option ℤ → Bool
holds_if p none = true
holds_if p (some v) = p v

-- The message is of the user and of the group, and from the time to the time that are given, both
-- included.
abbrev pub wanted : Args → Row → Bool
wanted args row =
    holds_if (λ v. eq_ℤ row.user_id v) args.user_id
    && holds_if (λ v. is_group row.group_id v) args.group_id
    && holds_if (λ v. leb_ℤ v row.event_time) args.from_time
    && holds_if (λ v. leb_ℤ row.event_time v) args.to_time

asks-user :
    (o : Option ℤ) (row : Row) → asks "user_id = " o row ≡ holds_if (λ v. eq_ℤ row.user_id v) o
unfolding meets
asks-user none row = refl
asks-user (some v) row = refl

asks-group :
    (o : Option ℤ) (row : Row)
    → asks "group_id = " o row ≡ holds_if (λ v. is_group row.group_id v) o
unfolding meets
asks-group none row = refl
asks-group (some v) row = refl

asks-from :
    (o : Option ℤ) (row : Row)
    → asks "event_time >= " o row ≡ holds_if (λ v. leb_ℤ v row.event_time) o
unfolding meets
asks-from none row = refl
asks-from (some v) row = refl

asks-to :
    (o : Option ℤ) (row : Row)
    → asks "event_time <= " o row ≡ holds_if (λ v. leb_ℤ row.event_time v) o
unfolding meets
asks-to none row = refl
asks-to (some v) row = refl

-- Each placeholder has a value.
abbrev pub Filled : ℕ → List (String × ℕ) → Type 0
Filled n [] = Unit
Filled n ((text, i) ∷ clauses) = (1 ≤ i) × (i ≤ n) × Filled n clauses

get_elem?-longer :
    (values : List ℤ) (v : ℤ) (i : ℕ)
    → i < length values
    → get_elem? (values ++ v ∷ []) i ≡ get_elem? values i
get_elem?-longer [] v i h = absurd (omega arith)
get_elem?-longer (x ∷ values) v zero h = refl
get_elem?-longer (x ∷ values) v (suc i) h = get_elem?-longer values v i (omega arith)

get_elem?-last : (values : List ℤ) (v : ℤ) → get_elem? (values ++ v ∷ []) (length values) ≡ some v
get_elem?-last [] v = refl
get_elem?-last (x ∷ values) v = get_elem?-last values v

value_of-longer :
    (values : List ℤ) (v : ℤ) (i : ℕ)
    → 1 ≤ i
    → i ≤ length values
    → value_of i (values ++ v ∷ []) ≡ value_of i values
value_of-longer values v zero l h = absurd (omega arith)
value_of-longer values v (suc i) l h = get_elem?-longer values v i (omega arith)

selects-longer :
    (values : List ℤ) (v : ℤ) (clauses : List (String × ℕ)) (row : Row)
    → Filled (length values) clauses
    → selects (values ++ v ∷ []) clauses row ≡ selects values clauses row
selects-longer values v [] row h = refl
selects-longer values v ((text, i) ∷ clauses) row h =
    rw (value_of-longer values v i h.0 h.1, selects-longer values v clauses row h.2) refl

selects-append :
    (values : List ℤ) (text : String) (i : ℕ) (clauses : List (String × ℕ)) (row : Row)
    → selects values (clauses ++ (text, i) ∷ []) row
      ≡ (selects values clauses row && meets_value text (value_of i values) row)
selects-append values text i [] row = ground arith
selects-append values text i ((other, j) ∷ clauses) row =
    rw (selects-append values text i clauses row) (ground arith)

Filled-append :
    (n : ℕ) (text : String) (clauses : List (String × ℕ))
    → Filled n clauses
    → Filled (suc n) (clauses ++ (text, suc n) ∷ [])
Filled-append n text [] h = (omega arith, omega arith, tt)
Filled-append n text ((other, j) ∷ clauses) h =
    (h.0, omega (arith, h.1), Filled-append n text clauses h.2)

abbrev FilledQuery : Query → Type 0
FilledQuery q = Filled (length q.values) q.clauses

add_clause-Filled :
    (text : String) (o : Option ℤ) (q : Query) → FilledQuery q → FilledQuery (add_clause text o q)
unfolding add_clause
add_clause-Filled text none q h = h
add_clause-Filled text (some v) q h =
    subst (λ n. Filled n (q.clauses ++ (text, suc (length q.values)) ∷ []))
      (omega (arith, length-append q.values (v ∷ [])))
      (Filled-append (length q.values) text q.clauses h)

selects-add_clause :
    (text : String) (o : Option ℤ) (q : Query) (row : Row)
    → FilledQuery q
    → selects (add_clause text o q).values (add_clause text o q).clauses row
      ≡ (selects q.values q.clauses row && asks text o row)
unfolding add_clause
selects-add_clause text none q row h = ground arith
selects-add_clause text (some v) q row h =
    selects-append (q.values ++ v ∷ []) text (suc (length q.values)) q.clauses row
    ∙ rw (selects-longer q.values v q.clauses row h, get_elem?-last q.values v) refl

abbrev pub limit_value : Option ℕ → List ℤ → Option ℤ
limit_value none values = none
limit_value (some n) values = value_of n values

-- The query selects the rows that are asked for, with the limit that is asked for.
pub record IsQueryOf (args : Args) (q : Query) : Type 0 where
  pub rows : (row : Row) → selects q.values q.clauses row ≡ wanted args row
  pub limit : limit_value q.limit q.values ≡ args.limit
  pub filled : Filled (length q.values) q.clauses

add_limit-IsQueryOf :
    (args : Args) (q : Query)
    → ((row : Row) → selects q.values q.clauses row ≡ wanted args row)
    → FilledQuery q
    → q.limit ≡ none
    → (o : Option ℤ) → args.limit ≡ o
    → IsQueryOf args (add_limit o q)
unfolding add_limit
add_limit-IsQueryOf args q h f n none e = record { rows = h; limit = rw (n, e) refl; filled = f }
add_limit-IsQueryOf args q h f n (some v) e = record {
  rows = λ row. selects-longer q.values v q.clauses row f ∙ h row;
  limit = get_elem?-last q.values v ∙ sym e;
  filled =
      longer (length q.values) (length (q.values ++ v ∷ [])) q.clauses
        (omega (arith, length-append q.values (v ∷ []))) f;
}
  where
    longer : (m n : ℕ) (clauses : List (String × ℕ)) → m ≤ n → Filled m clauses → Filled n clauses
    longer m n [] l h = tt
    longer m n ((text, i) ∷ clauses) l h = (h.0, omega (arith, h.1), longer m n clauses l h.2)

no_limit : (text : String) (o : Option ℤ) (q : Query) → (add_clause text o q).limit ≡ q.limit
unfolding add_clause
no_limit text none q = refl
no_limit text (some v) q = refl

-- With the values that it is given, the clauses of an export's query, read as SQL reads their texts,
-- select exactly the messages of the user, of the group and of the time that were asked for, as far
-- as each was given, and its limit is the one asked for; every placeholder has a value.
pub build_query-IsQueryOf : (args : Args) → IsQueryOf args (build_query args)
unfolding build_query
build_query-IsQueryOf args =
    add_limit-IsQueryOf args q4
      (λ row. ground (
        arith,
        asks-to args.to_time row,
        asks-from args.from_time row,
        asks-group args.group_id row,
        asks-user args.user_id row,
        selects-add_clause "event_time <= " args.to_time q3 row f3,
        selects-add_clause "event_time >= " args.from_time q2 row f2,
        selects-add_clause "group_id = " args.group_id q1 row f1,
        selects-add_clause "user_id = " args.user_id q0 row tt,
      ))
      (add_clause-Filled "event_time <= " args.to_time q3 f3)
      (no_limit "event_time <= " args.to_time q3
        ∙ no_limit "event_time >= " args.from_time q2
        ∙ no_limit "group_id = " args.group_id q1
        ∙ no_limit "user_id = " args.user_id q0)
      args.limit refl
  where
    q0 : Query
    q0 = record { clauses = []; limit = none; values = [] }

    q1 : Query
    q1 = add_clause "user_id = " args.user_id q0

    q2 : Query
    q2 = add_clause "group_id = " args.group_id q1

    q3 : Query
    q3 = add_clause "event_time >= " args.from_time q2

    q4 : Query
    q4 = add_clause "event_time <= " args.to_time q3

    f1 : FilledQuery q1
    f1 = add_clause-Filled "user_id = " args.user_id q0 tt

    f2 : FilledQuery q2
    f2 = add_clause-Filled "group_id = " args.group_id q1 f1

    f3 : FilledQuery q3
    f3 = add_clause-Filled "event_time >= " args.from_time q2 f2
