-- ===== src/Export.antt =====
-- The query of logger_service/service/export.py. Times are whole numbers of one unit.
pub mod Selected
use data_assistant.Base.Text.{Python}
use data_assistant.Base.{
  not, true, false, length, ◌++◌, ◌&&◌, ◌<>◌, Bool, suc, String, ℕ, if◌then◌else◌, List, Option,
  some, none, ◌∷◌, [],
}
use data_assistant.Base.Json.{ltb_ℤ, ℤ, pos, int}
use data_assistant.Base.Result.{Result, ok, err}

pub record Args : Type 0 where
  pub user_id : Option ℤ
  pub group_id : Option ℤ
  pub from_time : Option ℤ
  pub to_time : Option ℤ
  pub limit : Option ℤ

pub data ArgError : Type 0 where
  no_id bad_limit : ArgError

is_none : Option ℤ → Bool
is_none none = true
is_none (some n) = false

is_bad_limit : Option ℤ → Bool
is_bad_limit none = false
is_bad_limit (some n) = not (ltb_ℤ (pos 0) n)

-- `parse_args`, after the options were read.
unfoldable pub parse_args : Args → Result ArgError Args
unfolding is_none is_bad_limit
parse_args args =
    if is_none args.user_id && is_none args.group_id
    then err no_id
    else if is_bad_limit args.limit
    then err bad_limit
    else ok args

-- The clauses, each as its text before the placeholder and the placeholder's number; the number of the
-- limit's placeholder; and the values.
pub record Query : Type 0 where
  pub clauses : List (String × ℕ)
  pub limit : Option ℕ
  pub values : List ℤ

unfoldable pub add_clause : String → Option ℤ → Query → Query
add_clause text none q = q
add_clause text (some v) q = record q {
  clauses = q.clauses ++ (text, suc (length q.values)) ∷ [];
  values = q.values ++ v ∷ [];
}

unfoldable pub add_limit : Option ℤ → Query → Query
add_limit none q = q
add_limit (some v) q = record q {
  limit = some (suc (length q.values));
  values = q.values ++ v ∷ [];
}

unfoldable pub build_query : Args → Query
unfolding add_clause add_limit
build_query args = add_limit args.limit (
    add_clause "event_time <= " args.to_time (
      add_clause "event_time >= " args.from_time (
        add_clause "group_id = " args.group_id (
          add_clause "user_id = " args.user_id
            (record { clauses = []; limit = none; values = [] })))))

-- The text of the query.
module _ (py : Python) where
  placeholder : ℕ → String
  placeholder n = "$" <> py.text_of (int (pos n))

  clause_text : String × ℕ → String
  unfolding placeholder
  clause_text (text, n) = text <> placeholder n

  more_clauses : List (String × ℕ) → String
  unfolding clause_text
  more_clauses [] = ""
  more_clauses (clause ∷ clauses) = " AND " <> clause_text clause <> more_clauses clauses

  where_text : List (String × ℕ) → String
  unfolding more_clauses clause_text
  where_text [] = ""
  where_text (clause ∷ clauses) = " WHERE " <> clause_text clause <> more_clauses clauses

  limit_text : Option ℕ → String
  unfolding placeholder
  limit_text none = ""
  limit_text (some n) = " LIMIT " <> placeholder n

  unfoldable pub query_text : Query → String
  unfolding where_text limit_text
  query_text q =
      "SELECT message_type, user_id, group_id, group_name, sender_nickname, "
      <> "sender_card, sender_role, plain_text, event_time, message_id "
      <> "FROM onebot_messages"
      <> where_text q.clauses
      <> " ORDER BY event_time ASC"
      <> limit_text q.limit
