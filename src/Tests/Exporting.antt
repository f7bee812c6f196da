-- ===== src/Tests/Exporting.antt =====
-- The theorem on the query of an export, applied to a user, a time and a limit.
use data_assistant.Export.Selected.{build_query-IsQueryOf, IsQueryOf}
use data_assistant.Base.{[], ◌∷◌, refl, ◌≡◌, some, none}
use data_assistant.Base.Json.{pos}
use data_assistant.Base.Result.{err}
use data_assistant.Export.{parse_args, Args, build_query, bad_limit}

abbrev some_args : Args
some_args = record {
  user_id = some (pos 7);
  group_id = none;
  from_time = some (pos 100);
  to_time = none;
  limit = some (pos 5);
}

build_query-IsQueryOf_example : IsQueryOf some_args (build_query some_args)
build_query-IsQueryOf_example = build_query-IsQueryOf some_args

values_test : (build_query some_args).values ≡ pos 7 ∷ pos 100 ∷ pos 5 ∷ []
unfolding build_query
values_test = refl

limit_test : parse_args (record some_args { limit = some (pos 0) }) ≡ err bad_limit
unfolding parse_args
limit_test = refl
