-- ===== src/Database.antt =====
-- The connection pool of logger_service/service/persistence/db.py. `create` is `asyncpg.create_pool` at an
-- attempt: a pool, known by a number, or the text of an exception.
pub mod Opening
use data_assistant.Base.Json.{pos_part, ℤ}
use data_assistant.Base.{zero, suc, suc, String, none, ℕ, Option, some}
use data_assistant.Base.Result.{Result, ok, err}

-- The pool, the exception that is raised, or a failed `assert`.
pub data Opened : Type 0 where
  opened : ℕ → Opened
  not_opened : String → Opened
  assertion_error : Opened

module _ (create : ℕ → Result String ℕ) where
  -- The loop from an attempt on, with the number of attempts that are left and the last error.
  unfoldable pub open_from : ℕ → ℕ → Option String → Opened
  open_from attempt zero none = assertion_error
  open_from attempt zero (some e) = not_opened e
  open_from attempt (suc left) last_error = elim (create attempt) [
    | ok pool ↦ opened pool
    | err e ↦ open_from (suc attempt) left (some e)
  ]

  unfoldable pub create_pool_with_retry : ℤ → Opened
  unfolding open_from
  create_pool_with_retry connect_max_attempts = open_from 1 (pos_part connect_max_attempts) none

-- `_pool` after `init_db`, if it does not raise.
unfoldable pub init_db : Opened → Option ℕ
init_db (opened pool) = some pool
init_db _ = none

-- `get_pool` raises if there is no pool.
unfoldable pub get_pool : Option ℕ → Result String ℕ
get_pool (some pool) = ok pool
get_pool none = err "DB pool not initialized. Call init_db() first."

unfoldable pub close_db : Option ℕ → Option ℕ
close_db pool = none
