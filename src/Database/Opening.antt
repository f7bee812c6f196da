-- ===== src/Database/Opening.antt =====
-- How often the pool is asked for.
use data_assistant.Config.Limits.{env_int-bound}
use data_assistant.Config.Connections.{load_postgres_config}
use data_assistant.Config.{Env, Floats}
use data_assistant.Base.Text.{Python}
use data_assistant.Base.{refl, none, ◌≤◌, zero, Option, arith, ◌<◌, suc, ◌≡◌, String, ℕ, some}
use data_assistant.Base.Result.{Result, ok, err}
use data_assistant.Base.Json.{pos_part, ℤ, pos, ◌≤ℤ◌}
use data_assistant.Database.{
  create_pool_with_retry, Opened, open_from, opened, not_opened, assertion_error,
}

module _ (create : ℕ → Result String ℕ) where
  abbrev pub Refuses : ℕ → Type 0
  Refuses attempt = (e : String) × (create attempt ≡ err e)

  -- So many attempts fail, and the next gives the pool.
  abbrev pub Opens : ℕ → ℕ → ℕ → Type 0
  Opens attempt zero pool = create attempt ≡ ok pool
  Opens attempt (suc failed) pool = Refuses attempt × Opens (suc attempt) failed pool

  -- So many attempts fail, the last with this error.
  abbrev pub Fails : ℕ → ℕ → String → Type 0
  Fails attempt zero e = ⊥
  Fails attempt (suc zero) e = create attempt ≡ err e
  Fails attempt (suc (suc left)) e = Refuses attempt × Fails (suc attempt) (suc left) e

  -- The first pool of at most so many attempts, or the error of the last of them.
  abbrev pub IsTried : ℕ → ℕ → Opened → Type 0
  IsTried attempt left (opened pool) = (failed : ℕ) × (failed < left) × Opens attempt failed pool
  IsTried attempt left (not_opened e) = Fails attempt left e
  IsTried attempt left assertion_error = ⊥

  later :
      (attempt left : ℕ) (o : Opened)
      → Refuses attempt
      → IsTried (suc attempt) (suc left) o
      → IsTried attempt (suc (suc left)) o
  later attempt left (opened pool) r (failed, less, h) = (suc failed, omega (arith, less), (r, h))
  later attempt left (not_opened e) r h = (r, h)
  later attempt left assertion_error r h = absurd h

  open_from-IsTried :
      (attempt left : ℕ) (last_error : Option String)
      → IsTried attempt (suc left) (open_from create attempt (suc left) last_error)
  unfolding open_from
  open_from-IsTried attempt zero last_error = of_answer (create attempt) refl
    where
      of_answer :
          (o : Result String ℕ)
          → create attempt ≡ o
          → IsTried attempt 1 (elim o [
            | ok pool ↦ opened pool
            | err e ↦ open_from create (suc attempt) zero (some e)
          ])
      of_answer (ok pool) h = (0, omega arith, h)
      of_answer (err e) h = h
  open_from-IsTried attempt (suc left) last_error =
      of_answer (create attempt) refl (λ e. open_from-IsTried (suc attempt) left (some e))
    where
      of_answer :
          (o : Result String ℕ)
          → create attempt ≡ o
          → ((e : String)
              → IsTried
                  (suc attempt)
                  (suc left)
                  (open_from create (suc attempt) (suc left) (some e)))
          → IsTried attempt (suc (suc left)) (elim o [
            | ok pool ↦ opened pool
            | err e ↦ open_from create (suc attempt) (suc left) (some e)
          ])
      of_answer (ok pool) h rest = (0, omega arith, h)
      of_answer (err e) h rest = later attempt left _ (e, h) (rest e)

  at_least_one : (n : ℤ) → pos 1 ≤ℤ n → IsTried 1 (pos_part n) (create_pool_with_retry create n)
  unfolding create_pool_with_retry
  at_least_one n h = of_count (pos_part n) (omega (arith, h))
    where
      of_count : (k : ℕ) → 1 ≤ k → IsTried 1 k (open_from create 1 k none)
      of_count zero l = absurd (omega arith)
      of_count (suc k) l = open_from-IsTried 1 k none

  -- With the settings of any environment, the start takes the first pool that an attempt gives, and makes no
  -- more attempts than are set; or all of these fail and it raises the error of the last. Its
  -- assertion never fails.
  pub create_pool_with_retry-IsTried :
      (py : Python) (fl : Floats) (env : Env)
      → IsTried 1
          (pos_part (load_postgres_config py fl env).connect_max_attempts)
          (create_pool_with_retry create (load_postgres_config py fl env).connect_max_attempts)
  create_pool_with_retry-IsTried py fl env = at_least_one _ (
      unfold load_postgres_config in
      env_int-bound py env "POSTGRES_CONNECT_MAX_ATTEMPTS" (pos 30) (pos 1) (omega arith))
