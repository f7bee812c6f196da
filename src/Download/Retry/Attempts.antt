-- ===== src/Download/Retry/Attempts.antt =====
-- How many attempts a download makes.
use mathlib.Core.Path.{subst}
use data_assistant.Base.Text.{Converted}
use data_assistant.Download.Retry.{
  or_status, download_image, retry, download_image_with_retry, DownloadError, Answer,
  DownloadedImage, FetchError,
}
use data_assistant.Base.Result.{err, ok, Result}
use data_assistant.Base.{◌-◌, none, refl, ◌<◌, ◌+◌, arith, zero, max, Option, ◌≡◌, suc, ℕ, String}

abbrev pub Fails : Result FetchError DownloadedImage → Type 0
Fails (ok downloaded) = ⊥
Fails (err e) = Unit

module _ (to_int : String → Converted) (status_text : ℕ → String) (get : ℕ → Answer) where
  -- The attempts from one on, so many, all fail.
  abbrev pub AllFail : ℕ → ℕ → Type 0
  AllFail attempt zero = Unit
  AllFail attempt (suc n) =
      Fails (download_image to_int status_text (get attempt)) × AllFail (suc attempt) n

  -- The first of the attempts that succeeds is returned, with its number, or all have failed.
  abbrev pub IsFirst : ℕ → ℕ → Result DownloadError (DownloadedImage × ℕ) → Type 0
  IsFirst attempt most (ok (downloaded, k)) =
      (failed_before : ℕ) × (k ≡ attempt + failed_before)
      × (failed_before < most)
      × (download_image to_int status_text (get k) ≡ ok downloaded)
      × AllFail attempt failed_before
  IsFirst attempt most (err e) = (suc e.attempts ≡ attempt + most) × AllFail attempt most

  later :
      (attempt most : ℕ) (r : Result DownloadError (DownloadedImage × ℕ))
      → Fails (download_image to_int status_text (get attempt))
      → IsFirst (suc attempt) most r
      → IsFirst attempt (suc most) r
  later attempt most (ok (downloaded, k)) f h =
      (suc h.0, omega (arith, h.1), omega (arith, h.2), h.3, (f, h.4))
  later attempt most (err e) f h = (omega (arith, h.0), (f, h.1))

  retry-IsFirst :
      (status_code : Option ℕ) (attempt more : ℕ)
      → IsFirst attempt (suc more) (retry to_int status_text get status_code attempt more)
  unfolding retry
  retry-IsFirst status_code attempt zero =
      of_answer (download_image to_int status_text (get attempt)) refl
    where
      of_answer :
          (o : Result FetchError DownloadedImage)
          → download_image to_int status_text (get attempt) ≡ o
          → IsFirst attempt 1 (elim o [
            | ok downloaded ↦ ok (downloaded, attempt)
            | err e ↦ err (record {
              attempts = attempt;
              last_error = e.text;
              status_code = or_status e.status_code status_code;
            })
          ])
      of_answer (ok downloaded) e = (0, omega arith, omega arith, e, tt)
      of_answer (err x) e = (omega arith, (rw e tt, tt))
  retry-IsFirst status_code attempt (suc more) =
      of_answer (download_image to_int status_text (get attempt)) refl
        (λ s. retry-IsFirst s (suc attempt) more)
    where
      of_answer :
          (o : Result FetchError DownloadedImage)
          → download_image to_int status_text (get attempt) ≡ o
          → ((s : Option ℕ)
              → IsFirst
                  (suc attempt)
                  (suc more)
                  (retry to_int status_text get s (suc attempt) more))
          → IsFirst attempt (suc (suc more)) (elim o [
            | ok downloaded ↦ ok (downloaded, attempt)
            | err e ↦
                retry to_int status_text get
                  (or_status e.status_code status_code)
                  (suc attempt)
                  more
          ])
      of_answer (ok downloaded) e rest = (0, omega arith, omega arith, e, tt)
      of_answer (err x) e rest =
          later attempt (suc more) _ (rw e tt) (rest (or_status x.status_code status_code))

  -- A download returns the image of the first attempt that succeeds, with the number of that
  -- attempt, which is at most the retry count, or 1 if that is 0. It fails only if all of
  -- these attempts fail, and then it tells their number.
  pub download_image_with_retry-IsFirst :
      (retry_count : ℕ)
      → IsFirst 1 (max 1 retry_count) (download_image_with_retry to_int status_text retry_count get)
  unfolding download_image_with_retry
  download_image_with_retry-IsFirst retry_count =
      subst (λ n. IsFirst 1 n (retry to_int status_text get none 1 (max 1 retry_count - 1)))
        (omega arith) (retry-IsFirst none 1 (max 1 retry_count - 1))
