-- ===== src/Base/Result.antt =====
-- What a function returns that may raise.
use mathlib.Core.Path.{◌≡◌}

pub data Result (E A : Type 0) : Type 0 where
  ok : A → Result E A
  err : E → Result E A

module _ {E A B : Type 0} where
  infixl 5 ◌>>=◌
  abbrev pub ◌>>=◌ : Result E A → (A → Result E B) → Result E B
  ok a >>= f = f a
  err e >>= f = err e

-- If the function returns, `P` holds of its value.
module _ {E A : Type 0} where
  abbrev pub Ensures : (A → Type 0) → Result E A → Type 0
  Ensures P (ok a) = P a
  Ensures P (err e) = Unit

  pub Ensures-ok : (P : A → Type 0) (r : Result E A) → Ensures P r → {a : A} → r ≡ ok a → P a
  Ensures-ok P r h e = rw e at h

  pub Ensures-weaken :
      {P Q : A → Type 0} (r : Result E A) → ((a : A) → P a → Q a) → Ensures P r → Ensures Q r
  Ensures-weaken (ok a) f h = f a h
  Ensures-weaken (err e) f h = tt

module _ {E A B : Type 0} where
  pub Ensures-bind :
      (Q : A → Type 0) (P : B → Type 0) (m : Result E A) (f : A → Result E B)
      → Ensures Q m
      → ((a : A) → Q a → Ensures P (f a))
      → Ensures P (m >>= f)
  Ensures-bind Q P (ok a) f q k = k a q
  Ensures-bind Q P (err e) f q k = tt

  -- A step of which nothing is used.
  pub Ensures-skip :
      (P : B → Type 0) (m : Result E A) (f : A → Result E B)
      → ((a : A) → Ensures P (f a))
      → Ensures P (m >>= f)
  Ensures-skip P (ok a) f k = k a
  Ensures-skip P (err e) f k = tt
