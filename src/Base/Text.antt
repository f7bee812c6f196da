-- ===== src/Base/Text.antt =====
-- `str.strip`, and the built-in conversions that the program calls.
use Prim.Native.Nat.{ℕ, zero}
use Prim.Native.Char.{Char, code}
use Prim.Native.String.{String}
use mathlib.Core.Path.{◌≡◌, refl}
use mathlib.Core.Bool.{Bool, true, false, ◌&&◌, ◌||◌, not}
use data_assistant.Base.Bools.{if◌then◌else◌, leb, ◌==◌, Bool-cases}
use data_assistant.Base.Json.{ℤ, pos, Json, null, bool, int, float, str, arr, obj, nil, end}
use mathlib.Core.Logic.{inl, inr}

-- The code points for which `str.isspace` is true.
is_space : ℕ → Bool
is_space c =
    (leb 9 c && leb c 13)
    || (leb 28 c && leb c 32)
    || (c == 133)
    || (c == 160)
    || (c == 5760)
    || (leb 8192 c && leb c 8202)
    || (c == 8232)
    || (c == 8233)
    || (c == 8239)
    || (c == 8287)
    || (c == 12288)

-- An empty text is false in a test.
unfoldable pub is_empty : String → Bool
is_empty String.[] = true
is_empty (String.◌∷◌ c s) = false

lstrip : String → String
lstrip String.[] = String.[]
lstrip (String.◌∷◌ c s) = if is_space (code c) then lstrip s else String.◌∷◌ c s

put_back : Char → String → String
put_back c String.[] = if is_space (code c) then String.[] else String.◌∷◌ c String.[]
put_back c (String.◌∷◌ d s) = String.◌∷◌ c (String.◌∷◌ d s)

rstrip : String → String
rstrip String.[] = String.[]
rstrip (String.◌∷◌ c s) = put_back c (rstrip s)

unfoldable pub strip : String → String
unfolding is_space lstrip rstrip put_back
strip s = rstrip (lstrip s)

strip_test : strip "  a b\t\n" ≡ "a b"
unfolding strip
strip_test = refl

rstrip_idem : (s : String) → rstrip (rstrip s) ≡ rstrip s
unfolding rstrip put_back
rstrip_idem String.[] = refl
rstrip_idem (String.◌∷◌ c s) = of_tail (rstrip s) (rstrip_idem s)
  where
    of_tail : (r : String) → rstrip r ≡ r → rstrip (put_back c r) ≡ put_back c r
    of_tail String.[] h = elim (Bool-cases (is_space (code c))) [ inl e ↦ rw e | inr e ↦ rw (e, e) ]
    of_tail (String.◌∷◌ d t) h = rw h refl

lstrip_head : (s : String) → rstrip (lstrip s) ≡ lstrip (rstrip (lstrip s))
unfolding lstrip rstrip put_back
lstrip_head String.[] = refl
lstrip_head (String.◌∷◌ c s) = elim (Bool-cases (is_space (code c))) [
  | inl e ↦ rw e (lstrip_head s)
  | inr e ↦ rw e (of_tail e (rstrip s))
]
  where
    of_tail : is_space (code c) ≡ false → (r : String) → put_back c r ≡ lstrip (put_back c r)
    of_tail e String.[] = rw e (rw (lstrip, e) refl)
    of_tail e (String.◌∷◌ d t) = rw e refl

-- Stripping a stripped text changes nothing.
pub strip_idem : (s : String) → strip (strip s) ≡ strip s
unfolding strip
strip_idem s = rw (← lstrip_head s) (rstrip_idem (lstrip s))

-- What `int()` does: a `ValueError`, a `TypeError`, or an `OverflowError` for an infinite float.
pub data Converted : Type 0 where
  converted : ℤ → Converted
  value_error type_error overflow_error : Converted

-- Built-in conversions whose tables or grammars are not repeated here: `str` of a value that is
-- not text, `int` of a text and of a float's literal, the truth of a
-- float, a float plus 1, `str.lower`, and `html.unescape`.
pub record Python : Type 0 where
  pub text_of : Json → String
  pub int_of_text : String → Converted
  pub int_of_float : String → Converted
  pub float_nonzero : String → Bool
  pub float_suc : String → String
  pub lower : String → String
  pub unescape : String → String

module _ (py : Python) where
  -- `str(v)`
  unfoldable pub py_str : Json → String
  py_str (str s) = s
  py_str v = py.text_of v

  -- `int(v)`
  unfoldable pub py_int : Json → Converted
  py_int null = type_error
  py_int (bool b) = converted (pos (if b then 1 else 0))
  py_int (int n) = converted n
  py_int (float s) = py.int_of_float s
  py_int (str s) = py.int_of_text s
  py_int (arr vs) = type_error
  py_int (obj d) = type_error

  -- Whether a value is true in a test.
  unfoldable pub truthy : Json → Bool
  unfolding is_empty
  truthy null = false
  truthy (bool b) = b
  truthy (int (pos zero)) = false
  truthy (int n) = true
  truthy (float s) = py.float_nonzero s
  truthy (str s) = not (is_empty s)
  truthy (arr nil) = false
  truthy (arr vs) = true
  truthy (obj end) = false
  truthy (obj d) = true
