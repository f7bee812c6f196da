-- ===== src/Base/Json.antt =====
-- The values that `json.loads` returns and `json.dumps` takes. A float keeps its literal.
use Prim.Native.Nat.{ℕ, zero, suc, ◌+◌, ◌<◌, ◌≤◌}
use Prim.Native.String.{String}
use mathlib.Core.Path.{◌≡◌, refl}
use mathlib.Core.Bool.{Bool}
use mathlib.Core.Option.{Option, none, some}
use mathlib.Core.List.{List, [], ◌∷◌}
use native.Mathlib.Omega.{arith}
use text.Mathlib.Text.{◌==◌ as str_eq}
use text.Mathlib.TextEquality.{eq_iff}
use data_assistant.Base.Bools.{if◌then◌else◌, ltb}

-- `negsuc n` is -(n + 1).
pub data ℤ : Type 0 where
  pos : ℕ → ℤ
  negsuc : ℕ → ℤ

abbrev pub pos_part : ℤ → ℕ
pos_part (pos n) = n
pos_part (negsuc n) = 0

abbrev pub neg_part : ℤ → ℕ
neg_part (pos n) = 0
neg_part (negsuc n) = suc n

infix 50 ◌<ℤ◌
abbrev pub ◌<ℤ◌ : ℤ → ℤ → Type 0
a <ℤ b = pos_part a + neg_part b < pos_part b + neg_part a

infix 50 ◌≤ℤ◌
abbrev pub ◌≤ℤ◌ : ℤ → ℤ → Type 0
a ≤ℤ b = pos_part a + neg_part b ≤ pos_part b + neg_part a

abbrev pub ltb_ℤ : ℤ → ℤ → Bool
ltb_ℤ a b = ltb (pos_part a + neg_part b) (pos_part b + neg_part a)

abbrev pub suc_ℤ : ℤ → ℤ
suc_ℤ (pos n) = pos (suc n)
suc_ℤ (negsuc zero) = pos 0
suc_ℤ (negsuc (suc n)) = negsuc n

mutual
  pub data Json : Type 0 where
    null : Json
    bool : Bool → Json
    int : ℤ → Json
    float : String → Json
    str : String → Json
    arr : Items → Json
    obj : Fields → Json

  pub data Items : Type 0 where
    nil : Items
    cons : Json → Items → Items

  -- A dictionary, its keys in insertion order.
  pub data Fields : Type 0 where
    end : Fields
    field : String → Json → Fields → Fields

-- `d.get(k)`: a missing key is `none`, a JSON null is `some null`.
unfoldable pub get? : String → Fields → Option Json
get? k end = none
get? k (field j v d) = if str_eq k j then some v else get? k d

-- `d.get(k)` with Python's own default, `None`.
unfoldable pub get : String → Fields → Json
unfolding get?
get k d = elim (get? k d) [ none ↦ null | some v ↦ v ]

-- `d.get(k, default)`
or_default : Json → Option Json → Json
or_default default none = default
or_default default (some v) = v

unfoldable pub get_default : String → Json → Fields → Json
unfolding get? or_default
get_default k default d = or_default default (get? k d)

get_default_lem :
    (k : String) (default : Json) (d : Fields)
    → get_default k default d ≡ or_default default (get? k d)
unfolding get_default
get_default_lem k default d = refl

-- `d[k] = v`
unfoldable pub put : String → Json → Fields → Fields
put k v end = field k v end
put k v (field j w d) = if str_eq k j then field j v d else field j w (put k v d)

pub get?-put :
    (k j : String) (v : Json) (d : Fields)
    → get? j (put k v d) ≡ (if str_eq j k then some v else get? j d)
unfolding get? put
get?-put k j v end = refl
get?-put k j v (field i w d) = ground (arith, get?-put k j v d, eq_iff k i, eq_iff j i, eq_iff j k)

pub get_default-put :
    (k j : String) (default v : Json) (d : Fields)
    → get_default j default (put k v d) ≡ (if str_eq j k then v else get_default j default d)
unfolding or_default
get_default-put k j default v d =
    rw (get_default_lem j default (put k v d), get?-put k j v d, get_default_lem j default d)
      (ground arith)

-- The elements of a list, and back.
unfoldable pub elements : Items → List Json
elements nil = []
elements (cons v vs) = v ∷ elements vs

unfoldable pub items_of : List Json → Items
items_of [] = nil
items_of (v ∷ vs) = cons v (items_of vs)

-- A dictionary display.
unfoldable pub dict : List (String × Json) → Fields
dict [] = end
dict ((k, v) ∷ kvs) = field k v (dict kvs)

-- A list of strings.
unfoldable pub strs : List String → Items
strs [] = nil
strs (s ∷ ss) = cons (str s) (strs ss)

-- No dictionary, at any depth, has a key twice.
abbrev mutual
  pub IsDistinct : Json → Type 0
  IsDistinct (arr vs) = IsDistinctItems vs
  IsDistinct (obj d) = IsDistinctFields d
  IsDistinct _ = Unit

  pub IsDistinctItems : Items → Type 0
  IsDistinctItems nil = Unit
  IsDistinctItems (cons v vs) = IsDistinct v × IsDistinctItems vs

  pub IsDistinctFields : Fields → Type 0
  IsDistinctFields end = Unit
  IsDistinctFields (field k v d) = (get? k d ≡ none) × IsDistinct v × IsDistinctFields d
