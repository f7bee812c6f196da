-- ===== src/Napcat/Search/Preorder.antt =====
-- The stack search of a response for an HTTP URL, against a recursive description of it.
use data_assistant.Base.Json.{
  null, float, int, bool, nil, obj, end, arr, cons, field, Items, str, Fields, Json, elements,
}
use data_assistant.Napcat.Search.{
  is_http, size, push_all, size_items, values, extract_first_http_url, size_fields, first_http_url,
  size_stack,
}
use data_assistant.Base.Text.{strip, Python}
use data_assistant.Base.{
  zero, if◌then◌else◌, inr, inl, Bool-cases, ◌∙◌, ◌<◌, [], sym, ℕ, arith, suc, ◌+◌, ◌∷◌, ◌++◌, ◌≡◌,
  none, some, List, String, Option, refl,
}

-- The first of two answers.
abbrev or_next : Option String → Option String → Option String
or_next none next = next
or_next (some s) next = some s

or_next_assoc : (a b c : Option String) → or_next (or_next a b) c ≡ or_next a (or_next b c)
or_next_assoc none b c = refl
or_next_assoc (some s) b c = refl

size_stack-append : (xs ys : List Json) → size_stack (xs ++ ys) ≡ size_stack xs + size_stack ys
unfolding size_stack
size_stack-append [] ys = omega arith
size_stack-append (x ∷ xs) ys = omega (arith, size_stack-append xs ys)

size_stack-elements : (vs : Items) → size_stack (elements vs) ≡ size_items vs
unfolding size_stack size_items elements
size_stack-elements nil = refl
size_stack-elements (cons v vs) = omega (arith, size_stack-elements vs)

size_stack-values : (d : Fields) → size_stack (values d) ≡ size_fields d
unfolding size_stack size_fields values
size_stack-values end = refl
size_stack-values (field k v d) = omega (arith, size_stack-values d)

module _ (py : Python) where
  abbrev pub found : String → Option String
  found text = if is_http py text then some text else none

  -- The first text of a value that is a URL: a list's elements and a dictionary's values are read
  -- in their order, each with all that it holds before the next.
  unfoldable mutual
    pub url_in : Json → Option String
    url_in (str s) = found (py.unescape (strip s))
    url_in (arr vs) = url_in_items vs
    url_in (obj d) = url_in_fields d
    url_in _ = none

    url_in_items : Items → Option String
    url_in_items nil = none
    url_in_items (cons v vs) = or_next (url_in v) (url_in_items vs)

    url_in_fields : Fields → Option String
    url_in_fields end = none
    url_in_fields (field k v d) = or_next (url_in v) (url_in_fields d)

  url_in_stack : List Json → Option String
  url_in_stack [] = none
  url_in_stack (v ∷ stack) = or_next (url_in v) (url_in_stack stack)

  url_in_stack-elements :
      (vs : Items) (stack : List Json)
      → url_in_stack (elements vs ++ stack) ≡ or_next (url_in_items vs) (url_in_stack stack)
  unfolding elements url_in_stack url_in_items
  url_in_stack-elements nil stack = refl
  url_in_stack-elements (cons v vs) stack =
      rw (url_in_stack-elements vs stack)
        (sym (or_next_assoc (url_in v) (url_in_items vs) (url_in_stack stack)))

  url_in_stack-values :
      (d : Fields) (stack : List Json)
      → url_in_stack (values d ++ stack) ≡ or_next (url_in_fields d) (url_in_stack stack)
  unfolding values url_in_stack url_in_fields
  url_in_stack-values end stack = refl
  url_in_stack-values (field k v d) stack =
      rw (url_in_stack-values d stack)
        (sym (or_next_assoc (url_in v) (url_in_fields d) (url_in_stack stack)))

  first_http_url-url_in_stack :
      (fuel : ℕ) (stack : List Json)
      → size_stack stack < fuel
      → first_http_url py fuel stack ≡ url_in_stack stack
  unfolding first_http_url url_in_stack url_in size_stack push_all size
  first_http_url-url_in_stack zero stack h = absurd (omega arith)
  first_http_url-url_in_stack (suc fuel) [] h = refl
  first_http_url-url_in_stack (suc fuel) (str s ∷ stack) h =
      elim (Bool-cases (is_http py (py.unescape (strip s)))) [
        | inl e ↦ rw e refl
        | inr e ↦ rw e (first_http_url-url_in_stack fuel stack (omega arith))
      ]
  first_http_url-url_in_stack (suc fuel) (arr vs ∷ stack) h =
      first_http_url-url_in_stack fuel (elements vs ++ stack)
        (omega (arith, size_stack-append (elements vs) stack, size_stack-elements vs))
      ∙ url_in_stack-elements vs stack
  first_http_url-url_in_stack (suc fuel) (obj d ∷ stack) h =
      first_http_url-url_in_stack fuel (values d ++ stack)
        (omega (arith, size_stack-append (values d) stack, size_stack-values d))
      ∙ url_in_stack-values d stack
  first_http_url-url_in_stack (suc fuel) (null ∷ stack) h =
      first_http_url-url_in_stack fuel stack (omega arith)
  first_http_url-url_in_stack (suc fuel) (bool b ∷ stack) h =
      first_http_url-url_in_stack fuel stack (omega arith)
  first_http_url-url_in_stack (suc fuel) (int n ∷ stack) h =
      first_http_url-url_in_stack fuel stack (omega arith)
  first_http_url-url_in_stack (suc fuel) (float s ∷ stack) h =
      first_http_url-url_in_stack fuel stack (omega arith)

  or_next-none : (a : Option String) → or_next a none ≡ a
  or_next-none none = refl
  or_next-none (some s) = refl

  -- The search of a response finds its first HTTP URL, in the order of the text that was parsed. Its
  -- fuel is always enough.
  pub extract_first_http_url-url_in :
      (payload : Json) → extract_first_http_url py payload ≡ url_in payload
  unfolding extract_first_http_url url_in_stack
  extract_first_http_url-url_in payload =
      first_http_url-url_in_stack (suc (size payload)) (payload ∷ [])
        (unfold size_stack in omega arith)
      ∙ or_next-none (url_in payload)
