-- ===== src/Napcat/Search.antt =====
-- The two searches of handler.py through a response, each a loop over a stack of values.
pub mod Preorder
use text.Mathlib.Text.{starts_with}
use data_assistant.Base.Result.{ok, err, Result}
use data_assistant.Base.Json.{nil, cons, Items, obj, end, arr, field, str, Json, Fields, elements}
use data_assistant.Base.{
  zero, some, ◌||◌, if◌then◌else◌, ◌+◌, none, ◌∷◌, suc, str_eq, Option, Bool, [], ◌++◌, ℕ, String,
  List,
}
use data_assistant.Base.Text.{is_empty, strip, Python}

-- Twice the nodes and list cells of a value, a bound on the rounds of a search.
unfoldable mutual
  pub size : Json → ℕ
  size (arr vs) = suc (size_items vs)
  size (obj d) = suc (size_fields d)
  size _ = 1

  pub size_items : Items → ℕ
  size_items nil = 0
  size_items (cons v vs) = size v + size_items vs

  pub size_fields : Fields → ℕ
  size_fields end = 0
  size_fields (field k v d) = size v + size_fields d

pub size_stack : List Json → ℕ
unfolding size
size_stack [] = 0
size_stack (v ∷ vs) = size v + size_stack vs

-- The values of a dictionary, in order.
unfoldable pub values : Fields → List Json
values end = []
values (field k v d) = v ∷ values d

-- The top of the stack is its first element. `stack.extend(reversed(vs))` leaves the first of `vs`
-- on top.
unfoldable pub push_all : List Json → List Json → List Json
push_all vs stack = vs ++ stack

module _ (py : Python) where
  unfoldable pub is_http : String → Bool
  is_http text = starts_with text "http://" || starts_with text "https://"

  -- `_extract_first_http_url` with fuel; a search that runs out of fuel finds nothing.
  unfoldable pub first_http_url : ℕ → List Json → Option String
  unfolding push_all is_http elements values
  first_http_url zero stack = none
  first_http_url (suc fuel) [] = none
  first_http_url (suc fuel) (str s ∷ stack) =
      let text = py.unescape (strip s) in
      let rest = first_http_url fuel stack in if is_http text then some text else rest
  first_http_url (suc fuel) (arr vs ∷ stack) = first_http_url fuel (push_all (elements vs) stack)
  first_http_url (suc fuel) (obj d ∷ stack) = first_http_url fuel (push_all (values d) stack)
  first_http_url (suc fuel) (v ∷ stack) = first_http_url fuel stack

  unfoldable pub extract_first_http_url : Json → Option String
  unfolding first_http_url size
  extract_first_http_url payload = first_http_url (suc (size payload)) (payload ∷ [])

  is_candidate_key : String → Bool
  is_candidate_key key =
      let k = py.lower key in
      str_eq k "file_id" || str_eq k "file" || str_eq k "fileid" || str_eq k "fid"

  file_id_text : Json → Option String
  file_id_text (str s) = if is_empty (strip s) then none else some (strip s)
  file_id_text _ = none

  -- The loop over a dictionary's items: the first file id, or the stack with the values pushed in
  -- turn, so that the last is on top.
  scan_fields : Fields → List Json → Result (List Json) String
  unfolding is_candidate_key file_id_text
  scan_fields end stack = err stack
  scan_fields (field k v d) stack =
      let rest = scan_fields d (v ∷ stack) in
      if is_candidate_key k then elim (file_id_text v) [ some id ↦ ok id | none ↦ rest ] else rest

  unfoldable pub find_file_id : ℕ → List Json → Option String
  unfolding push_all scan_fields elements
  find_file_id zero stack = none
  find_file_id (suc fuel) [] = none
  find_file_id (suc fuel) (arr vs ∷ stack) = find_file_id fuel (push_all (elements vs) stack)
  find_file_id (suc fuel) (obj d ∷ stack) = elim (scan_fields d stack) [
    | ok id ↦ some id
    | err stack' ↦ find_file_id fuel stack'
  ]
  find_file_id (suc fuel) (v ∷ stack) = find_file_id fuel stack

  unfoldable pub extract_file_id : Json → Option String
  unfolding find_file_id size
  extract_file_id payload = find_file_id (suc (size payload)) (payload ∷ [])
