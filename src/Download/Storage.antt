-- ===== src/Download/Storage.antt =====
-- storage.py: where an image is saved. `join` is `/` of pathlib, and `url_name` the name of the path
-- of a URL.
pub mod Safe
use data_assistant.Base.Json.{pos, int}
use data_assistant.Base.Text.{is_empty, Python}
use Prim.Native.Char.{code, Char}
use data_assistant.Base.{
  none, ◌||◌, true, some, ◌&&◌, ◌<>◌, leb, ◌==◌, false, if◌then◌else◌, Option, String, Bool, ℕ,
}

-- `[A-Za-z0-9._-]`
unfoldable pub is_safe : ℕ → Bool
is_safe c =
    (leb b'A' c && leb c b'Z')
    || (leb b'a' c && leb c b'z')
    || (leb b'0' c && leb c b'9')
    || (c == b'.')
    || (c == b'_')
    || (c == b'-')

unfoldable pub is_trimmed : ℕ → Bool
is_trimmed c = (c == b'.') || (c == b'_')

-- `re.sub(r"[^A-Za-z0-9._-]+", "_", name)`; the flag tells whether the character before was
-- replaced.
unfoldable pub squash : Bool → String → String
unfolding is_safe
squash replaced String.[] = String.[]
squash replaced (String.◌∷◌ c s) =
    let kept = squash false s in
    let rest = squash true s in
    if is_safe (code c) then String.◌∷◌ c kept else if replaced then rest else String.◌∷◌ "_" rest

-- `.strip("._")`
unfoldable pub trim_start : String → String
unfolding is_trimmed
trim_start String.[] = String.[]
trim_start (String.◌∷◌ c s) =
    let rest = trim_start s in if is_trimmed (code c) then rest else String.◌∷◌ c s

unfoldable pub put_unless : Char → String → String
unfolding is_trimmed
put_unless c String.[] = if is_trimmed (code c) then String.[] else String.◌∷◌ c String.[]
put_unless c (String.◌∷◌ d s) = String.◌∷◌ c (String.◌∷◌ d s)

unfoldable pub trim_end : String → String
unfolding put_unless
trim_end String.[] = String.[]
trim_end (String.◌∷◌ c s) = put_unless c (trim_end s)

or_text : String → String → String
or_text String.[] default = default
or_text (String.◌∷◌ c s) default = String.◌∷◌ c s

unfoldable pub safe_filename : String → String
unfolding trim_end trim_start squash or_text
safe_filename name = or_text (trim_end (trim_start (squash false name))) "image.bin"

module _ (py : Python) (url_name : String → String) where
  index_text : ℕ → String
  index_text n = py.text_of (int (pos n))

  non_empty : Option String → Option String
  non_empty none = none
  non_empty (some s) = if is_empty s then none else some s

  from_url : ℕ → Option String → String
  unfolding safe_filename index_text
  from_url fallback_index none = "image_" <> index_text fallback_index <> ".bin"
  from_url fallback_index (some url) =
      if is_empty (url_name url)
      then "image_" <> index_text fallback_index <> ".bin"
      else safe_filename (url_name url)

  unfoldable pub choose_filename : Option String → ℕ → Option String → String
  unfolding from_url safe_filename non_empty
  choose_filename filename fallback_index url = elim (non_empty filename) [
    | some name ↦ safe_filename name
    | none ↦ from_url fallback_index (non_empty url)
  ]

  unfoldable pub build_image_save_path :
      (String → String → String)
      → String
      → String
      → String
      → String
      → String
      → ℕ
      → Option String
      → Option String
      → String
  unfolding choose_filename index_text
  build_image_save_path join save_root ts chat_type chat_id message_id index filename source_url =
      join (join (join save_root chat_type) chat_id) (
        ts
        <> "_"
        <> message_id
        <> "_"
        <> index_text index
        <> "_"
        <> choose_filename filename index source_url)
