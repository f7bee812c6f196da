-- ===== src/Worker/Resolve.antt =====
-- `_resolve_task_image_path`. The search root, its test and the files that match a pattern are
-- parameters, as are the hash and the age of a file. Each of these calls may raise, which nothing in the
-- function catches: a search is `none` if it raises, and else it has a path or has none.
pub mod Found
use data_assistant.Outbox.Rows.{map_option}
use data_assistant.Contract.{TaskV2}
use data_assistant.Base.Json.{str, int, get, Json}
use data_assistant.Base.Text.{py_str, truthy, is_empty, converted, strip, Converted, Python}
use data_assistant.Base.{
  ◌||◌, ltb, str_eq, not, [], ◌&&◌, ◌<>◌, none, ℕ, some, ◌∷◌, Option, Bool, List, if◌then◌else◌,
  String,
}
use data_assistant.Tagger.Batch.{FileSystem}

pub record Folder : Type 0 where
  -- `save_root`, and the folder of a chat below it.
  pub save_root : String
  pub chat_folder : String → String → String
  pub is_folder : String → Bool
  -- Whether `expanduser`, `exists`, `is_file` or `is_dir` raises for a path, and whether `resolve` does.
  pub probe_raises : String → Bool
  pub resolve_raises : String → Bool
  -- `glob`, the hash of the bytes that are read, and `st_mtime`; `none` if the call raises.
  pub glob : String → String → Option (List String)
  pub sha256 : String → Option String
  pub mtime : String → Option ℕ

abbrev pub Search : Type 0
Search = Option (Option String)

-- The first of the newest files, as a stable sort puts it first, which asks for all times.
unfoldable pub newest_from : Folder → String → ℕ → List String → Option String
newest_from folder best time [] = some best
newest_from folder best time (path ∷ paths) = elim (folder.mtime path) [
  | none ↦ none
  | some t ↦
      if ltb time t then newest_from folder path t paths else newest_from folder best time paths
]

unfoldable pub newest : Folder → String → List String → Search
unfolding newest_from
newest folder path paths = elim (folder.mtime path) [
  | none ↦ none
  | some time ↦ elim (newest_from folder path time paths) [
    | none ↦ none
    | some best ↦ some (some best)
  ]
]

unfoldable pub with_hash : Folder → String → List String → Search
with_hash folder sha [] = some none
with_hash folder sha (path ∷ paths) = elim (folder.sha256 path) [
  | none ↦ none
  | some hash ↦ if str_eq hash sha then some (some path) else with_hash folder sha paths
]

unfoldable pub files_in : FileSystem → Folder → List String → Option (List String)
files_in fs folder [] = some []
files_in fs folder (path ∷ paths) =
    if folder.probe_raises path then none else elim (files_in fs folder paths) [
      | none ↦ none
      | some files ↦ some (if fs.is_file path then path ∷ files else files)
    ]

-- The candidate with the task's hash, or else the newest.
unfoldable pub choose : Folder → String → List String → Search
unfolding newest with_hash
choose folder sha [] = some none
choose folder sha (path ∷ paths) =
    if is_empty (strip sha)
    then newest folder path paths
    else elim (with_hash folder (strip sha) (path ∷ paths)) [
      | none ↦ none
      | some (some hit) ↦ some (some hit)
      | some none ↦ newest folder path paths
    ]

module _ (py : Python) (fs : FileSystem) (folder : Folder) where
  -- `str(candidate.resolve())`
  resolved : Search → Search
  resolved none = none
  resolved (some none) = some none
  resolved (some (some candidate)) =
      if folder.resolve_raises candidate then none else some (some (fs.resolve candidate))

  -- A path that names a file.
  unfoldable pub existing : String → Search
  unfolding resolved
  existing path =
      let candidate = fs.expand path in
      if folder.probe_raises path
      then none
      else if fs.exists candidate && fs.is_file candidate
      then resolved (some (some candidate))
      else some none

  legacy_path : Json → Search
  unfolding existing
  legacy_path (str s) = if is_empty (strip s) then some none else existing (strip s)
  legacy_path _ = some none

  own_path : Option String → Search
  unfolding existing
  own_path none = some none
  own_path (some path) = if is_empty path then some none else existing path

  -- `str(v or "").strip()`
  text_or_empty : Json → String
  text_or_empty v = strip (if truthy py v then py_str py v else "")

  number_text : Converted → Option String
  number_text (converted n) = some (py.text_of (int n))
  number_text _ = none

  -- The number of the image in its message, as text.
  seq_text : Json → Option String
  unfolding number_text
  seq_text (int n) = some (py.text_of (int n))
  seq_text (str s) = number_text (py.int_of_text s)
  seq_text _ = none

  pattern_of : String → Option String → String
  pattern_of message_id none = "*_" <> message_id <> "_*"
  pattern_of message_id (some seq) = "*_" <> message_id <> "_" <> seq <> "_*"

  search_root : String → String → String
  search_root chat_type chat_id =
      if is_empty chat_type || is_empty chat_id
      then folder.save_root
      else folder.chat_folder chat_type chat_id

  choose_in : String → Option (List String) → Search
  unfolding choose
  choose_in sha none = none
  choose_in sha (some files) = choose folder sha files

  candidates : Option (List String) → Option (List String)
  unfolding files_in
  candidates none = none
  candidates (some paths) = files_in fs folder paths

  search_in : String → String → Option String → String → Search
  unfolding choose_in candidates pattern_of resolved
  search_in root message_id seq sha =
      if is_empty message_id
      then some none
      else if folder.probe_raises root
      then none
      else if not (fs.exists root && folder.is_folder root)
      then some none
      else resolved (choose_in sha (candidates (folder.glob root (pattern_of message_id seq))))

  -- The search by the ids of the message.
  unfoldable pub search_files : TaskV2 → Search
  unfolding text_or_empty seq_text search_root search_in get
  search_files task =
      search_in
        (search_root (text_or_empty (get "chat_type" task.context))
          (text_or_empty (get "chat_id" task.context)))
        (text_or_empty (get "message_id" task.context)) (seq_text (get "seq" task.context))
        task.sha256

  or_path : Search → Search → Search
  or_path none next = none
  or_path (some (some path)) next = some (some path)
  or_path (some none) next = next

  unfoldable pub resolve_task_image_path : TaskV2 → Search
  unfolding own_path legacy_path search_files or_path get
  resolve_task_image_path task =
      or_path (own_path task.image_path)
        (or_path (legacy_path (get "image_path" task.context)) (search_files task))
