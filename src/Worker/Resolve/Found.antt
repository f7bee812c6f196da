-- ===== src/Worker/Resolve/Found.antt =====
-- What is found is a file.
use data_assistant.Base.Json.{str, get, Json}
use data_assistant.Contract.{TaskV2}
use data_assistant.Tagger.Batch.{FileSystem}
use data_assistant.Base.Text.{is_empty, strip, Python}
use data_assistant.Worker.Resolve.{
  candidates, resolved, Search, choose_in, newest_from, seq_text, text_or_empty, search_root,
  search_in, own_path, search_files, legacy_path, resolve_task_image_path, existing, or_path,
  Folder, with_hash, files_in, newest, choose,
}
use data_assistant.Base.{
  ℕ, false, if◌then◌else◌, arith, inr, Bool, ltb, [], ◌&&◌, none, true, inl, str_eq, some, ◌∷◌, ◌≡◌,
  Bool-cases, String, Option, List, refl,
}

-- The path is that of a file, as the file system resolves it.
abbrev pub IsFound : FileSystem → Search → Type 0
IsFound fs none = Unit
IsFound fs (some none) = Unit
IsFound fs (some (some path)) = (q : String) × (path ≡ fs.resolve q) × (fs.is_file q ≡ true)

-- All paths are files.
abbrev AreFiles : FileSystem → List String → Type 0
AreFiles fs [] = Unit
AreFiles fs (path ∷ paths) = (fs.is_file path ≡ true) × AreFiles fs paths

abbrev AllFiles : FileSystem → Option (List String) → Type 0
AllFiles fs none = Unit
AllFiles fs (some paths) = AreFiles fs paths

files_in-AllFiles :
    (fs : FileSystem) (folder : Folder) (paths : List String)
    → AllFiles fs (files_in fs folder paths)
unfolding files_in
files_in-AllFiles fs folder [] = tt
files_in-AllFiles fs folder (path ∷ paths) = elim (Bool-cases (folder.probe_raises path)) [
  | inl e ↦ rw e tt
  | inr e ↦ rw e (of_rest (files_in fs folder paths) (files_in-AllFiles fs folder paths))
]
  where
    of_rest :
        (o : Option (List String))
        → AllFiles fs o
        → AllFiles fs (elim o [
          | none ↦ none
          | some files ↦ some (if fs.is_file path then path ∷ files else files)
        ])
    of_rest none h = tt
    of_rest (some files) h = elim (Bool-cases (fs.is_file path)) [
      | inl e ↦ rw e (e, h)
      | inr e ↦ rw e h
    ]

abbrev OnFile : FileSystem → Search → Type 0
OnFile fs none = Unit
OnFile fs (some none) = Unit
OnFile fs (some (some path)) = fs.is_file path ≡ true

abbrev IsFile : FileSystem → Option String → Type 0
IsFile fs none = Unit
IsFile fs (some path) = fs.is_file path ≡ true

newest_from-IsFile :
    (fs : FileSystem) (folder : Folder) (best : String) (time : ℕ) (paths : List String)
    → fs.is_file best ≡ true
    → AreFiles fs paths
    → IsFile fs (newest_from folder best time paths)
unfolding newest_from
newest_from-IsFile fs folder best time [] b h = b
newest_from-IsFile fs folder best time (path ∷ paths) b h =
    of_time (folder.mtime path) (λ t. newest_from-IsFile fs folder path t paths h.0 h.1)
      (newest_from-IsFile fs folder best time paths b h.1)
  where
    of_time :
        (o : Option ℕ)
        → ((t : ℕ) → IsFile fs (newest_from folder path t paths))
        → IsFile fs (newest_from folder best time paths)
        → IsFile fs (elim o [
          | none ↦ none
          | some t ↦
              if ltb time t
              then newest_from folder path t paths
              else newest_from folder best time paths
        ])
    of_time none newer kept = tt
    of_time (some t) newer kept = elim (Bool-cases (ltb time t)) [
      | inl l ↦ rw l (newer t)
      | inr l ↦ rw l kept
    ]

newest-OnFile :
    (fs : FileSystem) (folder : Folder) (path : String) (paths : List String)
    → fs.is_file path ≡ true
    → AreFiles fs paths
    → OnFile fs (newest folder path paths)
unfolding newest
newest-OnFile fs folder path paths b h = of_time (folder.mtime path)
  where
    of_best :
        (o : Option String)
        → IsFile fs o
        → OnFile fs (elim o [ none ↦ none | some best ↦ some (some best) ])
    of_best none k = tt
    of_best (some best) k = k

    of_time :
        (o : Option ℕ)
        → OnFile fs (elim o [
          | none ↦ none
          | some time ↦ elim (newest_from folder path time paths) [
            | none ↦ none
            | some best ↦ some (some best)
          ]
        ])
    of_time none = tt
    of_time (some time) =
        of_best (newest_from folder path time paths)
          (newest_from-IsFile fs folder path time paths b h)

with_hash-OnFile :
    (fs : FileSystem) (folder : Folder) (sha : String) (paths : List String)
    → AreFiles fs paths
    → OnFile fs (with_hash folder sha paths)
unfolding with_hash
with_hash-OnFile fs folder sha [] h = tt
with_hash-OnFile fs folder sha (path ∷ paths) h =
    of_hash (folder.sha256 path) (with_hash-OnFile fs folder sha paths h.1)
  where
    of_hash :
        (o : Option String)
        → OnFile fs (with_hash folder sha paths)
        → OnFile fs (elim o [
          | none ↦ none
          | some hash ↦ if str_eq hash sha then some (some path) else with_hash folder sha paths
        ])
    of_hash none rest = tt
    of_hash (some hash) rest = elim (Bool-cases (str_eq hash sha)) [
      | inl f ↦ rw f h.0
      | inr f ↦ rw f rest
    ]

choose-OnFile :
    (fs : FileSystem) (folder : Folder) (sha : String) (paths : List String)
    → AreFiles fs paths
    → OnFile fs (choose folder sha paths)
unfolding choose
choose-OnFile fs folder sha [] h = tt
choose-OnFile fs folder sha (path ∷ paths) h = of_test (is_empty (strip sha))
  where
    latest : OnFile fs (newest folder path paths)
    latest = newest-OnFile fs folder path paths h.0 h.1

    of_hit :
        (o : Search)
        → OnFile fs o
        → OnFile fs (elim o [
          | none ↦ none
          | some (some hit) ↦ some (some hit)
          | some none ↦ newest folder path paths
        ])
    of_hit none f = tt
    of_hit (some (some hit)) f = f
    of_hit (some none) f = latest

    of_test :
        (b : Bool)
        → OnFile fs (
            if b
            then newest folder path paths
            else elim (with_hash folder (strip sha) (path ∷ paths)) [
              | none ↦ none
              | some (some hit) ↦ some (some hit)
              | some none ↦ newest folder path paths
            ])
    of_test true = latest
    of_test false = of_hit _ (with_hash-OnFile fs folder (strip sha) (path ∷ paths) h)

module _ (py : Python) (fs : FileSystem) (folder : Folder) where
  resolved-IsFound : (o : Search) → OnFile fs o → IsFound fs (resolved py fs folder o)
  unfolding resolved
  resolved-IsFound none h = tt
  resolved-IsFound (some none) h = tt
  resolved-IsFound (some (some q)) h = elim (Bool-cases (folder.resolve_raises q)) [
    | inl e ↦ rw e tt
    | inr e ↦ rw e (q, refl, h)
  ]

  existing-IsFound : (path : String) → IsFound fs (existing py fs folder path)
  unfolding existing
  existing-IsFound path = elim (Bool-cases (folder.probe_raises path)) [
    | inl g ↦ rw g tt
    | inr g ↦ elim (Bool-cases (fs.exists (fs.expand path) && fs.is_file (fs.expand path))) [
      | inl e ↦ rw (g, e) (resolved-IsFound (some (some (fs.expand path))) (ground (arith, e)))
      | inr e ↦ rw (g, e) tt
    ]
  ]

  or_path-IsFound :
      (a b : Search) → IsFound fs a → IsFound fs b → IsFound fs (or_path py fs folder a b)
  unfolding or_path
  or_path-IsFound none b f g = tt
  or_path-IsFound (some none) b f g = g
  or_path-IsFound (some (some p)) b f g = f

  own_path-IsFound : (o : Option String) → IsFound fs (own_path py fs folder o)
  unfolding own_path
  own_path-IsFound none = tt
  own_path-IsFound (some p) = elim (Bool-cases (is_empty p)) [
    | inl e ↦ rw e tt
    | inr e ↦ rw e (existing-IsFound p)
  ]

  legacy_path-IsFound : (v : Json) → IsFound fs (legacy_path py fs folder v)
  unfolding legacy_path
  legacy_path-IsFound (str s) = elim (Bool-cases (is_empty (strip s))) [
    | inl e ↦ rw e tt
    | inr e ↦ rw e (existing-IsFound (strip s))
  ]
  legacy_path-IsFound _ = tt

  candidates-AllFiles : (o : Option (List String)) → AllFiles fs (candidates py fs folder o)
  unfolding candidates
  candidates-AllFiles none = tt
  candidates-AllFiles (some paths) = files_in-AllFiles fs folder paths

  choose_in-OnFile :
      (sha : String) (o : Option (List String))
      → AllFiles fs o
      → OnFile fs (choose_in py fs folder sha o)
  unfolding choose_in
  choose_in-OnFile sha none h = tt
  choose_in-OnFile sha (some files) h = choose-OnFile fs folder sha files h

  search_in-IsFound :
      (root message_id : String) (seq : Option String) (sha : String)
      → IsFound fs (search_in py fs folder root message_id seq sha)
  unfolding search_in
  search_in-IsFound root message_id seq sha = elim (Bool-cases (is_empty message_id)) [
    | inl e ↦ rw e tt
    | inr e ↦ elim (Bool-cases (folder.probe_raises root)) [
      | inl g ↦ rw (e, g) tt
      | inr g ↦ elim (Bool-cases (fs.exists root && folder.is_folder root)) [
        | inl f ↦ rw (e, g, f) (resolved-IsFound _ (choose_in-OnFile sha _ (candidates-AllFiles _)))
        | inr f ↦ rw (e, g, f) tt
      ]
    ]
  ]

  search_files-IsFound : (task : TaskV2) → IsFound fs (search_files py fs folder task)
  unfolding search_files
  search_files-IsFound task =
      search_in-IsFound
        (search_root py fs folder (text_or_empty py fs folder (get "chat_type" task.context))
          (text_or_empty py fs folder (get "chat_id" task.context)))
        (text_or_empty py fs folder (get "message_id" task.context))
        (seq_text py fs folder (get "seq" task.context)) task.sha256

  -- The path that a task resolves to is that of a file, as the file system resolves it.
  pub resolve_task_image_path-IsFound :
      (task : TaskV2) → IsFound fs (resolve_task_image_path py fs folder task)
  unfolding resolve_task_image_path
  resolve_task_image_path-IsFound task =
      or_path-IsFound (own_path py fs folder task.image_path) _ (own_path-IsFound task.image_path) (
        or_path-IsFound (legacy_path py fs folder (get "image_path" task.context)) _
          (legacy_path-IsFound (get "image_path" task.context)) (search_files-IsFound task))
