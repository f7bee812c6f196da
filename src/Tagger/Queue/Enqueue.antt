-- ===== src/Tagger/Queue/Enqueue.antt =====
-- What `enqueue_tagger_task_payload` does to the queue.
use data_assistant.Tagger.Queue.Paths.{NodupPaths-append, NodupPaths}
use text.Mathlib.TextPositions.{eq_refl}
use data_assistant.Base.{none, ap, inr, Option, inl, Bool-cases, arith, if◌then◌else◌}
use mathlib.Core.List.{append-nil}
use data_assistant.Tagger.Queue.Files.{items-load, load-saved, queue_of}
use data_assistant.Base.Text.{is_empty, strip}
use data_assistant.Base.Json.{pos, int, str, field, dict, arr, end, obj, get_default, get, Fields}
use data_assistant.Base.{true, [], false, ◌∷◌, refl, ◌++◌, some, ◌≡◌, List, String}
use data_assistant.Tagger.Queue.{
  load, json, Content, save_queue, load_queue, as_dict, Disk, as_str, TaggerConfig, any_path,
  path_of, queue_item, append_item, enqueue, duplicate,
}

path_of-queue_item :
    (p : String) (context : Fields) (now : String) → path_of (queue_item p context now) ≡ some p
unfolding path_of queue_item
path_of-queue_item p context now = refl

any_path-append :
    (p : String) (xs : List Fields) (item : Fields)
    → path_of item ≡ some p
    → any_path p (xs ++ item ∷ []) ≡ true
unfolding any_path
any_path-append p [] item e = rw (e, eq_refl p)
any_path-append p (x ∷ xs) item e = rw (any_path-append p xs item e) (ground arith)

load_queue_twice : (d : Disk) → load_queue (load_queue d).1 ≡ load_queue d
unfolding load_queue load
load_queue_twice d = of_file d.queue
  where
    of_file :
        (f : Option Content)
        → load_queue (load_queue (record d { queue = f })).1 ≡ load_queue (record d { queue = f })
    of_file none = rw (append-nil, append-nil)
    of_file (some (json (arr vs))) = rw (append-nil, append-nil)
    of_file (some _) = rw append-nil

load_queue-save_queue :
    (items : List Fields) (d : Disk) → load_queue (save_queue items d) ≡ (items, save_queue items d)
unfolding load_queue save_queue
load_queue-save_queue items d = rw (load-saved items, append-nil)

module _ (resolve : String → String) (config : TaggerConfig) where
  append_item-queue :
      (p : String) (context : Fields) (now : String) (d : Disk)
      → queue_of (append_item resolve config p context now d).1 ≡ (
          if any_path p (queue_of d)
          then queue_of d
          else queue_of d ++ queue_item p context now ∷ [])
  unfolding append_item load_queue save_queue
  append_item-queue p context now d = elim (Bool-cases (any_path p (queue_of d))) [
    | inl e ↦ rw e (items-load d.queue)
    | inr e ↦ rw e (ap (λ r. r.items) (load-saved _))
  ]

  append_item_twice :
      (p : String) (context : Fields) (now later : String) (d : Disk)
      → append_item resolve config p context later (append_item resolve config p context now d).1
        ≡ (duplicate, (append_item resolve config p context now d).1)
  append_item_twice p context now later d = elim (Bool-cases (any_path p (load_queue d).0)) [
    | inl e ↦ unfold append_item in rw (e, load_queue_twice d, e)
    | inr e ↦
        unfold append_item in
        rw (
          e,
          load_queue-save_queue _ (load_queue d).1,
          any_path-append p (load_queue d).0 (queue_item p context now)
              (path_of-queue_item p context now),
        )
  ]

module _ (resolve : String → String) (config : TaggerConfig) (payload : Fields) (raw : String) where
  -- The payload names an image: its path is text, and not blank.
  pub record NamesImage : Type 0 where
    pub text : as_str (get "image_path" payload) ≡ some raw
    pub full : is_empty (strip raw) ≡ false

  abbrev new_item : String → Fields
  new_item now =
      queue_item (resolve (strip raw)) (as_dict (get_default "context" (obj end) payload)) now

  enqueue_lem :
      (now : String) (d : Disk)
      → NamesImage
      → enqueue resolve config payload now d
        ≡ append_item resolve config
            (resolve (strip raw))
            (as_dict (get_default "context" (obj end) payload))
            now
            d
  unfolding enqueue
  enqueue_lem now d h = rw (h.text, h.full, enqueue)

  -- The queue in terms of `queue_item`.
  queue-enqueue_item :
      (now : String) (d : Disk)
      → NamesImage
      → queue_of (enqueue resolve config payload now d).1 ≡ (
          if any_path (resolve (strip raw)) (queue_of d)
          then queue_of d
          else queue_of d ++ new_item now ∷ [])
  queue-enqueue_item now d h =
      rw (enqueue_lem now d h) (append_item-queue resolve config (resolve (strip raw)) _ now d)

  -- A payload whose path is text and not blank puts one new item at the end of the queue, unless an
  -- item of the queue has the same resolved path; then the queue stays. The item has the resolved
  -- path, the payload's context, the time, no attempt made, and no other key.
  pub queue-enqueue :
      (now : String) (d : Disk)
      → NamesImage
      → queue_of (enqueue resolve config payload now d).1 ≡ (
          if any_path (resolve (strip raw)) (queue_of d)
          then queue_of d
          else queue_of d
            ++ field "image_path" (str (resolve (strip raw))) (
                field "context"
                  (obj (as_dict (get_default "context" (obj end) payload)))
                  (field "enqueued_at" (str now) (field "attempt_count" (int (pos 0)) end)))
              ∷ [])
  unfolding queue_item dict
  queue-enqueue now d h = queue-enqueue_item now d h

  -- The same payload, sent again, is a duplicate, and the second time changes nothing on the disk.
  pub enqueue_twice :
      (now later : String) (d : Disk)
      → NamesImage
      → enqueue resolve config payload later (enqueue resolve config payload now d).1
        ≡ (duplicate, (enqueue resolve config payload now d).1)
  enqueue_twice now later d h =
      rw (enqueue_lem now d h, enqueue_lem later _ h)
        (append_item_twice resolve config (resolve (strip raw)) _ now later d)

  -- Enqueueing keeps the paths of the queue apart.
  pub enqueue-NodupPaths :
      (now : String) (d : Disk)
      → NamesImage
      → NodupPaths (queue_of d)
      → NodupPaths (queue_of (enqueue resolve config payload now d).1)
  enqueue-NodupPaths now d h u =
      rw (queue-enqueue_item now d h)
        (elim (Bool-cases (any_path (resolve (strip raw)) (queue_of d))) [
          | inl e ↦ rw e u
          | inr e ↦ rw e (
              NodupPaths-append (queue_of d) (new_item now) (resolve (strip raw)) u
                (path_of-queue_item (resolve (strip raw)) _ now) e)
        ])

  -- After it, an item of the queue has the path.
  pub any_path-enqueue :
      (now : String) (d : Disk)
      → NamesImage
      → any_path (resolve (strip raw)) (queue_of (enqueue resolve config payload now d).1) ≡ true
  any_path-enqueue now d h = elim (Bool-cases (any_path (resolve (strip raw)) (queue_of d))) [
    | inl e ↦ rw (queue-enqueue_item now d h, e) e
    | inr e ↦
        rw (queue-enqueue_item now d h, e)
          (any_path-append (resolve (strip raw)) (queue_of d) (new_item now)
            (path_of-queue_item (resolve (strip raw)) _ now))
  ]
