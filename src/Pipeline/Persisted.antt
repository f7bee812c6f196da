-- ===== src/Pipeline/Persisted.antt =====
-- What is left of an event, and how many of its images are counted.
use data_assistant.Pipeline.Process.{process_image}
use data_assistant.Pipeline.Dedup.{process_image-IsDeduplicated}
use data_assistant.Pipeline.Told.{Told}
use data_assistant.Images.Rows.{IsDeduplicated}
use data_assistant.Base.Json.{ℤ, Fields}
use data_assistant.Events.{insert_event, MessageColumns, EventColumns, MessageRow, EventRow}
use data_assistant.Contract.{Codec}
use data_assistant.Pipeline.Image.{Settings, Services, World}
use data_assistant.Napcat.Event.{ImageSegment, OneBotEvent}
use data_assistant.Base.Text.{Python}
use data_assistant.Base.{
  false, true, none, List, Bool, Option, String, [], ◌∷◌, ◌<◌, ◌⊎◌, ◌++◌, ◌+◌, ◌≡◌, length,
  if◌then◌else◌, ℕ, some,
}
use data_assistant.Pipeline.Store.{done, escaped, Finished}
use data_assistant.Pipeline.Persist.{
  persist_at, with_world, event_columns, message_columns, after_event, persist_event, new_job,
  count_event, store_event, services, services, process_images, and_then, Turn, is_message, Log,
  db_failed, persisted,
}

-- All images of a list are counted if the loop ends, and fewer if an exception ends it.
abbrev pub Counted : ℕ → World → Finished × World → Type 0
Counted n w (done, w') = length w'.metrics ≡ length w.metrics + n
Counted n w (escaped, w') = length w'.metrics < length w.metrics + n

-- The event has a row with the next id and its columns, and is counted. If it is a message, and the
-- database takes that, its message has a row that names the event's, and else no row. If it is a message,
-- its images are processed.
pub record IsStored (is_chat message_fails : Bool) (event : OneBotEvent) (columns : EventColumns)
    (log : Log) (o : Finished × Log) : Type 0 where
  pub row : EventRow
  pub rows : o.1.events.rows ≡ log.events.rows ++ row ∷ []
  pub id : row.id ≡ log.events.next_id
  pub columns_kept : row.columns ≡ columns
  pub metrics : o.1.metrics ≡ log.metrics ++ (persisted, event.post_type) ∷ []
  pub messages :
      (((is_chat ≡ false) ⊎ (message_fails ≡ true)) × (o.1.messages ≡ log.messages))
      ⊎ ((is_chat ≡ true)
          × (message_fails ≡ false)
          × ((m : MessageRow) × (o.1.messages.rows ≡ log.messages.rows ++ m ∷ [])
              × (m.columns ≡ message_columns log.events.next_id event columns)))
  pub images : Counted (if is_chat then length event.images else 0) log.world (o.0, o.1.world)

-- With the event's time as text: the database refuses a column or the insertion, or the event is
-- stored.
abbrev pub PersistedAt :
    Bool × Bool → OneBotEvent → Option EventColumns → Log → Finished × Log → Type 0
PersistedAt event_faults event columns log o =
    (((columns ≡ none) ⊎ (event_faults.0 ≡ true))
      × (o ≡ (done, record log { metrics = log.metrics ++ (db_failed, event.post_type) ∷ [] })))
    ⊎ ((event_faults.0 ≡ false)
        × ((cs : EventColumns) × (columns ≡ some cs)
            × IsStored (is_message event.post_type) event_faults.1 event cs log o))

-- The timestamp is out of range and raises, or the database is asked.
abbrev pub Persisted :
    (ℤ → Option String) → Bool × Bool → OneBotEvent → Log → Finished × Log → Type 0
Persisted timestamp event_faults event log o =
    ((timestamp event.time ≡ none) × (o ≡ (escaped, log)))
    ⊎ ((event_time : String) × (timestamp event.time ≡ some event_time)
        × PersistedAt event_faults event (event_columns event_time event) log o)

module _ (py : Python) (c : Codec) (sv : Services) (settings : Settings) (turns : ℕ → Turn)
    (hash_of : Fields → String) (timestamp : ℤ → Option String) (event_faults : Bool × Bool) where
  module _ (event_id : ℕ) (event : OneBotEvent) where
    abbrev called : Turn → Services
    called = services py c sv settings turns hash_of timestamp event_faults

    abbrev step : ImageSegment → World → Finished × World
    step image w =
        process_image py c (called (turns image.seq)) settings (turns image.seq).faults
          (new_job event_id event image (turns image.seq)) image w

    and_then-IsDeduplicated :
        (o : Finished × World) (rest : World → Finished × World)
        → IsDeduplicated o.1.images
        → ((w : World) → IsDeduplicated w.images → IsDeduplicated (rest w).1.images)
        → IsDeduplicated (and_then o rest).1.images
    unfolding and_then
    and_then-IsDeduplicated (escaped, w) rest h k = h
    and_then-IsDeduplicated (done, w) rest h k = k w h

    process_images-IsDeduplicated :
        (images : List ImageSegment) (w : World)
        → IsDeduplicated w.images
        → IsDeduplicated
            (process_images py c sv settings turns hash_of timestamp event_faults event_id event
              images w).1.images
    unfolding process_images
    process_images-IsDeduplicated [] w h = h
    process_images-IsDeduplicated (image ∷ images) w h =
        let turn = turns image.seq in
        and_then-IsDeduplicated (step image w)
          (process_images py c sv settings turns hash_of timestamp event_faults event_id event
            images)
          (process_image-IsDeduplicated py c (called turn) settings turn.faults
            (new_job event_id event image turn) image w h)
          (process_images-IsDeduplicated images)

  module _ (event : OneBotEvent) (columns : EventColumns) (log : Log) where
    abbrev pub the_row : EventRow
    the_row = record {
      id = log.events.next_id;
      columns = columns;
      payload_hash = hash_of columns.raw;
    }

    abbrev pub new_log : Log
    new_log =
        count_event persisted event.post_type
          (record log { events = (insert_event hash_of columns log.events).1 })

    abbrev pub the_message : MessageColumns
    the_message = message_columns log.events.next_id event columns

  kept_if :
      (b : Bool) (x y : Finished × Log)
      → IsDeduplicated x.1.world.images
      → IsDeduplicated y.1.world.images
      → IsDeduplicated (if b then x else y).1.world.images
  kept_if true x y h k = h
  kept_if false x y h k = k

  store_event-IsDeduplicated :
      (event : OneBotEvent) (columns : Option EventColumns) (log : Log)
      → IsDeduplicated log.world.images
      → IsDeduplicated
          (store_event py c sv settings turns hash_of timestamp event_faults event columns
            log).1.world.images
  unfolding store_event after_event insert_event with_world count_event
  store_event-IsDeduplicated event none log h = h
  store_event-IsDeduplicated event (some columns) log h = kept_if event_faults.0 _ _ h (
      kept_if (is_message event.post_type) _ _
        (process_images-IsDeduplicated log.events.next_id event event.images log.world h) h)

  persist_at-IsDeduplicated :
      (event : OneBotEvent) (event_time : Option String) (log : Log)
      → IsDeduplicated log.world.images
      → IsDeduplicated
          (persist_at py c sv settings turns hash_of timestamp event_faults event event_time
            log).1.world.images
  unfolding persist_at
  persist_at-IsDeduplicated event none log h = h
  persist_at-IsDeduplicated event (some event_time) log h =
      store_event-IsDeduplicated event (event_columns event_time event) log h

  -- If no two saved images have the same hash, and ids are unique and below the sequence, then this
  -- is still so after an event is persisted.
  pub persist_event-IsDeduplicated :
      (event : OneBotEvent) (log : Log)
      → IsDeduplicated log.world.images
      → IsDeduplicated
          (persist_event py c sv settings turns hash_of timestamp event_faults event
            log).1.world.images
  unfolding persist_event
  persist_event-IsDeduplicated event log h =
      persist_at-IsDeduplicated event (timestamp event.time) log h
