-- ===== src/Lib.antt =====
-- The chat image pipeline of data-assistant. A logger service receives OneBot events, stores each
-- image and the task that asks for its tags, and publishes the task; a processor service reads the
-- tasks, keeps a queue of images on disk, and has an HTTP service tag them in batches.
--
-- Base       shared names, JSON values, Python's conversions, results that may raise.
-- Contract   contracts/chat_image_task.py: `encode_task` of the logger, `decode_task` of the
--            processor.
-- Tagger     processor_service/service/chat_image/tagger_pipeline.py. Queue is the queue file, the
--            in-flight file and `enqueue_tagger_task_payload`; Batch is `run_http_tagger_batch`; Run is
--            `run_tagger_once` and `run_tagger_until_empty`. The state is a `Disk` that every
--            operation takes and returns.
-- Outbox     logger_service/service/persistence (the dispatch rows, as a list with the sequence's next
--            id) and logger_service/service/chat_image/outbox_relay.py, `relay_once`. HandOver is the end
--            of `_process_image` in logger_service/service/napcat/pipeline.py, Interleaving the two as
--            single steps that may come in any order.
-- Napcat     logger_service/service/napcat: Event is `parse_event` of event.py; Search and Refresh are
--            the searches through a response and the refresh of an image URL in handler.py. Connection
--            is connection.py: the client with its pending calls, Reader the loop as steps in any
--            order, Channels the client that the service uses.
-- Images     the table onebot_message_images and its statements in persistence/repository.py; Events the
--            tables of events and messages, and what fills their columns.
-- Export     logger_service/service/export.py: the query of an export.
-- Config     the four config.py files, as functions of the environment; Database the opening of the
--            pool in persistence/db.py.
-- Download   logger_service/service/chat_image: Retry is downloader.py, Storage is storage.py.
-- Pipeline   logger_service/service/napcat/pipeline.py. Parts is its helpers; Image the download and the
--            refresh of an image; Store what is done with one that was fetched; Process is
--            `_process_image`, Persist is `persist_event`. The state is a `World`, within a `Log`.
-- Nats       logger_service/service/chat_image/nats_publisher.py: Stream is the set-up of the stream,
--            which tagger_worker.py repeats, and Publisher one publish with its connection.
-- Worker     processor_service/service/chat_image/tagger_worker.py: Resolve is the search for a task's
--            image, Message what becomes of a message, Liveness the callbacks and the exit code.
-- Tests      the theorems applied to concrete inputs.
--
-- A function that may raise returns a `Result`, or an `Option` where the exception is not looked
-- at. Parameters stand for what is not in the repository: the JSON codec, the file system, the HTTP
-- client, the message bus, the clock, and the conversions of Python whose tables are not repeated
-- (`Python`). `json.loads` returns a `Json`, whose dictionaries keep their order.
--
-- The loop `run_until_empty` takes fuel: `work` on the disk, the sum of the attempts that the items
-- have left, is less than the fuel that it needs. The stack searches take the size of the
-- response.
--
-- Not modelled: logging, telemetry, the health servers, process start-up, the command line tools, the
-- metadata that Pillow reads, the DDL, and the reading of dates for an export.
pub mod Base
pub mod Contract
pub mod Tagger
pub mod Outbox
pub mod Napcat
pub mod Images
pub mod Config
pub mod Database
pub mod Events
pub mod Export
pub mod Download
pub mod Nats
pub mod Pipeline
pub mod Worker
pub mod Tests
