-- ===== src/Worker.antt =====
-- processor_service/service/chat_image/tagger_worker.py: from a message of the bus to the queue, and
-- the life of the worker's connection.
pub mod Resolve
pub mod Message
pub mod Liveness
