-- ===== src/Tagger.antt =====
-- processor_service/service/chat_image/tagger_pipeline.py: the queue of images that wait for tags.
pub mod Queue
pub mod Batch
pub mod Run
