-- ===== src/Download.antt =====
-- The download of an image and the name of its file: downloader.py and storage.py of
-- logger_service/service/chat_image.
pub mod Retry
pub mod Storage
