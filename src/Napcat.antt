-- ===== src/Napcat.antt =====
-- logger_service/service/napcat: the events, and the refresh of an image URL.
pub mod Refresh
pub mod Connection
pub mod Search
pub mod Event
