-- ===== src/Pipeline.antt =====
-- logger_service/service/napcat/pipeline.py: what becomes of an event and of each of its images.
pub mod Parts
pub mod Image
pub mod Store
pub mod Process
pub mod Dedup
pub mod Told
pub mod Fetched
pub mod Outcomes
pub mod Persist
pub mod Persisted
