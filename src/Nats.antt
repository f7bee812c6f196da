-- ===== src/Nats.antt =====
-- The task bus: the stream that both services set up, and the connection of the publisher.
pub mod Stream
pub mod Publisher
