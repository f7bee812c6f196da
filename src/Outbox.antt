-- ===== src/Outbox.antt =====
-- The transactional outbox: the table onebot_nats_dispatches of
-- logger_service/service/persistence/repository.py (its DDL in persistence/db.py), and the relay of
-- logger_service/service/chat_image/outbox_relay.py. Timestamps and ages are whole
-- microseconds, to which the database rounds them; ages are not negative. The payload of a row is what the
-- driver hands back for it: text for a row that the hand-over stored.
pub mod Table
pub mod Rows
pub mod Relay
pub mod Delivery
pub mod Picked
pub mod Recovery
pub mod HandOver
pub mod Interleaving
