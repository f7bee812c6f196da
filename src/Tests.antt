-- ===== src/Tests.antt =====
-- Inputs at which the theorems are applied, and the theorems applied to them.
pub mod Inputs
pub mod Tagging
pub mod Contracts
pub mod Relaying
pub mod Batches
pub mod Worker
pub mod Handing
pub mod Refreshing
pub mod Persisting
pub mod Exporting
pub mod Interleaving
pub mod Settings
pub mod Connecting
