-- ===== src/Replay.antt =====
-- The replay of an instance's events: src/store/postgres/admin_recovery_repository.
pub mod Facts
pub mod Fields
pub mod Import
pub mod State
pub mod Apply
pub mod Fold
pub mod Agrees
pub mod Snapshot
mod Examples
