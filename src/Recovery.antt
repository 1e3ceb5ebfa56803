-- ===== src/Recovery.antt =====
-- The administrative recovery commands: src/store/postgres/admin_recovery_repository.
pub mod Error
pub mod Receipt
pub mod Authorization
mod Examples
