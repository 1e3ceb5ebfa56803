-- ===== src/Lifecycle.antt =====
-- The lifecycle of a workflow definition version: src/store/postgres/definition_repository and
-- src/application/definition/lifecycle.
pub mod Error
pub mod Rows
pub mod Digest
pub mod Repository
pub mod Machine
pub mod History
pub mod Schemas
pub mod Publish
mod Examples
