-- ===== src/Transition.antt =====
-- The atomic execution of a workflow transition:
-- src/store/postgres/workflow_instance_repository/transition_*.rs.
pub mod Error
pub mod Command
pub mod Receipt
pub mod Reads
pub mod Submission
pub mod Checks
pub mod Facts
pub mod Execute
pub mod History
pub mod Small
mod Examples
