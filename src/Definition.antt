-- ===== src/Definition.antt =====
-- src/domain/definition: the workflow graph, its reachability search and its validation.
pub mod Model
pub mod Reachable
pub mod Graph
