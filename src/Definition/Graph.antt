-- ===== src/Definition/Graph.antt =====
-- `validate_graph` of src/domain/definition/graph/mod.rs, over the rules of the children.
pub mod Nodes
pub mod Assignees
pub mod References
pub mod Trunk
pub mod Effects
pub mod Rules
mod Accepts
pub mod TrunkWalk
mod CycleWalk
pub mod Exact
pub mod Ends
mod Examples
use svc_workflow_kernel.Prelude.{
  ℕ, Option, none, some, Bool, true, false, List, [], ◌∷◌, ◌++◌, length, is_empty, head?, contains,
  flat_map, push_if, not,
}
use svc_workflow_kernel.Definition.Model.{
  Uuid, NodeDefinition, WorkflowGraph, GraphValidationError, ValidationResult, node_not_reachable,
}
use svc_workflow_kernel.Definition.Reachable.{compute_directed_reachable}
use Nodes.{draft_nodes, validate_node_rules}
use Assignees.{validate_assignee_rules}
use References.{validate_transition_references}
use Trunk.{validate_primary_trunk}
use Effects.{validate_return_rules, validate_terminate_rules, validate_terminal_outgoing}

-- The body of the loop of `validate_directed_reachability`.
unfoldable pub unreachable_errors : List Uuid → NodeDefinition → List GraphValidationError
unreachable_errors reachable node =
    push_if (not (contains reachable node.node_id))
      (record { code = node_not_reachable; subject = node.node_key })

reachability_from : WorkflowGraph → Option NodeDefinition → Option (List GraphValidationError)
reachability_from g none = some []
reachability_from g (some draft) = elim (compute_directed_reachable g.transitions draft.node_id) [
  | none ↦ none
  | some reachable ↦ some (flat_map (unreachable_errors reachable) g.nodes)
]

unfoldable pub validate_directed_reachability : WorkflowGraph → Option (List GraphValidationError)
unfolding reachability_from
validate_directed_reachability g = reachability_from g (head? (draft_nodes g))

abbrev result : List GraphValidationError → ValidationResult
result errors = record { valid = is_empty errors; errors = errors }

-- `keys` is the order in which the map `nodes_by_id` yields its keys, `fuel` bounds the walk along
-- the trunk; `none` means that a loop has not ended.
unfoldable pub validate_graph : List Uuid → ℕ → WorkflowGraph → Option ValidationResult
validate_graph keys fuel g = elim (validate_primary_trunk keys fuel g) [
  | none ↦ none
  | some trunk_errors ↦ elim (validate_directed_reachability g) [
    | none ↦ none
    | some unreachable ↦ some (
        result (
          validate_node_rules g
          ++ (validate_assignee_rules g
              ++ (validate_transition_references g
                  ++ (trunk_errors
                      ++ (unreachable
                          ++ (validate_return_rules g
                              ++ (validate_terminate_rules g ++ validate_terminal_outgoing g))))))))
  ]
]
