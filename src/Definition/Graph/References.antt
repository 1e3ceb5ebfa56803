-- ===== src/Definition/Graph/References.antt =====
-- `validate_transition_references` of src/domain/definition/graph/transition_validation.rs, and the
-- maps that `validate_graph` builds.
use svc_workflow_kernel.Prelude.{ℤ, not, List, ◌++◌, map, get, is_some, flat_map, push_if, ◌==◌}
use svc_workflow_kernel.Definition.Model.{
  Uuid, NodeDefinition, TransitionDefinition, WorkflowGraph, GraphValidationError,
  transition_source_missing, transition_target_missing, self_loop,
}

abbrev pub nodes_by_id : WorkflowGraph → List (Uuid × NodeDefinition)
nodes_by_id g = map (λ n. (n.node_id, n)) g.nodes

abbrev pub transitions_by_id : WorkflowGraph → List (Uuid × TransitionDefinition)
transitions_by_id g = map (λ t. (t.transition_id, t)) g.transitions

abbrev pub node_order_indices : WorkflowGraph → List (Uuid × ℤ)
node_order_indices g = map (λ n. (n.node_id, n.order_index)) g.nodes

unfoldable pub missing_errors : WorkflowGraph → TransitionDefinition → List GraphValidationError
missing_errors g t =
    push_if (not (is_some (get (nodes_by_id g) t.source_node_id)))
      (record { code = transition_source_missing; subject = t.transition_key })
    ++ push_if (not (is_some (get (nodes_by_id g) t.target_node_id)))
        (record { code = transition_target_missing; subject = t.transition_key })

unfoldable pub self_loop_errors : TransitionDefinition → List GraphValidationError
self_loop_errors t =
    push_if (t.source_node_id == t.target_node_id)
      (record { code = self_loop; subject = t.transition_key })

unfoldable pub validate_transition_references : WorkflowGraph → List GraphValidationError
validate_transition_references g =
    flat_map (missing_errors g) g.transitions ++ flat_map self_loop_errors g.transitions
