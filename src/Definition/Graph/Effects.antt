-- ===== src/Definition/Graph/Effects.antt =====
-- The rules for RETURN and TERMINATE transitions and for TERMINAL nodes, of
-- src/domain/definition/graph/transition_validation.rs.
use svc_workflow_kernel.Prelude.{
  ℤ, Option, none, some, Bool, true, false, not, List, [], ◌++◌, get, is_empty, filter, flat_map,
  push_if, option_eq, lebℤ, ◌==◌, if◌then◌else◌,
}
use svc_workflow_kernel.Enums.{TransitionEffect, return, terminate, is_terminal}
use svc_workflow_kernel.Definition.Model.{
  NodeDefinition, TransitionDefinition, WorkflowGraph, GraphValidationError, return_to_terminal,
  return_not_backward, return_is_primary, terminate_is_primary, terminate_to_non_terminal,
  terminal_has_outgoing,
}
use svc_workflow_kernel.Definition.Graph.References.{nodes_by_id, node_order_indices}

abbrev pub is_return : TransitionEffect → Bool
is_return return = true
is_return _ = false

abbrev pub is_terminate : TransitionEffect → Bool
is_terminate terminate = true
is_terminate _ = false

-- `Some(trans.transition_id) == source_node.primary_advance_transition_id`
abbrev pub is_primary_of : TransitionDefinition → Option NodeDefinition → Bool
is_primary_of t none = false
is_primary_of t (some source) =
    option_eq (some t.transition_id) source.primary_advance_transition_id

abbrev pub targets_terminal : Option NodeDefinition → Bool
targets_terminal none = false
targets_terminal (some target) = is_terminal target.node_type

abbrev pub targets_non_terminal : Option NodeDefinition → Bool
targets_non_terminal none = false
targets_non_terminal (some target) = not (is_terminal target.node_type)

-- `(Some(src), Some(tgt))` with `tgt >= src`
abbrev pub not_backward : Option ℤ → Option ℤ → Bool
not_backward (some source) (some target) = lebℤ source target
not_backward _ _ = false

unfoldable pub return_errors : WorkflowGraph → TransitionDefinition → List GraphValidationError
return_errors g t =
    if is_return t.transition_effect
    then push_if (targets_terminal (get (nodes_by_id g) t.target_node_id))
        (record { code = return_to_terminal; subject = t.transition_key })
      ++ (push_if
            (not_backward (get (node_order_indices g) t.source_node_id)
              (get (node_order_indices g) t.target_node_id))
            (record { code = return_not_backward; subject = t.transition_key })
          ++ push_if (is_primary_of t (get (nodes_by_id g) t.source_node_id))
              (record { code = return_is_primary; subject = t.transition_key }))
    else []

unfoldable pub validate_return_rules : WorkflowGraph → List GraphValidationError
validate_return_rules g = flat_map (return_errors g) g.transitions

unfoldable pub terminate_errors : WorkflowGraph → TransitionDefinition → List GraphValidationError
terminate_errors g t =
    if is_terminate t.transition_effect
    then push_if (is_primary_of t (get (nodes_by_id g) t.source_node_id))
        (record { code = terminate_is_primary; subject = t.transition_key })
      ++ push_if (targets_non_terminal (get (nodes_by_id g) t.target_node_id))
          (record { code = terminate_to_non_terminal; subject = t.transition_key })
    else []

unfoldable pub validate_terminate_rules : WorkflowGraph → List GraphValidationError
validate_terminate_rules g = flat_map (terminate_errors g) g.transitions

unfoldable pub outgoing_errors : WorkflowGraph → NodeDefinition → List GraphValidationError
outgoing_errors g node =
    if is_terminal node.node_type
    then push_if (not (is_empty (filter (λ t. t.source_node_id == node.node_id) g.transitions)))
        (record { code = terminal_has_outgoing; subject = node.node_key })
    else []

unfoldable pub validate_terminal_outgoing : WorkflowGraph → List GraphValidationError
validate_terminal_outgoing g = flat_map (outgoing_errors g) g.nodes
