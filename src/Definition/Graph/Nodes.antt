-- ===== src/Definition/Graph/Nodes.antt =====
-- `validate_node_rules` of src/domain/definition/graph/validation.rs.
use svc_workflow_kernel.Prelude.{
  ℤ, Bool, false, ◌||◌, List, [], ◌∷◌, ◌++◌, length, is_empty, filter, ltb, eqbℤ, push_if,
  if◌then◌else◌,
}
use svc_workflow_kernel.Enums.{is_draft, is_terminal}
use svc_workflow_kernel.Definition.Model.{
  NodeDefinition, WorkflowGraph, GraphValidationError, min_nodes, no_draft_node,
  multiple_draft_nodes, no_terminal_node, duplicate_order_index,
}

unfoldable pub draft_nodes : WorkflowGraph → List NodeDefinition
draft_nodes g = filter (λ n. is_draft n.node_type) g.nodes

unfoldable pub terminal_nodes : WorkflowGraph → List NodeDefinition
terminal_nodes g = filter (λ n. is_terminal n.node_type) g.nodes

-- `seen_order_indices.contains(&order_index)`
abbrev pub contains_order : List ℤ → ℤ → Bool
contains_order [] a = false
contains_order (x ∷ xs) a = eqbℤ x a || contains_order xs a

unfoldable pub order_errors : List ℤ → List NodeDefinition → List GraphValidationError
order_errors seen [] = []
order_errors seen (node ∷ nodes) =
    push_if (contains_order seen node.order_index)
      (record { code = duplicate_order_index; subject = node.node_key })
    ++ order_errors (node.order_index ∷ seen) nodes

unfoldable pub validate_node_rules : WorkflowGraph → List GraphValidationError
validate_node_rules g =
    push_if (ltb (length g.nodes) 2) (record { code = min_nodes; subject = "" })
    ++ ((if is_empty (draft_nodes g)
          then record { code = no_draft_node; subject = "" } ∷ []
          else push_if (ltb 1 (length (draft_nodes g)))
              (record { code = multiple_draft_nodes; subject = "" }))
        ++ (push_if (is_empty (terminal_nodes g)) (record { code = no_terminal_node; subject = "" })
            ++ order_errors [] g.nodes))
