-- ===== src/Definition/Graph/Assignees.antt =====
-- `validate_assignee_rules` of src/domain/definition/graph/assignee_validation.rs.
use svc_workflow_kernel.Prelude.{
  Option, none, some, Bool, true, false, not, List, [], ◌∷◌, ◌++◌, is_some, flat_map, push_if,
}
use svc_workflow_kernel.Enums.{
  NodeType, AssigneeRefType, terminal, normal, workflow_creator, domain_owner, fixed_principal,
}
use svc_workflow_kernel.Definition.Model.{
  AssigneeRef, NodeDefinition, WorkflowGraph, GraphValidationError, terminal_has_assignee,
  assignee_required, draft_not_workflow_creator, unexpected_fixed_principal,
  fixed_principal_missing_id,
}

abbrev pub is_workflow_creator : AssigneeRefType → Bool
is_workflow_creator workflow_creator = true
is_workflow_creator _ = false

-- The inner `match assignee_ref.ref_type` of a NORMAL node.
abbrev normal_ref_errors :
    NodeDefinition → AssigneeRef → AssigneeRefType → List GraphValidationError
normal_ref_errors node r workflow_creator =
    push_if (is_some r.fixed_principal_id)
      (record { code = unexpected_fixed_principal; subject = node.node_key })
normal_ref_errors node r domain_owner =
    push_if (is_some r.fixed_principal_id)
      (record { code = unexpected_fixed_principal; subject = node.node_key })
normal_ref_errors node r fixed_principal =
    push_if (not (is_some r.fixed_principal_id))
      (record { code = fixed_principal_missing_id; subject = node.node_key })

abbrev match_node_type : NodeDefinition → NodeType → Option AssigneeRef → List GraphValidationError
match_node_type node terminal assignee =
    push_if (is_some assignee) (record { code = terminal_has_assignee; subject = node.node_key })
match_node_type node NodeType.draft none =
    record { code = assignee_required; subject = node.node_key } ∷ []
match_node_type node NodeType.draft (some r) =
    push_if (not (is_workflow_creator r.ref_type))
      (record { code = draft_not_workflow_creator; subject = node.node_key })
    ++ push_if (is_some r.fixed_principal_id)
        (record { code = unexpected_fixed_principal; subject = node.node_key })
match_node_type node normal none = record { code = assignee_required; subject = node.node_key } ∷ []
match_node_type node normal (some r) = normal_ref_errors node r r.ref_type

-- The body of the loop.
unfoldable pub assignee_errors : NodeDefinition → List GraphValidationError
assignee_errors node = match_node_type node node.node_type node.assignee_ref

unfoldable pub validate_assignee_rules : WorkflowGraph → List GraphValidationError
validate_assignee_rules g = flat_map assignee_errors g.nodes
