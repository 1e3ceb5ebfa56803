-- ===== src/Definition/Model.antt =====
-- The domain model of src/domain/definition/model.rs and the errors of error.rs. The columns
-- `metadata`, `created_at` and the JSON schemas, which validation never reads, are left out.
use svc_workflow_kernel.Prelude.{ℕ, ℤ, String, Option, Bool, List}
use svc_workflow_kernel.Enums.{NodeType, AssigneeRefType, TransitionEffect}

-- A UUID, as its 128-bit value.
abbrev pub Uuid : Type 0
Uuid = ℕ

pub record AssigneeRef : Type 0 where
  pub ref_type : AssigneeRefType
  pub fixed_principal_id : Option Uuid

pub record NodeDefinition : Type 0 where
  pub node_id : Uuid
  pub node_key : String
  pub order_index : ℤ
  pub node_type : NodeType
  pub assignee_ref : Option AssigneeRef
  pub primary_advance_transition_id : Option Uuid

pub record TransitionDefinition : Type 0 where
  pub transition_id : Uuid
  pub transition_key : String
  pub source_node_id : Uuid
  pub target_node_id : Uuid
  pub transition_effect : TransitionEffect

pub record WorkflowGraph : Type 0 where
  pub nodes : List NodeDefinition
  pub transitions : List TransitionDefinition

-- The machine-readable codes, one constructor for each string.
pub data ErrorCode : Type 0 where
  min_nodes no_draft_node multiple_draft_nodes no_terminal_node duplicate_order_index : ErrorCode
  terminal_has_assignee assignee_required draft_not_workflow_creator : ErrorCode
  unexpected_fixed_principal fixed_principal_missing_id : ErrorCode
  transition_source_missing transition_target_missing self_loop : ErrorCode
  primary_not_from_node primary_not_advance primary_not_advancing : ErrorCode
  primary_transition_missing terminal_has_primary missing_primary : ErrorCode
  primary_cycle primary_trunk_no_terminal node_not_reachable : ErrorCode
  return_to_terminal return_not_backward return_is_primary : ErrorCode
  terminate_is_primary terminate_to_non_terminal terminal_has_outgoing : ErrorCode
  invalid_context_schema invalid_submission_schema : ErrorCode

-- `subject` is the node or transition key that the message names, "" where it names none; the rest
-- of the message is fixed text.
pub record GraphValidationError : Type 0 where
  pub code : ErrorCode
  pub subject : String

pub record ValidationResult : Type 0 where
  pub valid : Bool
  pub errors : List GraphValidationError
