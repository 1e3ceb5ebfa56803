-- ===== src/Transition/Command.antt =====
-- The command of src/domain/workflow_instance/commands.rs, the identifiers that the transaction
-- draws with `Uuid::new_v4`, and its outcomes (transition_helpers.rs).
use svc_workflow_kernel.Prelude.{Option, String}
use svc_workflow_kernel.Definition.Model.{Uuid}
use svc_workflow_kernel.Store.{I32}

pub record ExecuteWorkflowTransitionCommand (V : Type 0) : Type 0 where
  pub principal_id : Uuid
  pub idempotency_key : String
  pub command_schema_version : String
  pub workflow_instance_id : Uuid
  pub expected_workflow_state_version : I32
  pub transition_definition_id : Uuid
  pub submission_payload : Option V

pub record FreshIds : Type 0 where
  pub command_id : Uuid
  pub new_node_visit_id : Uuid
  pub event_id : Uuid
  pub submission_id : Uuid
  pub audit_id : Uuid

pub record TransitionResult : Type 0 where
  pub workflow_instance_id : Uuid
  pub workflow_state_version : I32
  pub current_context_revision_id : Uuid
  pub source_node_visit_id : Uuid
  pub current_node_visit_id : Uuid
  pub submission_id : Option Uuid
  pub event_sequence : I32

pub data TransitionOutcome (V : Type 0) : Type 0 where
  executed : TransitionResult → TransitionOutcome V
  replayed : TransitionResult → TransitionOutcome V
  replayed_failure : I32 → V → TransitionOutcome V
