-- ===== src/Replay/Facts.antt =====
-- The rows of src/store/postgres/admin_recovery_repository/rows.rs, with the columns that the replay
-- reads, and the values of src/domain/workflow_instance/recovery.rs.
use svc_workflow_kernel.Prelude.{String, Option}
use svc_workflow_kernel.Definition.Model.{Uuid}
use svc_workflow_kernel.Store.{I32}
use svc_workflow_kernel.Prelude.Result.{Result, err}

pub record InstanceRow : Type 0 where
  pub workflow_instance_id : Uuid
  pub domain_id : Uuid
  pub definition_version_id : Uuid
  pub created_by_principal_id : Uuid
  pub created_by_principal_type : String
  pub external_reference : Option String
  pub current_context_revision_id : Option Uuid
  pub current_node_visit_id : Option Uuid
  pub workflow_state_version : I32

pub record ContextFact (V : Type 0) : Type 0 where
  pub context_revision_id : Uuid
  pub workflow_instance_id : Uuid
  pub revision_number : I32
  pub previous_revision_id : Option Uuid
  pub payload : V
  pub payload_digest : String
  pub created_by_principal_id : Uuid

pub record VisitFact : Type 0 where
  pub node_visit_id : Uuid
  pub workflow_instance_id : Uuid
  pub node_id : Uuid
  pub visit_number : I32
  pub assignee_principal_id : Option Uuid
  pub entered_by_transition_id : Option Uuid
  pub definition_version_id : Uuid
  pub node_type : String
  pub assignee_ref_type : Option String

pub record SubmissionFact (V : Type 0) : Type 0 where
  pub submission_id : Uuid
  pub workflow_instance_id : Uuid
  pub source_node_visit_id : Uuid
  pub context_revision_id : Uuid
  pub transition_id : Uuid
  pub payload : V
  pub payload_digest : String

pub record TransitionFact : Type 0 where
  pub transition_id : Uuid
  pub definition_version_id : Uuid
  pub transition_key : String
  pub source_node_id : Uuid
  pub target_node_id : Uuid
  pub transition_effect : String

pub record EventFact (V : Type 0) : Type 0 where
  pub workflow_instance_id : Uuid
  pub event_sequence : I32
  pub event_schema_version : String
  pub event_type : String
  pub transition_effect : Option String
  pub source_node_visit_id : Option Uuid
  pub target_node_visit_id : Option Uuid
  pub context_revision_id : Option Uuid
  pub submission_id : Option Uuid
  pub event_data : Option V
  pub event_data_digest : Option String
  pub actor_principal_id : Uuid
  pub actor_principal_type : String
  pub from_node_id : Option Uuid
  pub to_node_id : Option Uuid
  pub old_workflow_state_version : I32
  pub new_workflow_state_version : I32

pub record WorkflowProjection : Type 0 where
  pub current_context_revision_id : Option Uuid
  pub current_node_visit_id : Option Uuid
  pub workflow_state_version : I32

pub data RecoveryError : Type 0 where
  principal_not_found principal_disabled principal_type_not_allowed : RecoveryError
  permission_denied instance_not_found : RecoveryError
  invalid_input : String → RecoveryError
  before_snapshot_digest_mismatch : String → String → RecoveryError
  workflow_state_version_conflict : I32 → I32 → RecoveryError
  invalid_immutable_facts invalid_target assignee_resolution_failed : String → RecoveryError
  idempotency_conflict command_still_processing : RecoveryError
  internal_consistency storage_error : String → RecoveryError

abbrev pub Recovered {ℓ} : Type ℓ → Type ℓ
Recovered = Result RecoveryError

-- `Err(invalid(detail))`
abbrev pub invalid {ℓ} : {A : Type ℓ} → String → Recovered A
invalid detail = err (invalid_immutable_facts detail)
