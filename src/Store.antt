-- ===== src/Store.antt =====
-- The tables of migrations/*.sql, with the columns that the modelled statements read or write, and
-- the statements that may fail. A table is the list of its rows, the newest first.
use svc_workflow_kernel.Prelude.{ℕ, ℤ, Option, none, some, Bool, String, List, ◌≡◌, arith}
use svc_workflow_kernel.Prelude.Result.{Result, ok, err}
use svc_workflow_kernel.Enums.{
  DefinitionVersionStatus, NodeType, AssigneeRefType, TransitionEffect, ReceiptStatus,
}
use svc_workflow_kernel.Definition.Model.{Uuid}

-- A 32-bit integer of which only equality and the successor matter, as its bit pattern.
abbrev pub I32 : Type 0
I32 = ℕ

pub record PrincipalRow : Type 0 where
  pub principal_id : Uuid
  pub enabled : Bool

pub record RoleBindingRow : Type 0 where
  pub domain_id : Uuid
  pub principal_id : Uuid
  pub role_key : String
  pub enabled : Bool

pub record VersionRow : Type 0 where
  pub definition_version_id : Uuid
  pub version_status : DefinitionVersionStatus

pub record NodeRow : Type 0 where
  pub node_id : Uuid
  pub definition_version_id : Uuid
  pub node_type : NodeType
  pub primary_advance_transition_id : Option Uuid
  pub order_index : ℤ
  pub assignee_ref_type : Option AssigneeRefType
  pub fixed_principal_id : Option Uuid

pub record TransitionRow (V : Type 0) : Type 0 where
  pub transition_id : Uuid
  pub transition_key : String
  pub definition_version_id : Uuid
  pub source_node_id : Uuid
  pub target_node_id : Uuid
  pub transition_effect : TransitionEffect
  pub submission_schema : Option V

pub record InstanceRow : Type 0 where
  pub workflow_instance_id : Uuid
  pub domain_id : Uuid
  pub created_by_principal_id : Uuid
  pub definition_version_id : Uuid
  pub current_context_revision_id : Uuid
  pub current_node_visit_id : Uuid
  pub workflow_state_version : I32

pub record VisitRow : Type 0 where
  pub node_visit_id : Uuid
  pub workflow_instance_id : Uuid
  pub node_id : Uuid
  pub visit_number : ℕ
  pub assignee_principal_id : Option Uuid
  pub entered_by_transition_id : Option Uuid

pub record SubmissionRow (V : Type 0) : Type 0 where
  pub submission_id : Uuid
  pub workflow_instance_id : Uuid
  pub source_node_visit_id : Uuid
  pub context_revision_id : Uuid
  pub author_principal_id : Uuid
  pub transition_id : Uuid
  pub payload : V
  pub payload_digest : String
  pub schema_version : String

pub record EventRow (V : Type 0) : Type 0 where
  pub event_id : Uuid
  pub workflow_instance_id : Uuid
  pub event_sequence : I32
  pub event_schema_version : String
  pub command_id : Uuid
  pub event_type : String
  pub transition_effect : TransitionEffect
  pub source_node_visit_id : Uuid
  pub target_node_visit_id : Uuid
  pub context_revision_id : Uuid
  pub submission_id : Option Uuid
  pub event_data : V
  pub event_data_digest : String
  pub actor_principal_id : Uuid
  pub from_node_id : Uuid
  pub to_node_id : Uuid
  pub old_workflow_state_version : I32
  pub new_workflow_state_version : I32

pub record ReceiptRow (V : Type 0) : Type 0 where
  pub command_id : Uuid
  pub principal_id : Uuid
  pub idempotency_key : String
  pub command_type : String
  pub request_hash : String
  pub receipt_status : ReceiptStatus
  pub response_status : Option I32
  pub response_body : Option V
  pub response_digest : Option String

pub record AuditRow (V : Type 0) : Type 0 where
  pub audit_id : Uuid
  pub command_id : Uuid
  pub principal_id : Uuid
  pub idempotency_key : String
  pub attempt_type : String
  pub failure_reason : Option String
  pub request_hash : String
  pub details : Option V

pub record Db (V : Type 0) : Type 0 where
  pub principals : List PrincipalRow
  pub role_bindings : List RoleBindingRow
  pub versions : List VersionRow
  pub nodes : List NodeRow
  pub transitions : List (TransitionRow V)
  pub instances : List InstanceRow
  pub visits : List VisitRow
  pub submissions : List (SubmissionRow V)
  pub events : List (EventRow V)
  pub receipts : List (ReceiptRow V)
  pub audits : List (AuditRow V)

-- The tables of the definitions and principals, which a transition only reads.
abbrev pub definitions :
    {V : Type 0}
    → Db V
    → List PrincipalRow
      × List RoleBindingRow
      × List VersionRow
      × List NodeRow
      × List (TransitionRow V)
definitions db = (db.principals, db.role_bindings, db.versions, db.nodes, db.transitions)

-- The tables of the runtime facts.
abbrev pub facts :
    {V : Type 0}
    → Db V
    → List InstanceRow × List VisitRow × List (SubmissionRow V) × List (EventRow V)
facts db = (db.instances, db.visits, db.submissions, db.events)

-- All tables but the receipts and the audits.
abbrev pub tables :
    {V : Type 0}
    → Db V
    → (List PrincipalRow
        × List RoleBindingRow
        × List VersionRow
        × List NodeRow
        × List (TransitionRow V))
      × (List InstanceRow × List VisitRow × List (SubmissionRow V) × List (EventRow V))
tables db = (definitions db, facts db)

-- The statements of the transition transaction.
pub data Statement : Type 0 where
  begin commit : Statement
  receipt_insert receipt_select receipt_complete audit_insert : Statement
  instance_lock domain_select visit_select principal_select version_lock : Statement
  source_select transition_select target_select root_visit_select : Statement
  related_submission_select : Uuid → Statement
  owner_binding_select owner_select fixed_principal_select visit_number_select : Statement
  submission_insert visit_insert instance_update event_insert : Statement

-- The text of the error with which the database answers a statement, if it fails: a lost
-- connection, or a constraint or trigger that refuses a row.
abbrev pub Faults : Type 0
Faults = Statement → Option String

-- `execute(&mut **tx).await.map_err(…)` of a statement that would return `a`.
abbrev pub attempt {ℓ} :
    {E : Type 0} {A : Type ℓ} → Faults → (String → E) → Statement → A → Result E A
attempt fault error s a = elim (fault s) [ none ↦ ok a | some message ↦ err (error message) ]

-- A statement that succeeds returned what the tables hold.
pub attempt-eq-ok {ℓ} :
    {E : Type 0} {A : Type ℓ} (fault : Faults) (error : String → E) (s : Statement) (a : A) {b : A}
    → attempt fault error s a ≡ ok b
    → b ≡ a
attempt-eq-ok fault error s a h = ground arith
