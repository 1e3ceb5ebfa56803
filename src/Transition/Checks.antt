-- ===== src/Transition/Checks.antt =====
-- Steps 2 to 14 of `execute_workflow_transition_atomically` (transition_transaction.rs): every check
-- that precedes the first write of a runtime fact. They read the tables and change nothing.
use svc_workflow_kernel.Prelude.{
  ℕ, zero, suc, ◌+◌, max, Option, none, some, Bool, true, false, ◌&&◌, not, String, List, [], ◌∷◌,
  find?, is_some, option_eq, lebℤ, ◌==◌, if◌then◌else◌,
}
use svc_workflow_kernel.Prelude.Result.{Result, ok, err, ok_or, err_if, ◌>>=◌, ◌>>◌}
use svc_workflow_kernel.Platform.{Platform}
use svc_workflow_kernel.Enums.{TransitionEffect, advance, return, terminate, is_terminal}
use svc_workflow_kernel.Definition.Model.{Uuid}
use svc_workflow_kernel.Definition.Graph.Effects.{is_return}
use svc_workflow_kernel.Store.{
  NodeRow, TransitionRow, InstanceRow, VisitRow, Db, Faults, domain_select, visit_number_select,
}
use svc_workflow_kernel.Transition.Error.{
  ExecuteWorkflowTransitionError, principal_not_assignee, source_node_terminal,
  workflow_state_version_conflict, transition_not_applicable, submission_required,
  internal_consistency, is_deterministic_error,
}
use svc_workflow_kernel.Transition.Command.{ExecuteWorkflowTransitionCommand, FreshIds}
use svc_workflow_kernel.Transition.Reads.{
  CheckResult, fetch, CurrentVisitFullRow, lock_instance, validate_principal_enabled,
  validate_definition_version_status, read_current_visit, read_source_node, read_transition,
  read_target_node, resolve_assignee,
}
use svc_workflow_kernel.Transition.Submission.{
  validate_submission_size, validate_submission_schema, validate_return_references,
}
pub mod Passed
pub mod Payload
pub mod Target
pub mod Permitted

-- How the body is left: by `deterministic_failure!`, which stores the failure and commits, or by
-- `return Err(…)` and `?`, which drop the transaction.
pub data Abort : Type 0 where
  deterministic : ExecuteWorkflowTransitionError → Abort
  rollback : ExecuteWorkflowTransitionError → Abort

abbrev pub Step : Type 0 → Type 0
Step = Result Abort

-- The macro `validation_result!`.
abbrev pub validation_result : {A : Type 0} → CheckResult A → Step A
validation_result (ok a) = ok a
validation_result (err e) =
    if is_deterministic_error e then err (deterministic e) else err (rollback e)

-- `?`
abbrev pub question : {A : Type 0} → CheckResult A → Step A
question (ok a) = ok a
question (err e) = err (rollback e)

-- What the checks hand on to the writes.
pub record Plan (V : Type 0) : Type 0 where
  pub instance_row : InstanceRow
  pub source_node : NodeRow
  pub transition : TransitionRow V
  pub target_node : NodeRow
  pub final_submission_id : Option Uuid
  pub target_assignee_id : Option Uuid
  pub target_visit_number : ℕ

-- `if let Some(err) = … { deterministic_failure!(err) }`
abbrev pub fail_if_some : Option ExecuteWorkflowTransitionError → Step (Unit {0})
fail_if_some none = ok tt
fail_if_some (some e) = err (deterministic e)

-- Step 10: the primary constraint of each effect.
unfoldable pub check_primary :
    {V : Type 0} → NodeRow → TransitionRow V → TransitionEffect → Step (Unit {0})
check_primary source t advance = do
  primary_id ← question (
      ok_or source.primary_advance_transition_id
        (internal_consistency "source node has no primary advance transition"))
  err_if (not (t.transition_id == primary_id))
      (deterministic (transition_not_applicable "ADVANCE must use the primary advance transition"))
check_primary source t return =
    err_if (option_eq source.primary_advance_transition_id (some t.transition_id)) (
      deterministic (transition_not_applicable "RETURN transition must not be the primary advance"))
check_primary source t terminate =
    err_if (option_eq source.primary_advance_transition_id (some t.transition_id)) (
      deterministic
        (transition_not_applicable "TERMINATE transition must not be the primary advance"))

-- Step 11: the target node of each effect.
unfoldable pub check_target : NodeRow → NodeRow → TransitionEffect → Step (Unit {0})
check_target source target advance = ok tt
check_target source target return = do
  err_if (is_terminal target.node_type)
      (deterministic (transition_not_applicable "RETURN target must not be a TERMINAL node"))
  err_if (lebℤ source.order_index target.order_index) (
      deterministic
        (transition_not_applicable "RETURN target must have lower order_index than source"))
check_target source target terminate =
    err_if (not (is_terminal target.node_type))
      (deterministic (transition_not_applicable "TERMINATE target must be a TERMINAL node"))

-- `COALESCE(MAX(visit_number), 0) + 1` over the visits of the node in the instance
unfoldable pub max_visit_number : Uuid → Uuid → List VisitRow → ℕ
max_visit_number instance_id node_id [] = 0
max_visit_number instance_id node_id (v ∷ vs) =
    let rest = max_visit_number instance_id node_id vs in
    if (v.workflow_instance_id == instance_id) && (v.node_id == node_id)
    then max v.visit_number rest
    else rest

module _ (P : Platform) (fault : Faults) where
  open P use {Value}

  -- Steps 2 to 7: the instance, its version, its current visit and the caller.
  unfoldable pub check_caller :
      Db Value
      → ExecuteWorkflowTransitionCommand Value
      → Step (InstanceRow × Uuid × CurrentVisitFullRow)
  check_caller db cmd = do
    instance_row ← validation_result (lock_instance fault db cmd.workflow_instance_id)
    domain_row ← question (
        fetch fault domain_select
          (find? (λ r. r.workflow_instance_id == cmd.workflow_instance_id) db.instances))
    domain ← question (ok_or domain_row (internal_consistency "instance has no domain"))
    err_if (not (cmd.expected_workflow_state_version == instance_row.workflow_state_version)) (
        deterministic (
          workflow_state_version_conflict cmd.expected_workflow_state_version
            instance_row.workflow_state_version))
    current ←
        validation_result
          (read_current_visit fault db cmd.workflow_instance_id instance_row.current_node_visit_id)
    err_if (is_terminal current.node.node_type) (deterministic source_node_terminal)
    problem ← validation_result (validate_principal_enabled fault db cmd.principal_id)
    fail_if_some problem
    err_if (not (option_eq current.visit.assignee_principal_id (some cmd.principal_id)))
        (deterministic principal_not_assignee)
    ok (instance_row, domain.domain_id, current)

  -- Steps 8 to 11: the definition version, the source node, the transition and the target node.
  unfoldable pub check_transition :
      Db Value
      → ExecuteWorkflowTransitionCommand Value
      → InstanceRow
      → CurrentVisitFullRow
      → Step (NodeRow × TransitionRow Value × NodeRow)
  check_transition db cmd instance_row current = do
    _status ←
        validation_result
          (validate_definition_version_status fault db instance_row.definition_version_id)
    source ←
        validation_result
          (read_source_node fault db current.visit.node_id instance_row.definition_version_id)
    t ←
        validation_result
          (read_transition fault db cmd.transition_definition_id instance_row.definition_version_id)
    err_if (not (t.source_node_id == current.visit.node_id)) (
        deterministic
          (transition_not_applicable "transition source node does not match current visit node"))
    check_primary source t t.transition_effect
    target ←
        validation_result
          (read_target_node fault db t.target_node_id instance_row.definition_version_id)
    check_target source target t.transition_effect
    ok (source, t, target)

  -- `if effect == "RETURN"`
  abbrev pub check_references : Db Value → Value → Uuid → TransitionRow Value → Step (Unit {0})
  check_references db payload instance_id t =
      if is_return t.transition_effect
      then validation_result (validate_return_references P fault db payload instance_id)
      else ok tt

  -- Step 12.
  unfoldable pub check_submission :
      Db Value → Option Value → Uuid → TransitionRow Value → Uuid → Step (Option Uuid)
  check_submission db none instance_id t submission_id =
      if is_some t.submission_schema then err (deterministic submission_required) else ok none
  check_submission db (some payload) instance_id t submission_id = do
    validation_result (validate_submission_size P fault payload)
    validation_result (validate_submission_schema P fault t.submission_schema payload)
    check_references db payload instance_id t
    ok (some submission_id)

  -- Steps 2 to 14.
  unfoldable pub check_all :
      Db Value → FreshIds → ExecuteWorkflowTransitionCommand Value → Step (Plan Value)
  check_all db ids cmd = do
    (instance_row, domain, current) ← check_caller db cmd
    (source, t, target) ← check_transition db cmd instance_row current
    final_submission_id ←
        check_submission db cmd.submission_payload cmd.workflow_instance_id t ids.submission_id
    assignee ← validation_result (resolve_assignee fault db target instance_row domain)
    number ← question (
        fetch fault visit_number_select
          (max_visit_number cmd.workflow_instance_id target.node_id db.visits + 1))
    ok (record {
      instance_row = instance_row;
      source_node = source;
      transition = t;
      target_node = target;
      final_submission_id = final_submission_id;
      target_assignee_id = assignee;
      target_visit_number = number;
    })
