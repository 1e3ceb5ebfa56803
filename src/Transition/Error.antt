-- ===== src/Transition/Error.antt =====
-- `ExecuteWorkflowTransitionError` of src/domain/workflow_instance/errors.rs, its status codes and
-- labels, the body under which a deterministic failure is stored (transition_validation.rs), and
-- how the stored failure is read back (src/application/workflow_instance/execute_transition.rs).
use svc_workflow_kernel.Prelude.{
  ℕ, Option, none, some, Bool, true, false, ◌&&◌, String, List, [], ◌∷◌, str_eq, ◌==◌,
  if◌then◌else◌,
}
use svc_workflow_kernel.Platform.{Platform, index}
use svc_workflow_kernel.Definition.Model.{Uuid}
use svc_workflow_kernel.Store.{I32}
pub mod Replay

pub data ExecuteWorkflowTransitionError : Type 0 where
  principal_not_found principal_disabled : ExecuteWorkflowTransitionError
  instance_not_found current_visit_not_found : ExecuteWorkflowTransitionError
  principal_not_assignee source_node_terminal : ExecuteWorkflowTransitionError
  definition_version_revoked definition_version_draft : ExecuteWorkflowTransitionError
  definition_version_deprecated : ExecuteWorkflowTransitionError
  -- expected and actual version
  workflow_state_version_conflict : I32 → I32 → ExecuteWorkflowTransitionError
  transition_not_applicable : String → ExecuteWorkflowTransitionError
  submission_required : ExecuteWorkflowTransitionError
  submission_validation_failed : String → ExecuteWorkflowTransitionError
  size_limit_exceeded : String → ExecuteWorkflowTransitionError
  invalid_return_references : String → ExecuteWorkflowTransitionError
  assignee_resolution_failed : String → ExecuteWorkflowTransitionError
  internal_consistency : String → ExecuteWorkflowTransitionError
  -- original command and its request hash
  idempotency_conflict : Uuid → String → ExecuteWorkflowTransitionError
  command_still_processing : ExecuteWorkflowTransitionError
  storage_error : String → ExecuteWorkflowTransitionError

unfoldable pub transition_error_code : ExecuteWorkflowTransitionError → I32
transition_error_code principal_not_found = 404
transition_error_code principal_disabled = 403
transition_error_code instance_not_found = 404
transition_error_code current_visit_not_found = 404
transition_error_code principal_not_assignee = 403
transition_error_code source_node_terminal = 409
transition_error_code definition_version_revoked = 409
transition_error_code definition_version_draft = 500
transition_error_code definition_version_deprecated = 200
transition_error_code (workflow_state_version_conflict _ _) = 409
transition_error_code (transition_not_applicable _) = 409
transition_error_code submission_required = 422
transition_error_code (submission_validation_failed _) = 422
transition_error_code (size_limit_exceeded _) = 413
transition_error_code (invalid_return_references _) = 422
transition_error_code (assignee_resolution_failed _) = 422
transition_error_code (internal_consistency _) = 500
transition_error_code (idempotency_conflict _ _) = 409
transition_error_code command_still_processing = 425
transition_error_code (storage_error _) = 500

unfoldable pub transition_error_label : ExecuteWorkflowTransitionError → String
transition_error_label principal_not_found = "principal_not_found"
transition_error_label principal_disabled = "principal_disabled"
transition_error_label instance_not_found = "instance_not_found"
transition_error_label current_visit_not_found = "current_visit_not_found"
transition_error_label principal_not_assignee = "principal_not_assignee"
transition_error_label source_node_terminal = "source_node_terminal"
transition_error_label definition_version_revoked = "definition_version_revoked"
transition_error_label definition_version_draft = "definition_version_draft"
transition_error_label definition_version_deprecated = "definition_version_deprecated"
transition_error_label (workflow_state_version_conflict _ _) = "workflow_state_version_conflict"
transition_error_label (transition_not_applicable _) = "transition_not_applicable"
transition_error_label submission_required = "submission_required"
transition_error_label (submission_validation_failed _) = "submission_validation_failed"
transition_error_label (size_limit_exceeded _) = "size_limit_exceeded"
transition_error_label (invalid_return_references _) = "invalid_return_references"
transition_error_label (assignee_resolution_failed _) = "assignee_resolution_failed"
transition_error_label (internal_consistency _) = "internal_consistency_error"
transition_error_label (idempotency_conflict _ _) = "idempotency_conflict"
transition_error_label command_still_processing = "command_still_processing"
transition_error_label (storage_error _) = "storage_error"

unfoldable pub is_deterministic_error : ExecuteWorkflowTransitionError → Bool
is_deterministic_error principal_not_found = true
is_deterministic_error principal_disabled = true
is_deterministic_error instance_not_found = true
is_deterministic_error current_visit_not_found = true
is_deterministic_error principal_not_assignee = true
is_deterministic_error source_node_terminal = true
is_deterministic_error definition_version_revoked = true
is_deterministic_error definition_version_draft = true
is_deterministic_error (workflow_state_version_conflict _ _) = true
is_deterministic_error (transition_not_applicable _) = true
is_deterministic_error submission_required = true
is_deterministic_error (submission_validation_failed _) = true
is_deterministic_error (size_limit_exceeded _) = true
is_deterministic_error (invalid_return_references _) = true
is_deterministic_error (assignee_resolution_failed _) = true
is_deterministic_error _ = false

module _ (P : Platform) where
  open P use {Value, text, number, object, as_str, as_i32}

  unfoldable pub labelled : ExecuteWorkflowTransitionError → Value
  unfolding transition_error_label
  labelled e = object (("error", text (transition_error_label e)) ∷ [])

  unfoldable pub detailed : ExecuteWorkflowTransitionError → String → Value
  unfolding transition_error_label
  detailed e detail =
      object (("error", text (transition_error_label e)) ∷ ("detail", text detail) ∷ [])

  unfoldable pub error_response_body : ExecuteWorkflowTransitionError → Value
  unfolding labelled detailed
  error_response_body (workflow_state_version_conflict expected actual) = object (
      ("error", text "workflow_state_version_conflict")
      ∷ ("expected", number expected)
      ∷ ("actual", number actual)
      ∷ [])
  error_response_body (submission_validation_failed detail) =
      object (("error", text "submission_validation_failed") ∷ ("detail", text detail) ∷ [])
  error_response_body (transition_not_applicable detail) =
      object (("error", text "transition_not_applicable") ∷ ("detail", text detail) ∷ [])
  error_response_body (size_limit_exceeded detail) = detailed (size_limit_exceeded detail) detail
  error_response_body (invalid_return_references detail) =
      detailed (invalid_return_references detail) detail
  error_response_body (assignee_resolution_failed detail) =
      detailed (assignee_resolution_failed detail) detail
  error_response_body e = labelled e

  -- `body[key].as_str().unwrap_or(default)`
  abbrev pub str_or : Value → String → String → String
  str_or body key default = elim (as_str (index P body key)) [ none ↦ default | some s ↦ s ]

  -- `body[key].as_i64().unwrap_or(0) as i32`
  abbrev pub i32_or_0 : Value → String → I32
  i32_or_0 body key = elim (as_i32 (index P body key)) [ none ↦ 0 | some n ↦ n ]

  -- `match (status, error_code)`; the text of the last error is left out.
  unfoldable pub replayed_failure_error : I32 → Value → ExecuteWorkflowTransitionError
  replayed_failure_error status body =
      let code = str_or body "error" "unknown" in
      if status == 404 && str_eq code "principal_not_found"
      then principal_not_found
      else if status == 404 && str_eq code "instance_not_found"
      then instance_not_found
      else if status == 403 && str_eq code "principal_disabled"
      then principal_disabled
      else if status == 404 && str_eq code "current_visit_not_found"
      then current_visit_not_found
      else if status == 403 && str_eq code "principal_not_assignee"
      then principal_not_assignee
      else if status == 409 && str_eq code "source_node_terminal"
      then source_node_terminal
      else if status == 409 && str_eq code "definition_version_revoked"
      then definition_version_revoked
      else if status == 500 && str_eq code "definition_version_draft"
      then definition_version_draft
      else if status == 409 && str_eq code "workflow_state_version_conflict"
      then workflow_state_version_conflict (i32_or_0 body "expected") (i32_or_0 body "actual")
      else if status == 409 && str_eq code "transition_not_applicable"
      then transition_not_applicable (str_or body "detail" "unknown")
      else if status == 422 && str_eq code "submission_required"
      then submission_required
      else if status == 422 && str_eq code "submission_validation_failed"
      then submission_validation_failed (str_or body "detail" "validation failed")
      else if status == 413 && str_eq code "size_limit_exceeded"
      then size_limit_exceeded (str_or body "detail" "size limit exceeded")
      else if status == 422 && str_eq code "invalid_return_references"
      then invalid_return_references (str_or body "detail" "invalid references")
      else if status == 422 && str_eq code "assignee_resolution_failed"
      then assignee_resolution_failed (str_or body "detail" "resolution failed")
      else storage_error "replayed deterministic failure"
