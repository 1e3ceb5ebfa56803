-- ===== src/Transition/Error/Replay.antt =====
-- A stored failure is read back as the error that was stored.
use svc_workflow_kernel.Prelude.{◌<◌, ◌≡◌, true}
use svc_workflow_kernel.Platform.{Platform, ReadsBack, index}
use svc_workflow_kernel.Transition.Error.{
  ExecuteWorkflowTransitionError, principal_not_found, principal_disabled, instance_not_found,
  current_visit_not_found, principal_not_assignee, source_node_terminal, definition_version_revoked,
  definition_version_draft, submission_required, transition_not_applicable,
  submission_validation_failed, size_limit_exceeded, invalid_return_references,
  assignee_resolution_failed, definition_version_deprecated, command_still_processing,
  internal_consistency, idempotency_conflict, storage_error, workflow_state_version_conflict,
  transition_error_code, transition_error_label, labelled, detailed, is_deterministic_error,
  error_response_body, replayed_failure_error, str_or, i32_or_0,
}

-- The numbers that an error carries are `i32` values.
abbrev pub IsI32Error : ExecuteWorkflowTransitionError → Type 0
IsI32Error (workflow_state_version_conflict expected actual) =
    (expected < 4294967296) × (actual < 4294967296)
IsI32Error _ = Unit

module _ (P : Platform) (laws : ReadsBack P) where
  open laws use {get_object, as_str_text, as_i32_number}

  -- Every deterministic error, with its numbers in range, stored as its status code and response
  -- body, is answered by a replay as the same error, its details included.
  pub replayed_failure_error-error_response_body :
      (e : ExecuteWorkflowTransitionError)
      → IsI32Error e
      → is_deterministic_error e ≡ true
      → replayed_failure_error P (transition_error_code e) (error_response_body P e) ≡ e
  unfolding transition_error_code transition_error_label labelled detailed error_response_body
      replayed_failure_error is_deterministic_error
  replayed_failure_error-error_response_body principal_not_found small det =
      simp (str_or, i32_or_0, index, get_object, as_str_text)
  replayed_failure_error-error_response_body principal_disabled small det =
      simp (str_or, i32_or_0, index, get_object, as_str_text)
  replayed_failure_error-error_response_body instance_not_found small det =
      simp (str_or, i32_or_0, index, get_object, as_str_text)
  replayed_failure_error-error_response_body current_visit_not_found small det =
      simp (str_or, i32_or_0, index, get_object, as_str_text)
  replayed_failure_error-error_response_body principal_not_assignee small det =
      simp (str_or, i32_or_0, index, get_object, as_str_text)
  replayed_failure_error-error_response_body source_node_terminal small det =
      simp (str_or, i32_or_0, index, get_object, as_str_text)
  replayed_failure_error-error_response_body definition_version_revoked small det =
      simp (str_or, i32_or_0, index, get_object, as_str_text)
  replayed_failure_error-error_response_body definition_version_draft small det =
      simp (str_or, i32_or_0, index, get_object, as_str_text)
  replayed_failure_error-error_response_body submission_required small det =
      simp (str_or, i32_or_0, index, get_object, as_str_text)
  replayed_failure_error-error_response_body (transition_not_applicable detail) small det =
      simp (str_or, i32_or_0, index, get_object, as_str_text)
  replayed_failure_error-error_response_body (submission_validation_failed detail) small det =
      simp (str_or, i32_or_0, index, get_object, as_str_text)
  replayed_failure_error-error_response_body (size_limit_exceeded detail) small det =
      simp (str_or, i32_or_0, index, get_object, as_str_text)
  replayed_failure_error-error_response_body (invalid_return_references detail) small det =
      simp (str_or, i32_or_0, index, get_object, as_str_text)
  replayed_failure_error-error_response_body (assignee_resolution_failed detail) small det =
      simp (str_or, i32_or_0, index, get_object, as_str_text)
  replayed_failure_error-error_response_body (workflow_state_version_conflict expected actual) small
        det =
      simp (
        str_or,
        i32_or_0,
        index,
        get_object,
        as_str_text,
        as_i32_number expected small.0,
        as_i32_number actual small.1,
      )
  replayed_failure_error-error_response_body definition_version_deprecated small det = cc
  replayed_failure_error-error_response_body command_still_processing small det = cc
  replayed_failure_error-error_response_body (internal_consistency message) small det = cc
  replayed_failure_error-error_response_body (idempotency_conflict id hash) small det = cc
  replayed_failure_error-error_response_body (storage_error message) small det = cc
