-- ===== src/Recovery/Error.antt =====
-- The status codes, labels and details of `RecoveryError` (src/domain/workflow_instance/recovery.rs),
-- the body under which a failure is stored and how it is read back
-- (src/store/postgres/admin_recovery_repository/receipt.rs).
pub mod Stored
use svc_workflow_kernel.Prelude.{Option, none, some, String, List, [], ◌∷◌, str_eq, if◌then◌else◌}
use svc_workflow_kernel.Platform.{Platform}
use svc_workflow_kernel.Store.{I32}
use svc_workflow_kernel.Transition.Error.{str_or, i32_or_0}
use svc_workflow_kernel.Replay.Facts.{
  RecoveryError, principal_not_found, principal_disabled, principal_type_not_allowed,
  permission_denied, instance_not_found, invalid_input, before_snapshot_digest_mismatch,
  workflow_state_version_conflict, invalid_immutable_facts, invalid_target,
  assignee_resolution_failed, idempotency_conflict, command_still_processing, internal_consistency,
  storage_error,
}

unfoldable pub status_code : RecoveryError → I32
status_code principal_not_found = 404
status_code instance_not_found = 404
status_code principal_disabled = 403
status_code principal_type_not_allowed = 403
status_code permission_denied = 403
status_code (invalid_input _) = 422
status_code (invalid_target _) = 422
status_code (assignee_resolution_failed _) = 422
status_code (before_snapshot_digest_mismatch _ _) = 409
status_code (workflow_state_version_conflict _ _) = 409
status_code idempotency_conflict = 409
status_code command_still_processing = 425
status_code (invalid_immutable_facts _) = 500
status_code (internal_consistency _) = 500
status_code (storage_error _) = 500

unfoldable pub label : RecoveryError → String
label principal_not_found = "principal_not_found"
label principal_disabled = "principal_disabled"
label principal_type_not_allowed = "principal_type_not_allowed"
label permission_denied = "permission_denied"
label instance_not_found = "instance_not_found"
label (invalid_input _) = "invalid_input"
label (before_snapshot_digest_mismatch _ _) = "before_snapshot_digest_mismatch"
label (workflow_state_version_conflict _ _) = "workflow_state_version_conflict"
label (invalid_immutable_facts _) = "invalid_immutable_facts"
label (invalid_target _) = "invalid_target"
label (assignee_resolution_failed _) = "assignee_resolution_failed"
label idempotency_conflict = "idempotency_conflict"
label command_still_processing = "command_still_processing"
label (internal_consistency _) = "internal_consistency_error"
label (storage_error _) = "storage_error"

unfoldable pub detail : RecoveryError → Option String
detail (invalid_input value) = some value
detail (invalid_immutable_facts value) = some value
detail (invalid_target value) = some value
detail (assignee_resolution_failed value) = some value
detail (internal_consistency value) = some value
detail (storage_error value) = some value
detail _ = none

module _ (P : Platform) where
  open P use {Value, text, number, object}

  abbrev pub detail_field : Option String → List (String × Value)
  detail_field none = []
  detail_field (some value) = ("detail", text value) ∷ []

  abbrev pub fields : RecoveryError → List (String × Value)
  fields (before_snapshot_digest_mismatch expected actual) =
      ("expected", text expected) ∷ ("actual", text actual) ∷ []
  fields (workflow_state_version_conflict expected actual) =
      ("expected", number expected) ∷ ("actual", number actual) ∷ []
  fields error = detail_field (detail error)

  unfoldable pub error_body : RecoveryError → Value
  error_body error = object (("error", text (label error)) ∷ fields error)

  unfoldable pub error_from_body : Value → RecoveryError
  error_from_body body =
      let code = str_or P body "error" "internal_consistency_error" in
      let read = str_or P body "detail" "replayed failure" in
      if str_eq code "principal_disabled"
      then principal_disabled
      else if str_eq code "principal_type_not_allowed"
      then principal_type_not_allowed
      else if str_eq code "permission_denied"
      then permission_denied
      else if str_eq code "instance_not_found"
      then instance_not_found
      else if str_eq code "invalid_input"
      then invalid_input read
      else if str_eq code "before_snapshot_digest_mismatch"
      then before_snapshot_digest_mismatch (str_or P body "expected" "") (str_or P body "actual" "")
      else if str_eq code "workflow_state_version_conflict"
      then workflow_state_version_conflict (i32_or_0 P body "expected") (i32_or_0 P body "actual")
      else if str_eq code "invalid_immutable_facts"
      then invalid_immutable_facts read
      else if str_eq code "invalid_target"
      then invalid_target read
      else if str_eq code "assignee_resolution_failed"
      then assignee_resolution_failed read
      else internal_consistency read
