-- ===== src/Recovery/Error/Stored.antt =====
-- How a stored failure of a recovery command is read back.
use svc_workflow_kernel.Prelude.{◌<◌, ◌≡◌, refl}
use svc_workflow_kernel.Platform.{Platform, ReadsBack, index}
use svc_workflow_kernel.Transition.Error.{str_or, i32_or_0}
use svc_workflow_kernel.Replay.Facts.{
  RecoveryError, principal_not_found, principal_disabled, principal_type_not_allowed,
  permission_denied, instance_not_found, invalid_input, before_snapshot_digest_mismatch,
  workflow_state_version_conflict, invalid_immutable_facts, invalid_target,
  assignee_resolution_failed, idempotency_conflict, command_still_processing, internal_consistency,
  storage_error,
}
use svc_workflow_kernel.Recovery.Error.{label, detail, error_body, error_from_body}

-- The numbers that an error carries are `i32` values.
abbrev pub IsI32Error : RecoveryError → Type 0
IsI32Error (workflow_state_version_conflict expected actual) =
    (expected < 4294967296) × (actual < 4294967296)
IsI32Error _ = Unit

-- The answer to an error that was stored.
abbrev pub answered : RecoveryError → RecoveryError
answered principal_not_found = internal_consistency "replayed failure"
answered idempotency_conflict = internal_consistency "replayed failure"
answered command_still_processing = internal_consistency "replayed failure"
answered (storage_error message) = internal_consistency message
answered e = e

module _ (P : Platform) (laws : ReadsBack P) where
  open laws use {get_object, as_str_text, as_str_null, as_i32_number}

  -- Every error with its numbers in range that is stored in a body is answered as the same error
  -- with its details, but for four: an absent principal, a key in conflict and a running command are
  -- answered as an internal inconsistency without a detail, a storage error as one with its message.
  pub error_from_body-error_body :
      (e : RecoveryError) → IsI32Error e → error_from_body P (error_body P e) ≡ answered e
  unfolding label detail error_body error_from_body
  error_from_body-error_body (workflow_state_version_conflict expected actual) small = simp (
    str_or,
    i32_or_0,
    index,
    get_object,
    as_str_text,
    as_i32_number expected small.0,
    as_i32_number actual small.1,
  )
  error_from_body-error_body (before_snapshot_digest_mismatch expected actual) small =
      simp (str_or, i32_or_0, index, get_object, as_str_text)
  error_from_body-error_body principal_not_found small =
      simp (str_or, i32_or_0, index, get_object, as_str_text) (rw as_str_null refl)
  error_from_body-error_body principal_disabled small =
      simp (str_or, i32_or_0, index, get_object, as_str_text)
  error_from_body-error_body principal_type_not_allowed small =
      simp (str_or, i32_or_0, index, get_object, as_str_text)
  error_from_body-error_body permission_denied small =
      simp (str_or, i32_or_0, index, get_object, as_str_text)
  error_from_body-error_body instance_not_found small =
      simp (str_or, i32_or_0, index, get_object, as_str_text)
  error_from_body-error_body (invalid_input d) small =
      simp (str_or, i32_or_0, index, get_object, as_str_text)
  error_from_body-error_body (invalid_immutable_facts d) small =
      simp (str_or, i32_or_0, index, get_object, as_str_text)
  error_from_body-error_body (invalid_target d) small =
      simp (str_or, i32_or_0, index, get_object, as_str_text)
  error_from_body-error_body (assignee_resolution_failed d) small =
      simp (str_or, i32_or_0, index, get_object, as_str_text)
  error_from_body-error_body idempotency_conflict small =
      simp (str_or, i32_or_0, index, get_object, as_str_text) (rw as_str_null refl)
  error_from_body-error_body command_still_processing small =
      simp (str_or, i32_or_0, index, get_object, as_str_text) (rw as_str_null refl)
  error_from_body-error_body (internal_consistency d) small =
      simp (str_or, i32_or_0, index, get_object, as_str_text)
  error_from_body-error_body (storage_error d) small =
      simp (str_or, i32_or_0, index, get_object, as_str_text)
