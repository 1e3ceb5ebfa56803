-- ===== src/Transition/Submission.antt =====
-- The checks of a submission payload in transition_validation.rs.
use svc_workflow_kernel.Prelude.{
  ℕ, Option, none, some, ◌&&◌, not, str_append, List, [], ◌∷◌, find?, is_some, ltb, ◌==◌,
}
use svc_workflow_kernel.Prelude.Result.{ok, err, ok_or, and_then, err_if, ◌>>=◌, ◌>>◌}
use svc_workflow_kernel.Platform.{Platform}
use svc_workflow_kernel.Definition.Model.{Uuid}
use svc_workflow_kernel.Store.{Db, Faults, root_visit_select, related_submission_select}
use svc_workflow_kernel.Transition.Error.{
  submission_validation_failed, size_limit_exceeded, invalid_return_references,
}
use svc_workflow_kernel.Transition.Reads.{CheckResult, fetch}

abbrev pub max_submission_size : ℕ
max_submission_size = 1048576

module _ (P : Platform) (fault : Faults) where
  open P use {Value, as_str, as_array, to_vec_len, validator_for, validate, parse_uuid, uuid_text}

  unfoldable pub validate_submission_size : Value → CheckResult (Unit {0})
  validate_submission_size payload = elim (to_vec_len payload) [
    | err message ↦
        err (size_limit_exceeded (str_append "submission serialization failed: " message))
    | ok size ↦
        err_if (ltb max_submission_size size)
          (size_limit_exceeded "submission payload exceeds 1 MiB")
  ]

  unfoldable pub validate_submission_schema : Option Value → Value → CheckResult (Unit {0})
  validate_submission_schema none payload = ok tt
  validate_submission_schema (some schema) payload = elim (validator_for schema) [
    | some message ↦
        err (
          submission_validation_failed
            (str_append "submission schema compilation failed: " message))
    | none ↦ elim (validate schema payload) [
      | some message ↦ err (
          submission_validation_failed
            (str_append "submission payload failed schema validation: " message))
      | none ↦ ok tt
    ]
  ]

  -- The loop over `relatedSubmissionIds`.
  unfoldable pub validate_related : Db Value → Uuid → List Value → CheckResult (Unit {0})
  validate_related db instance_id [] = ok tt
  validate_related db instance_id (entry ∷ related) =
      let rest = validate_related db instance_id related in
      do
        s ←
            ok_or (as_str entry)
              (invalid_return_references "relatedSubmissionIds entries must be strings")
        sub_id ←
            ok_or (parse_uuid s)
              (invalid_return_references "relatedSubmissionIds entry is not a valid UUID")
        sub ← fetch fault (related_submission_select sub_id) (
            find? (λ r. (r.submission_id == sub_id) && (r.workflow_instance_id == instance_id))
              db.submissions)
        err_if (not (is_some sub)) (
            invalid_return_references (
              str_append "relatedSubmissionId " (
                str_append (uuid_text sub_id)
                  " does not exist or belongs to a different instance")))
        rest

  -- `if let Some(related) = …as_array()`
  abbrev pub related_of : Option Value → List Value
  related_of none = []
  related_of (some v) = elim (as_array v) [ none ↦ [] | some related ↦ related ]

  unfoldable pub validate_return_references : Db Value → Value → Uuid → CheckResult (Unit {0})
  validate_return_references db payload instance_id = do
    root_cause ←
        ok_or (and_then (and_then (P.get payload "rootCauseNodeVisitId") as_str) parse_uuid)
          (invalid_return_references "rootCauseNodeVisitId is required and must be a valid UUID")
    root_visit ← fetch fault root_visit_select (
        find? (λ v. (v.node_visit_id == root_cause) && (v.workflow_instance_id == instance_id))
          db.visits)
    err_if (not (is_some root_visit)) (
        invalid_return_references
          "rootCauseNodeVisitId does not exist or belongs to a different instance")
    validate_related db instance_id (related_of (P.get payload "relatedSubmissionIds"))
    err_if (not (is_some (P.get payload "reasonCode")))
        (invalid_return_references "reasonCode is required for RETURN submissions")
    err_if (not (is_some (P.get payload "reason")))
        (invalid_return_references "reason is required for RETURN submissions")
