-- ===== src/Replay/Snapshot/Examples.antt =====
-- The facts of a small instance: two context revisions, two visits and a submission.
use svc_workflow_kernel.Prelude.{◌≤◌, ◌≡◌, ◌↔◌, refl, none, some, List, [], ◌∷◌, length, All}
use svc_workflow_kernel.Prelude.Result.{ok}
use svc_workflow_kernel.Transition.Small.{Json, small_platform}
use svc_workflow_kernel.Replay.Facts.{
  ContextFact, VisitFact, SubmissionFact, before_snapshot_digest_mismatch,
}
use svc_workflow_kernel.Replay.Examples.{
  small_instance, first_context, first_visit, second_visit, small_transition,
}
use svc_workflow_kernel.Prelude.Result.{err}
use svc_workflow_kernel.Replay.Fields.{recovery_digest}
use svc_workflow_kernel.Replay.Import.{lowercase_digest}
use svc_workflow_kernel.Replay.Snapshot.{
  verify_expected_digest, validate_visit, validate_visits, validate_digest, validate_context,
  validate_contexts, validate_submission, validate_submissions,
}
use svc_workflow_kernel.Replay.Snapshot.Related.{VisitIsRelated, validate_visits-All}
use svc_workflow_kernel.Replay.Snapshot.Chained.{IsChain, validate_contexts-IsChain}
use svc_workflow_kernel.Replay.Snapshot.Submitted.{SubmissionIsRelated, validate_submissions-All}

abbrev small_contexts : List (ContextFact Json)
small_contexts =
    first_context
    ∷ record first_context {
      context_revision_id = 8;
      revision_number = 2;
      previous_revision_id = some 6;
    }
    ∷ []

abbrev small_visits : List VisitFact
small_visits = first_visit ∷ second_visit ∷ []

abbrev small_submissions : List (SubmissionFact Json)
small_submissions =
    record {
      submission_id = 40;
      workflow_instance_id = 5;
      source_node_visit_id = 7;
      context_revision_id = 8;
      transition_id = 20;
      payload = small_platform.null;
      payload_digest = "digest";
    }
    ∷ []

accepts :
    (validate_contexts small_platform small_instance small_contexts ≡ ok tt)
    × (validate_visits small_instance small_visits (small_transition ∷ []) ≡ ok tt)
    × (validate_submissions small_platform small_instance small_contexts small_visits
          small_submissions
          (small_transition ∷ [])
        ≡ ok tt)
unfolding validate_contexts validate_context validate_digest recovery_digest validate_visits
    validate_visit validate_submissions validate_submission
accepts = (refl, refl, refl)

verifies_digest :
    verify_expected_digest
      (some "aaaaaaaaaaaaaaaaaaaaaaaaaaaaaaaaaaaaaaaaaaaaaaaaaaaaaaaaaaaaaaaa")
      "digest"
    ≡ err (
        before_snapshot_digest_mismatch
          "aaaaaaaaaaaaaaaaaaaaaaaaaaaaaaaaaaaaaaaaaaaaaaaaaaaaaaaaaaaaaaaa" "digest")
unfolding verify_expected_digest lowercase_digest
verifies_digest = refl

validate_contexts-IsChain_example :
    (validate_contexts small_platform small_instance small_contexts ≡ ok tt)
    ↔ ((1 ≤ length small_contexts) × IsChain small_platform small_instance 0 none small_contexts)
validate_contexts-IsChain_example =
    validate_contexts-IsChain small_platform small_instance small_contexts

validate_visits-All_example :
    (validate_visits small_instance small_visits (small_transition ∷ []) ≡ ok tt) ↔ (
      (1 ≤ length small_visits)
      × All (VisitIsRelated small_instance (small_transition ∷ [])) small_visits)
validate_visits-All_example =
    validate_visits-All small_instance small_visits (small_transition ∷ [])

validate_submissions-All_example :
    (validate_submissions small_platform small_instance small_contexts small_visits
        small_submissions
        (small_transition ∷ [])
      ≡ ok tt)
    ↔ All
        (SubmissionIsRelated small_platform small_instance small_contexts small_visits
          (small_transition ∷ []))
        small_submissions
validate_submissions-All_example =
    validate_submissions-All small_platform small_instance small_contexts small_visits
      small_submissions (small_transition ∷ [])
