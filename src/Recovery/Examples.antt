-- ===== src/Recovery/Examples.antt =====
-- A refused recovery command on a small database.
use svc_workflow_kernel.Prelude.{◌≡◌, refl, arith, some, false, String, str_eq, [], ◌∷◌}
use svc_workflow_kernel.Prelude.Result.{ok}
use svc_workflow_kernel.Definition.Model.{Uuid}
use svc_workflow_kernel.Store.{Db}
use svc_workflow_kernel.Transition.Small.{
  Json, small_platform, small_platform-ReadsBack, no_fault, small_db,
}
use svc_workflow_kernel.Replay.Facts.{
  workflow_state_version_conflict, idempotency_conflict, internal_consistency, principal_not_found,
}
use svc_workflow_kernel.Recovery.Error.{label, detail, status_code, error_body, error_from_body}
use svc_workflow_kernel.Recovery.Error.Stored.{error_from_body-error_body}
use svc_workflow_kernel.Recovery.Receipt.{
  owned, replay, conflict, acquire, complete, write_attempt, record_conflict_or_processing,
}
use svc_workflow_kernel.Recovery.Receipt.Answered.{acquire-complete}

error_from_body-error_body_example :
    error_from_body small_platform (error_body small_platform (workflow_state_version_conflict 1 2))
    ≡ workflow_state_version_conflict 1 2
error_from_body-error_body_example =
    error_from_body-error_body small_platform small_platform-ReadsBack
      (workflow_state_version_conflict 1 2) (omega arith, omega arith)

reads_absent_principal :
    error_from_body small_platform (error_body small_platform principal_not_found)
    ≡ internal_consistency "replayed failure"
unfolding error_from_body error_body label detail
reads_absent_principal = refl

records_conflict :
    record_conflict_or_processing small_platform no_fault small_db 50 (conflict 9) 1 "key" "hash"
    ≡ ok (
      idempotency_conflict,
      record small_db {
        audits =
            record {
              audit_id = 50;
              command_id = 9;
              principal_id = 1;
              idempotency_key = "key";
              attempt_type = "IDEMPOTENCY_CONFLICT";
              failure_reason = some "request hash mismatch";
              request_hash = "hash";
              details = some (
                  small_platform.object
                    (("error", small_platform.text "idempotency_conflict") ∷ []));
            }
            ∷ [];
      },
    )
unfolding record_conflict_or_processing write_attempt label
records_conflict = refl

acquire-complete_example :
    (claimed : Db Json) × (stored : Db Json) × (acquire small_platform no_fault small_db 9 1 "key"
        "REBUILD_PROJECTION" "hash"
      ≡ ok (owned 9, claimed))
    × (complete small_platform no_fault claimed 9
          (status_code (workflow_state_version_conflict 1 2))
          (error_body small_platform (workflow_state_version_conflict 1 2))
        ≡ ok stored)
    × ((other : Uuid) (other_type : String)
        → acquire small_platform no_fault stored other 1 "key" other_type "hash"
          ≡ ok (
            replay 9
                (status_code (workflow_state_version_conflict 1 2))
                (error_body small_platform (workflow_state_version_conflict 1 2)),
            stored,
          ))
    × ((other : Uuid) (other_type other_hash : String)
        → str_eq "hash" other_hash ≡ false
        → acquire small_platform no_fault stored other 1 "key" other_type other_hash
          ≡ ok (conflict 9, stored))
    × (error_from_body small_platform
          (error_body small_platform (workflow_state_version_conflict 1 2))
        ≡ workflow_state_version_conflict 1 2)
acquire-complete_example =
    acquire-complete small_platform no_fault small_platform-ReadsBack small_db 9 1 "key"
      "REBUILD_PROJECTION" "hash" (workflow_state_version_conflict 1 2) (λ s. refl) refl tt
      (omega arith, omega arith) refl
