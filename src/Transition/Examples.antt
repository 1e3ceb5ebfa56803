-- ===== src/Transition/Examples.antt =====
-- The theorems on the transaction at a small database.
use svc_workflow_kernel.Prelude.{str_eq_iff, ◌≡◌, ◌≢◌, refl, ap, ◌∙◌, some, false, [], ◌∷◌, arith}
use svc_workflow_kernel.Prelude.Result.{Result, ok, err}
use svc_workflow_kernel.Enums.{completed, effect_text}
use svc_workflow_kernel.Store.{ReceiptRow, Db, tables}
use svc_workflow_kernel.Transition.Error.{
  ExecuteWorkflowTransitionError, workflow_state_version_conflict, idempotency_conflict,
  is_deterministic_error, transition_error_code, error_response_body, replayed_failure_error,
}
use svc_workflow_kernel.Transition.Error.Replay.{replayed_failure_error-error_response_body}
use svc_workflow_kernel.Transition.Command.{
  ExecuteWorkflowTransitionCommand, TransitionOutcome, executed, replayed,
}
use svc_workflow_kernel.Transition.Receipt.{
  claim, try_insert_transition_receipt, complete_transition_receipt,
}
use svc_workflow_kernel.Transition.Execute.{
  persist_deterministic_failure, conclude, run_claimed, open_transaction, dispatch,
  execute_workflow_transition_atomically,
}
use svc_workflow_kernel.Transition.Checks.{
  check_all, check_caller, check_transition, check_submission, check_primary, check_target,
  max_visit_number,
}
use svc_workflow_kernel.Transition.Reads.{
  lock_instance, validate_principal_enabled, validate_definition_version_status, read_current_visit,
  read_source_node, read_transition, read_target_node, resolve_assignee,
}
use svc_workflow_kernel.Transition.Facts.{
  write_facts, insert_optional_submission, insert_node_visit, update_instance, update_rows,
  optional_digest, insert_event, compute_json_digest, event_data, response_body,
}
use svc_workflow_kernel.Transition.Execute.Fresh.{IsExecution, execute-IsExecution}
use svc_workflow_kernel.Transition.History.Keys.{UniqueKeys, Runs-UniqueKeys}
use svc_workflow_kernel.Transition.History.{
  Runs, next, done, Appends, HasCurrentVisits, Runs-Appends, Runs-HasCurrentVisits,
}
use svc_workflow_kernel.Transition.Execute.{public_result}
use svc_workflow_kernel.Transition.Execute.Refused.{execute-refused}
use svc_workflow_kernel.Prelude.{is_empty, sym}
use svc_workflow_kernel.Transition.Execute.Atomic.{is_executed, execute-tables}
use svc_workflow_kernel.Transition.Execute.Replay.{
  Answers, execute-replayed, execute-idempotency_conflict, conflict_audit,
}
use svc_workflow_kernel.Transition.Small.{
  small_platform, no_fault, lost_commit, small_db, finish, small_ids, run, finished, Json,
  small_platform-ReadsBack, null_json,
}

run_executes :
    execute_workflow_transition_atomically small_platform no_fault small_db small_ids finish "hash"
    ≡ (ok (executed finished), (run no_fault).1)
unfolding execute_workflow_transition_atomically open_transaction dispatch run_claimed conclude
    check_all check_caller check_transition check_submission check_primary check_target
    max_visit_number lock_instance validate_principal_enabled validate_definition_version_status
    read_current_visit read_source_node read_transition read_target_node resolve_assignee
    is_deterministic_error try_insert_transition_receipt write_facts insert_optional_submission
    insert_node_visit update_instance update_rows optional_digest insert_event compute_json_digest
    event_data response_body complete_transition_receipt persist_deterministic_failure effect_text
run_executes = refl

execute-IsExecution_example :
    IsExecution small_platform no_fault small_ids finish "hash" finished small_db (run no_fault).1
execute-IsExecution_example =
    execute-IsExecution small_platform no_fault small_db small_ids finish "hash" finished
      (run no_fault).1 run_executes

run_loses_commit : is_executed (run lost_commit).0 ≡ false
unfolding execute_workflow_transition_atomically open_transaction dispatch run_claimed conclude
    check_all check_caller check_transition check_submission check_primary check_target
    max_visit_number lock_instance validate_principal_enabled validate_definition_version_status
    read_current_visit read_source_node read_transition read_target_node resolve_assignee
    is_deterministic_error try_insert_transition_receipt write_facts insert_optional_submission
    insert_node_visit update_instance update_rows optional_digest insert_event compute_json_digest
    event_data response_body complete_transition_receipt persist_deterministic_failure effect_text
run_loses_commit = refl

execute-tables_example : tables (run lost_commit).1 ≡ tables small_db
execute-tables_example =
    execute-tables small_platform lost_commit small_db small_ids finish "hash" run_loses_commit

no_fault-Answers : Answers no_fault
no_fault-Answers = record {
  begin = refl;
  receipt_insert = refl;
  receipt_select = refl;
  commit = refl;
}

execute-replayed_example :
    execute_workflow_transition_atomically small_platform no_fault
      (run no_fault).1
      small_ids
      finish
      "hash"
    ≡ (ok (replayed finished), (run no_fault).1)
execute-replayed_example =
    execute-replayed small_platform small_platform-ReadsBack no_fault no_fault-Answers no_fault
      small_db small_ids small_ids finish "hash" finished (run no_fault).1 run_executes

abbrev used_receipt : ReceiptRow Json
used_receipt = record (claim small_platform no_fault 40 1 "key" "hash") {
  receipt_status = completed;
  response_status = some 200;
  response_body = some null_json;
  response_digest = some "digest";
}

abbrev used_db : Db Json
used_db = record small_db { receipts = used_receipt ∷ [] }

hashes_differ : used_receipt.request_hash ≢ "other"
hashes_differ h = cc ((str_eq_iff "hash" "other").1 h)

execute-idempotency_conflict_example :
    execute_workflow_transition_atomically small_platform no_fault used_db small_ids finish "other"
    ≡ (
      err (idempotency_conflict 40 "hash"),
      record used_db {
        audits =
            conflict_audit small_platform small_platform-ReadsBack no_fault small_ids.audit_id
              finish "other" used_receipt
            ∷ used_db.audits;
      },
    )
execute-idempotency_conflict_example =
    execute-idempotency_conflict small_platform small_platform-ReadsBack no_fault no_fault-Answers
      refl used_db small_ids finish "other" used_receipt refl refl hashes_differ

replayed_failure_error-error_response_body_example :
    replayed_failure_error small_platform
      (transition_error_code (workflow_state_version_conflict 1 2))
      (error_response_body small_platform (workflow_state_version_conflict 1 2))
    ≡ workflow_state_version_conflict 1 2
unfolding is_deterministic_error
replayed_failure_error-error_response_body_example =
    replayed_failure_error-error_response_body small_platform small_platform-ReadsBack
      (workflow_state_version_conflict 1 2) (omega arith, omega arith) refl

-- The command at a version that has passed.
abbrev stale : ExecuteWorkflowTransitionCommand Json
stale = record finish { expected_workflow_state_version = 9 }

abbrev run_stale : Result ExecuteWorkflowTransitionError (TransitionOutcome Json) × Db Json
run_stale =
    execute_workflow_transition_atomically small_platform no_fault small_db small_ids stale "hash"

run_refuses :
    execute_workflow_transition_atomically small_platform no_fault small_db small_ids stale "hash"
    ≡ (err (workflow_state_version_conflict 9 1), run_stale.1)
unfolding execute_workflow_transition_atomically open_transaction dispatch run_claimed conclude
    check_all check_caller check_transition check_submission check_primary check_target
    max_visit_number lock_instance validate_principal_enabled validate_definition_version_status
    read_current_visit read_source_node read_transition read_target_node resolve_assignee
    is_deterministic_error try_insert_transition_receipt write_facts insert_optional_submission
    insert_node_visit update_instance update_rows optional_digest insert_event compute_json_digest
    event_data response_body complete_transition_receipt persist_deterministic_failure effect_text
run_refuses = refl

run_stores : is_empty run_stale.1.receipts ≡ false
unfolding execute_workflow_transition_atomically open_transaction dispatch run_claimed conclude
    check_all check_caller check_transition check_submission check_primary check_target
    max_visit_number lock_instance validate_principal_enabled validate_definition_version_status
    read_current_visit read_source_node read_transition read_target_node resolve_assignee
    is_deterministic_error try_insert_transition_receipt write_facts insert_optional_submission
    insert_node_visit update_instance update_rows optional_digest insert_event compute_json_digest
    event_data response_body complete_transition_receipt persist_deterministic_failure effect_text
run_stores = refl

run_changes : run_stale.1 ≢ small_db
run_changes h = cc (sym run_stores ∙ ap (λ d. is_empty d.receipts) h)

execute-refused_example :
    let (outcome, later) =
      execute_workflow_transition_atomically small_platform no_fault run_stale.1 small_ids stale
        "hash" in
    (public_result small_platform no_fault outcome ≡ err (workflow_state_version_conflict 9 1))
    × (later ≡ run_stale.1)
unfolding is_deterministic_error
execute-refused_example =
    execute-refused small_platform small_platform-ReadsBack no_fault no_fault-Answers no_fault
      small_db small_ids small_ids stale "hash" (workflow_state_version_conflict 9 1) run_stale.1
      refl run_refuses refl (omega arith, omega arith) run_changes

-- The transition executes, and a stale command is then refused.
abbrev last_db : Db Json
last_db =
    (execute_workflow_transition_atomically small_platform lost_commit (run no_fault).1 small_ids
      stale "other").1

small_run : Runs small_platform small_db last_db
small_run =
    next no_fault small_db small_ids finish "hash"
      (next lost_commit (run no_fault).1 small_ids stale "other" (done last_db))

Runs-Appends_example : Appends small_db last_db
Runs-Appends_example = Runs-Appends small_platform small_run

Runs-HasCurrentVisits_example : HasCurrentVisits last_db
Runs-HasCurrentVisits_example = Runs-HasCurrentVisits small_platform small_run (refl, tt)

Runs-UniqueKeys_example : UniqueKeys last_db.receipts
Runs-UniqueKeys_example = Runs-UniqueKeys small_platform small_run tt
