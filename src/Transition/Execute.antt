-- ===== src/Transition/Execute.antt =====
-- `execute_workflow_transition_atomically` of transition_transaction.rs: one transaction from the
-- claim of the receipt to the commit. The value is the result with the tables as the database keeps
-- them: what is not committed is dropped. A commit that reports an error has not committed.
use svc_workflow_kernel.Prelude.{Option, none, some, String}
use svc_workflow_kernel.Prelude.Result.{Result, ok, err, ◌>>=◌}
use svc_workflow_kernel.Platform.{Platform}
use svc_workflow_kernel.Definition.Model.{Uuid}
use svc_workflow_kernel.Store.{Db, Faults, attempt, begin, commit}
use svc_workflow_kernel.Transition.Error.{
  ExecuteWorkflowTransitionError, transition_error_code, error_response_body,
  replayed_failure_error, internal_consistency, storage_error,
}
use svc_workflow_kernel.Transition.Command.{
  ExecuteWorkflowTransitionCommand, FreshIds, TransitionResult, TransitionOutcome, executed,
  replayed, replayed_failure,
}
use svc_workflow_kernel.Transition.Receipt.{
  try_insert_transition_receipt, handle_receipt_replay, complete_transition_receipt,
}
use svc_workflow_kernel.Transition.Checks.{Abort, deterministic, rollback, Step, Plan, check_all}
use svc_workflow_kernel.Transition.Facts.{
  FactResult, compute_json_digest, transition_result, write_facts,
}
pub mod Atomic
pub mod Fresh
pub mod Replay
pub mod Refused

abbrev pub Outcome : Type 0 → Type 0
Outcome V = Result ExecuteWorkflowTransitionError (TransitionOutcome V)

module _ (P : Platform) (fault : Faults) where
  open P use {Value}

  -- `tx.commit()`: the tables of the transaction, or the error that keeps the old ones.
  abbrev pub commit_tx : Db Value → FactResult (Db Value)
  commit_tx db = attempt fault storage_error commit db

  -- The result and the tables after a commit of `new`, or after the error that keeps `old`.
  abbrev pub settle : Db Value → Outcome Value → FactResult (Db Value) → Outcome Value × Db Value
  settle old outcome (ok new) = (outcome, new)
  settle old outcome (err e) = (err e, old)

  -- `Ok(_)` is a replay that is neither of the two kinds.
  abbrev pub replay_outcome :
      Result ExecuteWorkflowTransitionError (Option (TransitionOutcome Value)) → Outcome Value
  replay_outcome (ok (some (replayed result))) = ok (replayed result)
  replay_outcome (ok (some (replayed_failure status body))) = ok (replayed_failure status body)
  replay_outcome (ok _) = err (internal_consistency "unexpected replay state")
  replay_outcome (err e) = err e

  -- `transition_validation::persist_deterministic_failure`
  unfoldable pub persist_deterministic_failure :
      Db Value → FreshIds → ExecuteWorkflowTransitionError → FactResult (Db Value)
  persist_deterministic_failure db ids e = do
    digest ← compute_json_digest P fault (error_response_body P e)
    completed ←
        complete_transition_receipt P fault db ids.command_id (transition_error_code e)
          (error_response_body P e) digest
    commit_tx completed

  -- How the transaction ends after the checks on the tables `db`, from the tables `old`.
  unfoldable pub conclude :
      Db Value
      → Db Value
      → FreshIds
      → ExecuteWorkflowTransitionCommand Value
      → Step (Plan Value)
      → Outcome Value × Db Value
  conclude old db ids cmd (err (deterministic e)) =
      settle old (err e) (persist_deterministic_failure db ids e)
  conclude old db ids cmd (err (rollback e)) = (err e, old)
  conclude old db ids cmd (ok plan) =
      settle old (ok (executed (transition_result P fault ids cmd plan)))
        (write_facts P fault db ids cmd plan >>= commit_tx)

  -- Steps 2 to 19, with the receipt claimed in `db`.
  unfoldable pub run_claimed :
      Db Value
      → Db Value
      → FreshIds
      → ExecuteWorkflowTransitionCommand Value
      → Outcome Value × Db Value
  run_claimed old db ids cmd = conclude old db ids cmd (check_all P fault db ids cmd)

  -- The begin of the transaction and the claim of the key.
  unfoldable pub open_transaction :
      Db Value
      → FreshIds
      → ExecuteWorkflowTransitionCommand Value
      → String
      → FactResult (Option Uuid × Db Value)
  open_transaction db ids cmd request_hash = do
    tx ← attempt fault storage_error begin db
    try_insert_transition_receipt P fault tx ids.command_id cmd.principal_id cmd.idempotency_key
        request_hash

  -- The branch on the receipt: claimed, or there before.
  unfoldable pub dispatch :
      Db Value
      → FreshIds
      → ExecuteWorkflowTransitionCommand Value
      → String
      → FactResult (Option Uuid × Db Value)
      → Outcome Value × Db Value
  dispatch db ids cmd request_hash (err e) = (err e, db)
  dispatch db ids cmd request_hash (ok (some command_id, claimed)) = run_claimed db claimed ids cmd
  dispatch db ids cmd request_hash (ok (none, tx)) =
      let (replay, audited) =
        handle_receipt_replay P fault tx ids.audit_id cmd.principal_id cmd.idempotency_key
          request_hash in
      settle db (replay_outcome replay) (commit_tx audited)

  unfoldable pub execute_workflow_transition_atomically :
      Db Value
      → FreshIds
      → ExecuteWorkflowTransitionCommand Value
      → String
      → Outcome Value × Db Value
  execute_workflow_transition_atomically db ids cmd request_hash =
      dispatch db ids cmd request_hash (open_transaction db ids cmd request_hash)

  -- The last step of `execute_transition`: a stored failure is answered as the error it was.
  unfoldable pub public_result :
      Outcome Value → Result ExecuteWorkflowTransitionError TransitionResult
  public_result (ok (executed result)) = ok result
  public_result (ok (replayed result)) = ok result
  public_result (ok (replayed_failure status body)) = err (replayed_failure_error P status body)
  public_result (err e) = err e
