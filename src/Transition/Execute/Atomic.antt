-- ===== src/Transition/Execute/Atomic.antt =====
-- What a transaction that does not execute leaves in the tables.
use svc_workflow_kernel.Prelude.{
  ◌≡◌, refl, ap, ◌∙◌, Option, none, some, Bool, true, false, String, arith, inl, inr, find?,
  Option-cases,
}
use svc_workflow_kernel.Prelude.Result.{ok, err, Result-cases, ◌>>=◌, question-ok}
use svc_workflow_kernel.Platform.{Platform}
use svc_workflow_kernel.Definition.Model.{Uuid}
use svc_workflow_kernel.Store.{I32, tables, attempt, attempt-eq-ok, begin, commit, Db, Faults}
use svc_workflow_kernel.Transition.Error.{
  ExecuteWorkflowTransitionError, error_response_body, storage_error,
}
use svc_workflow_kernel.Transition.Command.{ExecuteWorkflowTransitionCommand, FreshIds, executed}
use svc_workflow_kernel.Transition.Receipt.{
  has_key, try_insert_transition_receipt, replay_transition_receipt, handle_receipt_replay,
  handle_replay, complete_transition_receipt, write_transition_attempt_audit,
  TransitionReplayResult, completed_match, completed_conflict, still_processing,
}
use svc_workflow_kernel.Transition.Facts.{FactResult, compute_json_digest, write_facts}
use svc_workflow_kernel.Transition.Checks.{deterministic, rollback, Step, Plan, check_all}
use svc_workflow_kernel.Transition.Execute.{
  Outcome, settle, commit_tx, replay_outcome, persist_deterministic_failure, conclude, run_claimed,
  open_transaction, dispatch, execute_workflow_transition_atomically,
}

abbrev pub is_executed : {V : Type 0} → Outcome V → Bool
is_executed (ok (executed r)) = true
is_executed _ = false

module _ (P : Platform) (fault : Faults) where
  open P use {Value}

  pub try_insert-tables :
      (db : Db Value) (id principal : Uuid) (key hash : String) {o : Option Uuid} {tx : Db Value}
      → try_insert_transition_receipt P fault db id principal key hash ≡ ok (o, tx)
      → tables tx ≡ tables db
  unfolding try_insert_transition_receipt
  try_insert-tables db id principal key hash h =
      elim (Option-cases (find? (has_key principal key) db.receipts)) [
        | inl e ↦ ground (arith, e)
        | inr (r, e) ↦ ground (arith, e)
      ]

  pub complete-tables :
      (db : Db Value) (id : Uuid) (status : I32) (body : Value) (digest : String) {tx : Db Value}
      → complete_transition_receipt P fault db id status body digest ≡ ok tx
      → tables tx ≡ tables db
  unfolding complete_transition_receipt
  complete-tables db id status body digest h = ground arith

  audit-tables :
      (db : Db Value) (audit id principal : Uuid) (key hash original : String) {tx : Db Value}
      → write_transition_attempt_audit P fault db audit id principal key hash original ≡ ok tx
      → tables tx ≡ tables db
  unfolding write_transition_attempt_audit
  audit-tables db audit id principal key hash original h = ground arith

  handle_replay-tables :
      (db : Db Value) (audit principal : Uuid) (key hash : String)
      (replay : TransitionReplayResult P fault)
      → tables (handle_replay P fault db audit principal key hash replay).1 ≡ tables db
  unfolding handle_replay write_transition_attempt_audit
  handle_replay-tables db audit principal key hash (completed_match id status body) = ground arith
  handle_replay-tables db audit principal key hash (completed_conflict id original) = ground arith
  handle_replay-tables db audit principal key hash still_processing = refl

  pub handle_receipt_replay-tables :
      (db : Db Value) (audit principal : Uuid) (key hash : String)
      → tables (handle_receipt_replay P fault db audit principal key hash).1 ≡ tables db
  unfolding handle_receipt_replay
  handle_receipt_replay-tables db audit principal key hash =
      elim (Result-cases (replay_transition_receipt P fault db principal key hash)) [
        | inl (e, h) ↦ rw (h, handle_receipt_replay) refl
        | inr (replay, h) ↦
            rw (h, handle_receipt_replay) (handle_replay-tables db audit principal key hash replay)
      ]

  pub persist-tables :
      (db : Db Value) (ids : FreshIds) (e : ExecuteWorkflowTransitionError) {tx : Db Value}
      → persist_deterministic_failure P fault db ids e ≡ ok tx
      → tables tx ≡ tables db
  unfolding persist_deterministic_failure
  persist-tables db ids e {tx} h =
      let (digest, _, h) =
        question-ok (compute_json_digest P fault (error_response_body P e)) _ h in
      let (completed, done, h) =
        question-ok (complete_transition_receipt P fault db ids.command_id _ _ digest) _ h in
      ap tables (attempt-eq-ok fault storage_error commit completed h)
      ∙ complete-tables db ids.command_id _ _ digest done

  settle-tables :
      (db : Db Value) (outcome : Outcome Value) (new : FactResult (Db Value))
      → ((tx : Db Value) → new ≡ ok tx → tables tx ≡ tables db)
      → tables (settle P fault db outcome new).1 ≡ tables db
  settle-tables db outcome (ok tx) h = h tx refl
  settle-tables db outcome (err e) h = refl

  -- After the checks, and before the writes, only the receipts have changed.
  conclude-tables :
      (db tx : Db Value) (ids : FreshIds) (cmd : ExecuteWorkflowTransitionCommand Value)
      (checked : Step (Plan Value))
      → tables tx ≡ tables db
      → is_executed (conclude P fault db tx ids cmd checked).0 ≡ false
      → tables (conclude P fault db tx ids cmd checked).1 ≡ tables db
  unfolding conclude
  conclude-tables db tx ids cmd (err (deterministic e)) same h =
      settle-tables db (err e) (persist_deterministic_failure P fault tx ids e)
        (λ new k. persist-tables tx ids e k ∙ same)
  conclude-tables db tx ids cmd (err (rollback e)) same h = refl
  conclude-tables db tx ids cmd (ok plan) same h =
      elim (Result-cases (write_facts P fault tx ids cmd plan >>= commit_tx P fault)) [
        | inl (e, k) ↦ rw k refl
        | inr (new, k) ↦ cc (rw k at h)
      ]

  open_transaction-tables :
      (db : Db Value) (ids : FreshIds) (cmd : ExecuteWorkflowTransitionCommand Value)
      (hash : String) {o : Option Uuid} {tx : Db Value}
      → open_transaction P fault db ids cmd hash ≡ ok (o, tx)
      → tables tx ≡ tables db
  unfolding open_transaction
  open_transaction-tables db ids cmd hash h =
      let (begun, b, h) = question-ok (attempt fault storage_error begin db) _ h in
      try_insert-tables begun ids.command_id cmd.principal_id cmd.idempotency_key hash h
      ∙ ap tables (attempt-eq-ok fault storage_error begin db b)

  dispatch-tables :
      (db : Db Value) (ids : FreshIds) (cmd : ExecuteWorkflowTransitionCommand Value)
      (hash : String) (opened : FactResult (Option Uuid × Db Value))
      → ((o : Option Uuid) (tx : Db Value) → opened ≡ ok (o, tx) → tables tx ≡ tables db)
      → is_executed (dispatch P fault db ids cmd hash opened).0 ≡ false
      → tables (dispatch P fault db ids cmd hash opened).1 ≡ tables db
  unfolding dispatch run_claimed
  dispatch-tables db ids cmd hash (err e) same h = refl
  dispatch-tables db ids cmd hash (ok (some id, tx)) same h =
      conclude-tables db tx ids cmd (check_all P fault tx ids cmd) (same (some id) tx refl) h
  dispatch-tables db ids cmd hash (ok (none, tx)) same h =
      let (replay, audited) =
        handle_receipt_replay P fault tx ids.audit_id cmd.principal_id cmd.idempotency_key hash in
      settle-tables db (replay_outcome P fault replay) (commit_tx P fault audited) (λ new k.
        ap tables (attempt-eq-ok fault storage_error commit audited k)
        ∙ handle_receipt_replay-tables tx ids.audit_id cmd.principal_id cmd.idempotency_key hash
        ∙ same none tx refl)

  -- A transaction that does not execute, because a check refuses it, because it is a replay or
  -- because any statement fails at any point, leaves every table but the receipts and the audits as
  -- it was: no visit, submission, event or instance is half written.
  pub execute-tables :
      (db : Db Value) (ids : FreshIds) (cmd : ExecuteWorkflowTransitionCommand Value)
      (hash : String)
      → is_executed (execute_workflow_transition_atomically P fault db ids cmd hash).0 ≡ false
      → tables (execute_workflow_transition_atomically P fault db ids cmd hash).1 ≡ tables db
  unfolding execute_workflow_transition_atomically
  execute-tables db ids cmd hash h =
      dispatch-tables db ids cmd hash (open_transaction P fault db ids cmd hash)
        (λ o tx k. open_transaction-tables db ids cmd hash k) h
