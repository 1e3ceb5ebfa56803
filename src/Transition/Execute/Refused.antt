-- ===== src/Transition/Execute/Refused.antt =====
-- A refusal that was stored is answered again as the same error.
use svc_workflow_kernel.Prelude.{
  ◌≡◌, ◌==◌, refl, ap, subst, ◌∙◌, Option, none, some, true, false, String, List, map, find?, arith,
  inl, inr, ◌⊎◌, ◌≢◌,
}
use svc_workflow_kernel.Prelude.Result.{ok, err, ◌>>=◌, question-ok, Result-cases}
use svc_workflow_kernel.Platform.{Platform, ReadsBack}
use svc_workflow_kernel.Definition.Model.{Uuid}
use svc_workflow_kernel.Store.{ReceiptRow, Db, Faults, attempt-eq-ok, commit, receipt_complete}
use svc_workflow_kernel.Transition.Error.{
  ExecuteWorkflowTransitionError, transition_error_code, error_response_body,
  is_deterministic_error, storage_error,
}
use svc_workflow_kernel.Transition.Error.Replay.{
  IsI32Error, replayed_failure_error-error_response_body,
}
use svc_workflow_kernel.Transition.Command.{
  ExecuteWorkflowTransitionCommand, FreshIds, replayed_failure,
}
use svc_workflow_kernel.Transition.Receipt.{
  try_insert_transition_receipt, has_key, complete_row, complete_transition_receipt, handle_replay,
  completed_match,
}
use svc_workflow_kernel.Transition.Checks.{Step, Plan, deterministic, rollback, check_all}
use svc_workflow_kernel.Transition.Facts.{FactResult, compute_json_digest, write_facts}
use svc_workflow_kernel.Transition.Execute.{
  commit_tx, persist_deterministic_failure, conclude, run_claimed, open_transaction, dispatch,
  execute_workflow_transition_atomically, public_result,
}
use svc_workflow_kernel.Transition.Execute.Fresh.{claimed}
use svc_workflow_kernel.Transition.Execute.Replay.{Answers, execute-completed}

module _ (P : Platform) (fault : Faults) where
  open P use {Value}

  -- The receipts in which the command's claim is completed with the error.
  abbrev pub Stores :
      List (ReceiptRow Value)
      → FreshIds
      → ExecuteWorkflowTransitionError
      → List (ReceiptRow Value)
      → Type 0
  Stores before ids e after =
      (digest : String) × (after
        ≡ map
            (complete_row ids.command_id (transition_error_code e) (error_response_body P e) digest)
            before)

  pub persist-Stores :
      (db : Db Value) (ids : FreshIds) (e : ExecuteWorkflowTransitionError) {after : Db Value}
      → persist_deterministic_failure P fault db ids e ≡ ok after
      → Stores db.receipts ids e after.receipts
  unfolding persist_deterministic_failure complete_transition_receipt
  persist-Stores db ids e h =
      let (digest, _, h) =
        question-ok (compute_json_digest P fault (error_response_body P e)) _ h in
      let (completed, done, h) =
        question-ok
          (complete_transition_receipt P fault db ids.command_id (transition_error_code e)
            (error_response_body P e) digest)
          _ h in
      (
        digest,
        ap (λ d. d.receipts) (attempt-eq-ok fault storage_error commit completed h)
            ∙ ap (λ d. d.receipts) (attempt-eq-ok fault storage_error receipt_complete _ done),
      )

  -- A transaction that answers with an error and changes the receipts has stored that error.
  conclude-Stores :
      (old db : Db Value) (ids : FreshIds) (cmd : ExecuteWorkflowTransitionCommand Value)
      (checked : Step (Plan Value)) {e : ExecuteWorkflowTransitionError} {after : Db Value}
      → conclude P fault old db ids cmd checked ≡ (err e, after)
      → (after ≡ old) ⊎ Stores db.receipts ids e after.receipts
  unfolding conclude
  conclude-Stores old db ids cmd (err (deterministic f)) {e} {after} h =
      elim (Result-cases (persist_deterministic_failure P fault db ids f)) [
        | inl (g, k) ↦ inl (cc (rw k at h))
        | inr (tx, k) ↦
            let same_error : f ≡ e = cc (rw k at h) in
            let same : tx ≡ after = cc (rw k at h) in
            inr (
              subst (λ x. Stores db.receipts ids x after.receipts) same_error
                (subst (λ d. Stores db.receipts ids f d.receipts) same (persist-Stores db ids f k)))
      ]
  conclude-Stores old db ids cmd (err (rollback e)) h = inl (cc h)
  conclude-Stores old db ids cmd (ok plan) h =
      elim (Result-cases (write_facts P fault db ids cmd plan >>= commit_tx P fault)) [
        | inl (f, k) ↦ inl (cc (rw k at h))
        | inr (tx, k) ↦ cc (rw k at h)
      ]

  dispatch-Stores :
      (db : Db Value) (ids : FreshIds) (cmd : ExecuteWorkflowTransitionCommand Value)
      (hash : String) {e : ExecuteWorkflowTransitionError} {after : Db Value}
      (opened : FactResult (Option Uuid × Db Value))
      → ((o : Option Uuid) (tx : Db Value)
          → opened ≡ ok (o, tx)
          → (o ≢ none) × (tx ≡ claimed P fault db ids cmd hash))
      → dispatch P fault db ids cmd hash opened ≡ (err e, after)
      → (after ≡ db) ⊎ Stores (claimed P fault db ids cmd hash).receipts ids e after.receipts
  unfolding dispatch run_claimed
  dispatch-Stores db ids cmd hash (err f) opens h = inl (cc h)
  dispatch-Stores db ids cmd hash {e} {after} (ok (some id, tx)) opens h =
      subst (λ d. (after ≡ db) ⊎ Stores d.receipts ids e after.receipts) (opens (some id) tx refl).1
        (conclude-Stores db tx ids cmd (check_all P fault tx ids cmd) h)
  dispatch-Stores db ids cmd hash (ok (none, tx)) opens h = elim ((opens none tx refl).0 refl) [ ]

  open_transaction-claimed :
      (db : Db Value) (ids : FreshIds) (cmd : ExecuteWorkflowTransitionCommand Value)
      (hash : String)
      → find? (has_key cmd.principal_id cmd.idempotency_key) db.receipts ≡ none
      → (o : Option Uuid) (tx : Db Value) → open_transaction P fault db ids cmd hash ≡ ok (o, tx)
      → (o ≢ none) × (tx ≡ claimed P fault db ids cmd hash)
  unfolding open_transaction try_insert_transition_receipt
  open_transaction-claimed db ids cmd hash fresh o tx h =
      (ground (arith, fresh), ground (arith, fresh))

-- The status of a refusal is not the 200 of an execution.
deterministic-ne-200 :
    (e : ExecuteWorkflowTransitionError)
    → is_deterministic_error e ≡ true
    → (transition_error_code e == 200) ≡ false
unfolding is_deterministic_error transition_error_code
deterministic-ne-200 e det = ground arith

module _ (P : Platform) (laws : ReadsBack P) (fault : Faults) where
  open P use {Value}

  handle_replay-refused :
      (db : Db Value) (audit principal : Uuid) (key hash : String) (id : Uuid)
      (e : ExecuteWorkflowTransitionError)
      → is_deterministic_error e ≡ true
      → handle_replay P fault db audit principal key hash
          (completed_match id (transition_error_code e) (error_response_body P e))
        ≡ (ok (some (replayed_failure (transition_error_code e) (error_response_body P e))), db)
  unfolding handle_replay
  handle_replay-refused db audit principal key hash id e det = rw (deterministic-ne-200 e det) refl

  -- A command under a fresh key that was answered with a deterministic error, its numbers in range,
  -- and whose refusal was committed, so that the tables are not what they were, is answered again,
  -- under the same key and hash and by a database that answers, with the same error, and the tables
  -- stay as they are.
  pub execute-refused :
      Answers fault
      → (fault0 : Faults) (db : Db Value) (ids again : FreshIds)
        (cmd : ExecuteWorkflowTransitionCommand Value) (hash : String)
        (e : ExecuteWorkflowTransitionError) (after : Db Value)
      → find? (has_key cmd.principal_id cmd.idempotency_key) db.receipts ≡ none
      → execute_workflow_transition_atomically P fault0 db ids cmd hash ≡ (err e, after)
      → is_deterministic_error e ≡ true
      → IsI32Error e
      → after ≢ db
      → let (outcome, later) =
          execute_workflow_transition_atomically P fault after again cmd hash in
        (public_result P fault outcome ≡ err e) × (later ≡ after)
  unfolding execute_workflow_transition_atomically public_result
  execute-refused answers fault0 db ids again cmd hash e after fresh h det small changed =
      elim (dispatch-Stores P fault0 db ids cmd hash (open_transaction P fault0 db ids cmd hash)
        (open_transaction-claimed P fault0 db ids cmd hash fresh) h) [
          | inl same ↦ elim (changed same) [ ]
          | inr (digest, stored) ↦
              rw
                (execute-completed P laws fault answers after again cmd hash ids.command_id
                  (transition_error_code e) (error_response_body P e) digest db.receipts stored
                  (handle_replay-refused after again.audit_id cmd.principal_id cmd.idempotency_key
                    hash ids.command_id e det))
                (ap err (replayed_failure_error-error_response_body P laws e small det), refl)
        ]
