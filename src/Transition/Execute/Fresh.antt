-- ===== src/Transition/Execute/Fresh.antt =====
-- A transition that executes: its guards held, and what it wrote.
use svc_workflow_kernel.Prelude.{
  ◌+◌, ◌%◌, ◌≡◌, ◌≢◌, refl, ap, ◌∙◌, List, map, ◌&&◌, ◌==◌, ==_self, str_eq, str_eq_iff, sym, subst,
  Option, none, some, String, [], ◌∷◌, find?, Option-cases, inl, inr, arith,
}
use svc_workflow_kernel.Prelude.Result.{Result, ok, err, ◌>>=◌, question-ok}
use svc_workflow_kernel.Platform.{Platform}
use svc_workflow_kernel.Enums.{completed}
use svc_workflow_kernel.Definition.Model.{Uuid}
use svc_workflow_kernel.Store.{I32, ReceiptRow, Db, Faults, attempt-eq-ok, commit}
use svc_workflow_kernel.Transition.Error.{ExecuteWorkflowTransitionError, storage_error}
use svc_workflow_kernel.Transition.Command.{
  ExecuteWorkflowTransitionCommand, FreshIds, TransitionResult, TransitionOutcome, executed,
}
use svc_workflow_kernel.Transition.Receipt.{
  has_key, claim, complete_row, try_insert_transition_receipt, handle_receipt_replay,
}
use svc_workflow_kernel.Transition.Checks.{Plan, deterministic, rollback, Step, check_all}
use svc_workflow_kernel.Transition.Checks.Permitted.{IsPermitted, check_all-IsPermitted}
use svc_workflow_kernel.Transition.Facts.{
  FactResult, optional_uuid, transition_result, response_body, write_facts,
}
use svc_workflow_kernel.Transition.Facts.Written.{IsWritten, write_facts-IsWritten}
use svc_workflow_kernel.Transition.Execute.{
  Outcome, settle, commit_tx, replay_outcome, persist_deterministic_failure, conclude, run_claimed,
  open_transaction, dispatch, execute_workflow_transition_atomically,
}

module _ (P : Platform) (fault : Faults) where
  open P use {Value}

  -- The tables with the receipt claimed by the command.
  abbrev pub claimed :
      Db Value → FreshIds → ExecuteWorkflowTransitionCommand Value → String → Db Value
  claimed db ids cmd request_hash = record db {
    receipts =
        claim P fault ids.command_id cmd.principal_id cmd.idempotency_key request_hash
        ∷ db.receipts;
  }

  -- A claimed receipt that is completed with a status and a body.
  abbrev pub completed_receipt :
      Uuid → Uuid → String → String → I32 → Value → String → ReceiptRow Value
  completed_receipt command_id principal key request_hash status body digest = record {
    command_id = command_id;
    principal_id = principal;
    idempotency_key = key;
    command_type = "EXECUTE_WORKFLOW_TRANSITION";
    request_hash = request_hash;
    receipt_status = completed;
    response_status = some status;
    response_body = some body;
    response_digest = some digest;
  }

  pub find-completed :
      (command_id principal : Uuid) (key hash : String) (status : I32) (body : Value)
      (digest : String) (rows : List (ReceiptRow Value))
      → find? (has_key principal key) (
          map
            (complete_row command_id status body digest)
            (claim P fault command_id principal key hash ∷ rows))
        ≡ some (completed_receipt command_id principal key hash status body digest)
  find-completed command_id principal key hash status body digest rows =
      rw (complete_row, ==_self command_id, has_key, ==_self principal, (str_eq_iff key key).1 refl)
        refl

  -- The receipt of the command's principal and key.
  abbrev pub receipt_of :
      ExecuteWorkflowTransitionCommand Value → List (ReceiptRow Value) → Option (ReceiptRow Value)
  receipt_of cmd receipts =
      find?
        (λ row.
          (row.principal_id == cmd.principal_id) && str_eq row.idempotency_key cmd.idempotency_key)
        receipts

  abbrev id_or_null : Option Uuid → Value
  id_or_null none = P.null
  id_or_null (some id) = P.text (P.uuid_text id)

  -- The body under which an answer is stored.
  abbrev pub answer_body : TransitionResult → Value
  answer_body r = P.object (
      ("workflowInstanceId", P.text (P.uuid_text r.workflow_instance_id))
      ∷ ("workflowStateVersion", P.number r.workflow_state_version)
      ∷ ("currentContextRevisionId", P.text (P.uuid_text r.current_context_revision_id))
      ∷ ("sourceNodeVisitId", P.text (P.uuid_text r.source_node_visit_id))
      ∷ ("currentNodeVisitId", P.text (P.uuid_text r.current_node_visit_id))
      ∷ ("submissionId", id_or_null r.submission_id)
      ∷ ("eventSequence", P.number r.event_sequence)
      ∷ [])

  optional_uuid-id_or_null : (id : Option Uuid) → optional_uuid P fault id ≡ id_or_null id
  optional_uuid-id_or_null none = refl
  optional_uuid-id_or_null (some id) = refl

  response_body-answer_body : (r : TransitionResult) → response_body P fault r ≡ answer_body r
  unfolding response_body
  response_body-answer_body r = rw (response_body, optional_uuid-id_or_null r.submission_id) refl

  -- The key was fresh, the checks let a plan through, its writes were committed, and the receipt
  -- holds the answer.
  pub record IsExecution (ids : FreshIds) (cmd : ExecuteWorkflowTransitionCommand Value)
      (request_hash : String) (r : TransitionResult) (before after : Db Value) : Type 0 where
    pub fresh : receipt_of cmd before.receipts ≡ none
    pub plan : Plan Value
    pub permitted : IsPermitted P (claimed before ids cmd request_hash) ids cmd plan
    pub answered : r ≡ record {
      workflow_instance_id = cmd.workflow_instance_id;
      workflow_state_version = (plan.instance_row.workflow_state_version + 1) % 4294967296;
      current_context_revision_id = plan.instance_row.current_context_revision_id;
      source_node_visit_id = plan.instance_row.current_node_visit_id;
      current_node_visit_id = ids.new_node_visit_id;
      submission_id = plan.final_submission_id;
      event_sequence = (plan.instance_row.workflow_state_version + 1) % 4294967296;
    }
    pub written :
        IsWritten P ids cmd plan
          (response_body P fault r)
          (claimed before ids cmd request_hash)
          after
    pub receipt :
        receipt_of cmd after.receipts
        ≡ some (
            completed_receipt ids.command_id cmd.principal_id cmd.idempotency_key request_hash 200
              (answer_body r)
              written.digest)

  settle-eq-ok :
      (old : Db Value) (outcome : Outcome Value) (new : FactResult (Db Value))
      {o : TransitionOutcome Value} {after : Db Value}
      → settle P fault old outcome new ≡ (ok o, after)
      → (outcome ≡ ok o) × (new ≡ ok after)
  settle-eq-ok old outcome new h = ground arith

  conclude-executed :
      (old db : Db Value) (ids : FreshIds) (cmd : ExecuteWorkflowTransitionCommand Value)
      (checked : Step (Plan Value)) {r : TransitionResult} {after : Db Value}
      → conclude P fault old db ids cmd checked ≡ (ok (executed r), after)
      → (plan : Plan Value) × (checked ≡ ok plan)
        × (transition_result P fault ids cmd plan ≡ r)
        × ((write_facts P fault db ids cmd plan >>= commit_tx P fault) ≡ ok after)
  unfolding conclude
  conclude-executed old db ids cmd (err (deterministic e)) h =
      let (bad, _) = settle-eq-ok old (err e) (persist_deterministic_failure P fault db ids e) h in
      cc
  conclude-executed old db ids cmd (err (rollback e)) h = cc
  conclude-executed old db ids cmd (ok plan) h =
      let (same, w) =
        settle-eq-ok old (ok (executed (transition_result P fault ids cmd plan)))
          (write_facts P fault db ids cmd plan >>= commit_tx P fault) h in
      (plan, refl, cc, w)

  run_claimed-executed :
      (old db : Db Value) (ids : FreshIds) (cmd : ExecuteWorkflowTransitionCommand Value)
      {r : TransitionResult} {after : Db Value}
      → run_claimed P fault old db ids cmd ≡ (ok (executed r), after)
      → (plan : Plan Value) × IsPermitted P db ids cmd plan
        × (transition_result P fault ids cmd plan ≡ r)
        × IsWritten P ids cmd plan
            (response_body P fault (transition_result P fault ids cmd plan))
            db
            after
  unfolding run_claimed
  run_claimed-executed old db ids cmd h =
      let (plan, k, same, w) = conclude-executed old db ids cmd (check_all P fault db ids cmd) h in
      let (tx, wrote, c) =
        question-ok (write_facts P fault db ids cmd plan) (commit_tx P fault) w in
      (
        plan,
        check_all-IsPermitted P fault db ids cmd k,
        same,
        subst
            (IsWritten P ids cmd plan
              (response_body P fault (transition_result P fault ids cmd plan)) db)
            (sym (attempt-eq-ok fault storage_error commit tx c))
            (write_facts-IsWritten P fault db ids cmd plan wrote),
      )

  pub open_transaction-fresh :
      (db : Db Value) (ids : FreshIds) (cmd : ExecuteWorkflowTransitionCommand Value)
      (hash : String) {id : Uuid} {tx : Db Value}
      → open_transaction P fault db ids cmd hash ≡ ok (some id, tx)
      → (find? (has_key cmd.principal_id cmd.idempotency_key) db.receipts ≡ none)
        × (tx ≡ claimed db ids cmd hash)
  unfolding open_transaction try_insert_transition_receipt
  open_transaction-fresh db ids cmd hash h =
      elim (Option-cases (find? (has_key cmd.principal_id cmd.idempotency_key) db.receipts)) [
        | inl e ↦ (e, ground (arith, e))
        | inr (r, e) ↦ ground (arith, e)
      ]

  replay_outcome-ne-executed :
      (m : Result ExecuteWorkflowTransitionError (Option (TransitionOutcome Value)))
      {r : TransitionResult}
      → replay_outcome P fault m ≢ ok (executed r)
  replay_outcome-ne-executed m = ground arith

  dispatch-executed :
      (db : Db Value) (ids : FreshIds) (cmd : ExecuteWorkflowTransitionCommand Value)
      (hash : String) (opened : FactResult (Option Uuid × Db Value)) {r : TransitionResult}
      {after : Db Value}
      → dispatch P fault db ids cmd hash opened ≡ (ok (executed r), after)
      → (id : Uuid) × (tx : Db Value) × (opened ≡ ok (some id, tx))
        × (run_claimed P fault db tx ids cmd ≡ (ok (executed r), after))
  unfolding dispatch
  dispatch-executed db ids cmd hash (err e) h = cc
  dispatch-executed db ids cmd hash (ok (some id, tx)) h = (id, tx, refl, h)
  dispatch-executed db ids cmd hash (ok (none, tx)) h =
      let (replay, audited) =
        handle_receipt_replay P fault tx ids.audit_id cmd.principal_id cmd.idempotency_key hash in
      let (bad, _) =
        settle-eq-ok db (replay_outcome P fault replay) (commit_tx P fault audited) h in
      elim (replay_outcome-ne-executed replay bad) [ ]

  -- A transition that executes, whatever the database answers, had a fresh key, a caller that is the
  -- enabled assignee of the current visit at the expected version, and a transition of a runnable
  -- version that the rule of its effect allows; a payload passed the size, schema and RETURN
  -- reference rules, and was given where there is a schema; the new visit has the assignee that the
  -- target names and the next number. The answer has the next version and the new visit. One
  -- instance is moved, one visit and one event with their data and digests are added, a submission
  -- for a payload, and the receipt of the key holds the answer's body and digest; the other rows of
  -- these tables and the other tables are as they were, but for a receipt in progress with the same
  -- command identifier.
  pub execute-IsExecution :
      (db : Db Value) (ids : FreshIds) (cmd : ExecuteWorkflowTransitionCommand Value)
      (hash : String) (r : TransitionResult) (after : Db Value)
      → execute_workflow_transition_atomically P fault db ids cmd hash ≡ (ok (executed r), after)
      → IsExecution ids cmd hash r db after
  unfolding execute_workflow_transition_atomically
  execute-IsExecution db ids cmd hash r after h =
      let (id, tx, k, run) =
        dispatch-executed db ids cmd hash (open_transaction P fault db ids cmd hash) h in
      let (fresh, same) = open_transaction-fresh db ids cmd hash k in
      let (plan, permitted, result, written) =
        run_claimed-executed db (claimed db ids cmd hash) ids cmd
          (subst (λ z. run_claimed P fault db z ids cmd ≡ (ok (executed r), after)) same run) in
      let body = response_body P fault r in
      let wrote : IsWritten P ids cmd plan body (claimed db ids cmd hash) after =
        subst
          (λ x. IsWritten P ids cmd plan (response_body P fault x) (claimed db ids cmd hash) after)
          result written in
      record {
        fresh = fresh;
        plan = plan;
        permitted = permitted;
        answered = sym result;
        written = wrote;
        receipt =
            ap (receipt_of cmd) wrote.receipts
            ∙ find-completed ids.command_id cmd.principal_id cmd.idempotency_key hash 200 body
                wrote.digest db.receipts
            ∙ ap
                (λ b. some (
                  completed_receipt ids.command_id cmd.principal_id cmd.idempotency_key hash 200 b
                    wrote.digest))
                (response_body-answer_body r);
      }
