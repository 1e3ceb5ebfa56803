-- ===== src/Transition/Execute/Replay.antt =====
-- A command that is sent again: the stored response, the conflict of a reused key.
use svc_workflow_kernel.Prelude.{
  ◌≢◌, ◌<◌, ◌≡◌, refl, ap, ◌∙◌, Option, none, some, String, List, [], ◌∷◌, find?, map, str_eq,
  str_eq_iff, Bool-cases, inl, inr, arith,
}
use svc_workflow_kernel.Prelude.Result.{Result, ok, err}
use svc_workflow_kernel.Platform.{Platform, ReadsBack, index}
use svc_workflow_kernel.Enums.{completed}
use svc_workflow_kernel.Definition.Model.{Uuid}
use svc_workflow_kernel.Store.{
  I32, ReceiptRow, AuditRow, Db, Faults, attempt, begin, commit, receipt_insert, receipt_select,
  audit_insert,
}
use svc_workflow_kernel.Transition.Error.{ExecuteWorkflowTransitionError, idempotency_conflict}
use svc_workflow_kernel.Transition.Command.{
  ExecuteWorkflowTransitionCommand, FreshIds, TransitionResult, TransitionOutcome, executed,
  replayed,
}
use svc_workflow_kernel.Transition.Receipt.{
  has_key, claim, uuid_at, i32_or_1, try_insert_transition_receipt, replay_transition_receipt,
  parse_replayed_response, completed_match, replay_row, handle_replay, handle_receipt_replay,
  write_transition_attempt_audit, complete_row,
}
use svc_workflow_kernel.Transition.Facts.{response_body}
use svc_workflow_kernel.Transition.Execute.{
  settle, commit_tx, replay_outcome, open_transaction, dispatch,
  execute_workflow_transition_atomically,
}
use svc_workflow_kernel.Transition.Execute.Fresh.{
  completed_receipt, find-completed, execute-IsExecution,
}

-- The statements of a replay answer.
pub record Answers (fault : Faults) : Type 0 where
  pub begin : fault begin ≡ none
  pub receipt_insert : fault receipt_insert ≡ none
  pub receipt_select : fault receipt_select ≡ none
  pub commit : fault commit ≡ none

abbrev stored : Uuid → Uuid → Uuid → Uuid → Option Uuid → I32 → I32 → TransitionResult
stored wf context source current submission version sequence = record {
  workflow_instance_id = wf;
  workflow_state_version = version;
  current_context_revision_id = context;
  source_node_visit_id = source;
  current_node_visit_id = current;
  submission_id = submission;
  event_sequence = sequence;
}

module _ (P : Platform) (laws : ReadsBack P) (fault : Faults) where
  open P use {Value}
  open laws use {get_object, as_str_text, as_str_null, as_i32_number, parse_uuid_text}

  parse_fields :
      (wf context source current : Uuid) (submission : Option Uuid) {version sequence : I32}
      → version < 4294967296
      → sequence < 4294967296
      → parse_replayed_response P fault
          (response_body P fault (stored wf context source current submission version sequence))
        ≡ ok (stored wf context source current submission version sequence)
  unfolding parse_replayed_response response_body
  parse_fields wf context source current none {version} {sequence} v s = simp (
    uuid_at,
    i32_or_1,
    index,
    get_object,
    as_str_text,
    as_str_null,
    parse_uuid_text,
    as_i32_number version v,
    as_i32_number sequence s,
  )
  parse_fields wf context source current (some id) {version} {sequence} v s = simp (
    uuid_at,
    i32_or_1,
    index,
    get_object,
    as_str_text,
    parse_uuid_text,
    as_i32_number version v,
    as_i32_number sequence s,
  )

  -- The body of a response is read back as the result that it stores, if its numbers are `i32`
  -- values.
  pub parse_replayed_response-response_body :
      (r : TransitionResult)
      → r.workflow_state_version < 4294967296
      → r.event_sequence < 4294967296
      → parse_replayed_response P fault (response_body P fault r) ≡ ok r
  parse_replayed_response-response_body r v s =
      parse_fields r.workflow_instance_id r.current_context_revision_id r.source_node_visit_id
        r.current_node_visit_id r.submission_id v s

  handle_receipt_replay-existing :
      Answers fault
      → (db : Db Value) (audit principal : Uuid) (key hash : String) (r : ReceiptRow Value)
      → find? (has_key principal key) db.receipts ≡ some r
      → handle_receipt_replay P fault db audit principal key hash
        ≡ handle_replay P fault db audit principal key hash
            (replay_row P fault r hash r.receipt_status)
  unfolding handle_receipt_replay replay_transition_receipt
  handle_receipt_replay-existing answers db audit principal key hash r found =
      ground (arith, answers.receipt_select, found)

  open_transaction-existing :
      Answers fault
      → (db : Db Value) (ids : FreshIds) (cmd : ExecuteWorkflowTransitionCommand Value)
        (hash : String) (r : ReceiptRow Value)
      → find? (has_key cmd.principal_id cmd.idempotency_key) db.receipts ≡ some r
      → open_transaction P fault db ids cmd hash ≡ ok (none, db)
  unfolding open_transaction try_insert_transition_receipt
  open_transaction-existing answers db ids cmd hash r found =
      ground (arith, answers.begin, answers.receipt_insert, found)

  -- A command whose key has a receipt is answered from it.
  execute-existing :
      Answers fault
      → (db : Db Value) (ids : FreshIds) (cmd : ExecuteWorkflowTransitionCommand Value)
        (hash : String) (r : ReceiptRow Value)
        {replay : Result ExecuteWorkflowTransitionError (Option (TransitionOutcome Value))}
        {audited : Db Value}
      → find? (has_key cmd.principal_id cmd.idempotency_key) db.receipts ≡ some r
      → handle_replay P fault db ids.audit_id cmd.principal_id cmd.idempotency_key hash
          (replay_row P fault r hash r.receipt_status)
        ≡ (replay, audited)
      → execute_workflow_transition_atomically P fault db ids cmd hash
        ≡ (replay_outcome P fault replay, audited)
  unfolding execute_workflow_transition_atomically dispatch
  execute-existing answers db ids cmd hash r found replays =
      let handled =
        handle_receipt_replay-existing answers db ids.audit_id cmd.principal_id cmd.idempotency_key
          hash r found
        ∙ replays in
      rw
        (
          open_transaction-existing answers db ids cmd hash r found,
          dispatch,
          commit_tx,
          attempt,
          answers.commit,
          handled,
          settle,
        )
        refl

  replay_row-completed :
      (command_id principal : Uuid) (key hash : String) (status : I32) (body : Value)
      (digest : String)
      → replay_row P fault
          (completed_receipt P fault command_id principal key hash status body digest)
          hash
          completed
        ≡ completed_match command_id status body
  replay_row-completed command_id principal key hash status body digest =
      rw ((str_eq_iff hash hash).1 refl) refl

  -- A receipt that the same command claimed and completed answers it.
  pub execute-completed :
      Answers fault
      → (after : Db Value) (again : FreshIds) (cmd : ExecuteWorkflowTransitionCommand Value)
        (hash : String) (command_id : Uuid) (status : I32) (body : Value) (digest : String)
        (rows : List (ReceiptRow Value))
        {replay : Result ExecuteWorkflowTransitionError (Option (TransitionOutcome Value))}
      → after.receipts
        ≡ map
            (complete_row command_id status body digest)
            (claim P fault command_id cmd.principal_id cmd.idempotency_key hash ∷ rows)
      → handle_replay P fault after again.audit_id cmd.principal_id cmd.idempotency_key hash
          (completed_match command_id status body)
        ≡ (replay, after)
      → execute_workflow_transition_atomically P fault after again cmd hash
        ≡ (replay_outcome P fault replay, after)
  execute-completed answers after again cmd hash command_id status body digest rows same replays =
      execute-existing answers after again cmd hash
        (completed_receipt P fault command_id cmd.principal_id cmd.idempotency_key hash status body
          digest)
        (rw same (
          find-completed P fault command_id cmd.principal_id cmd.idempotency_key hash status body
            digest rows))
        (ap (handle_replay P fault after again.audit_id cmd.principal_id cmd.idempotency_key hash) (
            replay_row-completed command_id cmd.principal_id cmd.idempotency_key hash status body
              digest)
          ∙ replays)

  handle_replay-stored :
      (db : Db Value) (audit principal : Uuid) (key hash : String) (id : Uuid)
      (r : TransitionResult)
      → r.workflow_state_version < 4294967296
      → r.event_sequence < 4294967296
      → handle_replay P fault db audit principal key hash
          (completed_match id 200 (response_body P fault r))
        ≡ (ok (some (replayed r)), db)
  unfolding handle_replay
  handle_replay-stored db audit principal key hash id r v s =
      rw (parse_replayed_response-response_body r v s) refl

  -- The audit of an attempt to use the key of another request.
  abbrev pub conflict_audit :
      Uuid → ExecuteWorkflowTransitionCommand Value → String → ReceiptRow Value → AuditRow Value
  conflict_audit audit_id cmd hash original = record {
    audit_id = audit_id;
    command_id = original.command_id;
    principal_id = cmd.principal_id;
    idempotency_key = cmd.idempotency_key;
    attempt_type = "IDEMPOTENCY_CONFLICT";
    failure_reason = some "request hash mismatch";
    request_hash = hash;
    details = some (
        P.object (
          ("conflictType", P.text "IDEMPOTENCY_KEY_MISMATCH")
          ∷ ("originalRequestHash", P.text original.request_hash)
          ∷ ("newRequestHash", P.text hash)
          ∷ []));
  }

  write_audit-eq-ok :
      fault audit_insert ≡ none
      → (db : Db Value) (audit : Uuid) (cmd : ExecuteWorkflowTransitionCommand Value)
        (hash : String) (original : ReceiptRow Value)
      → write_transition_attempt_audit P fault db audit original.command_id cmd.principal_id
          cmd.idempotency_key hash original.request_hash
        ≡ ok (record db { audits = conflict_audit audit cmd hash original ∷ db.audits })
  unfolding write_transition_attempt_audit
  write_audit-eq-ok audit_ok db audit cmd hash original = rw (attempt, audit_ok) refl

  handle_replay-conflict :
      (db tx : Db Value) (audit principal : Uuid) (key hash : String) (r : ReceiptRow Value)
      → r.receipt_status ≡ completed
      → r.request_hash ≢ hash
      → write_transition_attempt_audit P fault db audit r.command_id principal key hash
          r.request_hash
        ≡ ok tx
      → handle_replay P fault db audit principal key hash
          (replay_row P fault r hash r.receipt_status)
        ≡ (err (idempotency_conflict r.command_id r.request_hash), tx)
  unfolding handle_replay
  handle_replay-conflict db tx audit principal key hash r status differs k =
      elim (Bool-cases (str_eq r.request_hash hash)) [
        | inl e ↦ elim (differs ((str_eq_iff r.request_hash hash).0 e)) [ ]
        | inr e ↦ rw (status, e, handle_replay, k) refl
      ]

  -- A transition that was executed, whatever failed around it, is answered again, under the same key
  -- and hash and by a database that answers, with the result that it had, and the tables stay as
  -- they are: the transition is not executed twice.
  pub execute-replayed :
      Answers fault
      → (fault0 : Faults) (db : Db Value) (ids again : FreshIds)
        (cmd : ExecuteWorkflowTransitionCommand Value) (hash : String) (r : TransitionResult)
        (after : Db Value)
      → execute_workflow_transition_atomically P fault0 db ids cmd hash ≡ (ok (executed r), after)
      → execute_workflow_transition_atomically P fault after again cmd hash
        ≡ (ok (replayed r), after)
  unfolding response_body
  execute-replayed answers fault0 db ids again cmd hash r after h =
      let done = execute-IsExecution P fault0 db ids cmd hash r after h in
      execute-completed answers after again cmd hash ids.command_id 200 (response_body P fault r)
        done.written.digest db.receipts {replay = ok (some (replayed r))} done.written.receipts
        (handle_replay-stored after again.audit_id cmd.principal_id cmd.idempotency_key hash
          ids.command_id r (rw done.answered (ground arith)) (rw done.answered (ground arith)))

  -- A key whose receipt is completed, used again with another request by a database that answers, is
  -- refused with the command and the hash that the receipt holds; the tables are those of before with
  -- one audit row more, which names the receipt's command, the caller, the key, the reason and both
  -- hashes.
  pub execute-idempotency_conflict :
      Answers fault
      → fault audit_insert ≡ none
      → (db : Db Value) (ids : FreshIds) (cmd : ExecuteWorkflowTransitionCommand Value)
        (hash : String) (r : ReceiptRow Value)
      → find? (has_key cmd.principal_id cmd.idempotency_key) db.receipts ≡ some r
      → r.receipt_status ≡ completed
      → r.request_hash ≢ hash
      → execute_workflow_transition_atomically P fault db ids cmd hash ≡ (
        err (idempotency_conflict r.command_id r.request_hash),
        record db { audits = conflict_audit ids.audit_id cmd hash r ∷ db.audits },
      )
  execute-idempotency_conflict answers audit db ids cmd hash r found status differs =
      execute-existing answers db ids cmd hash r found (
        handle_replay-conflict db _ ids.audit_id cmd.principal_id cmd.idempotency_key hash r status
          differs (write_audit-eq-ok audit db ids.audit_id cmd hash r))
