-- ===== src/Transition/Receipt.antt =====
-- The command receipts of transition_receipt.rs, and their replay (transition_helpers.rs).
use svc_workflow_kernel.Prelude.{
  Option, none, some, Bool, true, false, ◌&&◌, not, String, [], ◌∷◌, map, find?, str_eq, ◌==◌,
  if◌then◌else◌,
}
use svc_workflow_kernel.Prelude.Result.{Result, ok, err, ok_or, and_then, ◌>>=◌}
use svc_workflow_kernel.Platform.{Platform, index}
use svc_workflow_kernel.Enums.{ReceiptStatus, processing, completed}
use svc_workflow_kernel.Definition.Model.{Uuid}
use svc_workflow_kernel.Store.{
  I32, ReceiptRow, Db, Faults, attempt, receipt_insert, receipt_select, receipt_complete,
  audit_insert,
}
use svc_workflow_kernel.Transition.Error.{
  ExecuteWorkflowTransitionError, idempotency_conflict, command_still_processing, storage_error,
}
use svc_workflow_kernel.Transition.Command.{
  TransitionResult, TransitionOutcome, replayed, replayed_failure,
}

abbrev pub command_type_execute_transition : String
command_type_execute_transition = "EXECUTE_WORKFLOW_TRANSITION"

-- `WHERE principal_id = $1 AND idempotency_key = $2`
abbrev pub has_key : {V : Type 0} → Uuid → String → ReceiptRow V → Bool
has_key principal key r = (r.principal_id == principal) && str_eq r.idempotency_key key

abbrev pub is_processing : ReceiptStatus → Bool
is_processing processing = true
is_processing completed = false

abbrev pub complete_row : {V : Type 0} → Uuid → I32 → V → String → ReceiptRow V → ReceiptRow V
complete_row command_id status body digest r =
    if (r.command_id == command_id) && is_processing r.receipt_status
    then record r {
      receipt_status = completed;
      response_status = some status;
      response_body = some body;
      response_digest = some digest;
    }
    else r

module _ (P : Platform) (fault : Faults) where
  open P use {Value, null, text, object, as_str, as_i32, parse_uuid}

  -- The receipt with which a command claims its key.
  abbrev pub claim : Uuid → Uuid → String → String → ReceiptRow Value
  claim command_id principal key request_hash = record {
    command_id = command_id;
    principal_id = principal;
    idempotency_key = key;
    command_type = command_type_execute_transition;
    request_hash = request_hash;
    receipt_status = processing;
    response_status = none;
    response_body = none;
    response_digest = none;
  }

  -- `INSERT … ON CONFLICT (principal_id, idempotency_key) DO NOTHING RETURNING command_id`
  unfoldable pub try_insert_transition_receipt :
      Db Value
      → Uuid
      → Uuid
      → String
      → String
      → Result ExecuteWorkflowTransitionError (Option Uuid × Db Value)
  try_insert_transition_receipt db command_id principal key request_hash =
      attempt fault storage_error receipt_insert (elim (find? (has_key principal key) db.receipts) [
        | some r ↦ (none, db)
        | none ↦ (
          some command_id,
          record db { receipts = claim command_id principal key request_hash ∷ db.receipts },
        )
      ])

  pub data TransitionReplayResult : Type 0 where
    completed_match : Uuid → I32 → Value → TransitionReplayResult
    completed_conflict : Uuid → String → TransitionReplayResult
    still_processing : TransitionReplayResult

  -- `COALESCE(response_status, 0)`, `resp_body.unwrap_or(Value::Null)`
  abbrev pub or_else : {A : Type 0} → Option A → A → A
  or_else none d = d
  or_else (some a) d = a

  -- The column is of type `receipt_status`, so the match on its text has no other case.
  abbrev pub replay_row : ReceiptRow Value → String → ReceiptStatus → TransitionReplayResult
  replay_row r new_request_hash completed =
      if str_eq r.request_hash new_request_hash
      then completed_match r.command_id (or_else r.response_status 0) (or_else r.response_body null)
      else completed_conflict r.command_id r.request_hash
  replay_row r new_request_hash processing = still_processing

  unfoldable pub replay_transition_receipt :
      Db Value
      → Uuid
      → String
      → String
      → Result ExecuteWorkflowTransitionError TransitionReplayResult
  replay_transition_receipt db principal key new_request_hash = do
    row ← attempt fault storage_error receipt_select (find? (has_key principal key) db.receipts)
    r ← ok_or row (storage_error "idempotency key vanished between INSERT and SELECT")
    ok (replay_row r new_request_hash r.receipt_status)

  -- `body[key].as_str().and_then(|s| Uuid::parse_str(s).ok())`
  abbrev pub uuid_at : Value → String → Option Uuid
  uuid_at body key = and_then (as_str (index P body key)) parse_uuid

  -- `body[key].as_i64().unwrap_or(1) as i32`
  abbrev pub i32_or_1 : Value → String → I32
  i32_or_1 body key = or_else (as_i32 (index P body key)) 1

  unfoldable pub parse_replayed_response :
      Value → Result ExecuteWorkflowTransitionError TransitionResult
  parse_replayed_response body = do
    wf_id ← ok_or (uuid_at body "workflowInstanceId") (storage_error "missing workflowInstanceId")
    ctx_rev_id ←
        ok_or (uuid_at body "currentContextRevisionId")
          (storage_error "missing currentContextRevisionId")
    sv_id ← ok_or (uuid_at body "sourceNodeVisitId") (storage_error "missing sourceNodeVisitId")
    tv_id ← ok_or (uuid_at body "currentNodeVisitId") (storage_error "missing currentNodeVisitId")
    ok (record {
      workflow_instance_id = wf_id;
      workflow_state_version = i32_or_1 body "workflowStateVersion";
      current_context_revision_id = ctx_rev_id;
      source_node_visit_id = sv_id;
      current_node_visit_id = tv_id;
      submission_id = uuid_at body "submissionId";
      event_sequence = i32_or_1 body "eventSequence";
    })

  -- `write_transition_attempt_audit` with the arguments of its one call.
  unfoldable pub write_transition_attempt_audit :
      Db Value
      → Uuid
      → Uuid
      → Uuid
      → String
      → String
      → String
      → Result ExecuteWorkflowTransitionError (Db Value)
  write_transition_attempt_audit db audit_id command_id principal key request_hash original_hash =
      attempt fault storage_error audit_insert (record db {
        audits =
            record {
              audit_id = audit_id;
              command_id = command_id;
              principal_id = principal;
              idempotency_key = key;
              attempt_type = "IDEMPOTENCY_CONFLICT";
              failure_reason = some "request hash mismatch";
              request_hash = request_hash;
              details = some (
                  object (
                    ("conflictType", text "IDEMPOTENCY_KEY_MISMATCH")
                    ∷ ("originalRequestHash", text original_hash)
                    ∷ ("newRequestHash", text request_hash)
                    ∷ []));
            }
            ∷ db.audits;
      })

  unfoldable pub handle_replay :
      Db Value
      → Uuid
      → Uuid
      → String
      → String
      → TransitionReplayResult
      → Result ExecuteWorkflowTransitionError (Option (TransitionOutcome Value)) × Db Value
  unfolding parse_replayed_response write_transition_attempt_audit
  handle_replay db audit_id principal key request_hash (completed_match _ status body) =
      if not (status == 200)
      then (ok (some (replayed_failure status body)), db)
      else ((do result ← parse_replayed_response body; ok (some (replayed result))), db)
  handle_replay db audit_id principal key request_hash (completed_conflict cid original_hash) =
      elim (write_transition_attempt_audit db audit_id cid principal key request_hash
        original_hash) [
          | ok db' ↦ (err (idempotency_conflict cid original_hash), db')
          | err e ↦ (err e, db)
        ]
  handle_replay db audit_id principal key request_hash still_processing =
      (err command_still_processing, db)

  -- The result, and the tables that the caller commits.
  unfoldable pub handle_receipt_replay :
      Db Value
      → Uuid
      → Uuid
      → String
      → String
      → Result ExecuteWorkflowTransitionError (Option (TransitionOutcome Value)) × Db Value
  unfolding handle_replay replay_transition_receipt
  handle_receipt_replay db audit_id principal key request_hash =
      elim (replay_transition_receipt db principal key request_hash) [
        | err e ↦ (err e, db)
        | ok replay ↦ handle_replay db audit_id principal key request_hash replay
      ]

  -- `UPDATE … WHERE command_id = $4 AND receipt_status = 'PROCESSING'`
  unfoldable pub complete_transition_receipt :
      Db Value → Uuid → I32 → Value → String → Result ExecuteWorkflowTransitionError (Db Value)
  complete_transition_receipt db command_id status body digest =
      attempt fault storage_error receipt_complete
        (record db { receipts = map (complete_row command_id status body digest) db.receipts })
