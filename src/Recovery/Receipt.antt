-- ===== src/Recovery/Receipt.antt =====
-- The receipts of the recovery commands:
-- src/store/postgres/admin_recovery_repository/receipt.rs.
pub mod Answered
use svc_workflow_kernel.Prelude.{
  ℕ, Option, none, some, Bool, ◌&&◌, not, String, str_append, str_eq, List, [], ◌∷◌, map, filter,
  find?, length, ◌==◌, if◌then◌else◌,
}
use svc_workflow_kernel.Prelude.Result.{Result, ok, err, ok_or, err_if, ◌>>=◌, ◌>>◌}
use svc_workflow_kernel.Platform.{Platform}
use svc_workflow_kernel.Enums.{processing, completed}
use svc_workflow_kernel.Definition.Model.{Uuid}
use svc_workflow_kernel.Store.{
  I32, ReceiptRow, Db, Faults, attempt, receipt_insert, receipt_select, receipt_complete,
  audit_insert,
}
use svc_workflow_kernel.Transition.Receipt.{has_key, is_processing, complete_row}
use svc_workflow_kernel.Replay.Facts.{
  RecoveryError, Recovered, internal_consistency, storage_error, idempotency_conflict,
  command_still_processing,
}
use svc_workflow_kernel.Replay.Fields.{recovery_digest}
use svc_workflow_kernel.Recovery.Error.{label}

pub data AcquireReceipt (V : Type 0) : Type 0 where
  owned : Uuid → AcquireReceipt V
  replay : Uuid → I32 → V → AcquireReceipt V
  conflict still_processing : Uuid → AcquireReceipt V

module _ {V : Type 0} where
  abbrev pub command_id : AcquireReceipt V → Uuid
  command_id (owned id) = id
  command_id (replay id status body) = id
  command_id (conflict id) = id
  command_id (still_processing id) = id

  -- The rows that `WHERE command_id = $1 AND receipt_status = 'PROCESSING'` selects.
  abbrev pub affected : Uuid → List (ReceiptRow V) → ℕ
  affected id rows =
      length (filter (λ r. (r.command_id == id) && is_processing r.receipt_status) rows)

  abbrev pub replay_of : ReceiptRow V → Recovered (AcquireReceipt V)
  replay_of r = do
    status ← ok_or r.response_status (internal_consistency "completed receipt has no status")
    body ← ok_or r.response_body (internal_consistency "completed receipt has no body")
    ok (replay r.command_id status body)

  -- The answer of a receipt that is there already.
  abbrev pub existing : ReceiptRow V → String → Recovered (AcquireReceipt V)
  existing r request_hash =
      if not (str_eq r.request_hash request_hash)
      then ok (conflict r.command_id)
      else if is_processing r.receipt_status
      then ok (still_processing r.command_id)
      else replay_of r

module _ (P : Platform) (fault : Faults) where
  open P use {Value, text, object}

  -- `INSERT … ON CONFLICT (principal_id, idempotency_key) DO NOTHING RETURNING command_id`
  unfoldable pub insert_receipt :
      Db Value → Uuid → Uuid → String → String → String → Recovered (Option Uuid × Db Value)
  insert_receipt db proposed principal key command_type request_hash =
      attempt fault storage_error receipt_insert (elim (find? (has_key principal key) db.receipts) [
        | some r ↦ (none, db)
        | none ↦ (
          some proposed,
          record db {
            receipts =
                record {
                  command_id = proposed;
                  principal_id = principal;
                  idempotency_key = key;
                  command_type = command_type;
                  request_hash = request_hash;
                  receipt_status = processing;
                  response_status = none;
                  response_body = none;
                  response_digest = none;
                }
                ∷ db.receipts;
          },
        )
      ])

  abbrev pub acquire_existing : Db Value → Uuid → String → String → Recovered (AcquireReceipt Value)
  acquire_existing db principal key request_hash = do
    row ← attempt fault storage_error receipt_select (find? (has_key principal key) db.receipts)
    r ← ok_or row (internal_consistency "receipt disappeared")
    existing r request_hash

  -- What was acquired, and the tables with the receipt.
  unfoldable pub acquire :
      Db Value
      → Uuid
      → Uuid
      → String
      → String
      → String
      → Recovered (AcquireReceipt Value × Db Value)
  unfolding insert_receipt
  acquire db proposed principal key command_type request_hash =
      insert_receipt db proposed principal key command_type request_hash >>= λ inserted.
      elim (inserted.0) [
        | some id ↦ ok (owned id, inserted.1)
        | none ↦ do
          acquired ← acquire_existing inserted.1 principal key request_hash
          ok (acquired, inserted.1)
      ]

  unfoldable pub complete : Db Value → Uuid → I32 → Value → Recovered (Db Value)
  complete db id status body = do
    digest ← recovery_digest P body
    updated ←
        attempt fault storage_error receipt_complete
          (record db { receipts = map (complete_row id status body digest) db.receipts })
    err_if (not (affected id db.receipts == 1))
        (internal_consistency "receipt completion affected an unexpected row count")
    ok updated

  unfoldable pub write_attempt :
      Db Value
      → Uuid
      → Uuid
      → Uuid
      → String
      → String
      → Option String
      → String
      → Value
      → Recovered (Db Value)
  write_attempt db audit_id id principal key attempt_type failure_reason request_hash details =
      attempt fault storage_error audit_insert (record db {
        audits =
            record {
              audit_id = audit_id;
              command_id = id;
              principal_id = principal;
              idempotency_key = key;
              attempt_type = attempt_type;
              failure_reason = failure_reason;
              request_hash = request_hash;
              details = some details;
            }
            ∷ db.audits;
      })

  abbrev pub record_as :
      Db Value
      → Uuid
      → Uuid
      → Uuid
      → String
      → String
      → String
      → String
      → RecoveryError
      → Recovered (RecoveryError × Db Value)
  record_as db audit_id id principal key request_hash attempt_type reason error = do
    audited ←
        write_attempt db audit_id id principal key attempt_type (some reason) request_hash
          (object (("error", text (label error)) ∷ []))
    ok (error, audited)

  unfoldable pub record_conflict_or_processing :
      Db Value
      → Uuid
      → AcquireReceipt Value
      → Uuid
      → String
      → String
      → Recovered (RecoveryError × Db Value)
  unfolding write_attempt
  record_conflict_or_processing db audit_id (conflict id) principal key request_hash =
      record_as db audit_id id principal key request_hash "IDEMPOTENCY_CONFLICT"
        "request hash mismatch" idempotency_conflict
  record_conflict_or_processing db audit_id (still_processing id) principal key request_hash =
      record_as db audit_id id principal key request_hash "STILL_PROCESSING"
        "existing receipt is still processing" command_still_processing
  record_conflict_or_processing db audit_id _ principal key request_hash =
      err (internal_consistency "receipt is neither conflict nor processing")
