-- ===== src/Recovery/Receipt/Answered.antt =====
-- A failure of a recovery command that was stored is answered again.
use svc_workflow_kernel.Prelude.{
  ◌≡◌, ◌≢◌, refl, none, some, false, String, str_eq, str_eq_iff, List, [], ◌∷◌, map, find?, ==_self,
  All, arith,
}
use svc_workflow_kernel.Prelude.Result.{ok}
use svc_workflow_kernel.Platform.{Platform, ReadsBack}
use svc_workflow_kernel.Enums.{processing, completed}
use svc_workflow_kernel.Definition.Model.{Uuid}
use svc_workflow_kernel.Store.{
  I32, ReceiptRow, Db, Faults, Statement, attempt, receipt_insert, receipt_select, receipt_complete,
}
use svc_workflow_kernel.Transition.Receipt.{has_key, complete_row}
use svc_workflow_kernel.Replay.Facts.{RecoveryError}
use svc_workflow_kernel.Replay.Fields.{recovery_digest}
use svc_workflow_kernel.Recovery.Error.{status_code, error_body, error_from_body}
use svc_workflow_kernel.Recovery.Error.Stored.{IsI32Error, answered, error_from_body-error_body}
use svc_workflow_kernel.Recovery.Receipt.{
  AcquireReceipt, owned, replay, conflict, affected, existing, insert_receipt, acquire_existing,
  acquire, complete,
}

-- The receipt with which a command claims its key, and the same receipt completed.
abbrev pub claimed_row : {V : Type 0} → Uuid → Uuid → String → String → String → ReceiptRow V
claimed_row id principal key command_type request_hash = record {
  command_id = id;
  principal_id = principal;
  idempotency_key = key;
  command_type = command_type;
  request_hash = request_hash;
  receipt_status = processing;
  response_status = none;
  response_body = none;
  response_digest = none;
}

abbrev pub completed_row : {V : Type 0} → ReceiptRow V → I32 → V → String → ReceiptRow V
completed_row r status body digest = record r {
  receipt_status = completed;
  response_status = some status;
  response_body = some body;
  response_digest = some digest;
}

-- An identifier that no receipt has selects none of them.
affected-fresh :
    {V : Type 0} (id : Uuid) (rows : List (ReceiptRow V))
    → All (λ r. r.command_id ≢ id) rows
    → affected id rows ≡ 0
affected-fresh id [] fresh = refl
affected-fresh id (r ∷ rows) fresh =
    let rest = affected-fresh id rows fresh.1 in let other = fresh.0 in ground arith

module _ (P : Platform) (fault : Faults) where
  open P use {Value}

  acquire-fresh :
      (db : Db Value) (id principal : Uuid) (key command_type hash : String)
      → ((s : Statement) → fault s ≡ none)
      → find? (has_key principal key) db.receipts ≡ none
      → acquire P fault db id principal key command_type hash
        ≡ ok (
          owned id,
          record db { receipts = claimed_row id principal key command_type hash ∷ db.receipts },
        )
  unfolding acquire insert_receipt
  acquire-fresh db id principal key command_type hash answers none_yet =
      rw (attempt, answers receipt_insert, none_yet) refl

  acquire-existing :
      (db : Db Value) (id principal : Uuid) (key command_type hash : String) (r : ReceiptRow Value)
      {a : AcquireReceipt Value}
      → ((s : Statement) → fault s ≡ none)
      → find? (has_key principal key) db.receipts ≡ some r
      → existing r hash ≡ ok a
      → acquire P fault db id principal key command_type hash ≡ ok (a, db)
  unfolding acquire insert_receipt
  acquire-existing db id principal key command_type hash r answers found answer =
      rw
        (
          attempt,
          answers receipt_insert,
          found,
          acquire_existing,
          attempt,
          answers receipt_select,
          found,
          answer,
        )
        refl

  complete-claimed :
      (db : Db Value) (id principal : Uuid) (key command_type hash : String) (status : I32)
      (body : Value) {digest : String}
      → ((s : Statement) → fault s ≡ none)
      → All (λ r. r.command_id ≢ id) db.receipts
      → P.sha256_jcs_hex body ≡ ok digest
      → let claimed = claimed_row id principal key command_type hash ∷ db.receipts in
        complete P fault (record db { receipts = claimed }) id status body
        ≡ ok (record db { receipts = map (complete_row id status body digest) claimed })
  unfolding complete recovery_digest
  complete-claimed db id principal key command_type hash status body answers fresh digested =
      rw
        (
          complete,
          recovery_digest,
          digested,
          attempt,
          answers receipt_complete,
          ==_self id,
          affected-fresh id db.receipts fresh,
        )
        refl

  find-completed :
      (id principal : Uuid) (key command_type hash : String) (status : I32) (body : Value)
      (digest : String) (rows : List (ReceiptRow Value))
      → find? (has_key principal key) (
          map
            (complete_row id status body digest)
            (claimed_row id principal key command_type hash ∷ rows))
        ≡ some (completed_row (claimed_row id principal key command_type hash) status body digest)
  find-completed id principal key command_type hash status body digest rows =
      rw (complete_row, ==_self id, has_key, ==_self principal, (str_eq_iff key key).1 refl) refl

  -- When every statement answers, a recovery command whose key has no receipt and whose identifier is
  -- that of none acquires its receipt, and a failure with its numbers in range whose body has a
  -- digest can be stored in it. From then on the same request finds the stored status and body,
  -- which are read back as the answer to that failure, and another request finds a conflict.
  pub acquire-complete :
      ReadsBack P
      → (db : Db Value) (id principal : Uuid) (key command_type hash : String) (e : RecoveryError)
        {digest : String}
      → ((s : Statement) → fault s ≡ none)
      → find? (has_key principal key) db.receipts ≡ none
      → All (λ r. r.command_id ≢ id) db.receipts
      → IsI32Error e
      → P.sha256_jcs_hex (error_body P e) ≡ ok digest
      → (claimed : Db Value) × (stored : Db Value) × (acquire P fault db id principal key
            command_type hash
          ≡ ok (owned id, claimed))
        × (complete P fault claimed id (status_code e) (error_body P e) ≡ ok stored)
        × ((other : Uuid) (other_type : String)
            → acquire P fault stored other principal key other_type hash
              ≡ ok (replay id (status_code e) (error_body P e), stored))
        × ((other : Uuid) (other_type other_hash : String)
            → str_eq hash other_hash ≡ false
            → acquire P fault stored other principal key other_type other_hash
              ≡ ok (conflict id, stored))
        × (error_from_body P (error_body P e) ≡ answered e)
  acquire-complete laws db id principal key command_type hash e {digest} answers none_yet fresh
        small digested =
      let status = status_code e in
      let body = error_body P e in
      let found =
        find-completed id principal key command_type hash status body digest db.receipts in
      let row = completed_row (claimed_row id principal key command_type hash) status body digest in
      let stored = record db {
        receipts =
            map (complete_row id status body digest)
              (claimed_row id principal key command_type hash ∷ db.receipts);
      } in
      (
        record db { receipts = claimed_row id principal key command_type hash ∷ db.receipts },
        stored,
        acquire-fresh db id principal key command_type hash answers none_yet,
        complete-claimed db id principal key command_type hash status body answers fresh digested,
        λ other other_type.
            acquire-existing stored other principal key other_type hash row answers found
              (rw ((str_eq_iff hash hash).1 refl) refl),
        λ other other_type other_hash differ.
            acquire-existing stored other principal key other_type other_hash row answers found
              (rw differ refl),
        error_from_body-error_body P laws e small,
      )
