-- ===== src/Transition/History/Keys.antt =====
-- The receipts over sequences of transition transactions: one for each principal and key.
use svc_workflow_kernel.Prelude.{
  ◌≡◌, refl, sym, ap, subst₂, str_eq, ◌∙◌, Option, none, some, Bool, true, false, ◌&&◌, String,
  List, [], ◌∷◌, map, find?, ◌==◌, inl, inr, arith, if◌then◌else◌, Bool-cases, Option-cases,
}
use svc_workflow_kernel.Prelude.Result.{ok, err, ◌>>=◌, question-ok, Result-cases}
use svc_workflow_kernel.Platform.{Platform}
use svc_workflow_kernel.Definition.Model.{Uuid}
use svc_workflow_kernel.Store.{I32, ReceiptRow, Db, Faults, attempt-eq-ok, commit}
use svc_workflow_kernel.Transition.Error.{storage_error, transition_error_code, error_response_body}
use svc_workflow_kernel.Transition.Command.{ExecuteWorkflowTransitionCommand, FreshIds}
use svc_workflow_kernel.Transition.Receipt.{
  has_key, complete_row, is_processing, try_insert_transition_receipt, replay_transition_receipt,
  TransitionReplayResult, completed_match, completed_conflict, still_processing, handle_replay,
  handle_receipt_replay, write_transition_attempt_audit,
}
use svc_workflow_kernel.Transition.Checks.{Step, Plan, deterministic, rollback, check_all}
use svc_workflow_kernel.Transition.Facts.{FactResult, write_facts}
use svc_workflow_kernel.Transition.Facts.Written.{write_facts-IsWritten}
use svc_workflow_kernel.Transition.Execute.{
  Outcome, settle, commit_tx, replay_outcome, persist_deterministic_failure, conclude, run_claimed,
  open_transaction, dispatch, execute_workflow_transition_atomically,
}
use svc_workflow_kernel.Transition.Execute.Fresh.{claimed}
use svc_workflow_kernel.Transition.Execute.Refused.{persist-Stores}
use svc_workflow_kernel.Transition.History.{Runs, done, next}

-- No two receipts have one principal and key.
abbrev pub UniqueKeys : {V : Type 0} → List (ReceiptRow V) → Type 0
UniqueKeys [] = Unit
UniqueKeys (r ∷ rows) =
    (find? (has_key r.principal_id r.idempotency_key) rows ≡ none) × UniqueKeys rows

module _ {V : Type 0} where
  choose-key :
      (c : Bool) (x r : ReceiptRow V)
      → x.principal_id ≡ r.principal_id
      → x.idempotency_key ≡ r.idempotency_key
      → ((if c then x else r).principal_id ≡ r.principal_id)
        × ((if c then x else r).idempotency_key ≡ r.idempotency_key)
  choose-key true x r p k = (p, k)
  choose-key false x r p k = (refl, refl)

module _ {V : Type 0} (id : Uuid) (status : I32) (body : V) (digest : String) where
  -- A completion keeps the principal and the key.
  complete_row-key :
      (r : ReceiptRow V)
      → ((complete_row id status body digest r).principal_id ≡ r.principal_id)
        × ((complete_row id status body digest r).idempotency_key ≡ r.idempotency_key)
  complete_row-key r =
      choose-key ((r.command_id == id) && is_processing r.receipt_status) _ r refl refl

  find-complete_row :
      (p : Uuid) (k : String) (rows : List (ReceiptRow V))
      → find? (has_key p k) rows ≡ none
      → find? (has_key p k) (map (complete_row id status body digest) rows) ≡ none
  find-complete_row p k [] h = refl
  find-complete_row p k (r ∷ rows) h =
      let (same_principal, same_key) = complete_row-key r in
      let same : has_key p k (complete_row id status body digest r) ≡ has_key p k r =
        subst₂ (λ a b. ((a == p) && str_eq b k) ≡ has_key p k r) (sym same_principal) (sym same_key)
          refl in
      elim (Bool-cases (has_key p k r)) [
        | inl e ↦ cc (rw e at h)
        | inr e ↦ rw (same ∙ e) (find-complete_row p k rows (rw e at h))
      ]

  UniqueKeys-complete_row :
      (rows : List (ReceiptRow V))
      → UniqueKeys rows
      → UniqueKeys (map (complete_row id status body digest) rows)
  UniqueKeys-complete_row [] u = tt
  UniqueKeys-complete_row (r ∷ rows) u =
      let (same_principal, same_key) = complete_row-key r in
      (
        subst₂ (λ p k. find? (has_key p k) (map (complete_row id status body digest) rows) ≡ none)
            (sym same_principal) (sym same_key)
            (find-complete_row r.principal_id r.idempotency_key rows u.0),
        UniqueKeys-complete_row rows u.1,
      )

module _ (P : Platform) (fault : Faults) where
  open P use {Value}

  settle-receipts :
      (db : Db Value) (outcome : Outcome Value) (new : FactResult (Db Value))
      (Kept : List (ReceiptRow Value) → Type 0)
      → Kept db.receipts
      → ((tx : Db Value) → new ≡ ok tx → Kept tx.receipts)
      → Kept (settle P fault db outcome new).1.receipts
  settle-receipts db outcome (ok tx) Kept old h = h tx refl
  settle-receipts db outcome (err e) Kept old h = old

  -- What commits after the checks has unique keys, if the tables before and those with the claim do.
  conclude-UniqueKeys :
      (old db : Db Value) (ids : FreshIds) (cmd : ExecuteWorkflowTransitionCommand Value)
      (checked : Step (Plan Value))
      → UniqueKeys old.receipts
      → UniqueKeys db.receipts
      → UniqueKeys (conclude P fault old db ids cmd checked).1.receipts
  unfolding conclude
  conclude-UniqueKeys old db ids cmd (err (deterministic e)) u v =
      settle-receipts old (err e) (persist_deterministic_failure P fault db ids e) UniqueKeys u
        (λ tx k.
          let (digest, same) = persist-Stores P fault db ids e k in
          rw same (
            UniqueKeys-complete_row ids.command_id (transition_error_code e)
              (error_response_body P e) digest db.receipts v))
  conclude-UniqueKeys old db ids cmd (err (rollback e)) u v = u
  conclude-UniqueKeys old db ids cmd (ok plan) u v =
      settle-receipts old _ (write_facts P fault db ids cmd plan >>= commit_tx P fault) UniqueKeys u
        (λ tx k.
          let (wrote, w, c) = question-ok (write_facts P fault db ids cmd plan) _ k in
          let written = write_facts-IsWritten P fault db ids cmd plan w in
          rw (attempt-eq-ok fault storage_error commit wrote c, written.receipts)
            (UniqueKeys-complete_row ids.command_id 200 _ written.digest db.receipts v))

  open_transaction-UniqueKeys :
      (db : Db Value) (ids : FreshIds) (cmd : ExecuteWorkflowTransitionCommand Value)
      (hash : String) {o : Option Uuid} {tx : Db Value}
      → UniqueKeys db.receipts
      → open_transaction P fault db ids cmd hash ≡ ok (o, tx)
      → UniqueKeys tx.receipts
  unfolding open_transaction try_insert_transition_receipt
  open_transaction-UniqueKeys db ids cmd hash {tx = tx} u h =
      elim (Option-cases (find? (has_key cmd.principal_id cmd.idempotency_key) db.receipts)) [
        | inl e ↦
            let same : tx ≡ claimed P fault db ids cmd hash = ground (arith, e) in rw same (e, u)
        | inr (r, e) ↦ let same : tx ≡ db = ground (arith, e) in rw same u
      ]

  handle_replay-receipts :
      (db : Db Value) (audit principal : Uuid) (key hash : String)
      (replay : TransitionReplayResult P fault)
      → (handle_replay P fault db audit principal key hash replay).1.receipts ≡ db.receipts
  unfolding handle_replay write_transition_attempt_audit
  handle_replay-receipts db audit principal key hash (completed_match id status body) = ground arith
  handle_replay-receipts db audit principal key hash (completed_conflict id original) = ground arith
  handle_replay-receipts db audit principal key hash still_processing = refl

  handle_receipt_replay-receipts :
      (db : Db Value) (audit principal : Uuid) (key hash : String)
      → (handle_receipt_replay P fault db audit principal key hash).1.receipts ≡ db.receipts
  unfolding handle_receipt_replay
  handle_receipt_replay-receipts db audit principal key hash =
      elim (Result-cases (replay_transition_receipt P fault db principal key hash)) [
        | inl (e, h) ↦ rw (h, handle_receipt_replay) refl
        | inr (replay, h) ↦
            rw (h, handle_receipt_replay)
              (handle_replay-receipts db audit principal key hash replay)
      ]

  dispatch-UniqueKeys :
      (db : Db Value) (ids : FreshIds) (cmd : ExecuteWorkflowTransitionCommand Value)
      (hash : String) (opened : FactResult (Option Uuid × Db Value))
      → UniqueKeys db.receipts
      → ((o : Option Uuid) (tx : Db Value) → opened ≡ ok (o, tx) → UniqueKeys tx.receipts)
      → UniqueKeys (dispatch P fault db ids cmd hash opened).1.receipts
  unfolding dispatch run_claimed
  dispatch-UniqueKeys db ids cmd hash (err e) u opens = u
  dispatch-UniqueKeys db ids cmd hash (ok (some id, tx)) u opens =
      conclude-UniqueKeys db tx ids cmd (check_all P fault tx ids cmd) u (opens (some id) tx refl)
  dispatch-UniqueKeys db ids cmd hash (ok (none, tx)) u opens =
      let (replay, audited) =
        handle_receipt_replay P fault tx ids.audit_id cmd.principal_id cmd.idempotency_key hash in
      settle-receipts db (replay_outcome P fault replay) (commit_tx P fault audited) UniqueKeys u
        (λ new k.
          rw
            (ap (λ d. d.receipts) (attempt-eq-ok fault storage_error commit audited k)
              ∙ handle_receipt_replay-receipts tx ids.audit_id cmd.principal_id cmd.idempotency_key
                  hash)
            (opens none tx refl))

  execute-UniqueKeys :
      (db : Db Value) (ids : FreshIds) (cmd : ExecuteWorkflowTransitionCommand Value)
      (hash : String)
      → UniqueKeys db.receipts
      → UniqueKeys (execute_workflow_transition_atomically P fault db ids cmd hash).1.receipts
  unfolding execute_workflow_transition_atomically
  execute-UniqueKeys db ids cmd hash u =
      dispatch-UniqueKeys db ids cmd hash (open_transaction P fault db ids cmd hash) u
        (λ o tx k. open_transaction-UniqueKeys db ids cmd hash u k)

module _ (P : Platform) where
  open P use {Value}

  -- If no two receipts have one principal and key, then none do after any transition transactions,
  -- whichever of their statements fail.
  pub Runs-UniqueKeys :
      {before after : Db Value}
      → Runs P before after
      → UniqueKeys before.receipts
      → UniqueKeys after.receipts
  Runs-UniqueKeys (done db) u = u
  Runs-UniqueKeys (next fault db ids cmd hash more) u =
      Runs-UniqueKeys more (execute-UniqueKeys P fault db ids cmd hash u)
