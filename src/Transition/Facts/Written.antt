-- ===== src/Transition/Facts/Written.antt =====
-- What the writes of a transition leave in the tables.
use svc_workflow_kernel.Prelude.{
  ◌+◌, ◌%◌, ◌≡◌, refl, sym, ap, ◌∙◌, Bool, ◌&&◌, ◌==◌, if◌then◌else◌, inl, inr, [], Option, none,
  some, String, List, ◌∷◌, map, filter, length, arith,
}
use svc_workflow_kernel.Prelude.Result.{ok, question-ok, ok_inj, Result-cases}
use svc_workflow_kernel.Platform.{Platform}
use svc_workflow_kernel.Enums.{completed, effect_text}
use svc_workflow_kernel.Definition.Model.{Uuid}
use svc_workflow_kernel.Store.{
  I32, InstanceRow, VisitRow, SubmissionRow, EventRow, ReceiptRow, Db, Faults, attempt-eq-ok,
  definitions, receipt_complete, submission_insert, visit_insert, event_insert,
}
use svc_workflow_kernel.Transition.Error.{storage_error}
use svc_workflow_kernel.Transition.Command.{ExecuteWorkflowTransitionCommand, FreshIds}
use svc_workflow_kernel.Transition.Receipt.{is_processing, complete_transition_receipt}
use svc_workflow_kernel.Transition.Checks.{Plan}
use svc_workflow_kernel.Transition.Facts.{
  failed, is_unmoved, update_rows, compute_json_digest, insert_submission,
  insert_optional_submission, insert_node_visit, update_instance, insert_event, event_data,
  optional_digest, transition_result, response_body, write_facts,
}

-- The receipt of the command, completed with status 200; every other receipt as it was.
abbrev complete_row_of : {V : Type 0} → FreshIds → V → String → ReceiptRow V → ReceiptRow V
complete_row_of ids body digest r =
    if (r.command_id == ids.command_id) && is_processing r.receipt_status
    then record r {
      receipt_status = completed;
      response_status = some 200;
      response_body = some body;
      response_digest = some digest;
    }
    else r

-- The visit that the transition opens.
abbrev pub target_visit :
    {V : Type 0} → FreshIds → ExecuteWorkflowTransitionCommand V → Plan V → VisitRow
target_visit ids cmd plan = record {
  node_visit_id = ids.new_node_visit_id;
  workflow_instance_id = cmd.workflow_instance_id;
  node_id = plan.target_node.node_id;
  visit_number = plan.target_visit_number;
  assignee_principal_id = plan.target_assignee_id;
  entered_by_transition_id = some plan.transition.transition_id;
}

-- The instance of the command, at the version and the visit that the plan read.
abbrev pub is_read : {V : Type 0} → ExecuteWorkflowTransitionCommand V → Plan V → InstanceRow → Bool
is_read cmd plan r =
    (r.workflow_instance_id == cmd.workflow_instance_id)
    && ((r.workflow_state_version == plan.instance_row.workflow_state_version)
        && (r.current_node_visit_id == plan.instance_row.current_node_visit_id))

-- The instances with the one that the plan read moved to the new visit and the next version.
abbrev pub moved_instances :
    {V : Type 0}
    → FreshIds
    → ExecuteWorkflowTransitionCommand V
    → Plan V
    → List InstanceRow
    → List InstanceRow
moved_instances ids cmd plan rows =
    map
      (λ r.
        if is_read cmd plan r
        then record r {
          current_node_visit_id = ids.new_node_visit_id;
          workflow_state_version = (plan.instance_row.workflow_state_version + 1) % 4294967296;
        }
        else r)
      rows

-- The digest of a payload that is given.
abbrev pub PayloadDigest : (P : Platform) → Option P.Value → Option String → Type 0
PayloadDigest P none digest = digest ≡ none
PayloadDigest P (some payload) digest =
    (hash : String) × (digest ≡ some hash) × (P.sha256_jcs_hex payload ≡ ok hash)

abbrev text_or_null : (P : Platform) → Option String → P.Value
text_or_null P none = P.null
text_or_null P (some s) = P.text s

-- The data of the event: the transition, its two nodes and visits, the context, and the digest of the
-- payload.
abbrev pub committed_data : (P : Platform) → FreshIds → Plan P.Value → Option String → P.Value
committed_data P ids plan payload_digest = P.object (
    ("transition_definition_id", P.text (P.uuid_text plan.transition.transition_id))
    ∷ ("transition_key", P.text plan.transition.transition_key)
    ∷ ("transition_effect", P.text (effect_text plan.transition.transition_effect))
    ∷ ("source_node_id", P.text (P.uuid_text plan.source_node.node_id))
    ∷ ("target_node_id", P.text (P.uuid_text plan.target_node.node_id))
    ∷ ("source_node_visit_id", P.text (P.uuid_text plan.instance_row.current_node_visit_id))
    ∷ ("target_node_visit_id", P.text (P.uuid_text ids.new_node_visit_id))
    ∷ ("context_revision_id", P.text (P.uuid_text plan.instance_row.current_context_revision_id))
    ∷ ("submission_payload_digest", text_or_null P payload_digest)
    ∷ [])

-- A row is added for a payload, with its digest, the author and the visit that is left, and none
-- without.
abbrev pub HasSubmission :
    (P : Platform)
    → FreshIds
    → ExecuteWorkflowTransitionCommand P.Value
    → Plan P.Value
    → Option P.Value
    → List (SubmissionRow P.Value)
    → List (SubmissionRow P.Value)
    → Type 0
HasSubmission P ids cmd plan none before after = after ≡ before
HasSubmission P ids cmd plan (some payload) before after =
    (digest : String) × (P.sha256_jcs_hex payload ≡ ok digest)
    × (after
        ≡ record {
          submission_id = ids.submission_id;
          workflow_instance_id = cmd.workflow_instance_id;
          source_node_visit_id = plan.instance_row.current_node_visit_id;
          context_revision_id = plan.instance_row.current_context_revision_id;
          author_principal_id = cmd.principal_id;
          transition_id = plan.transition.transition_id;
          payload = payload;
          payload_digest = digest;
          schema_version = "v1";
        }
          ∷ before)

-- One event is added, whose sequence is the new version and which joins the two visits.
abbrev pub HasEvent :
    (P : Platform)
    → FreshIds
    → ExecuteWorkflowTransitionCommand P.Value
    → Plan P.Value
    → List (EventRow P.Value)
    → List (EventRow P.Value)
    → Type 0
HasEvent P ids cmd plan before after =
    (payload_digest : Option String) × (digest : String) × PayloadDigest P cmd.submission_payload
      payload_digest
    × (P.sha256_jcs_hex (committed_data P ids plan payload_digest) ≡ ok digest)
    × (after
        ≡ record {
          event_id = ids.event_id;
          workflow_instance_id = cmd.workflow_instance_id;
          event_sequence = (plan.instance_row.workflow_state_version + 1) % 4294967296;
          event_schema_version = "v1";
          command_id = ids.command_id;
          event_type = "WORKFLOW_TRANSITION_COMMITTED";
          transition_effect = plan.transition.transition_effect;
          source_node_visit_id = plan.instance_row.current_node_visit_id;
          target_node_visit_id = ids.new_node_visit_id;
          context_revision_id = plan.instance_row.current_context_revision_id;
          submission_id = plan.final_submission_id;
          event_data = committed_data P ids plan payload_digest;
          event_data_digest = digest;
          actor_principal_id = cmd.principal_id;
          from_node_id = plan.source_node.node_id;
          to_node_id = plan.target_node.node_id;
          old_workflow_state_version = plan.instance_row.workflow_state_version;
          new_workflow_state_version = (plan.instance_row.workflow_state_version + 1) % 4294967296;
        }
          ∷ before)

-- All that the writes change: one instance moved, one visit, one event, and a submission for a
-- payload; the receipt of the command completed with status 200 and this body.
pub record IsWritten (P : Platform) (ids : FreshIds)
    (cmd : ExecuteWorkflowTransitionCommand P.Value) (plan : Plan P.Value) (body : P.Value)
    (before after : Db P.Value) : Type 0 where
  pub found_one : length (filter (is_read cmd plan) before.instances) ≡ 1
  pub instances : after.instances ≡ moved_instances ids cmd plan before.instances
  pub visits : after.visits ≡ target_visit ids cmd plan ∷ before.visits
  pub submissions :
      HasSubmission P ids cmd plan cmd.submission_payload before.submissions after.submissions
  pub events : HasEvent P ids cmd plan before.events after.events
  pub digest : String
  pub digested : P.sha256_jcs_hex body ≡ ok digest
  pub receipts : after.receipts ≡ map (complete_row_of ids body digest) before.receipts
  pub audits : after.audits ≡ before.audits
  pub definitions : definitions after ≡ definitions before

module _ (P : Platform) (fault : Faults) where
  open P use {Value}

  digest-ok :
      (v : Value) {digest : String}
      → compute_json_digest P fault v ≡ ok digest
      → P.sha256_jcs_hex v ≡ ok digest
  unfolding compute_json_digest
  digest-ok v h = elim (Result-cases (P.sha256_jcs_hex v)) [
    | inl (e, bad) ↦ cc (rw (compute_json_digest, bad) at h)
    | inr (d, good) ↦ good ∙ ap (λ x. ok x) (ok_inj (rw (compute_json_digest, good) at h))
  ]

  optional_digest-PayloadDigest :
      (payload : Option Value) {digest : Option String}
      → optional_digest P fault payload ≡ ok digest
      → PayloadDigest P payload digest
  unfolding optional_digest
  optional_digest-PayloadDigest none h = sym (ok_inj h)
  optional_digest-PayloadDigest (some payload) h =
      let (hash, hashed, h) = question-ok (compute_json_digest P fault payload) _ h in
      (hash, sym (ok_inj h), digest-ok payload hashed)

  insert_optional_submission-eq-ok :
      (db : Db Value) (ids : FreshIds) (cmd : ExecuteWorkflowTransitionCommand Value)
      (plan : Plan Value) (payload : Option Value) {tx : Db Value}
      → insert_optional_submission P fault db ids.submission_id cmd plan.instance_row
          plan.transition.transition_id payload
        ≡ ok tx
      → (rows : List (SubmissionRow Value)) × (tx ≡ record db { submissions = rows })
        × HasSubmission P ids cmd plan payload db.submissions rows
  unfolding insert_optional_submission insert_submission
  insert_optional_submission-eq-ok db ids cmd plan none {tx} h =
      (db.submissions, ground arith, refl)
  insert_optional_submission-eq-ok db ids cmd plan (some payload) {tx} h =
      let (digest, hashed, h) = question-ok (compute_json_digest P fault payload) _ h in
      (
        _,
        attempt-eq-ok fault (failed "submission insert failed: ") submission_insert _ h,
        (digest, digest-ok payload hashed, refl),
      )

  update_instance-eq-ok :
      (db : Db Value) (id new_visit : Uuid) (new_version old_version : I32) (old_visit : Uuid)
      {tx : Db Value}
      → update_instance P fault db id new_visit new_version old_version old_visit ≡ ok tx
      → (length (filter (is_unmoved id old_version old_visit) db.instances) ≡ 1)
        × (tx ≡ record db {
          instances = update_rows id old_version old_visit new_visit new_version db.instances;
        })
  unfolding update_instance update_rows
  update_instance-eq-ok db id new_visit new_version old_version old_visit h =
      (ground arith, ground arith)

  insert_event-eq-ok :
      (db : Db Value) (ids : FreshIds) (cmd : ExecuteWorkflowTransitionCommand Value)
      (plan : Plan Value) (digest : Option String) {tx : Db Value}
      → PayloadDigest P cmd.submission_payload digest
      → insert_event P fault db ids cmd plan digest ≡ ok tx
      → (rows : List (EventRow Value)) × (tx ≡ record db { events = rows })
        × HasEvent P ids cmd plan db.events rows
  unfolding insert_event event_data
  insert_event-eq-ok db ids cmd plan digest payload h =
      let (d, hashed, h) = question-ok (compute_json_digest P fault _) _ h in
      (
        _,
        attempt-eq-ok fault (failed "event insert failed: ") event_insert _ h,
        (digest, d, payload, digest-ok _ hashed, refl),
      )

  assemble :
      (ids : FreshIds) (cmd : ExecuteWorkflowTransitionCommand Value) (plan : Plan Value)
      (body : Value) {db db1 db2 db3 db4 tx : Db Value} {subs : List (SubmissionRow Value)}
      {rows : List (EventRow Value)} (digest : String)
      → db1 ≡ record db { submissions = subs }
      → HasSubmission P ids cmd plan cmd.submission_payload db.submissions subs
      → db2 ≡ record db1 { visits = target_visit ids cmd plan ∷ db1.visits }
      → length (filter (is_read cmd plan) db2.instances) ≡ 1
      → db3 ≡ record db2 { instances = moved_instances ids cmd plan db2.instances }
      → db4 ≡ record db3 { events = rows }
      → HasEvent P ids cmd plan db3.events rows
      → tx ≡ record db4 { receipts = map (complete_row_of ids body digest) db4.receipts }
      → P.sha256_jcs_hex body ≡ ok digest
      → IsWritten P ids cmd plan body db tx
  assemble ids cmd plan body {db} {subs} {rows} digest e1 has_submission e2 one e3 e4 has_event e5
        digested =
      rw (e5, e4, e3, e2, e1)
        (record {
          found_one = rw (e2, e1) at one;
          instances = refl;
          visits = refl;
          submissions = has_submission;
          events = rw (e3, e2, e1) at has_event;
          digest = digest;
          digested = digested;
          receipts = refl;
          audits = refl;
          definitions = refl;
        })

  -- Writes that succeed leave what `IsWritten` says.
  pub write_facts-IsWritten :
      (db : Db Value) (ids : FreshIds) (cmd : ExecuteWorkflowTransitionCommand Value)
      (plan : Plan Value) {tx : Db Value}
      → write_facts P fault db ids cmd plan ≡ ok tx
      → IsWritten P ids cmd plan
          (response_body P fault (transition_result P fault ids cmd plan))
          db
          tx
  unfolding write_facts insert_node_visit complete_transition_receipt update_rows
  write_facts-IsWritten db ids cmd plan {tx} h =
      let (db1, h1, h) =
        question-ok
          (insert_optional_submission P fault db ids.submission_id cmd plan.instance_row
            plan.transition.transition_id cmd.submission_payload)
          _ h in
      let (db2, h2, h) = question-ok (insert_node_visit P fault db1 _ _ _ _ _ _) _ h in
      let (db3, h3, h) = question-ok (update_instance P fault db2 _ _ _ _ _) _ h in
      let (digest, payload, h) = question-ok (optional_digest P fault cmd.submission_payload) _ h in
      let (db4, h4, h) = question-ok (insert_event P fault db3 ids cmd plan digest) _ h in
      let (response_digest, hashed, h) = question-ok (compute_json_digest P fault _) _ h in
      let (subs, e1, has_submission) =
        insert_optional_submission-eq-ok db ids cmd plan cmd.submission_payload h1 in
      let (one, e3) = update_instance-eq-ok db2 _ _ _ _ _ h3 in
      let (rows, e4, has_event) =
        insert_event-eq-ok db3 ids cmd plan digest
          (optional_digest-PayloadDigest cmd.submission_payload payload) h4 in
      assemble ids cmd plan (response_body P fault (transition_result P fault ids cmd plan))
        response_digest e1 has_submission
        (attempt-eq-ok fault (failed "node visit insert failed: ") visit_insert _ h2) one e3 e4
        has_event (attempt-eq-ok fault storage_error receipt_complete _ h)
        (digest-ok (response_body P fault (transition_result P fault ids cmd plan)) hashed)
