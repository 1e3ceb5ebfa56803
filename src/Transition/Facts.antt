-- ===== src/Transition/Facts.antt =====
-- Steps 15 to 18 of `execute_workflow_transition_atomically` (transition_transaction.rs): the writes
-- of the runtime facts, with the helpers of transition_helpers.rs.
use svc_workflow_kernel.Prelude.{
  ℕ, ◌+◌, ◌%◌, Option, none, some, Bool, true, false, ◌&&◌, not, String, str_append, List, [], ◌∷◌,
  map, filter, length, ◌==◌, if◌then◌else◌,
}
use svc_workflow_kernel.Prelude.Result.{Result, ok, err, err_if, ◌>>=◌, ◌>>◌}
use svc_workflow_kernel.Platform.{Platform}
use svc_workflow_kernel.Enums.{effect_text}
use svc_workflow_kernel.Definition.Model.{Uuid}
use svc_workflow_kernel.Store.{
  I32, TransitionRow, InstanceRow, VisitRow, SubmissionRow, EventRow, Db, Faults, attempt,
  submission_insert, visit_insert, instance_update, event_insert,
}
use svc_workflow_kernel.Transition.Error.{
  ExecuteWorkflowTransitionError, internal_consistency, storage_error,
}
use svc_workflow_kernel.Transition.Command.{
  ExecuteWorkflowTransitionCommand, FreshIds, TransitionResult,
}
use svc_workflow_kernel.Transition.Receipt.{complete_transition_receipt}
use svc_workflow_kernel.Transition.Checks.{Plan}
pub mod Written

abbrev pub FactResult : Type 0 → Type 0
FactResult = Result ExecuteWorkflowTransitionError

-- `format!("… failed: {}", e)` as a storage error
abbrev pub failed : String → String → ExecuteWorkflowTransitionError
failed prefix message = storage_error (str_append prefix message)

-- `old_state_version + 1` of an `i32`, with its wrap-around
abbrev pub next_version : I32 → I32
next_version n = (n + 1) % 4294967296

-- The condition of the UPDATE: the instance, at the version and the visit that were read.
abbrev pub is_unmoved : Uuid → I32 → Uuid → InstanceRow → Bool
is_unmoved id version visit r =
    (r.workflow_instance_id == id)
    && ((r.workflow_state_version == version) && (r.current_node_visit_id == visit))

abbrev pub move_to : Uuid → I32 → InstanceRow → InstanceRow
move_to visit version r = record r {
  current_node_visit_id = visit;
  workflow_state_version = version;
}

unfoldable pub update_rows : Uuid → I32 → Uuid → Uuid → I32 → List InstanceRow → List InstanceRow
update_rows id version visit new_visit new_version rows =
    map (λ r. if is_unmoved id version visit r then move_to new_visit new_version r else r) rows

module _ (P : Platform) (fault : Faults) where
  open P use {Value, null, text, number, object, uuid_text}

  -- `digest::compute_json_digest(value).map_err(StorageError)`
  unfoldable pub compute_json_digest : Value → FactResult String
  compute_json_digest v = elim (P.sha256_jcs_hex v) [
    | ok digest ↦ ok digest
    | err message ↦ err (failed "JCS canonicalization failed: " message)
  ]

  unfoldable pub insert_submission :
      Db Value → Uuid → Uuid → Uuid → Uuid → Uuid → Uuid → Value → FactResult (Db Value)
  insert_submission db submission_id instance_id visit context principal transition payload = do
    payload_digest ← compute_json_digest payload
    attempt fault (failed "submission insert failed: ") submission_insert (record db {
      submissions =
          record {
            submission_id = submission_id;
            workflow_instance_id = instance_id;
            source_node_visit_id = visit;
            context_revision_id = context;
            author_principal_id = principal;
            transition_id = transition;
            payload = payload;
            payload_digest = payload_digest;
            schema_version = "v1";
          }
          ∷ db.submissions;
    })

  -- `if let Some(payload) = &cmd.submission_payload`
  unfoldable pub insert_optional_submission :
      Db Value
      → Uuid
      → ExecuteWorkflowTransitionCommand Value
      → InstanceRow
      → Uuid
      → Option Value
      → FactResult (Db Value)
  insert_optional_submission db submission_id cmd instance_row transition none = ok db
  insert_optional_submission db submission_id cmd instance_row transition (some payload) =
      insert_submission db submission_id cmd.workflow_instance_id instance_row.current_node_visit_id
        instance_row.current_context_revision_id cmd.principal_id transition payload

  unfoldable pub insert_node_visit :
      Db Value → Uuid → Uuid → Uuid → ℕ → Option Uuid → Uuid → FactResult (Db Value)
  insert_node_visit db visit_id instance_id node_id number assignee transition =
      attempt fault (failed "node visit insert failed: ") visit_insert (record db {
        visits =
            record {
              node_visit_id = visit_id;
              workflow_instance_id = instance_id;
              node_id = node_id;
              visit_number = number;
              assignee_principal_id = assignee;
              entered_by_transition_id = some transition;
            }
            ∷ db.visits;
      })

  unfoldable pub update_instance : Db Value → Uuid → Uuid → I32 → I32 → Uuid → FactResult (Db Value)
  update_instance db instance_id new_visit new_version old_version old_visit = do
    rows ←
        attempt fault (failed "instance update failed: ") instance_update
          (filter (is_unmoved instance_id old_version old_visit) db.instances)
    err_if (not (length rows == 1))
        (internal_consistency "instance update affected unexpected number of rows")
    ok (record db {
      instances = update_rows instance_id old_version old_visit new_visit new_version db.instances;
    })

  abbrev optional_text : Option String → Value
  optional_text none = null
  optional_text (some s) = text s

  -- `serde_json::to_value(TransitionCommittedEventData { … })`
  unfoldable pub event_data :
      TransitionRow Value → Uuid → Uuid → Uuid → Uuid → Uuid → Option String → Value
  event_data t source_node target_node source_visit target_visit context payload_digest = object (
      ("transition_definition_id", text (uuid_text t.transition_id))
      ∷ ("transition_key", text t.transition_key)
      ∷ ("transition_effect", text (effect_text t.transition_effect))
      ∷ ("source_node_id", text (uuid_text source_node))
      ∷ ("target_node_id", text (uuid_text target_node))
      ∷ ("source_node_visit_id", text (uuid_text source_visit))
      ∷ ("target_node_visit_id", text (uuid_text target_visit))
      ∷ ("context_revision_id", text (uuid_text context))
      ∷ ("submission_payload_digest", optional_text payload_digest)
      ∷ [])

  -- The arguments that the one call reads from the command, the plan and the identifiers are read
  -- from them here.
  unfoldable pub insert_event :
      Db Value
      → FreshIds
      → ExecuteWorkflowTransitionCommand Value
      → Plan Value
      → Option String
      → FactResult (Db Value)
  insert_event db ids cmd plan payload_digest =
      let source_visit = plan.instance_row.current_node_visit_id in
      let context = plan.instance_row.current_context_revision_id in
      let old_version = plan.instance_row.workflow_state_version in
      let event_data_json =
        event_data plan.transition plan.source_node.node_id plan.target_node.node_id source_visit
          ids.new_node_visit_id context payload_digest in
      do
        digest ← compute_json_digest event_data_json
        attempt fault (failed "event insert failed: ") event_insert (record db {
          events =
              record {
                event_id = ids.event_id;
                workflow_instance_id = cmd.workflow_instance_id;
                event_sequence = next_version old_version;
                event_schema_version = "v1";
                command_id = ids.command_id;
                event_type = "WORKFLOW_TRANSITION_COMMITTED";
                transition_effect = plan.transition.transition_effect;
                source_node_visit_id = source_visit;
                target_node_visit_id = ids.new_node_visit_id;
                context_revision_id = context;
                submission_id = plan.final_submission_id;
                event_data = event_data_json;
                event_data_digest = digest;
                actor_principal_id = cmd.principal_id;
                from_node_id = plan.source_node.node_id;
                to_node_id = plan.target_node.node_id;
                old_workflow_state_version = old_version;
                new_workflow_state_version = next_version old_version;
              }
              ∷ db.events;
        })

  -- `submission_payload_digest`
  unfoldable pub optional_digest : Option Value → FactResult (Option String)
  optional_digest none = ok none
  optional_digest (some payload) = do digest ← compute_json_digest payload; ok (some digest)

  abbrev pub transition_result :
      FreshIds → ExecuteWorkflowTransitionCommand Value → Plan Value → TransitionResult
  transition_result ids cmd plan = record {
    workflow_instance_id = cmd.workflow_instance_id;
    workflow_state_version = next_version plan.instance_row.workflow_state_version;
    current_context_revision_id = plan.instance_row.current_context_revision_id;
    source_node_visit_id = plan.instance_row.current_node_visit_id;
    current_node_visit_id = ids.new_node_visit_id;
    submission_id = plan.final_submission_id;
    event_sequence = next_version plan.instance_row.workflow_state_version;
  }

  abbrev pub optional_uuid : Option Uuid → Value
  optional_uuid none = null
  optional_uuid (some id) = text (uuid_text id)

  -- The body under which the receipt stores the result.
  unfoldable pub response_body : TransitionResult → Value
  response_body r = object (
      ("workflowInstanceId", text (uuid_text r.workflow_instance_id))
      ∷ ("workflowStateVersion", number r.workflow_state_version)
      ∷ ("currentContextRevisionId", text (uuid_text r.current_context_revision_id))
      ∷ ("sourceNodeVisitId", text (uuid_text r.source_node_visit_id))
      ∷ ("currentNodeVisitId", text (uuid_text r.current_node_visit_id))
      ∷ ("submissionId", optional_uuid r.submission_id)
      ∷ ("eventSequence", number r.event_sequence)
      ∷ [])

  -- The writes, in their order, up to the commit.
  unfoldable pub write_facts :
      Db Value
      → FreshIds
      → ExecuteWorkflowTransitionCommand Value
      → Plan Value
      → FactResult (Db Value)
  write_facts db ids cmd plan = do
    with_submission ←
        insert_optional_submission db ids.submission_id cmd plan.instance_row
          plan.transition.transition_id cmd.submission_payload
    with_visit ←
        insert_node_visit with_submission ids.new_node_visit_id cmd.workflow_instance_id
          plan.target_node.node_id plan.target_visit_number plan.target_assignee_id
          plan.transition.transition_id
    moved ←
        update_instance with_visit cmd.workflow_instance_id ids.new_node_visit_id
          (next_version plan.instance_row.workflow_state_version)
          plan.instance_row.workflow_state_version plan.instance_row.current_node_visit_id
    payload_digest ← optional_digest cmd.submission_payload
    with_event ← insert_event moved ids cmd plan payload_digest
    response_digest ← compute_json_digest (response_body (transition_result ids cmd plan))
    complete_transition_receipt P fault with_event ids.command_id 200
        (response_body (transition_result ids cmd plan)) response_digest
