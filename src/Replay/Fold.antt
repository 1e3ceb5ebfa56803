-- ===== src/Replay/Fold.antt =====
-- Administrative events, the dispatch on the kind of an event, and `replay` itself (event_replay.rs).
pub mod Preserved
pub mod Contiguous
pub mod Introduced
use svc_workflow_kernel.Prelude.{
  ℕ, suc, ◌+◌, ◌<◌, Option, none, some, Bool, true, false, ◌&&◌, ◌||◌, not, String, str_eq, List,
  [], ◌∷◌, contains, option_eq, is_some, is_empty, length, ltb, ◌==◌, if◌then◌else◌,
}
use svc_workflow_kernel.Prelude.Result.{Result, ok, err, ok_or, err_if, ◌>>=◌, ◌>>◌}
use svc_workflow_kernel.Platform.{Platform}
use svc_workflow_kernel.Definition.Model.{Uuid}
use svc_workflow_kernel.Store.{I32}
use svc_workflow_kernel.Replay.Facts.{
  InstanceRow, ContextFact, VisitFact, SubmissionFact, TransitionFact, EventFact,
  WorkflowProjection, RecoveryError, Recovered, invalid, invalid_immutable_facts, storage_error,
}
use svc_workflow_kernel.Replay.Fields.{
  text_eq, exact_keys, string_field, event_data, admin_payload_is_bounded,
}
use svc_workflow_kernel.Replay.State.{
  Replay, new_replay, visit, introduce_visit, validate_node_columns,
}
use svc_workflow_kernel.Replay.Apply.{
  apply_initial, apply_context_revision, apply_transition, apply_combined,
}

-- The kinds of event that `apply` tells apart.
pub data Kind : Type 0 where
  initial revision transition combined admin unsupported : Kind

abbrev among : String → List String → Bool
among s [] = false
among s (k ∷ ks) = str_eq s k || among s ks

unfoldable pub kind_of : String → Kind
kind_of t =
    if among t
      ("INSTANCE_CREATED" ∷ "WORKFLOW_INSTANCE_CREATED" ∷ "WORKFLOW_INSTANCE_IMPORTED" ∷ [])
    then initial
    else if among t ("CONTEXT_REVISED" ∷ "WORKFLOW_CONTEXT_REVISED" ∷ [])
    then revision
    else if str_eq t "WORKFLOW_TRANSITION_COMMITTED"
    then transition
    else if str_eq t "WORKFLOW_CONTEXT_REVISED_AND_TRANSITION_COMMITTED"
    then combined
    else if str_eq t "ADMIN_EMERGENCY_OVERRIDE_COMMITTED"
    then admin
    else unsupported

module _ (P : Platform) where
  open P use {Value, null, text, number, object, uuid_text}

  abbrev optional_id : Option Uuid → Value
  optional_id none = null
  optional_id (some id) = text (uuid_text id)

  -- `BeforeSnapshotV1::new(…)`, serialized
  unfoldable pub before_snapshot : InstanceRow → WorkflowProjection → Value
  before_snapshot i p = object (
      ("schemaVersion", text "WORKFLOW_INSTANCE_BEFORE_SNAPSHOT_V1")
      ∷ ("workflowInstanceId", text (uuid_text i.workflow_instance_id))
      ∷ ("domainId", text (uuid_text i.domain_id))
      ∷ ("definitionVersionId", text (uuid_text i.definition_version_id))
      ∷ ("createdByPrincipalId", text (uuid_text i.created_by_principal_id))
      ∷ ("currentContextRevisionId", optional_id p.current_context_revision_id)
      ∷ ("currentNodeVisitId", optional_id p.current_node_visit_id)
      ∷ ("workflowStateVersion", number p.workflow_state_version)
      ∷ [])

  -- `digest()`
  unfoldable pub snapshot_digest : Value → Recovered String
  snapshot_digest snapshot = elim (P.sha256_jcs_hex snapshot) [
    | ok digest ↦ ok digest
    | err e ↦ err (storage_error e)
  ]

  abbrev pub projection_of : Replay Value → WorkflowProjection
  projection_of r = record {
    current_context_revision_id = r.current_context;
    current_node_visit_id = r.current_visit;
    workflow_state_version = r.version;
  }

  -- `match operation`
  unfoldable pub expected_effect : Option String → VisitFact → Recovered String
  expected_effect operation target =
      if text_eq operation (some "MOVE_TO_NODE") && not (str_eq target.node_type "TERMINAL")
      then ok "ADVANCE"
      else if text_eq operation (some "TERMINATE_INSTANCE") && str_eq target.node_type "TERMINAL"
      then ok "TERMINATE"
      else invalid "admin operation does not match target node type"

  abbrev admin_keys : List String
  admin_keys = "operation" ∷ "reason" ∷ "relatedReferences" ∷ "beforeSnapshotDigest" ∷ []

  unfoldable pub admin_matches :
      Replay Value → EventFact Value → Value → VisitFact → String → String → Bool
  admin_matches r event body target effect before =
      exact_keys P body admin_keys
      && (option_eq event.source_node_visit_id r.current_visit
          && (option_eq event.context_revision_id r.current_context
              && (not (is_some event.submission_id)
                  && (not (contains r.introduced_visits target.node_visit_id)
                      && (not (is_some target.entered_by_transition_id)
                          && (text_eq event.transition_effect (some effect)
                              && (admin_payload_is_bounded P body
                                  && text_eq (string_field P body "beforeSnapshotDigest")
                                      (some before))))))))

  unfoldable pub apply_admin : Replay Value → EventFact Value → Recovered (Replay Value)
  apply_admin r event = do
    body ← event_data P event
    source ← visit r event.source_node_visit_id
    target ← visit r event.target_node_visit_id
    effect ← expected_effect (string_field P body "operation") target
    before ← snapshot_digest (before_snapshot r.instance_row (projection_of r))
    err_if (not (admin_matches r event body target effect before))
        (invalid_immutable_facts "admin event disagrees with replay state")
    validate_node_columns event (some source) (some target)
    with_visit ← introduce_visit r target
    ok (record with_visit { current_visit = some target.node_visit_id })

  abbrev pub apply_kind : Replay Value → EventFact Value → Kind → Recovered (Replay Value)
  apply_kind r event initial = apply_initial P r event
  apply_kind r event revision = apply_context_revision P r event
  apply_kind r event transition = apply_transition P r event
  apply_kind r event combined = apply_combined P r event
  apply_kind r event admin = apply_admin r event
  apply_kind r event unsupported = invalid "event type is not supported by recovery replay"

  unfoldable pub is_contiguous : Replay Value → EventFact Value → I32 → Bool
  is_contiguous r event expected_sequence =
      (event.workflow_instance_id == r.instance_row.workflow_instance_id)
      && ((event.event_sequence == expected_sequence)
          && (str_eq event.event_schema_version "v1"
              && ((event.old_workflow_state_version == r.version)
                  && (event.new_workflow_state_version == expected_sequence))))

  unfoldable pub apply : Replay Value → EventFact Value → I32 → Recovered (Replay Value)
  apply r event expected_sequence = do
    err_if (not (is_contiguous r event expected_sequence))
        (invalid_immutable_facts "event sequence and state versions are not contiguous")
    applied ← apply_kind r event (kind_of event.event_type)
    ok (record applied { version = expected_sequence })

  -- `i32::try_from(index).ok().and_then(|value| value.checked_add(1))`
  abbrev pub sequence_of : ℕ → Option I32
  sequence_of index = if ltb index 2147483647 then some (index + 1) else none

  -- The loop, from the event at this index.
  unfoldable pub replay_from : Replay Value → ℕ → List (EventFact Value) → Recovered (Replay Value)
  replay_from r index [] = ok r
  replay_from r index (event ∷ rest) = do
    expected ← ok_or (sequence_of index) (invalid_immutable_facts "event sequence overflows i32")
    next ← apply r event expected
    replay_from next (suc index) rest

  -- `len()` of a map, whose keys count once
  abbrev pub size : {A : Type 0} → List (Uuid × A) → ℕ
  size [] = 0
  size ((key, a) ∷ rest) = if holds_key key rest then size rest else suc (size rest)
    where
      holds_key : {A : Type 0} → Uuid → List (Uuid × A) → Bool
      holds_key key [] = false
      holds_key key ((k, a) ∷ rest) = (k == key) || holds_key key rest

  unfoldable pub finish : Replay Value → Recovered WorkflowProjection
  finish r = do
    err_if
        (not (length r.introduced_contexts == size r.contexts)
          || (not (length r.introduced_visits == size r.visits)
              || not (length r.introduced_submissions == size r.submissions)))
        (invalid_immutable_facts "immutable fact exists outside its introducing event")
    ok (projection_of r)

  unfoldable pub replay :
      InstanceRow
      → Option String
      → List (ContextFact Value)
      → List VisitFact
      → List (SubmissionFact Value)
      → List TransitionFact
      → List (EventFact Value)
      → Recovered WorkflowProjection
  replay instance_row digest contexts visits submissions transitions events = do
    err_if (is_empty events) (invalid_immutable_facts "event fact sequence is empty")
    replayed ←
        replay_from (new_replay instance_row digest contexts visits submissions transitions) 0
          events
    finish replayed
