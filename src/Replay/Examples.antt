-- ===== src/Replay/Examples.antt =====
-- The events of a small instance: its creation and one transition.
use svc_workflow_kernel.Prelude.{◌≤◌, ◌≡◌, refl, none, some, List, [], ◌∷◌, length, inl}
use svc_workflow_kernel.Prelude.Result.{ok}
use svc_workflow_kernel.Enums.{effect_text}
use svc_workflow_kernel.Store.{EventRow}
use svc_workflow_kernel.Transition.Checks.{Plan}
use svc_workflow_kernel.Transition.Facts.{
  insert_event, compute_json_digest, event_data as written_data,
}
use svc_workflow_kernel.Transition.Small.{
  Json, small_platform, small_platform-ReadsBack, no_fault, first_node, last_node, small_db, finish,
  small_ids, marks,
}
use svc_workflow_kernel.Replay.Facts.{
  InstanceRow, ContextFact, VisitFact, TransitionFact, EventFact, WorkflowProjection,
}
use svc_workflow_kernel.Replay.Fields.{
  exact_keys, string_field, uuid_field, optional_string_field, recovery_digest, event_data,
}
use svc_workflow_kernel.Replay.State.{
  Replay, new_replay, introduce_visit, introduce_context, validate_node_columns,
}
use svc_workflow_kernel.Replay.Apply.{
  initial_shape, creation_matches, apply_initial, transition_shape, transition_matches,
  transition_and_visits, omits_submission, apply_submission, apply_transition,
}
use svc_workflow_kernel.Replay.Fold.{
  kind_of, is_contiguous, apply, replay_from, finish as finish_replay, size, replay,
}
use svc_workflow_kernel.Replay.Fold.Contiguous.{Contiguous, replay-Contiguous}
use svc_workflow_kernel.Replay.Fold.Introduced.{EndsIn, replay-IsIntroduced}
use svc_workflow_kernel.Replay.Agrees.{event_fact, ReadsShape, IsAt}
use svc_workflow_kernel.Replay.Agrees.Written.{written_row, insert_event-apply}

small_platform-ReadsShape : ReadsShape small_platform
small_platform-ReadsShape = record {
  reads_back = small_platform-ReadsBack;
  keys_object = λ fields distinct. (_, refl, refl, λ key. refl);
  is_null_null = refl;
  is_null_text = λ s. refl;
}

abbrev pub small_instance : InstanceRow
small_instance = record {
  workflow_instance_id = 5;
  domain_id = 2;
  definition_version_id = 3;
  created_by_principal_id = 1;
  created_by_principal_type = "HUMAN";
  external_reference = none;
  current_context_revision_id = some 6;
  current_node_visit_id = some 31;
  workflow_state_version = 2;
}

abbrev pub first_context : ContextFact Json
first_context = record {
  context_revision_id = 6;
  workflow_instance_id = 5;
  revision_number = 1;
  previous_revision_id = none;
  payload = small_platform.null;
  payload_digest = "digest";
  created_by_principal_id = 1;
}

abbrev pub first_visit : VisitFact
first_visit = record {
  node_visit_id = 7;
  workflow_instance_id = 5;
  node_id = 10;
  visit_number = 1;
  assignee_principal_id = some 1;
  entered_by_transition_id = none;
  definition_version_id = 3;
  node_type = "DRAFT";
  assignee_ref_type = some "WORKFLOW_CREATOR";
}

abbrev pub second_visit : VisitFact
second_visit = record first_visit {
  node_visit_id = 31;
  node_id = 11;
  assignee_principal_id = none;
  entered_by_transition_id = some 20;
  node_type = "TERMINAL";
  assignee_ref_type = none;
}

abbrev pub small_transition : TransitionFact
small_transition = record {
  transition_id = 20;
  definition_version_id = 3;
  transition_key = "finish";
  source_node_id = 10;
  target_node_id = 11;
  transition_effect = "ADVANCE";
}

abbrev small_plan : Plan Json
small_plan = record {
  instance_row = record {
    workflow_instance_id = 5;
    domain_id = 2;
    created_by_principal_id = 1;
    definition_version_id = 3;
    current_context_revision_id = 6;
    current_node_visit_id = 7;
    workflow_state_version = 1;
  };
  source_node = first_node;
  transition = record {
    transition_id = 20;
    transition_key = "finish";
    definition_version_id = 3;
    source_node_id = 10;
    target_node_id = 11;
    transition_effect = svc_workflow_kernel.Enums.TransitionEffect.advance;
    submission_schema = none;
  };
  target_node = last_node;
  final_submission_id = none;
  target_assignee_id = none;
  target_visit_number = 1;
}

abbrev creation : EventFact Json
creation = record {
  workflow_instance_id = 5;
  event_sequence = 1;
  event_schema_version = "v1";
  event_type = "WORKFLOW_INSTANCE_CREATED";
  transition_effect = none;
  source_node_visit_id = none;
  target_node_visit_id = some 7;
  context_revision_id = some 6;
  submission_id = none;
  event_data = some (
      small_platform.object (
        ("definition_version_id", small_platform.text (marks 3))
        ∷ ("definition_digest", small_platform.text "digest")
        ∷ ("initial_node_id", small_platform.text (marks 10))
        ∷ ("assignee_resolution_type", small_platform.text "WORKFLOW_CREATOR")
        ∷ []));
  event_data_digest = some "digest";
  actor_principal_id = 1;
  actor_principal_type = "HUMAN";
  from_node_id = none;
  to_node_id = none;
  old_workflow_state_version = 0;
  new_workflow_state_version = 1;
}

abbrev small_row : EventRow Json
small_row =
    written_row small_platform small_platform-ReadsShape no_fault small_ids finish small_plan none
      "digest"

abbrev small_events : List (EventFact Json)
small_events = creation ∷ event_fact "HUMAN" small_row ∷ []

abbrev rebuilt : WorkflowProjection
rebuilt = record {
  current_context_revision_id = some 6;
  current_node_visit_id = some 31;
  workflow_state_version = 2;
}

replays :
    replay small_platform small_instance
      (some "digest")
      (first_context ∷ [])
      (first_visit ∷ second_visit ∷ [])
      []
      (small_transition ∷ [])
      small_events
    ≡ ok rebuilt
unfolding replay replay_from apply is_contiguous kind_of apply_initial initial_shape
    creation_matches introduce_visit introduce_context validate_node_columns exact_keys string_field
    uuid_field optional_string_field recovery_digest event_data transition_shape transition_matches
    transition_and_visits omits_submission apply_submission apply_transition finish_replay
    written_data effect_text
replays = refl

replay-Contiguous_example :
    Contiguous 5 0 small_events
    × (rebuilt.workflow_state_version ≡ length small_events)
    × (1 ≤ rebuilt.workflow_state_version)
    × (rebuilt.workflow_state_version ≤ 2147483647)
replay-Contiguous_example =
    replay-Contiguous small_platform small_instance (some "digest") (first_context ∷ [])
      (first_visit ∷ second_visit ∷ []) [] (small_transition ∷ []) small_events replays

replay-IsIntroduced_example :
    (last : Replay Json) × (replay_from small_platform
        (new_replay small_instance
          (some "digest")
          (first_context ∷ [])
          (first_visit ∷ second_visit ∷ [])
          []
          (small_transition ∷ []))
        0
        small_events
      ≡ ok last)
    × EndsIn last rebuilt
    × (length last.introduced_contexts ≡ size small_platform last.contexts)
    × (length last.introduced_visits ≡ size small_platform last.visits)
    × (length last.introduced_submissions ≡ size small_platform last.submissions)
replay-IsIntroduced_example =
    replay-IsIntroduced small_platform small_instance (some "digest") (first_context ∷ [])
      (first_visit ∷ second_visit ∷ []) [] (small_transition ∷ []) small_events replays

-- The replay after the creation.
abbrev at_first : Replay Json
at_first =
    record (new_replay small_instance (some "digest") (first_context ∷ [])
      (first_visit ∷ second_visit ∷ []) [] (small_transition ∷ [])) {
        introduced_contexts = 6 ∷ [];
        introduced_visits = 7 ∷ [];
        visit_counts = (10, 1) ∷ [];
        current_context = some 6;
        current_visit = some 7;
        version = 1;
      }

at_first-IsAt :
    IsAt small_platform small_platform-ReadsShape no_fault small_ids finish small_plan at_first
unfolding effect_text
at_first-IsAt = record {
  same_instance = refl;
  version_is = refl;
  visit_is = refl;
  context_is = refl;
  source = first_visit;
  source_found = refl;
  source_id = refl;
  source_node = refl;
  target = second_visit;
  target_found = refl;
  target_id = refl;
  target_node = refl;
  target_entered = refl;
  target_fresh = refl;
  target_number = refl;
  transition = small_transition;
  transition_found = refl;
  transition_id = refl;
  transition_key = refl;
  transition_effect = refl;
  transition_source = refl;
  transition_target = refl;
}

inserts :
    insert_event small_platform no_fault small_db small_ids finish small_plan none
    ≡ ok (record small_db { events = small_row ∷ [] })
unfolding insert_event compute_json_digest written_data
inserts = refl

insert_event-apply_example :
    (row : EventRow Json) × ((small_row ∷ []) ≡ row ∷ [])
    × (last : Replay Json) × (apply small_platform at_first
          (event_fact "HUMAN" row)
          row.event_sequence
        ≡ ok last)
    × (last.current_visit ≡ some 31)
    × (last.current_context ≡ some 6)
    × (last.version ≡ 2)
insert_event-apply_example =
    insert_event-apply small_platform small_platform-ReadsShape no_fault small_db small_ids finish
      small_plan none "HUMAN" at_first at_first-IsAt (inl (refl, refl)) inserts
