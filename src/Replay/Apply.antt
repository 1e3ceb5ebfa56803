-- ===== src/Replay/Apply.antt =====
-- What each kind of event does to the state of the replay (event_replay.rs).
use svc_workflow_kernel.Prelude.{
  Option, none, some, Bool, true, false, ◌&&◌, not, String, str_eq, List, [], ◌∷◌, get, contains,
  option_eq, is_some, ◌==◌,
}
use svc_workflow_kernel.Prelude.Result.{ok, ok_or, err_if, and_then, ◌>>=◌, ◌>>◌}
use svc_workflow_kernel.Platform.{Platform}
use svc_workflow_kernel.Definition.Model.{Uuid}
use svc_workflow_kernel.Transition.Facts.{next_version}
use svc_workflow_kernel.Lifecycle.Digest.{or_empty}
use svc_workflow_kernel.Replay.Facts.{
  ContextFact, VisitFact, SubmissionFact, TransitionFact, EventFact, Recovered,
  invalid_immutable_facts,
}
use svc_workflow_kernel.Replay.Fields.{
  text_eq, exact_keys, string_field, uuid_field, optional_string_field, event_data,
}
use svc_workflow_kernel.Replay.Import.{validate_import, import_keys}
use svc_workflow_kernel.Replay.State.{
  Replay, visit, context, introduce_visit, introduce_context, introduce_submission,
  validate_node_columns,
}

-- `==` of two optional texts that may be missing
abbrev text_eq₂ : Option (Option String) → Option (Option String) → Bool
text_eq₂ none none = true
text_eq₂ (some a) (some b) = text_eq a b
text_eq₂ _ _ = false

-- `option.is_none()`
abbrev is_none {ℓ} : {A : Type ℓ} → Option A → Bool
is_none o = not (is_some o)

module _ (P : Platform) where
  open P use {Value, null, text, number, object, uuid_text}

  abbrev str : Value → String → String → Bool
  str value key expected = text_eq (string_field P value key) (some expected)

  abbrev id_is : Value → String → Option Uuid → Bool
  id_is value key expected = option_eq (uuid_field P value key) expected

  abbrev creation_keys : List String
  creation_keys =
      "definition_version_id" ∷ "definition_digest" ∷ "initial_node_id" ∷ "assignee_resolution_type"
      ∷ []

  abbrev initial_keys : Bool → List String
  initial_keys true = import_keys P
  initial_keys false = creation_keys

  unfoldable pub initial_shape :
      Replay Value → EventFact Value → Value → Bool → ContextFact Value → VisitFact → Bool
  initial_shape r event body imported c v =
      (r.version == 0)
      && (exact_keys P body (initial_keys imported)
          && (is_none event.source_node_visit_id
              && (is_none event.submission_id
                  && (is_none event.transition_effect
                      && (is_none event.from_node_id
                          && (is_none event.to_node_id
                              && ((c.revision_number == 1)
                                  && (is_none c.previous_revision_id
                                      && (is_none v.entered_by_transition_id
                                          && (v.visit_number == 1))))))))))

  unfoldable pub creation_matches : Replay Value → Value → VisitFact → Bool
  creation_matches r body v =
      id_is body "definition_version_id" (some r.instance_row.definition_version_id)
      && (str body "definition_digest" (or_empty r.definition_digest)
          && (id_is body "initial_node_id" (some v.node_id)
              && (text_eq (string_field P body "assignee_resolution_type") v.assignee_ref_type
                  && (str_eq v.node_type "DRAFT" && is_some v.assignee_principal_id))))

  abbrev pub check_origin :
      Replay Value
      → EventFact Value
      → Value
      → Bool
      → ContextFact Value
      → VisitFact
      → Recovered (Unit {0})
  check_origin r event body true c v = validate_import P body event r.instance_row c v
  check_origin r event body false c v =
      err_if (not (creation_matches r body v))
        (invalid_immutable_facts "creation event data does not match the initial facts")

  unfoldable pub apply_initial : Replay Value → EventFact Value → Recovered (Replay Value)
  apply_initial r event = do
    body ← event_data P event
    c ← context r event.context_revision_id
    v ← visit r event.target_node_visit_id
    let imported = str_eq event.event_type "WORKFLOW_INSTANCE_IMPORTED"
    err_if (not (initial_shape r event body imported c v))
        (invalid_immutable_facts "initial event does not introduce revision 1 and visit 1")
    check_origin r event body imported c v
    with_context ← introduce_context r c
    with_visit ← introduce_visit with_context v
    ok (record with_visit {
      current_context = some c.context_revision_id;
      current_visit = some v.node_visit_id;
    })

  abbrev revision_keys : List String
  revision_keys =
      "previous_context_revision_id" ∷ "new_context_revision_id" ∷ "previous_payload_digest"
      ∷ "new_payload_digest" ∷ "current_node_id" ∷ []

  unfoldable pub revision_matches :
      Replay Value
      → EventFact Value
      → Value
      → ContextFact Value
      → ContextFact Value
      → VisitFact
      → Bool
  revision_matches r event body previous c v =
      exact_keys P body revision_keys
      && (option_eq event.source_node_visit_id r.current_visit
          && (option_eq event.target_node_visit_id r.current_visit
              && (is_none event.submission_id
                  && (is_none event.transition_effect
                      && (is_none event.from_node_id
                          && (is_none event.to_node_id
                              && (option_eq c.previous_revision_id r.current_context
                                  && ((c.revision_number == next_version previous.revision_number)
                                      && (id_is body "previous_context_revision_id"
                                            r.current_context
                                          && (id_is body "new_context_revision_id"
                                                (some c.context_revision_id)
                                              && (str body "previous_payload_digest"
                                                    previous.payload_digest
                                                  && (str body "new_payload_digest" c.payload_digest
                                                      && (id_is body "current_node_id"
                                                            (some v.node_id)
                                                          && str_eq v.node_type "DRAFT")))))))))))))

  unfoldable pub apply_context_revision : Replay Value → EventFact Value → Recovered (Replay Value)
  apply_context_revision r event = do
    body ← event_data P event
    c ← context r event.context_revision_id
    v ← visit r event.source_node_visit_id
    previous ← context r r.current_context
    err_if (not (revision_matches r event body previous c v))
        (invalid_immutable_facts "context revision event disagrees with replay state")
    with_context ← introduce_context r c
    ok (record with_context { current_context = some c.context_revision_id })

  unfoldable pub transition_matches :
      Replay Value → EventFact Value → Value → VisitFact → VisitFact → TransitionFact → Bool
  transition_matches r event body source target t =
      option_eq event.source_node_visit_id r.current_visit
      && (not (contains r.introduced_visits target.node_visit_id)
          && (option_eq target.entered_by_transition_id (some t.transition_id)
              && ((t.source_node_id == source.node_id)
                  && ((t.target_node_id == target.node_id)
                      && (text_eq event.transition_effect (some t.transition_effect)
                          && (str body "transition_key" t.transition_key
                              && (str body "transition_effect" t.transition_effect
                                  && (id_is body "source_node_id" (some source.node_id)
                                      && (id_is body "target_node_id" (some target.node_id)
                                          && (id_is body "source_node_visit_id"
                                                (some source.node_visit_id)
                                              && id_is body "target_node_visit_id"
                                                  (some target.node_visit_id)))))))))))

  unfoldable pub transition_and_visits :
      Replay Value → EventFact Value → Value → Recovered (VisitFact × VisitFact × TransitionFact)
  transition_and_visits r event body = do
    source ← visit r event.source_node_visit_id
    target ← visit r event.target_node_visit_id
    transition_id ←
        ok_or (uuid_field P body "transition_definition_id")
          (invalid_immutable_facts "transition event has no valid transition id")
    t ←
        ok_or (get r.transitions transition_id)
          (invalid_immutable_facts "transition event references an invalid definition")
    err_if (not (transition_matches r event body source target t))
        (invalid_immutable_facts "transition event disagrees with definition or replay state")
    validate_node_columns event (some source) (some target)
    ok (source, target, t)

  abbrev transition_keys : List String
  transition_keys =
      "transition_definition_id" ∷ "transition_key" ∷ "transition_effect" ∷ "source_node_id"
      ∷ "target_node_id" ∷ "source_node_visit_id" ∷ "target_node_visit_id" ∷ "context_revision_id"
      ∷ "submission_payload_digest" ∷ []

  unfoldable pub submission_matches :
      Replay Value → EventFact Value → Value → TransitionFact → SubmissionFact Value → Bool
  submission_matches r event body t submission =
      option_eq (some submission.source_node_visit_id) event.source_node_visit_id
      && (option_eq (some submission.context_revision_id) r.current_context
          && ((submission.transition_id == t.transition_id)
              && text_eq₂ (optional_string_field P body "submission_payload_digest")
                  (some (some submission.payload_digest))))

  unfoldable pub omits_submission : Value → Bool
  omits_submission body =
      text_eq₂ (optional_string_field P body "submission_payload_digest") (some none)

  -- `event.submission_id` of `apply_transition`: `introduce_submission`, or no digest.
  unfoldable pub apply_submission :
      Replay Value
      → EventFact Value
      → Value
      → TransitionFact
      → Option Uuid
      → Recovered (Replay Value)
  apply_submission r event body t (some id) = do
    submission ←
        ok_or (get r.submissions id)
          (invalid_immutable_facts "transition event references an invalid submission")
    err_if (not (submission_matches r event body t submission))
        (invalid_immutable_facts "transition submission disagrees with event")
    introduce_submission r submission
  apply_submission r event body t none = do
    err_if (not (omits_submission body))
        (invalid_immutable_facts "transition event omits a referenced submission digest")
    ok r

  unfoldable pub transition_shape : Replay Value → EventFact Value → Value → Bool
  transition_shape r event body =
      exact_keys P body transition_keys
      && (option_eq event.context_revision_id r.current_context
          && id_is body "context_revision_id" r.current_context)

  unfoldable pub apply_transition : Replay Value → EventFact Value → Recovered (Replay Value)
  apply_transition r event = do
    body ← event_data P event
    err_if (not (transition_shape r event body))
        (invalid_immutable_facts "transition event data shape is invalid")
    found ← transition_and_visits r event body
    with_submission ← apply_submission r event body found.2 event.submission_id
    with_visit ← introduce_visit with_submission found.1
    ok (record with_visit { current_visit = some found.1.node_visit_id })

  abbrev combined_keys : List String
  combined_keys =
      "previous_context_revision_id" ∷ "new_context_revision_id" ∷ "previous_context_payload_digest"
      ∷ "new_context_payload_digest" ∷ "transition_definition_id" ∷ "transition_key"
      ∷ "transition_effect" ∷ "source_node_id" ∷ "target_node_id" ∷ "source_node_visit_id"
      ∷ "target_node_visit_id" ∷ "submission_payload_digest" ∷ []

  unfoldable pub combined_matches :
      Replay Value → EventFact Value → Value → ContextFact Value → ContextFact Value → Bool
  combined_matches r event body previous c =
      exact_keys P body combined_keys
      && (text_eq event.transition_effect (some "ADVANCE")
          && (option_eq c.previous_revision_id r.current_context
              && ((c.revision_number == next_version previous.revision_number)
                  && (id_is body "previous_context_revision_id" r.current_context
                      && (id_is body "new_context_revision_id" (some c.context_revision_id)
                          && (str body "previous_context_payload_digest" previous.payload_digest
                              && str body "new_context_payload_digest" c.payload_digest))))))

  unfoldable pub combined_submission :
      EventFact Value → Value → ContextFact Value → TransitionFact → SubmissionFact Value → Bool
  combined_submission event body c t submission =
      option_eq (some submission.source_node_visit_id) event.source_node_visit_id
      && ((submission.context_revision_id == c.context_revision_id)
          && ((submission.transition_id == t.transition_id)
              && str body "submission_payload_digest" submission.payload_digest))

  unfoldable pub apply_combined : Replay Value → EventFact Value → Recovered (Replay Value)
  apply_combined r event = do
    body ← event_data P event
    previous ← context r r.current_context
    c ← context r event.context_revision_id
    err_if (not (combined_matches r event body previous c))
        (invalid_immutable_facts "combined event context disagrees with replay state")
    found ← transition_and_visits r event body
    submission ←
        ok_or (and_then event.submission_id (get r.submissions))
          (invalid_immutable_facts "combined event requires a submission")
    err_if (not (combined_submission event body c found.2 submission))
        (invalid_immutable_facts "combined submission disagrees with event")
    with_context ← introduce_context r c
    with_submission ← introduce_submission with_context submission
    with_visit ← introduce_visit with_submission found.1
    ok (record with_visit {
      current_context = some c.context_revision_id;
      current_visit = some found.1.node_visit_id;
    })
