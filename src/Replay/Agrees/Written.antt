-- ===== src/Replay/Agrees/Written.antt =====
-- The event of a transition is accepted by the replay, and leads to what the transaction has made of
-- the instance.
use svc_workflow_kernel.Prelude.{
  ◌≡◌, refl, sym, ap, ◌∙◌, Option, some, true, ◌&&◌, List, [], ◌∷◌, ◌++◌, contains, get, str_eq_iff,
  ◌==◌, ==_self, String, inl, inr,
}
use svc_workflow_kernel.Prelude.Result.{
  ok, ok_or, err_if, question-ok, ok_inj, Result-cases, pass, pass_guard, ok_or-found,
}
use svc_workflow_kernel.Platform.{Platform}
use svc_workflow_kernel.Definition.Model.{Uuid}
use svc_workflow_kernel.Store.{EventRow, Db, Faults, attempt-eq-ok, event_insert}
use svc_workflow_kernel.Transition.Command.{ExecuteWorkflowTransitionCommand, FreshIds}
use svc_workflow_kernel.Transition.Checks.{Plan}
use svc_workflow_kernel.Transition.Facts.{
  next_version, failed, compute_json_digest, insert_event, event_data as written_data,
}
use svc_workflow_kernel.Replay.Facts.{EventFact}
use svc_workflow_kernel.Replay.Fields.{recovery_digest, event_data, uuid_field}
use svc_workflow_kernel.Replay.State.{
  Replay, visit, visit_count, checked_next, introduce_visit, validate_node_columns,
}
use svc_workflow_kernel.Replay.Apply.{
  transition_shape, transition_matches, transition_and_visits, apply_submission, apply_transition,
}
use svc_workflow_kernel.Replay.Fold.{transition, kind_of, is_contiguous, apply, apply_kind}
use svc_workflow_kernel.Replay.Agrees.{
  event_fact, ReadsShape, IsAt, data_of, SubmissionAt, ◌&◌, ==-of, shape_holds, matches_holds,
  submission_holds, id_field,
}

module _ (P : Platform) (laws : ReadsShape P) (fault : Faults) where
  open P use {Value, uuid_text}

  -- The row that `insert_event` adds.
  abbrev pub written_row :
      FreshIds
      → ExecuteWorkflowTransitionCommand Value
      → Plan Value
      → Option String
      → String
      → EventRow Value
  written_row ids cmd plan payload_digest digest = record {
    event_id = ids.event_id;
    workflow_instance_id = cmd.workflow_instance_id;
    event_sequence = next_version plan.instance_row.workflow_state_version;
    event_schema_version = "v1";
    command_id = ids.command_id;
    event_type = "WORKFLOW_TRANSITION_COMMITTED";
    transition_effect = plan.transition.transition_effect;
    source_node_visit_id = plan.instance_row.current_node_visit_id;
    target_node_visit_id = ids.new_node_visit_id;
    context_revision_id = plan.instance_row.current_context_revision_id;
    submission_id = plan.final_submission_id;
    event_data = data_of P laws fault ids plan payload_digest;
    event_data_digest = digest;
    actor_principal_id = cmd.principal_id;
    from_node_id = plan.source_node.node_id;
    to_node_id = plan.target_node.node_id;
    old_workflow_state_version = plan.instance_row.workflow_state_version;
    new_workflow_state_version = next_version plan.instance_row.workflow_state_version;
  }

  insert_event-row :
      (db : Db Value) (ids : FreshIds) (cmd : ExecuteWorkflowTransitionCommand Value)
      (plan : Plan Value) (payload_digest : Option String) {tx : Db Value}
      → insert_event P fault db ids cmd plan payload_digest ≡ ok tx
      → (digest : String) × (compute_json_digest P fault
            (data_of P laws fault ids plan payload_digest)
          ≡ ok digest)
        × (tx.events ≡ written_row ids cmd plan payload_digest digest ∷ db.events)
  unfolding insert_event
  insert_event-row db ids cmd plan payload_digest h =
      let (digest, digested, h) =
        question-ok (compute_json_digest P fault (data_of P laws fault ids plan payload_digest)) _
          h in
      (
        digest,
        digested,
        ap (λ (x : Db Value). x.events)
            (attempt-eq-ok fault (failed "event insert failed: ") event_insert _ h),
      )

  same_digest :
      (v : Value) {digest : String}
      → compute_json_digest P fault v ≡ ok digest
      → recovery_digest P v ≡ ok digest
  unfolding compute_json_digest recovery_digest
  same_digest v h = elim (Result-cases (P.sha256_jcs_hex v)) [
    | inl (e, k) ↦ cc (rw (k, compute_json_digest) at h)
    | inr (d, k) ↦ rw (k, recovery_digest) (ap ok (ok_inj (rw (k, compute_json_digest) at h)))
  ]

  event_data-ok :
      (e : EventFact Value) (v : Value) (digest : String)
      → e.event_data ≡ some v
      → e.event_data_digest ≡ some digest
      → recovery_digest P v ≡ ok digest
      → event_data P e ≡ ok v
  unfolding event_data
  event_data-ok e v digest has_data has_digest digested =
      rw (has_data, has_digest, digested, (str_eq_iff digest digest).1 refl) refl

  module _ (ids : FreshIds) (cmd : ExecuteWorkflowTransitionCommand Value) (plan : Plan Value)
      (payload_digest : Option String) (digest : String) (actor_type : String) (r : Replay Value)
      (at : IsAt P laws fault ids cmd plan r) where
    abbrev the_event : EventFact Value
    the_event = event_fact actor_type (written_row ids cmd plan payload_digest digest)

    names_transition :
        uuid_field P (data_of P laws fault ids plan payload_digest) "transition_definition_id"
        ≡ some plan.transition.transition_id
    unfolding written_data
    names_transition =
        id_field P laws fault _ "transition_definition_id" plan.transition.transition_id refl

    transition_and_visits-found :
        transition_and_visits P r the_event (data_of P laws fault ids plan payload_digest)
        ≡ ok (at.source, at.target, at.transition)
    unfolding transition_and_visits validate_node_columns
    transition_and_visits-found =
        let body = data_of P laws fault ids plan payload_digest in
        pass (visit r the_event.source_node_visit_id) _
          (ok_or-found (get r.visits plan.instance_row.current_node_visit_id) _ at.source_found)
          (pass (visit r the_event.target_node_visit_id) _
            (ok_or-found (get r.visits ids.new_node_visit_id) _ at.target_found)
            (pass (ok_or (uuid_field P body "transition_definition_id") _) _
              (ok_or-found (uuid_field P body "transition_definition_id") _ names_transition)
              (pass (ok_or (get r.transitions plan.transition.transition_id) _) _
                (ok_or-found (get r.transitions plan.transition.transition_id) _
                  at.transition_found)
                (pass_guard
                  (transition_matches P r the_event body at.source at.target at.transition) _ _
                  (matches_holds P laws fault ids cmd plan payload_digest r the_event at refl refl)
                  (pass_guard
                    ((plan.source_node.node_id == at.source.node_id)
                      && (plan.target_node.node_id == at.target.node_id))
                    _ _
                    (==-of P laws fault plan.source_node.node_id at.source.node_id
                        (sym at.source_node)
                      & ==-of P laws fault plan.target_node.node_id at.target.node_id
                          (sym at.target_node))
                    refl)))))

    introduce_visit-target :
        (introduced : List Uuid)
        → introduce_visit (record r { introduced_submissions = introduced }) at.target
          ≡ ok (record r {
            introduced_submissions = introduced;
            introduced_visits = at.target.node_visit_id ∷ r.introduced_visits;
            visit_counts = r.visit_counts ++ ((at.target.node_id, at.target.visit_number) ∷ []);
          })
    unfolding introduce_visit
    introduce_visit-target introduced =
        pass (err_if (contains r.introduced_visits at.target.node_visit_id) _) _
          (rw (at.target_id, at.target_fresh) refl)
          (pass (ok_or (checked_next (visit_count r at.target.node_id)) _) _
            (ok_or-found (checked_next (visit_count r at.target.node_id)) _
              (rw at.target_node at.target_number))
            (pass_guard (at.target.visit_number == at.target.visit_number) _ _
              (==_self at.target.visit_number) refl))

    -- The state after the event.
    abbrev reached : List Uuid → Replay Value
    reached introduced = record r {
      introduced_submissions = introduced;
      introduced_visits = at.target.node_visit_id ∷ r.introduced_visits;
      visit_counts = r.visit_counts ++ ((at.target.node_id, at.target.visit_number) ∷ []);
      current_visit = some at.target.node_visit_id;
    }

    apply_transition-reached :
        compute_json_digest P fault (data_of P laws fault ids plan payload_digest) ≡ ok digest
        → SubmissionAt P laws fault plan payload_digest r
        → (introduced : List Uuid) × (apply_transition P r the_event ≡ ok (reached introduced))
    unfolding apply_transition
    apply_transition-reached digested submission =
        let body = data_of P laws fault ids plan payload_digest in
        let (introduced, submitted) =
          submission_holds P laws fault ids cmd plan payload_digest r the_event at refl
            submission in
        (
          introduced,
          pass (event_data P the_event) _
              (event_data-ok the_event body digest refl refl (same_digest body digested))
              (pass_guard (transition_shape P r the_event body) _ _
                (shape_holds P laws fault ids cmd plan payload_digest r the_event at refl)
                (pass (transition_and_visits P r the_event body) _ transition_and_visits-found (
                  pass (apply_submission P r the_event body at.transition plan.final_submission_id)
                    _ submitted
                    (pass
                      (introduce_visit (record r { introduced_submissions = introduced }) at.target)
                      _ (introduce_visit-target introduced) refl)))),
        )

    is_contiguous-written :
        is_contiguous P r the_event (next_version plan.instance_row.workflow_state_version) ≡ true
    unfolding is_contiguous
    is_contiguous-written =
        let next = next_version plan.instance_row.workflow_state_version in
        ==-of P laws fault cmd.workflow_instance_id r.instance_row.workflow_instance_id
          (sym at.same_instance)
        & ==_self next
        & refl
        & ==-of P laws fault plan.instance_row.workflow_state_version r.version (sym at.version_is)
        & ==_self next

    is_transition : kind_of "WORKFLOW_TRANSITION_COMMITTED" ≡ transition
    unfolding kind_of
    is_transition = refl

    apply-reached :
        compute_json_digest P fault (data_of P laws fault ids plan payload_digest) ≡ ok digest
        → SubmissionAt P laws fault plan payload_digest r
        → (introduced : List Uuid) × (apply P r the_event
              (next_version plan.instance_row.workflow_state_version)
            ≡ ok (record (reached introduced) {
              version = next_version plan.instance_row.workflow_state_version;
            }))
    unfolding apply
    apply-reached digested submission =
        let (introduced, applied) = apply_transition-reached digested submission in
        (
          introduced,
          pass_guard
              (is_contiguous P r the_event (next_version plan.instance_row.workflow_state_version))
              _ _ is_contiguous-written
              (pass (apply_kind P r the_event (kind_of "WORKFLOW_TRANSITION_COMMITTED")) _
                (ap (apply_kind P r the_event) is_transition ∙ applied) refl),
        )

  -- A replay that has reached the instance as a transition read it, and that knows the visits, the
  -- transition and the submission which the transition names, accepts the event that the transition
  -- writes, and then stands at the new visit and the next version, in the same context.
  pub insert_event-apply :
      (db : Db Value) (ids : FreshIds) (cmd : ExecuteWorkflowTransitionCommand Value)
      (plan : Plan Value) (payload_digest : Option String) (actor_type : String) {tx : Db Value}
      (r : Replay Value)
      → IsAt P laws fault ids cmd plan r
      → SubmissionAt P laws fault plan payload_digest r
      → insert_event P fault db ids cmd plan payload_digest ≡ ok tx
      → (row : EventRow Value) × (tx.events ≡ row ∷ db.events)
        × (last : Replay Value) × (apply P r (event_fact actor_type row) row.event_sequence
            ≡ ok last)
        × (last.current_visit ≡ some ids.new_node_visit_id)
        × (last.current_context ≡ r.current_context)
        × (last.version ≡ next_version r.version)
  insert_event-apply db ids cmd plan payload_digest actor_type r at submission h =
      let (digest, digested, wrote) = insert_event-row db ids cmd plan payload_digest h in
      let (introduced, applied) =
        apply-reached ids cmd plan payload_digest digest actor_type r at digested submission in
      (
        written_row ids cmd plan payload_digest digest,
        wrote,
        _,
        applied,
        ap some at.target_id,
        refl,
        ap next_version (sym at.version_is),
      )
