-- ===== src/Replay/Agrees.antt =====
-- The event that a transition transaction writes (transition_helpers.rs) and its replay
-- (event_replay.rs).
pub mod Written
use svc_workflow_kernel.Prelude.{
  ℕ, suc, ◌+◌, ◌<◌, ◌≤◌, ◌≡◌, refl, sym, subst, ap, ◌∙◌, Option, none, some, Bool, true, false, not,
  ◌&&◌, ◌||◌, List, [], ◌∷◌, ◌++◌, map, length, contains, get, str_eq, str_eq_iff, ◌==◌, ==_self,
  ==_iff, option_eq, arith, String, ◌⊎◌, inl, inr,
}
use svc_workflow_kernel.Prelude.Result.{
  Result, ok, err, ok_or, err_if, ◌>>=◌, ◌>>◌, question-ok, ok_inj, and_then,
}
use svc_workflow_kernel.Platform.{Platform, ReadsBack, field_of}
use svc_workflow_kernel.Enums.{effect_text}
use svc_workflow_kernel.Definition.Model.{Uuid}
use svc_workflow_kernel.Store.{I32, EventRow, Db, Faults, attempt, attempt-eq-ok, event_insert}
use svc_workflow_kernel.Transition.Command.{ExecuteWorkflowTransitionCommand, FreshIds}
use svc_workflow_kernel.Transition.Checks.{Plan}
use svc_workflow_kernel.Transition.Facts.{
  next_version, failed, compute_json_digest, insert_event, event_data as written_data,
}
use svc_workflow_kernel.Replay.Facts.{
  ContextFact, VisitFact, SubmissionFact, TransitionFact, EventFact, Recovered,
}
use svc_workflow_kernel.Replay.Fields.{
  exact_keys, all_keys, string_field, uuid_field, optional_string_field, recovery_digest,
  event_data, text_eq, has_text,
}
use svc_workflow_kernel.Replay.State.{
  Replay, visit, context, visit_count, checked_next, introduce_visit, introduce_submission,
  validate_node_columns,
}
use svc_workflow_kernel.Replay.Apply.{
  transition_shape, transition_matches, transition_and_visits, apply_submission, submission_matches,
  omits_submission, apply_transition,
}
use svc_workflow_kernel.Replay.Fold.{kind_of, is_contiguous, apply, apply_kind}

-- The row as `load_events` reads it, with the type of the actor, which the query joins.
abbrev pub event_fact : {V : Type 0} → String → EventRow V → EventFact V
event_fact actor_type e = record {
  workflow_instance_id = e.workflow_instance_id;
  event_sequence = e.event_sequence;
  event_schema_version = e.event_schema_version;
  event_type = e.event_type;
  transition_effect = some (effect_text e.transition_effect);
  source_node_visit_id = some e.source_node_visit_id;
  target_node_visit_id = some e.target_node_visit_id;
  context_revision_id = some e.context_revision_id;
  submission_id = e.submission_id;
  event_data = some e.event_data;
  event_data_digest = some e.event_data_digest;
  actor_principal_id = e.actor_principal_id;
  actor_principal_type = actor_type;
  from_node_id = some e.from_node_id;
  to_node_id = some e.to_node_id;
  old_workflow_state_version = e.old_workflow_state_version;
  new_workflow_state_version = e.new_workflow_state_version;
}

abbrev pub no_repeats : List String → Bool
no_repeats [] = true
no_repeats (k ∷ ks) = not (has_text ks k) && no_repeats ks

-- The documented behaviour that the replay relies on besides: an object that is built from pairs
-- without a repeated key has as many keys as there are pairs, and those of the pairs, in whatever
-- order it yields them; and which values are null.
pub record ReadsShape (P : Platform) : Type 0 where
  pub reads_back : ReadsBack P
  pub keys_object :
      (fields : List (String × P.Value))
      → no_repeats (map (λ f. f.0) fields) ≡ true
      → (keys : List String) × (P.object_keys (P.object fields) ≡ some keys)
        × (length keys ≡ length (map (λ f. f.0) fields))
        × ((key : String) → has_text keys key ≡ has_text (map (λ f. f.0) fields) key)
  pub is_null_null : P.is_null P.null ≡ true
  pub is_null_text : (s : String) → P.is_null (P.text s) ≡ false

infixr 4 ◌&◌
pub ◌&◌ : {a b : Bool} → a ≡ true → b ≡ true → (a && b) ≡ true
ha & hb = rw (ha, hb) refl

not-of : (b : Bool) → b ≡ false → not b ≡ true
not-of b h = rw h refl

-- Whether all keys are present depends on which are, not on their order.
all_keys-same :
    (xs ys : List String)
    → ((key : String) → has_text ys key ≡ has_text xs key)
    → (keys : List String) → all_keys xs keys ≡ true
    → all_keys ys keys ≡ true
all_keys-same xs ys same [] h = refl
all_keys-same xs ys same (k ∷ ks) h =
    let rest = all_keys-same xs ys same ks in let first = same k in ground arith

module _ (P : Platform) (laws : ReadsShape P) (fault : Faults) where
  open P use {Value, uuid_text}
  open laws use {reads_back, keys_object, is_null_null, is_null_text}
  open reads_back use {get_object, as_str_text, parse_uuid_text}

  -- The facts of the rows that the transaction wrote, and of those that it read, in a state of the
  -- replay that has reached the instance as it was read.
  pub record IsAt (ids : FreshIds) (cmd : ExecuteWorkflowTransitionCommand Value)
      (plan : Plan Value) (r : Replay Value) : Type 0 where
    pub same_instance : r.instance_row.workflow_instance_id ≡ cmd.workflow_instance_id
    pub version_is : r.version ≡ plan.instance_row.workflow_state_version
    pub visit_is : r.current_visit ≡ some plan.instance_row.current_node_visit_id
    pub context_is : r.current_context ≡ some plan.instance_row.current_context_revision_id
    pub source : VisitFact
    pub source_found : get r.visits plan.instance_row.current_node_visit_id ≡ some source
    pub source_id : source.node_visit_id ≡ plan.instance_row.current_node_visit_id
    pub source_node : source.node_id ≡ plan.source_node.node_id
    pub target : VisitFact
    pub target_found : get r.visits ids.new_node_visit_id ≡ some target
    pub target_id : target.node_visit_id ≡ ids.new_node_visit_id
    pub target_node : target.node_id ≡ plan.target_node.node_id
    pub target_entered : target.entered_by_transition_id ≡ some plan.transition.transition_id
    pub target_fresh : contains r.introduced_visits ids.new_node_visit_id ≡ false
    pub target_number :
        checked_next (visit_count r plan.target_node.node_id) ≡ some target.visit_number
    pub transition : TransitionFact
    pub transition_found : get r.transitions plan.transition.transition_id ≡ some transition
    pub transition_id : transition.transition_id ≡ plan.transition.transition_id
    pub transition_key : transition.transition_key ≡ plan.transition.transition_key
    pub transition_effect :
        transition.transition_effect ≡ effect_text plan.transition.transition_effect
    pub transition_source : transition.source_node_id ≡ plan.source_node.node_id
    pub transition_target : transition.target_node_id ≡ plan.target_node.node_id

  -- The data of the event, as `insert_event` builds it.
  abbrev pub data_of : FreshIds → Plan Value → Option String → Value
  data_of ids plan digest =
      written_data P fault plan.transition plan.source_node.node_id plan.target_node.node_id
        plan.instance_row.current_node_visit_id ids.new_node_visit_id
        plan.instance_row.current_context_revision_id digest

  text_field :
      (fields : List (String × Value)) (key s : String)
      → field_of key fields ≡ some (P.text s)
      → string_field P (P.object fields) key ≡ some s
  unfolding string_field
  text_field fields key s h = rw (get_object fields key, h) (as_str_text s)

  id_field :
      (fields : List (String × Value)) (key : String) (id : Uuid)
      → field_of key fields ≡ some (P.text (uuid_text id))
      → uuid_field P (P.object fields) key ≡ some id
  unfolding uuid_field
  id_field fields key id h =
      rw (get_object fields key, h, as_str_text (uuid_text id)) (parse_uuid_text id)

  option_eq_self : (id : Uuid) → option_eq (some id) (some id) ≡ true
  option_eq_self id = ==_self id

  text_eq_self : (s : String) → text_eq (some s) (some s) ≡ true
  text_eq_self s = (str_eq_iff s s).1 refl

  exact_keys-object :
      (fields : List (String × Value)) (keys : List String)
      → no_repeats (map (λ f. f.0) fields) ≡ true
      → (length (map (λ f. f.0) fields) == length keys) ≡ true
      → all_keys (map (λ f. f.0) fields) keys ≡ true
      → exact_keys P (P.object fields) keys ≡ true
  unfolding exact_keys
  exact_keys-object fields keys distinct same all =
      let (present, found, as_many, those) = keys_object fields distinct in
      rw (exact_keys, found)
        (rw as_many same & all_keys-same (map (λ f. f.0) fields) present those keys all)

  pub option_eq-of :
      (a b : Option Uuid) (id : Uuid) → a ≡ some id → b ≡ some id → option_eq a b ≡ true
  option_eq-of a b id ha hb = rw (ha, hb) (==_self id)

  text_eq-of : (a b : Option String) (s : String) → a ≡ some s → b ≡ some s → text_eq a b ≡ true
  text_eq-of a b s ha hb = rw (ha, hb) ((str_eq_iff s s).1 refl)

  pub ==-of : (a b : ℕ) → a ≡ b → (a == b) ≡ true
  ==-of a b h = (==_iff a b).1 h

  pub shape_holds :
      (ids : FreshIds) (cmd : ExecuteWorkflowTransitionCommand Value) (plan : Plan Value)
      (digest : Option String) (r : Replay Value) (e : EventFact Value)
      → IsAt ids cmd plan r
      → e.context_revision_id ≡ some plan.instance_row.current_context_revision_id
      → transition_shape P r e (data_of ids plan digest) ≡ true
  unfolding transition_shape written_data
  shape_holds ids cmd plan digest r e at same =
      let c = plan.instance_row.current_context_revision_id in
      exact_keys-object _ _ refl refl refl
      & option_eq-of e.context_revision_id r.current_context c same at.context_is
      & option_eq-of _ r.current_context c (id_field _ "context_revision_id" c refl) at.context_is

  pub matches_holds :
      (ids : FreshIds) (cmd : ExecuteWorkflowTransitionCommand Value) (plan : Plan Value)
      (digest : Option String) (r : Replay Value) (e : EventFact Value) (at : IsAt ids cmd plan r)
      → e.source_node_visit_id ≡ some plan.instance_row.current_node_visit_id
      → e.transition_effect ≡ some (effect_text plan.transition.transition_effect)
      → transition_matches P r e (data_of ids plan digest) at.source at.target at.transition ≡ true
  unfolding transition_matches written_data
  matches_holds ids cmd plan digest r e at same_source same_effect =
      let source = plan.instance_row.current_node_visit_id in
      let effect = effect_text plan.transition.transition_effect in
      option_eq-of e.source_node_visit_id r.current_visit source same_source at.visit_is
      & not-of (contains r.introduced_visits at.target.node_visit_id)
          (rw at.target_id at.target_fresh)
      & option_eq-of at.target.entered_by_transition_id (some at.transition.transition_id)
          plan.transition.transition_id at.target_entered (ap some at.transition_id)
      & ==-of at.transition.source_node_id at.source.node_id
          (at.transition_source ∙ sym at.source_node)
      & ==-of at.transition.target_node_id at.target.node_id
          (at.transition_target ∙ sym at.target_node)
      & text_eq-of e.transition_effect (some at.transition.transition_effect) effect same_effect
          (ap some at.transition_effect)
      & text_eq-of _ (some at.transition.transition_key) plan.transition.transition_key
          (text_field _ "transition_key" plan.transition.transition_key refl)
          (ap some at.transition_key)
      & text_eq-of _ (some at.transition.transition_effect) effect
          (text_field _ "transition_effect" effect refl) (ap some at.transition_effect)
      & option_eq-of _ (some at.source.node_id) plan.source_node.node_id
          (id_field _ "source_node_id" plan.source_node.node_id refl) (ap some at.source_node)
      & option_eq-of _ (some at.target.node_id) plan.target_node.node_id
          (id_field _ "target_node_id" plan.target_node.node_id refl) (ap some at.target_node)
      & option_eq-of _ (some at.source.node_visit_id) source
          (id_field _ "source_node_visit_id" source refl) (ap some at.source_id)
      & option_eq-of _ (some at.target.node_visit_id) ids.new_node_visit_id
          (id_field _ "target_node_visit_id" ids.new_node_visit_id refl) (ap some at.target_id)

  -- The submission of the event, if it has one, with the digest that its data names.
  abbrev pub SubmissionAt : Plan Value → Option String → Replay Value → Type 0
  SubmissionAt plan digest r =
      ((plan.final_submission_id ≡ none) × (digest ≡ none))
      ⊎ ((id : Uuid) × (s : SubmissionFact Value) × (plan.final_submission_id ≡ some id)
          × (digest ≡ some s.payload_digest)
          × (get r.submissions id ≡ some s)
          × (contains r.introduced_submissions s.submission_id ≡ false)
          × (s.source_node_visit_id ≡ plan.instance_row.current_node_visit_id)
          × (s.context_revision_id ≡ plan.instance_row.current_context_revision_id)
          × (s.transition_id ≡ plan.transition.transition_id))

  null_field :
      (fields : List (String × Value)) (key : String)
      → field_of key fields ≡ some P.null
      → optional_string_field P (P.object fields) key ≡ some none
  unfolding optional_string_field
  null_field fields key h = rw (get_object fields key, h, is_null_null) refl

  some_field :
      (fields : List (String × Value)) (key s : String)
      → field_of key fields ≡ some (P.text s)
      → optional_string_field P (P.object fields) key ≡ some (some s)
  unfolding optional_string_field
  some_field fields key s h = rw (get_object fields key, h, is_null_text s, as_str_text s) refl

  -- Only the submissions change.
  pub submission_holds :
      (ids : FreshIds) (cmd : ExecuteWorkflowTransitionCommand Value) (plan : Plan Value)
      (digest : Option String) (r : Replay Value) (e : EventFact Value) (at : IsAt ids cmd plan r)
      → e.source_node_visit_id ≡ some plan.instance_row.current_node_visit_id
      → SubmissionAt plan digest r
      → (introduced : List Uuid) × (apply_submission P r e
            (data_of ids plan digest)
            at.transition
            plan.final_submission_id
          ≡ ok (record r { introduced_submissions = introduced }))
  unfolding apply_submission omits_submission submission_matches introduce_submission written_data
  submission_holds ids cmd plan digest r e at same_source (inl (no_id, no_digest)) = (
    r.introduced_submissions,
    rw (no_id, no_digest, null_field _ "submission_payload_digest" refl) refl,
  )
  submission_holds ids cmd plan digest r e at same_source
        (inr (id, s, is_id, is_digest, found, fresh, source, context, transition)) =
      (
        s.submission_id ∷ r.introduced_submissions,
        rw
            (
              is_id,
              is_digest,
              found,
              fresh,
              some_field _ "submission_payload_digest" s.payload_digest refl,
              option_eq-of (some s.source_node_visit_id) e.source_node_visit_id
                  plan.instance_row.current_node_visit_id (ap some source) same_source,
              option_eq-of (some s.context_revision_id) r.current_context
                  plan.instance_row.current_context_revision_id (ap some context) at.context_is,
              ==-of s.transition_id at.transition.transition_id (transition ∙ sym at.transition_id),
              (str_eq_iff s.payload_digest s.payload_digest).1 refl,
            )
            refl,
      )
