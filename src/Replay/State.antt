-- ===== src/Replay/State.antt =====
-- The state of the replay and the facts that an event introduces (event_replay.rs).
use svc_workflow_kernel.Prelude.{
  ◌+◌, Option, none, some, not, String, List, [], ◌∷◌, ◌++◌, map, get, contains, option_eq, ◌==◌,
  ltb, if◌then◌else◌, ◌&&◌,
}
use svc_workflow_kernel.Prelude.Result.{ok, ok_or, err_if, and_then, ◌>>=◌, ◌>>◌}
use svc_workflow_kernel.Definition.Model.{Uuid}
use svc_workflow_kernel.Store.{I32}
use svc_workflow_kernel.Lifecycle.Digest.{option_map}
use svc_workflow_kernel.Replay.Facts.{
  InstanceRow, ContextFact, VisitFact, SubmissionFact, TransitionFact, EventFact, Recovered,
  invalid_immutable_facts,
}

pub record Replay (V : Type 0) : Type 0 where
  pub instance_row : InstanceRow
  pub definition_digest : Option String
  pub contexts : List (Uuid × ContextFact V)
  pub visits : List (Uuid × VisitFact)
  pub submissions : List (Uuid × SubmissionFact V)
  pub transitions : List (Uuid × TransitionFact)
  pub introduced_contexts : List Uuid
  pub introduced_visits : List Uuid
  pub introduced_submissions : List Uuid
  pub visit_counts : List (Uuid × I32)
  pub current_context : Option Uuid
  pub current_visit : Option Uuid
  pub version : I32

-- `checked_add(1)` of a count, which is never negative
abbrev pub checked_next : I32 → Option I32
checked_next n = if ltb n 2147483647 then some (n + 1) else none

module _ {V : Type 0} where
  abbrev pub new_replay :
      InstanceRow
      → Option String
      → List (ContextFact V)
      → List VisitFact
      → List (SubmissionFact V)
      → List TransitionFact
      → Replay V
  new_replay instance_row digest contexts visits submissions transitions = record {
    instance_row = instance_row;
    definition_digest = digest;
    contexts = map (λ f. (f.context_revision_id, f)) contexts;
    visits = map (λ f. (f.node_visit_id, f)) visits;
    submissions = map (λ f. (f.submission_id, f)) submissions;
    transitions = map (λ f. (f.transition_id, f)) transitions;
    introduced_contexts = [];
    introduced_visits = [];
    introduced_submissions = [];
    visit_counts = [];
    current_context = none;
    current_visit = none;
    version = 0;
  }

  abbrev pub visit : Replay V → Option Uuid → Recovered VisitFact
  visit r id =
      ok_or (and_then id (get r.visits))
        (invalid_immutable_facts "event references an invalid node visit")

  abbrev pub context : Replay V → Option Uuid → Recovered (ContextFact V)
  context r id =
      ok_or (and_then id (get r.contexts))
        (invalid_immutable_facts "event references an invalid context revision")

  -- `entry(node_id).or_insert(0)`
  abbrev pub visit_count : Replay V → Uuid → I32
  visit_count r node = elim (get r.visit_counts node) [ none ↦ 0 | some n ↦ n ]

  unfoldable pub introduce_visit : Replay V → VisitFact → Recovered (Replay V)
  introduce_visit r v = do
    err_if (contains r.introduced_visits v.node_visit_id)
        (invalid_immutable_facts "node visit is introduced more than once")
    next ←
        ok_or (checked_next (visit_count r v.node_id))
          (invalid_immutable_facts "node visit count overflow")
    err_if (not (v.visit_number == next))
        (invalid_immutable_facts "node visit number does not follow event order")
    ok (record r {
      introduced_visits = v.node_visit_id ∷ r.introduced_visits;
      visit_counts = r.visit_counts ++ ((v.node_id, next) ∷ []);
    })

  unfoldable pub introduce_context : Replay V → ContextFact V → Recovered (Replay V)
  introduce_context r c = do
    err_if (contains r.introduced_contexts c.context_revision_id)
        (invalid_immutable_facts "context revision is introduced more than once")
    ok (record r { introduced_contexts = c.context_revision_id ∷ r.introduced_contexts })

  unfoldable pub introduce_submission : Replay V → SubmissionFact V → Recovered (Replay V)
  introduce_submission r s = do
    err_if (contains r.introduced_submissions s.submission_id)
        (invalid_immutable_facts "submission is introduced more than once")
    ok (record r { introduced_submissions = s.submission_id ∷ r.introduced_submissions })

  unfoldable pub validate_node_columns :
      EventFact V → Option VisitFact → Option VisitFact → Recovered (Unit {0})
  validate_node_columns event source target =
      err_if
        (not (
          option_eq event.from_node_id (option_map (λ v. v.node_id) source)
          && option_eq event.to_node_id (option_map (λ v. v.node_id) target)))
        (invalid_immutable_facts "event node fields disagree with visit references")
