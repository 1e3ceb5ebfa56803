-- ===== src/Replay/Snapshot.antt =====
-- The checks of the immutable facts that precede a replay, and of the digest that a command expects:
-- `validate_contexts`, `validate_visits`, `validate_submissions` and `verify_expected_digest` of
-- src/store/postgres/admin_recovery_repository/snapshot.rs.
pub mod Related
pub mod Chained
pub mod Submitted
mod Examples
use svc_workflow_kernel.Prelude.{
  ℕ, suc, ◌+◌, ◌%◌, Option, none, some, Bool, true, false, ◌&&◌, ◌||◌, not, String, str_eq, List,
  [], ◌∷◌, map, get, contains, option_eq, is_some, is_empty, find?, leb, ltb, ◌==◌, any, nth, Has,
  any-Has, find?-Has,
}
use svc_workflow_kernel.Prelude.Result.{
  ok, err_if, ◌>>=◌, ◌>>◌, guard_iff, last_guard_iff, step_iff, stop_iff,
}
use svc_workflow_kernel.Platform.{Platform}
use svc_workflow_kernel.Definition.Model.{Uuid}
use svc_workflow_kernel.Store.{I32}
use svc_workflow_kernel.Lifecycle.Digest.{option_map}
use svc_workflow_kernel.Replay.Facts.{
  InstanceRow, ContextFact, VisitFact, SubmissionFact, TransitionFact, Recovered, invalid_input,
  before_snapshot_digest_mismatch, invalid_immutable_facts,
}
use svc_workflow_kernel.Replay.Fields.{recovery_digest}
use svc_workflow_kernel.Replay.Import.{lowercase_digest}

unfoldable pub verify_expected_digest : Option String → String → Recovered (Unit {0})
verify_expected_digest none actual = ok tt
verify_expected_digest (some expected) actual = do
  err_if (not (lowercase_digest expected))
      (invalid_input "expected_before_snapshot_digest must be lowercase SHA-256 hex")
  err_if (not (str_eq expected actual)) (before_snapshot_digest_mismatch expected actual)

-- A `for` loop whose body returns early with an error.
abbrev pub each {ℓ} : {A : Type ℓ} → (A → Recovered (Unit {0})) → List A → Recovered (Unit {0})
each body [] = ok tt
each body (x ∷ xs) = body x >> each body xs

-- `index as i32 + 1`, as its bit pattern
abbrev pub number_of : ℕ → I32
number_of index = (index + 1) % 4294967296

-- `number < 1` is false
abbrev pub is_positive : I32 → Bool
is_positive number = leb 1 number && ltb number 2147483648

-- The negation of the condition under which the visit is refused.
abbrev pub stays_inside : InstanceRow → VisitFact → Bool
stays_inside i v =
    (v.workflow_instance_id == i.workflow_instance_id)
    && ((v.definition_version_id == i.definition_version_id) && is_positive v.visit_number)

abbrev pub enters : InstanceRow → VisitFact → Uuid → TransitionFact → Bool
enters i v id t =
    (t.transition_id == id)
    && ((t.definition_version_id == i.definition_version_id) && (t.target_node_id == v.node_id))

abbrev pub is_entered : InstanceRow → List TransitionFact → VisitFact → Option Uuid → Bool
is_entered i transitions v none = true
is_entered i transitions v (some id) = any (enters i v id) transitions

unfoldable pub validate_visit : InstanceRow → List TransitionFact → VisitFact → Recovered (Unit {0})
validate_visit i transitions v = do
  err_if (not (stays_inside i v)) (invalid_immutable_facts "node visit escapes instance definition")
  err_if (not (str_eq v.node_type "TERMINAL" || is_some v.assignee_principal_id))
      (invalid_immutable_facts "non-terminal node visit has no assignee")
  err_if (not (is_entered i transitions v v.entered_by_transition_id))
      (invalid_immutable_facts "node visit entered transition relationship is invalid")

unfoldable pub validate_visits :
    InstanceRow → List VisitFact → List TransitionFact → Recovered (Unit {0})
validate_visits i facts transitions = do
  err_if (is_empty facts) (invalid_immutable_facts "node visit fact set is empty")
  each (validate_visit i transitions) facts

module _ (P : Platform) where
  open P use {Value}

  -- The stored digest of a payload is the digest that is computed now.
  unfoldable pub validate_digest : Value → String → String → Recovered (Unit {0})
  validate_digest payload digest detail = do
    actual ← recovery_digest P payload
    err_if (not (str_eq actual digest)) (invalid_immutable_facts detail)

  -- The negation of the condition under which the fact at this index is refused, where `before` is
  -- the identifier of the fact at the index before, if there is one.
  abbrev pub is_linked : InstanceRow → ℕ → Option Uuid → ContextFact Value → Bool
  is_linked i index before fact =
      (fact.workflow_instance_id == i.workflow_instance_id)
      && ((fact.revision_number == number_of index)
          && (not ((index == 0) && is_some fact.previous_revision_id)
              && not (ltb 0 index && not (option_eq fact.previous_revision_id before))))

  unfoldable pub validate_context :
      InstanceRow → ℕ → Option Uuid → ContextFact Value → Recovered (Unit {0})
  validate_context i index before fact = do
    err_if (not (is_linked i index before fact))
        (invalid_immutable_facts "context revision chain is not contiguous")
    validate_digest fact.payload fact.payload_digest "context payload digest mismatch"

  -- The loop, from the fact at this index.
  abbrev pub contexts_from :
      InstanceRow → ℕ → Option Uuid → List (ContextFact Value) → Recovered (Unit {0})
  contexts_from i index before [] = ok tt
  contexts_from i index before (fact ∷ rest) = do
    validate_context i index before fact
    contexts_from i (suc index) (some fact.context_revision_id) rest

  unfoldable pub validate_contexts : InstanceRow → List (ContextFact Value) → Recovered (Unit {0})
  validate_contexts i facts = do
    err_if (is_empty facts) (invalid_immutable_facts "context fact chain is empty")
    contexts_from i 0 none facts

  abbrev pub submitted_through : List TransitionFact → SubmissionFact Value → Option TransitionFact
  submitted_through transitions fact =
      find? (λ t. t.transition_id == fact.transition_id) transitions

  abbrev pub submitted_at : List VisitFact → SubmissionFact Value → Option VisitFact
  submitted_at visits fact = get (map (λ v. (v.node_visit_id, v)) visits) fact.source_node_visit_id

  abbrev pub is_submitted :
      InstanceRow
      → List Uuid
      → SubmissionFact Value
      → Option VisitFact
      → Option TransitionFact
      → Bool
  is_submitted i context_ids fact source transition =
      (fact.workflow_instance_id == i.workflow_instance_id)
      && (contains context_ids fact.context_revision_id
          && (option_eq (option_map (λ t. t.definition_version_id) transition)
                (some i.definition_version_id)
              && option_eq (option_map (λ v. v.node_id) source)
                  (option_map (λ t. t.source_node_id) transition)))

  unfoldable pub validate_submission :
      InstanceRow
      → List (ContextFact Value)
      → List VisitFact
      → List TransitionFact
      → SubmissionFact Value
      → Recovered (Unit {0})
  validate_submission i contexts visits transitions fact = do
    err_if
        (not (
          is_submitted i (map (λ c. c.context_revision_id) contexts) fact (submitted_at visits fact)
            (submitted_through transitions fact)))
        (invalid_immutable_facts "submission relationship is invalid")
    validate_digest fact.payload fact.payload_digest "submission payload digest mismatch"

  unfoldable pub validate_submissions :
      InstanceRow
      → List (ContextFact Value)
      → List VisitFact
      → List (SubmissionFact Value)
      → List TransitionFact
      → Recovered (Unit {0})
  validate_submissions i contexts visits facts transitions =
      each (validate_submission i contexts visits transitions) facts
