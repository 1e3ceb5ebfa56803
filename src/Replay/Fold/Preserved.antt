-- ===== src/Replay/Fold/Preserved.antt =====
-- What every handler of an event preserves, the replay preserves.
use svc_workflow_kernel.Prelude.{
  ℕ, suc, ◌≡◌, refl, sym, subst, ap, ◌∙◌, Option, none, some, true, false, not, List, [], ◌∷◌, ◌++◌,
  get, contains, str_eq, ◌==◌, ==_self, ==_iff,
}
use svc_workflow_kernel.Prelude.Result.{
  ok, ok_or, err_if, question-ok, ok_inj, and_then, err_if-false, passes-true, ok_or-some,
}
use svc_workflow_kernel.Platform.{Platform}
use svc_workflow_kernel.Definition.Model.{Uuid}
use svc_workflow_kernel.Store.{I32}
use svc_workflow_kernel.Replay.Facts.{
  ContextFact, VisitFact, SubmissionFact, TransitionFact, EventFact,
}
use svc_workflow_kernel.Replay.Fields.{uuid_field, string_field, event_data}
use svc_workflow_kernel.Replay.State.{
  Replay, visit, context, checked_next, visit_count, introduce_visit, introduce_context,
  introduce_submission, validate_node_columns,
}
use svc_workflow_kernel.Replay.Apply.{
  check_origin, initial_shape, revision_matches, combined_matches, transition_matches,
  apply_initial, apply_context_revision, transition_and_visits, apply_submission,
  submission_matches, omits_submission, transition_shape, combined_submission, apply_transition,
  apply_combined,
}
use svc_workflow_kernel.Replay.Fold.{
  Kind, initial, revision, transition, combined, admin, unsupported, kind_of, apply_admin,
  expected_effect, snapshot_digest, before_snapshot, projection_of, apply_kind, apply, sequence_of,
  replay_from, admin_matches, is_contiguous,
}

-- A property of the state that introducing a fact and naming an introduced fact as the current one
-- keep.
pub record IsPreserved {V : Type 0} (Q : Replay V → Type 0) : Type 0 where
  pub by_context :
      (r : Replay V) (c : ContextFact V) (next : Replay V)
      → introduce_context r c ≡ ok next
      → Q r
      → Q next
  pub by_submission :
      (r : Replay V) (s : SubmissionFact V) (next : Replay V)
      → introduce_submission r s ≡ ok next
      → Q r
      → Q next
  pub by_visit :
      (r : Replay V) (id : Option Uuid) (v : VisitFact) (next : Replay V)
      → visit r id ≡ ok v
      → introduce_visit r v ≡ ok next
      → Q r
      → Q next
  pub set_context :
      (r : Replay V) (id : Uuid)
      → contains r.introduced_contexts id ≡ true
      → Q r
      → Q (record r { current_context = some id })
  pub set_visit :
      (r : Replay V) (id : Uuid)
      → contains r.introduced_visits id ≡ true
      → Q r
      → Q (record r { current_visit = some id })
  pub set_version : (r : Replay V) (n : I32) → Q r → Q (record r { version = n })

module _ {V : Type 0} where
  -- What an introduction leaves in the state.
  pub introduce_context-ok :
      (r : Replay V) (c : ContextFact V) {next : Replay V}
      → introduce_context r c ≡ ok next
      → (contains r.introduced_contexts c.context_revision_id ≡ false)
        × (next ≡ record r { introduced_contexts = c.context_revision_id ∷ r.introduced_contexts })
  unfolding introduce_context
  introduce_context-ok r c h =
      let seen = contains r.introduced_contexts c.context_revision_id in
      let (_, fresh, h) = question-ok (err_if seen _) _ h in
      (err_if-false seen _ fresh, sym (ok_inj h))

  pub introduce_submission-ok :
      (r : Replay V) (s : SubmissionFact V) {next : Replay V}
      → introduce_submission r s ≡ ok next
      → (contains r.introduced_submissions s.submission_id ≡ false)
        × (next ≡ record r { introduced_submissions = s.submission_id ∷ r.introduced_submissions })
  unfolding introduce_submission
  introduce_submission-ok r s h =
      let seen = contains r.introduced_submissions s.submission_id in
      let (_, fresh, h) = question-ok (err_if seen _) _ h in
      (err_if-false seen _ fresh, sym (ok_inj h))

  pub introduce_visit-ok :
      (r : Replay V) (v : VisitFact) {next : Replay V}
      → introduce_visit r v ≡ ok next
      → (contains r.introduced_visits v.node_visit_id ≡ false)
        × (checked_next (visit_count r v.node_id) ≡ some v.visit_number)
        × (next ≡ record r {
          introduced_visits = v.node_visit_id ∷ r.introduced_visits;
          visit_counts = r.visit_counts ++ ((v.node_id, v.visit_number) ∷ []);
        })
  unfolding introduce_visit
  introduce_visit-ok r v h =
      let seen = contains r.introduced_visits v.node_visit_id in
      let (_, fresh, h) = question-ok (err_if seen _) _ h in
      let (next, counted, h) = question-ok (ok_or (checked_next (visit_count r v.node_id)) _) _ h in
      let (_, numbered, h) = question-ok (err_if (not (v.visit_number == next)) _) _ h in
      let same : v.visit_number ≡ next =
        (==_iff v.visit_number next).0 (passes-true (v.visit_number == next) _ numbered) in
      (
        err_if-false seen _ fresh,
        ok_or-some (checked_next (visit_count r v.node_id)) _ counted ∙ ap some (sym same),
        sym (ok_inj h)
            ∙ ap
                (λ n. record r {
                  introduced_visits = v.node_visit_id ∷ r.introduced_visits;
                  visit_counts = r.visit_counts ++ ((v.node_id, n) ∷ []);
                })
                (sym same),
      )

module _ (P : Platform) (Q : Replay P.Value → Type 0) (keeps : IsPreserved Q) where
  open P use {Value}

  head-contains : (id : Uuid) (ids : List Uuid) → contains (id ∷ ids) id ≡ true
  head-contains id ids = rw (==_self id) refl

  context-contains :
      (r : Replay Value) (c : ContextFact Value) {next : Replay Value}
      → introduce_context r c ≡ ok next
      → contains next.introduced_contexts c.context_revision_id ≡ true
  context-contains r c h =
      let (_, made) = introduce_context-ok r c h in
      rw made (head-contains c.context_revision_id r.introduced_contexts)

  visit-contains :
      (r : Replay Value) (v : VisitFact) {next : Replay Value}
      → introduce_visit r v ≡ ok next
      → contains next.introduced_visits v.node_visit_id ≡ true
  visit-contains r v h =
      let (_, _, made) = introduce_visit-ok r v h in
      rw made (head-contains v.node_visit_id r.introduced_visits)

  -- A context that is introduced and made the current one.
  enter_context :
      (r : Replay Value) (c : ContextFact Value) (next : Replay Value)
      → introduce_context r c ≡ ok next
      → Q r
      → Q (record next { current_context = some c.context_revision_id })
  enter_context r c next h q =
      keeps.set_context next c.context_revision_id (context-contains r c h)
        (keeps.by_context r c next h q)

  -- A visit that is introduced and made the current one.
  enter_visit :
      (r : Replay Value) (id : Option Uuid) (v : VisitFact) (next : Replay Value)
      → visit r id ≡ ok v
      → introduce_visit r v ≡ ok next
      → Q r
      → Q (record next { current_visit = some v.node_visit_id })
  enter_visit r id v next found h q =
      keeps.set_visit next v.node_visit_id (visit-contains r v h)
        (keeps.by_visit r id v next found h q)

  -- A visit that is introduced after a context and made current with it.
  enter_both :
      (r : Replay Value) (id : Option Uuid) (v : VisitFact) (c : Uuid) (next : Replay Value)
      → visit r id ≡ ok v
      → introduce_visit r v ≡ ok next
      → contains r.introduced_contexts c ≡ true
      → Q r
      → Q (record next { current_context = some c; current_visit = some v.node_visit_id })
  enter_both r id v c next found h there q =
      let (_, _, made) = introduce_visit-ok r v h in
      keeps.set_visit (record next { current_context = some c }) v.node_visit_id
        (visit-contains r v h)
        (keeps.set_context next c (rw made there) (keeps.by_visit r id v next found h q))

  apply_initial-keeps :
      (r : Replay Value) (event : EventFact Value) {next : Replay Value}
      → apply_initial P r event ≡ ok next
      → Q r
      → Q next
  unfolding apply_initial
  apply_initial-keeps r event h q =
      let imported = str_eq event.event_type "WORKFLOW_INSTANCE_IMPORTED" in
      let (body, _, h) = question-ok (event_data P event) _ h in
      let (c, _, h) = question-ok (context r event.context_revision_id) _ h in
      let (v, found, h) = question-ok (visit r event.target_node_visit_id) _ h in
      let (_, _, h) =
        question-ok (err_if (not (initial_shape P r event body imported c v)) _) _ h in
      let (_, _, h) = question-ok (check_origin P r event body imported c v) _ h in
      let (with_context, introduced, h) = question-ok (introduce_context r c) _ h in
      let (with_visit, entered, h) = question-ok (introduce_visit with_context v) _ h in
      let (_, made) = introduce_context-ok r c introduced in
      subst Q (ok_inj h) (
        enter_both with_context event.target_node_visit_id v c.context_revision_id with_visit
          (rw made found) entered (context-contains r c introduced)
          (keeps.by_context r c with_context introduced q))

  apply_context_revision-keeps :
      (r : Replay Value) (event : EventFact Value) {next : Replay Value}
      → apply_context_revision P r event ≡ ok next
      → Q r
      → Q next
  unfolding apply_context_revision
  apply_context_revision-keeps r event h q =
      let (body, _, h) = question-ok (event_data P event) _ h in
      let (c, _, h) = question-ok (context r event.context_revision_id) _ h in
      let (v, _, h) = question-ok (visit r event.source_node_visit_id) _ h in
      let (previous, _, h) = question-ok (context r r.current_context) _ h in
      let (_, _, h) =
        question-ok (err_if (not (revision_matches P r event body previous c v)) _) _ h in
      let (with_context, introduced, h) = question-ok (introduce_context r c) _ h in
      subst Q (ok_inj h) (enter_context r c with_context introduced q)

  transition_and_visits-target :
      (r : Replay Value) (event : EventFact Value) (body : Value)
      {found : VisitFact × VisitFact × TransitionFact}
      → transition_and_visits P r event body ≡ ok found
      → visit r event.target_node_visit_id ≡ ok found.1
  unfolding transition_and_visits
  transition_and_visits-target r event body {found} h =
      let (source, _, h) = question-ok (visit r event.source_node_visit_id) _ h in
      let (target, found_target, h) = question-ok (visit r event.target_node_visit_id) _ h in
      let (id, _, h) = question-ok (ok_or (uuid_field P body "transition_definition_id") _) _ h in
      let (t, _, h) = question-ok (ok_or (get r.transitions id) _) _ h in
      let (_, _, h) =
        question-ok (err_if (not (transition_matches P r event body source target t)) _) _ h in
      let (_, _, h) = question-ok (validate_node_columns event (some source) (some target)) _ h in
      found_target ∙ ap (λ (f : VisitFact × VisitFact × TransitionFact). ok (f.1)) (ok_inj h)

  -- A submission leaves the visits and the contexts as they are.
  abbrev SameVisits : Replay Value → Replay Value → Type 0
  SameVisits r next = (next.visits ≡ r.visits) × (next.introduced_contexts ≡ r.introduced_contexts)

  introduce_submission-keeps :
      (r : Replay Value) (s : SubmissionFact Value) {next : Replay Value}
      → introduce_submission r s ≡ ok next
      → Q r
      → Q next × SameVisits r next
  introduce_submission-keeps r s {next} h q =
      let (_, made) = introduce_submission-ok r s h in
      (
        keeps.by_submission r s next h q,
        (
          ap (λ (x : Replay Value). x.visits) made,
          ap (λ (x : Replay Value). x.introduced_contexts) made,
        ),
      )

  apply_submission-keeps :
      (r : Replay Value) (event : EventFact Value) (body : Value) (t : TransitionFact)
      (id : Option Uuid) {next : Replay Value}
      → apply_submission P r event body t id ≡ ok next
      → Q r
      → Q next × SameVisits r next
  unfolding apply_submission
  apply_submission-keeps r event body t (some id) h q =
      let (s, _, h) = question-ok (ok_or (get r.submissions id) _) _ h in
      let (_, _, h) = question-ok (err_if (not (submission_matches P r event body t s)) _) _ h in
      introduce_submission-keeps r s h q
  apply_submission-keeps r event body t none h q =
      let (_, _, h) = question-ok (err_if (not (omits_submission P body)) _) _ h in
      (
        subst Q (ok_inj h) q,
        (
          sym (ap (λ (x : Replay Value). x.visits) (ok_inj h)),
          sym (ap (λ (x : Replay Value). x.introduced_contexts) (ok_inj h)),
        ),
      )

  apply_transition-keeps :
      (r : Replay Value) (event : EventFact Value) {next : Replay Value}
      → apply_transition P r event ≡ ok next
      → Q r
      → Q next
  unfolding apply_transition
  apply_transition-keeps r event h q =
      let (body, _, h) = question-ok (event_data P event) _ h in
      let (_, _, h) = question-ok (err_if (not (transition_shape P r event body)) _) _ h in
      let (found, matched, h) = question-ok (transition_and_visits P r event body) _ h in
      let (with_submission, submitted, h) =
        question-ok (apply_submission P r event body found.2 event.submission_id) _ h in
      let (with_visit, entered, h) = question-ok (introduce_visit with_submission found.1) _ h in
      let (kept, (same, _)) =
        apply_submission-keeps r event body found.2 event.submission_id submitted q in
      subst Q (ok_inj h) (
        enter_visit with_submission event.target_node_visit_id found.1 with_visit
          (rw same (transition_and_visits-target r event body matched)) entered kept)

  apply_combined-keeps :
      (r : Replay Value) (event : EventFact Value) {next : Replay Value}
      → apply_combined P r event ≡ ok next
      → Q r
      → Q next
  unfolding apply_combined
  apply_combined-keeps r event h q =
      let (body, _, h) = question-ok (event_data P event) _ h in
      let (previous, _, h) = question-ok (context r r.current_context) _ h in
      let (c, _, h) = question-ok (context r event.context_revision_id) _ h in
      let (_, _, h) =
        question-ok (err_if (not (combined_matches P r event body previous c)) _) _ h in
      let (found, matched, h) = question-ok (transition_and_visits P r event body) _ h in
      let (s, _, h) =
        question-ok (ok_or (and_then event.submission_id (get r.submissions)) _) _ h in
      let (_, _, h) =
        question-ok (err_if (not (combined_submission P event body c found.2 s)) _) _ h in
      let (with_context, introduced, h) = question-ok (introduce_context r c) _ h in
      let (with_submission, submitted, h) = question-ok (introduce_submission with_context s) _ h in
      let (with_visit, entered, h) = question-ok (introduce_visit with_submission found.1) _ h in
      let (_, made) = introduce_context-ok r c introduced in
      let (kept, (visits, contexts)) =
        introduce_submission-keeps with_context s submitted
          (keeps.by_context r c with_context introduced q) in
      let same : with_submission.visits ≡ r.visits =
        visits ∙ ap (λ (x : Replay Value). x.visits) made in
      subst Q (ok_inj h) (
        enter_both with_submission event.target_node_visit_id found.1 c.context_revision_id
          with_visit (rw same (transition_and_visits-target r event body matched)) entered
          (rw contexts (context-contains r c introduced)) kept)

  apply_admin-keeps :
      (r : Replay Value) (event : EventFact Value) {next : Replay Value}
      → apply_admin P r event ≡ ok next
      → Q r
      → Q next
  unfolding apply_admin
  apply_admin-keeps r event h q =
      let (body, _, h) = question-ok (event_data P event) _ h in
      let (source, _, h) = question-ok (visit r event.source_node_visit_id) _ h in
      let (target, found, h) = question-ok (visit r event.target_node_visit_id) _ h in
      let (effect, _, h) =
        question-ok (expected_effect P (string_field P body "operation") target) _ h in
      let (before, _, h) =
        question-ok (snapshot_digest P (before_snapshot P r.instance_row (projection_of P r))) _
          h in
      let (_, _, h) =
        question-ok (err_if (not (admin_matches P r event body target effect before)) _) _ h in
      let (_, _, h) = question-ok (validate_node_columns event (some source) (some target)) _ h in
      let (with_visit, entered, h) = question-ok (introduce_visit r target) _ h in
      subst Q (ok_inj h)
        (enter_visit r event.target_node_visit_id target with_visit found entered q)

  pub apply_kind-keeps :
      (r : Replay Value) (event : EventFact Value) (kind : Kind) {next : Replay Value}
      → apply_kind P r event kind ≡ ok next
      → Q r
      → Q next
  apply_kind-keeps r event initial h q = apply_initial-keeps r event h q
  apply_kind-keeps r event revision h q = apply_context_revision-keeps r event h q
  apply_kind-keeps r event transition h q = apply_transition-keeps r event h q
  apply_kind-keeps r event combined h q = apply_combined-keeps r event h q
  apply_kind-keeps r event admin h q = apply_admin-keeps r event h q
  apply_kind-keeps r event unsupported h q = cc

  apply-keeps :
      (r : Replay Value) (event : EventFact Value) (expected : I32) {next : Replay Value}
      → apply P r event expected ≡ ok next
      → Q r
      → Q next
  unfolding apply
  apply-keeps r event expected h q =
      let (_, _, h) = question-ok (err_if (not (is_contiguous P r event expected)) _) _ h in
      let (applied, done, h) = question-ok (apply_kind P r event (kind_of event.event_type)) _ h in
      subst Q (ok_inj h) (
        keeps.set_version applied expected
          (apply_kind-keeps r event (kind_of event.event_type) done q))

  pub replay_from-keeps :
      (r : Replay Value) (index : ℕ) (events : List (EventFact Value)) {last : Replay Value}
      → replay_from P r index events ≡ ok last
      → Q r
      → Q last
  unfolding replay_from
  replay_from-keeps r index [] h q = subst Q (ok_inj h) q
  replay_from-keeps r index (event ∷ rest) h q =
      let (expected, _, h) = question-ok (ok_or (sequence_of P index) _) _ h in
      let (next, applied, h) = question-ok (apply P r event expected) _ h in
      replay_from-keeps next (suc index) rest h (apply-keeps r event expected applied q)
