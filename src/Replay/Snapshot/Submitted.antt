-- ===== src/Replay/Snapshot/Submitted.antt =====
-- The relations of an instance's submissions, where `validate_submissions` of snapshot.rs passes.
use svc_workflow_kernel.Prelude.{
  ◌≡◌, ◌↔◌, refl, Option, none, some, true, ◌&&◌, List, [], ◌∷◌, map, contains, option_eq, ◌==◌,
  All, arith, any, Has, any-Has,
}
use svc_workflow_kernel.Prelude.Result.{ok, guard_iff}
use svc_workflow_kernel.Platform.{Platform}
use svc_workflow_kernel.Definition.Model.{Uuid}
use svc_workflow_kernel.Lifecycle.Digest.{option_map}
use svc_workflow_kernel.Replay.Facts.{
  InstanceRow, ContextFact, VisitFact, SubmissionFact, TransitionFact,
}
use svc_workflow_kernel.Replay.Snapshot.{
  submitted_through, submitted_at, is_submitted, validate_submission, validate_submissions,
}
use svc_workflow_kernel.Replay.Snapshot.Related.{each-All}
use svc_workflow_kernel.Replay.Snapshot.Chained.{validate_digest_iff}

contains-any :
    (A : Type 0) (id_of : A → Uuid) (xs : List A) (id : Uuid)
    → contains (map id_of xs) id ≡ any (λ x. id_of x == id) xs
contains-any A id_of [] id = refl
contains-any A id_of (x ∷ xs) id = rw (contains-any A id_of xs id) refl

contains-Has :
    {A : Type 0} (id_of : A → Uuid) (xs : List A) (id : Uuid)
    → (contains (map id_of xs) id ≡ true) ↔ Has (λ x. id_of x ≡ id) xs
contains-Has {A} id_of xs id =
    rw (contains-any A id_of xs id)
      (any-Has (λ x. id_of x == id) (λ x. id_of x ≡ id) (λ x. ground arith) xs)

-- The transition is one of this version, and the visit is at its source node.
abbrev pub Leaves : InstanceRow → Option VisitFact → Option TransitionFact → Type 0
Leaves i source transition =
    (v : VisitFact) × (t : TransitionFact) × (source ≡ some v)
    × (transition ≡ some t)
    × (t.definition_version_id ≡ i.definition_version_id)
    × (v.node_id ≡ t.source_node_id)

Leaves-iff :
    (i : InstanceRow) (source : Option VisitFact) (transition : Option TransitionFact)
    → ((option_eq
            (option_map (λ t. t.definition_version_id) transition)
            (some i.definition_version_id)
          && option_eq
              (option_map (λ v. v.node_id) source)
              (option_map (λ t. t.source_node_id) transition))
        ≡ true)
      ↔ Leaves i source transition
Leaves-iff i source none = (λ h. cc, λ h. let (v, t, at, through, version, node) = h in cc)
Leaves-iff i none (some t) =
    (λ h. ground (arith, h), λ h. let (v, u, at, through, version, node) = h in cc)
Leaves-iff i (some v) (some t) = (there, back)
  where
    there :
        ((t.definition_version_id == i.definition_version_id) && (v.node_id == t.source_node_id))
          ≡ true
        → Leaves i (some v) (some t)
    there h = (v, t, refl, refl, ground arith, ground arith)

    back :
        Leaves i (some v) (some t)
        → ((t.definition_version_id == i.definition_version_id) && (v.node_id == t.source_node_id))
          ≡ true
    back h =
        let (w, u, at, through, version, node) = h in
        let same_version : t.definition_version_id ≡ i.definition_version_id = cc in
        let same_node : v.node_id ≡ t.source_node_id = cc in ground arith

module _ (P : Platform) where
  open P use {Value}

  -- The submission belongs to the instance and to one of its contexts, was made at a visit through a
  -- transition of the instance's version that leaves the visit's node, and has the digest of its
  -- payload.
  abbrev pub SubmissionIsRelated :
      InstanceRow
      → List (ContextFact Value)
      → List VisitFact
      → List TransitionFact
      → SubmissionFact Value
      → Type 0
  SubmissionIsRelated i contexts visits transitions f =
      (f.workflow_instance_id ≡ i.workflow_instance_id)
      × Has (λ c. c.context_revision_id ≡ f.context_revision_id) contexts
      × Leaves i (submitted_at P visits f) (submitted_through P transitions f)
      × (P.sha256_jcs_hex f.payload ≡ ok f.payload_digest)

  is_submitted_iff :
      (i : InstanceRow) (contexts : List (ContextFact Value)) (f : SubmissionFact Value)
      (source : Option VisitFact) (transition : Option TransitionFact)
      → (is_submitted P i (map (λ c. c.context_revision_id) contexts) f source transition ≡ true)
        ↔ ((f.workflow_instance_id ≡ i.workflow_instance_id)
            × Has (λ c. c.context_revision_id ≡ f.context_revision_id) contexts
            × Leaves i source transition)
  is_submitted_iff i contexts f source transition =
      let held = contains-Has (λ c. c.context_revision_id) contexts f.context_revision_id in
      let leaves = Leaves-iff i source transition in
      (
        λ h. (ground arith, held.0 (ground arith), leaves.0 (ground arith)),
        λ h.
            let (same, has, leaving) = h in
            let a = held.1 has in let b = leaves.1 leaving in ground arith,
      )

  validate_submission_iff :
      (i : InstanceRow) (contexts : List (ContextFact Value)) (visits : List VisitFact)
      (transitions : List TransitionFact) (f : SubmissionFact Value)
      → (validate_submission P i contexts visits transitions f ≡ ok tt)
        ↔ SubmissionIsRelated i contexts visits transitions f
  unfolding validate_submission
  validate_submission_iff i contexts visits transitions f =
      let source = submitted_at P visits f in
      let transition = submitted_through P transitions f in
      let submitted = is_submitted_iff i contexts f source transition in
      let digest = validate_digest_iff P f.payload f.payload_digest _ in
      let guard =
        guard_iff (is_submitted P i (map (λ c. c.context_revision_id) contexts) f source transition)
          _ _ in
      (
        λ h.
            let (a, h) = guard.0 h in
            let (one, two, three) = submitted.0 a in (one, two, three, digest.0 h),
        λ h.
            let (one, two, three, four) = h in
            guard.1 (submitted.1 (one, two, three), digest.1 four),
      )

  -- The submission check accepts the facts exactly when each belongs to the instance and to one of
  -- the contexts, its visit is found and is at the source node of its transition, which is found and
  -- is of the instance's version, and it has the digest of its payload.
  pub validate_submissions-All :
      (i : InstanceRow) (contexts : List (ContextFact Value)) (visits : List VisitFact)
      (facts : List (SubmissionFact Value)) (transitions : List TransitionFact)
      → (validate_submissions P i contexts visits facts transitions ≡ ok tt)
        ↔ All (SubmissionIsRelated i contexts visits transitions) facts
  unfolding validate_submissions
  validate_submissions-All i contexts visits facts transitions =
      each-All (validate_submission P i contexts visits transitions)
        (SubmissionIsRelated i contexts visits transitions)
        (validate_submission_iff i contexts visits transitions) facts
