-- ===== src/Replay/Snapshot/Related.antt =====
-- What the facts of an instance are to one another when the checks of snapshot.rs pass.
use svc_workflow_kernel.Prelude.{
  ◌≤◌, ◌<◌, ◌≡◌, ◌↔◌, ◌⊎◌, inl, inr, refl, subst, Option, none, some, Bool, true, ◌&&◌, ◌||◌,
  String, str_eq, str_eq_iff, List, [], ◌∷◌, is_some, is_empty, length, All, Option-cases,
  Bool-cases, arith, Has, any-Has,
}
use svc_workflow_kernel.Prelude.Result.{
  Result, ok, err_if, ◌>>◌, guard_iff, last_guard_iff, step_iff,
}
use svc_workflow_kernel.Definition.Model.{Uuid}
use svc_workflow_kernel.Replay.Facts.{InstanceRow, VisitFact, TransitionFact, Recovered}
use svc_workflow_kernel.Replay.Snapshot.{
  each, stays_inside, enters, is_entered, validate_visit, validate_visits,
}

-- The transition, of the instance's version, leads to the node of the visit.
abbrev pub Enters : InstanceRow → VisitFact → Uuid → TransitionFact → Type 0
Enters i v id t =
    (t.transition_id ≡ id)
    × (t.definition_version_id ≡ i.definition_version_id)
    × (t.target_node_id ≡ v.node_id)

abbrev pub VisitIsRelated : InstanceRow → List TransitionFact → VisitFact → Type 0
VisitIsRelated i transitions v =
    (v.workflow_instance_id ≡ i.workflow_instance_id)
    × (v.definition_version_id ≡ i.definition_version_id)
    × (1 ≤ v.visit_number)
    × (v.visit_number < 2147483648)
    × ((v.node_type ≡ "TERMINAL") ⊎ ((p : Uuid) × (v.assignee_principal_id ≡ some p)))
    × ((id : Uuid) → v.entered_by_transition_id ≡ some id → Has (Enters i v id) transitions)

&&_iff : (a b : Bool) → ((a && b) ≡ true) ↔ ((a ≡ true) × (b ≡ true))
&&_iff a b = ground arith

pub some_list_iff {ℓ κ} :
    {E : Type ℓ} {A : Type κ} (xs : List A) (e : E) (rest : Result E (Unit {0}))
    → ((err_if (is_empty xs) e >> rest) ≡ ok tt) ↔ ((1 ≤ length xs) × (rest ≡ ok tt))
some_list_iff [] e rest = (λ h. cc, λ h. ground (arith, h.0))
some_list_iff (x ∷ xs) e rest = (λ h. (omega arith, h), λ h. h.1)

pub each-All {ℓ κ} :
    {A : Type ℓ} (body : A → Recovered (Unit {0})) (Q : A → Type κ)
    → ((x : A) → (body x ≡ ok tt) ↔ Q x)
    → (xs : List A) → (each body xs ≡ ok tt) ↔ All Q xs
each-All body Q holds [] = (λ h. tt, λ h. refl)
each-All body Q holds (x ∷ xs) =
    let both = step_iff (body x) (each body xs) in
    let rest = each-All body Q holds xs in
    (
      λ h. ((holds x).0 (both.0 h).0, rest.0 (both.0 h).1),
      λ h. both.1 ((holds x).1 h.0, rest.1 h.1),
    )

stays_inside_iff :
    (i : InstanceRow) (v : VisitFact)
    → (stays_inside i v ≡ true) ↔ (
        (v.workflow_instance_id ≡ i.workflow_instance_id)
        × (v.definition_version_id ≡ i.definition_version_id)
        × (1 ≤ v.visit_number)
        × (v.visit_number < 2147483648))
stays_inside_iff i v = ground arith

Enters-iff :
    (i : InstanceRow) (v : VisitFact) (id : Uuid) (t : TransitionFact)
    → (enters i v id t ≡ true) ↔ Enters i v id t
Enters-iff i v id t = ground arith

assigned_iff :
    (kind : String) (assignee : Option Uuid)
    → ((str_eq kind "TERMINAL" || is_some assignee) ≡ true)
      ↔ ((kind ≡ "TERMINAL") ⊎ ((p : Uuid) × (assignee ≡ some p)))
assigned_iff kind assignee = (there, back)
  where
    there :
        (str_eq kind "TERMINAL" || is_some assignee) ≡ true
        → (kind ≡ "TERMINAL") ⊎ ((p : Uuid) × (assignee ≡ some p))
    there h = elim (Bool-cases (str_eq kind "TERMINAL")) [
      | inl e ↦ inl ((str_eq_iff kind "TERMINAL").0 e)
      | inr e ↦ elim (Option-cases assignee) [
        | inl n ↦ cc (rw (e, n, is_some) at h)
        | inr s ↦ inr s
      ]
    ]

    back :
        (kind ≡ "TERMINAL") ⊎ ((p : Uuid) × (assignee ≡ some p))
        → (str_eq kind "TERMINAL" || is_some assignee) ≡ true
    back (inl e) = rw ((str_eq_iff kind "TERMINAL").1 e) refl
    back (inr s) = rw (s.1, is_some) (ground arith)

is_entered_iff :
    (i : InstanceRow) (transitions : List TransitionFact) (v : VisitFact) (entered : Option Uuid)
    → (is_entered i transitions v entered ≡ true)
      ↔ ((id : Uuid) → entered ≡ some id → Has (Enters i v id) transitions)
is_entered_iff i transitions v none = (λ h id e. cc, λ h. refl)
is_entered_iff i transitions v (some entered) =
    let found =
      any-Has (enters i v entered) (Enters i v entered) (Enters-iff i v entered) transitions in
    (
      λ h id e. subst (λ x. Has (Enters i v x) transitions) (cc) (found.0 h),
      λ h. found.1 (h entered refl),
    )

validate_visit_iff :
    (i : InstanceRow) (transitions : List TransitionFact) (v : VisitFact)
    → (validate_visit i transitions v ≡ ok tt) ↔ VisitIsRelated i transitions v
unfolding validate_visit
validate_visit_iff i transitions v =
    let inside = stays_inside_iff i v in
    let assigned = assigned_iff v.node_type v.assignee_principal_id in
    let entered = is_entered_iff i transitions v v.entered_by_transition_id in
    let last = last_guard_iff (is_entered i transitions v v.entered_by_transition_id) _ in
    let second = guard_iff (str_eq v.node_type "TERMINAL" || is_some v.assignee_principal_id) _ _ in
    let first = guard_iff (stays_inside i v) _ _ in
    (
      λ h.
          let (a, h) = first.0 h in
          let (b, h) = second.0 h in
          let (one, two, three, four) = inside.0 a in
          (one, two, three, four, assigned.0 b, entered.0 (last.0 h)),
      λ h.
          let (one, two, three, four, b, c) = h in
          first.1 (inside.1 (one, two, three, four), second.1 (assigned.1 b, last.1 (entered.1 c))),
    )

-- The visit check accepts the facts exactly when there is one and each is of the instance and of its
-- version, has a positive number, has an assignee unless it is at a terminal node, and was entered
-- by no transition or by one of that version that leads to its node.
pub validate_visits-All :
    (i : InstanceRow) (facts : List VisitFact) (transitions : List TransitionFact)
    → (validate_visits i facts transitions ≡ ok tt)
      ↔ ((1 ≤ length facts) × All (VisitIsRelated i transitions) facts)
unfolding validate_visits
validate_visits-All i facts transitions =
    let some_fact = some_list_iff facts _ (each (validate_visit i transitions) facts) in
    let loop =
      each-All (validate_visit i transitions) (VisitIsRelated i transitions)
        (validate_visit_iff i transitions) facts in
    (λ h. ((some_fact.0 h).0, loop.0 (some_fact.0 h).1), λ h. some_fact.1 (h.0, loop.1 h.1))
