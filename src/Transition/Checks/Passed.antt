-- ===== src/Transition/Checks/Passed.antt =====
-- What each read and each rule of the checks establishes when it passes.
use svc_workflow_kernel.Prelude.{
  ◌<ℤ◌, ◌≡◌, ◌≢◌, some, true, false, ◌&&◌, find?, ◌==◌, ◌⊎◌, inl, inr, Option-cases, arith,
}
use svc_workflow_kernel.Prelude.Result.{ok, ◌>>=◌}
use svc_workflow_kernel.Enums.{
  DefinitionVersionStatus, TransitionEffect, published, deprecated, advance, return, terminate,
  is_terminal,
}
use svc_workflow_kernel.Definition.Model.{Uuid}
use svc_workflow_kernel.Store.{
  PrincipalRow, NodeRow, TransitionRow, InstanceRow, VersionRow, Db, Faults,
}
use svc_workflow_kernel.Transition.Error.{is_deterministic_error}
use svc_workflow_kernel.Transition.Reads.{
  CurrentVisitFullRow, has_node, lock_instance, validate_principal_enabled,
  validate_definition_version_status, read_current_visit, read_source_node, read_transition,
  read_target_node,
}
use svc_workflow_kernel.Transition.Checks.{
  fail_if_some, validation_result, check_primary, check_target,
}

-- The visit and its node, as the join finds them.
abbrev pub FindsVisit : {V : Type 0} → Db V → Uuid → Uuid → CurrentVisitFullRow → Type 0
FindsVisit db instance_id visit_id current =
    (find? (λ v. (v.node_visit_id == visit_id) && (v.workflow_instance_id == instance_id)) db.visits
      ≡ some current.visit)
    × (find? (λ n. n.node_id == current.visit.node_id) db.nodes ≡ some current.node)

abbrev pub IsEnabled : {V : Type 0} → Db V → Uuid → Type 0
IsEnabled db id =
    (p : PrincipalRow) × (find? (λ p. p.principal_id == id) db.principals ≡ some p)
    × (p.enabled ≡ true)

abbrev pub IsRunnable : {V : Type 0} → Db V → Uuid → Type 0
IsRunnable db id =
    (v : VersionRow) × (find? (λ v. v.definition_version_id == id) db.versions ≡ some v)
    × ((v.version_status ≡ published) ⊎ (v.version_status ≡ deprecated))

module _ {V : Type 0} (fault : Faults) where
  -- A check that passes returned a value.
  pub lock_instance-eq-ok :
      (db : Db V) (id : Uuid) {row : InstanceRow}
      → validation_result (lock_instance fault db id) ≡ ok row
      → find? (λ r. r.workflow_instance_id == id) db.instances ≡ some row
  unfolding lock_instance is_deterministic_error
  lock_instance-eq-ok db id h = ground arith

  pub read_current_visit-eq-ok :
      (db : Db V) (instance_id visit_id : Uuid) {current : CurrentVisitFullRow}
      → validation_result (read_current_visit fault db instance_id visit_id) ≡ ok current
      → FindsVisit db instance_id visit_id current
  unfolding read_current_visit is_deterministic_error
  read_current_visit-eq-ok db instance_id visit_id h =
      elim (Option-cases (
        find? (λ v. (v.node_visit_id == visit_id) && (v.workflow_instance_id == instance_id))
          db.visits)) [
            | inl e ↦ ground (arith, e)
            | inr (v, e) ↦ elim (Option-cases (find? (λ n. n.node_id == v.node_id) db.nodes)) [
              | inl d ↦ ground (arith, e, d)
              | inr (n, d) ↦ ground (arith, e, d)
            ]
          ]

  pub principal-eq-ok :
      (db : Db V) (id : Uuid)
      → (validation_result (validate_principal_enabled fault db id) >>= fail_if_some) ≡ ok tt
      → IsEnabled db id
  unfolding validate_principal_enabled is_deterministic_error
  principal-eq-ok db id h = elim (Option-cases (find? (λ p. p.principal_id == id) db.principals)) [
    | inl e ↦ ground (arith, e)
    | inr (p, e) ↦ (p, e, ground (arith, e))
  ]

  pub status-eq-ok :
      (db : Db V) (id : Uuid) {s : DefinitionVersionStatus}
      → validation_result (validate_definition_version_status fault db id) ≡ ok s
      → IsRunnable db id
  unfolding validate_definition_version_status is_deterministic_error
  status-eq-ok db id h =
      elim (Option-cases (find? (λ v. v.definition_version_id == id) db.versions)) [
        | inl e ↦ ground (arith, e)
        | inr (v, e) ↦ (v, e, ground (arith, e))
      ]

  pub read_source_node-eq-ok :
      (db : Db V) (id version : Uuid) {n : NodeRow}
      → validation_result (read_source_node fault db id version) ≡ ok n
      → find? (has_node id version) db.nodes ≡ some n
  unfolding read_source_node is_deterministic_error
  read_source_node-eq-ok db id version h = ground arith

  pub read_target_node-eq-ok :
      (db : Db V) (id version : Uuid) {n : NodeRow}
      → validation_result (read_target_node fault db id version) ≡ ok n
      → find? (has_node id version) db.nodes ≡ some n
  unfolding read_target_node is_deterministic_error
  read_target_node-eq-ok db id version h = ground arith

  pub read_transition-eq-ok :
      (db : Db V) (id version : Uuid) {t : TransitionRow V}
      → validation_result (read_transition fault db id version) ≡ ok t
      → find? (λ t. (t.transition_id == id) && (t.definition_version_id == version)) db.transitions
        ≡ some t
  unfolding read_transition is_deterministic_error
  read_transition-eq-ok db id version h = ground arith

-- The rule of the effect of a transition: ADVANCE is the primary transition of the source; RETURN and
-- TERMINATE are not; RETURN goes to an earlier node that is not TERMINAL, TERMINATE to a TERMINAL one.
abbrev pub EffectRule :
    {V : Type 0} → NodeRow → TransitionRow V → NodeRow → TransitionEffect → Type 0
EffectRule source t target advance = source.primary_advance_transition_id ≡ some t.transition_id
EffectRule source t target return =
    (source.primary_advance_transition_id ≢ some t.transition_id)
    × (is_terminal target.node_type ≡ false)
    × (target.order_index <ℤ source.order_index)
EffectRule source t target terminate =
    (source.primary_advance_transition_id ≢ some t.transition_id)
    × (is_terminal target.node_type ≡ true)

pub effect-eq-ok :
    {V : Type 0} (source target : NodeRow) (t : TransitionRow V) (effect : TransitionEffect)
    → check_primary source t effect ≡ ok tt
    → check_target source target effect ≡ ok tt
    → EffectRule source t target effect
unfolding check_primary check_target
effect-eq-ok source target t advance h k = ground arith
effect-eq-ok source target t return h k = ground arith
effect-eq-ok source target t terminate h k = ground arith
