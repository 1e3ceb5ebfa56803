-- ===== src/Transition/Reads.antt =====
-- The reads of transition_validation.rs. Columns of an enum type are given as the enum; the text
-- matches of the source have no other case.
use svc_workflow_kernel.Prelude.{
  Option, none, some, Bool, ◌&&◌, String, find?, str_eq, ◌==◌, if◌then◌else◌,
}
use svc_workflow_kernel.Prelude.Result.{Result, ok, err, ok_or, ◌>>=◌}
use svc_workflow_kernel.Enums.{
  DefinitionVersionStatus, AssigneeRefType, revoked, workflow_creator, domain_owner,
  fixed_principal, is_terminal,
}
use svc_workflow_kernel.Definition.Model.{Uuid}
use svc_workflow_kernel.Store.{
  PrincipalRow, RoleBindingRow, NodeRow, TransitionRow, InstanceRow, VisitRow, Db, Faults,
  Statement, attempt, instance_lock, visit_select, principal_select, version_lock, source_select,
  transition_select, target_select, owner_binding_select, owner_select, fixed_principal_select,
}
use svc_workflow_kernel.Transition.Error.{
  ExecuteWorkflowTransitionError, principal_not_found, principal_disabled, instance_not_found,
  current_visit_not_found, definition_version_revoked, definition_version_draft,
  transition_not_applicable, assignee_resolution_failed, internal_consistency, storage_error,
}

abbrev pub CheckResult : Type 0 → Type 0
CheckResult = Result ExecuteWorkflowTransitionError

-- `fetch_optional(…).await.map_err(|e| StorageError(e.to_string()))?`
abbrev pub fetch : {A : Type 0} → Faults → Statement → A → CheckResult A
fetch fault s a = attempt fault storage_error s a

-- A current visit joined with its node definition.
pub record CurrentVisitFullRow : Type 0 where
  pub visit : VisitRow
  pub node : NodeRow

abbrev pub has_node : Uuid → Uuid → NodeRow → Bool
has_node node_id version_id n = (n.node_id == node_id) && (n.definition_version_id == version_id)

-- `Some(err)` is `Ok(Some(err))` of the source: the caller raises it.
abbrev pub principal_problem : Option PrincipalRow → Option ExecuteWorkflowTransitionError
principal_problem none = some principal_not_found
principal_problem (some p) = if p.enabled then none else some principal_disabled

abbrev pub status_allows : DefinitionVersionStatus → CheckResult DefinitionVersionStatus
status_allows revoked = err definition_version_revoked
status_allows DefinitionVersionStatus.draft = err definition_version_draft
status_allows status = ok status

-- `role_key = 'DOMAIN_OWNER' AND enabled = TRUE`
abbrev pub is_enabled_owner : Uuid → RoleBindingRow → Bool
is_enabled_owner domain b =
    (b.domain_id == domain) && (str_eq b.role_key "DOMAIN_OWNER" && b.enabled)

-- `match … { None => …, Some((enabled,)) if !enabled => …, _ => Ok(Some(id)) }`
abbrev pub enabled_or : String → String → Uuid → Option PrincipalRow → CheckResult (Option Uuid)
enabled_or missing disabled id none = err (assignee_resolution_failed missing)
enabled_or missing disabled id (some p) =
    if p.enabled then ok (some id) else err (assignee_resolution_failed disabled)

module _ {V : Type 0} (fault : Faults) where
  unfoldable pub lock_instance : Db V → Uuid → CheckResult InstanceRow
  lock_instance db id = do
    row ← fetch fault instance_lock (find? (λ r. r.workflow_instance_id == id) db.instances)
    ok_or row instance_not_found

  unfoldable pub validate_principal_enabled :
      Db V → Uuid → CheckResult (Option ExecuteWorkflowTransitionError)
  validate_principal_enabled db id = do
    row ← fetch fault principal_select (find? (λ p. p.principal_id == id) db.principals)
    ok (principal_problem row)

  unfoldable pub validate_definition_version_status :
      Db V → Uuid → CheckResult DefinitionVersionStatus
  validate_definition_version_status db id = do
    row ← fetch fault version_lock (find? (λ v. v.definition_version_id == id) db.versions)
    v ← ok_or row (internal_consistency "definition version not found for instance")
    status_allows v.version_status

  abbrev join_node : Db V → Option VisitRow → Option CurrentVisitFullRow
  join_node db none = none
  join_node db (some v) = elim (find? (λ n. n.node_id == v.node_id) db.nodes) [
    | none ↦ none
    | some n ↦ some (record { visit = v; node = n })
  ]

  unfoldable pub read_current_visit : Db V → Uuid → Uuid → CheckResult CurrentVisitFullRow
  read_current_visit db instance_id visit_id = do
    row ← fetch fault visit_select (
        join_node db (
          find? (λ v. (v.node_visit_id == visit_id) && (v.workflow_instance_id == instance_id))
            db.visits))
    ok_or row current_visit_not_found

  unfoldable pub read_source_node : Db V → Uuid → Uuid → CheckResult NodeRow
  read_source_node db node_id version_id = do
    row ← fetch fault source_select (find? (has_node node_id version_id) db.nodes)
    ok_or row (internal_consistency "source node not found in instance definition version")

  unfoldable pub read_transition : Db V → Uuid → Uuid → CheckResult (TransitionRow V)
  read_transition db id version_id = do
    row ← fetch fault transition_select (
        find? (λ t. (t.transition_id == id) && (t.definition_version_id == version_id))
          db.transitions)
    ok_or row (transition_not_applicable "transition definition not found for this version")

  unfoldable pub read_target_node : Db V → Uuid → Uuid → CheckResult NodeRow
  read_target_node db node_id version_id = do
    row ← fetch fault target_select (find? (has_node node_id version_id) db.nodes)
    ok_or row (internal_consistency "target node not found in definition version")

  abbrev pub resolve_by :
      Db V → NodeRow → InstanceRow → Uuid → Option AssigneeRefType → CheckResult (Option Uuid)
  resolve_by db target instance_ domain (some workflow_creator) =
      ok (some instance_.created_by_principal_id)
  resolve_by db target instance_ domain (some domain_owner) = do
    binding ← fetch fault owner_binding_select (find? (is_enabled_owner domain) db.role_bindings)
    owner ← ok_or binding (assignee_resolution_failed "no enabled DOMAIN_OWNER found for domain")
    row ← fetch fault owner_select (find? (λ p. p.principal_id == owner.principal_id) db.principals)
    enabled_or "DOMAIN_OWNER principal not found" "DOMAIN_OWNER principal is disabled"
        owner.principal_id row
  resolve_by db target instance_ domain (some fixed_principal) = do
    fixed_id ←
        ok_or target.fixed_principal_id
          (assignee_resolution_failed "FIXED_PRINCIPAL node has no principal_id configured")
    row ← fetch fault fixed_principal_select (find? (λ p. p.principal_id == fixed_id) db.principals)
    enabled_or "FIXED_PRINCIPAL not found" "FIXED_PRINCIPAL is disabled" fixed_id row
  resolve_by db target instance_ domain none =
      err (assignee_resolution_failed "non-terminal node has no valid assignee reference")

  unfoldable pub resolve_assignee : Db V → NodeRow → InstanceRow → Uuid → CheckResult (Option Uuid)
  resolve_assignee db target instance_ domain =
      if is_terminal target.node_type
      then ok none
      else resolve_by db target instance_ domain target.assignee_ref_type
