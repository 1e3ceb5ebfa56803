-- ===== src/Recovery/Authorization.antt =====
-- The checks of an administrator and of a target, over the rows that they read:
-- src/store/postgres/admin_recovery_repository/authorization.rs and `TargetNodeRow` of rows.rs there.
pub mod Granted
mod Examples
use svc_workflow_kernel.Prelude.{
  Option, none, some, Bool, true, false, ◌&&◌, ◌||◌, not, String, str_eq, List, [], ◌∷◌, find?,
  is_some, ◌==◌, if◌then◌else◌,
}
use svc_workflow_kernel.Prelude.Result.{Result, ok, err, ok_or, err_if, ◌>>=◌, ◌>>◌}
use svc_workflow_kernel.Definition.Model.{Uuid}
use svc_workflow_kernel.Lifecycle.Digest.{option_map}
use svc_workflow_kernel.Replay.Facts.{
  Recovered, principal_not_found, principal_disabled, principal_type_not_allowed, permission_denied,
  invalid_target, assignee_resolution_failed, internal_consistency, storage_error,
}

pub record Principal : Type 0 where
  pub principal_id : Uuid
  pub enabled : Bool
  pub principal_type : String

pub record RoleBinding : Type 0 where
  pub binding_id : Uuid
  pub domain_id : Uuid
  pub principal_id : Uuid
  pub role_key : String
  pub enabled : Bool

pub record VersionStatus : Type 0 where
  pub definition_version_id : Uuid
  pub version_status : String

pub record TargetNodeRow : Type 0 where
  pub node_id : Uuid
  pub definition_version_id : Uuid
  pub node_type : String
  pub assignee_ref_type : Option String
  pub fixed_principal_id : Option Uuid

pub record Rows : Type 0 where
  pub principals : List Principal
  pub bindings : List RoleBinding
  pub versions : List VersionStatus
  pub nodes : List TargetNodeRow

-- The statements of authorization.rs.
pub data Query : Type 0 where
  actor_select admin_select binding_select version_lock : Query
  target_select owner_select candidate_select : Query

-- The principal with an identifier, which is the primary key.
abbrev pub principal_of : Rows → Uuid → Option Principal
principal_of rows id = find? (λ p. p.principal_id == id) rows.principals

abbrev pub holds : (Principal → Bool) → Option Principal → Bool
holds p none = false
holds p (some q) = p q

-- The binding joined with its principal.
abbrev pub is_bound : Rows → (Principal → Bool) → Uuid → String → RoleBinding → Bool
is_bound rows allowed domain role b =
    (b.domain_id == domain)
    && (str_eq b.role_key role && (b.enabled && holds allowed (principal_of rows b.principal_id)))

abbrev pub is_human_or_agent : Principal → Bool
is_human_or_agent p = p.enabled && not (str_eq p.principal_type "SERVICE")

-- The steps that `validate_actor` and `validate_workflow_admin` share.
abbrev pub check_principal : Option Principal → Recovered (Unit {0})
check_principal principal = do
  p ← ok_or principal principal_not_found
  err_if (not p.enabled) principal_disabled
  err_if (str_eq p.principal_type "SERVICE") principal_type_not_allowed

-- The ways in which a target names its assignee.
pub data Reference : Type 0 where
  creator_reference owner_reference fixed_reference no_reference : Reference

abbrev pub reference_of : Option String → Reference
reference_of none = no_reference
reference_of (some t) =
    if str_eq t "WORKFLOW_CREATOR"
    then creator_reference
    else if str_eq t "DOMAIN_OWNER"
    then owner_reference
    else if str_eq t "FIXED_PRINCIPAL"
    then fixed_reference
    else no_reference

unfoldable pub validate_override_definition_status : String → Recovered (Unit {0})
validate_override_definition_status status =
    if str_eq status "PUBLISHED" || (str_eq status "DEPRECATED" || str_eq status "REVOKED")
    then ok tt
    else if str_eq status "DRAFT"
    then err (invalid_target "emergency override is not available for a DRAFT definition version")
    else err (internal_consistency "definition version has an unknown status")

module _ (fault : Query → Option String) where
  -- `fetch_optional(…).await.map_err(storage)` of a query that would return `a`
  abbrev pub fetch {ℓ} : {A : Type ℓ} → Query → A → Recovered A
  fetch query a = elim (fault query) [ none ↦ ok a | some message ↦ err (storage_error message) ]

  unfoldable pub validate_actor : Rows → Uuid → Recovered (Unit {0})
  validate_actor rows id = do
    principal ← fetch actor_select (principal_of rows id)
    check_principal principal

  unfoldable pub validate_workflow_admin : Rows → Uuid → Uuid → Recovered (Unit {0})
  validate_workflow_admin rows id domain = do
    principal ← fetch admin_select (principal_of rows id)
    check_principal principal
    authorized ← fetch binding_select (
        find?
          (λ b. (b.principal_id == id) && is_bound rows is_human_or_agent domain "WORKFLOW_ADMIN" b)
          rows.bindings)
    err_if (not (is_some authorized)) permission_denied

  unfoldable pub lock_definition_version_any : Rows → Uuid → Recovered String
  lock_definition_version_any rows id = do
    row ← fetch version_lock (find? (λ v. v.definition_version_id == id) rows.versions)
    ok_or (option_map (λ v. v.version_status) row)
        (internal_consistency "definition version missing")

  unfoldable pub read_target_node : Rows → Uuid → Uuid → Recovered TargetNodeRow
  read_target_node rows node version = do
    row ←
        fetch target_select
          (find? (λ n. (n.node_id == node) && (n.definition_version_id == version)) rows.nodes)
    ok_or row (invalid_target "target node is not in the fixed definition version")

  abbrev pub candidate_of : Rows → TargetNodeRow → Uuid → Uuid → Reference → Recovered Uuid
  candidate_of rows target creator domain creator_reference = ok creator
  candidate_of rows target creator domain owner_reference = do
    row ←
        fetch owner_select
          (find? (is_bound rows (λ p. p.enabled) domain "DOMAIN_OWNER") rows.bindings)
    b ← ok_or row (assignee_resolution_failed "enabled DOMAIN_OWNER unavailable")
    ok b.principal_id
  candidate_of rows target creator domain fixed_reference =
      ok_or target.fixed_principal_id (assignee_resolution_failed "fixed principal is missing")
  candidate_of rows target creator domain no_reference =
      err (assignee_resolution_failed "non-terminal target has no valid assignee reference")

  unfoldable pub resolve_non_terminal_assignee : Rows → TargetNodeRow → Uuid → Uuid → Recovered Uuid
  resolve_non_terminal_assignee rows target creator domain = do
    err_if (str_eq target.node_type "TERMINAL")
        (invalid_target "MOVE_TO_NODE target must be non-terminal")
    candidate ← candidate_of rows target creator domain (reference_of target.assignee_ref_type)
    row ← fetch candidate_select (principal_of rows candidate)
    err_if (not (holds (λ p. p.enabled) row))
        (assignee_resolution_failed "target assignee is unavailable")
    ok candidate
