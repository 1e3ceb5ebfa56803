-- ===== src/Recovery/Authorization/Examples.antt =====
-- An administrator and the owner of a domain.
use svc_workflow_kernel.Prelude.{◌≡◌, ◌↔◌, refl, none, some, true, false, str_eq, [], ◌∷◌}
use svc_workflow_kernel.Prelude.Result.{ok, err}
use svc_workflow_kernel.Replay.Facts.{invalid_target, principal_type_not_allowed}
use svc_workflow_kernel.Recovery.Authorization.{
  Principal, TargetNodeRow, Rows, principal_of, validate_actor, validate_workflow_admin,
  lock_definition_version_any, read_target_node, validate_override_definition_status,
  resolve_non_terminal_assignee,
}
use svc_workflow_kernel.Recovery.Authorization.Granted.{
  IsAdmissible, HasRole, Names, validate_workflow_admin-HasRole,
  resolve_non_terminal_assignee-Names,
}

abbrev small_target : TargetNodeRow
small_target = record {
  node_id = 10;
  definition_version_id = 3;
  node_type = "NORMAL";
  assignee_ref_type = some "DOMAIN_OWNER";
  fixed_principal_id = none;
}

abbrev small_rows : Rows
small_rows = record {
  principals =
      record { principal_id = 1; enabled = true; principal_type = "HUMAN" }
      ∷ record { principal_id = 2; enabled = true; principal_type = "SERVICE" }
      ∷ [];
  bindings =
      record {
        binding_id = 30;
        domain_id = 2;
        principal_id = 1;
        role_key = "WORKFLOW_ADMIN";
        enabled = true;
      }
      ∷ record {
        binding_id = 31;
        domain_id = 2;
        principal_id = 1;
        role_key = "DOMAIN_OWNER";
        enabled = true;
      }
      ∷ [];
  versions = record { definition_version_id = 3; version_status = "DRAFT" } ∷ [];
  nodes = small_target ∷ [];
}

reads :
    (validate_actor (λ query. none) small_rows 2 ≡ err principal_type_not_allowed)
    × (validate_workflow_admin (λ query. none) small_rows 1 2 ≡ ok tt)
    × (lock_definition_version_any (λ query. none) small_rows 3 ≡ ok "DRAFT")
    × (read_target_node (λ query. none) small_rows 10 3 ≡ ok small_target)
    × (validate_override_definition_status "DRAFT"
        ≡ err (invalid_target "emergency override is not available for a DRAFT definition version"))
unfolding validate_actor validate_workflow_admin lock_definition_version_any read_target_node
    validate_override_definition_status
reads = (refl, refl, refl, refl, refl)

resolves : resolve_non_terminal_assignee (λ query. none) small_rows small_target 5 2 ≡ ok 1
unfolding resolve_non_terminal_assignee
resolves = refl

validate_workflow_admin-HasRole_example :
    (validate_workflow_admin (λ query. none) small_rows 1 2 ≡ ok tt) ↔ (
      ((p : Principal) × (principal_of small_rows 1 ≡ some p) × IsAdmissible p)
      × HasRole small_rows 1 2 "WORKFLOW_ADMIN")
validate_workflow_admin-HasRole_example =
    validate_workflow_admin-HasRole (λ query. none) (λ query. refl) small_rows 1 2

resolve_non_terminal_assignee-Names_example :
    (str_eq small_target.node_type "TERMINAL" ≡ false)
    × ((p : Principal) × (principal_of small_rows 1 ≡ some p) × (p.enabled ≡ true))
    × Names small_rows small_target 5 2 1
resolve_non_terminal_assignee-Names_example =
    resolve_non_terminal_assignee-Names (λ query. none) small_rows small_target 5 2 resolves
