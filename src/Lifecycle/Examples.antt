-- ===== src/Lifecycle/Examples.antt =====
-- The lifecycle of a small version: one DRAFT node that advances to a TERMINAL one.
use svc_workflow_kernel.Prelude.{
  ◌≤◌, ◌≡◌, ◌↔◌, ◌⊎◌, refl, none, some, true, List, [], ◌∷◌, pos, ◌==◌, Bool-cases, inl, inr, subst,
}
use svc_workflow_kernel.Prelude.Result.{ok}
use svc_workflow_kernel.Enums.{
  draft, published, normal, terminal, workflow_creator, advance, effect_text,
  DefinitionVersionStatus,
}
use svc_workflow_kernel.Transition.Small.{Json, small_platform}
use svc_workflow_kernel.Lifecycle.Rows.{
  WorkflowDefinitionRow, WorkflowDefinitionVersionRow, NodeDefinitionRow, TransitionDefinitionRow,
  DefinitionDb, LifecycleFaults, commit,
}
use svc_workflow_kernel.Lifecycle.Repository.{
  has_status, set_published, read_nodes, read_transitions, digest_of,
}
use svc_workflow_kernel.Lifecycle.Digest.{
  compute_digest, canonical_document, document_json, node_json, transition_json, canonical_node,
  canonical_transition,
}
use svc_workflow_kernel.Lifecycle.Publish.{PublishInput}
use svc_workflow_kernel.Lifecycle.Repository.Passed.{row_at, IsPermitted}
use svc_workflow_kernel.Lifecycle.Machine.{
  Operation, publish_op, deprecate_op, revoke_op, IsMove, statuses_of, perform, written,
  perform-IsMove,
}
use svc_workflow_kernel.Lifecycle.Machine.Succeeds.{all_answer, perform-succeeds}
use svc_workflow_kernel.Lifecycle.History.{
  Attempt, perform_all, Marks, IsMarked, IsFixed, perform_all-IsMarked, perform_all-IsFixed,
}
use svc_workflow_kernel.Lifecycle.History.Bound.{count_commits, count_commits-bound}
use svc_workflow_kernel.Lifecycle.Schemas.{
  JsonValue, string, object, field, empty_map, check_external_refs, OccursIn, HasLocalRefs,
  JsonFields, check_external_refs-HasLocalRefs,
}

abbrev draft_version : WorkflowDefinitionVersionRow Json
draft_version = record {
  definition_version_id = 3;
  workflow_definition_id = 4;
  version_number = 1;
  version_status = DefinitionVersionStatus.draft;
  definition_digest = none;
  json_schema_dialect = none;
  validator_version = none;
  context_schema = none;
  updated_at = 0;
  published_at = none;
  deprecated_at = none;
  revoked_at = none;
  published_by_principal_id = none;
  deprecated_by_principal_id = none;
  revoked_by_principal_id = none;
}

abbrev draft_node : NodeDefinitionRow Json
draft_node = record {
  node_id = 10;
  definition_version_id = 3;
  node_key = "start";
  display_name = "Start";
  order_index = pos 1;
  node_type = svc_workflow_kernel.Enums.NodeType.draft;
  assignee_ref_type = some workflow_creator;
  fixed_principal_id = none;
  instructions = none;
  primary_advance_transition_id = some 20;
  metadata = none;
}

abbrev definition : WorkflowDefinitionRow
definition = record { workflow_definition_id = 4; domain_id = 2; definition_key = "key" }

abbrev small_definitions : DefinitionDb Json
small_definitions = record {
  principals = record { principal_id = 1; enabled = true } ∷ [];
  domains = record { domain_id = 2; enabled = true } ∷ [];
  role_bindings =
      record { domain_id = 2; principal_id = 1; role_key = "DOMAIN_OWNER"; enabled = true } ∷ [];
  definitions = definition ∷ [];
  versions = draft_version ∷ [];
  nodes =
      draft_node
      ∷ record draft_node {
        node_id = 11;
        node_key = "end";
        display_name = "End";
        order_index = pos 2;
        node_type = terminal;
        assignee_ref_type = none;
        primary_advance_transition_id = none;
      }
      ∷ [];
  transitions =
      record {
        transition_id = 20;
        definition_version_id = 3;
        transition_key = "finish";
        display_name = "Finish";
        source_node_id = 10;
        target_node_id = 11;
        transition_effect = advance;
        submission_schema = none;
        metadata = none;
      }
      ∷ [];
}

abbrev publish_now : Operation
publish_now = publish_op 7 3 1 "digest"

-- The commit fails.
abbrev no_commit : LifecycleFaults
no_commit commit = some (record { database = none; text = "connection lost" })
no_commit _ = none

abbrev attempts : List Attempt
attempts =
    (publish_now, no_commit)
    ∷ (publish_now, all_answer)
    ∷ (revoke_op 8 3 1, all_answer)
    ∷ (deprecate_op 9 3 1, all_answer)
    ∷ []

perform-IsMove_example :
    (statuses_of (perform small_platform all_answer publish_now small_definitions).1
      ≡ statuses_of small_definitions)
    ⊎ IsMove
        (statuses_of small_definitions)
        (statuses_of (perform small_platform all_answer publish_now small_definitions).1)
        3
perform-IsMove_example = perform-IsMove small_platform all_answer publish_now small_definitions

small-IsMarked : IsMarked small_platform small_definitions
small-IsMarked id v at = elim (Bool-cases (3 == id)) [
  | inl e ↦
      let same : draft_version ≡ v = cc (rw (row_at, e) at at) in
      subst (λ (x : WorkflowDefinitionVersionRow Json). Marks small_platform (x.version_status) x)
        same (refl, (refl, refl), (refl, refl), (refl, refl))
  | inr e ↦ cc (rw (row_at, e) at at)
]

perform_all-IsMarked_example :
    IsMarked small_platform (perform_all small_platform attempts small_definitions)
perform_all-IsMarked_example =
    perform_all-IsMarked small_platform attempts small_definitions small-IsMarked

abbrev published_version : WorkflowDefinitionVersionRow Json
published_version = set_published "digest" 1 7 draft_version

abbrev published_definitions : DefinitionDb Json
published_definitions = record small_definitions { versions = published_version ∷ [] }

perform_all-IsFixed_example :
    IsFixed small_platform 3 published_version
      (perform_all small_platform attempts published_definitions)
perform_all-IsFixed_example =
    perform_all-IsFixed small_platform attempts published_definitions 3 published_version refl refl

count_commits-bound_example : count_commits small_platform 3 attempts small_definitions ≤ 3
count_commits-bound_example = count_commits-bound small_platform 3 attempts small_definitions

owner-IsPermitted : IsPermitted small_definitions 3 1 (has_status draft) draft_version definition
owner-IsPermitted = record {
  version_found = refl;
  version_expected = refl;
  definition_found = refl;
  owned = record {
    domain = record { domain_id = 2; enabled = true };
    domain_found = refl;
    domain_enabled = refl;
    binding = record { domain_id = 2; principal_id = 1; role_key = "DOMAIN_OWNER"; enabled = true };
    binding_found = refl;
    binding_enabled = refl;
  };
}

perform-succeeds_example :
    perform small_platform all_answer publish_now small_definitions
    ≡ (ok published_version, written publish_now small_definitions)
unfolding digest_of compute_digest canonical_document document_json node_json transition_json
    canonical_node canonical_transition effect_text
perform-succeeds_example =
    perform-succeeds small_platform publish_now small_definitions draft_version definition
      owner-IsPermitted refl

-- A schema as the value of a platform: the values of this one hold no references.
abbrev view_all : Json → JsonValue
view_all v = object empty_map

abbrev small_nodes : List (NodeDefinitionRow Json)
small_nodes = read_nodes small_definitions 3

abbrev small_transitions : List (TransitionDefinitionRow Json)
small_transitions = read_transitions small_definitions 3

abbrev small_input : PublishInput Json
small_input = record {
  version = draft_version;
  definition = definition;
  nodes = small_nodes;
  transitions = small_transitions;
}

abbrev local_schema : JsonValue
local_schema =
    object (field "properties" (object (field "$ref" (string "#/a") empty_map)) empty_map)

check_external_refs-HasLocalRefs_example :
    (check_external_refs local_schema ≡ ok tt)
    ↔ ((o : JsonFields) → OccursIn o local_schema → HasLocalRefs o)
check_external_refs-HasLocalRefs_example = check_external_refs-HasLocalRefs local_schema
