-- ===== src/Lifecycle/Rows.antt =====
-- The tables of the definitions, with the columns of src/store/postgres/repository_rows.rs that the
-- lifecycle reads or writes, and the statements, each of which may fail.
use svc_workflow_kernel.Prelude.{
  ℕ, ℤ, Option, none, some, Bool, String, List, [], ◌∷◌, if◌then◌else◌,
}
use svc_workflow_kernel.Prelude.Result.{Result, ok, err}
use svc_workflow_kernel.Enums.{DefinitionVersionStatus, NodeType, AssigneeRefType, TransitionEffect}
use svc_workflow_kernel.Definition.Model.{Uuid, AssigneeRef, NodeDefinition, TransitionDefinition}
use svc_workflow_kernel.Store.{I32, PrincipalRow, RoleBindingRow}
use svc_workflow_kernel.Lifecycle.Error.{DefinitionError, SqlxError, map_db_error}

pub record DomainRow : Type 0 where
  pub domain_id : Uuid
  pub enabled : Bool

pub record WorkflowDefinitionRow : Type 0 where
  pub workflow_definition_id : Uuid
  pub domain_id : Uuid
  pub definition_key : String

-- A time is its number of microseconds.
pub record WorkflowDefinitionVersionRow (V : Type 0) : Type 0 where
  pub definition_version_id : Uuid
  pub workflow_definition_id : Uuid
  pub version_number : I32
  pub version_status : DefinitionVersionStatus
  pub definition_digest : Option String
  pub json_schema_dialect : Option String
  pub validator_version : Option String
  pub context_schema : Option V
  pub updated_at : ℕ
  pub published_at : Option ℕ
  pub deprecated_at : Option ℕ
  pub revoked_at : Option ℕ
  pub published_by_principal_id : Option Uuid
  pub deprecated_by_principal_id : Option Uuid
  pub revoked_by_principal_id : Option Uuid

pub record NodeDefinitionRow (V : Type 0) : Type 0 where
  pub node_id : Uuid
  pub definition_version_id : Uuid
  pub node_key : String
  pub display_name : String
  pub order_index : ℤ
  pub node_type : NodeType
  pub assignee_ref_type : Option AssigneeRefType
  pub fixed_principal_id : Option Uuid
  pub instructions : Option String
  pub primary_advance_transition_id : Option Uuid
  pub metadata : Option V

pub record TransitionDefinitionRow (V : Type 0) : Type 0 where
  pub transition_id : Uuid
  pub definition_version_id : Uuid
  pub transition_key : String
  pub display_name : String
  pub source_node_id : Uuid
  pub target_node_id : Uuid
  pub transition_effect : TransitionEffect
  pub submission_schema : Option V
  pub metadata : Option V

-- `self.assignee_ref_type.map(…)`: without a type, the fixed principal is not read.
abbrev pub assignee_of : Option AssigneeRefType → Option Uuid → Option AssigneeRef
assignee_of none fixed = none
assignee_of (some t) fixed = some (record { ref_type = t; fixed_principal_id = fixed })

-- `into_domain`, with the columns that the graph rules read.
unfoldable pub node_into_domain : {V : Type 0} → NodeDefinitionRow V → NodeDefinition
node_into_domain r = record {
  node_id = r.node_id;
  node_key = r.node_key;
  order_index = r.order_index;
  node_type = r.node_type;
  assignee_ref = assignee_of r.assignee_ref_type r.fixed_principal_id;
  primary_advance_transition_id = r.primary_advance_transition_id;
}

unfoldable pub transition_into_domain :
    {V : Type 0} → TransitionDefinitionRow V → TransitionDefinition
transition_into_domain r = record {
  transition_id = r.transition_id;
  transition_key = r.transition_key;
  source_node_id = r.source_node_id;
  target_node_id = r.target_node_id;
  transition_effect = r.transition_effect;
}

pub record DefinitionDb (V : Type 0) : Type 0 where
  pub principals : List PrincipalRow
  pub domains : List DomainRow
  pub role_bindings : List RoleBindingRow
  pub definitions : List WorkflowDefinitionRow
  pub versions : List (WorkflowDefinitionVersionRow V)
  pub nodes : List (NodeDefinitionRow V)
  pub transitions : List (TransitionDefinitionRow V)

pub data LifecycleStatement : Type 0 where
  begin commit version_lock definition_select domain_select owner_select : LifecycleStatement
  nodes_select transitions_select version_update version_select : LifecycleStatement
  principal_enabled_select principal_count : LifecycleStatement
  fixed_exists_select fixed_enabled_select : Uuid → LifecycleStatement

abbrev pub LifecycleFaults : Type 0
LifecycleFaults = LifecycleStatement → Option SqlxError

abbrev pub LifecycleResult {ℓ} : Type ℓ → Type ℓ
LifecycleResult = Result DefinitionError

-- `.await.map_err(map_db_error)` of a statement that would return `a`
abbrev pub query {ℓ} : {A : Type ℓ} → LifecycleFaults → LifecycleStatement → A → LifecycleResult A
query fault s a = elim (fault s) [ none ↦ ok a | some e ↦ err (map_db_error e) ]

module _ {ℓ} {A : Type ℓ} where
  abbrev insert_by : (A → A → Bool) → A → List A → List A
  insert_by le x [] = x ∷ []
  insert_by le x (y ∷ ys) = let rest = insert_by le x ys in if le x y then x ∷ y ∷ ys else y ∷ rest

  -- A stable sort: `ORDER BY` and `sort_by`.
  abbrev pub sort_by : (A → A → Bool) → List A → List A
  sort_by le [] = []
  sort_by le (x ∷ xs) = insert_by le x (sort_by le xs)
