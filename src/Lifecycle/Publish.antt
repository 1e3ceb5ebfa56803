-- ===== src/Lifecycle/Publish.antt =====
-- `publish_version`, `deprecate_version` and `revoke_version` of
-- src/application/definition/lifecycle, over the repository. Other transactions may commit between
-- the statements of `publish_version` that stand outside the transaction: `seen s` are the tables
-- which the statement `s` sees.
pub mod Checked
pub mod Sound
use svc_workflow_kernel.Prelude.{
  ℕ, Option, none, some, Bool, true, false, not, String, str_append, List, [], ◌∷◌, ◌++◌, map,
  find?, is_empty, ◌==◌, if◌then◌else◌, flat_map, is_some,
}
use svc_workflow_kernel.Prelude.Result.{Result, ok, err, err_if, ◌>>=◌, ◌>>◌}
use svc_workflow_kernel.Platform.{Platform}
use svc_workflow_kernel.Enums.{AssigneeRefType, draft, fixed_principal}
use svc_workflow_kernel.Definition.Model.{
  Uuid, AssigneeRef, WorkflowGraph, GraphValidationError, ValidationResult, invalid_context_schema,
  invalid_submission_schema,
}
use svc_workflow_kernel.Definition.Graph.{validate_graph}
use svc_workflow_kernel.Lifecycle.Error.{
  DefinitionError, principal_not_found, principal_disabled, version_not_draft,
  graph_validation_failed, fixed_principal_invalid,
}
use svc_workflow_kernel.Lifecycle.Rows.{
  WorkflowDefinitionRow, WorkflowDefinitionVersionRow, NodeDefinitionRow, TransitionDefinitionRow,
  DefinitionDb, LifecycleStatement, LifecycleFaults, LifecycleResult, query, node_into_domain,
  transition_into_domain, assignee_of, version_lock, definition_select, nodes_select,
  transitions_select, principal_enabled_select, principal_count, fixed_exists_select,
  fixed_enabled_select,
}
use svc_workflow_kernel.Lifecycle.Schemas.{JsonValue, object, check_external_refs}
use svc_workflow_kernel.Lifecycle.Repository.{
  has_status, read_nodes, read_transitions, lock_version_inner, read_definition, digest_of,
  atomic_publish_inner, atomic_deprecate_inner, atomic_revoke_inner,
}

-- The tables that each statement outside the transaction sees.
abbrev pub Seen : Type 0 → Type 0
Seen V = LifecycleStatement → DefinitionDb V

-- `row.map(|r| r.0).unwrap_or(false)`
abbrev pub principal_enabled : {V : Type 0} → DefinitionDb V → Uuid → Bool
principal_enabled db id = elim (find? (λ p. p.principal_id == id) db.principals) [
  | none ↦ false
  | some p ↦ p.enabled
]

-- `COUNT(*) … > 0`
abbrev pub principal_exists : {V : Type 0} → DefinitionDb V → Uuid → Bool
principal_exists db id = is_some (find? (λ p. p.principal_id == id) db.principals)

module _ (P : Platform) (view : P.Value → JsonValue) where
  open P use {Value}

  abbrev pub is_object : JsonValue → Bool
  is_object (object fields) = true
  is_object _ = false

  abbrev pub compiles : Value → Result String (Unit {0})
  compiles schema = elim (P.validator_for schema) [
    | none ↦ ok tt
    | some e ↦ err (str_append "schema failed to compile: " e)
  ]

  -- `view` is the value as a match sees it.
  unfoldable pub validate_json_schema : Value → Result String (Unit {0})
  validate_json_schema schema = do
    err_if (not (is_object (view schema))) "schema must be a JSON object"
    check_external_refs (view schema)
    compiles schema

  abbrev pub schema_error : GraphValidationError → Option Value → List GraphValidationError
  schema_error e none = []
  schema_error e (some schema) = elim (validate_json_schema schema) [ ok _ ↦ [] | err _ ↦ e ∷ [] ]

  -- An error keeps its code and the key that its message names.
  unfoldable pub validate_json_schemas :
      Option Value → List (TransitionDefinitionRow Value) → List GraphValidationError
  validate_json_schemas context_schema transitions =
      schema_error (record { code = invalid_context_schema; subject = "" }) context_schema
      ++ flat_map
          (λ t.
            schema_error (record { code = invalid_submission_schema; subject = t.transition_key })
              t.submission_schema)
          transitions

abbrev pub graph_of :
    {V : Type 0} → List (NodeDefinitionRow V) → List (TransitionDefinitionRow V) → WorkflowGraph
graph_of nodes transitions = record {
  nodes = map node_into_domain nodes;
  transitions = map transition_into_domain transitions;
}

-- What `publish_version` reads before the graph is validated.
pub record PublishInput (V : Type 0) : Type 0 where
  pub version : WorkflowDefinitionVersionRow V
  pub definition : WorkflowDefinitionRow
  pub nodes : List (NodeDefinitionRow V)
  pub transitions : List (TransitionDefinitionRow V)

module _ (P : Platform) (fault : LifecycleFaults) where
  open P use {Value, uuid_text}

  -- A principal that is not enabled: it is not there, or it is disabled.
  unfoldable pub absence : Seen Value → Uuid → LifecycleResult (Unit {0})
  absence seen id = do
    exists ← query fault principal_count (principal_exists (seen principal_count) id)
    err_if (not exists) principal_not_found
    err principal_disabled

  unfoldable pub ensure_principal_enabled : Seen Value → Uuid → LifecycleResult (Unit {0})
  ensure_principal_enabled seen id = do
    enabled ←
        query fault principal_enabled_select (principal_enabled (seen principal_enabled_select) id)
    if enabled then ok tt else absence seen id

  abbrev refused : Uuid → String → String → DefinitionError
  refused id node problem = fixed_principal_invalid (
      str_append "fixed principal " (
        str_append (uuid_text id)
          (str_append " for node '" (str_append node (str_append "' " problem)))))

  -- The body of the loop, for the principal that the node fixes.
  unfoldable pub check_fixed : Seen Value → String → Uuid → LifecycleResult (Unit {0})
  check_fixed seen node id = do
    exists ←
        query fault (fixed_exists_select id) (principal_exists (seen (fixed_exists_select id)) id)
    err_if (not exists) (refused id node "not found")
    enabled ←
        query fault (fixed_enabled_select id)
          (principal_enabled (seen (fixed_enabled_select id)) id)
    err_if (not enabled) (refused id node "is disabled")

  unfoldable pub check_assignee :
      Seen Value → String → Option AssigneeRef → LifecycleResult (Unit {0})
  check_assignee seen node none = ok tt
  check_assignee seen node (some reference) = elim (reference.ref_type) [
    | fixed_principal ↦ elim (reference.fixed_principal_id) [
      | none ↦ ok tt
      | some id ↦ check_fixed seen node id
    ]
    | _ ↦ ok tt
  ]

  unfoldable pub validate_fixed_principals :
      Seen Value → List (NodeDefinitionRow Value) → LifecycleResult (Unit {0})
  validate_fixed_principals seen [] = ok tt
  validate_fixed_principals seen (n ∷ rest) =
      check_assignee seen n.node_key (assignee_of n.assignee_ref_type n.fixed_principal_id)
      >> validate_fixed_principals seen rest

  unfoldable pub publish_input : Seen Value → Uuid → Uuid → LifecycleResult (PublishInput Value)
  publish_input seen actor id = do
    ensure_principal_enabled seen actor
    version ← lock_version_inner P fault (seen version_lock) id
    err_if (not (has_status draft version)) version_not_draft
    definition ← read_definition P fault (seen definition_select) version.workflow_definition_id
    nodes ← query fault nodes_select (read_nodes (seen nodes_select) id)
    transitions ← query fault transitions_select (read_transitions (seen transitions_select) id)
    ok (record {
      version = version;
      definition = definition;
      nodes = nodes;
      transitions = transitions;
    })

  -- What follows the validation of the graph, up to the digest.
  unfoldable pub finish_validation :
      (Value → JsonValue)
      → Seen Value
      → PublishInput Value
      → ValidationResult
      → LifecycleResult String
  finish_validation view seen input result =
      let errors =
        result.errors
        ++ validate_json_schemas P view input.version.context_schema input.transitions in
      do
        err_if (not (is_empty errors)) (graph_validation_failed errors)
        validate_fixed_principals seen input.nodes
        digest_of P fault input.definition input.version input.nodes input.transitions

module _ (P : Platform) (view : P.Value → JsonValue) (outside inside : LifecycleFaults) where
  open P use {Value}

  abbrev Published : Type 0
  Published = LifecycleResult (WorkflowDefinitionVersionRow Value) × DefinitionDb Value

  -- The call of the repository, with the digest or the error that precedes it.
  abbrev pub publish_with :
      DefinitionDb Value → ℕ → Uuid → Uuid → LifecycleResult String → Published
  publish_with db now actor id (err e) = (err e, db)
  publish_with db now actor id (ok digest) = atomic_publish_inner P inside db now id actor digest

  abbrev pub publish_valid :
      Seen Value
      → DefinitionDb Value
      → ℕ
      → Uuid
      → Uuid
      → PublishInput Value
      → Option ValidationResult
      → Option Published
  publish_valid seen db now actor id input none = none
  publish_valid seen db now actor id input (some result) =
      some (publish_with db now actor id (finish_validation P outside view seen input result))

  abbrev pub publish_from :
      List Uuid
      → ℕ
      → Seen Value
      → DefinitionDb Value
      → ℕ
      → Uuid
      → Uuid
      → LifecycleResult (PublishInput Value)
      → Option Published
  publish_from keys fuel seen db now actor id (err e) = some (err e, db)
  publish_from keys fuel seen db now actor id (ok input) =
      publish_valid seen db now actor id input
        (validate_graph keys fuel (graph_of input.nodes input.transitions))

  -- `db` are the tables when the transaction begins; `keys` and `fuel` are those of
  -- `validate_graph`, which answers `none` while it has not ended.
  unfoldable pub publish_version :
      List Uuid → ℕ → Seen Value → DefinitionDb Value → ℕ → Uuid → Uuid → Option Published
  publish_version keys fuel seen db now actor id =
      publish_from keys fuel seen db now actor id (publish_input P outside seen actor id)

  abbrev pub after_ensure : LifecycleResult (Unit {0}) → DefinitionDb Value → Published → Published
  after_ensure (err e) db done = (err e, db)
  after_ensure (ok _) db done = done

  unfoldable pub deprecate_version : Seen Value → DefinitionDb Value → ℕ → Uuid → Uuid → Published
  deprecate_version seen db now actor id =
      after_ensure (ensure_principal_enabled P outside seen actor) db
        (atomic_deprecate_inner P inside db now id actor)

  unfoldable pub revoke_version : Seen Value → DefinitionDb Value → ℕ → Uuid → Uuid → Published
  revoke_version seen db now actor id =
      after_ensure (ensure_principal_enabled P outside seen actor) db
        (atomic_revoke_inner P inside db now id actor)
