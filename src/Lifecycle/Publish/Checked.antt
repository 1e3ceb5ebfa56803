-- ===== src/Lifecycle/Publish/Checked.antt =====
-- What the schemas and the fixed principals of a version are, where the checks of
-- src/application/definition/lifecycle/validation.rs pass.
use svc_workflow_kernel.Prelude.{
  ◌≡◌, refl, sym, ◌∙◌, Option, none, some, true, not, String, List, [], ◌∷◌, find?, ◌==◌,
  append-eq_nil, flat_map, All, inl, inr, Option-cases, Bool-cases, ◌≢◌,
}
use svc_workflow_kernel.Prelude.Result.{ok, err_if, question-ok, passes-true, Result-cases}
use svc_workflow_kernel.Platform.{Platform}
use svc_workflow_kernel.Enums.{fixed_principal}
use svc_workflow_kernel.Definition.Model.{Uuid, GraphValidationError}
use svc_workflow_kernel.Definition.Graph.Rules.{ForSome}
use svc_workflow_kernel.Store.{PrincipalRow}
use svc_workflow_kernel.Lifecycle.Rows.{
  NodeDefinitionRow, TransitionDefinitionRow, DefinitionDb, LifecycleFaults, query, assignee_of,
  principal_enabled_select, principal_count, fixed_exists_select, fixed_enabled_select,
}
use svc_workflow_kernel.Lifecycle.Schemas.{
  JsonValue, JsonFields, scalar, string, array, object, check_external_refs, OccursIn, HasLocalRefs,
  check_external_refs-HasLocalRefs,
}
use svc_workflow_kernel.Lifecycle.Repository.Passed.{query-eq-ok}
use svc_workflow_kernel.Lifecycle.Publish.{
  Seen, is_object, compiles, schema_error, principal_enabled, validate_json_schema,
  validate_json_schemas, check_fixed, check_assignee, validate_fixed_principals, absence,
  ensure_principal_enabled,
}

-- The principal is in the tables and enabled.
abbrev pub HasEnabled : {V : Type 0} → DefinitionDb V → Uuid → Type 0
HasEnabled db id =
    (p : PrincipalRow) × (find? (λ p. p.principal_id == id) db.principals ≡ some p)
    × (p.enabled ≡ true)

-- Where the node names a fixed principal, the principal was there and enabled in the tables that
-- the query for it saw.
abbrev pub FixedIsEnabled : {V : Type 0} → Seen V → NodeDefinitionRow V → Type 0
FixedIsEnabled seen n =
    (id : Uuid)
    → n.assignee_ref_type ≡ some fixed_principal
    → n.fixed_principal_id ≡ some id
    → HasEnabled (seen (fixed_enabled_select id)) id

principal_enabled-HasEnabled :
    {V : Type 0} (db : DefinitionDb V) (id : Uuid)
    → principal_enabled db id ≡ true
    → HasEnabled db id
principal_enabled-HasEnabled db id h =
    elim (Option-cases (find? (λ p. p.principal_id == id) db.principals)) [
      | inl e ↦ cc (rw (principal_enabled, e) at h)
      | inr (p, e) ↦ (p, e, rw (principal_enabled, e) at h)
    ]

module _ (P : Platform) (view : P.Value → JsonValue) where
  open P use {Value}

  -- A schema is a JSON object, every reference inside it is local, and it compiles.
  abbrev pub SchemaIsValid : Value → Type 0
  SchemaIsValid schema =
      ((fields : JsonFields) × (view schema ≡ object fields))
      × ((o : JsonFields) → OccursIn o (view schema) → HasLocalRefs o)
      × (P.validator_for schema ≡ none)

  -- The context schema and each submission schema, where they are given.
  abbrev pub SchemasAreValid : Option Value → List (TransitionDefinitionRow Value) → Type 0
  SchemasAreValid context_schema transitions =
      ForSome SchemaIsValid context_schema
      × All (λ t. ForSome SchemaIsValid t.submission_schema) transitions

  is_object-object :
      (v : JsonValue) → is_object P view v ≡ true → (fields : JsonFields) × (v ≡ object fields)
  is_object-object (object fields) h = (fields, refl)
  is_object-object scalar h = cc
  is_object-object (string s) h = cc
  is_object-object (array items) h = cc

  compiles-none : (schema : Value) → compiles P view schema ≡ ok tt → P.validator_for schema ≡ none
  compiles-none schema h = elim (Option-cases (P.validator_for schema)) [
    | inl e ↦ e
    | inr (message, e) ↦ cc (rw (compiles, e) at h)
  ]

  validate_json_schema-SchemaIsValid :
      (schema : Value) → validate_json_schema P view schema ≡ ok tt → SchemaIsValid schema
  unfolding validate_json_schema
  validate_json_schema-SchemaIsValid schema h =
      let (_, is_map, h) = question-ok (err_if (not (is_object P view (view schema))) _) _ h in
      let (_, local, compiled) = question-ok (check_external_refs (view schema)) _ h in
      (
        is_object-object (view schema) (passes-true (is_object P view (view schema)) _ is_map),
        (check_external_refs-HasLocalRefs (view schema)).0 local,
        compiles-none schema compiled,
      )

  schema_error-ForSome :
      (e : GraphValidationError) (schema : Option Value)
      → schema_error P view e schema ≡ []
      → ForSome SchemaIsValid schema
  schema_error-ForSome e none h = tt
  schema_error-ForSome e (some schema) h =
      elim (Result-cases (validate_json_schema P view schema)) [
        | inl (message, bad) ↦ cc (rw (schema_error, bad) at h)
        | inr (tt, good) ↦ validate_json_schema-SchemaIsValid schema good
      ]

  submission_schemas-All :
      (e : TransitionDefinitionRow Value → GraphValidationError)
      (transitions : List (TransitionDefinitionRow Value))
      → flat_map (λ t. schema_error P view (e t) t.submission_schema) transitions ≡ []
      → All (λ t. ForSome SchemaIsValid t.submission_schema) transitions
  submission_schemas-All e [] h = tt
  submission_schemas-All e (t ∷ rest) h =
      let (first, later) = (append-eq_nil (schema_error P view (e t) t.submission_schema) _).0 h in
      (schema_error-ForSome (e t) t.submission_schema first, submission_schemas-All e rest later)

  -- The check of the schemas finds no error where all of them are valid.
  pub validate_json_schemas-SchemasAreValid :
      (context_schema : Option Value) (transitions : List (TransitionDefinitionRow Value))
      → validate_json_schemas P view context_schema transitions ≡ []
      → SchemasAreValid context_schema transitions
  unfolding validate_json_schemas
  validate_json_schemas-SchemasAreValid context_schema transitions h =
      let (context, submissions) = (append-eq_nil (schema_error P view _ context_schema) _).0 h in
      (
        schema_error-ForSome _ context_schema context,
        submission_schemas-All _ transitions submissions,
      )

module _ (P : Platform) (fault : LifecycleFaults) where
  open P use {Value}

  check_fixed-HasEnabled :
      (seen : Seen Value) (node : String) (id : Uuid)
      → check_fixed P fault seen node id ≡ ok tt
      → HasEnabled (seen (fixed_enabled_select id)) id
  unfolding check_fixed
  check_fixed-HasEnabled seen node id h =
      let (exists, _, h) = question-ok (query fault (fixed_exists_select id) _) _ h in
      let (_, _, h) = question-ok (err_if (not exists) _) _ h in
      let enabled_now = principal_enabled (seen (fixed_enabled_select id)) id in
      let (enabled, read, h) =
        question-ok (query fault (fixed_enabled_select id) enabled_now) _ h in
      principal_enabled-HasEnabled (seen (fixed_enabled_select id)) id (
        sym (query-eq-ok fault (fixed_enabled_select id) enabled_now read)
        ∙ passes-true enabled _ h)

  check_assignee-FixedIsEnabled :
      (seen : Seen Value) (n : NodeDefinitionRow Value)
      → check_assignee P fault seen n.node_key
          (assignee_of n.assignee_ref_type n.fixed_principal_id)
        ≡ ok tt
      → FixedIsEnabled seen n
  unfolding check_assignee
  check_assignee-FixedIsEnabled seen n h id is_fixed names =
      check_fixed-HasEnabled seen n.node_key id
        (rw (is_fixed, names, assignee_of, check_assignee) at h)

  -- The check of the fixed principals passes where each of them is enabled.
  pub validate_fixed_principals-All :
      (seen : Seen Value) (nodes : List (NodeDefinitionRow Value))
      → validate_fixed_principals P fault seen nodes ≡ ok tt
      → All (FixedIsEnabled seen) nodes
  unfolding validate_fixed_principals
  validate_fixed_principals-All seen [] h = tt
  validate_fixed_principals-All seen (n ∷ rest) h =
      let (_, first, later) =
        question-ok
          (check_assignee P fault seen n.node_key
            (assignee_of n.assignee_ref_type n.fixed_principal_id))
          _ h in
      (check_assignee-FixedIsEnabled seen n first, validate_fixed_principals-All seen rest later)

  absence-error : (seen : Seen Value) (id : Uuid) {u : Unit {0}} → absence P fault seen id ≢ ok u
  unfolding absence
  absence-error seen id h =
      let (exists, _, h) = question-ok (query fault principal_count _) _ h in
      let (_, _, h) = question-ok (err_if (not exists) _) _ h in cc

  -- The principal of the command was there and enabled.
  pub ensure_principal_enabled-HasEnabled :
      (seen : Seen Value) (id : Uuid) {u : Unit {0}}
      → ensure_principal_enabled P fault seen id ≡ ok u
      → HasEnabled (seen principal_enabled_select) id
  unfolding ensure_principal_enabled
  ensure_principal_enabled-HasEnabled seen id h =
      let now = principal_enabled (seen principal_enabled_select) id in
      let (enabled, read, h) = question-ok (query fault principal_enabled_select now) _ h in
      elim (Bool-cases enabled) [
        | inl e ↦
            principal_enabled-HasEnabled (seen principal_enabled_select) id
              (sym (query-eq-ok fault principal_enabled_select now read) ∙ e)
        | inr e ↦ elim (absence-error seen id (rw e at h)) [ ]
      ]
