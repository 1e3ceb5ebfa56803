-- ===== src/Lifecycle/Repository.antt =====
-- lifecycle_transactions.rs and graph_read.rs of src/store/postgres/definition_repository: the reads
-- and the transactions that change the status of a version. The value of a transaction is its result
-- with the tables as the database keeps them: what is not committed is dropped, and a commit that
-- reports an error has not committed.
pub mod Passed
use svc_workflow_kernel.Prelude.{
  ℕ, Option, none, some, Bool, true, false, ◌&&◌, ◌||◌, not, String, str_eq, List, [], ◌∷◌, map,
  filter, find?, lebℤ, ◌==◌, if◌then◌else◌,
}
use svc_workflow_kernel.Prelude.Result.{Result, ok, err, ok_or, err_if, ◌>>=◌, ◌>>◌}
use svc_workflow_kernel.Platform.{Platform}
use svc_workflow_kernel.Enums.{DefinitionVersionStatus, draft, published, deprecated, revoked}
use svc_workflow_kernel.Definition.Model.{Uuid}
use svc_workflow_kernel.Store.{RoleBindingRow}
use svc_workflow_kernel.Lifecycle.Error.{
  DefinitionError, domain_not_found, domain_disabled, permission_denied, definition_not_found,
  definition_version_not_found, version_not_draft, invalid_lifecycle_transition,
  concurrent_modification,
}
use svc_workflow_kernel.Lifecycle.Rows.{
  DomainRow, WorkflowDefinitionRow, WorkflowDefinitionVersionRow, NodeDefinitionRow,
  TransitionDefinitionRow, DefinitionDb, LifecycleFaults, LifecycleResult, query, sort_by, begin,
  commit, version_lock, definition_select, domain_select, owner_select, nodes_select,
  transitions_select, version_update, version_select,
}
use svc_workflow_kernel.Lifecycle.Digest.{compute_digest, node_keys, transition_keys, key_le}

-- `==` of `DefinitionVersionStatus`
abbrev pub has_status :
    {V : Type 0} → DefinitionVersionStatus → WorkflowDefinitionVersionRow V → Bool
has_status draft v = elim (v.version_status) [ draft ↦ true | _ ↦ false ]
has_status published v = elim (v.version_status) [ published ↦ true | _ ↦ false ]
has_status deprecated v = elim (v.version_status) [ deprecated ↦ true | _ ↦ false ]
has_status revoked v = elim (v.version_status) [ revoked ↦ true | _ ↦ false ]

abbrev pub has_version_id : {V : Type 0} → Uuid → WorkflowDefinitionVersionRow V → Bool
has_version_id id v = v.definition_version_id == id

-- The binding of a principal to the role DOMAIN_OWNER of a domain.
abbrev pub is_owner_binding : Uuid → Uuid → RoleBindingRow → Bool
is_owner_binding domain principal b =
    (b.domain_id == domain) && ((b.principal_id == principal) && str_eq b.role_key "DOMAIN_OWNER")

-- `UPDATE … SET … WHERE …` as the map that changes the rows which the condition selects.
abbrev pub update_where {ℓ} : {A : Type ℓ} → (A → Bool) → (A → A) → List A → List A
update_where p f [] = []
update_where p f (x ∷ xs) = (if p x then f x else x) ∷ update_where p f xs

module _ {V : Type 0} where
  abbrev pub set_published :
      String → Uuid → ℕ → WorkflowDefinitionVersionRow V → WorkflowDefinitionVersionRow V
  set_published digest actor now v = record v {
    version_status = published;
    definition_digest = some digest;
    published_at = some now;
    published_by_principal_id = some actor;
    updated_at = now;
  }

  abbrev pub set_deprecated :
      Uuid → ℕ → WorkflowDefinitionVersionRow V → WorkflowDefinitionVersionRow V
  set_deprecated actor now v = record v {
    version_status = deprecated;
    deprecated_at = some now;
    deprecated_by_principal_id = some actor;
    updated_at = now;
  }

  abbrev pub set_revoked :
      Uuid → ℕ → WorkflowDefinitionVersionRow V → WorkflowDefinitionVersionRow V
  set_revoked actor now v = record v {
    version_status = revoked;
    revoked_at = some now;
    revoked_by_principal_id = some actor;
    updated_at = now;
  }

  -- The tables with the rows of the versions changed.
  abbrev pub update_versions :
      (WorkflowDefinitionVersionRow V → Bool)
      → (WorkflowDefinitionVersionRow V → WorkflowDefinitionVersionRow V)
      → DefinitionDb V
      → DefinitionDb V
  update_versions p f db = record db { versions = update_where p f db.versions }

  abbrev pub read_nodes : DefinitionDb V → Uuid → List (NodeDefinitionRow V)
  read_nodes db version =
      sort_by (λ a b. lebℤ a.order_index b.order_index)
        (filter (λ n. n.definition_version_id == version) db.nodes)

  abbrev pub read_transitions : DefinitionDb V → Uuid → List (TransitionDefinitionRow V)
  read_transitions db version =
      sort_by (λ a b. key_le a.transition_key b.transition_key)
        (filter (λ t. t.definition_version_id == version) db.transitions)

module _ (P : Platform) (fault : LifecycleFaults) where
  open P use {Value}

  unfoldable pub get_version_inner :
      DefinitionDb Value → Uuid → LifecycleResult (WorkflowDefinitionVersionRow Value)
  get_version_inner db id = do
    row ← query fault version_select (find? (has_version_id id) db.versions)
    ok_or row definition_version_not_found

  -- Outside a transaction, the lock ends with the statement.
  unfoldable pub lock_version_inner :
      DefinitionDb Value → Uuid → LifecycleResult (WorkflowDefinitionVersionRow Value)
  lock_version_inner db id = do
    row ← query fault version_lock (find? (has_version_id id) db.versions)
    ok_or row definition_version_not_found

  -- The locked row, if its status is one of those that the operation expects.
  unfoldable pub lock_with_status :
      DefinitionDb Value
      → Uuid
      → (WorkflowDefinitionVersionRow Value → Bool)
      → DefinitionError
      → LifecycleResult (WorkflowDefinitionVersionRow Value)
  lock_with_status db id expected refusal = do
    version ← lock_version_inner db id
    err_if (not (expected version)) refusal
    ok version

  unfoldable pub read_definition : DefinitionDb Value → Uuid → LifecycleResult WorkflowDefinitionRow
  read_definition db id = do
    row ← query fault definition_select (find? (λ d. d.workflow_definition_id == id) db.definitions)
    ok_or row definition_not_found

  -- The domain is enabled and the actor is its owner.
  unfoldable pub check_domain_owner : DefinitionDb Value → Uuid → Uuid → LifecycleResult (Unit {0})
  check_domain_owner db domain_id actor = do
    row ← query fault domain_select (find? (λ d. d.domain_id == domain_id) db.domains)
    domain ← ok_or row domain_not_found
    err_if (not domain.enabled) domain_disabled
    owner ← query fault owner_select (find? (is_owner_binding domain_id actor) db.role_bindings)
    binding ← ok_or owner permission_denied
    err_if (not binding.enabled) permission_denied

  unfoldable pub get_complete_graph_inner :
      DefinitionDb Value
      → Uuid
      → LifecycleResult (List (NodeDefinitionRow Value) × List (TransitionDefinitionRow Value))
  get_complete_graph_inner db version = do
    nodes ← query fault nodes_select (read_nodes db version)
    transitions ← query fault transitions_select (read_transitions db version)
    ok (nodes, transitions)

  -- The digest of a version with its definition's key and its graph, as the callers make it.
  unfoldable pub digest_of :
      WorkflowDefinitionRow
      → WorkflowDefinitionVersionRow Value
      → List (NodeDefinitionRow Value)
      → List (TransitionDefinitionRow Value)
      → LifecycleResult String
  digest_of def version nodes transitions =
      compute_digest P def.definition_key version.version_number version.json_schema_dialect
        version.validator_version version.context_schema nodes transitions (node_keys P nodes)
        (transition_keys P transitions)

  -- An UPDATE and the commit.
  unfoldable pub write_versions :
      DefinitionDb Value
      → (WorkflowDefinitionVersionRow Value → Bool)
      → (WorkflowDefinitionVersionRow Value → WorkflowDefinitionVersionRow Value)
      → LifecycleResult (DefinitionDb Value)
  write_versions db p f = do
    updated ← query fault version_update (update_versions p f db)
    query fault commit updated

  -- The body of `atomic_publish_inner`, up to the commit.
  unfoldable pub publish_body :
      DefinitionDb Value → ℕ → Uuid → Uuid → String → LifecycleResult (DefinitionDb Value)
  publish_body db now id actor precomputed = do
    tx ← query fault begin db
    version ← lock_with_status tx id (has_status draft) version_not_draft
    def ← read_definition tx version.workflow_definition_id
    check_domain_owner tx def.domain_id actor
    graph ← get_complete_graph_inner tx id
    actual ← digest_of def version graph.0 graph.1
    err_if (not (str_eq actual precomputed))
        (concurrent_modification "definition graph changed during publish; retry with fresh data")
    write_versions tx (λ v. has_version_id id v && has_status draft v)
        (set_published precomputed actor now)

  -- The bodies of `atomic_deprecate_inner` and `atomic_revoke_inner`, which differ in the statuses
  -- that they expect and in the columns that they set.
  unfoldable pub status_body :
      DefinitionDb Value
      → Uuid
      → Uuid
      → (WorkflowDefinitionVersionRow Value → Bool)
      → (WorkflowDefinitionVersionRow Value → WorkflowDefinitionVersionRow Value)
      → LifecycleResult (DefinitionDb Value)
  status_body db id actor expected set = do
    tx ← query fault begin db
    version ← lock_with_status tx id expected invalid_lifecycle_transition
    def ← read_definition tx version.workflow_definition_id
    check_domain_owner tx def.domain_id actor
    write_versions tx (has_version_id id) set

  -- After the commit the row is read again; after an error the old tables are kept.
  unfoldable pub reread :
      DefinitionDb Value
      → Uuid
      → LifecycleResult (DefinitionDb Value)
      → LifecycleResult (WorkflowDefinitionVersionRow Value) × DefinitionDb Value
  reread old id (ok new) = (get_version_inner new id, new)
  reread old id (err e) = (err e, old)

  unfoldable pub atomic_publish_inner :
      DefinitionDb Value
      → ℕ
      → Uuid
      → Uuid
      → String
      → LifecycleResult (WorkflowDefinitionVersionRow Value) × DefinitionDb Value
  atomic_publish_inner db now id actor precomputed =
      reread db id (publish_body db now id actor precomputed)

  unfoldable pub atomic_deprecate_inner :
      DefinitionDb Value
      → ℕ
      → Uuid
      → Uuid
      → LifecycleResult (WorkflowDefinitionVersionRow Value) × DefinitionDb Value
  atomic_deprecate_inner db now id actor =
      reread db id (status_body db id actor (has_status published) (set_deprecated actor now))

  unfoldable pub atomic_revoke_inner :
      DefinitionDb Value
      → ℕ
      → Uuid
      → Uuid
      → LifecycleResult (WorkflowDefinitionVersionRow Value) × DefinitionDb Value
  atomic_revoke_inner db now id actor = reread db id (
      status_body db id actor (λ v. has_status published v || has_status deprecated v)
        (set_revoked actor now))

  -- `publish_version_inner` and `update_version_status_inner` are single statements that commit
  -- themselves.
  unfoldable pub publish_version_inner :
      DefinitionDb Value
      → ℕ
      → Uuid
      → String
      → Uuid
      → LifecycleResult (WorkflowDefinitionVersionRow Value) × DefinitionDb Value
  publish_version_inner db now id digest actor = reread db id (
      query fault version_update (
        update_versions (λ v. has_version_id id v && has_status draft v)
          (set_published digest actor now) db))

  unfoldable pub update_version_status_inner :
      DefinitionDb Value
      → ℕ
      → Uuid
      → DefinitionVersionStatus
      → Uuid
      → LifecycleResult (WorkflowDefinitionVersionRow Value) × DefinitionDb Value
  update_version_status_inner db now id deprecated actor = reread db id (
      query fault version_update
        (update_versions (has_version_id id) (set_deprecated actor now) db))
  update_version_status_inner db now id revoked actor =
      reread db id (
        query fault version_update (update_versions (has_version_id id) (set_revoked actor now) db))
  update_version_status_inner db now id _ actor = (err invalid_lifecycle_transition, db)
