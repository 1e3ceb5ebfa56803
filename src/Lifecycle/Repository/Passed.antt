-- ===== src/Lifecycle/Repository/Passed.antt =====
-- What the transactions of lifecycle_transactions.rs that commit have read and written.
use svc_workflow_kernel.Prelude.{
  ℕ, ◌≡◌, sym, subst, ap, ◌∙◌, Option, some, Bool, true, ◌&&◌, not, String, str_eq, str_eq_iff,
  find?, ◌==◌, arith,
}
use svc_workflow_kernel.Prelude.Result.{
  ok, ok_or, err_if, ◌>>=◌, question-ok, ok_or-some, err_if-false,
}
use svc_workflow_kernel.Platform.{Platform}
use svc_workflow_kernel.Enums.{draft}
use svc_workflow_kernel.Definition.Model.{Uuid}
use svc_workflow_kernel.Store.{RoleBindingRow}
use svc_workflow_kernel.Lifecycle.Error.{
  DefinitionError, invalid_lifecycle_transition, version_not_draft, domain_not_found,
  permission_denied, definition_not_found, definition_version_not_found,
}
use svc_workflow_kernel.Lifecycle.Rows.{
  DomainRow, WorkflowDefinitionRow, WorkflowDefinitionVersionRow, DefinitionDb, LifecycleFaults,
  LifecycleStatement, query, begin, commit, version_lock, definition_select, domain_select,
  owner_select, nodes_select, transitions_select, version_update,
}
use svc_workflow_kernel.Lifecycle.Repository.{
  has_version_id, is_owner_binding, has_status, update_versions, read_nodes, read_transitions,
  set_published, lock_version_inner, lock_with_status, read_definition, check_domain_owner,
  get_complete_graph_inner, digest_of, write_versions, publish_body, status_body,
}

-- The row of a version.
abbrev pub row_at : {V : Type 0} → DefinitionDb V → Uuid → Option (WorkflowDefinitionVersionRow V)
row_at db id = find? (has_version_id id) db.versions

-- A statement that succeeds returned what the tables hold.
pub query-eq-ok {ℓ} :
    {A : Type ℓ} (fault : LifecycleFaults) (s : LifecycleStatement) (a : A) {b : A}
    → query fault s a ≡ ok b
    → b ≡ a
query-eq-ok fault s a h = ground arith

-- An optional row that was read and must be there.
pub read-some {ℓ} :
    {A : Type ℓ} (fault : LifecycleFaults) (s : LifecycleStatement) (o : Option A)
    (e : DefinitionError) {a : A}
    → (query fault s o >>= λ row. ok_or row e) ≡ ok a
    → o ≡ some a
read-some fault s o e h =
    let (row, read, h) = question-ok (query fault s o) _ h in
    sym (query-eq-ok fault s o read) ∙ ok_or-some row e h

-- The actor owns the enabled domain.
pub record IsOwnedBy {V : Type 0} (db : DefinitionDb V) (domain_id actor : Uuid) : Type 0 where
  pub domain : DomainRow
  pub domain_found : find? (λ d. d.domain_id == domain_id) db.domains ≡ some domain
  pub domain_enabled : domain.enabled ≡ true
  pub binding : RoleBindingRow
  pub binding_found : find? (is_owner_binding domain_id actor) db.role_bindings ≡ some binding
  pub binding_enabled : binding.enabled ≡ true

-- The version, in an expected status, with its definition, whose domain the actor owns.
pub record IsPermitted {V : Type 0} (db : DefinitionDb V) (id actor : Uuid)
    (expected : WorkflowDefinitionVersionRow V → Bool) (version : WorkflowDefinitionVersionRow V)
    (definition : WorkflowDefinitionRow) : Type 0 where
  pub version_found : row_at db id ≡ some version
  pub version_expected : expected version ≡ true
  pub definition_found :
      find? (λ d. d.workflow_definition_id == version.workflow_definition_id) db.definitions
      ≡ some definition
  pub owned : IsOwnedBy db definition.domain_id actor

module _ (P : Platform) (fault : LifecycleFaults) where
  open P use {Value}

  check_domain_owner-IsOwnedBy :
      (db : DefinitionDb Value) (domain_id actor : Uuid) {u : Unit {0}}
      → check_domain_owner P fault db domain_id actor ≡ ok u
      → IsOwnedBy db domain_id actor
  unfolding check_domain_owner
  check_domain_owner-IsOwnedBy db domain_id actor h =
      let domain_row = find? (λ d. d.domain_id == domain_id) db.domains in
      let owner_row = find? (is_owner_binding domain_id actor) db.role_bindings in
      let (row, read, h) = question-ok (query fault domain_select domain_row) _ h in
      let (domain, found, h) = question-ok (ok_or row domain_not_found) _ h in
      let (_, enabled, h) = question-ok (err_if (not domain.enabled) _) _ h in
      let (owner, read_owner, h) = question-ok (query fault owner_select owner_row) _ h in
      let (binding, found_owner, h) = question-ok (ok_or owner permission_denied) _ h in
      record {
        domain = domain;
        domain_found =
            sym (query-eq-ok fault domain_select domain_row read) ∙ ok_or-some row _ found;
        domain_enabled =
            let off = err_if-false (not domain.enabled) _ enabled in ground (arith, off);
        binding = binding;
        binding_found =
            sym (query-eq-ok fault owner_select owner_row read_owner)
            ∙ ok_or-some owner _ found_owner;
        binding_enabled = let off = err_if-false (not binding.enabled) _ h in ground (arith, off);
      }

  lock_with_status-ok :
      (db : DefinitionDb Value) (id : Uuid) (expected : WorkflowDefinitionVersionRow Value → Bool)
      (refusal : DefinitionError) {v : WorkflowDefinitionVersionRow Value}
      → lock_with_status P fault db id expected refusal ≡ ok v
      → (row_at db id ≡ some v) × (expected v ≡ true)
  unfolding lock_with_status lock_version_inner
  lock_with_status-ok db id expected refusal {v} h =
      let (version, locked, h) = question-ok (lock_version_inner P fault db id) _ h in
      let (_, passed, h) = question-ok (err_if (not (expected version)) refusal) _ h in
      let same : version ≡ v = cc in
      let on = err_if-false (not (expected version)) refusal passed in
      (
        read-some fault version_lock (row_at db id) definition_version_not_found locked
            ∙ ap some same,
        subst (λ w. expected w ≡ true) same (ground (arith, on)),
      )

  pub read_definition-some :
      (db : DefinitionDb Value) (id : Uuid) {d : WorkflowDefinitionRow}
      → read_definition P fault db id ≡ ok d
      → find? (λ d. d.workflow_definition_id == id) db.definitions ≡ some d
  unfolding read_definition
  read_definition-some db id h = read-some fault definition_select _ definition_not_found h

  get_complete_graph-ok :
      (db : DefinitionDb Value) (id : Uuid) {g : _}
      → get_complete_graph_inner P fault db id ≡ ok g
      → g ≡ (read_nodes db id, read_transitions db id)
  unfolding get_complete_graph_inner
  get_complete_graph-ok db id h =
      let (nodes, read_n, h) = question-ok (query fault nodes_select (read_nodes db id)) _ h in
      let (transitions, read_t, h) =
        question-ok (query fault transitions_select (read_transitions db id)) _ h in
      let n = query-eq-ok fault nodes_select (read_nodes db id) read_n in
      let t = query-eq-ok fault transitions_select (read_transitions db id) read_t in cc

  write_versions-ok :
      (db : DefinitionDb Value) (p : WorkflowDefinitionVersionRow Value → Bool)
      (f : WorkflowDefinitionVersionRow Value → WorkflowDefinitionVersionRow Value)
      {new : DefinitionDb Value}
      → write_versions P fault db p f ≡ ok new
      → new ≡ update_versions p f db
  unfolding write_versions
  write_versions-ok db p f h =
      let (updated, wrote, h) =
        question-ok (query fault version_update (update_versions p f db)) _ h in
      query-eq-ok fault commit updated h
      ∙ query-eq-ok fault version_update (update_versions p f db) wrote

  -- A deprecation or revocation that commits.
  pub status_body-ok :
      (db : DefinitionDb Value) (id actor : Uuid)
      (expected : WorkflowDefinitionVersionRow Value → Bool)
      (set : WorkflowDefinitionVersionRow Value → WorkflowDefinitionVersionRow Value)
      {new : DefinitionDb Value}
      → status_body P fault db id actor expected set ≡ ok new
      → (v : WorkflowDefinitionVersionRow Value) × (d : WorkflowDefinitionRow) × IsPermitted db id
          actor expected v d
        × (new ≡ update_versions (has_version_id id) set db)
  unfolding status_body
  status_body-ok db id actor expected set {new} h =
      let (tx, begun, h) = question-ok (query fault begin db) _ h in
      let (v, locked, h) =
        question-ok (lock_with_status P fault tx id expected invalid_lifecycle_transition) _ h in
      let (d, defined, h) = question-ok (read_definition P fault tx v.workflow_definition_id) _ h in
      let (_, owned, h) = question-ok (check_domain_owner P fault tx d.domain_id actor) _ h in
      let (found, as_expected) = lock_with_status-ok tx id expected _ locked in
      let same = query-eq-ok fault begin db begun in
      (
        v,
        d,
        subst (λ x. IsPermitted x id actor expected v d) same
            (record {
              version_found = found;
              version_expected = as_expected;
              definition_found = read_definition-some tx v.workflow_definition_id defined;
              owned = check_domain_owner-IsOwnedBy tx d.domain_id actor owned;
            }),
        write_versions-ok tx (has_version_id id) set h
            ∙ ap (update_versions (has_version_id id) set) same,
      )

  -- The rows that a publication changes.
  abbrev pub is_draft_of : Uuid → WorkflowDefinitionVersionRow Value → Bool
  is_draft_of id v = has_version_id id v && has_status draft v

  -- A publication that commits: the graph in the tables has the digest that was computed before.
  pub publish_body-ok :
      (db : DefinitionDb Value) (now : ℕ) (id actor : Uuid) (precomputed : String)
      {new : DefinitionDb Value}
      → publish_body P fault db now id actor precomputed ≡ ok new
      → (v : WorkflowDefinitionVersionRow Value) × (d : WorkflowDefinitionRow) × IsPermitted db id
          actor
          (has_status draft)
          v
          d
        × (digest_of P fault d v (read_nodes db id) (read_transitions db id) ≡ ok precomputed)
        × (new ≡ update_versions (is_draft_of id) (set_published precomputed actor now) db)
  unfolding publish_body
  publish_body-ok db now id actor precomputed {new} h =
      let (tx, begun, h) = question-ok (query fault begin db) _ h in
      let (v, locked, h) =
        question-ok (lock_with_status P fault tx id (has_status draft) version_not_draft) _ h in
      let (d, defined, h) = question-ok (read_definition P fault tx v.workflow_definition_id) _ h in
      let (_, owned, h) = question-ok (check_domain_owner P fault tx d.domain_id actor) _ h in
      let (graph, read, h) = question-ok (get_complete_graph_inner P fault tx id) _ h in
      let (actual, computed, h) = question-ok (digest_of P fault d v graph.0 graph.1) _ h in
      let (_, agreed, h) = question-ok (err_if (not (str_eq actual precomputed)) _) _ h in
      let (found, as_expected) = lock_with_status-ok tx id (has_status draft) _ locked in
      let same = query-eq-ok fault begin db begun in
      let off = err_if-false (not (str_eq actual precomputed)) _ agreed in
      let equal = (str_eq_iff actual precomputed).0 (ground (arith, off)) in
      let whole = get_complete_graph-ok tx id read in
      let digest : digest_of P fault d v (read_nodes tx id) (read_transitions tx id)
          ≡ ok precomputed =
        subst (λ g. digest_of P fault d v (g.0) (g.1) ≡ ok precomputed) whole
          (computed ∙ ap ok equal) in
      (
        v,
        d,
        subst (λ x. IsPermitted x id actor (has_status draft) v d) same
            (record {
              version_found = found;
              version_expected = as_expected;
              definition_found = read_definition-some tx v.workflow_definition_id defined;
              owned = check_domain_owner-IsOwnedBy tx d.domain_id actor owned;
            }),
        subst
            (λ x. digest_of P fault d v (read_nodes x id) (read_transitions x id) ≡ ok precomputed)
            same digest,
        write_versions-ok tx (is_draft_of id) (set_published precomputed actor now) h
            ∙ ap (update_versions (is_draft_of id) (set_published precomputed actor now)) same,
      )
