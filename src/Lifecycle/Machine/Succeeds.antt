-- ===== src/Lifecycle/Machine/Succeeds.antt =====
-- An operation that is permitted succeeds when no statement fails.
use svc_workflow_kernel.Prelude.{ℕ, ◌≡◌, refl, none, Bool, ◌||◌, String, str_eq_iff}
use svc_workflow_kernel.Prelude.Result.{ok}
use svc_workflow_kernel.Platform.{Platform}
use svc_workflow_kernel.Enums.{draft, published, deprecated}
use svc_workflow_kernel.Definition.Model.{Uuid}
use svc_workflow_kernel.Lifecycle.Rows.{
  WorkflowDefinitionRow, WorkflowDefinitionVersionRow, DefinitionDb, LifecycleFaults,
}
use svc_workflow_kernel.Lifecycle.Repository.{
  has_status, has_version_id, read_nodes, read_transitions, set_deprecated, set_revoked,
  set_published, update_versions, get_version_inner, lock_version_inner, lock_with_status,
  read_definition, check_domain_owner, get_complete_graph_inner, digest_of, write_versions,
  publish_body, status_body, reread,
}
use svc_workflow_kernel.Lifecycle.Repository.Passed.{IsOwnedBy, IsPermitted, is_draft_of}
use svc_workflow_kernel.Lifecycle.Machine.{
  Operation, publish_op, deprecate_op, revoke_op, subject, actor_of, expected_by, set_by, written,
  body_of, perform, perform-reread, row_at-written,
}

-- Every statement succeeds.
abbrev pub all_answer : LifecycleFaults
all_answer = λ s. none

module _ (P : Platform) where
  open P use {Value}

  -- For a publication, the digest was computed from what the tables hold.
  abbrev pub DigestAgrees :
      Operation
      → DefinitionDb Value
      → WorkflowDefinitionVersionRow Value
      → WorkflowDefinitionRow
      → Type 0
  DigestAgrees (publish_op now id actor digest) db v d =
      digest_of P all_answer d v (read_nodes db id) (read_transitions db id) ≡ ok digest
  DigestAgrees (deprecate_op now id actor) db v d = Unit
  DigestAgrees (revoke_op now id actor) db v d = Unit

  check_domain_owner-owned :
      (db : DefinitionDb Value) (domain_id actor : Uuid)
      → IsOwnedBy db domain_id actor
      → check_domain_owner P all_answer db domain_id actor ≡ ok tt
  unfolding check_domain_owner
  check_domain_owner-owned db domain_id actor owned =
      rw (owned.domain_found, owned.domain_enabled, owned.binding_found, owned.binding_enabled) refl

  status_body-succeeds :
      (db : DefinitionDb Value) (id actor : Uuid)
      (expected : WorkflowDefinitionVersionRow Value → Bool)
      (set : WorkflowDefinitionVersionRow Value → WorkflowDefinitionVersionRow Value)
      (v : WorkflowDefinitionVersionRow Value) (d : WorkflowDefinitionRow)
      → IsPermitted db id actor expected v d
      → status_body P all_answer db id actor expected set
        ≡ ok (update_versions (has_version_id id) set db)
  unfolding status_body lock_with_status lock_version_inner read_definition write_versions
  status_body-succeeds db id actor expected set v d permitted =
      rw
        (
          permitted.version_found,
          permitted.version_expected,
          permitted.definition_found,
          check_domain_owner-owned db d.domain_id actor permitted.owned,
        )
        refl

  publish_body-succeeds :
      (db : DefinitionDb Value) (now : ℕ) (id actor : Uuid) (digest : String)
      (v : WorkflowDefinitionVersionRow Value) (d : WorkflowDefinitionRow)
      → IsPermitted db id actor (has_status draft) v d
      → digest_of P all_answer d v (read_nodes db id) (read_transitions db id) ≡ ok digest
      → publish_body P all_answer db now id actor digest
        ≡ ok (update_versions (is_draft_of P all_answer id) (set_published digest actor now) db)
  unfolding publish_body lock_with_status lock_version_inner read_definition write_versions
      get_complete_graph_inner
  publish_body-succeeds db now id actor digest v d permitted agrees =
      rw
        (
          permitted.version_found,
          permitted.version_expected,
          permitted.definition_found,
          check_domain_owner-owned db d.domain_id actor permitted.owned,
          agrees,
          (str_eq_iff digest digest).1 refl,
        )
        refl

  body_of-succeeds :
      (op : Operation) (db : DefinitionDb Value) (v : WorkflowDefinitionVersionRow Value)
      (d : WorkflowDefinitionRow)
      → IsPermitted db (subject op) (actor_of op) (expected_by op) v d
      → DigestAgrees op db v d
      → body_of P all_answer op db ≡ ok (written op db)
  body_of-succeeds (publish_op now id actor digest) db v d permitted agrees =
      publish_body-succeeds db now id actor digest v d permitted agrees
  body_of-succeeds (deprecate_op now id actor) db v d permitted agrees =
      status_body-succeeds db id actor (has_status published) (set_deprecated actor now) v d
        permitted
  body_of-succeeds (revoke_op now id actor) db v d permitted agrees =
      status_body-succeeds db id actor (λ v. has_status published v || has_status deprecated v)
        (set_revoked actor now) v d permitted

  -- When no statement fails, an operation whose version is in an expected status, whose actor owns
  -- the enabled domain of its definition and, for a publication, whose digest is that of the graph
  -- in the tables, succeeds: it answers with the row as it has set it, and has written that row.
  pub perform-succeeds :
      (op : Operation) (db : DefinitionDb Value) (v : WorkflowDefinitionVersionRow Value)
      (d : WorkflowDefinitionRow)
      → IsPermitted db (subject op) (actor_of op) (expected_by op) v d
      → DigestAgrees op db v d
      → perform P all_answer op db ≡ (ok (set_by op v), written op db)
  unfolding reread get_version_inner
  perform-succeeds op db v d permitted agrees =
      let set = row_at-written op db permitted.version_found permitted.version_expected in
      rw (perform-reread P all_answer op db, body_of-succeeds op db v d permitted agrees, set) refl
