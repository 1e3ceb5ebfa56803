-- ===== src/Lifecycle/Publish/Sound.antt =====
-- What a version that `publish_version` has published is known to satisfy.
use svc_workflow_kernel.Prelude.{ℕ, ◌≡◌, some, true, String, All, find?, ◌==◌}
use svc_workflow_kernel.Prelude.Result.{ok}
use svc_workflow_kernel.Platform.{Platform}
use svc_workflow_kernel.Enums.{draft}
use svc_workflow_kernel.Definition.Model.{Uuid}
use svc_workflow_kernel.Definition.Graph.Exact.{IsWellFormed}
use svc_workflow_kernel.Lifecycle.Rows.{
  WorkflowDefinitionRow, WorkflowDefinitionVersionRow, DefinitionDb, LifecycleFaults,
  principal_enabled_select, nodes_select, transitions_select, version_lock, definition_select,
}
use svc_workflow_kernel.Lifecycle.Schemas.{JsonValue}
use svc_workflow_kernel.Lifecycle.Repository.{
  has_status, read_nodes, read_transitions, set_published, digest_of,
}
use svc_workflow_kernel.Lifecycle.Repository.Passed.{row_at, IsPermitted}
use svc_workflow_kernel.Lifecycle.Machine.{publish_op, written}
use svc_workflow_kernel.Lifecycle.Publish.Checked.{HasEnabled, FixedIsEnabled, SchemasAreValid}
use svc_workflow_kernel.Lifecycle.Publish.{Seen, graph_of, PublishInput}

-- The version and the graph stand in the tables that the service read, and pass its checks.
pub record IsValidated (P : Platform) (view : P.Value → JsonValue) (outside : LifecycleFaults)
    (seen : Seen P.Value) (actor id : Uuid) (digest : String) (input : PublishInput P.Value)
    : Type 0 where
  pub actor_enabled : HasEnabled (seen principal_enabled_select) actor
  pub version_read : row_at (seen version_lock) id ≡ some input.version
  pub definition_read :
      find?
        (λ d. d.workflow_definition_id == input.version.workflow_definition_id)
        (seen definition_select).definitions
      ≡ some input.definition
  pub nodes_read : input.nodes ≡ read_nodes (seen nodes_select) id
  pub transitions_read : input.transitions ≡ read_transitions (seen transitions_select) id
  pub was_draft : has_status draft input.version ≡ true
  pub well_formed : IsWellFormed (graph_of input.nodes input.transitions)
  pub schemas_valid : SchemasAreValid P view input.version.context_schema input.transitions
  pub principals_valid : All (FixedIsEnabled seen) input.nodes
  pub digested :
      digest_of P outside input.definition input.version input.nodes input.transitions ≡ ok digest

-- The row of the version was a DRAFT whose graph, in the tables of the transaction, has the digest.
pub record IsPublished (P : Platform) (inside : LifecycleFaults) (db after : DefinitionDb P.Value)
    (now : ℕ) (actor id : Uuid) (digest : String) (answer : WorkflowDefinitionVersionRow P.Value)
    : Type 0 where
  pub before : WorkflowDefinitionVersionRow P.Value
  pub definition : WorkflowDefinitionRow
  pub permitted : IsPermitted db id actor (has_status draft) before definition
  pub same_digest :
      digest_of P inside definition before (read_nodes db id) (read_transitions db id) ≡ ok digest
  pub answered : answer ≡ set_published digest actor now before
  pub kept : row_at after id ≡ some answer
  pub wrote : after ≡ written (publish_op now id actor digest) db
