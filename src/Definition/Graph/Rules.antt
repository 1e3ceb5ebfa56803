-- ===== src/Definition/Graph/Rules.antt =====
-- The structural rules for a workflow graph, stated without reference to the validator: what each
-- loop of the validator is meant to accept.
use svc_workflow_kernel.Prelude.{
  ◌≡◌, ◌≢◌, ◌<ℤ◌, Option, none, some, List, [], ◌∷◌, All, get, eqbℤ, false,
}
use svc_workflow_kernel.Enums.{
  NodeType, AssigneeRefType, normal, terminal, workflow_creator, fixed_principal, advance, return,
  terminate,
}
use svc_workflow_kernel.Definition.Model.{
  Uuid, AssigneeRef, NodeDefinition, TransitionDefinition, WorkflowGraph,
}
use svc_workflow_kernel.Definition.Graph.References.{nodes_by_id, node_order_indices}
use svc_workflow_kernel.Definition.Graph.Trunk.{primary_of}

-- A fixed principal is named exactly for FIXED_PRINCIPAL.
abbrev pub PrincipalFits : AssigneeRefType → Option Uuid → Type 0
PrincipalFits fixed_principal p = p ≢ none
PrincipalFits _ p = p ≡ none

abbrev pub AssigneeRule : NodeType → Option AssigneeRef → Type 0
AssigneeRule terminal a = a ≡ none
AssigneeRule NodeType.draft none = ⊥
AssigneeRule NodeType.draft (some r) =
    (r.ref_type ≡ workflow_creator) × (r.fixed_principal_id ≡ none)
AssigneeRule normal none = ⊥
AssigneeRule normal (some r) = PrincipalFits r.ref_type r.fixed_principal_id

-- No two nodes have one order index.
abbrev pub DistinctOrders : List NodeDefinition → Type 0
DistinctOrders [] = Unit
DistinctOrders (n ∷ ns) = All (λ m. eqbℤ n.order_index m.order_index ≡ false) ns × DistinctOrders ns

abbrev pub EndpointsRule : WorkflowGraph → TransitionDefinition → Type 0
EndpointsRule g t =
    (get (nodes_by_id g) t.source_node_id ≢ none) × (get (nodes_by_id g) t.target_node_id ≢ none)

-- `P` holds of the value, where there is one.
abbrev pub ForSome {ℓ κ} : {A : Type ℓ} → (A → Type κ) → Option A → Type κ
ForSome P none = Unit
ForSome P (some x) = P x

-- The order index of the target is greater.
abbrev pub Advances : WorkflowGraph → NodeDefinition → TransitionDefinition → Type 0
Advances g n t = ForSome (λ o. n.order_index <ℤ o) (get (node_order_indices g) t.target_node_id)

abbrev pub PrimaryFits :
    WorkflowGraph → NodeDefinition → Option Uuid → Option TransitionDefinition → Type 0
PrimaryFits g n none _ = n.node_type ≡ terminal
PrimaryFits g n (some _) none = ⊥
PrimaryFits g n (some _) (some t) =
    (t.source_node_id ≡ n.node_id) × (t.transition_effect ≡ advance) × Advances g n t

-- The primary transition that a node names exists, leaves the node, has effect ADVANCE and goes to
-- a higher order index; only a TERMINAL node may name none.
abbrev pub PrimaryRule : WorkflowGraph → NodeDefinition → Type 0
PrimaryRule g n =
    PrimaryFits g n n.primary_advance_transition_id (primary_of g n.primary_advance_transition_id)

abbrev pub NotPrimary : WorkflowGraph → TransitionDefinition → Type 0
NotPrimary g t =
    ForSome (λ n. n.primary_advance_transition_id ≢ some t.transition_id)
      (get (nodes_by_id g) t.source_node_id)

-- A RETURN transition goes to a lower order index, not to a TERMINAL node, and is not primary.
abbrev pub ReturnRule : WorkflowGraph → TransitionDefinition → Type 0
ReturnRule g t =
    t.transition_effect ≡ return
    → ForSome (λ n. n.node_type ≢ terminal) (get (nodes_by_id g) t.target_node_id)
      × ForSome (λ a. ForSome (λ b. b <ℤ a) (get (node_order_indices g) t.target_node_id))
          (get (node_order_indices g) t.source_node_id)
      × NotPrimary g t

-- A TERMINATE transition goes to a TERMINAL node, and is not primary.
abbrev pub TerminateRule : WorkflowGraph → TransitionDefinition → Type 0
TerminateRule g t =
    t.transition_effect ≡ terminate
    → NotPrimary g t × ForSome (λ n. n.node_type ≡ terminal) (get (nodes_by_id g) t.target_node_id)

-- No transition leaves a TERMINAL node.
abbrev pub SinkRule : WorkflowGraph → NodeDefinition → Type 0
SinkRule g n = n.node_type ≡ terminal → All (λ t. t.source_node_id ≢ n.node_id) g.transitions
