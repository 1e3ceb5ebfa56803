-- ===== src/Definition/Graph/Accepts.antt =====
-- Each loop of the validator pushes no error exactly when its rule holds.
use svc_workflow_kernel.Prelude.{
  ℤ, ◌≤◌, ◌≡◌, refl, ◌≢◌, ◌↔◌, true, false, List, [], ◌∷◌, All, length, filter, is_empty, All-of,
  All-imp, All-pair, arith, ◌==◌,
}
use svc_workflow_kernel.Enums.{terminal}
use svc_workflow_kernel.Definition.Model.{Uuid, NodeDefinition, TransitionDefinition, WorkflowGraph}
use svc_workflow_kernel.Definition.Graph.Nodes.{
  draft_nodes, terminal_nodes, contains_order, order_errors, validate_node_rules,
}
use svc_workflow_kernel.Definition.Graph.Assignees.{assignee_errors}
use svc_workflow_kernel.Definition.Graph.References.{missing_errors, self_loop_errors}
use svc_workflow_kernel.Definition.Graph.Trunk.{primary_errors}
use svc_workflow_kernel.Definition.Graph.Effects.{return_errors, terminate_errors, outgoing_errors}
use svc_workflow_kernel.Definition.Graph.Rules.{
  AssigneeRule, DistinctOrders, EndpointsRule, PrimaryRule, ReturnRule, TerminateRule, SinkRule,
}

pub assignee_errors-rule :
    (n : NodeDefinition) → (assignee_errors n ≡ []) ↔ AssigneeRule n.node_type n.assignee_ref
unfolding assignee_errors
assignee_errors-rule n = (λ h. ground arith, λ h. ground arith)

module _ (g : WorkflowGraph) (t : TransitionDefinition) where
  pub missing_errors-rule : (missing_errors g t ≡ []) ↔ EndpointsRule g t
  unfolding missing_errors
  missing_errors-rule = (λ h. ground arith, λ h. ground arith)

  pub self_loop_errors-rule : (self_loop_errors t ≡ []) ↔ (t.source_node_id ≢ t.target_node_id)
  unfolding self_loop_errors
  self_loop_errors-rule = (λ h. ground arith, λ h. ground arith)

  pub return_errors-rule : (return_errors g t ≡ []) ↔ ReturnRule g t
  unfolding return_errors
  return_errors-rule = (λ h e. ground arith, λ h. ground arith)

  pub terminate_errors-rule : (terminate_errors g t ≡ []) ↔ TerminateRule g t
  unfolding terminate_errors
  terminate_errors-rule = (λ h e. ground arith, λ h. ground arith)

module _ (g : WorkflowGraph) (n : NodeDefinition) where
  pub primary_errors-rule : (primary_errors g n ≡ []) ↔ PrimaryRule g n
  unfolding primary_errors
  primary_errors-rule = (λ h. ground arith, λ h. ground arith)

no_sources :
    (id : Uuid) (ts : List TransitionDefinition)
    → (is_empty (filter (λ t. t.source_node_id == id) ts) ≡ true)
      ↔ All (λ t. t.source_node_id ≢ id) ts
no_sources id [] = (λ h. tt, λ h. refl)
no_sources id (t ∷ ts) =
    let (to, from) = no_sources id ts in
    (λ h. (ground arith, to (ground arith)), λ h. ground (arith, from h.1))

pub outgoing_errors-rule :
    (g : WorkflowGraph) (n : NodeDefinition) → (outgoing_errors g n ≡ []) ↔ SinkRule g n
unfolding outgoing_errors
outgoing_errors-rule g n =
    let (to, from) = no_sources n.node_id g.transitions in
    (λ h e. to (ground arith), λ h. ground (arith, λ (e : n.node_type ≡ terminal). from (h e)))

-- The loop over the order indices, with the indices already seen.
order_errors-distinct :
    (seen : List ℤ) (ns : List NodeDefinition)
    → (order_errors seen ns ≡ [])
      ↔ (All (λ n. contains_order seen n.order_index ≡ false) ns × DistinctOrders ns)
unfolding order_errors
order_errors-distinct seen [] = (λ h. (tt, tt), λ h. refl)
order_errors-distinct seen (n ∷ ns) =
    let (to, from) = order_errors-distinct (n.order_index ∷ seen) ns in
    (
      λ h.
          let (fresh, distinct) = to (ground arith) in
          (
            (ground arith, All-imp _ _ (λ m e. ground arith) ns fresh),
            (All-imp _ _ (λ m e. ground arith) ns fresh, distinct),
          ),
      λ h.
          let both = All-pair _ _ ns h.1.0 h.0.1 in
          ground (arith, from (All-imp _ _ (λ m e. ground arith) ns both, h.1.1)),
    )

pub validate_node_rules-rule :
    (g : WorkflowGraph)
    → (validate_node_rules g ≡ []) ↔ (
        (2 ≤ length g.nodes)
        × (length (draft_nodes g) ≡ 1)
        × (1 ≤ length (terminal_nodes g))
        × DistinctOrders g.nodes)
unfolding validate_node_rules
validate_node_rules-rule g =
    let (to, from) = order_errors-distinct [] g.nodes in
    (
      λ h.
          let last : order_errors [] g.nodes ≡ [] = ground arith in
          (ground arith, ground arith, ground arith, (to last).1),
      λ h. ground (arith, from (All-of _ (λ n. refl) g.nodes, h.3)),
    )
