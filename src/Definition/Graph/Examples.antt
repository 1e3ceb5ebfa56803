-- ===== src/Definition/Graph/Examples.antt =====
-- The three-node graph of src/domain/definition/graph_tests.rs, a graph whose trunk runs in a
-- circle, and the theorems at these graphs.
use svc_workflow_kernel.Prelude.{
  ℕ, pos, ◌≡◌, refl, ◌≢◌, ◌⊎◌, ◌↔◌, inl, inr, none, some, true, List, [], ◌∷◌, head?, get, contains,
  arith,
}
use svc_workflow_kernel.Enums.{
  NodeType, normal, terminal, workflow_creator, fixed_principal, advance,
}
use svc_workflow_kernel.Definition.Model.{
  Uuid, NodeDefinition, TransitionDefinition, WorkflowGraph, ValidationResult,
}
use svc_workflow_kernel.Definition.Reachable.{
  compute_directed_reachable, search_loop, push_neighbors, neighbors,
}
use svc_workflow_kernel.Definition.Reachable.Path.{DirectedPath}
use svc_workflow_kernel.Definition.Reachable.Exact.{compute_directed_reachable-DirectedPath}
use svc_workflow_kernel.Definition.Graph.{
  unreachable_errors, validate_directed_reachability, validate_graph,
}
use svc_workflow_kernel.Definition.Graph.Nodes.{
  draft_nodes, terminal_nodes, order_errors, validate_node_rules,
}
use svc_workflow_kernel.Definition.Graph.Assignees.{assignee_errors, validate_assignee_rules}
use svc_workflow_kernel.Definition.Graph.Effects.{
  return_errors, terminate_errors, outgoing_errors, validate_return_rules, validate_terminate_rules,
  validate_terminal_outgoing,
}
use svc_workflow_kernel.Definition.Graph.References.{
  nodes_by_id, missing_errors, self_loop_errors, validate_transition_references,
}
use svc_workflow_kernel.Definition.Graph.Trunk.{
  primary_targets, primary_errors, cycle_walk, validate_primary_acyclic, trunk_walk,
  validate_trunk_reaches_terminal, validate_primary_trunk,
}
use svc_workflow_kernel.Definition.Graph.TrunkWalk.{HasTrunk, ReachesTerminal}
use svc_workflow_kernel.Definition.Graph.Exact.{IsWellFormed, validate_graph-IsWellFormed}
use svc_workflow_kernel.Definition.Graph.Ends.{
  validate_graph-ends, validate_graph-ReachesTerminal, validate_graph-hangs,
}

abbrev draft_node : NodeDefinition
draft_node = record {
  node_id = 1;
  node_key = "draft";
  order_index = pos 0;
  node_type = NodeType.draft;
  assignee_ref = some (record { ref_type = workflow_creator; fixed_principal_id = none });
  primary_advance_transition_id = some 11;
}

abbrev normal_node : NodeDefinition
normal_node = record {
  node_id = 2;
  node_key = "dev_self_check";
  order_index = pos 1;
  node_type = normal;
  assignee_ref = some (record { ref_type = fixed_principal; fixed_principal_id = some 7 });
  primary_advance_transition_id = some 12;
}

abbrev terminal_node : NodeDefinition
terminal_node = record {
  node_id = 3;
  node_key = "done";
  order_index = pos 2;
  node_type = terminal;
  assignee_ref = none;
  primary_advance_transition_id = none;
}

abbrev edge : ℕ → ℕ → ℕ → TransitionDefinition
edge id source target = record {
  transition_id = id;
  transition_key = "t";
  source_node_id = source;
  target_node_id = target;
  transition_effect = advance;
}

abbrev valid_graph : WorkflowGraph
valid_graph = record {
  nodes = draft_node ∷ normal_node ∷ terminal_node ∷ [];
  transitions = edge 11 1 2 ∷ edge 12 2 3 ∷ [];
}

abbrev accepted : ValidationResult
accepted = record { valid = true; errors = [] }

valid_graph_passes : validate_graph (3 ∷ 1 ∷ 2 ∷ []) 4 valid_graph ≡ some accepted
unfolding validate_graph validate_primary_trunk validate_primary_acyclic cycle_walk primary_targets
    validate_trunk_reaches_terminal draft_nodes trunk_walk validate_directed_reachability
    compute_directed_reachable search_loop push_neighbors neighbors validate_node_rules
    terminal_nodes order_errors validate_assignee_rules assignee_errors outgoing_errors
    return_errors terminate_errors validate_return_rules validate_terminal_outgoing
    validate_terminate_rules missing_errors self_loop_errors validate_transition_references
    primary_errors unreachable_errors
valid_graph_passes = refl

-- Both transitions of the valid graph have one key; here two nodes have one too.
abbrev repeated_keys : WorkflowGraph
repeated_keys = record {
  nodes = draft_node ∷ record normal_node { node_key = "draft" } ∷ terminal_node ∷ [];
  transitions = edge 11 1 2 ∷ edge 12 2 3 ∷ [];
}

repeated_keys_pass : validate_graph (3 ∷ 1 ∷ 2 ∷ []) 4 repeated_keys ≡ some accepted
unfolding validate_graph validate_primary_trunk validate_primary_acyclic cycle_walk primary_targets
    validate_trunk_reaches_terminal draft_nodes trunk_walk validate_directed_reachability
    compute_directed_reachable search_loop push_neighbors neighbors validate_node_rules
    terminal_nodes order_errors validate_assignee_rules assignee_errors outgoing_errors
    return_errors terminate_errors validate_return_rules validate_terminal_outgoing
    validate_terminate_rules missing_errors self_loop_errors validate_transition_references
    primary_errors unreachable_errors
repeated_keys_pass = refl

-- The trunk leads from the draft to node 3; node 2 is off it and leads to another TERMINAL node.
abbrev beside_trunk : WorkflowGraph
beside_trunk = record {
  nodes =
      record draft_node { primary_advance_transition_id = some 13 }
      ∷ normal_node
      ∷ terminal_node
      ∷ record terminal_node { node_id = 4; node_key = "other"; order_index = pos 3 }
      ∷ [];
  transitions = edge 11 1 2 ∷ edge 12 2 4 ∷ edge 13 1 3 ∷ [];
}

beside_trunk_passes : validate_graph (3 ∷ 1 ∷ 2 ∷ 4 ∷ []) 5 beside_trunk ≡ some accepted
unfolding validate_graph validate_primary_trunk validate_primary_acyclic cycle_walk primary_targets
    validate_trunk_reaches_terminal draft_nodes trunk_walk validate_directed_reachability
    compute_directed_reachable search_loop push_neighbors neighbors validate_node_rules
    terminal_nodes order_errors validate_assignee_rules assignee_errors outgoing_errors
    return_errors terminate_errors validate_return_rules validate_terminal_outgoing
    validate_terminate_rules missing_errors self_loop_errors validate_transition_references
    primary_errors unreachable_errors
beside_trunk_passes = refl

abbrev ring : WorkflowGraph
ring = record {
  nodes = draft_node ∷ normal_node ∷ terminal_node ∷ [];
  transitions = edge 11 1 2 ∷ edge 12 2 1 ∷ [];
}

compute_directed_reachable-DirectedPath_example :
    (out : List Uuid) × (compute_directed_reachable valid_graph.transitions 1 ≡ some out)
    × ((a : Uuid) → (contains out a ≡ true) ↔ DirectedPath valid_graph.transitions 1 a)
compute_directed_reachable-DirectedPath_example =
    compute_directed_reachable-DirectedPath valid_graph.transitions 1

validate_graph-IsWellFormed_example : (accepted.valid ≡ true) ↔ IsWellFormed valid_graph
validate_graph-IsWellFormed_example =
    validate_graph-IsWellFormed (3 ∷ 1 ∷ 2 ∷ []) 4 valid_graph valid_graph_passes

validate_graph-ReachesTerminal_example :
    (d : NodeDefinition) × (head? (draft_nodes valid_graph) ≡ some d)
    × ReachesTerminal valid_graph d.node_id
validate_graph-ReachesTerminal_example =
    validate_graph-ReachesTerminal (3 ∷ 1 ∷ 2 ∷ []) 4 valid_graph valid_graph_passes refl

valid_graph-HasTrunk : HasTrunk valid_graph
valid_graph-HasTrunk = record { primaries = ground arith; endpoints = ground arith }

validate_graph-ends_example :
    (r : ValidationResult) × (validate_graph (2 ∷ 3 ∷ 1 ∷ []) 4 valid_graph ≡ some r)
validate_graph-ends_example =
    validate_graph-ends valid_graph valid_graph-HasTrunk (2 ∷ 3 ∷ 1 ∷ []) 4 (omega arith)

abbrev OnRing : Uuid → Type 0
OnRing c = (c ≡ 1) ⊎ (c ≡ 2)

ring_onward :
    (c : Uuid)
    → OnRing c
    → (n : NodeDefinition) × (next : Uuid) × (get (nodes_by_id ring) c ≡ some n)
      × (n.node_type ≢ terminal)
      × (get (primary_targets ring) c ≡ some next)
      × (next ≢ c)
      × OnRing next
unfolding primary_targets
ring_onward c (inl e) =
    (draft_node, 2, ground arith, (λ p. cc), ground arith, ground arith, inr refl)
ring_onward c (inr e) =
    (normal_node, 1, ground arith, (λ p. cc), ground arith, ground arith, inl refl)

validate_graph-hangs_example : validate_graph (1 ∷ 2 ∷ 3 ∷ []) 1000 ring ≡ none
unfolding draft_nodes
validate_graph-hangs_example =
    validate_graph-hangs ring OnRing ring_onward draft_node refl (inl refl) (1 ∷ 2 ∷ 3 ∷ []) 1000
