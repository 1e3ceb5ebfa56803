-- ===== src/Definition/Graph/Ends.antt =====
-- Where the walk along the trunk leads, when `validate_graph` ends, and when it does not.
use svc_workflow_kernel.Prelude.{
  ℕ, zero, suc, ◌+◌, ◌<◌, ◌≡◌, refl, ◌≢◌, none, some, true, List, [], length, head?, get, arith,
  Option-cases, inl, inr,
}
use svc_workflow_kernel.Enums.{terminal}
use svc_workflow_kernel.Definition.Model.{Uuid, NodeDefinition, WorkflowGraph, ValidationResult}
use svc_workflow_kernel.Definition.Graph.{validate_graph}
use svc_workflow_kernel.Definition.Graph.Nodes.{draft_nodes}
use svc_workflow_kernel.Definition.Graph.References.{nodes_by_id}
use svc_workflow_kernel.Definition.Graph.Trunk.{
  primary_targets, trunk_walk, validate_trunk_reaches_terminal, validate_primary_trunk,
}
use svc_workflow_kernel.Definition.Graph.TrunkWalk.{
  HasTrunk, ReachesTerminal, above-length, trunk_walk-ends, trunk_walk-ReachesTerminal,
  some_of_ne_none,
}
use svc_workflow_kernel.Definition.Graph.CycleWalk.{
  validate_primary_acyclic-total, length-primary_targets,
}
use svc_workflow_kernel.Definition.Graph.Exact.{
  validate_graph-IsWellFormed, reachability-rule, draft_known,
}

module _ (g : WorkflowGraph) (rules : HasTrunk g) where
  trunk_ends : (fuel : ℕ) → length g.nodes < fuel → validate_trunk_reaches_terminal fuel g ≢ none
  unfolding validate_trunk_reaches_terminal
  trunk_ends fuel h = elim (Option-cases (head? (draft_nodes g))) [
    | inl e ↦ ground arith
    | inr (d, e) ↦
        let (n, here) = some_of_ne_none (get (nodes_by_id g) d.node_id) (draft_known g d e) in
        ground (
          arith,
          trunk_walk-ends g rules fuel d d.node_id n here
              (omega (arith, above-length g rules n.order_index g.nodes)),
        )
  ]

  -- In a graph whose primary transitions and endpoints keep their rules, `validate_graph` returns,
  -- for every order of the keys, with fuel for one step more than there are nodes.
  pub validate_graph-ends :
      (keys : List Uuid) (fuel : ℕ)
      → length g.nodes < fuel
      → (r : ValidationResult) × (validate_graph keys fuel g ≡ some r)
  validate_graph-ends keys fuel h = some_of_ne_none (validate_graph keys fuel g) (
      unfold validate_graph validate_primary_trunk in
      let (unreachable, searched, _) = reachability-rule g (head? (draft_nodes g)) refl in
      ground (
        arith,
        searched,
        trunk_ends fuel h,
        validate_primary_acyclic-total (length g.nodes + 3) (primary_targets g) [] keys
            (omega (arith, length-primary_targets g)),
      ))

-- In a graph that is found valid, following primary transitions from the first DRAFT node leads to
-- a TERMINAL node.
pub validate_graph-ReachesTerminal :
    (keys : List Uuid) (fuel : ℕ) (g : WorkflowGraph) {r : ValidationResult}
    → validate_graph keys fuel g ≡ some r
    → r.valid ≡ true
    → (d : NodeDefinition) × (head? (draft_nodes g) ≡ some d) × ReachesTerminal g d.node_id
validate_graph-ReachesTerminal keys fuel g h valid =
    let w = (validate_graph-IsWellFormed keys fuel g h).0 valid in
    let rules : HasTrunk g = record { primaries = w.primaries; endpoints = w.endpoints } in
    let (d, e) = some_of_ne_none (head? (draft_nodes g)) (ground (arith, w.one_draft)) in
    let (n, here) = some_of_ne_none (get (nodes_by_id g) d.node_id) (draft_known g d e) in
    let ends =
      trunk_walk-ends g rules (suc (length g.nodes)) d d.node_id n here
        (omega (arith, above-length g rules n.order_index g.nodes)) in
    (
      d,
      e,
      (trunk_walk-ReachesTerminal g rules (suc (length g.nodes)) d d.node_id (draft_known g d e)
          ends).1,
    )

module _ (g : WorkflowGraph) (Loop : Uuid → Type 0)
    (onward : (c : Uuid)
      → Loop c
      → (n : NodeDefinition) × (next : Uuid) × (get (nodes_by_id g) c ≡ some n)
        × (n.node_type ≢ terminal)
        × (get (primary_targets g) c ≡ some next)
        × (next ≢ c)
        × Loop next) where
  trunk_walk-stuck :
      (fuel : ℕ) (root : NodeDefinition) (c : Uuid)
      → Loop c
      → trunk_walk fuel (nodes_by_id g) (primary_targets g) root c ≡ none
  unfolding trunk_walk
  trunk_walk-stuck zero root c h = refl
  trunk_walk-stuck (suc fuel) root c h =
      let (n, next, here, live, target, away, again) = onward c h in
      ground (arith, here, live, target, away, trunk_walk-stuck fuel root next again)

  -- If the first DRAFT node lies in a set of nodes, none of them TERMINAL, each of which has a
  -- primary target that is another node of the set, `validate_graph` does not return, whatever the
  -- fuel: it reports no error for such a graph.
  pub validate_graph-hangs :
      (d : NodeDefinition)
      → head? (draft_nodes g) ≡ some d
      → Loop d.node_id
      → (keys : List Uuid) (fuel : ℕ) → validate_graph keys fuel g ≡ none
  unfolding validate_graph validate_primary_trunk validate_trunk_reaches_terminal
  validate_graph-hangs d first h keys fuel =
      ground (arith, first, trunk_walk-stuck fuel d d.node_id h)
