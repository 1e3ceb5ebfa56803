-- ===== src/Definition/Graph/Exact.antt =====
-- `validate_graph` accepts exactly the well-formed graphs.
use svc_workflow_kernel.Prelude.{
  ℕ, ◌+◌, ◌≤◌, ◌≡◌, refl, sym, ap, ◌∙◌, ◌≢◌, ◌↔◌, Option, none, some, true, List, [], ◌∷◌, ◌++◌,
  All, All-imp, contains, get, head?, is_empty, length, flat_map, filter, map, flat_map-eq_nil,
  append-eq_nil, is_empty_iff, arith, Bool-cases, Option-cases, inl, inr,
}
use svc_workflow_kernel.Enums.{is_draft}
use svc_workflow_kernel.Definition.Model.{
  Uuid, NodeDefinition, WorkflowGraph, GraphValidationError, ValidationResult,
}
use svc_workflow_kernel.Definition.Reachable.Path.{DirectedPath}
use svc_workflow_kernel.Definition.Reachable.Exact.{compute_directed_reachable-DirectedPath}
use svc_workflow_kernel.Definition.Graph.{
  unreachable_errors, validate_directed_reachability, validate_graph,
}
use svc_workflow_kernel.Definition.Graph.Nodes.{draft_nodes, terminal_nodes, validate_node_rules}
use svc_workflow_kernel.Definition.Graph.Assignees.{validate_assignee_rules}
use svc_workflow_kernel.Definition.Graph.References.{
  nodes_by_id, missing_errors, self_loop_errors, validate_transition_references,
}
use svc_workflow_kernel.Definition.Graph.Trunk.{
  primary_errors, primary_targets, validate_primary_acyclic, validate_trunk_reaches_terminal,
  validate_primary_trunk,
}
use svc_workflow_kernel.Definition.Graph.Effects.{
  validate_return_rules, validate_terminate_rules, validate_terminal_outgoing,
}
use svc_workflow_kernel.Definition.Graph.Rules.{
  AssigneeRule, DistinctOrders, EndpointsRule, PrimaryRule, ReturnRule, TerminateRule, SinkRule,
  ForSome,
}
use svc_workflow_kernel.Definition.Graph.Accepts.{
  assignee_errors-rule, missing_errors-rule, self_loop_errors-rule, return_errors-rule,
  terminate_errors-rule, primary_errors-rule, outgoing_errors-rule, validate_node_rules-rule,
}
use svc_workflow_kernel.Definition.Graph.TrunkWalk.{HasTrunk, trunk_walk-ReachesTerminal}
use svc_workflow_kernel.Definition.Graph.CycleWalk.{validate_primary_acyclic-none}

-- The structural rules on a graph that the validator sees. That node keys and transition keys are
-- unique in a version is not among them: unique indexes of the tables keep it. Nor is it that every
-- node lies on the primary trunk or leads to it.
pub record IsWellFormed (g : WorkflowGraph) : Type 0 where
  pub two_nodes : 2 ≤ length g.nodes
  pub one_draft : length (draft_nodes g) ≡ 1
  pub some_terminal : 1 ≤ length (terminal_nodes g)
  pub distinct : DistinctOrders g.nodes
  pub assignees : All (λ n. AssigneeRule n.node_type n.assignee_ref) g.nodes
  pub endpoints : All (EndpointsRule g) g.transitions
  pub no_loops : All (λ t. t.source_node_id ≢ t.target_node_id) g.transitions
  pub primaries : All (PrimaryRule g) g.nodes
  pub reachable :
      ForSome
        (λ d. All (λ n. DirectedPath g.transitions d.node_id n.node_id) g.nodes)
        (head? (draft_nodes g))
  pub returns : All (ReturnRule g) g.transitions
  pub terminates : All (TerminateRule g) g.transitions
  pub sinks : All (SinkRule g) g.nodes

-- The errors of the loops, in the order of `validate_graph`, are all empty if their sequence is.
nil_parts :
    {A : Type 0} (a b c d e f h i j k l : List A)
    → (a ++ (b ++ ((c ++ d) ++ ((e ++ (f ++ h)) ++ (i ++ (j ++ (k ++ l)))))) ≡ []) ↔ (
        ((a ≡ []) × (b ≡ []))
        × ((c ≡ []) × (d ≡ []))
        × ((e ≡ []) × (f ≡ []) × (h ≡ []))
        × (i ≡ [])
        × ((j ≡ []) × (k ≡ []) × (l ≡ [])))
nil_parts a b c d e f h i j k l = (
  λ p.
      let (pa, p1) = (append-eq_nil a _).0 p in
      let (pb, p2) = (append-eq_nil b _).0 p1 in
      let (pcd, p3) = (append-eq_nil (c ++ d) _).0 p2 in
      let (pefh, p4) = (append-eq_nil (e ++ (f ++ h)) _).0 p3 in
      let (pi, p5) = (append-eq_nil i _).0 p4 in
      let (pj, p6) = (append-eq_nil j _).0 p5 in
      let (pe, pfh) = (append-eq_nil e _).0 pefh in
      (
        (pa, pb),
        (append-eq_nil c d).0 pcd,
        (pe, ((append-eq_nil f h).0 pfh).0, ((append-eq_nil f h).0 pfh).1),
        pi,
        (pj, ((append-eq_nil k l).0 p6).0, ((append-eq_nil k l).0 p6).1),
      ),
  λ p. rw (p.0.0, p.0.1, p.1.0, p.1.1, p.2.0, p.2.1, p.2.2, p.3, p.4.0, p.4.1, p.4.2) refl,
)

module _ (g : WorkflowGraph) where
  assignees-rule :
      (validate_assignee_rules g ≡ []) ↔ All (λ n. AssigneeRule n.node_type n.assignee_ref) g.nodes
  unfolding validate_assignee_rules
  assignees-rule = flat_map-eq_nil _ _ assignee_errors-rule g.nodes

  missing-rule :
      (flat_map (missing_errors g) g.transitions ≡ []) ↔ All (EndpointsRule g) g.transitions
  missing-rule = flat_map-eq_nil _ _ (missing_errors-rule g) g.transitions

  loops-rule :
      (flat_map self_loop_errors g.transitions ≡ [])
      ↔ All (λ t. t.source_node_id ≢ t.target_node_id) g.transitions
  loops-rule = flat_map-eq_nil _ _ (self_loop_errors-rule g) g.transitions

  primaries-rule : (flat_map (primary_errors g) g.nodes ≡ []) ↔ All (PrimaryRule g) g.nodes
  primaries-rule = flat_map-eq_nil _ _ (primary_errors-rule g) g.nodes

  returns-rule : (validate_return_rules g ≡ []) ↔ All (ReturnRule g) g.transitions
  unfolding validate_return_rules
  returns-rule = flat_map-eq_nil _ _ (return_errors-rule g) g.transitions

  terminates-rule : (validate_terminate_rules g ≡ []) ↔ All (TerminateRule g) g.transitions
  unfolding validate_terminate_rules
  terminates-rule = flat_map-eq_nil _ _ (terminate_errors-rule g) g.transitions

  sinks-rule : (validate_terminal_outgoing g ≡ []) ↔ All (SinkRule g) g.nodes
  unfolding validate_terminal_outgoing
  sinks-rule = flat_map-eq_nil _ _ (outgoing_errors-rule g) g.nodes

  unreachable-rule :
      (reachable : List Uuid) (n : NodeDefinition)
      → (unreachable_errors reachable n ≡ []) ↔ (contains reachable n.node_id ≡ true)
  unfolding unreachable_errors
  unreachable-rule reachable n = (λ h. ground arith, λ h. ground arith)

  -- The reachability check always ends, and accepts when every node is at the end of a path.
  pub reachability-rule :
      (d : Option NodeDefinition)
      → head? (draft_nodes g) ≡ d
      → (errors : List GraphValidationError) × (validate_directed_reachability g ≡ some errors)
        × ((errors ≡ [])
            ↔ ForSome (λ d. All (λ n. DirectedPath g.transitions d.node_id n.node_id) g.nodes) d)
  unfolding validate_directed_reachability
  reachability-rule none e = ([], ground arith, (λ _. tt, λ _. refl))
  reachability-rule (some d) e =
      let (out, found, exact) = compute_directed_reachable-DirectedPath g.transitions d.node_id in
      let (to, from) = flat_map-eq_nil _ _ (unreachable-rule out) g.nodes in
      (
        flat_map (unreachable_errors out) g.nodes,
        ground (arith, found),
        (
          λ h. All-imp _ _ (λ n. (exact n.node_id).0) g.nodes (to h),
          λ h. from (All-imp _ _ (λ n. (exact n.node_id).1) g.nodes h),
        ),
      )

  -- The first DRAFT node is a node of the graph.
  pub draft_known :
      (d : NodeDefinition) → head? (draft_nodes g) ≡ some d → get (nodes_by_id g) d.node_id ≢ none
  unfolding draft_nodes
  draft_known d = go g.nodes
    where
      go :
          (ns : List NodeDefinition)
          → head? (filter (λ n. is_draft n.node_type) ns) ≡ some d
          → get (map (λ n. (n.node_id, n)) ns) d.node_id ≢ none
      go [] h = cc
      go (n ∷ ns) h = elim (Bool-cases (is_draft n.node_type)) [
        | inl e ↦ let same : n ≡ d = ground arith in ground arith
        | inr e ↦ ground (arith, go ns)
      ]

  trunk-nil :
      HasTrunk g
      → (fuel : ℕ) {errors : List GraphValidationError}
      → validate_trunk_reaches_terminal fuel g ≡ some errors
      → errors ≡ []
  unfolding validate_trunk_reaches_terminal
  trunk-nil rules fuel h = elim (Option-cases (head? (draft_nodes g))) [
    | inl e ↦ ground arith
    | inr (d, e) ↦
        (trunk_walk-ReachesTerminal g rules fuel d d.node_id (draft_known d e) (ground arith)).0
  ]

  module _ (keys : List Uuid) (fuel : ℕ) {cycles trunk unreachable : List GraphValidationError}
      {r : ValidationResult} (returns : validate_graph keys fuel g ≡ some r)
      (acyclic : validate_primary_acyclic (length g.nodes + 3) (primary_targets g) [] keys
        ≡ some cycles)
      (walked : validate_trunk_reaches_terminal fuel g ≡ some trunk)
      (searched : validate_directed_reachability g ≡ some unreachable) where
    returned :
        r.errors
        ≡ validate_node_rules g
          ++ (validate_assignee_rules g
              ++ (validate_transition_references g
                  ++ ((flat_map (primary_errors g) g.nodes ++ (cycles ++ trunk))
                      ++ (unreachable
                          ++ (validate_return_rules g
                              ++ (validate_terminate_rules g ++ validate_terminal_outgoing g))))))
    unfolding validate_graph validate_primary_trunk
    returned =
        ap (λ o. elim o [ none ↦ [] | some x ↦ x.errors ]) (sym returns)
        ∙ rw (acyclic, walked, searched) refl

    valid_lem : r.valid ≡ is_empty r.errors
    unfolding validate_graph validate_primary_trunk
    valid_lem =
        ap (λ o. elim o [ none ↦ true | some x ↦ x.valid ]) (sym returns)
        ∙ rw (returned, acyclic, walked, searched) refl

    -- The result is valid exactly when every loop pushed nothing.
    valid-nil : (r.valid ≡ true) ↔ (
        ((validate_node_rules g ≡ []) × (validate_assignee_rules g ≡ []))
        × ((flat_map (missing_errors g) g.transitions ≡ [])
            × (flat_map self_loop_errors g.transitions ≡ []))
        × ((flat_map (primary_errors g) g.nodes ≡ []) × (cycles ≡ []) × (trunk ≡ []))
        × (unreachable ≡ [])
        × ((validate_return_rules g ≡ [])
            × (validate_terminate_rules g ≡ [])
            × (validate_terminal_outgoing g ≡ [])))
    unfolding validate_transition_references
    valid-nil =
        let (to, from) =
          nil_parts (validate_node_rules g) (validate_assignee_rules g)
            (flat_map (missing_errors g) g.transitions) (flat_map self_loop_errors g.transitions)
            (flat_map (primary_errors g) g.nodes) cycles trunk unreachable (validate_return_rules g)
            (validate_terminate_rules g) (validate_terminal_outgoing g) in
        let (empty_to, empty_from) = is_empty_iff r.errors in
        (
          λ h. to (sym returned ∙ empty_to (sym valid_lem ∙ h)),
          λ h. valid_lem ∙ empty_from (returned ∙ from h),
        )

-- Whatever the order of the map's keys and the fuel, when the validator returns, it returns
-- `valid` exactly for the graphs that keep the structural rules of `IsWellFormed`, which do not ask
-- that node keys or transition keys differ, nor that every node leads to the primary trunk.
pub validate_graph-IsWellFormed :
    (keys : List Uuid) (fuel : ℕ) (g : WorkflowGraph) {r : ValidationResult}
    → validate_graph keys fuel g ≡ some r
    → (r.valid ≡ true) ↔ IsWellFormed g
unfolding validate_graph validate_primary_trunk
validate_graph-IsWellFormed keys fuel g h =
    let (unreachable, searched, reach) = reachability-rule g (head? (draft_nodes g)) refl in
    elim (Option-cases
      (validate_primary_acyclic (length g.nodes + 3) (primary_targets g) [] keys)) [
        | inl stuck ↦ ground arith
        | inr (cycles, hc) ↦ elim (Option-cases (validate_trunk_reaches_terminal fuel g)) [
          | inl stuck ↦ ground arith
          | inr (trunk, ht) ↦
              let (to, from) = valid-nil g keys fuel h hc ht searched in
              (
                λ valid.
                    let (nodes, references, primary, reaches, effects) = to valid in
                    let rule = (validate_node_rules-rule g).0 nodes.0 in
                    record {
                      two_nodes = rule.0;
                      one_draft = rule.1;
                      some_terminal = rule.2;
                      distinct = rule.3;
                      assignees = (assignees-rule g).0 nodes.1;
                      endpoints = (missing-rule g).0 references.0;
                      no_loops = (loops-rule g).0 references.1;
                      primaries = (primaries-rule g).0 primary.0;
                      reachable = reach.0 reaches;
                      returns = (returns-rule g).0 effects.0;
                      terminates = (terminates-rule g).0 effects.1;
                      sinks = (sinks-rule g).0 effects.2;
                    },
                λ w.
                    let rules : HasTrunk g = record {
                      primaries = w.primaries;
                      endpoints = w.endpoints;
                    } in
                    from (
                      (
                        (validate_node_rules-rule g).1
                            (w.two_nodes, w.one_draft, w.some_terminal, w.distinct),
                        (assignees-rule g).1 w.assignees,
                      ),
                      ((missing-rule g).1 w.endpoints, (loops-rule g).1 w.no_loops),
                      (
                        (primaries-rule g).1 w.primaries,
                        validate_primary_acyclic-none g rules w.sinks (length g.nodes + 3) [] keys
                            cycles hc,
                        trunk-nil g rules fuel ht,
                      ),
                      reach.1 w.reachable,
                      (
                        (returns-rule g).1 w.returns,
                        (terminates-rule g).1 w.terminates,
                        (sinks-rule g).1 w.sinks,
                      ),
                    ),
              )
        ]
      ]
