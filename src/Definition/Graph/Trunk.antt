-- ===== src/Definition/Graph/Trunk.antt =====
-- `validate_primary_trunk` of src/domain/definition/graph/transition_validation.rs, with its two
-- walks along the primary transitions.
use svc_workflow_kernel.Prelude.{
  ℕ, ℤ, zero, suc, ◌+◌, Option, none, some, Bool, true, false, not, List, [], ◌∷◌, ◌++◌, get, head?,
  length, contains, flat_map, push_if, lebℤ, ◌==◌, if◌then◌else◌,
}
use svc_workflow_kernel.Enums.{TransitionEffect, advance, is_terminal}
use svc_workflow_kernel.Definition.Model.{
  Uuid, NodeDefinition, TransitionDefinition, WorkflowGraph, GraphValidationError,
  primary_not_from_node, primary_not_advance, primary_not_advancing, primary_transition_missing,
  terminal_has_primary, missing_primary, primary_cycle, primary_trunk_no_terminal,
}
use svc_workflow_kernel.Definition.Graph.Nodes.{draft_nodes}
use svc_workflow_kernel.Definition.Graph.References.{
  nodes_by_id, transitions_by_id, node_order_indices,
}

abbrev pub is_advance : TransitionEffect → Bool
is_advance advance = true
is_advance _ = false

-- The transition that a node names as its primary one, where the node names one that exists.
abbrev pub primary_of : WorkflowGraph → Option Uuid → Option TransitionDefinition
primary_of g none = none
primary_of g (some pt_id) = get (transitions_by_id g) pt_id

-- What the loop body inserts into `primary_targets`.
abbrev pub primary_entry : NodeDefinition → Option TransitionDefinition → List (Uuid × Uuid)
primary_entry node none = []
primary_entry node (some t) =
    push_if (not (is_terminal node.node_type)) (node.node_id, t.target_node_id)

unfoldable pub primary_targets : WorkflowGraph → List (Uuid × Uuid)
primary_targets g =
    flat_map (λ n. primary_entry n (primary_of g n.primary_advance_transition_id)) g.nodes

abbrev does_not_advance : NodeDefinition → Option ℤ → Bool
does_not_advance node none = false
does_not_advance node (some target_order) = lebℤ target_order node.order_index

abbrev match_primary :
    WorkflowGraph
    → NodeDefinition
    → Option Uuid
    → Option TransitionDefinition
    → List GraphValidationError
match_primary g node none _ =
    push_if (not (is_terminal node.node_type))
      (record { code = missing_primary; subject = node.node_key })
match_primary g node (some pt_id) (some t) =
    push_if (not (t.source_node_id == node.node_id))
      (record { code = primary_not_from_node; subject = node.node_key })
    ++ (push_if (not (is_advance t.transition_effect))
          (record { code = primary_not_advance; subject = node.node_key })
        ++ push_if (does_not_advance node (get (node_order_indices g) t.target_node_id))
            (record { code = primary_not_advancing; subject = node.node_key }))
match_primary g node (some pt_id) none =
    if not (is_terminal node.node_type)
    then record { code = primary_transition_missing; subject = node.node_key } ∷ []
    else record { code = terminal_has_primary; subject = node.node_key } ∷ []

-- What the loop body pushes.
unfoldable pub primary_errors : WorkflowGraph → NodeDefinition → List GraphValidationError
primary_errors g node =
    match_primary g node node.primary_advance_transition_id
      (primary_of g node.primary_advance_transition_id)

-- The `loop` of `validate_primary_acyclic`: the path that was walked, and whether it closed a cycle.
-- `in_path` has the members of `path` while a walk lasts, and none between walks.
unfoldable pub cycle_walk :
    ℕ → List (Uuid × Uuid) → List Uuid → List Uuid → Uuid → Option (List Uuid × Bool)
cycle_walk zero targets visited path current = none
cycle_walk (suc fuel) targets visited path current = elim (contains path current) [
  | true ↦ some (path, true)
  | false ↦ elim (contains visited current) [
    | true ↦ some (path, false)
    | false ↦ elim (get targets current) [
      | none ↦ some (current ∷ path, false)
      | some next ↦ cycle_walk fuel targets visited (current ∷ path) next
    ]
  ]
]

-- The subject is "" for a message that lists the keys along the cycle.
unfoldable pub validate_primary_acyclic :
    ℕ → List (Uuid × Uuid) → List Uuid → List Uuid → Option (List GraphValidationError)
validate_primary_acyclic fuel targets visited [] = some []
validate_primary_acyclic fuel targets visited (start_node ∷ keys) =
    elim (contains visited start_node) [
      | true ↦ validate_primary_acyclic fuel targets visited keys
      | false ↦ elim (cycle_walk fuel targets visited [] start_node) [
        | none ↦ none
        | some (path, cycle) ↦ elim (validate_primary_acyclic fuel targets (path ++ visited) keys) [
          | none ↦ none
          | some errors ↦
              some (push_if cycle (record { code = primary_cycle; subject = "" }) ++ errors)
        ]
      ]
    ]

-- The `while let` of `validate_trunk_reaches_terminal`.
unfoldable pub trunk_walk :
    ℕ
    → List (Uuid × NodeDefinition)
    → List (Uuid × Uuid)
    → NodeDefinition
    → Uuid
    → Option (List GraphValidationError)
trunk_walk zero by_id targets draft current = none
trunk_walk (suc fuel) by_id targets draft current = elim (get by_id current) [
  | none ↦ some []
  | some node ↦ elim (is_terminal node.node_type) [
    | true ↦ some []
    | false ↦ elim (get targets current) [
      | none ↦ some (record { code = primary_trunk_no_terminal; subject = draft.node_key } ∷ [])
      | some next ↦ elim (next == current) [
        | true ↦ some []
        | false ↦ trunk_walk fuel by_id targets draft next
      ]
    ]
  ]
]

trunk_from : ℕ → WorkflowGraph → Option NodeDefinition → Option (List GraphValidationError)
trunk_from fuel g none = some []
trunk_from fuel g (some draft) =
    trunk_walk fuel (nodes_by_id g) (primary_targets g) draft draft.node_id

unfoldable pub validate_trunk_reaches_terminal :
    ℕ → WorkflowGraph → Option (List GraphValidationError)
unfolding trunk_from
validate_trunk_reaches_terminal fuel g = trunk_from fuel g (head? (draft_nodes g))

unfoldable pub validate_primary_trunk :
    List Uuid → ℕ → WorkflowGraph → Option (List GraphValidationError)
validate_primary_trunk keys fuel g =
    elim (validate_primary_acyclic (length g.nodes + 3) (primary_targets g) [] keys) [
      | none ↦ none
      | some cycles ↦ elim (validate_trunk_reaches_terminal fuel g) [
        | none ↦ none
        | some trunk ↦ some (flat_map (primary_errors g) g.nodes ++ (cycles ++ trunk))
      ]
    ]
