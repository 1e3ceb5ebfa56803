-- ===== src/Definition/Reachable.antt =====
-- `compute_directed_reachable` of src/domain/definition/graph_helpers.rs.
pub mod Path
mod Loop
pub mod Exact
use svc_workflow_kernel.Prelude.{
  ℕ, zero, suc, ◌+◌, Option, none, some, Bool, true, false, List, [], ◌∷◌, length, contains, ◌==◌,
  if◌then◌else◌,
}
use svc_workflow_kernel.Definition.Model.{Uuid, TransitionDefinition}

-- The entry of `adj` at a source: the targets of its transitions, in order; no entry is no target.
unfoldable pub neighbors : List TransitionDefinition → Uuid → List Uuid
neighbors [] source = []
neighbors (t ∷ ts) source =
    let rest = neighbors ts source in
    if t.source_node_id == source then t.target_node_id ∷ rest else rest

-- `for &next in neighbors`: the top of the stack is the head of the list.
unfoldable pub push_neighbors : List Uuid → List Uuid → List Uuid → List Uuid
push_neighbors reachable [] stack = stack
push_neighbors reachable (next ∷ rest) stack =
    push_neighbors reachable rest (if contains reachable next then stack else next ∷ stack)

-- `while let Some(current) = stack.pop()`; `none` means that the fuel ran out.
unfoldable pub search_loop :
    ℕ → List TransitionDefinition → List Uuid → List Uuid → Option (List Uuid)
search_loop zero ts reachable stack = none
search_loop (suc fuel) ts reachable [] = some reachable
search_loop (suc fuel) ts reachable (current ∷ stack) = elim (contains reachable current) [
  | true ↦ search_loop fuel ts reachable stack
  | false ↦
      search_loop fuel ts (current ∷ reachable)
        (push_neighbors (current ∷ reachable) (neighbors ts current) stack)
]

unfoldable pub compute_directed_reachable : List TransitionDefinition → Uuid → Option (List Uuid)
compute_directed_reachable ts start = search_loop (length ts + 3) ts [] (start ∷ [])
