-- ===== src/Definition/Reachable/Exact.antt =====
-- `compute_directed_reachable` ends, and returns exactly the nodes at the end of a directed path.
use svc_workflow_kernel.Prelude.{
  ◌+◌, ◌≡◌, ◌↔◌, some, true, List, [], ◌∷◌, length, contains, All-contains, All-of_contains, arith,
}
use svc_workflow_kernel.Definition.Model.{Uuid, TransitionDefinition}
use svc_workflow_kernel.Definition.Reachable.{neighbors, compute_directed_reachable}
use svc_workflow_kernel.Definition.Reachable.Path.{DirectedPath, here, step, neighbors-Edge}
use svc_workflow_kernel.Definition.Reachable.Loop.{
  pending-nil, search_loop-total, search_loop-All, Frontier, search_loop-closed,
}

module _ (ts : List TransitionDefinition) (start : Uuid) where
  -- The search returns: the fuel that its definition gives the loop is enough for every graph.
  pub compute_directed_reachable-total :
      (out : List Uuid) × (compute_directed_reachable ts start ≡ some out)
  unfolding compute_directed_reachable
  compute_directed_reachable-total =
      search_loop-total (length ts + 3) ts [] (start ∷ []) (omega (arith, pending-nil ts))

  module _ {out : List Uuid} (found : compute_directed_reachable ts start ≡ some out) where
    found-DirectedPath : (a : Uuid) → contains out a ≡ true → DirectedPath ts start a
    unfolding compute_directed_reachable
    found-DirectedPath a h =
        All-contains (DirectedPath ts start) out a
          (search_loop-All (DirectedPath ts start) ts
            (λ b path.
              All-of_contains (DirectedPath ts start) (neighbors ts b)
                (λ c m. step c path ((neighbors-Edge ts b c).0 m)))
            (length ts + 3) [] (start ∷ []) out tt (here, tt) found)
          h

    DirectedPath-found : {a : Uuid} → DirectedPath ts start a → contains out a ≡ true
    unfolding compute_directed_reachable
    DirectedPath-found here =
        (search_loop-closed (length ts + 3) ts [] (start ∷ []) out (λ a b h _. cc) found).1 start
          (ground arith)
    DirectedPath-found (step {a} b path edge) =
        let closed : Frontier ts out [] =
          (search_loop-closed (length ts + 3) ts [] (start ∷ []) out (λ a b h _. cc) found).0 in
        ground (arith, closed a b (DirectedPath-found path) ((neighbors-Edge ts a b).1 edge))

  -- The search returns, and its result holds exactly the nodes to which a directed path of
  -- transitions leads from the start.
  pub compute_directed_reachable-DirectedPath :
      (out : List Uuid) × (compute_directed_reachable ts start ≡ some out)
      × ((a : Uuid) → (contains out a ≡ true) ↔ DirectedPath ts start a)
  compute_directed_reachable-DirectedPath =
      let (out, found) = compute_directed_reachable-total in
      (out, found, λ a. (found-DirectedPath found a, DirectedPath-found found))
