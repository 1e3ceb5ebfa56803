-- ===== src/Definition/Reachable/Path.antt =====
-- What the search is meant to compute: the nodes at the end of a directed path.
use svc_workflow_kernel.Prelude.{◌≡◌, ◌↔◌, ◌⊎◌, true, List, [], ◌∷◌, contains, arith}
use svc_workflow_kernel.Definition.Model.{Uuid, TransitionDefinition}
use svc_workflow_kernel.Definition.Reachable.{neighbors}

-- Some transition leads from `a` to `b`.
abbrev pub Edge : List TransitionDefinition → Uuid → Uuid → Type 0
Edge [] a b = ⊥
Edge (t ∷ ts) a b = ((t.source_node_id ≡ a) × (t.target_node_id ≡ b)) ⊎ Edge ts a b

pub data DirectedPath (ts : List TransitionDefinition) (start : Uuid) : Uuid → Type 0 where
  here : DirectedPath ts start start
  step : {a : Uuid} (b : Uuid) → DirectedPath ts start a → Edge ts a b → DirectedPath ts start b

pub neighbors-Edge :
    (ts : List TransitionDefinition) (a b : Uuid)
    → (contains (neighbors ts a) b ≡ true) ↔ Edge ts a b
unfolding neighbors
neighbors-Edge [] a b = (λ h. cc, λ h. absurd h)
neighbors-Edge (t ∷ ts) a b =
    let ih = neighbors-Edge ts a b in (λ h. ground arith, λ h. ground arith)
