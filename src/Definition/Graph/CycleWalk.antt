-- ===== src/Definition/Graph/CycleWalk.antt =====
-- `validate_primary_acyclic` ends on every graph, and finds no cycle where each primary transition
-- goes to a higher order index.
use svc_workflow_kernel.Prelude.{
  ℕ, zero, suc, ◌≤◌, ◌<◌, ◌≡◌, refl, ◌≢◌, ◌<ℤ◌, Option, none, some, Bool, false, List, [], ◌∷◌,
  ◌++◌, All, All-imp, All-append, All-push_if, not, subst, get-member, All-contains, contains, get,
  get-All, length, flat_map, arith, Bool-cases, Option-cases, inl, inr, if◌then◌else◌,
}
use svc_workflow_kernel.Enums.{is_terminal}
use svc_workflow_kernel.Definition.Model.{
  Uuid, NodeDefinition, TransitionDefinition, WorkflowGraph, GraphValidationError,
}
use svc_workflow_kernel.Definition.Graph.References.{nodes_by_id}
use svc_workflow_kernel.Definition.Graph.Trunk.{
  primary_entry, primary_of, primary_targets, cycle_walk, validate_primary_acyclic,
}
use svc_workflow_kernel.Definition.Graph.Rules.{PrimaryRule, SinkRule}
use svc_workflow_kernel.Definition.Graph.TrunkWalk.{
  HasTrunk, trunk_step, entry, targets-none, fits_primary, primary_member, NodeType-terminal,
}

-- The keys that the walk has not yet taken.
untaken : List Uuid → List (Uuid × Uuid) → ℕ
untaken path [] = 0
untaken path (e ∷ es) = let rest = untaken path es in if contains path e.0 then rest else suc rest

untaken-length : (path : List Uuid) (es : List (Uuid × Uuid)) → untaken path es ≤ length es
unfolding untaken
untaken-length path [] = omega arith
untaken-length path (e ∷ es) = ground (arith, untaken-length path es)

untaken-cons :
    (path : List Uuid) (c : Uuid) (es : List (Uuid × Uuid))
    → untaken (c ∷ path) es ≤ untaken path es
unfolding untaken
untaken-cons path c [] = omega arith
untaken-cons path c (e ∷ es) = ground (arith, untaken-cons path c es)

untaken-lt :
    (path : List Uuid) (c next : Uuid) (es : List (Uuid × Uuid))
    → get es c ≡ some next
    → contains path c ≡ false
    → untaken (c ∷ path) es < untaken path es
unfolding untaken
untaken-lt path c next [] h new = cc
untaken-lt path c next ((k, v) ∷ es) h new = elim (Option-cases (get es c)) [
  | inl e ↦ let same : k ≡ c = ground arith in ground (arith, untaken-cons path c es)
  | inr e ↦ ground (arith, untaken-lt path c e.0 es e.1 new)
]

cycle_walk-total :
    (fuel : ℕ) (targets : List (Uuid × Uuid)) (visited path : List Uuid) (c : Uuid)
    → untaken path targets < fuel
    → cycle_walk fuel targets visited path c ≢ none
unfolding cycle_walk
cycle_walk-total zero targets visited path c h = absurd (omega arith)
cycle_walk-total (suc fuel) targets visited path c h = elim (Option-cases (get targets c)) [
  | inl e ↦ ground arith
  | inr e ↦ ground (
    arith,
    untaken-lt path c e.0 targets e.1,
    cycle_walk-total fuel targets visited (c ∷ path) e.0,
  )
]

-- The loop over the keys ends, whatever the keys and the targets, with more fuel than targets.
pub validate_primary_acyclic-total :
    (fuel : ℕ) (targets : List (Uuid × Uuid)) (visited keys : List Uuid)
    → length targets < fuel
    → validate_primary_acyclic fuel targets visited keys ≢ none
unfolding validate_primary_acyclic
validate_primary_acyclic-total fuel targets visited [] h = ground arith
validate_primary_acyclic-total fuel targets visited (k ∷ keys) h =
    elim (Option-cases (cycle_walk fuel targets visited [] k)) [
      | inl e ↦
          absurd (
            cycle_walk-total fuel targets visited [] k (omega (arith, untaken-length [] targets)) e)
      | inr e ↦ ground (
        arith,
        e.1,
        validate_primary_acyclic-total fuel targets visited keys,
        validate_primary_acyclic-total fuel targets (e.0.0 ++ visited) keys,
      )
    ]

pub length-primary_targets : (g : WorkflowGraph) → length (primary_targets g) ≤ length g.nodes
unfolding primary_targets
length-primary_targets g = go g.nodes
  where
    go : (ns : List NodeDefinition) → length (flat_map (entry g) ns) ≤ length ns
    go [] = omega arith
    go (n ∷ ns) = ground (arith, go ns)

module _ (g : WorkflowGraph) (rules : HasTrunk g) (sinks : All (SinkRule g) g.nodes) where
  abbrev HasSource : Uuid × Uuid → Type 0
  HasSource e = ¬ All (λ t. t.source_node_id ≢ e.0) g.transitions

  entry-HasSource :
      (n : NodeDefinition) (o : Option TransitionDefinition)
      → PrimaryRule g n
      → primary_of g n.primary_advance_transition_id ≡ o
      → All HasSource (primary_entry n o)
  entry-HasSource n none fits e = tt
  entry-HasSource n (some t) fits e =
      All-push_if HasSource (not (is_terminal n.node_type)) (n.node_id, t.target_node_id)
        λ live none_leaves.
          let (t', same, from, _) =
            fits_primary g n n.primary_advance_transition_id
              (primary_of g n.primary_advance_transition_id) fits (ground arith) in
          primary_member g (λ t. t.source_node_id ≢ n.node_id) n.primary_advance_transition_id
            none_leaves same from

  entries-HasSource :
      (ns : List NodeDefinition) → All (PrimaryRule g) ns → All HasSource (flat_map (entry g) ns)
  entries-HasSource [] h = tt
  entries-HasSource (n ∷ ns) h =
      All-append HasSource (entry g n) (flat_map (entry g) ns)
        (entry-HasSource n (primary_of g n.primary_advance_transition_id) h.0 refl)
        (entries-HasSource ns h.1)

  -- Both nodes exist, and the first has the lower order index.
  abbrev Below : Uuid → Uuid → Type 0
  Below a b =
      (n : NodeDefinition) × (m : NodeDefinition) × (get (nodes_by_id g) a ≡ some n)
      × (get (nodes_by_id g) b ≡ some m)
      × (n.order_index <ℤ m.order_index)

  target-Below : (c next : Uuid) → get (primary_targets g) c ≡ some next → Below c next
  unfolding primary_targets
  target-Below c next h = elim (Option-cases (get (nodes_by_id g) c)) [
    | inl e ↦ absurd (clash (targets-none g g.nodes c e))
    | inr (n, e) ↦ elim (NodeType-terminal n.node_type) [
      | inl dead ↦
          let (sink, same) = get-member (λ n. n.node_id) (SinkRule g) g.nodes c sinks e in
          absurd (
            get-All (λ k v. HasSource (k, v)) (primary_targets g) c next
              (entries-HasSource g.nodes rules.primaries) h
              (subst (λ k. All (λ t. t.source_node_id ≢ k) g.transitions) same (sink dead)))
      | inr live ↦
          let s = trunk_step g rules c n e live in
          (n, s.next, e, ground (arith, s.target, s.arrives), s.higher)
    ]
  ]
    where
      clash : get (primary_targets g) c ≡ none → ⊥
      clash e = cc

  Below-trans : (a b c : Uuid) → Below a b → Below b c → Below a c
  Below-trans a b c (n, m, hn, hm, lt) (m', k, hm', hk, lt') =
      let same : m ≡ m' = ground arith in (n, k, hn, hk, ground arith)

  cycle_walk-none :
      (fuel : ℕ) (visited path : List Uuid) (c : Uuid) (p : List Uuid) (b : Bool)
      → All (λ a. Below a c) path
      → cycle_walk fuel (primary_targets g) visited path c ≡ some (p, b)
      → b ≡ false
  unfolding cycle_walk
  cycle_walk-none zero visited path c p b h e = cc
  cycle_walk-none (suc fuel) visited path c p b h e = elim (Bool-cases (contains path c)) [
    | inl closed ↦
        let (n, m, hn, hm, lt) = All-contains (λ a. Below a c) path c h closed in ground arith
    | inr open_ ↦ elim (Option-cases (get (primary_targets g) c)) [
      | inl stop ↦ ground arith
      | inr (next, found) ↦
          let step = target-Below c next found in
          ground (
            arith,
            cycle_walk-none fuel visited (c ∷ path) next p b (
              step,
              All-imp (λ a. Below a c) (λ a. Below a next) (λ a x. Below-trans a c next x step) path
                  h,
            ),
          )
    ]
  ]

  -- Whatever the keys, no cycle is reported.
  pub validate_primary_acyclic-none :
      (fuel : ℕ) (visited keys : List Uuid) (errors : List GraphValidationError)
      → validate_primary_acyclic fuel (primary_targets g) visited keys ≡ some errors
      → errors ≡ []
  unfolding validate_primary_acyclic
  validate_primary_acyclic-none fuel visited [] errors h = ground arith
  validate_primary_acyclic-none fuel visited (k ∷ keys) errors h =
      elim (Option-cases (cycle_walk fuel (primary_targets g) visited [] k)) [
        | inl e ↦ ground (arith, validate_primary_acyclic-none fuel visited keys errors)
        | inr ((p, b), e) ↦
            let acyclic = cycle_walk-none fuel visited [] k p b tt e in
            elim (Option-cases
              (validate_primary_acyclic fuel (primary_targets g) (p ++ visited) keys)) [
                | inl stuck ↦ ground (arith, validate_primary_acyclic-none fuel visited keys errors)
                | inr (rest, f) ↦ ground (
                  arith,
                  validate_primary_acyclic-none fuel visited keys errors,
                  validate_primary_acyclic-none fuel (p ++ visited) keys rest f,
                )
              ]
      ]
