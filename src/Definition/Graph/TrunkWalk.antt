-- ===== src/Definition/Graph/TrunkWalk.antt =====
-- The walk along the primary transitions, in a graph that keeps the primary rules.
use svc_workflow_kernel.Prelude.{
  ℕ, ℤ, zero, suc, ◌≤◌, ◌<◌, ◌≡◌, refl, sym, ◌∙◌, ◌≢◌, ◌⊎◌, ◌<ℤ◌, Option, none, some, List, [], ◌∷◌,
  map, All, get, length, flat_map, get-append, get-member, get-map, ltbℤ, arith, Option-cases, inl,
  inr, if◌then◌else◌,
}
use svc_workflow_kernel.Enums.{NodeType, terminal, normal}
use svc_workflow_kernel.Definition.Model.{
  Uuid, NodeDefinition, TransitionDefinition, WorkflowGraph, GraphValidationError,
}
use svc_workflow_kernel.Definition.Graph.References.{nodes_by_id}
use svc_workflow_kernel.Definition.Graph.Trunk.{
  primary_of, primary_entry, primary_targets, trunk_walk,
}
use svc_workflow_kernel.Definition.Graph.Rules.{EndpointsRule, Advances, PrimaryFits, PrimaryRule}

-- Following primary transitions from the node leads to a TERMINAL node.
pub data ReachesTerminal (g : WorkflowGraph) : Uuid → Type 0 where
  stop :
      {current : Uuid} (n : NodeDefinition)
      → get (nodes_by_id g) current ≡ some n
      → n.node_type ≡ terminal
      → ReachesTerminal g current
  follow :
      {current : Uuid} (n : NodeDefinition) (t : TransitionDefinition)
      → get (nodes_by_id g) current ≡ some n
      → primary_of g n.primary_advance_transition_id ≡ some t
      → ReachesTerminal g t.target_node_id
      → ReachesTerminal g current

pub NodeType-terminal : (t : NodeType) → (t ≡ terminal) ⊎ (t ≢ terminal)
NodeType-terminal terminal = inl refl
NodeType-terminal NodeType.draft = inr (λ e. cc)
NodeType-terminal normal = inr (λ e. cc)

pub some_of_ne_none : {A : Type 0} (o : Option A) → o ≢ none → (a : A) × (o ≡ some a)
some_of_ne_none none h = absurd (h refl)
some_of_ne_none (some a) h = (a, refl)

module _ (g : WorkflowGraph) where
  abbrev pub entry : NodeDefinition → List (Uuid × Uuid)
  entry n = primary_entry n (primary_of g n.primary_advance_transition_id)

  pub targets-none :
      (ns : List NodeDefinition) (c : Uuid)
      → get (map (λ n. (n.node_id, n)) ns) c ≡ none
      → get (flat_map entry ns) c ≡ none
  targets-none [] c h = refl
  targets-none (m ∷ ms) c h = rw get-append (ground (arith, targets-none ms c))

  pub targets-some :
      (ns : List NodeDefinition) (c : Uuid) (n : NodeDefinition) (t : TransitionDefinition)
      → get (map (λ n. (n.node_id, n)) ns) c ≡ some n
      → n.node_type ≢ terminal
      → primary_of g n.primary_advance_transition_id ≡ some t
      → get (flat_map entry ns) c ≡ some t.target_node_id
  targets-some [] c n t h live p = cc
  targets-some (m ∷ ms) c n t h live p =
      rw get-append (elim (Option-cases (get (map (λ n. (n.node_id, n)) ms) c)) [
        | inl e ↦ rw (targets-none ms c e) (ground arith)
        | inr e ↦ rw (targets-some ms c n t (ground (arith, e.1)) live p) refl
      ])

  pub fits_primary :
      (n : NodeDefinition) (p : Option Uuid) (o : Option TransitionDefinition)
      → PrimaryFits g n p o
      → n.node_type ≢ terminal
      → (t : TransitionDefinition) × (o ≡ some t) × (t.source_node_id ≡ n.node_id) × Advances g n t
  fits_primary n none o h live = absurd (live h)
  fits_primary n (some p) none h live = absurd h
  fits_primary n (some p) (some t) h live = (t, refl, h.0, h.2)

  pub primary_member :
      (P : TransitionDefinition → Type 0) (p : Option Uuid) {t : TransitionDefinition}
      → All P g.transitions
      → primary_of g p ≡ some t
      → P t
  primary_member P none all h = cc
  primary_member P (some id) all h = (get-member (λ t. t.transition_id) P g.transitions id all h).0

-- The rules that the walk relies on.
pub record HasTrunk (g : WorkflowGraph) : Type 0 where
  pub primaries : All (PrimaryRule g) g.nodes
  pub endpoints : All (EndpointsRule g) g.transitions

-- A step of the walk: it goes to another node of the graph, with a higher order index.
pub record TrunkStep (g : WorkflowGraph) (n : NodeDefinition) (current : Uuid) : Type 0 where
  pub by : TransitionDefinition
  pub primary : primary_of g n.primary_advance_transition_id ≡ some by
  pub target : get (primary_targets g) current ≡ some by.target_node_id
  pub next : NodeDefinition
  pub arrives : get (nodes_by_id g) by.target_node_id ≡ some next
  pub higher : n.order_index <ℤ next.order_index

module _ (g : WorkflowGraph) (rules : HasTrunk g) where
  pub trunk_step :
      (c : Uuid) (n : NodeDefinition)
      → get (nodes_by_id g) c ≡ some n
      → n.node_type ≢ terminal
      → TrunkStep g n c
  unfolding primary_targets
  trunk_step c n h live =
      let (fits, same_id) =
        get-member (λ n. n.node_id) (PrimaryRule g) g.nodes c rules.primaries h in
      let (t, is_primary, from, advances) =
        fits_primary g n n.primary_advance_transition_id
          (primary_of g n.primary_advance_transition_id) fits live in
      let ends =
        primary_member g (EndpointsRule g) n.primary_advance_transition_id rules.endpoints
          is_primary in
      let (m, arrives) = some_of_ne_none (get (nodes_by_id g) t.target_node_id) ends.1 in
      let order = get-map (λ n. n.node_id) (λ n. n.order_index) g.nodes t.target_node_id in
      record {
        by = t;
        primary = is_primary;
        target = targets-some g g.nodes c n t h live is_primary;
        next = m;
        arrives = arrives;
        higher = ground arith;
      }

  walk_on :
      (fuel : ℕ) (root : NodeDefinition) (c : Uuid) (n : NodeDefinition)
      → get (nodes_by_id g) c ≡ some n
      → n.node_type ≢ terminal
      → (s : TrunkStep g n c)
      → trunk_walk (suc fuel) (nodes_by_id g) (primary_targets g) root c
        ≡ trunk_walk fuel (nodes_by_id g) (primary_targets g) root s.by.target_node_id
  unfolding trunk_walk
  walk_on fuel root c n h live s = ground (arith, s.target, s.arrives, s.higher)

  -- A walk that ends reports no error, for it has reached a TERMINAL node.
  pub trunk_walk-ReachesTerminal :
      (fuel : ℕ) (root : NodeDefinition) (c : Uuid) {errors : List GraphValidationError}
      → get (nodes_by_id g) c ≢ none
      → trunk_walk fuel (nodes_by_id g) (primary_targets g) root c ≡ some errors
      → (errors ≡ []) × ReachesTerminal g c
  unfolding trunk_walk
  trunk_walk-ReachesTerminal zero root c known h = cc
  trunk_walk-ReachesTerminal (suc fuel) root c known h =
      let (n, here) = some_of_ne_none (get (nodes_by_id g) c) known in
      elim (NodeType-terminal n.node_type) [
        | inl e ↦ (ground arith, stop n here e)
        | inr live ↦
            let s = trunk_step c n here live in
            let (empty, reaches) =
              trunk_walk-ReachesTerminal fuel root s.by.target_node_id (ground (arith, s.arrives))
                (sym (walk_on fuel root c n here live s) ∙ h) in
            (empty, follow n s.by here s.primary reaches)
      ]

  -- How many nodes have a higher order index.
  abbrev pub above : ℤ → List NodeDefinition → ℕ
  above o [] = 0
  above o (n ∷ ns) = let rest = above o ns in if ltbℤ o n.order_index then suc rest else rest

  above-le : (a b : ℤ) (ns : List NodeDefinition) → a <ℤ b → above b ns ≤ above a ns
  above-le a b [] h = omega arith
  above-le a b (n ∷ ns) h = ground (arith, above-le a b ns h)

  pub above-length : (a : ℤ) (ns : List NodeDefinition) → above a ns ≤ length ns
  above-length a [] = omega arith
  above-length a (n ∷ ns) = ground (arith, above-length a ns)

  above-lt :
      (a : ℤ) (ns : List NodeDefinition) (c : Uuid) (m : NodeDefinition)
      → get (map (λ n. (n.node_id, n)) ns) c ≡ some m
      → a <ℤ m.order_index
      → above m.order_index ns < above a ns
  above-lt a [] c m h lt = cc
  above-lt a (n ∷ ns) c m h lt = elim (Option-cases (get (map (λ n. (n.node_id, n)) ns) c)) [
    | inl e ↦ let same : n ≡ m = ground arith in ground (arith, above-le a m.order_index ns lt)
    | inr e ↦ ground (arith, above-lt a ns c m (ground (arith, e.1)) lt)
  ]

  -- The walk ends without an error if the fuel exceeds the number of nodes above its start.
  pub trunk_walk-ends :
      (fuel : ℕ) (root : NodeDefinition) (c : Uuid) (n : NodeDefinition)
      → get (nodes_by_id g) c ≡ some n
      → above n.order_index g.nodes < fuel
      → trunk_walk fuel (nodes_by_id g) (primary_targets g) root c ≡ some []
  unfolding trunk_walk
  trunk_walk-ends zero root c n here h = absurd (omega arith)
  trunk_walk-ends (suc fuel) root c n here h = elim (NodeType-terminal n.node_type) [
    | inl e ↦ ground arith
    | inr live ↦
        let s = trunk_step c n here live in
        walk_on fuel root c n here live s
        ∙ trunk_walk-ends fuel root s.by.target_node_id s.next s.arrives (
            omega
              (arith, above-lt n.order_index g.nodes s.by.target_node_id s.next s.arrives s.higher))
  ]
