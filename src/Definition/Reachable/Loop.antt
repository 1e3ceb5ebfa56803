-- ===== src/Definition/Reachable/Loop.antt =====
-- The loop of the search: it ends, it adds nothing beyond a closed set, and it misses nothing.
use svc_workflow_kernel.Prelude.{
  ℕ, zero, suc, ◌+◌, ◌≤◌, ◌<◌, ◌≡◌, refl, subst, inl, inr, some, true, false, ◌||◌, List, [], ◌∷◌,
  length, contains, All, ◌==◌, if◌then◌else◌, arith, Bool-cases,
}
use svc_workflow_kernel.Definition.Model.{Uuid, TransitionDefinition}
use svc_workflow_kernel.Definition.Reachable.{neighbors, push_neighbors, search_loop}

-- The transitions whose source the search has not yet taken.
pub pending : List Uuid → List TransitionDefinition → ℕ
pending r [] = 0
pending r (t ∷ ts) =
    let rest = pending r ts in if contains r t.source_node_id then rest else suc rest

pub pending-nil : (ts : List TransitionDefinition) → pending [] ts ≡ length ts
unfolding pending
pending-nil [] = refl
pending-nil (t ∷ ts) = omega (arith, pending-nil ts)

pending-cons :
    (r : List Uuid) (a : Uuid) (ts : List TransitionDefinition)
    → contains r a ≡ false
    → pending (a ∷ r) ts + length (neighbors ts a) ≡ pending r ts
unfolding pending neighbors
pending-cons r a [] h = omega arith
pending-cons r a (t ∷ ts) h = ground (arith, pending-cons r a ts h)

length-push_neighbors :
    (r ns stack : List Uuid) → length (push_neighbors r ns stack) ≤ length ns + length stack
unfolding push_neighbors
length-push_neighbors r [] stack = omega arith
length-push_neighbors r (n ∷ ns) stack = elim (Bool-cases (contains r n)) [
  | inl e ↦ rw e (omega (arith, length-push_neighbors r ns stack))
  | inr e ↦ rw e (omega (arith, length-push_neighbors r ns (n ∷ stack)))
]

pub search_loop-total :
    (fuel : ℕ) (ts : List TransitionDefinition) (r stack : List Uuid)
    → length stack + pending r ts < fuel
    → (out : List Uuid) × (search_loop fuel ts r stack ≡ some out)
unfolding search_loop
search_loop-total zero ts r stack h = absurd (omega arith)
search_loop-total (suc fuel) ts r [] h = (r, refl)
search_loop-total (suc fuel) ts r (a ∷ stack) h = elim (Bool-cases (contains r a)) [
  | inl e ↦ rw (e, search_loop) (search_loop-total fuel ts r stack (omega arith))
  | inr e ↦
      rw (e, search_loop)
        (search_loop-total fuel ts (a ∷ r) (push_neighbors (a ∷ r) (neighbors ts a) stack) (
          omega
            (arith, pending-cons r a ts e, length-push_neighbors (a ∷ r) (neighbors ts a) stack)))
]

module _ (P : Uuid → Type 0) where
  push_neighbors-All :
      (r ns stack : List Uuid) → All P ns → All P stack → All P (push_neighbors r ns stack)
  unfolding push_neighbors
  push_neighbors-All r [] stack hn hs = hs
  push_neighbors-All r (n ∷ ns) stack hn hs = elim (Bool-cases (contains r n)) [
    | inl e ↦ rw e (push_neighbors-All r ns stack hn.1 hs)
    | inr e ↦ rw e (push_neighbors-All r ns (n ∷ stack) hn.1 (hn.0, hs))
  ]

  module _ (ts : List TransitionDefinition)
      (closed : (a : Uuid) → P a → All P (neighbors ts a)) where
    -- What the search returns lies in every set that holds the start and is closed under edges.
    pub search_loop-All :
        (fuel : ℕ) (r stack out : List Uuid)
        → All P r
        → All P stack
        → search_loop fuel ts r stack ≡ some out
        → All P out
    unfolding search_loop
    search_loop-All zero r stack out hr hs e = cc
    search_loop-All (suc fuel) r [] out hr hs e = subst (All P) (ground arith) hr
    search_loop-All (suc fuel) r (a ∷ stack) out hr hs e = elim (Bool-cases (contains r a)) [
      | inl old ↦ search_loop-All fuel r stack out hr hs.1 (rw (old, search_loop) at e)
      | inr new ↦
          search_loop-All fuel (a ∷ r) (push_neighbors (a ∷ r) (neighbors ts a) stack) out
            (hs.0, hr) (push_neighbors-All (a ∷ r) (neighbors ts a) stack (closed a hs.0) hs.1)
            (rw (new, search_loop) at e)
    ]

-- A neighbor that is not yet found is on the stack after the push, and so is what was there.
push_neighbors-contains :
    (r ns stack : List Uuid) (b : Uuid)
    → contains ns b || contains stack b ≡ true
    → contains r b || contains (push_neighbors r ns stack) b ≡ true
unfolding push_neighbors
push_neighbors-contains r [] stack b h = ground arith
push_neighbors-contains r (n ∷ ns) stack b h = elim (Bool-cases (contains r n)) [
  | inl e ↦ rw e (ground (arith, push_neighbors-contains r ns stack b))
  | inr e ↦ rw e (ground (arith, push_neighbors-contains r ns (n ∷ stack) b))
]

-- Every edge out of a found node leads to a node that is found or on the stack.
abbrev pub Frontier : List TransitionDefinition → List Uuid → List Uuid → Type 0
Frontier ts r stack =
    (a b : Uuid)
    → contains r a ≡ true
    → contains (neighbors ts a) b ≡ true
    → contains r b || contains stack b ≡ true

Frontier-skip :
    (ts : List TransitionDefinition) (r stack : List Uuid) (c : Uuid)
    → contains r c ≡ true
    → Frontier ts r (c ∷ stack)
    → Frontier ts r stack
Frontier-skip ts r stack c h f a b ha hb = ground (arith, f a b)

Frontier-take :
    (ts : List TransitionDefinition) (r stack : List Uuid) (c : Uuid)
    → Frontier ts r (c ∷ stack)
    → Frontier ts (c ∷ r) (push_neighbors (c ∷ r) (neighbors ts c) stack)
Frontier-take ts r stack c f a b ha hb = elim (Bool-cases (c == a)) [
  | inl e ↦ push_neighbors-contains (c ∷ r) (neighbors ts c) stack b (ground arith)
  | inr e ↦ ground (arith, f a b, push_neighbors-contains (c ∷ r) (neighbors ts c) stack b)
]

-- The set that the search returns holds what was found or waiting, and is closed under edges.
pub search_loop-closed :
    (fuel : ℕ) (ts : List TransitionDefinition) (r stack out : List Uuid)
    → Frontier ts r stack
    → search_loop fuel ts r stack ≡ some out
    → Frontier ts out []
      × ((a : Uuid) → contains r a || contains stack a ≡ true → contains out a ≡ true)
unfolding search_loop
search_loop-closed zero ts r stack out f e = cc
search_loop-closed (suc fuel) ts r [] out f e =
    let same : r ≡ out = ground arith in (subst (λ s. Frontier ts s []) same f, λ a h. ground arith)
search_loop-closed (suc fuel) ts r (c ∷ stack) out f e = elim (Bool-cases (contains r c)) [
  | inl old ↦
      let (closed, keeps) =
        search_loop-closed fuel ts r stack out (Frontier-skip ts r stack c old f)
          (rw (old, search_loop) at e) in
      (closed, λ a h. keeps a (ground arith))
  | inr new ↦
      let next = push_neighbors (c ∷ r) (neighbors ts c) stack in
      let (closed, keeps) =
        search_loop-closed fuel ts (c ∷ r) next out (Frontier-take ts r stack c f)
          (rw (new, search_loop) at e) in
      (
        closed,
        λ a h. keeps a (ground (arith, push_neighbors-contains (c ∷ r) (neighbors ts c) stack a)),
      )
]
