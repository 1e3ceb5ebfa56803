-- ===== src/Prelude/HashMap.antt =====
-- A `HashMap` keyed by identifiers, as the log of its insertions: `collect` is the list itself, and
-- a later insertion of a key hides an earlier one.
use Prim.Native.Nat.{ℕ}
use mathlib.Core.Bool.{Bool, true, false}
use mathlib.Core.Path.{◌≡◌, refl, subst, subst₂}
use mathlib.Core.Logic.{inl, inr}
use mathlib.Core.Option.{Option, none, some}
use mathlib.Core.List.{List, [], ◌∷◌, ◌++◌, map}
use native.Mathlib.Omega.{arith}
use svc_workflow_kernel.Prelude.Tests.{◌==◌, if◌then◌else◌, Option-cases}
use svc_workflow_kernel.Prelude.Lists.{All}

module _ {ℓ} {V : Type ℓ} where
  -- `map.get(&key)`
  abbrev pub get : List (ℕ × V) → ℕ → Option V
  get [] key = none
  get ((k, v) ∷ m) key = elim (get m key) [
    | some w ↦ some w
    | none ↦ if k == key then some v else none
  ]

  abbrev pub is_some : Option V → Bool
  is_some none = false
  is_some (some v) = true

  pub get-append :
      (m n : List (ℕ × V)) (k : ℕ)
      → get (m ++ n) k ≡ elim (get n k) as (λ _. Option V) [ some w ↦ some w | none ↦ get m k ]
  get-append [] n k = ground arith
  get-append ((j, v) ∷ m) n k = ground (arith, get-append m n k)

  if_eq_some :
      (b : ℕ × V) (k : ℕ) (v : V)
      → (if b.0 == k then some b.1 else none) ≡ some v
      → (b.0 ≡ k) × (b.1 ≡ v)
  if_eq_some b k v h = ground arith

  -- What every inserted pair satisfies, a pair that is found satisfies.
  pub get-All {κ} :
      (P : ℕ → V → Type κ) (m : List (ℕ × V)) (k : ℕ) (v : V)
      → All (λ e. P e.0 e.1) m
      → get m k ≡ some v
      → P k v
  get-All P [] k v all h = cc
  get-All P ((j, w) ∷ m) k v all h = elim (Option-cases (get m k)) [
    | inl e ↦
        let (same_key, same_value) = if_eq_some (j, w) k v (rw (e, get) at h) in
        subst₂ P same_key same_value all.0
    | inr e ↦ get-All P m k v all.1 (ground (arith, e.1))
  ]

module _ {ℓ κ} {A : Type ℓ} {V : Type κ} (key : A → ℕ) (value : A → V) where
  abbrev option_map : Option A → Option V
  option_map none = none
  option_map (some x) = some (value x)

  -- A map collected from a list gives the value of the last member with the key.
  pub get-map :
      (xs : List A) (k : ℕ)
      → get (map (λ x. (key x, value x)) xs) k ≡ option_map (get (map (λ x. (key x, x)) xs) k)
  get-map [] k = refl
  get-map (x ∷ xs) k = ground (arith, get-map xs k)

module _ {ℓ κ} {A : Type ℓ} (key : A → ℕ) (P : A → Type κ) where
  -- What a map collected from a list finds has the key, and is a member of the list.
  pub get-member :
      (xs : List A) (k : ℕ) {x : A}
      → All P xs
      → get (map (λ x. (key x, x)) xs) k ≡ some x
      → P x × (key x ≡ k)
  get-member [] k all h = cc
  get-member (y ∷ ys) k {x} all h = elim (Option-cases (get (map (λ x. (key x, x)) ys) k)) [
    | inl e ↦
        let (same_key, same) = if_eq_some (key y, y) k x (rw (e, get) at h) in
        (subst P same all.0, subst (λ z. key z ≡ k) same same_key)
    | inr e ↦ get-member ys k all.1 (ground (arith, e.1))
  ]
