-- ===== src/Prelude/Lists.antt =====
-- Lists measured by native numbers, sets as lists, and loops that collect errors.
use Prim.Native.Nat.{ℕ, zero, suc}
use mathlib.Core.Path.{◌≡◌, refl, subst}
use mathlib.Core.Logic.{◌↔◌, inl, inr}
use mathlib.Core.Bool.{Bool, true, false, ◌||◌}
use mathlib.Core.Option.{Option, none, some}
use mathlib.Core.List.{List, [], ◌∷◌, ◌++◌}
use native.Mathlib.Omega.{arith}
use svc_workflow_kernel.Prelude.Tests.{◌==◌, if◌then◌else◌, Bool-cases}

module _ {ℓ} {A : Type ℓ} where
  abbrev pub length : List A → ℕ
  length [] = 0
  length (x ∷ xs) = suc (length xs)

  abbrev pub is_empty : List A → Bool
  is_empty [] = true
  is_empty (x ∷ xs) = false

  -- `iter().filter(p).collect()`
  abbrev pub filter : (A → Bool) → List A → List A
  filter p [] = []
  filter p (x ∷ xs) = let rest = filter p xs in if p x then x ∷ rest else rest

  -- `first()`
  abbrev pub head? : List A → Option A
  head? [] = none
  head? (x ∷ xs) = some x

  -- The first row that a query with this condition finds.
  abbrev pub find? : (A → Bool) → List A → Option A
  find? p [] = none
  find? p (x ∷ xs) = let rest = find? p xs in if p x then some x else rest

  -- Every member satisfies `P`.
  abbrev pub All {κ} : (A → Type κ) → List A → Type κ
  All P [] = Unit
  All P (x ∷ xs) = P x × All P xs

-- A loop over `xs` whose body pushes the list `f x`.
abbrev pub flat_map {ℓ κ} : {A : Type ℓ} {B : Type κ} → (A → List B) → List A → List B
flat_map f [] = []
flat_map f (x ∷ xs) = f x ++ flat_map f xs

-- `if b { errors.push(e) }`
abbrev pub push_if {ℓ} : {A : Type ℓ} → Bool → A → List A
push_if true e = e ∷ []
push_if false e = []

-- A `HashSet` of identifiers as a list.
abbrev pub contains : List ℕ → ℕ → Bool
contains [] a = false
contains (x ∷ xs) a = (x == a) || contains xs a

module _ {ℓ} {A : Type ℓ} where
  pub is_empty_iff : (xs : List A) → (is_empty xs ≡ true) ↔ (xs ≡ [])
  is_empty_iff [] = (λ h. refl, λ h. refl)
  is_empty_iff (x ∷ xs) = (λ h. cc, λ h. cc)

  pub append-eq_nil : (xs ys : List A) → (xs ++ ys ≡ []) ↔ ((xs ≡ []) × (ys ≡ []))
  append-eq_nil [] ys = (λ h. (refl, h), λ h. h.1)
  append-eq_nil (x ∷ xs) ys = (λ h. cc, λ h. cc (h.0))

module _ {ℓ κ μ} {A : Type ℓ} {B : Type κ} (f : A → List B) (P : A → Type μ) where
  -- A loop pushes nothing exactly when its body pushes nothing at each member.
  pub flat_map-eq_nil :
      ((x : A) → (f x ≡ []) ↔ P x) → (xs : List A) → (flat_map f xs ≡ []) ↔ All P xs
  flat_map-eq_nil each [] = (λ _. tt, λ _. refl)
  flat_map-eq_nil each (x ∷ xs) =
      let both = append-eq_nil (f x) (flat_map f xs) in
      let rest = flat_map-eq_nil each xs in
      (
        λ h. ((each x).0 (both.0 h).0, rest.0 (both.0 h).1),
        λ h. both.1 ((each x).1 h.0, rest.1 h.1),
      )

module _ {ℓ κ} {A : Type ℓ} (P : A → Type κ) where
  pub All-of : ((x : A) → P x) → (xs : List A) → All P xs
  All-of f [] = tt
  All-of f (x ∷ xs) = (f x, All-of f xs)

  pub All-append : (xs ys : List A) → All P xs → All P ys → All P (xs ++ ys)
  All-append [] ys hx hy = hy
  All-append (x ∷ xs) ys hx hy = (hx.0, All-append xs ys hx.1 hy)

  pub All-push_if : (b : Bool) (x : A) → (b ≡ true → P x) → All P (push_if b x)
  All-push_if true x h = (h refl, tt)
  All-push_if false x h = tt

module _ {ℓ κ μ} {A : Type ℓ} (P : A → Type κ) (Q : A → Type μ) where
  pub All-imp : ((x : A) → P x → Q x) → (xs : List A) → All P xs → All Q xs
  All-imp f [] h = tt
  All-imp f (x ∷ xs) h = (f x h.0, All-imp f xs h.1)

  pub All-pair : (xs : List A) → All P xs → All Q xs → All (λ x. P x × Q x) xs
  All-pair [] h k = tt
  All-pair (x ∷ xs) h k = ((h.0, k.0), All-pair xs h.1 k.1)

module _ {ℓ} (P : ℕ → Type ℓ) where
  pub All-contains : (xs : List ℕ) (a : ℕ) → All P xs → contains xs a ≡ true → P a
  All-contains [] a all h = cc
  All-contains (x ∷ xs) a all h = elim (Bool-cases (x == a)) [
    | inl e ↦ subst P (ground arith) all.0
    | inr e ↦ All-contains xs a all.1 (ground arith)
  ]

  pub All-of_contains : (xs : List ℕ) → ((a : ℕ) → contains xs a ≡ true → P a) → All P xs
  All-of_contains [] h = tt
  All-of_contains (x ∷ xs) h = (h x (ground arith), All-of_contains xs (λ a m. h a (ground arith)))

-- `iter().any(p)`
abbrev pub any {ℓ} : {A : Type ℓ} → (A → Bool) → List A → Bool
any p [] = false
any p (x ∷ xs) = p x || any p xs

-- `get(index)`
abbrev pub nth {ℓ} : {A : Type ℓ} → List A → ℕ → Option A
nth [] k = none
nth (x ∷ xs) zero = some x
nth (x ∷ xs) (suc k) = nth xs k

-- The list has a member with the property.
abbrev pub Has {ℓ κ} : {A : Type ℓ} → (A → Type κ) → List A → Type (ℓ ⊔ κ)
Has {A} P xs = (k : ℕ) × (x : A) × (nth xs k ≡ some x) × P x

cons-Has {ℓ κ} :
    {A : Type ℓ} (p : A → Bool) (Q : A → Type κ) (x : A) (xs : List A)
    → (p x ≡ true) ↔ Q x
    → (any p xs ≡ true) ↔ Has Q xs
    → ((p x || any p xs) ≡ true) ↔ Has Q (x ∷ xs)
cons-Has p Q x xs here later = (there, back)
  where
    there : (p x || any p xs) ≡ true → Has Q (x ∷ xs)
    there h = elim (Bool-cases (p x)) [
      | inl e ↦ (0, x, refl, here.0 e)
      | inr e ↦ let (k, y, at, q) = later.0 (ground arith) in (suc k, y, at, q)
    ]

    back : Has Q (x ∷ xs) → (p x || any p xs) ≡ true
    back (zero, y, at, q) = rw (here.1 (subst Q (cc) q)) refl
    back (suc k, y, at, q) = let rest : any p xs ≡ true = later.1 (k, y, at, q) in ground arith

pub any-Has {ℓ κ} :
    {A : Type ℓ} (p : A → Bool) (Q : A → Type κ)
    → ((x : A) → (p x ≡ true) ↔ Q x)
    → (xs : List A) → (any p xs ≡ true) ↔ Has Q xs
any-Has p Q holds [] = (λ h. cc, λ h. let (k, y, at, q) = h in cc)
any-Has p Q holds (x ∷ xs) = cons-Has p Q x xs (holds x) (any-Has p Q holds xs)

-- A row that is found is in the table and satisfies the condition.
pub find?-Has {ℓ} :
    {A : Type ℓ} (p : A → Bool) (xs : List A) {x : A}
    → find? p xs ≡ some x
    → Has (λ y. (y ≡ x) × (p y ≡ true)) xs
find?-Has p [] h = cc
find?-Has p (y ∷ ys) {x} h = elim (Bool-cases (p y)) [
  | inl e ↦ (0, y, refl, (cc (rw e at h), e))
  | inr e ↦ let (k, z, at, both) = find?-Has p ys (rw e at h) in (suc k, z, at, both)
]
