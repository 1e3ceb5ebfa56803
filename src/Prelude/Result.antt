-- ===== src/Prelude/Result.antt =====
-- Rust's `Result`, with `do` blocks for `?`.
use mathlib.Core.Path.{◌≡◌, refl}
use mathlib.Core.Logic.{◌↔◌, ◌⊎◌, inl, inr}
use mathlib.Core.Bool.{Bool, true, false, not}
use mathlib.Core.Option.{Option, none, some}

pub data Result {ℓ κ} (E : Type ℓ) (A : Type κ) : Type (ℓ ⊔ κ) where
  ok : A → Result E A
  err : E → Result E A

infixl 5 ◌>>=◌ ◌>>◌
-- `?` hands an error on and goes on with a value.
abbrev pub ◌>>=◌ {ℓ κ μ} :
    {E : Type ℓ} {A : Type κ} {B : Type μ} → Result E A → (A → Result E B) → Result E B
err e >>= rest = err e
ok value >>= rest = rest value

abbrev pub ◌>>◌ {ℓ κ} : {E : Type ℓ} {B : Type κ} → Result E (Unit {0}) → Result E B → Result E B
step >> rest = step >>= λ unit. rest

-- `option.ok_or(e)`
abbrev pub ok_or {ℓ κ} : {E : Type ℓ} {A : Type κ} → Option A → E → Result E A
ok_or (some a) e = ok a
ok_or none e = err e

-- `option.and_then(f)`
abbrev pub and_then {ℓ κ} : {A : Type ℓ} {B : Type κ} → Option A → (A → Option B) → Option B
and_then none f = none
and_then (some a) f = f a

-- `if b { return Err(e) }`
abbrev pub err_if {ℓ} : {E : Type ℓ} → Bool → E → Result E (Unit {0})
err_if true e = err e
err_if false e = ok tt

module _ {ℓ κ μ} {E : Type ℓ} {A : Type κ} {B : Type μ} where
  -- A chain that reaches its end passed its first step, and goes on from what that step gave.
  pub question-ok :
      (step : Result E A) (rest : A → Result E B) {last : B}
      → (step >>= rest) ≡ ok last
      → (given : A) × (step ≡ ok given) × (rest given ≡ ok last)
  question-ok (err e) rest done = cc
  question-ok (ok given) rest done = (given, refl, done)

pub Result-cases {ℓ κ} :
    {E : Type ℓ} {A : Type κ} (r : Result E A) → ((e : E) × (r ≡ err e)) ⊎ ((a : A) × (r ≡ ok a))
Result-cases (err e) = inl (e, refl)
Result-cases (ok a) = inr (a, refl)

pub ok_inj {ℓ κ} : {E : Type ℓ} {A : Type κ} {a b : A} → ◌≡◌ {A = Result E A} (ok a) (ok b) → a ≡ b
ok_inj h = cc

module _ {ℓ} {E : Type ℓ} where
  -- A guard that lets pass had a condition that does not hold.
  pub err_if-false : (b : Bool) (e : E) {u : Unit {0}} → err_if b e ≡ ok u → b ≡ false
  err_if-false true e h = cc
  err_if-false false e h = refl

  pub passes-true : (b : Bool) (e : E) {u : Unit {0}} → err_if (not b) e ≡ ok u → b ≡ true
  passes-true true e h = refl
  passes-true false e h = cc

  pub ok_or-some {κ} : {A : Type κ} (o : Option A) (e : E) {a : A} → ok_or o e ≡ ok a → o ≡ some a
  ok_or-some none e h = cc
  ok_or-some (some a) e h = cc

  guard-true : (b : Bool) (e : E) → b ≡ true → err_if (not b) e ≡ ok tt
  guard-true true e h = refl
  guard-true false e h = cc

  -- A chain whose first step gives `a` goes on from `a`, and past a guard that holds.
  pub pass {κ μ} :
      {A : Type κ} {B : Type μ} (step : Result E A) (rest : A → Result E B) {a : A}
      {last : Result E B}
      → step ≡ ok a
      → rest a ≡ last
      → (step >>= rest) ≡ last
  pass (err e) rest h k = cc
  pass (ok b) rest {a} h k = rw (ok_inj h) k

  pub pass_guard {μ} :
      {B : Type μ} (b : Bool) (e : E) (rest : Result E B) {last : Result E B}
      → b ≡ true
      → rest ≡ last
      → (err_if (not b) e >> rest) ≡ last
  pass_guard b e rest h k = pass (err_if (not b) e) (λ unit. rest) (guard-true b e h) k

  pub ok_or-found {κ} : {A : Type κ} (o : Option A) (e : E) {a : A} → o ≡ some a → ok_or o e ≡ ok a
  ok_or-found o e h = rw h refl

-- A chain of steps reaches its end exactly when each of them passes.
pub guard_iff {ℓ} :
    {E : Type ℓ} (b : Bool) (e : E) (rest : Result E (Unit {0}))
    → ((err_if (not b) e >> rest) ≡ ok tt) ↔ ((b ≡ true) × (rest ≡ ok tt))
guard_iff true e rest = (λ h. (refl, h), λ h. h.1)
guard_iff false e rest = (λ h. cc, λ h. cc (h.0))

pub last_guard_iff {ℓ} : {E : Type ℓ} (b : Bool) (e : E) → (err_if (not b) e ≡ ok tt) ↔ (b ≡ true)
last_guard_iff true e = (λ h. refl, λ h. refl)
last_guard_iff false e = (λ h. cc, λ h. cc)

pub step_iff {ℓ} :
    {E : Type ℓ} (step rest : Result E (Unit {0}))
    → ((step >> rest) ≡ ok tt) ↔ ((step ≡ ok tt) × (rest ≡ ok tt))
step_iff (err e) rest = (λ h. cc, λ h. cc (h.0))
step_iff (ok tt) rest = (λ h. (refl, h), λ h. h.1)

pub stop_iff : {E : Type 0} (b : Bool) (e : E) → (err_if b e ≡ ok tt) ↔ (b ≡ false)
stop_iff true e = (λ h. cc, λ h. cc)
stop_iff false e = (λ h. refl, λ h. refl)
