-- ===== src/Base/Outcomes.antt =====
-- The result of code that may stop the process: a failed assertion (which is undefined behaviour
-- in a build without them), `llvm::report_fatal_error`, `llvm_unreachable`, or, in the model of an
-- unbounded loop, the end of the fuel.
use mathlib.Core.Path.{◌≡◌, refl}
use mathlib.Core.Logic.{◌⊎◌, inl, inr}
use mathlib.Core.Bool.{Bool, true, false}

pub data Failure : Type 0 where
  assertion fatal unreachable out_of_fuel : Failure

pub data Outcome {ℓ} (A : Type ℓ) : Type ℓ where
  ok : A → Outcome A
  fails : Failure → Outcome A

-- `assert`, which the source also calls through `ArrayRef` and `StringRef`.
abbrev pub assert : Bool → Outcome (Unit {0})
assert false = fails assertion
assert true = ok tt

-- What follows is run on the value, unless the process has stopped.
infixl 5 ◌>>=◌
abbrev pub ◌>>=◌ {κ ℓ} : {B : Type κ} {A : Type ℓ} → Outcome A → (A → Outcome B) → Outcome B
fails stop >>= next = fails stop
ok value >>= next = next value

infixl 5 ◌>>◌
abbrev pub ◌>>◌ {κ} : {B : Type κ} → Outcome (Unit {0}) → Outcome B → Outcome B
first >> next = first >>= (λ done. next)

-- What a run that ends well went through.
pub >>=-eq-ok {κ ℓ} :
    {B : Type κ} {A : Type ℓ} (first : Outcome A) (next : A → Outcome B) {result : B}
    → first >>= next ≡ ok result
    → (value : A) × (first ≡ ok value) × (next value ≡ ok result)
>>=-eq-ok (fails stop) next h = cc
>>=-eq-ok (ok value) next h = (value, refl, h)

pub ok-eq {ℓ} : {A : Type ℓ} {a b : A} → ok a ≡ ok b → a ≡ b
ok-eq h = cc

pub ok-pair {ℓ κ} :
    {A : Type ℓ} {B : Type κ} {a c : A} {b d : B}
    → ◌≡◌ {A = Outcome (A × B)} (ok (a, b)) (ok (c, d))
    → (a ≡ c) × (b ≡ d)
ok-pair h = (cc, cc)

pub Outcome-cases {ℓ} :
    {A : Type ℓ} (o : Outcome A) → ((a : A) × (o ≡ ok a)) ⊎ ((f : Failure) × (o ≡ fails f))
Outcome-cases (ok a) = inl (a, refl)
Outcome-cases (fails f) = inr (f, refl)
