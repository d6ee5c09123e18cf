-- ===== src/Common/Outcome.antt =====
-- Code that can fail an `assert` or dereference what is not there: `fault`.
use mathlib.Core.Path.{◌≡◌, refl}
use mathlib.Core.Logic.{◌⊎◌, inl, inr}
use mathlib.Core.Bool.{Bool, true, false}
use mathlib.Core.Option.{Option, none, some}

pub data Outcome {ℓ} (A : Type ℓ) : Type ℓ where
  done : A → Outcome A
  fault : Outcome A

infixl 5 ◌>>=◌ ◌>>◌
abbrev pub ◌>>=◌ {ℓ κ} : {A : Type ℓ} {B : Type κ} → Outcome A → (A → Outcome B) → Outcome B
done a >>= f = f a
fault >>= f = fault

abbrev pub ◌>>◌ {ℓ} : {B : Type ℓ} → Outcome (Unit {0}) → Outcome B → Outcome B
m >> k = m >>= λ _. k

-- `assert(b)`.
abbrev pub assert : Bool → Outcome (Unit {0})
assert true = done tt
assert false = fault

-- `*o` of a `std::optional`, or a pointer or an iterator that must be there.
abbrev pub deref {ℓ} : {A : Type ℓ} → Option A → Outcome A
deref none = fault
deref (some a) = done a

pub Outcome-cases {ℓ} : {A : Type ℓ} (o : Outcome A) → (o ≡ fault) ⊎ ((a : A) × (o ≡ done a))
Outcome-cases fault = inl refl
Outcome-cases (done a) = inr (a, refl)
