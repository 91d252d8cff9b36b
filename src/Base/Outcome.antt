-- ===== src/Base/Outcome.antt =====
-- What a pass over the tree can do: return, or end the program.
use mathlib.Core.Path.{◌≡◌, refl, subst}
use mathlib.Core.Bool.{Bool, true, false}

-- The ways out: `exit(1)` after a message, `abort()`, and a null pointer that is followed.
pub data Fault : Type 0 where
  negated_conjunction negated_subgroup : Fault
  corrupt_siblings unexpanded_negation : Fault
  null_pointer : Fault

pub data Outcome {ℓ} (A : Type ℓ) : Type ℓ where
  ok : A → Outcome A
  fault : Fault → Outcome A

infixl 5 ◌>>=◌ ◌>>◌
abbrev pub ◌>>=◌ {ℓ κ} : {A : Type ℓ} {B : Type κ} → Outcome A → (A → Outcome B) → Outcome B
fault e >>= f = fault e
ok a >>= f = f a

abbrev pub ◌>>◌ {ℓ} : {B : Type ℓ} → Outcome (Unit {0}) → Outcome B → Outcome B
m >> k = m >>= λ _. k

abbrev pub stop_if : Bool → Fault → Outcome (Unit {0})
stop_if true e = fault e
stop_if false e = ok tt

-- The run returns, and what it returns satisfies `P`.
pub data Returns {ℓ κ} {A : Type ℓ} (P : A → Type κ) : Outcome A → Type (ℓ ⊔ κ) where
  returns : {a : A} → P a → Returns P (ok a)

module _ {ℓ κ} {A : Type ℓ} {P : A → Type κ} where
  pub Returns-bind {ℓ' κ'} :
      {B : Type ℓ'} {Q : B → Type κ'} {r : Outcome A} {f : A → Outcome B}
      → Returns P r
      → ((a : A) → P a → Returns Q (f a))
      → Returns Q (r >>= f)
  Returns-bind (returns {a} h) k = k a h

  pub Returns-ok : {r : Outcome A} → Returns P r → (a : A) × (r ≡ ok a) × P a
  Returns-ok (returns {a} h) = (a, refl, h)

  pub Returns-at : {r : Outcome A} {a : A} → Returns P r → r ≡ ok a → P a
  Returns-at (returns h) e = subst P (cc) h

pub Returns-both {ℓ κ κ'} :
    {A : Type ℓ} {P : A → Type κ} {Q : A → Type κ'} {r : Outcome A}
    → Returns P r
    → Returns Q r
    → Returns (λ a. P a × Q a) r
Returns-both (returns h) q = returns (h, Returns-at q refl)
