-- ===== src/Base/Outcomes.antt =====
-- What a call does: it returns, it returns its error value, or it has no defined behaviour.
use Prim.Native.Nat.{ℕ}
use mathlib.Core.Bool.{Bool, true, false}
use mathlib.Core.Option.{Option, none, some}

-- `done a`: the call returns and `a` holds the result with what is stored through pointers.
-- `failed n`: it returns the error value -n (0 where the function reports errors by 0).
-- `fault`: a failed assertion, or an access outside of an array.
pub data Outcome {ℓ} (A : Type ℓ) : Type ℓ where
  done : A → Outcome A
  failed : ℕ → Outcome A
  fault : Outcome A

infixl 5 ◌>>=◌ ◌>>◌
abbrev pub ◌>>=◌ {ℓ κ} : {A : Type ℓ} {B : Type κ} → Outcome A → (A → Outcome B) → Outcome B
done a >>= f = f a
failed n >>= f = failed n
fault >>= f = fault

abbrev pub ◌>>◌ {ℓ} : {B : Type ℓ} → Outcome (Unit {0}) → Outcome B → Outcome B
m >> k = m >>= λ _. k

abbrev pub assert : Bool → Outcome (Unit {0})
assert true = done tt
assert false = fault

-- `if (test) return -n;`
abbrev pub fail_if : Bool → ℕ → Outcome (Unit {0})
fail_if true n = failed n
fail_if false n = done tt

abbrev pub at_index {ℓ} : {A : Type ℓ} → Option A → Outcome A
at_index none = fault
at_index (some a) = done a
