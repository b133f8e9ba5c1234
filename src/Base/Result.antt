-- ===== src/Base/Result.antt =====
-- How a run of a C function ends: with a value, or with a failure that the source rules out.
use mathlib.Core.Bool.{Bool, true, false}

-- `assertion` is a failed `g_assert`, `dangling` an access through a pointer to freed memory,
-- `null_pointer` one through a null pointer,
-- `out_of_bounds` a read past the end of the bytes that were received,
-- `deadlock` a call that never returns, as two threads wait for each other,
-- `out_of_fuel` a loop that was cut off by the bound of the model.
pub data Failure : Type 0 where
  assertion dangling null_pointer out_of_bounds deadlock out_of_fuel : Failure

pub data Outcome {ℓ} (A : Type ℓ) : Type ℓ where
  ok : A → Outcome A
  fail : Failure → Outcome A

infixl 5 ◌>>=◌ ◌>>◌
abbrev pub ◌>>=◌ {ℓ κ} : {A : Type ℓ} {B : Type κ} → Outcome A → (A → Outcome B) → Outcome B
ok a >>= f = f a
fail e >>= f = fail e

abbrev pub ◌>>◌ {ℓ} : {B : Type ℓ} → Outcome (Unit {0}) → Outcome B → Outcome B
m >> k = m >>= λ _. k

-- `g_assert`
abbrev pub assert : Bool → Outcome (Unit {0})
assert true = ok tt
assert false = fail assertion
