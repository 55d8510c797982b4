-- ===== src/Base/Outcome.antt =====
-- What a call with assertions and bounded loops comes to.
use mathlib.Core.Bool.{Bool, true, false}
use mathlib.Core.Path.{◌≡◌}

-- It returns, a LWIP_ASSERT aborts, or the bound on a loop runs out.
pub data Outcome (A : Type 0) : Type 0 where
  ok : A → Outcome A
  assert_failed : Outcome A
  out_of_fuel : Outcome A

infixl 5 ◌>>=◌
abbrev pub ◌>>=◌ : {A B : Type 0} → Outcome A → (A → Outcome B) → Outcome B
ok a >>= f = f a
assert_failed >>= f = assert_failed
out_of_fuel >>= f = out_of_fuel

-- LWIP_ASSERT
abbrev pub asserting : {A : Type 0} → Bool → Outcome A → Outcome A
asserting true m = m
asserting false m = assert_failed

pub ok-injective : {A : Type 0} {a b : A} → ok a ≡ ok b → a ≡ b
ok-injective e = cc
