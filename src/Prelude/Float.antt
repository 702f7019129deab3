-- ===== src/Prelude/Float.antt =====
-- The part of Go's float64 that the program uses, as a parameter: the models state no arithmetic
-- law of it that they do not name as a hypothesis.
use Prim.Native.Nat.{ℕ}
use mathlib.Core.Bool.{Bool}

pub record Float64 : Type 1 where
  pub Carrier : Type 0
  pub of_ℕ : ℕ → Carrier
  pub divide : Carrier → Carrier → Carrier
  pub is_zero : Carrier → Bool
  pub le : Carrier → Carrier → Bool
