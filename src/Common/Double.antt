-- ===== src/Common/Double.antt =====
-- The type `double` and what the code does with it, as a parameter: ℕ has no fractions, and the
-- theorems that take it hold whatever the rounding is.
use Prim.Native.Nat.{ℕ}
use mathlib.Core.Bool.{Bool}
use dan.Common.Int.{ℤ}

pub record Doubles : Type 1 where
  pub Double : Type 0
  -- The decimal literal n / d, and the conversion of an unsigned integer.
  pub literal : ℕ → ℕ → Double
  pub of_nat : ℕ → Double
  pub add : Double → Double → Double
  pub mul : Double → Double → Double
  pub div : Double → Double → Double
  pub lt : Double → Double → Bool
  pub le : Double → Double → Bool
  pub eq : Double → Double → Bool
  pub is_finite : Double → Bool
  pub infinity : Double
  pub llround : Double → ℤ
