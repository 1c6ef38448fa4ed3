-- ===== src/Common/Int.antt =====
-- The values of `int`: `negsuc n` is -(n + 1).
use Prim.Native.Nat.{ℕ, suc, ◌+◌, ◌-◌}
use mathlib.Core.Path.{◌≡◌, refl}
use mathlib.Core.Bool.{Bool, true, false}
use native.Mathlib.Omega.{arith}
use dan.Common.Tests.{◌==◌, ltb, leb, if◌then◌else◌}

pub data ℤ : Type 0 where
  pos : ℕ → ℤ
  negsuc : ℕ → ℤ

abbrev pub int_eq : ℤ → ℤ → Bool
int_eq (pos a) (pos b) = a == b
int_eq (negsuc a) (negsuc b) = a == b
int_eq _ _ = false

pub int_eq→eq : (a b : ℤ) → int_eq a b ≡ true → a ≡ b
int_eq→eq (pos a) (pos b) h = ground arith
int_eq→eq (negsuc a) (negsuc b) h = ground arith
int_eq→eq (pos a) (negsuc b) h = cc
int_eq→eq (negsuc a) (pos b) h = cc

pub int_eq_refl : (a : ℤ) → int_eq a a ≡ true
int_eq_refl (pos a) = ground arith
int_eq_refl (negsuc a) = ground arith

abbrev pub int_lt : ℤ → ℤ → Bool
int_lt (pos a) (pos b) = ltb a b
int_lt (pos a) (negsuc b) = false
int_lt (negsuc a) (pos b) = true
int_lt (negsuc a) (negsuc b) = ltb b a

pub int_lt_irrefl : (a : ℤ) → int_lt a a ≡ false
int_lt_irrefl (pos a) = ground arith
int_lt_irrefl (negsuc a) = ground arith

pub int_lt_asym : (a b : ℤ) → int_lt a b ≡ true → int_lt b a ≡ false
int_lt_asym (pos a) (pos b) h = ground arith
int_lt_asym (pos a) (negsuc b) h = cc
int_lt_asym (negsuc a) (pos b) h = refl
int_lt_asym (negsuc a) (negsuc b) h = ground arith

-- `a ≤ b` and `b ≤ c` give `a ≤ c`.
pub int_le_trans : (a b c : ℤ) → int_lt b a ≡ false → int_lt c b ≡ false → int_lt c a ≡ false
int_le_trans (pos a) (pos b) (pos c) h k = ground arith
int_le_trans (pos a) (pos b) (negsuc c) h k = cc
int_le_trans (pos a) (negsuc b) c h k = cc
int_le_trans (negsuc a) (pos b) (pos c) h k = refl
int_le_trans (negsuc a) (pos b) (negsuc c) h k = cc
int_le_trans (negsuc a) (negsuc b) (pos c) h k = refl
int_le_trans (negsuc a) (negsuc b) (negsuc c) h k = ground arith

pub int_ge_of_eq : (a b : ℤ) → int_eq a b ≡ true → int_lt a b ≡ false
int_ge_of_eq (pos a) (pos b) h = ground arith
int_ge_of_eq (negsuc a) (negsuc b) h = ground arith
int_ge_of_eq (pos a) (negsuc b) h = cc
int_ge_of_eq (negsuc a) (pos b) h = cc

pub int_le_of_eq : (a b : ℤ) → int_eq a b ≡ true → int_lt b a ≡ false
int_le_of_eq (pos a) (pos b) h = ground arith
int_le_of_eq (negsuc a) (negsuc b) h = ground arith
int_le_of_eq (pos a) (negsuc b) h = cc
int_le_of_eq (negsuc a) (pos b) h = cc

abbrev pub pos_part : ℤ → ℕ
pos_part (pos n) = n
pos_part (negsuc n) = 0

abbrev pub neg_part : ℤ → ℕ
neg_part (pos n) = 0
neg_part (negsuc n) = suc n

-- a - b, for natural numbers and for integers.
abbrev pub sub_ℕ : ℕ → ℕ → ℤ
sub_ℕ a b = if leb b a then pos (a - b) else negsuc (b - a - 1)

infixl 65 ◌-ℤ◌
abbrev pub ◌-ℤ◌ : ℤ → ℤ → ℤ
a -ℤ b = sub_ℕ (pos_part a + neg_part b) (neg_part a + pos_part b)
