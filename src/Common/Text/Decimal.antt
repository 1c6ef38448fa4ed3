-- ===== src/Common/Text/Decimal.antt =====
-- Printing and reading back decimal numbers.
use Prim.Native.Nat.{ℕ, zero, suc, ◌+◌, ◌-◌, ◌/◌, ◌%◌, ◌^◌, ◌≤◌, ◌<◌}
use mathlib.Core.Path.{◌≡◌, refl}
use mathlib.Core.Bool.{Bool, true, false, not}
use mathlib.Core.List.{[], ◌∷◌, ◌++◌}
use mathlib.Core.Option.{none, some}
use native.Mathlib.Omega.{arith}
use native.Mathlib.Nat.{pow-suc}
use mathlib.Core.Logic.{inl, inr}
use dan.Common.Tests.{ltb, ◌==◌, Bytes, Bool-cases, le→leb}
use dan.Common.Lists.{all}
use dan.Common.Int.{ℤ, pos, negsuc}
use dan.Common.Text.{
  is_digit, split_at, digits_value, parse_unsigned, parse_int, print_loop, to_string, int_to_string,
}

-- Reading the digits of n and then `tail` is reading `tail` from n.
print_loop-value :
    (k n : ℕ) (tail : Bytes)
    → n < 10 ^ suc k
    → digits_value 0 (print_loop (suc k) n tail) ≡ digits_value n tail
unfolding print_loop digits_value
print_loop-value zero n tail h = ground arith
print_loop-value (suc k) n tail h = ground (
  arith,
  print_loop-value k (n / 10) ((n % 10 + b'0') ∷ tail) (omega (arith, pow-suc 10 (suc k))),
)

-- What is printed begins with a digit.
print_loop_head :
    (k n : ℕ) (tail : Bytes)
    → (c : ℕ) × (rest : Bytes) × (print_loop (suc k) n tail ≡ c ∷ rest) × (is_digit c ≡ true)
unfolding print_loop
print_loop_head zero n tail = elim (Bool-cases (ltb n 10)) [
  | inl small ↦ (n + b'0', tail, rw small, ground arith)
  | inr large ↦ (n % 10 + b'0', tail, rw large, ground arith)
]
print_loop_head (suc k) n tail = elim (Bool-cases (ltb n 10)) [
  | inl small ↦ (n + b'0', tail, rw small, ground arith)
  | inr large ↦
      (let (c, rest, e, d) = print_loop_head k (n / 10) ((n % 10 + b'0') ∷ tail) in
        (c, rest, rw large e, d))
]

pub parse_unsigned-to_string :
    (limit n : ℕ) → n ≤ limit → n < 2 ^ 64 → parse_unsigned limit (to_string n) ≡ some n
unfolding to_string parse_unsigned digits_value
parse_unsigned-to_string limit n h w =
    let (c, rest, e, _) = print_loop_head 19 n [] in
    let v = print_loop-value 19 n [] (omega arith) in rw e (go c rest (rw e at v))
  where
    go :
        (c : ℕ) (rest : Bytes)
        → digits_value 0 (c ∷ rest) ≡ some n
        → parse_unsigned limit (c ∷ rest) ≡ some n
    go c rest v = rw (v, parse_unsigned) (rw (le→leb n limit h))

-- The values of a 32-bit `int`.
abbrev pub IsInt : ℤ → Type 0
IsInt (pos n) = n < 2 ^ 31
IsInt (negsuc n) = n < 2 ^ 31

parse_int_digits :
    (c : ℕ) (rest : Bytes) (n : ℕ)
    → is_digit c ≡ true
    → parse_unsigned (2 ^ 31 - 1) (c ∷ rest) ≡ some n
    → parse_int (c ∷ rest) ≡ some (pos n)
unfolding parse_int
parse_int_digits c rest n d v = ground arith

pub parse_int-to_string : (z : ℤ) → IsInt z → parse_int (int_to_string z) ≡ some z
unfolding int_to_string to_string parse_int
parse_int-to_string (pos n) h =
    let (c, rest, e, d) = print_loop_head 19 n [] in
    let v = parse_unsigned-to_string (2 ^ 31 - 1) n (omega arith) (omega arith) in
    rw e (parse_int_digits c rest n d (rw e at v))
parse_int-to_string (negsuc n) h =
    ground (arith, parse_unsigned-to_string (2 ^ 31) (n + 1) (omega arith) (omega arith))

-- A text without a given byte.
abbrev pub lacks : ℕ → Bytes → Bool
lacks mark = all (λ c. not (c == mark))

print_loop-lacks :
    (mark k n : ℕ) (tail : Bytes)
    → is_digit mark ≡ false
    → lacks mark tail ≡ true
    → lacks mark (print_loop k n tail) ≡ true
unfolding print_loop
print_loop-lacks mark zero n tail h t = t
print_loop-lacks mark (suc k) n tail h t =
    ground (arith, print_loop-lacks mark k (n / 10) ((n % 10 + b'0') ∷ tail))

pub to_string-lacks : (mark n : ℕ) → is_digit mark ≡ false → lacks mark (to_string n) ≡ true
unfolding to_string
to_string-lacks mark n h = print_loop-lacks mark 20 n [] h refl

pub split_at-lacks :
    (mark : ℕ) (before after : Bytes)
    → lacks mark before ≡ true
    → split_at mark (before ++ (mark ∷ after)) ≡ some (before, after)
split_at-lacks mark [] after h = ground arith
split_at-lacks mark (c ∷ before) after h = ground (arith, split_at-lacks mark before after)

pub split_at_none : (mark : ℕ) (text : Bytes) → lacks mark text ≡ true → split_at mark text ≡ none
split_at_none mark [] h = refl
split_at_none mark (c ∷ text) h = ground (arith, split_at_none mark text)

pub int_to_string-lacks :
    (mark : ℕ) (z : ℤ)
    → is_digit mark ≡ false
    → (b'-' == mark) ≡ false
    → lacks mark (int_to_string z) ≡ true
unfolding int_to_string
int_to_string-lacks mark (pos n) h k = to_string-lacks mark n h
int_to_string-lacks mark (negsuc n) h k = ground (arith, to_string-lacks mark (n + 1) h)
