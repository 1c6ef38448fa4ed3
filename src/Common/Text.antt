-- ===== src/Common/Text.antt =====
-- Text as bytes, and the parts of the standard library that the parsers use: `starts_with`,
-- `find`, `std::to_string` and `std::from_chars` on a whole text.
pub mod Decimal
pub mod Entries
use Prim.Native.Char.{code}
use Prim.Native.String.{String}
use Prim.Native.Nat.{ℕ, zero, suc, ◌+◌, ◌-◌, ◌*◌, ◌/◌, ◌%◌, ◌^◌}
use mathlib.Core.Bool.{Bool, true, false, ◌&&◌}
use mathlib.Core.List.{List, [], ◌∷◌, ◌++◌}
use mathlib.Core.Option.{Option, none, some}
use dan.Common.Tests.{leb, ltb, ◌==◌, if◌then◌else◌, Bytes}
use dan.Common.Int.{ℤ, pos, negsuc}

-- The bytes of an ASCII literal.
abbrev pub codes : String → Bytes
codes String.[] = []
codes (String.◌∷◌ c s) = code c ∷ codes s

abbrev pub starts_with : Bytes → Bytes → Bool
starts_with text [] = true
starts_with [] (p ∷ prefix) = false
starts_with (c ∷ text) (p ∷ prefix) = c == p && starts_with text prefix

-- The text before the first `mark` and the text after it; `none` where `find` answers npos.
abbrev pub split_at : ℕ → Bytes → Option (Bytes × Bytes)
split_at mark [] = none
split_at mark (c ∷ text) =
    let rest = split_at mark text in
    if c == mark
    then some ([], text)
    else elim rest [ none ↦ none | some (before, after) ↦ some (c ∷ before, after) ]

abbrev pub is_digit : ℕ → Bool
is_digit c = leb b'0' c && leb c b'9'

-- The value of a run of digits, most significant first, from the value read so far.
unfoldable pub digits_value : ℕ → Bytes → Option ℕ
digits_value acc [] = some acc
digits_value acc (c ∷ text) =
    let rest = digits_value (acc * 10 + (c - b'0')) text in if is_digit c then rest else none

-- `from_chars` into an unsigned type whose largest value is `limit`, where the caller also asks
-- that the whole text is read: some digits, nothing else, and no overflow.
unfoldable pub parse_unsigned : ℕ → Bytes → Option ℕ
unfolding digits_value
parse_unsigned limit [] = none
parse_unsigned limit (c ∷ text) = elim (digits_value 0 (c ∷ text)) [
  | none ↦ none
  | some v ↦ if leb v limit then some v else none
]

-- The same into `int`, which may have a minus sign.
unfoldable pub parse_int : Bytes → Option ℤ
unfolding parse_unsigned
parse_int [] = none
parse_int (c ∷ text) =
    if c == b'-'
    then elim (parse_unsigned (2 ^ 31) text) [
      | none ↦ none
      | some zero ↦ some (pos 0)
      | some (suc n) ↦ some (negsuc n)
    ]
    else elim (parse_unsigned (2 ^ 31 - 1) (c ∷ text)) [ none ↦ none | some n ↦ some (pos n) ]

-- The digits of n before `tail`; the first argument bounds their number.
unfoldable pub print_loop : ℕ → ℕ → Bytes → Bytes
print_loop zero n tail = tail
print_loop (suc k) n tail =
    let rest = print_loop k (n / 10) ((n % 10 + b'0') ∷ tail) in
    if ltb n 10 then (n + b'0') ∷ tail else rest

-- `std::to_string` of an unsigned integer of at most 64 bits, which has at most 20 digits.
unfoldable pub to_string : ℕ → Bytes
unfolding print_loop
to_string n = print_loop 20 n []

-- `std::to_string` of an `int`.
unfoldable pub int_to_string : ℤ → Bytes
unfolding to_string
int_to_string (pos n) = to_string n
int_to_string (negsuc n) = b'-' ∷ to_string (n + 1)
