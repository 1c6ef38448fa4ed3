-- ===== src/Protocol/Words.antt =====
-- protocol.hpp, put16 to get64: big-endian words in a byte array. A pointer `data + at` is the
-- array and the offset; a byte is a number, and the words are unsigned with their wrap-around.
pub mod Inverse
use dan.Common.{ℕ, zero, suc, ◌+◌, ◌*◌, ◌/◌, ◌%◌, ◌^◌, Bytes, set, get_or, bit_or}

unfoldable pub put16 : Bytes → ℕ → ℕ → Bytes
put16 d at value = set (set d at (value / 2 ^ 8 % 256)) (at + 1) (value % 256)

unfoldable pub put32 : Bytes → ℕ → ℕ → Bytes
put32 d at value =
    set
      (set (set (set d at (value / 2 ^ 24 % 256)) (at + 1) (value / 2 ^ 16 % 256)) (at + 2)
        (value / 2 ^ 8 % 256))
      (at + 3) (value % 256)

-- The loop from index 7 down to 0; the first argument is the index plus one.
unfoldable pub put64_loop : ℕ → Bytes → ℕ → ℕ → Bytes
put64_loop zero d at value = d
put64_loop (suc index) d at value =
    put64_loop index (set d (at + index) (value % 256)) at (value / 2 ^ 8)

unfoldable pub put64 : Bytes → ℕ → ℕ → Bytes
unfolding put64_loop
put64 d at value = put64_loop 8 d at value

unfoldable pub get16 : Bytes → ℕ → ℕ
get16 d at = bit_or (get_or d at 0 * 2 ^ 8) (get_or d (at + 1) 0)

unfoldable pub get32 : Bytes → ℕ → ℕ
get32 d at =
    bit_or
      (bit_or (bit_or (get_or d at 0 * 2 ^ 24) (get_or d (at + 1) 0 * 2 ^ 16))
        (get_or d (at + 2) 0 * 2 ^ 8))
      (get_or d (at + 3) 0)

-- The loop from `index` up over the rounds that are left.
get64_loop : ℕ → Bytes → ℕ → ℕ → ℕ
get64_loop zero d at value = value
get64_loop (suc rounds) d at value =
    get64_loop rounds d (at + 1) (bit_or (value * 2 ^ 8 % 2 ^ 64) (get_or d at 0))

unfoldable pub get64 : Bytes → ℕ → ℕ
unfolding get64_loop
get64 d at = get64_loop 8 d at 0
