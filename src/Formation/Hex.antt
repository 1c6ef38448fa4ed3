-- ===== src/Formation/Hex.antt =====
-- formation.hpp, hex_string.
use dan.Common.{
  ℕ, ◌≡◌, refl, Bool, true, false, ◌&&◌, ◌||◌, [], ◌∷◌, Bytes, leb, ◌==◌, length, all, arith,
  &&-true,
}
use dan.Common.Text.Decimal.{lacks}

abbrev pub is_hex : ℕ → Bool
is_hex c = (leb b'0' c && leb c b'9') || (leb b'a' c && leb c b'f') || (leb b'A' c && leb c b'F')

unfoldable pub hex_string : Bytes → ℕ → Bool
hex_string value size = length value == size && all is_hex value

all_hex-lacks :
    (mark : ℕ) (value : Bytes)
    → is_hex mark ≡ false
    → all is_hex value ≡ true
    → lacks mark value ≡ true
all_hex-lacks mark [] m h = refl
all_hex-lacks mark (c ∷ value) m h =
    let (first, rest) = &&-true (is_hex c) (all is_hex value) h in
    let tail = all_hex-lacks mark value m rest in ground arith

pub hex_string-lacks :
    (mark : ℕ) (value : Bytes) (size : ℕ)
    → is_hex mark ≡ false
    → hex_string value size ≡ true
    → lacks mark value ≡ true
unfolding hex_string
hex_string-lacks mark value size m h =
    all_hex-lacks mark value m (&&-true (length value == size) (all is_hex value) h).1
