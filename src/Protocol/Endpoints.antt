-- ===== src/Protocol/Endpoints.antt =====
-- protocol.hpp, lines 172 to 182 and 193 to 209, and route.hpp, lines 58 to 72: the addresses that a
-- peer may name.
pub mod Targets
use dan.Common.{
  ℕ, ◌+◌, ◌*◌, ◌-◌, ◌^◌, Bool, true, false, not, ◌&&◌, ◌||◌, List, [], ◌∷◌, Option, none, some,
  Bytes, leb, ltb, ◌==◌, if◌then◌else◌, length, drop, all,
}
use dan.Common.Text.{codes, starts_with, split_at, parse_unsigned}
use dan.Protocol.Peers.{valid_peer_id}

abbrev pub is_empty : Bytes → Bool
is_empty [] = true
is_empty (c ∷ text) = false

-- The text before the last `mark` and the text after it: `rfind`.
abbrev pub split_last : ℕ → Bytes → Option (Bytes × Bytes)
split_last mark [] = none
split_last mark (c ∷ text) = elim (split_last mark text) [
  | some (before, after) ↦ some (c ∷ before, after)
  | none ↦ if c == mark then some ([], text) else none
]

-- `find_first_of("\r\n \t") != npos`
abbrev pub is_blank : ℕ → Bool
is_blank c = c == 13 || c == 10 || c == 32 || c == 9

abbrev pub lacks_blanks : Bytes → Bool
lacks_blanks = all (λ c. not (is_blank c))

-- The port: a decimal `unsigned int` from 1 to 65535.
abbrev pub valid_port : Bytes → Bool
valid_port value = elim (parse_unsigned (2 ^ 32 - 1) value) [
  | none ↦ false
  | some port ↦ not (port == 0) && leb port 65535
]

unfoldable pub valid_endpoint : Bytes → Bool
valid_endpoint endpoint = if is_empty endpoint then true else elim (split_last b':' endpoint) [
  | none ↦ false
  | some (host, value) ↦
      not (is_empty host) && not (is_empty value) && lacks_blanks endpoint && valid_port value
]

-- Letters, digits and "/._:-,".
abbrev pub is_target_byte : ℕ → Bool
is_target_byte c =
    (leb b'a' c && leb c b'z')
    || (leb b'A' c && leb c b'Z')
    || (leb b'0' c && leb c b'9')
    || c == b'/'
    || c == b'.'
    || c == b'_'
    || c == b':'
    || c == b'-'
    || c == b','

abbrev pub last_is : ℕ → Bytes → Bool
last_is mark [] = false
last_is mark (c ∷ []) = c == mark
last_is mark (c ∷ d ∷ text) = last_is mark (d ∷ text)

-- What follows the last "/p2p/": `rfind` of a text.
abbrev pub after_last_p2p : Bytes → Option Bytes
after_last_p2p [] = none
after_last_p2p (c ∷ text) = elim (after_last_p2p text) [
  | some peer ↦ some peer
  | none ↦ if starts_with (c ∷ text) (codes "/p2p/") then some (drop 5 (c ∷ text)) else none
]

abbrev pub valid_address : Bytes → Bool
valid_address address = elim (after_last_p2p address) [
  | none ↦ false
  | some peer ↦ starts_with address (codes "/") && valid_peer_id peer
]

-- The texts between the commas; `value` is not empty and does not end in a comma.
abbrev pub between_commas : Bytes → List Bytes
between_commas [] = [] ∷ []
between_commas (c ∷ text) = elim (between_commas text) [
  | [] ↦ []
  | first ∷ rest ↦ if c == b',' then [] ∷ first ∷ rest else (c ∷ first) ∷ rest
]

unfoldable pub valid_ring_target : Bytes → Bool
unfolding valid_endpoint
valid_ring_target value =
    valid_endpoint value
    || (not (is_empty value)
        && not (last_is b',' value)
        && leb (length value) (16 * 1024)
        && all is_target_byte value
        && all valid_address (between_commas value))

unfoldable pub valid_p2p_target : Bytes → Bool
unfolding valid_ring_target
valid_p2p_target value = starts_with value (codes "/") && valid_ring_target value

-- 127/8, 10/8, 172.16/12, 192.168/16 or 100.64/10, from the first two bytes of the address.
abbrev pub is_private : ℕ → ℕ → Bool
is_private a b =
    a == 127
    || a == 10
    || (a == 172 && leb 16 b && leb b 31)
    || (a == 192 && b == 168)
    || (a == 100 && leb 64 b && leb b 127)

-- `inet_pton` is a parameter: the four bytes of a numeric IPv4 address.
unfoldable pub valid_private_endpoint : (Bytes → Option (ℕ × ℕ × ℕ × ℕ)) → Bytes → Bool
unfolding valid_endpoint
valid_private_endpoint inet_pton value =
    if is_empty value || starts_with value (codes "/") || not (valid_endpoint value)
    then false
    else elim (split_last b':' value) [
      | none ↦ false
      | some (host, port) ↦ elim (inet_pton host) [
        | none ↦ false
        | some (a, b, c, d) ↦ is_private a b
      ]
    ]
