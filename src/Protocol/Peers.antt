-- ===== src/Protocol/Peers.antt =====
-- protocol.hpp, lines 151 to 161 and 184 to 191: the line in which a peer names itself, and peer ids.
pub mod Lines
use dan.Common.{
  ℕ, Bool, true, false, ◌&&◌, ◌||◌, List, [], ◌∷◌, Option, none, some, Bytes, leb, if◌then◌else◌,
  length, drop, all,
}
use dan.Common.Text.{codes, starts_with}

-- The alphabet of base 58.
abbrev pub is_base58 : ℕ → Bool
is_base58 c =
    (leb b'1' c && leb c b'9')
    || (leb b'A' c && leb c b'H')
    || (leb b'J' c && leb c b'N')
    || (leb b'P' c && leb c b'Z')
    || (leb b'a' c && leb c b'k')
    || (leb b'm' c && leb c b'z')

unfoldable pub valid_peer_id : Bytes → Bool
valid_peer_id value = leb 32 (length value) && leb (length value) 90 && all is_base58 value

abbrev pub peer_prefix : Bytes
peer_prefix = codes "DAN-P2P/1 "

-- The argument that receives the id counts only where the answer is true.
unfoldable pub parse_peer_id : Bytes → Option Bytes
parse_peer_id line =
    if starts_with line peer_prefix
    then (let peer_id = drop (length peer_prefix) line in
        if leb 32 (length peer_id) && leb (length peer_id) 90 && all is_base58 peer_id
        then some peer_id
        else none)
    else none
