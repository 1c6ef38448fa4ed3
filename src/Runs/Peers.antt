-- ===== src/Runs/Peers.antt =====
-- protocol.hpp, parse_peer_id on one line.
use dan.Common.{◌≡◌, refl, none}
use dan.Common.Text.{codes}
use dan.Protocol.Peers.{parse_peer_id}

too_short : parse_peer_id (codes "DAN-P2P/1 QmYwAPJzv5") ≡ none
unfolding parse_peer_id
too_short = refl
