-- ===== src/Route.antt =====
-- engine/include/provider_owned/route.hpp: where a stage sends its output, carried as text when a
-- session is created.
pub mod RoundTrip
use dan.Common.{
  ℕ, Bool, true, false, not, ◌&&◌, ◌||◌, List, [], ◌∷◌, Option, none, some, Bytes, bytes_eq,
  if◌then◌else◌,
}
use dan.Common.Text.{codes}
use dan.Common.Text.Entries.{entries_text, read_entries, keep_if, when}
use dan.Protocol.Peers.{valid_peer_id}
use dan.Protocol.Endpoints.{is_empty, valid_ring_target}

pub record RingRoute : Type 0 where
  pub next : Bytes
  pub previous_peer : Bytes
  pub loop : Bytes

-- `RingRoute{}`
abbrev pub empty_route : RingRoute
empty_route = record { next = []; previous_peer = []; loop = [] }

abbrev pub loop_self : Bytes
loop_self = codes "self"

unfoldable pub route_entries : RingRoute → List (Bytes × Bytes)
route_entries r =
    (codes "next", r.next)
    ∷ when (not (is_empty r.previous_peer)) (codes "previous_peer", r.previous_peer)
        (when (not (is_empty r.loop)) (codes "loop", r.loop) [])

unfoldable pub route_message : RingRoute → Bytes
route_message r = entries_text (route_entries r)

-- A key that comes twice refuses the text, unless the first value was empty.
unfoldable pub route_step : RingRoute → Bytes → Bytes → Option RingRoute
route_step r key value =
    if bytes_eq key (codes "next") && is_empty r.next
    then some (record r { next = value })
    else if bytes_eq key (codes "previous_peer") && is_empty r.previous_peer
    then some (record r { previous_peer = value })
    else if bytes_eq key (codes "loop") && is_empty r.loop
    then some (record r { loop = value })
    else none

unfoldable pub valid_route : RingRoute → Bool
valid_route r =
    not (is_empty r.next)
    && (is_empty r.previous_peer || valid_peer_id r.previous_peer)
    && (is_empty r.loop || bytes_eq r.loop loop_self || valid_ring_target r.loop)

unfoldable pub parse_route : Bytes → Option RingRoute
parse_route text = keep_if valid_route (read_entries route_step empty_route text)
