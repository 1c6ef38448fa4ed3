-- ===== src/Route/RoundTrip.antt =====
-- route.hpp, route_message and parse_route: a valid route is read back as it was.
use dan.Common.{
  ◌≡◌, refl, ap, ◌∙◌, true, not, ◌||◌, [], ◌∷◌, some, Bytes, bytes_eq, bytes_eq→eq, Bool-cases, inl,
  inr, arith,
}
use dan.Common.Text.{codes}
use dan.Common.Text.Decimal.{lacks}
use dan.Common.Text.Entries.{keep_if, when}
use dan.Common.Text.Entries.RoundTrip.{AllEntries-when, fold_entries, read_entries-entries_text}
use dan.Protocol.Peers.{valid_peer_id}
use dan.Protocol.Endpoints.{is_empty, valid_ring_target}
use dan.Protocol.Endpoints.Targets.{valid_peer_id-lacks, valid_ring_target-lacks}
use dan.Route.{
  RingRoute, empty_route, loop_self, route_entries, route_message, route_step, valid_route,
  parse_route,
}

fold_loop :
    (next previous loop : Bytes)
    → fold_entries route_step
        (record { next = next; previous_peer = previous; loop = [] })
        (when (not (is_empty loop)) (codes "loop", loop) [])
      ≡ some (record { next = next; previous_peer = previous; loop = loop })
unfolding fold_entries route_step
fold_loop next previous [] = refl
fold_loop next previous (c ∷ loop) = refl

fold_previous :
    (next previous loop : Bytes)
    → fold_entries route_step
        (record { next = next; previous_peer = []; loop = [] })
        (when
          (not (is_empty previous))
          (codes "previous_peer", previous)
          (when (not (is_empty loop)) (codes "loop", loop) []))
      ≡ some (record { next = next; previous_peer = previous; loop = loop })
unfolding fold_entries route_step
fold_previous next [] loop = fold_loop next [] loop
fold_previous next (c ∷ previous) loop = fold_loop next (c ∷ previous) loop

fold_route : (r : RingRoute) → fold_entries route_step empty_route (route_entries r) ≡ some r
unfolding fold_entries route_step route_entries
fold_route r = fold_previous r.next r.previous_peer r.loop

loop-lacks :
    (loop : Bytes)
    → (is_empty loop || bytes_eq loop loop_self || valid_ring_target loop) ≡ true
    → not (is_empty loop) ≡ true
    → lacks b'\n' loop ≡ true
loop-lacks loop h k = elim (Bool-cases (bytes_eq loop loop_self)) [
  | inl e ↦ rw (bytes_eq→eq loop loop_self e) refl
  | inr e ↦ valid_ring_target-lacks loop (ground arith)
]

previous-lacks :
    (peer : Bytes)
    → (is_empty peer || valid_peer_id peer) ≡ true
    → not (is_empty peer) ≡ true
    → lacks b'\n' peer ≡ true
previous-lacks peer h k = valid_peer_id-lacks peer (ground arith)

valid_texts :
    (r : RingRoute)
    → valid_route r ≡ true
    → ((is_empty r.previous_peer || valid_peer_id r.previous_peer) ≡ true)
      × ((is_empty r.loop || bytes_eq r.loop loop_self || valid_ring_target r.loop) ≡ true)
unfolding valid_route
valid_texts r h = ground arith

-- A route that the checks of `parse_route` accept, and whose `next` has no newline, is read back from
-- its message as it was.
pub parse_route-route_message :
    (r : RingRoute)
    → lacks b'\n' r.next ≡ true
    → valid_route r ≡ true
    → parse_route (route_message r) ≡ some r
unfolding parse_route route_message route_entries
parse_route-route_message r n v =
    let (previous, loop) = valid_texts r v in
    ap (keep_if valid_route) (
      read_entries-entries_text route_step empty_route (route_entries r) (
        (refl, refl, n),
        AllEntries-when (not (is_empty r.previous_peer)) (codes "previous_peer", r.previous_peer) _
            (λ k. (refl, refl, previous-lacks r.previous_peer previous k))
            (AllEntries-when (not (is_empty r.loop)) (codes "loop", r.loop) []
              (λ k. (refl, refl, loop-lacks r.loop loop k)) tt),
      )
      ∙ fold_route r)
    ∙ rw v refl
