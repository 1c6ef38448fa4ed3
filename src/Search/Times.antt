-- ===== src/Search/Times.antt =====
-- search.cpp, lines 15 to 21, 90 to 139 and 195 to 241: how long a token takes by the measured speeds
-- and links.
use dan.Common.{
  ℕ, ◌^◌, Bool, false, not, ◌&&◌, List, [], ◌∷◌, Option, none, some, Bytes, bytes_eq, ◌==◌,
  if◌then◌else◌, get_elem?, map,
}
use dan.Common.Double.{Doubles}
use dan.Protocol.Endpoints.{is_empty}
use dan.Model.{ModelIndex}
use dan.Planner.Sizes.{StageAssignment, decode_bytes}
use dan.Search.{Link, SearchCandidate, SearchRequest, LayerSizes, decode_size}

module _ (d : Doubles) where
  open d use {Double, literal, of_nat, add, mul, div, lt, le}

  -- `0.0` and the number of bytes in a GiB.
  abbrev pub zero_ms : Double
  zero_ms = of_nat 0

  abbrev pub gib : Double
  gib = of_nat (2 ^ 30)

  abbrev pub default_search_speed_us_per_gib : Double
  default_search_speed_us_per_gib = of_nat 4000

  abbrev pub speed_of : SearchCandidate d → Double
  speed_of c = if lt zero_ms c.us_per_gib then c.us_per_gib else default_search_speed_us_per_gib

  abbrev pub with_relay : Double → Bool → SearchRequest d → Double
  with_relay rtt relayed request = add rtt (if relayed then request.relay_penalty_ms else zero_ms)

  abbrev pub rtt_of : SearchCandidate d → SearchRequest d → Double
  rtt_of c request = with_relay c.rtt_ms c.relayed request

  unfoldable pub compute_ms : LayerSizes → SearchCandidate d → ℕ → ℕ → Double
  unfolding decode_size
  compute_ms sizes c begin end =
      div (mul (div (of_nat (decode_size sizes begin end)) gib) (speed_of c)) (of_nat 1000)

  -- The first link of `links` to the peer of that key.
  unfoldable pub find_link : Bytes → List (Link d) → Option (Link d)
  find_link key [] = none
  find_link key (link ∷ links) =
      if not (is_empty key) && bytes_eq link.peer key then some link else find_link key links

  unfoldable pub measured_rtt :
      SearchCandidate d → SearchCandidate d → SearchRequest d → Option Double
  unfolding find_link
  measured_rtt from to request = elim (find_link to.key from.links) [
    | some link ↦ some (with_relay link.rtt_ms link.relayed request)
    | none ↦ elim (find_link from.key to.links) [
      | some link ↦ some (with_relay link.rtt_ms link.relayed request)
      | none ↦ none
    ]
  ]

  -- `std::max` of two doubles.
  abbrev pub max_double : Double → Double → Double
  max_double a b = if lt a b then b else a

  unfoldable pub best_rate : Bytes → Double → List (Link d) → Double
  best_rate key best [] = best
  best_rate key best (link ∷ links) =
      best_rate key
        (if not (is_empty key) && bytes_eq link.peer key
          then max_double best link.mib_per_s
          else best)
        links

  unfoldable pub measured_mib_per_s : SearchCandidate d → SearchCandidate d → Double
  unfolding best_rate
  measured_mib_per_s from to = best_rate from.key (best_rate to.key zero_ms from.links) to.links

  abbrev pub is_head : SearchRequest d → ℕ → Bool
  is_head request index = elim request.head [ none ↦ false | some head ↦ index == head ]

  -- A candidate by its index; the code's indexes are all in range, and the answer is 0 for others.
  abbrev pub with_candidate : List (SearchCandidate d) → ℕ → (SearchCandidate d → Double) → Double
  with_candidate candidates index f = elim (get_elem? candidates index) [
    | none ↦ zero_ms
    | some c ↦ f c
  ]

  unfoldable pub link_one_way_ms : List (SearchCandidate d) → ℕ → ℕ → SearchRequest d → Double
  unfolding measured_rtt
  link_one_way_ms candidates from to request = with_candidate candidates from (λ a.
      with_candidate candidates to (λ b.
        if is_head request from
        then div (rtt_of b request) (of_nat 2)
        else if is_head request to
        then div (rtt_of a request) (of_nat 2)
        else elim (measured_rtt a b request) [
          | some rtt ↦ div rtt (of_nat 2)
          | none ↦ div (add (rtt_of a request) (rtt_of b request)) (of_nat 2)
        ]))

  -- The links of the ring from one member on, back to the first.
  unfoldable pub ring_loop :
      List (SearchCandidate d) → SearchRequest d → ℕ → Double → List ℕ → Double
  unfolding link_one_way_ms
  ring_loop candidates request first total [] = total
  ring_loop candidates request first total (last ∷ []) =
      add total (link_one_way_ms candidates last first request)
  ring_loop candidates request first total (at ∷ next ∷ rest) =
      ring_loop candidates request first (add total (link_one_way_ms candidates at next request))
        (next ∷ rest)

  unfoldable pub links_ms : List (SearchCandidate d) → List ℕ → SearchRequest d → Double
  unfolding ring_loop
  links_ms candidates [] request = zero_ms
  links_ms candidates (one ∷ []) request = zero_ms
  links_ms candidates (first ∷ second ∷ rest) request =
      ring_loop candidates request first zero_ms (first ∷ second ∷ rest)

  unfoldable pub stages_ms :
      ModelIndex → List (SearchCandidate d) → Double → List StageAssignment → Double
  unfolding decode_bytes
  stages_ms model candidates total [] = total
  stages_ms model candidates total (stage ∷ stages) =
      stages_ms model candidates
        (add total (
          with_candidate candidates stage.provider (λ c.
            div (mul (div (of_nat (decode_bytes model stage.begin stage.end)) gib) (speed_of c))
              (of_nat 1000))))
        stages

  unfoldable pub search_token_ms :
      ModelIndex → List (SearchCandidate d) → List StageAssignment → SearchRequest d → Double
  unfolding stages_ms links_ms
  search_token_ms model candidates plan request =
      add (stages_ms model candidates zero_ms plan)
        (links_ms candidates (map (λ s. s.provider) plan) request)

  unfoldable pub first_token_rank : Double → SearchRequest d → ℕ
  first_token_rank first_token_ms request =
      if le request.first_token_limit_ms zero_ms
      then 2
      else if le first_token_ms zero_ms
      then 1
      else if le first_token_ms request.first_token_limit_ms
      then 2
      else 0
