-- ===== src/Search/Pool.antt =====
-- search.cpp, lines 243 to 279: search_pool. The rest of each ranked list behind its `next` is the list's
-- state.
pub mod Rounds
pub mod Full
use dan.Common.{
  ℕ, zero, suc, ◌+◌, Bool, true, false, not, List, [], ◌∷◌, ◌++◌, none, some, ltb, leb,
  if◌then◌else◌, length, set, get_or, get_elem?, min, replicate,
}
use dan.Common.Double.{Doubles}
use dan.Selection.{bytes_lt}
use dan.Search.{SearchCandidate, SearchRequest}
use dan.Search.Times.{rtt_of, speed_of}

abbrev pub count_up : ℕ → ℕ → List ℕ
count_up zero from = []
count_up (suc n) from = from ∷ count_up n (from + 1)

-- `std::stable_sort`
abbrev pub insert_ranked : (ℕ → ℕ → Bool) → ℕ → List ℕ → List ℕ
insert_ranked less x [] = x ∷ []
insert_ranked less x (y ∷ ys) = if less y x then y ∷ insert_ranked less x ys else x ∷ y ∷ ys

unfoldable pub stable_sort : (ℕ → ℕ → Bool) → List ℕ → List ℕ
stable_sort less [] = []
stable_sort less (x ∷ xs) = insert_ranked less x (stable_sort less xs)

-- The inner `while`: the list from its first candidate that is not taken.
unfoldable pub skip_taken : List Bool → List ℕ → List ℕ
skip_taken taken [] = []
skip_taken taken (x ∷ xs) = if get_or taken x false then skip_taken taken xs else x ∷ xs

pub record PoolState : Type 0 where
  pub pool : List ℕ
  pub taken : List Bool

abbrev pub take_candidate : PoolState → ℕ → PoolState
take_candidate s index = record { pool = s.pool ++ index ∷ []; taken = set s.taken index true }

-- One list's turn.
abbrev pub turn : ℕ → PoolState → List ℕ → PoolState × List ℕ
turn limit s list =
    let left = skip_taken s.taken list in
    if leb limit (length s.pool)
    then (s, list)
    else elim left [ [] ↦ (s, []) | x ∷ xs ↦ (take_candidate s x, x ∷ xs) ]

unfoldable pub pool_round : ℕ → PoolState → List (List ℕ) → PoolState × List (List ℕ)
unfolding skip_taken
pool_round limit s [] = (s, [])
pool_round limit s (list ∷ lists) =
    let (s1, left) = turn limit s list in
    let (s2, others) = pool_round limit s1 lists in (s2, left ∷ others)

-- The outer `while`, with a round for each place of the pool at most.
unfoldable pub pool_loop : ℕ → ℕ → PoolState → List (List ℕ) → List ℕ
unfolding pool_round
pool_loop zero limit s lists = s.pool
pool_loop (suc fuel) limit s lists =
    let next = pool_round limit s lists in
    let rest = pool_loop fuel limit next.0 next.1 in
    if ltb (length s.pool) limit then rest else s.pool

module _ (d : Doubles) (candidates : List (SearchCandidate d)) (request : SearchRequest d) where
  open d use {Double, of_nat, lt, eq}

  abbrev pub is_empty_cache : List (ℕ × ℕ) → Bool
  is_empty_cache [] = true
  is_empty_cache (range ∷ ranges) = false

  -- Candidates by a score, and by their keys where it is the same. `below` is the order of the scores.
  abbrev pub precedes :
      (Double → Double → Bool)
      → (SearchCandidate d → Double)
      → SearchCandidate d
      → SearchCandidate d
      → Bool
  precedes below score left right =
      if not (eq (score left) (score right))
      then below (score left) (score right)
      else bytes_lt left.key right.key

  abbrev pub ranked : (Double → Double → Bool) → (SearchCandidate d → Double) → List ℕ
  ranked below score =
      stable_sort
        (λ left right. elim (get_elem? candidates left) [
          | none ↦ false
          | some a ↦ elim (get_elem? candidates right) [
            | none ↦ false
            | some b ↦ precedes below score a b
          ]
        ])
        (count_up (length candidates) 0)

  -- The second score is the negated offer, so its order is the converse of that of the offers.
  abbrev pub ranked_lists : List (List ℕ)
  ranked_lists =
      ranked lt (λ c. rtt_of d c request)
      ∷ ranked (λ a b. lt b a) (λ c. of_nat c.offered_mib)
      ∷ ranked lt (λ c. speed_of d c)
      ∷ ranked lt (λ c. of_nat (if is_empty_cache c.cached then 1 else 0))
      ∷ []

  abbrev pub first_state : PoolState
  first_state =
      let none_taken : PoolState = record {
        pool = [];
        taken = replicate (length candidates) false;
      } in
      elim request.head [
        | none ↦ none_taken
        | some head ↦
            if ltb head (length candidates) then take_candidate none_taken head else none_taken
      ]

  unfoldable pub search_pool : List ℕ
  unfolding stable_sort pool_loop
  search_pool =
      let limit = min request.pool_limit (length candidates) in
      pool_loop limit limit first_state ranked_lists
