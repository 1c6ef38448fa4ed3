-- ===== src/Search/Pool/Full.antt =====
-- search.cpp, search_pool: the rounds end with a full pool.
use dan.Common.{
  ℕ, zero, suc, ◌+◌, ◌<◌, ◌≤◌, ◌≡◌, inl, inr, refl, ap, Bool, true, false, ◌||◌, List, [], ◌∷◌, ltb,
  ◌==◌, Option, none, some, min, length, get_or, replicate, arith, Bool-cases,
}
use dan.Common.Double.{Doubles}
use dan.Search.{SearchCandidate, SearchRequest}
use dan.Search.Pool.{
  count_up, insert_ranked, stable_sort, PoolState, ranked_lists, first_state, search_pool,
}
use dan.Search.Pool.Rounds.{
  has, free, below, Holds, Inv, Serves, AllServe, take-Inv, pool_loop-full,
}

has-insert_ranked :
    (less : ℕ → ℕ → Bool) (i x : ℕ) (ys : List ℕ)
    → x == i || has i ys ≡ true
    → has i (insert_ranked less x ys) ≡ true
has-insert_ranked less i x [] h = h
has-insert_ranked less i x (y ∷ ys) h = ground (arith, h, has-insert_ranked less i x ys)

has-stable_sort :
    (less : ℕ → ℕ → Bool) (i : ℕ) (xs : List ℕ)
    → has i xs ≡ true
    → has i (stable_sort less xs) ≡ true
unfolding stable_sort
has-stable_sort less i [] h = h
has-stable_sort less i (x ∷ xs) h =
    has-insert_ranked less i x (stable_sort less xs) (ground (arith, h, has-stable_sort less i xs))

below-insert_ranked :
    (less : ℕ → ℕ → Bool) (n x : ℕ) (ys : List ℕ)
    → ltb x n ≡ true
    → below n ys ≡ true
    → below n (insert_ranked less x ys) ≡ true
below-insert_ranked less n x [] h k = rw h refl
below-insert_ranked less n x (y ∷ ys) h k = ground (arith, h, k, below-insert_ranked less n x ys h)

below-stable_sort :
    (less : ℕ → ℕ → Bool) (n : ℕ) (xs : List ℕ)
    → below n xs ≡ true
    → below n (stable_sort less xs) ≡ true
unfolding stable_sort
below-stable_sort less n [] h = h
below-stable_sort less n (x ∷ xs) h =
    below-insert_ranked less n x (stable_sort less xs) (ground (arith, h))
      (below-stable_sort less n xs (ground (arith, h)))

has-count_up : (n from i : ℕ) → from ≤ i → i < from + n → has i (count_up n from) ≡ true
has-count_up zero from i h k = absurd (omega (arith, h, k))
has-count_up (suc n) from i h k = elim (Bool-cases (from == i)) [
  | inl e ↦ rw e refl
  | inr e ↦ rw e (has-count_up n (from + 1) i (ground (arith, e, h)) (omega (arith, k)))
]

below-count_up : (n from limit : ℕ) → from + n ≤ limit → below limit (count_up n from) ≡ true
below-count_up zero from limit h = refl
below-count_up (suc n) from limit h =
    ground (arith, h, below-count_up n (from + 1) limit (omega (arith, h)))

sorted-Serves :
    (n : ℕ) (s : PoolState) (less : ℕ → ℕ → Bool)
    → Inv n s
    → Serves n s (stable_sort less (count_up n 0))
unfolding Holds
sorted-Serves n s less i = record {
  holds = λ j l e.
      has-stable_sort less j (count_up n 0)
        (has-count_up n 0 j (omega arith) (omega (arith, l, i.sized)));
  known = below-stable_sort less n (count_up n 0) (below-count_up n 0 n (omega arith));
}

free-replicate : (n : ℕ) → free (replicate n false) ≡ n
free-replicate zero = refl
free-replicate (suc n) = ap suc (free-replicate n)

length-replicate : (n : ℕ) → length (replicate n false) ≡ n
length-replicate zero = refl
length-replicate (suc n) = ap suc (length-replicate n)

get_or-replicate : (n i : ℕ) → get_or (replicate n false) i false ≡ false
get_or-replicate zero i = refl
get_or-replicate (suc n) zero = refl
get_or-replicate (suc n) (suc i) = get_or-replicate n i

module _ (d : Doubles) (candidates : List (SearchCandidate d)) (request : SearchRequest d) where
  abbrev start : PoolState
  start = record { pool = []; taken = replicate (length candidates) false }

  start-Inv : Inv (length candidates) start
  start-Inv = record {
    sized = length-replicate (length candidates);
    counted = omega (arith, free-replicate (length candidates));
  }

  first_state-Inv : Inv (length candidates) (first_state d candidates request)
  first_state-Inv = go request.head refl
    where
      go :
          (head : Option ℕ)
          → request.head ≡ head
          → Inv (length candidates) (first_state d candidates request)
      go none e = rw e start-Inv
      go (some head) e = rw e (elim (Bool-cases (ltb head (length candidates))) [
        | inr out ↦ rw out start-Inv
        | inl inside ↦ rw inside (
            take-Inv (length candidates) start head start-Inv (ground (arith, inside))
              (get_or-replicate (length candidates) head))
      ])

  first_state-small : length (first_state d candidates request).pool ≤ 1
  first_state-small = ground arith

  lists-AllServe :
      (s : PoolState)
      → Inv (length candidates) s
      → AllServe (length candidates) s (ranked_lists d candidates request)
  unfolding AllServe
  lists-AllServe s i =
      let served = λ (less : ℕ → ℕ → Bool). sorted-Serves (length candidates) s less i in
      (served _, (served _, (served _, (served _, tt))))

  -- The rounds of search_pool come to their end with a full pool: it has as many candidates as the limit
  -- and the number of candidates allow, where both are positive, whatever the scores.
  pub search_pool-full :
      0 < min request.pool_limit (length candidates)
      → length (search_pool d candidates request) ≡ min request.pool_limit (length candidates)
  unfolding search_pool
  search_pool-full h =
      let limit = min request.pool_limit (length candidates) in
      let s = first_state d candidates request in
      pool_loop-full limit (length candidates) limit s (ranked_lists d candidates request)
        first_state-Inv (lists-AllServe s first_state-Inv) (omega arith) (omega arith)
        (omega (arith, h, first_state-small)) (omega arith)
