-- ===== src/Search/Pool/Rounds.antt =====
-- search.cpp, search_pool: what a turn and a round do to the pool.
use dan.Common.{
  ℕ, zero, suc, ◌+◌, ◌<◌, ◌≤◌, ◌≡◌, inl, inr, refl, sym, ap, ◌∙◌, Bool, true, false, ◌&&◌, ◌||◌,
  List, [], ◌∷◌, ◌++◌, ltb, leb, ◌==◌, length, set, get_or, arith, Bool-cases,
}
use dan.Search.Pool.{skip_taken, PoolState, take_candidate, turn, pool_round, pool_loop}

abbrev pub has : ℕ → List ℕ → Bool
has i [] = false
has i (x ∷ xs) = x == i || has i xs

-- The candidates of `taken` that are not taken.
abbrev pub free : List Bool → ℕ
free [] = 0
free (true ∷ ts) = free ts
free (false ∷ ts) = suc (free ts)

-- A list holds every candidate that is not taken.
unfoldable pub Holds : List Bool → List ℕ → Type 0
Holds taken list = (i : ℕ) → i < length taken → get_or taken i false ≡ false → has i list ≡ true

free_one :
    (taken : List Bool)
    → 0 < free taken
    → (i : ℕ) × (i < length taken) × (get_or taken i false ≡ false)
free_one [] h = absurd (omega (arith, h))
free_one (false ∷ ts) h = (0, omega arith, refl)
free_one (true ∷ ts) h = let (i, l, e) = free_one ts h in (suc i, omega (arith, l), e)

free-set :
    (taken : List Bool) (i : ℕ)
    → i < length taken
    → get_or taken i false ≡ false
    → suc (free (set taken i true)) ≡ free taken
free-set [] i h e = absurd (omega (arith, h))
free-set (false ∷ ts) zero h e = refl
free-set (true ∷ ts) zero h e = absurd (ground (arith, e))
free-set (false ∷ ts) (suc i) h e = ap suc (free-set ts i (omega (arith, h)) e)
free-set (true ∷ ts) (suc i) h e = free-set ts i (omega (arith, h)) e

length-set : (taken : List Bool) (i : ℕ) → length (set taken i true) ≡ length taken
length-set [] i = refl
length-set (t ∷ ts) zero = refl
length-set (t ∷ ts) (suc i) = ap suc (length-set ts i)

get_or-set_back :
    (taken : List Bool) (i j : ℕ)
    → get_or (set taken i true) j false ≡ false
    → j < length taken
    → get_or taken j false ≡ false
get_or-set_back [] i j e h = refl
get_or-set_back (t ∷ ts) zero zero e h = absurd (ground (arith, e))
get_or-set_back (t ∷ ts) zero (suc j) e h = e
get_or-set_back (t ∷ ts) (suc i) zero e h = e
get_or-set_back (t ∷ ts) (suc i) (suc j) e h = get_or-set_back ts i j e (omega (arith, h))

eq_of : (x i : ℕ) → x == i ≡ true → x ≡ i
eq_of x i h = ground (arith, h)

-- A candidate that is skipped is taken.
skip_taken-has :
    (taken : List Bool) (list : List ℕ) (i : ℕ)
    → get_or taken i false ≡ false
    → has i list ≡ true
    → has i (skip_taken taken list) ≡ true
unfolding skip_taken
skip_taken-has taken [] i e h = h
skip_taken-has taken (x ∷ xs) i e h = elim (Bool-cases (get_or taken x false)) [
  | inr f ↦ rw f h
  | inl t ↦ rw t (
      skip_taken-has taken xs i e (elim (Bool-cases (x == i)) [
        | inr n ↦ rw n at h
        | inl same ↦ absurd (ground (arith, rw (eq_of x i same) at t, e))
      ]))
]

same_head : {x y : ℕ} {xs ys : List ℕ} → x ∷ xs ≡ y ∷ ys → x ≡ y
same_head h = cc

length-append_one : (xs : List ℕ) (x : ℕ) → length (xs ++ x ∷ []) ≡ suc (length xs)
length-append_one [] x = refl
length-append_one (y ∷ xs) x = ap suc (length-append_one xs x)

skip_taken-head :
    (taken : List Bool) (list : List ℕ) (x : ℕ) (xs : List ℕ)
    → skip_taken taken list ≡ x ∷ xs
    → get_or taken x false ≡ false
unfolding skip_taken
skip_taken-head taken [] x xs h = absurd (ground (arith, h))
skip_taken-head taken (y ∷ ys) x xs h = elim (Bool-cases (get_or taken y false)) [
  | inl t ↦ skip_taken-head taken ys x xs (rw t at h)
  | inr f ↦ ap (λ n. get_or taken n false) (sym (same_head (rw f at h))) ∙ f
]

abbrev pub below : ℕ → List ℕ → Bool
below n [] = true
below n (x ∷ xs) = ltb x n && below n xs

skip_taken-below :
    (taken : List Bool) (n : ℕ) (list : List ℕ)
    → below n list ≡ true
    → below n (skip_taken taken list) ≡ true
unfolding skip_taken
skip_taken-below taken n [] h = h
skip_taken-below taken n (x ∷ xs) h = elim (Bool-cases (get_or taken x false)) [
  | inr f ↦ rw f h
  | inl t ↦ rw t (skip_taken-below taken n xs (ground (arith, h)))
]

-- The pool and the candidates that are not taken are all candidates.
pub record Inv (n : ℕ) (s : PoolState) : Type 0 where
  pub sized : length s.taken ≡ n
  pub counted : length s.pool + free s.taken ≡ n

-- A list has every candidate that is not taken, and only candidates.
pub record Serves (n : ℕ) (s : PoolState) (list : List ℕ) : Type 0 where
  pub holds : Holds s.taken list
  pub known : below n list ≡ true

unfoldable pub AllServe : ℕ → PoolState → List (List ℕ) → Type 0
AllServe n s [] = Unit
AllServe n s (list ∷ lists) = Serves n s list × AllServe n s lists

pub take-Inv :
    (n : ℕ) (s : PoolState) (x : ℕ)
    → Inv n s
    → x < n
    → get_or s.taken x false ≡ false
    → Inv n (take_candidate s x)
take-Inv n s x i l e = record {
  sized = length-set s.taken x ∙ i.sized;
  counted = omega (
    arith,
    length-append_one s.pool x,
    free-set s.taken x (omega (arith, l, i.sized)) e,
    i.counted,
  );
}

-- A list that serves a pool serves it with one candidate more.
take-Serves :
    (n : ℕ) (s : PoolState) (x : ℕ) (list : List ℕ)
    → Serves n s list
    → Serves n (take_candidate s x) list
unfolding Holds
take-Serves n s x list v = record {
  holds = λ i l e.
      v.holds i (omega (arith, l, length-set s.taken x))
        (get_or-set_back s.taken x i e (omega (arith, l, length-set s.taken x)));
  known = v.known;
}

skip-Serves :
    (n : ℕ) (s : PoolState) (list : List ℕ) → Serves n s list → Serves n s (skip_taken s.taken list)
unfolding Holds
skip-Serves n s list v = record {
  holds = λ i l e. skip_taken-has s.taken list i e (v.holds i l e);
  known = skip_taken-below s.taken n list v.known;
}

-- Where the pool has room and there is a candidate left, a list's turn takes one.
turn-takes :
    (n limit : ℕ) (s : PoolState) (list : List ℕ)
    → Inv n s
    → Serves n s list
    → limit ≤ n
    → length s.pool < limit
    → (x : ℕ) × (xs : List ℕ) × (skip_taken s.taken list ≡ x ∷ xs)
      × (x < n)
      × (get_or s.taken x false ≡ false)
unfolding Holds
turn-takes n limit s list i v small room = go (skip_taken s.taken list) refl
  where
    found : (i : ℕ) × (i < length s.taken) × (get_or s.taken i false ≡ false)
    found = free_one s.taken (omega (arith, i.counted, small, room))

    go :
        (left : List ℕ)
        → skip_taken s.taken list ≡ left
        → (x : ℕ) × (xs : List ℕ) × (skip_taken s.taken list ≡ x ∷ xs)
          × (x < n)
          × (get_or s.taken x false ≡ false)
    go [] e =
        let (c, l, f) = found in
        absurd (ground (arith, rw e at (skip_taken-has s.taken list c f (v.holds c l f))))
    go (x ∷ xs) e =
        let k = rw e at (skip_taken-below s.taken n list v.known) in
        (x, xs, e, ground (arith, k), skip_taken-head s.taken list x xs e)

-- What a turn and a round do to the pool.
pub record Advances (n limit : ℕ) (s t : PoolState) : Type 0 where
  inv : Inv n t
  grows : length s.pool ≤ length t.pool
  bounded : length s.pool ≤ limit → length t.pool ≤ limit
  keeps : (list : List ℕ) → Serves n s list → Serves n t list

Advances-trans :
    (n limit : ℕ) (s t u : PoolState)
    → Advances n limit s t
    → Advances n limit t u
    → Advances n limit s u
Advances-trans n limit s t u a b = record {
  inv = b.inv;
  grows = omega (arith, a.grows, b.grows);
  bounded = λ h. b.bounded (a.bounded h);
  keeps = λ list v. b.keeps list (a.keeps list v);
}

turn-Advances :
    (n limit : ℕ) (s : PoolState) (list : List ℕ)
    → Inv n s
    → Serves n s list
    → limit ≤ n
    → Advances n limit s (turn limit s list).0
      × Serves n (turn limit s list).0 (turn limit s list).1
      × (length s.pool < limit → length s.pool < length (turn limit s list).0.pool)
turn-Advances n limit s list i v small = elim (Bool-cases (leb limit (length s.pool))) [
  | inl full ↦ rw full (
    record { inv = i; grows = omega arith; bounded = λ h. h; keeps = λ l w. w },
    v,
    λ room. absurd (ground (arith, full, room)),
  )
  | inr room ↦
      let (x, xs, e, l, f) = turn-takes n limit s list i v small (ground (arith, room)) in
      let served : Serves n s (x ∷ xs) = rw e at (skip-Serves n s list v) in
      rw (room, e)
        (
          record {
            inv = take-Inv n s x i l f;
            grows = omega (arith, length-append_one s.pool x);
            bounded = λ h. ground (arith, room, length-append_one s.pool x);
            keeps = take-Serves n s x;
          },
          take-Serves n s x (x ∷ xs) served,
          λ r. omega (arith, length-append_one s.pool x),
        )
]

keep_all :
    (n limit : ℕ) (s t : PoolState) (lists : List (List ℕ))
    → Advances n limit s t
    → AllServe n s lists
    → AllServe n t lists
unfolding AllServe
keep_all n limit s t [] a v = tt
keep_all n limit s t (list ∷ lists) a (v, vs) = (a.keeps list v, keep_all n limit s t lists a vs)

round-Advances :
    (n limit : ℕ) (s : PoolState) (lists : List (List ℕ))
    → Inv n s
    → AllServe n s lists
    → limit ≤ n
    → Advances n limit s (pool_round limit s lists).0
      × AllServe n (pool_round limit s lists).0 (pool_round limit s lists).1
      × (0 < length lists
          → length s.pool < limit
          → length s.pool < length (pool_round limit s lists).0.pool)
      × (length (pool_round limit s lists).1 ≡ length lists)
unfolding pool_round AllServe
round-Advances n limit s [] i v small = (
  record { inv = i; grows = omega arith; bounded = λ h. h; keeps = λ l w. w },
  tt,
  λ h r. absurd (omega (arith, h)),
  refl,
)
round-Advances n limit s (list ∷ lists) i (v, vs) small =
    let (a, served, more) = turn-Advances n limit s list i v small in
    let t = (turn limit s list).0 in
    let (b, others, _, len) =
      round-Advances n limit t lists a.inv (keep_all n limit s t lists a vs) small in
    (
      Advances-trans n limit s t (pool_round limit t lists).0 a b,
      (b.keeps (turn limit s list).1 served, others),
      λ h r. omega (arith, more r, b.grows),
      ap suc len,
    )

-- With a round for each place that is free, the loop fills the pool: it ends with `limit` candidates,
-- where no more are in it at first and `limit` is at most their number.
pub pool_loop-full :
    (fuel n limit : ℕ) (s : PoolState) (lists : List (List ℕ))
    → Inv n s
    → AllServe n s lists
    → 0 < length lists
    → limit ≤ n
    → length s.pool ≤ limit
    → limit ≤ length s.pool + fuel
    → length (pool_loop fuel limit s lists) ≡ limit
unfolding pool_loop
pool_loop-full zero n limit s lists i v some_list small most enough = omega (arith, most, enough)
pool_loop-full (suc fuel) n limit s lists i v some_list small most enough =
    elim (Bool-cases (ltb (length s.pool) limit)) [
      | inr full ↦ rw full (ground (arith, full, most))
      | inl room ↦
          let (a, vs, more, len) = round-Advances n limit s lists i v small in
          let next = pool_round limit s lists in
          rw room (
            pool_loop-full fuel n limit next.0 next.1 a.inv vs (omega (arith, len, some_list)) small
              (a.bounded most) (omega (arith, enough, more some_list (ground (arith, room)))))
    ]
