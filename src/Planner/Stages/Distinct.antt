-- ===== src/Planner/Stages/Distinct.antt =====
-- planner.cpp, the lambda `choose` of plan_stages: what an order of workers is, said without the
-- `used` flags.
use mathlib.Core.Path.{subst}
use dan.Common.{
  ℕ, zero, suc, ◌<◌, ◌≡◌, ◌≢◌, refl, sym, ap, ◌∙◌, Bool, true, false, List, [], ◌∷◌, ◌++◌, Option,
  none, some, length, length-set, length-replicate, get_or, set, replicate, All, arith,
}
use dan.Planner.Stages.{StagesRequest, not_head}
use dan.Planner.Stages.Orders.{IsOrder}

-- No worker comes twice.
abbrev pub Distinct : List ℕ → Type 0
Distinct [] = Unit
Distinct (w ∷ ws) = All (λ v. v ≢ w) ws × Distinct ws

-- Where there is a head, the first worker is it.
abbrev pub IsHeaded : Option ℕ → List ℕ → Type 0
IsHeaded none ws = Unit
IsHeaded (some head) [] = Unit
IsHeaded (some head) (w ∷ ws) = w ≡ head

get_or-set :
    (used : List Bool) (w v : ℕ)
    → w < length used
    → get_or (set used w true) v false ≡ false
    → v ≢ w
get_or-set [] w v h e = absurd (omega arith)
get_or-set (b ∷ used) zero zero h e = cc
get_or-set (b ∷ used) zero (suc v) h e = ground arith
get_or-set (b ∷ used) (suc w) zero h e = ground arith
get_or-set (b ∷ used) (suc w) (suc v) h e =
    let ih = get_or-set used w v (omega arith) e in ground arith

get_or-set_other :
    (used : List Bool) (w v : ℕ) → v ≢ w → get_or (set used w true) v false ≡ get_or used v false
get_or-set_other [] w v h = refl
get_or-set_other (b ∷ used) zero zero h = absurd (h refl)
get_or-set_other (b ∷ used) zero (suc v) h = refl
get_or-set_other (b ∷ used) (suc w) zero h = refl
get_or-set_other (b ∷ used) (suc w) (suc v) h = get_or-set_other used w v (λ e. h (ap suc e))

get_or-replicate : (n w : ℕ) → get_or (replicate n false) w false ≡ false
get_or-replicate zero w = refl
get_or-replicate (suc n) zero = refl
get_or-replicate (suc n) (suc w) = get_or-replicate n w

-- v is a candidate that is not used.
abbrev IsOpen : List Bool → ℕ → Type 0
IsOpen used v = (v < length used) × (get_or used v false ≡ false)

IsOpen-set :
    (used : List Bool) (w : ℕ)
    → w < length used
    → (ws : List ℕ) → All (IsOpen (set used w true)) ws
    → All (IsOpen used) ws × All (λ v. v ≢ w) ws
IsOpen-set used w h [] _ = (tt, tt)
IsOpen-set used w h (v ∷ ws) ((low, free), rest) =
    let (opens, others) = IsOpen-set used w h ws rest in
    let other = get_or-set used w v h free in
    (
      (
        (omega (arith, length-set used w true, low), sym (get_or-set_other used w v other) ∙ free),
        opens,
      ),
      (other, others),
    )

set-IsOpen :
    (used : List Bool) (w : ℕ) (ws : List ℕ)
    → All (IsOpen used) ws
    → All (λ v. v ≢ w) ws
    → All (IsOpen (set used w true)) ws
set-IsOpen used w [] _ _ = tt
set-IsOpen used w (v ∷ ws) ((low, free), opens) (other, others) = (
  (omega (arith, length-set used w true), get_or-set_other used w v other ∙ free),
  set-IsOpen used w ws opens others,
)

IsOrder-IsOpen :
    (r : StagesRequest) (room : ℕ) (used : List Bool) (order ws : List ℕ)
    → IsOrder r room used order ws
    → All (IsOpen used) ws × Distinct ws × (length ws ≡ room)
IsOrder-IsOpen r zero used order [] i = (tt, tt, refl)
IsOrder-IsOpen r zero used order (w ∷ ws) i = absurd i
IsOrder-IsOpen r (suc room) used order [] i = absurd i
IsOrder-IsOpen r (suc room) used order (w ∷ ws) (high, free, head, i) =
    let (opens, distinct, count) = IsOrder-IsOpen r room (set used w true) (order ++ w ∷ []) ws i in
    let (firsts, others) = IsOpen-set used w high ws opens in
    (((high, free), firsts), (others, distinct), ap suc count)

not_head_later :
    (head : Option ℕ) (order : List ℕ) (w v : ℕ) → not_head head (order ++ w ∷ []) v ≡ false
not_head_later none order w v = refl
not_head_later (some head) [] w v = refl
not_head_later (some head) (u ∷ order) w v = refl

open-IsOrder_later :
    (r : StagesRequest) (used : List Bool) (order : List ℕ) (u : ℕ) (ws : List ℕ)
    → All (IsOpen used) ws
    → Distinct ws
    → IsOrder r (length ws) used (order ++ u ∷ []) ws
open-IsOrder_later r used order u [] opens distinct = tt
open-IsOrder_later r used order u (w ∷ ws) ((high, free), opens) (others, distinct) = (
  high,
  free,
  not_head_later r.head order u w,
  open-IsOrder_later r (set used w true) (order ++ u ∷ []) w ws (set-IsOpen used w ws opens others)
      distinct,
)

IsHeaded-not_head :
    (head : Option ℕ) (w : ℕ) (ws : List ℕ) → IsHeaded head (w ∷ ws) → not_head head [] w ≡ false
IsHeaded-not_head none w ws h = refl
IsHeaded-not_head (some head) w ws h = ground arith

not_head-IsHeaded :
    (head : Option ℕ) (w : ℕ) (ws : List ℕ) → not_head head [] w ≡ false → IsHeaded head (w ∷ ws)
not_head-IsHeaded none w ws h = tt
not_head-IsHeaded (some head) w ws h = ground arith

-- `count` different candidates out of `n`, the head first.
pub record IsChoice (r : StagesRequest) (n count : ℕ) (ws : List ℕ) : Type 0 where
  pub candidates : All (λ w. w < n) ws
  pub distinct : Distinct ws
  pub headed : IsHeaded r.head ws
  pub counted : length ws ≡ count

IsOpen-candidates :
    (n : ℕ) (ws : List ℕ) → All (IsOpen (replicate n false)) ws → All (λ w. w < n) ws
IsOpen-candidates n [] _ = tt
IsOpen-candidates n (w ∷ ws) ((low, free), rest) =
    (omega (arith, length-replicate n false), IsOpen-candidates n ws rest)

candidates-IsOpen :
    (n : ℕ) (ws : List ℕ) → All (λ w. w < n) ws → All (IsOpen (replicate n false)) ws
candidates-IsOpen n [] _ = tt
candidates-IsOpen n (w ∷ ws) (low, rest) =
    ((omega (arith, length-replicate n false), get_or-replicate n w), candidates-IsOpen n ws rest)

IsOrder-IsHeaded :
    (r : StagesRequest) (room : ℕ) (used : List Bool) (ws : List ℕ)
    → IsOrder r room used [] ws
    → IsHeaded r.head ws
IsOrder-IsHeaded r zero used [] i = elim r.head as (λ h. IsHeaded h []) [
  | none ↦ tt
  | some head ↦ tt
]
IsOrder-IsHeaded r zero used (w ∷ ws) i = absurd i
IsOrder-IsHeaded r (suc room) used [] i = absurd i
IsOrder-IsHeaded r (suc room) used (w ∷ ws) (high, free, head, i) =
    not_head-IsHeaded r.head w ws head

pub IsOrder-IsChoice :
    (r : StagesRequest) (n count : ℕ) (ws : List ℕ)
    → IsOrder r count (replicate n false) [] ws
    → IsChoice r n count ws
IsOrder-IsChoice r n count ws i =
    let (opens, distinct, counted) = IsOrder-IsOpen r count (replicate n false) [] ws i in
    record {
      candidates = IsOpen-candidates n ws opens;
      distinct = distinct;
      headed = IsOrder-IsHeaded r count (replicate n false) ws i;
      counted = counted;
    }

IsChoice-IsOrder-length :
    (r : StagesRequest) (n : ℕ) (ws : List ℕ)
    → All (λ w. w < n) ws
    → Distinct ws
    → IsHeaded r.head ws
    → IsOrder r (length ws) (replicate n false) [] ws
IsChoice-IsOrder-length r n [] low distinct headed = tt
IsChoice-IsOrder-length r n (w ∷ ws) low (others, distinct) headed =
    let ((high, free), opens) = candidates-IsOpen n (w ∷ ws) low in
    (
      high,
      free,
      IsHeaded-not_head r.head w ws headed,
      open-IsOrder_later r (set (replicate n false) w true) [] w ws
          (set-IsOpen (replicate n false) w ws opens others) distinct,
    )

pub IsChoice-IsOrder :
    (r : StagesRequest) (n count : ℕ) (ws : List ℕ)
    → IsChoice r n count ws
    → IsOrder r count (replicate n false) [] ws
IsChoice-IsOrder r n count ws c =
    subst (λ k. IsOrder r k (replicate n false) [] ws) c.counted
      (IsChoice-IsOrder-length r n ws c.candidates c.distinct c.headed)
