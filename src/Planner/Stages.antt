-- ===== src/Planner/Stages.antt =====
-- planner.cpp, plan_stages: the fewest stages that fit, over orders of the candidates and cut
-- points near each one's share. `long double` enters only in the share, which is a parameter.
pub mod Cuts
pub mod Split
pub mod Orders
pub mod Distinct
pub mod Exact
use dan.Common.{
  ℕ, zero, suc, ◌+◌, ◌-◌, ◌*◌, ◌%◌, ◌^◌, Bool, true, false, not, ◌&&◌, ◌||◌, List, [], ◌∷◌, ◌++◌,
  Option, none, some, ltb, leb, ◌==◌, if◌then◌else◌, length, set, get_or, replicate, map,
}
use dan.Model.{ModelIndex, stage_model_bytes, u64_max}
use dan.Planner.Sizes.{StageAssignment, stage_fits, kv_bytes, usable_bytes}
use dan.Planner.Compatible.{compatible_stage_model}
use Cuts.{Share, wanted_end, ends_near}

pub record StagesRequest : Type 0 where
  pub model : ModelIndex
  pub offered_mib : List ℕ
  pub context : ℕ
  pub sessions : ℕ
  pub minimum_stages : ℕ
  pub head : Option ℕ

-- The lambda `fits`: the assignment with its provider, where the stage fits.
abbrev pub fits : StagesRequest → ℕ → ℕ → ℕ → Option StageAssignment
fits r provider begin end =
    elim (stage_fits r.model (get_or r.offered_mib provider 0) begin end r.context r.sessions) [
      | none ↦ none
      | some assignment ↦ some (record assignment { provider = provider })
    ]

-- The loop over the end points of one stage; `split` is the call for the stages behind it.
unfoldable pub try_ends :
    StagesRequest
    → (ℕ → Option (List StageAssignment))
    → ℕ
    → ℕ
    → List ℕ
    → Option (List StageAssignment)
try_ends r split provider begin [] = none
try_ends r split provider begin (end ∷ ends) = elim (fits r provider begin end) [
  | none ↦ try_ends r split provider begin ends
  | some assignment ↦ elim (split end) [
    | none ↦ try_ends r split provider begin ends
    | some stages ↦ some (assignment ∷ stages)
  ]
]

-- The slots from one on are the list of their workers, and the answer is their stages.
unfoldable pub split : Share → StagesRequest → List ℕ → ℕ → Option (List StageAssignment)
unfolding try_ends
split share r [] begin = none
split share r (provider ∷ []) begin = elim (fits r provider begin r.model.layers) [
  | none ↦ none
  | some assignment ↦ some (assignment ∷ [])
]
split share r (provider ∷ second ∷ rest) begin =
    let last = r.model.layers - length (second ∷ rest) in
    let offers = map (λ p. get_or r.offered_mib p 0) (provider ∷ second ∷ rest) in
    let wanted = wanted_end share r.model.layers begin last offers in
    try_ends r (split share r (second ∷ rest)) provider begin (ends_near wanted begin last)

-- `head && order.empty() && index != *head`
abbrev pub not_head : Option ℕ → List ℕ → ℕ → Bool
not_head (some head) [] index = not (index == head)
not_head _ _ index = false

-- The loop of `choose` over the candidates from `index` on; `next` is the call with one chosen.
unfoldable pub choose_loop :
    StagesRequest
    → (List Bool → List ℕ → Option (List StageAssignment))
    → List Bool
    → List ℕ
    → ℕ
    → List Bool
    → Option (List StageAssignment)
choose_loop r next used order index [] = none
choose_loop r next used order index (taken ∷ flags) =
    let rest = choose_loop r next used order (suc index) flags in
    if taken || not_head r.head order index
    then rest
    else elim (next (set used index true) (order ++ index ∷ [])) [
      | none ↦ rest
      | some plan ↦ some plan
    ]

-- The first argument is how many workers are still to be chosen, `count - order.size()`.
unfoldable pub choose :
    Share → StagesRequest → ℕ → List Bool → List ℕ → Option (List StageAssignment)
unfolding split choose_loop
choose share r zero used order = split share r order 0
choose share r (suc room) used order = choose_loop r (choose share r room) used order 0 used

abbrev pub insert_usable : ℕ → List ℕ → List ℕ
insert_usable u [] = u ∷ []
insert_usable u (v ∷ vs) = let rest = insert_usable u vs in if ltb u v then v ∷ rest else u ∷ v ∷ vs

-- `std::sort` with `std::greater<>`.
abbrev pub sort_usable : List ℕ → List ℕ
sort_usable [] = []
sort_usable (u ∷ us) = insert_usable u (sort_usable us)

-- The memory of the `count` roomiest workers; `none` where the sum would pass 2^64 - 1.
abbrev pub sum_capacity : ℕ → ℕ → List ℕ → Option ℕ
sum_capacity zero capacity usable = some capacity
sum_capacity (suc count) capacity [] = some capacity
sum_capacity (suc count) capacity (u ∷ usable) =
    let rest = sum_capacity count (capacity + u) usable in
    if ltb (u64_max - u) capacity then none else rest

unfoldable pub count_is_hopeless : StagesRequest → ℕ → Bool
count_is_hopeless r count =
    let whole_model = stage_model_bytes r.model 0 r.model.layers in
    let whole_kv = kv_bytes r.model 0 r.model.layers r.context r.sessions in
    if whole_model == 0 || whole_kv == 0
    then false
    else elim (sum_capacity count 0 (sort_usable (map usable_bytes r.offered_mib))) [
      | none ↦ false
      | some capacity ↦
          let headers = r.model.header_bytes * (count - 1) % 2 ^ 64 in
          if ltb (u64_max - whole_kv) whole_model
            || ltb (u64_max - headers) (whole_model + whole_kv)
          then false
          else ltb capacity (whole_model + whole_kv + headers)
    ]

-- The loop over the stage counts, over the rounds that are left.
unfoldable pub count_loop : Share → StagesRequest → ℕ → ℕ → Option (List StageAssignment)
unfolding choose count_is_hopeless
count_loop share r zero count = none
count_loop share r (suc rounds) count =
    let rest = count_loop share r rounds (count + 1) in
    if not (leb count (length r.offered_mib) && leb count r.model.layers)
    then none
    else if count_is_hopeless r count
    then rest
    else elim (choose share r count (replicate (length r.offered_mib) false) []) [
      | none ↦ rest
      | some plan ↦ some plan
    ]

abbrev pub is_invalid : StagesRequest → Bool
is_invalid r =
    length r.offered_mib == 0
    || ltb 8 (length r.offered_mib)
    || r.context == 0
    || r.sessions == 0
    || r.minimum_stages == 0
    || ltb (length r.offered_mib) r.minimum_stages
    || (elim r.head [ none ↦ false | some head ↦ leb (length r.offered_mib) head ])

-- No count above the number of candidates is tried, so that many rounds are enough.
unfoldable pub plan_stages : Share → StagesRequest → Option (List StageAssignment)
unfolding count_loop
plan_stages share r = elim (compatible_stage_model r.model) [
  | some problem ↦ none
  | none ↦
      if is_invalid r
      then none
      else count_loop share r (length r.offered_mib + 1 - r.minimum_stages) r.minimum_stages
]
