-- ===== src/Planner/Cache.antt =====
-- planner.cpp, plan_from_cache: a plan from ranges that the candidates hold already. A cached range
-- is used only if it begins at a layer reached from 0 and ends above it, so negative numbers in
-- one play no part and the ranges are pairs of ℕ.
pub mod Options
pub mod Exact
use dan.Common.{
  ℕ, zero, suc, ◌+◌, Bool, true, false, not, ◌&&◌, ◌||◌, List, [], ◌∷◌, ◌++◌, Option, none, some,
  ltb, leb, ◌==◌, if◌then◌else◌, length, set, get_or, replicate,
}
use dan.Model.{ModelIndex}
use dan.Planner.Sizes.{StageAssignment, stage_fits}
use dan.Planner.Compatible.{compatible_stage_model}
use Options.{collect, sort_options}

pub record CacheRequest : Type 0 where
  pub model : ModelIndex
  pub offered_mib : List ℕ
  pub cached : List (List (ℕ × ℕ))
  pub context : ℕ
  pub sessions : ℕ
  pub minimum_stages : ℕ
  pub stage_limit : ℕ
  pub head : Option ℕ

abbrev pub fit : CacheRequest → ℕ → ℕ → ℕ → Option StageAssignment
fit r index begin end =
    stage_fits r.model (get_or r.offered_mib index 0) begin end r.context r.sessions

-- The loop over the options of one stage; `extend` is the call for the stages behind it. What the
-- source undoes after a failed call is what the next round starts from here.
unfoldable pub try_options :
    CacheRequest
    → (ℕ → List Bool → List StageAssignment → Option (List StageAssignment))
    → ℕ
    → List Bool
    → List StageAssignment
    → List (ℕ × ℕ)
    → Option (List StageAssignment)
try_options r extend begin used stages [] = none
try_options r extend begin used stages ((end, index) ∷ options) = elim (fit r index begin end) [
  | none ↦ try_options r extend begin used stages options
  | some assignment ↦
      elim (extend end (set used index true)
        (stages ++ record assignment { provider = index } ∷ [])) [
          | some plan ↦ some plan
          | none ↦ try_options r extend begin used stages options
        ]
]

-- `begin == layers`
abbrev pub finished : CacheRequest → List StageAssignment → Option (List StageAssignment)
finished r stages = if leb r.minimum_stages (length stages) then some stages else none

-- The first argument is how many stages the limit still allows, `stage_limit - stages.size()`.
unfoldable pub extend :
    CacheRequest → ℕ → ℕ → List Bool → List StageAssignment → Option (List StageAssignment)
extend r zero begin used stages = if begin == r.model.layers then finished r stages else none
extend r (suc room) begin used stages =
    if begin == r.model.layers
    then finished r stages
    else try_options r (extend r room) begin used stages
        (sort_options (collect r.head r.model.layers begin 0 used r.cached))

abbrev pub head_invalid : Option ℕ → ℕ → Bool
head_invalid none size = false
head_invalid (some head) size = leb size head

unfoldable pub plan_from_cache : CacheRequest → Option (List StageAssignment)
unfolding extend try_options
plan_from_cache r = elim (compatible_stage_model r.model) [
  | some problem ↦ none
  | none ↦
      if not (length r.offered_mib == length r.cached)
        || r.minimum_stages == 0
        || r.stage_limit == 0
        || r.context == 0
        || r.sessions == 0
        || head_invalid r.head (length r.offered_mib)
      then none
      else extend r r.stage_limit 0 (replicate (length r.offered_mib) false) []
]
