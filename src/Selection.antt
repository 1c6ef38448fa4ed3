-- ===== src/Selection.antt =====
-- The choice among feasible plans: engine/include/provider_owned/selection.hpp and
-- engine/selection.cpp. `double` is a parameter.
pub mod Choice
use dan.Common.{
  ℕ, zero, suc, ◌+◌, Bool, true, false, not, ◌&&◌, ◌||◌, List, [], ◌∷◌, ◌++◌, Option, none, some,
  ltb, ◌==◌, if◌then◌else◌, Bytes, bytes_eq, get_or, length, ℤ, pos, int_eq, int_lt,
}
use dan.Common.Double.{Doubles}
use dan.Common.Text.{codes, to_string, int_to_string}

pub data ColdStart : Type 0 where
  ready_first : ColdStart
  wait : ColdStart

pub data Verdict : Type 0 where
  meets_target : Verdict
  below_target : Verdict
  unverified : Verdict
  ineligible : Verdict

pub record Assessment : Type 0 where
  pub verdict : Verdict
  pub reason : Bytes

pub record Selection : Type 0 where
  pub chosen : Option ℕ
  pub better_cold : Option ℕ
  pub fallback : Option ℕ
  pub reason : Bytes

abbrev pub is_meets : Verdict → Bool
is_meets meets_target = true
is_meets _ = false

abbrev pub is_ineligible : Verdict → Bool
is_ineligible ineligible = true
is_ineligible _ = false

abbrev pub is_wait : ColdStart → Bool
is_wait wait = true
is_wait ready_first = false

-- `operator<` of std::string, which compares bytes.
abbrev pub bytes_lt : Bytes → Bytes → Bool
bytes_lt _ [] = false
bytes_lt [] (y ∷ ys) = true
bytes_lt (x ∷ xs) (y ∷ ys) = let rest = bytes_lt xs ys in ltb x y || (x == y && rest)

module _ (d : Doubles) where
  open d use {Double, literal, of_nat, add, mul, div, lt, le, eq, is_finite, infinity, llround}

  pub record SelectionPolicy : Type 0 where
    pub target_tokens_per_s : Double
    pub first_token_target_ms : Double
    pub first_token_max_ms : Double
    pub context : ℕ
    pub max_providers : ℕ
    pub ordinary_input_tokens : ℕ
    pub stall_p95_ms : Double
    pub margin : Double
    pub cold_start : ColdStart

  pub record PlanEstimate : Type 0 where
    pub label : Bytes
    pub quality_tier : ℤ
    pub context : ℕ
    pub providers : ℕ
    pub ready : Bool
    pub measured : Bool
    pub token_ms : Double
    pub first_token_ms : Double
    pub load_ms : Double
    pub stall_p95_ms : Double
    pub cache_warm : Bool
    pub resource_bytes : ℕ

  -- `PlanEstimate{}`
  abbrev pub empty_plan : PlanEstimate
  empty_plan = record {
    label = [];
    quality_tier = pos 0;
    context = 0;
    providers = 0;
    ready = false;
    measured = false;
    token_ms = of_nat 0;
    first_token_ms = of_nat 0;
    load_ms = of_nat 0;
    stall_p95_ms = of_nat 0;
    cache_warm = false;
    resource_bytes = 0;
  }

  abbrev pub plan_at : List PlanEstimate → ℕ → PlanEstimate
  plan_at plans index = get_or plans index empty_plan

  abbrev pub usable_number : Double → Bool
  usable_number value = is_finite value && le (of_nat 0) value

  abbrev pub milliseconds : Double → Bytes
  milliseconds value = int_to_string (llround value) ++ codes " ms"

  -- `value * (1 + policy.margin)`
  abbrev pub padded : SelectionPolicy → Double → Double
  padded policy value = mul value (add (of_nat 1) policy.margin)

  abbrev pub known : Double → Double
  known value = if lt (of_nat 0) value then value else infinity

  abbrev pub is_quick : PlanEstimate → SelectionPolicy → Bool
  is_quick plan policy =
      lt (of_nat 0) plan.first_token_ms
      && le (padded policy plan.first_token_ms) policy.first_token_target_ms

  -- `std::tie(resource_bytes, providers, label) < ...`
  abbrev pub tie_lt : PlanEstimate → PlanEstimate → Bool
  tie_lt left right =
      if not (left.resource_bytes == right.resource_bytes)
      then ltb left.resource_bytes right.resource_bytes
      else if not (left.providers == right.providers)
      then ltb left.providers right.providers
      else bytes_lt left.label right.label

  abbrev pub bool_eq : Bool → Bool → Bool
  bool_eq true b = b
  bool_eq false b = not b

  unfoldable pub better : PlanEstimate → PlanEstimate → SelectionPolicy → Bool
  better left right policy =
      if not (int_eq left.quality_tier right.quality_tier)
      then int_lt right.quality_tier left.quality_tier
      else if not (bool_eq (is_quick left policy) (is_quick right policy))
      then is_quick left policy
      else if not (eq (known left.token_ms) (known right.token_ms))
      then lt (known left.token_ms) (known right.token_ms)
      else if not (bool_eq left.ready right.ready)
      then left.ready
      else if not (bool_eq left.cache_warm right.cache_warm)
      then left.cache_warm
      else tie_lt left right

  unfoldable pub assess_plan : PlanEstimate → SelectionPolicy → Assessment
  assess_plan plan policy =
      let token_limit = div (of_nat 1000) policy.target_tokens_per_s in
      if not (usable_number plan.token_ms)
        || not (usable_number plan.first_token_ms)
        || not (usable_number plan.load_ms)
        || not (usable_number plan.stall_p95_ms)
      then record { verdict = ineligible; reason = codes "invalid estimate" }
      else if ltb plan.context policy.context
      then record {
        verdict = ineligible;
        reason =
            codes "context "
            ++ to_string plan.context
            ++ codes " < required "
            ++ to_string policy.context;
      }
      else if plan.providers == 0 || ltb policy.max_providers plan.providers
      then record {
        verdict = ineligible;
        reason =
            to_string plan.providers
            ++ codes " providers (limit "
            ++ to_string policy.max_providers
            ++ codes ")";
      }
      else if not plan.measured || eq plan.token_ms (of_nat 0) || eq plan.first_token_ms (of_nat 0)
      then record { verdict = unverified; reason = codes "speed not measured yet" }
      else if lt token_limit (padded policy plan.token_ms)
      then record {
        verdict = below_target;
        reason =
            milliseconds plan.token_ms
            ++ codes " per token (limit "
            ++ milliseconds token_limit
            ++ codes " with margin)";
      }
      else if lt policy.first_token_max_ms (padded policy plan.first_token_ms)
      then record {
        verdict = below_target;
        reason =
            codes "first token "
            ++ milliseconds plan.first_token_ms
            ++ codes " (limit "
            ++ milliseconds policy.first_token_max_ms
            ++ codes " with margin)";
      }
      else if lt policy.stall_p95_ms (padded policy plan.stall_p95_ms)
      then record {
        verdict = below_target;
        reason = codes "p95 stall " ++ milliseconds plan.stall_p95_ms;
      }
      else record { verdict = meets_target; reason = [] }

  -- The optionals that the loop of select_plan fills.
  pub record Bests : Type 0 where
    pub best_ready : Option ℕ
    pub best_cold : Option ℕ
    pub best_any : Option ℕ
    pub fallback : Option ℕ

  -- The lambda `keep`: the new value of `best`.
  unfoldable pub keep : List PlanEstimate → SelectionPolicy → Option ℕ → ℕ → Option ℕ
  keep plans policy none index = some index
  keep plans policy (some best) index =
      if better (plan_at plans index) (plan_at plans best) policy then some index else some best

  abbrev pub verdict_at : List PlanEstimate → SelectionPolicy → ℕ → Verdict
  verdict_at plans policy index = (assess_plan (plan_at plans index) policy).verdict

  -- The body of the loop.
  unfoldable pub consider : List PlanEstimate → SelectionPolicy → Bests → ℕ → Bests
  unfolding keep
  consider plans policy b index =
      if is_meets (verdict_at plans policy index)
      then (if (plan_at plans index).ready
          then record b {
            best_ready = keep plans policy b.best_ready index;
            best_any = keep plans policy b.best_any index;
          }
          else record b {
            best_cold = keep plans policy b.best_cold index;
            best_any = keep plans policy b.best_any index;
          })
      else if not (is_ineligible (verdict_at plans policy index))
      then record b { fallback = keep plans policy b.fallback index }
      else b

  -- The loop over the first `count` plans.
  unfoldable pub consider_all : List PlanEstimate → SelectionPolicy → ℕ → Bests
  unfolding consider
  consider_all plans policy zero = record {
    best_ready = none;
    best_cold = none;
    best_any = none;
    fallback = none;
  }
  consider_all plans policy (suc count) =
      consider plans policy (consider_all plans policy count) count

  -- `policy.cold_start == ColdStart::wait || !best_ready`, and the plan taken from the ready ones.
  abbrev pub choose_from : List PlanEstimate → SelectionPolicy → Bests → Option ℕ × Option ℕ
  choose_from plans policy b = elim b.best_ready [
    | none ↦ (b.best_any, none)
    | some ready ↦ if is_wait policy.cold_start then (b.best_any, none) else (
      some ready,
      elim b.best_cold [
        | none ↦ none
        | some cold ↦
            if int_lt (plan_at plans ready).quality_tier (plan_at plans cold).quality_tier
            then some cold
            else none
      ],
    )
  ]

  abbrev pub chosen_reason : PlanEstimate → Bytes
  chosen_reason plan =
      plan.label
      ++ (if plan.ready then codes " (ready)" else codes " (needs loading)")
      ++ codes ": tier "
      ++ int_to_string plan.quality_tier
      ++ codes ", "
      ++ milliseconds plan.token_ms
      ++ codes " per token, first token "
      ++ milliseconds plan.first_token_ms

  abbrev pub front_reason : List PlanEstimate → SelectionPolicy → Bytes
  front_reason [] policy = codes "no feasible plan"
  front_reason (plan ∷ plans) policy =
      codes "no eligible plan: " ++ (assess_plan plan policy).reason

  abbrev pub fallback_reason : PlanEstimate → SelectionPolicy → Bytes
  fallback_reason plan policy =
      codes "no plan meets the target; slower option: "
      ++ plan.label
      ++ codes " ("
      ++ (assess_plan plan policy).reason
      ++ codes ")"

  unfoldable pub select_plan : List PlanEstimate → SelectionPolicy → Selection
  unfolding consider_all
  select_plan plans policy =
      let b = consider_all plans policy (length plans) in
      let (chosen, better_cold) = choose_from plans policy b in
      elim chosen [
        | some index ↦ record {
          chosen = some index;
          better_cold = better_cold;
          fallback = none;
          reason = chosen_reason (plan_at plans index);
        }
        | none ↦ elim b.fallback [
          | some index ↦ record {
            chosen = none;
            better_cold = better_cold;
            fallback = some index;
            reason = fallback_reason (plan_at plans index) policy;
          }
          | none ↦ record {
            chosen = none;
            better_cold = better_cold;
            fallback = none;
            reason = front_reason plans policy;
          }
        ]
      ]

abbrev pub preferred_model : ℤ → ℕ → ℤ → ℕ → Bool
preferred_model left_tier left_bytes right_tier right_bytes =
    if not (int_eq left_tier right_tier)
    then int_lt right_tier left_tier
    else ltb right_bytes left_bytes
