-- ===== src/Runs/Choosing.antt =====
-- selection.cpp on a ready plan, a better one that must load, and an unmeasured one.
use dan.Common.{ℕ, ◌≡◌, ◌↔◌, ◌⊎◌, refl, true, false, List, [], ◌∷◌, none, some, pos, int_lt, ◌*◌}
use dan.Common.Text.{codes}
use dan.Selection
use dan.Selection.Choice.{
  IsBest, tier, meets, meets_ready, meets_cold, slow, select_plan_chosen, select_plan_none,
  select_plan_fallback, select_plan_better_cold,
}
use dan.Runs.Speculating.{thousandths}

-- The defaults of SelectionPolicy.
abbrev policy : Selection.SelectionPolicy thousandths
policy = record {
  target_tokens_per_s = 20000;
  first_token_target_ms = 2000 * 1000;
  first_token_max_ms = 5000 * 1000;
  context = 32768;
  max_providers = 5;
  ordinary_input_tokens = 2048;
  stall_p95_ms = 1000 * 1000;
  margin = 200;
  cold_start = Selection.ready_first;
}

abbrev ready_plan : Selection.PlanEstimate thousandths
ready_plan = record {
  label = codes "small";
  quality_tier = pos 1;
  context = 32768;
  providers = 1;
  ready = true;
  measured = true;
  token_ms = 30 * 1000;
  first_token_ms = 900 * 1000;
  load_ms = 0;
  stall_p95_ms = 0;
  cache_warm = false;
  resource_bytes = 1000;
}

abbrev cold_plan : Selection.PlanEstimate thousandths
cold_plan = record ready_plan { label = codes "large"; quality_tier = pos 3; ready = false }

abbrev unmeasured_plan : Selection.PlanEstimate thousandths
unmeasured_plan = record ready_plan { label = codes "new"; quality_tier = pos 5; measured = false }

abbrev three_plans : List (Selection.PlanEstimate thousandths)
three_plans = unmeasured_plan ∷ ready_plan ∷ cold_plan ∷ []

abbrev one_plan : List (Selection.PlanEstimate thousandths)
one_plan = unmeasured_plan ∷ []

ready_is_chosen : (Selection.select_plan thousandths three_plans policy).chosen ≡ some 1
unfolding Selection.select_plan Selection.consider_all Selection.consider Selection.keep
    Selection.assess_plan Selection.better
ready_is_chosen = refl

cold_is_better : (Selection.select_plan thousandths three_plans policy).better_cold ≡ some 2
unfolding Selection.select_plan Selection.consider_all Selection.consider Selection.keep
    Selection.assess_plan Selection.better
cold_is_better = refl

fallback_is_offered : (Selection.select_plan thousandths one_plan policy).fallback ≡ some 0
unfolding Selection.select_plan Selection.consider_all Selection.consider Selection.keep
    Selection.assess_plan Selection.better
fallback_is_offered = refl

select_plan_chosen_example :
    (IsBest thousandths three_plans policy (meets thousandths three_plans policy) 3 (some 1)
      × ((Selection.is_wait policy.cold_start ≡ true)
          ⊎ IsBest thousandths three_plans policy
              (meets_ready thousandths three_plans policy)
              3
              none))
    ⊎ ((Selection.is_wait policy.cold_start ≡ false)
        × IsBest thousandths three_plans policy
            (meets_ready thousandths three_plans policy)
            3
            (some 1))
select_plan_chosen_example = select_plan_chosen thousandths three_plans policy 1 ready_is_chosen

select_plan_none_example :
    ((Selection.select_plan thousandths one_plan policy).chosen ≡ none)
    ↔ IsBest thousandths one_plan policy (meets thousandths one_plan policy) 1 none
select_plan_none_example = select_plan_none thousandths one_plan policy

select_plan_fallback_example :
    ((Selection.select_plan thousandths one_plan policy).chosen ≡ none)
    × IsBest thousandths one_plan policy (slow thousandths one_plan policy) 1 (some 0)
select_plan_fallback_example =
    select_plan_fallback thousandths one_plan policy 0 fallback_is_offered

select_plan_better_cold_example :
    (Selection.is_wait policy.cold_start ≡ false)
    × IsBest thousandths three_plans policy (meets_cold thousandths three_plans policy) 3 (some 2)
    × (i : ℕ) × ((Selection.select_plan thousandths three_plans policy).chosen ≡ some i)
    × IsBest thousandths three_plans policy (meets_ready thousandths three_plans policy) 3 (some i)
    × (int_lt (tier thousandths three_plans policy i) (tier thousandths three_plans policy 2)
        ≡ true)
select_plan_better_cold_example =
    select_plan_better_cold thousandths three_plans policy 2 cold_is_better
