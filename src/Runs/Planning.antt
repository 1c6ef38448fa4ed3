-- ===== src/Runs/Planning.antt =====
-- planner.cpp on two workers, one with 1,100 MiB and one with 8,000 MiB.
use dan.Common.{
  ℕ, ◌+◌, ◌/◌, ◌≤◌, ◌≡◌, ◌≢◌, ◌↔◌, ◌*◌, List, [], ◌∷◌, none, some, true, false, refl, length, arith,
  bytes_eq_iff, leb, if◌then◌else◌,
}
use dan.Common.Text.{codes, to_string, print_loop, digits_value, parse_unsigned, parse_int}
use dan.Model.{block_layer, owned_outside, owned_tensor, sum_owned, stage_model_bytes, u64_max}
use dan.Planner.Sizes.{
  mib, allocated_positions, head_width_k, head_width_v, checked_product, kv_bytes, usable_bytes,
  StageAssignment, stage_assignment, stage_fits, draft_room, stage_with_draft_fits, reserve_of,
}
use dan.Planner.Sizes.Bounds.{kv_exact, kv_bytes_lem, stage_fits_iff, stage_with_draft_sound}
use dan.Planner.Compatible.{compatible_stage_model, compatible_qwen2, valid_attention, has_tensor}
use dan.Planner.Compatible.Requirements.{Banks, bank_width, compatible-Banks}
use dan.Planner.Cache.{CacheRequest, try_options, extend, plan_from_cache}
use dan.Planner.Cache.Options.{collect_ranges, collect, insert_option, sort_options}
use dan.Planner.Cache.Exact.{
  IsRequest, IsPlan, all_free, plan_from_cache_sound, plan_from_cache_complete,
}
use dan.Planner.Stages.Cuts.{Share, ends_from, insert_end, sort_ends, ends_near}
use dan.Planner.Stages.{
  StagesRequest, try_ends, split, choose_loop, choose, count_is_hopeless, count_loop, is_invalid,
  plan_stages,
}
use dan.Planner.Stages.Exact.{IsDeployment, plan_stages_sound, plan_stages_complete}
use dan.Runs.Models.{dense, mixture, dense_is_compatible, mixture_is_compatible}

abbrev sum : List ℕ → ℕ
sum [] = 0
sum (n ∷ ns) = n + sum ns

-- The share rounded down.
abbrev floor_share : Share
floor_share numerator offers = numerator / sum offers

abbrev two_workers : StagesRequest
two_workers = record {
  model = dense;
  offered_mib = 1100 ∷ 8000 ∷ [];
  context = 256;
  sessions = 2;
  minimum_stages = 2;
  head = some 1;
}

abbrev two_stages : List StageAssignment
two_stages =
    record (stage_assignment dense 0 1 256 2) { provider = 1 }
    ∷ record (stage_assignment dense 1 2 256 2) { provider = 0 }
    ∷ []

planned : plan_stages floor_share two_workers ≡ some two_stages
unfolding plan_stages count_loop count_is_hopeless choose choose_loop split try_ends ends_near
    ends_from sort_ends insert_end stage_fits kv_bytes allocated_positions head_width_k head_width_v
    checked_product stage_model_bytes owned_tensor block_layer owned_outside sum_owned usable_bytes
    digits_value parse_unsigned parse_int compatible_stage_model compatible_qwen2 valid_attention
    has_tensor to_string print_loop
planned = refl

plan_stages_sound_example :
    (compatible_stage_model dense ≡ none)
    × (is_invalid two_workers ≡ false)
    × (2 ≤ length two_stages)
    × (length two_stages ≤ 2)
    × IsDeployment two_workers (length two_stages) two_stages
plan_stages_sound_example = plan_stages_sound floor_share two_workers two_stages planned

deployed : IsDeployment two_workers 2 two_stages
deployed = (plan_stages_sound floor_share two_workers two_stages planned).4

two_stages_hope : count_is_hopeless two_workers 2 ≡ false
unfolding count_is_hopeless kv_bytes allocated_positions head_width_k head_width_v checked_product
    stage_model_bytes owned_tensor block_layer owned_outside sum_owned usable_bytes digits_value
    parse_unsigned parse_int
two_stages_hope = refl

plan_stages_complete_example :
    (found : List StageAssignment) × (plan_stages floor_share two_workers ≡ some found)
    × (length found ≤ 2)
plan_stages_complete_example =
    plan_stages_complete floor_share two_workers 2 two_stages dense_is_compatible refl (omega arith)
      (omega arith) two_stages_hope deployed

abbrev two_caches : CacheRequest
two_caches = record {
  model = dense;
  offered_mib = 1100 ∷ 8000 ∷ [];
  cached = ((1, 2) ∷ []) ∷ ((0, 1) ∷ (0, 2) ∷ []) ∷ [];
  context = 256;
  sessions = 2;
  minimum_stages = 2;
  stage_limit = 3;
  head = none;
}

planned_from_cache : plan_from_cache two_caches ≡ some two_stages
unfolding plan_from_cache extend try_options collect_ranges collect insert_option sort_options
    stage_fits kv_bytes allocated_positions head_width_k head_width_v checked_product
    stage_model_bytes owned_tensor block_layer owned_outside sum_owned usable_bytes digits_value
    parse_unsigned parse_int compatible_stage_model compatible_qwen2 valid_attention has_tensor
    to_string print_loop
planned_from_cache = refl

plan_from_cache_sound_example :
    IsRequest two_caches × IsPlan two_caches 3 0 (all_free two_caches) 0 two_stages
plan_from_cache_sound_example = plan_from_cache_sound two_caches two_stages planned_from_cache

cache-IsRequest : IsRequest two_caches × IsPlan two_caches 3 0 (all_free two_caches) 0 two_stages
cache-IsRequest = plan_from_cache_sound two_caches two_stages planned_from_cache

plan_from_cache_complete_example :
    (found : List StageAssignment) × (plan_from_cache two_caches ≡ some found)
plan_from_cache_complete_example =
    plan_from_cache_complete two_caches two_stages cache-IsRequest.0 cache-IsRequest.1

abbrev tail : StageAssignment
tail = record { provider = 0; begin = 1; end = 2; model_bytes = 6100; kv_bytes = 65536 }

stage_fits_iff_example : (stage_fits dense 1100 1 2 256 2 ≡ some tail) ↔ (
    (tail ≡ stage_assignment dense 1 2 256 2)
    × (tail.model_bytes ≢ 0)
    × (tail.kv_bytes ≢ 0)
    × (tail.model_bytes + tail.kv_bytes + reserve_of (1100 * mib) ≤ 1100 * mib))
stage_fits_iff_example = stage_fits_iff dense 1100 1 2 256 2 tail (omega arith)

tail_fits : stage_fits dense 1100 1 2 256 2 ≡ some (stage_assignment dense 1 2 256 2)
unfolding stage_fits kv_bytes allocated_positions head_width_k head_width_v checked_product
    stage_model_bytes owned_tensor block_layer owned_outside sum_owned digits_value parse_unsigned
    parse_int
tail_fits = refl

draft_fits : stage_with_draft_fits dense dense 8000 1 256 2 ≡ true
unfolding stage_with_draft_fits draft_room stage_fits kv_bytes allocated_positions head_width_k
    head_width_v checked_product stage_model_bytes owned_tensor block_layer owned_outside sum_owned
    digits_value parse_unsigned parse_int
draft_fits = refl

stage_with_draft_sound_example :
    let main = stage_assignment dense 0 1 256 2 in
    let weights = stage_model_bytes dense 0 2 in
    let kv = kv_bytes dense 0 2 256 2 in
    (main.model_bytes ≢ 0)
    × (main.kv_bytes ≢ 0)
    × (weights ≢ 0)
    × (kv ≢ 0)
    × (main.model_bytes + main.kv_bytes + weights + kv + reserve_of (8000 * mib) ≤ 8000 * mib)
stage_with_draft_sound_example =
    stage_with_draft_sound dense dense 8000 1 256 2 (omega arith) draft_fits

kv_bytes_lem_example :
    kv_bytes dense 0 2 256 2
    ≡ (if leb (kv_exact dense 0 2 256 2) u64_max then kv_exact dense 0 2 256 2 else 0)
kv_bytes_lem_example = kv_bytes_lem dense 0 2 256 2 (omega arith)

some_positions : allocated_positions 300 2 ≢ 0
unfolding allocated_positions
some_positions = omega arith

mixture_is_not_qwen2 : mixture.architecture ≢ codes "qwen2"
mixture_is_not_qwen2 = λ e.
    let h : false ≡ true = (bytes_eq_iff mixture.architecture (codes "qwen2")).1 e in
    absurd (ground (arith, h))

compatible-Banks_example : Banks mixture (bank_width mixture) 1
compatible-Banks_example =
    compatible-Banks mixture 1 mixture_is_compatible mixture_is_not_qwen2 (omega arith)
