-- ===== src/Runs/Searching.antt =====
-- search.cpp, best_split for a small model on two workers.
use dan.Common.{ℕ, ◌≡◌, refl, false, List, [], ◌∷◌, some, map}
use dan.Planner.Sizes.{StageAssignment}
use dan.Search.{SearchCandidate, SearchRequest, LayerSizes}
use dan.Search.Times.{zero_ms}
use dan.Search.Pool.{search_pool}
use dan.Search.Pool.Full.{search_pool-full}
use dan.Common.{length}
use dan.Search.Split.{Cell, cell_at, first_row, stage_row, stage_loop, plan_ms, best_split}
use dan.Search.Split.Sound.{Covers, best_split-Covers}
use dan.Runs.Speculating.{thousandths}
use dan.Runs.Models.{dense}
use dan.Common.{◌≢◌, ltb, ltb→lt, true, arith}
use dan.Common.Text.{parse_int}
use dan.Model.{stage_model_bytes}
use dan.Planner.Sizes.{
  kv_bytes, stage_fits, head_width_k, head_width_v, allocated_positions, checked_product,
}
use dan.Search.Sizes.{folded_sizes, sizes_of, fits}
use dan.Search.Sizes.Folding.{is_some, sizes_of-stage_fits}

abbrev sizes : LayerSizes
sizes = record {
  header = 50;
  embedding = 30;
  prefix = 0 ∷ 100 ∷ 200 ∷ 300 ∷ [];
  whole_overlap = 0;
  kv_per_layer = 10;
  layers = 3;
}

abbrev worker : ℕ → SearchCandidate thousandths
worker speed = record {
  offered_mib = 8192;
  us_per_gib = speed;
  rtt_ms = 20000;
  relayed = false;
  prefill_us_per_gib = 0;
  cached = [];
  key = [];
  links = [];
}

abbrev workers : List (SearchCandidate thousandths)
workers = worker 4000000 ∷ worker 2000000 ∷ []

abbrev row_0 : List (Cell thousandths)
row_0 = stage_row thousandths sizes (worker 2000000) (0 ∷ []) 0 (first_row thousandths 3)

abbrev row_1 : List (Cell thousandths)
row_1 = stage_row thousandths sizes (worker 4000000) [] 1 row_0

abbrev rows : List (ℕ × List (Cell thousandths))
rows = (0, row_1) ∷ (1, row_0) ∷ []

rows_found : stage_loop thousandths sizes workers [] 0 (1 ∷ 0 ∷ []) ≡ some rows
unfolding stage_loop
rows_found = refl

layers_reached : thousandths.eq (cell_at thousandths row_1 3).cost thousandths.infinity ≡ false
unfolding stage_row
layers_reached = refl

best_split-Covers_example :
    (plan : List StageAssignment) × (best_split thousandths sizes workers (1 ∷ 0 ∷ [])
      ≡ some (plan_ms thousandths sizes workers (zero_ms thousandths) plan, plan))
    × Covers thousandths sizes refl workers 0 plan
    × (map (λ a. a.provider) plan ≡ 1 ∷ 0 ∷ [])
best_split-Covers_example =
    best_split-Covers thousandths sizes refl workers (1 ∷ 0 ∷ []) rows rows_found layers_reached

-- The dense model, whose output head is the embedding: both layers hold it, and the overlap is taken off.
dense_sizes : sizes_of dense 256 2 ≡ some (folded_sizes dense 256 2 (5000 ∷ 10100 ∷ []))
unfolding sizes_of parse_int head_width_k head_width_v allocated_positions checked_product
dense_sizes = refl

bytes_positive : ltb 0 (stage_model_bytes dense 0 2) ≡ true
unfolding stage_model_bytes parse_int
bytes_positive = refl

dense_bytes : stage_model_bytes dense 0 2 ≢ 0
dense_bytes h = omega (arith, h, ltb→lt 0 (stage_model_bytes dense 0 2) bytes_positive)

kv_positive : ltb 0 (kv_bytes dense 0 2 256 2) ≡ true
unfolding kv_bytes head_width_k head_width_v allocated_positions checked_product
kv_positive = refl

dense_kv : kv_bytes dense 0 2 256 2 ≢ 0
dense_kv h = omega (arith, h, ltb→lt 0 (kv_bytes dense 0 2 256 2) kv_positive)

sizes_of-stage_fits_example :
    fits (folded_sizes dense 256 2 (5000 ∷ 10100 ∷ [])) 1100 0 2
    ≡ is_some (stage_fits dense 1100 0 2 256 2)
sizes_of-stage_fits_example =
    sizes_of-stage_fits dense (folded_sizes dense 256 2 (5000 ∷ 10100 ∷ [])) 1100 256 2 dense_sizes
      dense_bytes dense_kv

abbrev request : SearchRequest thousandths
request = record {
  context = 256;
  sessions = 2;
  minimum_stages = 1;
  maximum_stages = 5;
  head = some 1;
  work_budget = 4000;
  pool_limit = 12;
  cached_tolerance = 100;
  relay_penalty_ms = 25000;
  prompt_rows = 0;
  chunk_rows = 512;
  row_bytes = 0;
  first_token_limit_ms = 0;
}

-- The head comes first, and then the other worker.
pool_filled : search_pool thousandths workers request ≡ 1 ∷ 0 ∷ []
unfolding search_pool
pool_filled = refl

search_pool-full_example : length (search_pool thousandths workers request) ≡ 2
search_pool-full_example = search_pool-full thousandths workers request (omega arith)
