-- ===== src/Search/FirstToken.antt =====
-- search.cpp, lines 213 to 241: search_first_token_ms.
use dan.Common.{
  ℕ, ◌+◌, ◌-◌, ◌/◌, ◌%◌, ◌^◌, min, not, ◌||◌, List, [], ◌∷◌, Option, none, some, ◌==◌,
  if◌then◌else◌, get_elem?,
}
use dan.Common.Double.{Doubles}
use dan.Model.{ModelIndex}
use dan.Planner.Sizes.{StageAssignment, decode_bytes, mib}
use dan.Search.{SearchCandidate, SearchRequest}
use dan.Search.Times.{
  zero_ms, gib, max_double, rtt_of, measured_mib_per_s, link_one_way_ms, is_head, with_candidate,
}

-- The chunk and the number of chunks, in 32 bits.
abbrev pub chunk_of : ℕ → ℕ → ℕ
chunk_of prompt_rows chunk_rows =
    if chunk_rows == 0 then prompt_rows else min chunk_rows prompt_rows

abbrev pub chunks_of : ℕ → ℕ → ℕ
chunks_of prompt_rows chunk_rows =
    let chunk = chunk_of prompt_rows chunk_rows in
    (prompt_rows + chunk + 2 ^ 32 - 1) % 2 ^ 32 / chunk

module _ (d : Doubles) (candidates : List (SearchCandidate d)) (request : SearchRequest d) where
  open d use {Double, of_nat, add, mul, div, lt}

  -- `total` and `slowest`.
  pub record Pace : Type 0 where
    pub total : Double
    pub slowest : Double

  abbrev pub step_by : Pace → Double → Pace
  step_by pace ms = record { total = add pace.total ms; slowest = max_double d pace.slowest ms }

  abbrev pub stage_step : ModelIndex → Double → StageAssignment → SearchCandidate d → Double
  stage_step model rows stage at =
      mul
        (div
          (mul (div (of_nat (decode_bytes model stage.begin stage.end)) (gib d))
            at.prefill_us_per_gib)
          (of_nat 1000))
        rows

  -- A hop from `at` to the next stage's candidate; `none` where the bandwidth is not known.
  abbrev pub hop : Double → Pace → ℕ → ℕ → SearchCandidate d → SearchCandidate d → Option Pace
  hop rows pace from to at next =
      let mib_per_s = measured_mib_per_s d at next in
      let moved = step_by pace (
        mul (div (mul rows (of_nat request.row_bytes)) (mul mib_per_s (of_nat mib)))
          (of_nat 1000)) in
      if not (lt (zero_ms d) mib_per_s) || request.row_bytes == 0
      then none
      else some
          (record moved { total = add moved.total (link_one_way_ms d candidates from to request) })

  -- The loop over the stages; `none` where it returns 0.
  unfoldable pub pace_loop : ModelIndex → Double → Pace → List StageAssignment → Option Pace
  unfolding decode_bytes measured_mib_per_s link_one_way_ms
  pace_loop model rows pace [] = some pace
  pace_loop model rows pace (stage ∷ []) = elim (get_elem? candidates stage.provider) [
    | none ↦ none
    | some at ↦
        if lt (zero_ms d) at.prefill_us_per_gib
        then some (step_by pace (stage_step model rows stage at))
        else none
  ]
  pace_loop model rows pace (stage ∷ next ∷ stages) = elim (get_elem? candidates stage.provider) [
    | none ↦ none
    | some at ↦ elim (get_elem? candidates next.provider) [
      | none ↦ none
      | some to ↦
          elim (if lt (zero_ms d) at.prefill_us_per_gib
            then hop rows (step_by pace (stage_step model rows stage at)) stage.provider
                next.provider at to
            else none) [ none ↦ none | some moved ↦ pace_loop model rows moved (next ∷ stages) ]
    ]
  ]

  -- The way from the planning node and back, for a stage that is not at the head.
  abbrev pub way : Double → ℕ → Double
  way total provider =
      if is_head d request provider
      then total
      else add total
          (with_candidate d candidates provider (λ c. div (rtt_of d c request) (of_nat 2)))

  abbrev pub last_provider : StageAssignment → List StageAssignment → ℕ
  last_provider stage [] = stage.provider
  last_provider stage (next ∷ stages) = last_provider next stages

  unfoldable pub search_first_token_ms : ModelIndex → List StageAssignment → Double
  unfolding pace_loop
  search_first_token_ms model [] = zero_ms d
  search_first_token_ms model (first ∷ rest) =
      let chunks = chunks_of request.prompt_rows request.chunk_rows in
      let rows = div (of_nat request.prompt_rows) (of_nat chunks) in
      let start : Pace = record { total = zero_ms d; slowest = zero_ms d } in
      if request.prompt_rows == 0
      then zero_ms d
      else elim (pace_loop model rows start (first ∷ rest)) [
        | none ↦ zero_ms d
        | some pace ↦
            let total =
              add pace.total (mul (of_nat ((chunks + 2 ^ 32 - 1) % 2 ^ 32)) pace.slowest) in
            way (way total first.provider) (last_provider first rest)
      ]
