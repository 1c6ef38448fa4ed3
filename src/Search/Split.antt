-- ===== src/Search/Split.antt =====
-- search.cpp, lines 141 to 191: best_split, a dynamic program over the stages and their last layers.
-- A row has one cell for each number of layers, and -1 in `from` is `none`.
pub mod Rows
pub mod Sound
use dan.Common.{
  ℕ, zero, suc, ◌+◌, ◌-◌, ◌*◌, Bool, true, false, not, ◌&&◌, List, [], ◌∷◌, Option, none, some, ltb,
  ◌==◌, if◌then◌else◌, length, set, get_or, get_elem?, replicate,
}
use dan.Common.Double.{Doubles}
use dan.Planner.Sizes.{StageAssignment}
use dan.Search.{SearchCandidate, LayerSizes, model_size, kv_size}
use dan.Search.Sizes.{fits}
use dan.Search.Times.{compute_ms, zero_ms, with_candidate}

module _ (d : Doubles) where
  open d use {Double, literal, add, mul, lt, eq, infinity}

  pub record Cell : Type 0 where
    pub cost : Double
    pub from : Option ℕ

  abbrev pub no_cell : Cell
  no_cell = record { cost = infinity; from = none }

  abbrev pub cell_at : List Cell → ℕ → Cell
  cell_at row index = get_or row index no_cell

  abbrev pub empty_row : ℕ → List Cell
  empty_row layers = replicate (layers + 1) no_cell

  abbrev pub first_row : ℕ → List Cell
  first_row layers = set (empty_row layers) 0 (record { cost = zero_ms d; from = none })

  abbrev pub balance_weight : Double
  balance_weight = literal 1 1_000_000_000

  -- `value < cost[stage + 1][end]`
  abbrev pub relax : List Cell → ℕ → ℕ → Double → List Cell
  relax next begin end value =
      if lt value (cell_at next end).cost
      then set next end (record { cost = value; from = some begin })
      else next

  abbrev pub stage_value : LayerSizes → SearchCandidate d → List Cell → ℕ → ℕ → Double
  stage_value sizes c row begin end =
      let stage_ms = compute_ms d sizes c begin end in
      add (add (cell_at row begin).cost stage_ms) (mul (mul balance_weight stage_ms) stage_ms)

  -- The loop over `end`, for the rounds that are left; the last stage ends at the last layer.
  unfoldable pub end_loop :
      LayerSizes → SearchCandidate d → List Cell → Bool → ℕ → ℕ → ℕ → List Cell → List Cell
  unfolding fits compute_ms
  end_loop sizes c row is_last begin zero end next = next
  end_loop sizes c row is_last begin (suc left) end next =
      let skipped = end_loop sizes c row is_last begin left (end + 1) next in
      let taken =
        end_loop sizes c row is_last begin left (end + 1)
          (relax next begin end (stage_value sizes c row begin end)) in
      if is_last && not (end == sizes.layers)
      then skipped
      else if not (fits sizes c.offered_mib begin end)
      then next
      else taken

  -- The loop over `begin`, which stops below `last_end`.
  unfoldable pub begin_loop :
      LayerSizes → SearchCandidate d → List Cell → Bool → ℕ → ℕ → ℕ → List Cell → List Cell
  unfolding end_loop
  begin_loop sizes c row is_last last_end zero begin next = next
  begin_loop sizes c row is_last last_end (suc left) begin next =
      begin_loop sizes c row is_last last_end left (begin + 1) (
        if eq (cell_at row begin).cost infinity
        then next
        else end_loop sizes c row is_last begin (last_end - begin) (begin + 1) next)

  abbrev pub is_nil : List ℕ → Bool
  is_nil [] = true
  is_nil (x ∷ xs) = false

  -- The row behind the stage of one candidate; `later` are the candidates of the stages behind it.
  unfoldable pub stage_row : LayerSizes → SearchCandidate d → List ℕ → ℕ → List Cell → List Cell
  unfolding begin_loop
  stage_row sizes c later stage row =
      let last_end = sizes.layers - length later in
      begin_loop sizes c row (is_nil later) last_end (last_end - stage) stage
        (empty_row sizes.layers)

  -- The row in front of the stages that are not done.
  abbrev pub row_behind : LayerSizes → List (ℕ × List Cell) → List Cell
  row_behind sizes [] = first_row sizes.layers
  row_behind sizes ((provider, row) ∷ done) = row

  -- The rows of all stages, the last one first. An index out of range stops the loop.
  unfoldable pub stage_loop :
      LayerSizes
      → List (SearchCandidate d)
      → List (ℕ × List Cell)
      → ℕ
      → List ℕ
      → Option (List (ℕ × List Cell))
  unfolding stage_row
  stage_loop sizes candidates done stage [] = some done
  stage_loop sizes candidates done stage (provider ∷ later) = elim (get_elem? candidates provider) [
    | none ↦ none
    | some c ↦
        stage_loop sizes candidates
          ((provider, stage_row sizes c later stage (row_behind sizes done)) ∷ done) (stage + 1)
          later
  ]

  -- The plan from the last stage back; `none` where the code would follow a -1.
  unfoldable pub trace :
      LayerSizes → List (ℕ × List Cell) → ℕ → List StageAssignment → Option (List StageAssignment)
  unfolding model_size kv_size
  trace sizes [] end plan = some plan
  trace sizes ((provider, row) ∷ done) end plan = elim (cell_at row end).from [
    | none ↦ none
    | some begin ↦ trace sizes done begin (
        record {
          provider = provider;
          begin = begin;
          end = end;
          model_bytes = model_size sizes begin end;
          kv_bytes = kv_size sizes begin end;
        }
        ∷ plan)
  ]

  unfoldable pub plan_ms :
      LayerSizes → List (SearchCandidate d) → Double → List StageAssignment → Double
  unfolding compute_ms
  plan_ms sizes candidates total [] = total
  plan_ms sizes candidates total (stage ∷ stages) =
      plan_ms sizes candidates
        (add total (
          with_candidate d candidates stage.provider
            (λ c. compute_ms d sizes c stage.begin stage.end)))
        stages

  -- `none` stands for the answer `infinite`.
  unfoldable pub best_split :
      LayerSizes → List (SearchCandidate d) → List ℕ → Option (Double × List StageAssignment)
  unfolding stage_loop trace plan_ms
  best_split sizes candidates order = elim (stage_loop sizes candidates [] 0 order) [
    | none ↦ none
    | some done ↦
        if eq (cell_at (row_behind sizes done) sizes.layers).cost infinity
        then none
        else elim (trace sizes done sizes.layers []) [
          | none ↦ none
          | some plan ↦ some (plan_ms sizes candidates (zero_ms d) plan, plan)
        ]
  ]
