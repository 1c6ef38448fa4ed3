-- ===== src/Search/Split/Rows.antt =====
-- search.cpp, best_split: what its loops write into the rows.
use mathlib.Core.Path.{subst}
use dan.Common.{
  ℕ, zero, suc, ◌+◌, ◌-◌, ◌<◌, ◌≡◌, ◌⊎◌, inl, inr, refl, sym, ap, ◌∙◌, Bool, true, false, not, ◌&&◌,
  List, [], ◌∷◌, none, some, ◌==◌, length, set, get_or, replicate, arith, Bool-cases,
}
use dan.Common.Double.{Doubles}
use dan.Search.{SearchCandidate, LayerSizes}
use dan.Search.Sizes.{fits}
use dan.Search.Times.{zero_ms}
use dan.Search.Split.{
  Cell, no_cell, cell_at, empty_row, first_row, relax, stage_value, end_loop, begin_loop, is_nil,
  stage_row,
}

get_or-set :
    {A : Type 0} (xs : List A) (i : ℕ) (v : A) (j : ℕ) (z : A)
    → (get_or (set xs i v) j z ≡ get_or xs j z) ⊎ ((j ≡ i) × (get_or (set xs i v) j z ≡ v))
get_or-set [] i v j z = inl refl
get_or-set (x ∷ xs) zero v zero z = inr (refl, refl)
get_or-set (x ∷ xs) zero v (suc j) z = inl refl
get_or-set (x ∷ xs) (suc i) v zero z = inl refl
get_or-set (x ∷ xs) (suc i) v (suc j) z = elim (get_or-set xs i v j z) [
  | inl e ↦ inl e
  | inr (e, f) ↦ inr (ap suc e, f)
]

get_or-replicate : {A : Type 0} (n : ℕ) (z : A) (j : ℕ) → get_or (replicate n z) j z ≡ z
get_or-replicate zero z j = refl
get_or-replicate (suc n) z zero = refl
get_or-replicate (suc n) z (suc j) = get_or-replicate n z j

pub true_not_false : true ≡ false → ⊥
true_not_false h = ground (arith, h)

module _ (d : Doubles) (sizes : LayerSizes) (reflexive : d.eq d.infinity d.infinity ≡ true) where
  abbrev pub Row : Type 0
  Row = List (Cell d)

  -- A cell that the loops wrote: it continues a cell of the row before by a range that fits.
  pub record Continues (offered : ℕ) (before : Row) (end : ℕ) (cell : Cell d) (begin : ℕ)
      : Type 0 where
    pub same : cell.from ≡ some begin
    pub grows : begin < end
    pub fit : fits sizes offered begin end ≡ true
    pub finite : d.eq (cell_at d before begin).cost d.infinity ≡ false

  -- A cell is unreached, or it continues one of the row before.
  abbrev pub CellOk : ℕ → Row → ℕ → Cell d → Type 0
  CellOk offered before end cell =
      (d.eq cell.cost d.infinity ≡ true) ⊎ ((begin : ℕ) × Continues offered before end cell begin)

  abbrev pub RowOk : ℕ → Row → Row → Type 0
  RowOk offered before row = (end : ℕ) → CellOk offered before end (cell_at d row end)

  empty_row-RowOk :
      (offered : ℕ) (before : Row) (layers : ℕ) → RowOk offered before (empty_row d layers)
  empty_row-RowOk offered before layers end = inl (
      ap (λ (c : Cell d). d.eq c.cost d.infinity) (get_or-replicate (layers + 1) (no_cell d) end)
      ∙ reflexive)

  relax-RowOk :
      (offered : ℕ) (before next : Row) (begin end : ℕ) (value : d.Double)
      → begin < end
      → fits sizes offered begin end ≡ true
      → d.eq (cell_at d before begin).cost d.infinity ≡ false
      → RowOk offered before next
      → RowOk offered before (relax d next begin end value)
  relax-RowOk offered before next begin end value less fit finite ok at =
      elim (Bool-cases (d.lt value (cell_at d next end).cost)) [
        | inr e ↦ rw e (ok at)
        | inl e ↦ rw e (written (get_or-set next end new at (no_cell d)))
      ]
    where
      new : Cell d
      new = record { cost = value; from = some begin }

      written :
          (cell_at d (set next end new) at ≡ cell_at d next at)
            ⊎ ((at ≡ end) × (cell_at d (set next end new) at ≡ new))
          → CellOk offered before at (cell_at d (set next end new) at)
      written (inl e) = subst (CellOk offered before at) (sym e) (ok at)
      written (inr (here, e)) = inr (
        begin,
        record {
          same = ap (λ (c : Cell d). c.from) e;
          grows = omega (arith, here, less);
          fit = subst (λ n. fits sizes offered begin n ≡ true) (sym here) fit;
          finite = finite;
        },
      )

  end_loop-RowOk :
      (c : SearchCandidate d) (before : Row) (is_last : Bool) (begin left end : ℕ) (next : Row)
      → begin < end
      → d.eq (cell_at d before begin).cost d.infinity ≡ false
      → RowOk c.offered_mib before next
      → RowOk c.offered_mib before (end_loop d sizes c before is_last begin left end next)
  unfolding end_loop
  end_loop-RowOk c before is_last begin zero end next less finite ok = ok
  end_loop-RowOk c before is_last begin (suc left) end next less finite ok =
      elim (Bool-cases (is_last && not (end == sizes.layers))) [
        | inl e ↦ rw e (
            end_loop-RowOk c before is_last begin left (end + 1) next (omega (arith, less)) finite
              ok)
        | inr e ↦ rw e (elim (Bool-cases (fits sizes c.offered_mib begin end)) [
          | inr n ↦ rw n ok
          | inl fit ↦ rw fit (
              end_loop-RowOk c before is_last begin left (end + 1)
                (relax d next begin end (stage_value d sizes c before begin end))
                (omega (arith, less)) finite
                (relax-RowOk c.offered_mib before next begin end
                  (stage_value d sizes c before begin end) less fit finite ok))
        ])
      ]

  begin_loop-RowOk :
      (c : SearchCandidate d) (before : Row) (is_last : Bool) (last_end left begin : ℕ) (next : Row)
      → RowOk c.offered_mib before next
      → RowOk c.offered_mib before (begin_loop d sizes c before is_last last_end left begin next)
  unfolding begin_loop
  begin_loop-RowOk c before is_last last_end zero begin next ok = ok
  begin_loop-RowOk c before is_last last_end (suc left) begin next ok =
      elim (Bool-cases (d.eq (cell_at d before begin).cost d.infinity)) [
        | inl e ↦ rw e (begin_loop-RowOk c before is_last last_end left (begin + 1) next ok)
        | inr e ↦ rw e (
            begin_loop-RowOk c before is_last last_end left (begin + 1)
              (end_loop d sizes c before is_last begin (last_end - begin) (begin + 1) next)
              (end_loop-RowOk c before is_last begin (last_end - begin) (begin + 1) next
                (omega arith) e ok))
      ]

  pub stage_row-RowOk :
      (c : SearchCandidate d) (later : List ℕ) (stage : ℕ) (before : Row)
      → RowOk c.offered_mib before (stage_row d sizes c later stage before)
  unfolding stage_row
  stage_row-RowOk c later stage before =
      begin_loop-RowOk c before (is_nil d later) (sizes.layers - length later)
        (sizes.layers - length later - stage) stage (empty_row d sizes.layers)
        (empty_row-RowOk c.offered_mib before sizes.layers)

  pub first_row-finite :
      (end : ℕ) → d.eq (cell_at d (first_row d sizes.layers) end).cost d.infinity ≡ false → end ≡ 0
  first_row-finite end h = go (get_or-set (empty_row d sizes.layers) 0 start end (no_cell d))
    where
      start : Cell d
      start = record { cost = zero_ms d; from = none }

      go :
          (cell_at d (first_row d sizes.layers) end ≡ cell_at d (empty_row d sizes.layers) end)
            ⊎ ((end ≡ 0) × (cell_at d (first_row d sizes.layers) end ≡ start))
          → end ≡ 0
      go (inr (e, _)) = e
      go (inl e) =
          let unreached = e ∙ get_or-replicate (sizes.layers + 1) (no_cell d) end in
          absurd (
            true_not_false
              (sym (ap (λ (c : Cell d). d.eq c.cost d.infinity) unreached ∙ reflexive) ∙ h))
