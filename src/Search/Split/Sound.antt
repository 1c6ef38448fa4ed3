-- ===== src/Search/Split/Sound.antt =====
-- search.cpp, best_split: the plan that the dynamic program gives, whatever the arithmetic on `double`.
use mathlib.Core.Path.{subst}
use dan.Common.{
  ℕ, ◌+◌, ◌<◌, ◌≡◌, inl, inr, refl, sym, ◌∙◌, true, false, List, [], ◌∷◌, Option, none, some,
  get_elem?, map, arith,
}
use dan.Common.Double.{Doubles}
use dan.Common.Text.Entries.Keeps.{same_some}
use dan.Planner.Sizes.{StageAssignment}
use dan.Search.{SearchCandidate, LayerSizes, model_size, kv_size}
use dan.Search.Sizes.{fits}
use dan.Search.Times.{zero_ms}
use dan.Search.Split.{Cell, cell_at, stage_row, row_behind, stage_loop, trace, plan_ms, best_split}
use dan.Search.Split.Rows.{true_not_false, RowOk, CellOk, first_row-finite, stage_row-RowOk}

module _ (d : Doubles) (sizes : LayerSizes) (reflexive : d.eq d.infinity d.infinity ≡ true)
    (candidates : List (SearchCandidate d)) where
  -- The rows that are done, each behind the one before it.
  Linked : List (ℕ × List (Cell d)) → Type 0
  Linked [] = Unit
  Linked ((provider, row) ∷ done) =
      ((c : SearchCandidate d) × (get_elem? candidates provider ≡ some c)
        × RowOk d sizes reflexive c.offered_mib (row_behind d sizes done) row)
      × Linked done

  -- The stages cover the layers from `at` to the last one without a gap or an overlap, and each has a
  -- layer and fits its candidate's memory.
  abbrev pub Covers : ℕ → List StageAssignment → Type 0
  Covers at [] = at ≡ sizes.layers
  Covers at (a ∷ plan) =
      (a.begin ≡ at)
      × (a.begin < a.end)
      × ((c : SearchCandidate d) × (get_elem? candidates a.provider ≡ some c)
          × (fits sizes c.offered_mib a.begin a.end ≡ true))
      × Covers a.end plan

  providers : List StageAssignment → List ℕ
  providers plan = map (λ a. a.provider) plan

  -- The candidates of the rows, the first stage's first, in front of `rest`.
  onto : List (ℕ × List (Cell d)) → List ℕ → List ℕ
  onto [] rest = rest
  onto ((provider, row) ∷ done) rest = onto done (provider ∷ rest)

  abbrev stage_of : ℕ → ℕ → ℕ → StageAssignment
  stage_of provider begin end = record {
    provider = provider;
    begin = begin;
    end = end;
    model_bytes = model_size sizes begin end;
    kv_bytes = kv_size sizes begin end;
  }

  trace-Covers :
      (done : List (ℕ × List (Cell d))) (end : ℕ) (plan : List StageAssignment)
      → Linked done
      → d.eq (cell_at d (row_behind d sizes done) end).cost d.infinity ≡ false
      → Covers end plan
      → (result : List StageAssignment) × (trace d sizes done end plan ≡ some result)
        × Covers 0 result
        × (providers result ≡ onto done (providers plan))
  unfolding trace Linked onto providers
  trace-Covers [] end plan l h v =
      let e = first_row-finite d sizes reflexive end h in
      (plan, refl, subst (λ n. Covers n plan) e v, refl)
  trace-Covers ((provider, row) ∷ done) end plan ((c, found, ok), l) h v =
      go (λ begin. trace-Covers done begin (stage_of provider begin end ∷ plan) l) (ok end)
    where
      go :
          ((begin : ℕ)
            → d.eq (cell_at d (row_behind d sizes done) begin).cost d.infinity ≡ false
            → Covers begin (stage_of provider begin end ∷ plan)
            → (result : List StageAssignment) × (trace d sizes done begin
                  (stage_of provider begin end ∷ plan)
                ≡ some result)
              × Covers 0 result
              × (providers result ≡ onto done (provider ∷ providers plan)))
          → CellOk d sizes reflexive c.offered_mib (row_behind d sizes done) end (cell_at d row end)
          → (result : List StageAssignment) × (trace d sizes ((provider, row) ∷ done) end plan
              ≡ some result)
            × Covers 0 result
            × (providers result ≡ onto done (provider ∷ providers plan))
      go next (inl e) = absurd (true_not_false (sym e ∙ h))
      go next (inr (begin, k)) =
          let (result, t, covered, named) =
            next begin k.finite (refl, k.grows, (c, found, k.fit), v) in
          (result, rw (k.same, trace) t, covered, named)

  stage_loop-Linked :
      (order : List ℕ) (done rows : List (ℕ × List (Cell d))) (stage : ℕ)
      → stage_loop d sizes candidates done stage order ≡ some rows
      → Linked done
      → Linked rows × (onto rows [] ≡ onto done order)
  unfolding stage_loop Linked onto
  stage_loop-Linked [] done rows stage h l =
      subst (λ r. Linked r × (onto r [] ≡ onto done [])) (same_some h) (l, refl)
  stage_loop-Linked (provider ∷ later) done rows stage h l =
      go (get_elem? candidates provider) refl (λ c e k.
        stage_loop-Linked later
          ((provider, stage_row d sizes c later stage (row_behind d sizes done)) ∷ done) rows
          (stage + 1) k
          ((c, e, stage_row-RowOk d sizes reflexive c later stage (row_behind d sizes done)), l))
    where
      go :
          (found : Option (SearchCandidate d))
          → get_elem? candidates provider ≡ found
          → ((c : SearchCandidate d)
              → get_elem? candidates provider ≡ some c
              → stage_loop d sizes candidates
                  ((provider, stage_row d sizes c later stage (row_behind d sizes done)) ∷ done)
                  (stage + 1)
                  later
                ≡ some rows
              → Linked rows × (onto rows [] ≡ onto done (provider ∷ later)))
          → Linked rows × (onto rows [] ≡ onto done (provider ∷ later))
      go none e next = absurd (ground (arith, rw (e, stage_loop) at h))
      go (some c) e next = next c e (rw (e, stage_loop) at h)

  -- When the dynamic program reaches the last layer, that is, when its rows are `rows` and the last
  -- row's cost there is not infinite, the way back never meets a cell without a stage: best_split
  -- answers a plan. Its stages are on the candidates of `order`, in that order, cover all layers
  -- without a gap or an overlap, have a layer or more each, and fit the memory of their candidates.
  -- The arithmetic of `double` may be anything in which infinity equals itself.
  pub best_split-Covers :
      (order : List ℕ) (rows : List (ℕ × List (Cell d)))
      → stage_loop d sizes candidates [] 0 order ≡ some rows
      → d.eq (cell_at d (row_behind d sizes rows) sizes.layers).cost d.infinity ≡ false
      → (plan : List StageAssignment) × (best_split d sizes candidates order
          ≡ some (plan_ms d sizes candidates (zero_ms d) plan, plan))
        × Covers 0 plan
        × (map (λ a. a.provider) plan ≡ order)
  unfolding best_split Linked onto providers
  best_split-Covers order rows h finite =
      let (linked, listed) = stage_loop-Linked order [] rows 0 h tt in
      let (plan, t, covered, named) = trace-Covers rows sizes.layers [] linked finite refl in
      (plan, rw (h, finite, t, best_split) refl, covered, named ∙ listed)
