-- ===== src/Planner/Stages/Exact.antt =====
-- planner.cpp, plan_stages: the plan it returns, and when there is one.
use mathlib.Core.Path.{subst}
use dan.Common.{
  ℕ, zero, suc, ◌+◌, ◌-◌, ◌≤◌, ◌<◌, ◌≡◌, ◌⊎◌, inl, inr, refl, sym, ap, ◌∙◌, false, ◌&&◌, List, [],
  ◌∷◌, Option, none, some, leb, length, replicate, arith, Bool-cases, Option-cases,
}
use dan.Planner.Sizes.{StageAssignment}
use dan.Planner.Compatible.{compatible_stage_model}
use dan.Planner.Stages.Cuts.{Share}
use dan.Planner.Stages.{
  StagesRequest, choose, count_is_hopeless, count_loop, is_invalid, plan_stages,
}
use dan.Planner.Stages.Split.{IsSplit, split_sound, split_complete, split_room}
use dan.Planner.Stages.Orders.{choose_sound, choose_complete}
use dan.Planner.Stages.Distinct.{IsChoice, IsOrder-IsChoice, IsChoice-IsOrder}

-- `count` stages that cover all layers, run by `count` different candidates with the head first,
-- each stage within its worker's memory.
pub record IsDeployment (r : StagesRequest) (count : ℕ) (stages : List StageAssignment)
    : Type 0 where
  pub workers : List ℕ
  pub choice : IsChoice r (length r.offered_mib) count workers
  pub cut : IsSplit r workers 0 stages

IsSplit-length :
    (r : StagesRequest) (order : List ℕ) (begin : ℕ) (stages : List StageAssignment)
    → IsSplit r order begin stages
    → length stages ≡ length order
IsSplit-length r [] begin [] h = refl
IsSplit-length r [] begin (s ∷ stages) h = absurd h
IsSplit-length r (w ∷ order) begin [] h = absurd h
IsSplit-length r (w ∷ order) begin (s ∷ stages) (i, h) =
    ap suc (IsSplit-length r order s.end stages h)

choose-IsDeployment :
    (share : Share) (r : StagesRequest) (count : ℕ) (stages : List StageAssignment)
    → choose share r count (replicate (length r.offered_mib) false) [] ≡ some stages
    → IsDeployment r count stages
choose-IsDeployment share r count stages h =
    let (ws, is_order, q) =
      choose_sound share r count (replicate (length r.offered_mib) false) [] stages h in
    record {
      workers = ws;
      choice = IsOrder-IsChoice r (length r.offered_mib) count ws is_order;
      cut = split_sound share r ws 0 stages q;
    }

IsDeployment-choose :
    (share : Share) (r : StagesRequest) (count : ℕ) (stages : List StageAssignment)
    → 0 < count
    → IsDeployment r count stages
    → (found : List StageAssignment) × (choose share r count
          (replicate (length r.offered_mib) false)
          []
        ≡ some found)
IsDeployment-choose share r count stages h d = go d.workers d.choice d.cut
  where
    n : ℕ
    n = length r.offered_mib

    go :
        (ws : List ℕ)
        → IsChoice r n count ws
        → IsSplit r ws 0 stages
        → (found : List StageAssignment) × (choose share r count (replicate n false) []
            ≡ some found)
    go [] c s = absurd (omega (arith, c.counted))
    go (w ∷ ws) c s =
        let (found, q) = split_complete share r w ws 0 stages s in
        choose_complete share r count (replicate n false) [] (w ∷ ws) found
          (IsChoice-IsOrder r n count (w ∷ ws) c) q

IsDeployment-room :
    (r : StagesRequest) (count : ℕ) (stages : List StageAssignment)
    → IsDeployment r count stages
    → (count ≤ r.model.layers) × (length stages ≡ count)
IsDeployment-room r count stages d =
    let room = split_room r d.workers 0 stages d.cut in
    let counted = d.choice.counted in
    (omega arith, IsSplit-length r d.workers 0 stages d.cut ∙ counted)

-- The plan has a number of stages from `count` on that is at most the number of candidates.
abbrev Found : StagesRequest → ℕ → List StageAssignment → Type 0
Found r count stages = (n : ℕ) × (count ≤ n) × (n ≤ length r.offered_mib) × IsDeployment r n stages

Found-earlier :
    (r : StagesRequest) (count : ℕ) (stages : List StageAssignment)
    → Found r (count + 1) stages
    → Found r count stages
Found-earlier r count stages (n, low, high, d) = (n, omega arith, high, d)

same_or_later : (a b : ℕ) → a ≤ b → (a ≡ b) ⊎ (a < b)
same_or_later a b h = omega arith

count_loop_sound :
    (share : Share) (r : StagesRequest) (rounds count : ℕ) (stages : List StageAssignment)
    → count_loop share r rounds count ≡ some stages
    → Found r count stages
unfolding count_loop
count_loop_sound share r zero count stages h = cc
count_loop_sound share r (suc rounds) count stages h =
    go (count_loop_sound share r rounds (count + 1) stages)
  where
    go :
        (count_loop share r rounds (count + 1) ≡ some stages → Found r (count + 1) stages)
        → Found r count stages
    go ih = elim (Bool-cases (leb count (length r.offered_mib) && leb count r.model.layers)) [
      | inr e ↦ absurd (ground (arith, e))
      | inl e ↦ elim (Bool-cases (count_is_hopeless r count)) [
        | inl f ↦ Found-earlier r count stages (ih (ground (arith, e, f)))
        | inr f ↦
            elim (Option-cases (choose share r count (replicate (length r.offered_mib) false) [])) [
              | inl g ↦ Found-earlier r count stages (ih (ground (arith, e, f, g)))
              | inr (plan, g) ↦
                  let q : plan ≡ stages = ground (arith, e, f, g) in
                  (
                    count,
                    omega arith,
                    ground (arith, e),
                    choose-IsDeployment share r count stages (g ∙ ap some q),
                  )
            ]
      ]
    ]

-- A count that has a deployment and is not passed over ends the loop, there or before.
count_loop_complete :
    (share : Share) (r : StagesRequest) (rounds count k : ℕ) (stages : List StageAssignment)
    → 0 < count
    → count ≤ k
    → k < count + rounds
    → k ≤ length r.offered_mib
    → count_is_hopeless r k ≡ false
    → IsDeployment r k stages
    → (found : List StageAssignment) × (count_loop share r rounds count ≡ some found)
      × (length found ≤ k)
unfolding count_loop
count_loop_complete share r zero count k stages positive low high few h d = absurd (omega arith)
count_loop_complete share r (suc rounds) count k stages positive low high few h d =
    let (room, counted) = IsDeployment-room r k stages d in
    go room (λ l.
      count_loop_complete share r rounds (count + 1) k stages (omega arith) l (omega arith) few h d)
  where
    AtMost : Option (List StageAssignment) → Type 0
    AtMost o = (found : List StageAssignment) × (o ≡ some found) × (length found ≤ k)

    go :
        k ≤ r.model.layers
        → (count + 1 ≤ k → AtMost (count_loop share r rounds (count + 1)))
        → AtMost (count_loop share r (suc rounds) count)
    go room ih =
        elim (Option-cases (choose share r count (replicate (length r.offered_mib) false) [])) [
          | inr (plan, g) ↦ elim (Bool-cases (count_is_hopeless r count)) [
            | inr f ↦
                let (n, m) =
                  IsDeployment-room r count plan (choose-IsDeployment share r count plan g) in
                (plan, ground (arith, f, g), omega arith)
            | inl f ↦ elim (same_or_later count k low) [
              | inl e ↦ absurd (ground (arith, f, h, ap (count_is_hopeless r) e))
              | inr later ↦
                  let (found, q, most) = ih (omega arith) in (found, ground (arith, f, q), most)
            ]
          ]
          | inl g ↦ elim (same_or_later count k low) [
            | inl e ↦
                let (found, q) = IsDeployment-choose share r k stages (omega arith) d in
                absurd (
                  ground (
                    arith,
                    ap (λ c. choose share r c (replicate (length r.offered_mib) false) []) e,
                    g,
                    q,
                  ))
            | inr later ↦
                let (found, q, most) = ih (omega arith) in
                elim (Bool-cases (count_is_hopeless r count)) [
                  | inl f ↦ (found, ground (arith, f, q), most)
                  | inr f ↦ (found, ground (arith, f, g, q), most)
                ]
          ]
        ]

invalid_facts :
    (r : StagesRequest)
    → is_invalid r ≡ false
    → (0 < r.minimum_stages) × (r.minimum_stages ≤ length r.offered_mib)
invalid_facts r h = ground (arith, h)

-- A plan comes only from a model that passes the compatibility check and a request that is in
-- order. It covers all layers without gap or overlap by stages that each fit the memory of the
-- worker that runs it; the workers are different candidates, the head first where one is asked for;
-- there are at least as many stages as asked for and at most as many as candidates.
pub plan_stages_sound :
    (share : Share) (r : StagesRequest) (stages : List StageAssignment)
    → plan_stages share r ≡ some stages
    → (compatible_stage_model r.model ≡ none)
      × (is_invalid r ≡ false)
      × (r.minimum_stages ≤ length stages)
      × (length stages ≤ length r.offered_mib)
      × IsDeployment r (length stages) stages
unfolding plan_stages
plan_stages_sound share r stages h = elim (Option-cases (compatible_stage_model r.model)) [
  | inr (problem, e) ↦ absurd (ground (arith, e))
  | inl e ↦ elim (Bool-cases (is_invalid r)) [
    | inl f ↦ absurd (ground (arith, e, f))
    | inr f ↦
        let (n, low, high, d) =
          count_loop_sound share r (length r.offered_mib + 1 - r.minimum_stages) r.minimum_stages
            stages (ground (arith, e, f)) in
        let counted = (IsDeployment-room r n stages d).1 in
        (e, f, omega arith, omega arith, subst (λ k. IsDeployment r k stages) (sym counted) d)
  ]
]

-- Whatever the share, a plan is found where a deployment over an allowed number of stages exists
-- that the memory sum does not rule out, and the plan found has at most that many stages.
pub plan_stages_complete :
    (share : Share) (r : StagesRequest) (count : ℕ) (stages : List StageAssignment)
    → compatible_stage_model r.model ≡ none
    → is_invalid r ≡ false
    → r.minimum_stages ≤ count
    → count ≤ length r.offered_mib
    → count_is_hopeless r count ≡ false
    → IsDeployment r count stages
    → (found : List StageAssignment) × (plan_stages share r ≡ some found) × (length found ≤ count)
unfolding plan_stages
plan_stages_complete share r count stages compatible valid low high hope d =
    let (positive, few) = invalid_facts r valid in
    let (found, q, most) =
      count_loop_complete share r (length r.offered_mib + 1 - r.minimum_stages) r.minimum_stages
        count stages positive low (omega arith) high hope d in
    (found, ground (arith, compatible, valid, q), most)
