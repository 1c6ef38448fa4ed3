-- ===== src/Planner/Stages/Split.antt =====
-- planner.cpp, the lambda `split` of plan_stages: it finds a split over an order of workers exactly
-- when there is one.
use mathlib.Core.Path.{subst}
use dan.Common.{
  ℕ, ◌+◌, ◌-◌, ◌≤◌, ◌<◌, ◌≡◌, inl, inr, refl, sym, ap, ◌∙◌, List, [], ◌∷◌, Option, some, length,
  get_or, map, arith, Option-cases, ◌-◌,
}
use dan.Planner.Sizes.{StageAssignment, stage_assignment, stage_fits}
use dan.Planner.Sizes.Bounds.{stage_fits-some, stage_fits_range}
use dan.Planner.Cache.Options.{In}
use dan.Planner.Stages.Cuts.{Share, wanted_end, ends_near, In-ends_near}
use dan.Planner.Stages.{StagesRequest, fits, try_ends, split}

abbrev pub assigned : StagesRequest → ℕ → ℕ → ℕ → StageAssignment
assigned r provider begin end = record (stage_assignment r.model begin end r.context r.sessions) {
  provider = provider;
}

-- The worker runs the stage that begins here, which is not empty, ends within the model, and fits
-- the worker's memory.
pub record IsStage (r : StagesRequest) (provider begin : ℕ) (s : StageAssignment) : Type 0 where
  pub grows : begin < s.end
  pub within : s.end ≤ r.model.layers
  pub filled : s ≡ assigned r provider begin s.end
  pub fitting :
      stage_fits r.model (get_or r.offered_mib provider 0) begin s.end r.context r.sessions
      ≡ some (stage_assignment r.model begin s.end r.context r.sessions)

-- The stages cover the layers from `begin` to the last without gap or overlap, run by the workers
-- of `order` in that order.
abbrev pub IsSplit : StagesRequest → List ℕ → ℕ → List StageAssignment → Type 0
IsSplit r [] begin [] = begin ≡ r.model.layers
IsSplit r [] begin (s ∷ stages) = ⊥
IsSplit r (provider ∷ order) begin [] = ⊥
IsSplit r (provider ∷ order) begin (s ∷ stages) =
    IsStage r provider begin s × IsSplit r order s.end stages

fits_some :
    (r : StagesRequest) (provider begin end : ℕ) (a : StageAssignment)
    → fits r provider begin end ≡ some a
    → (a ≡ assigned r provider begin end) × IsStage r provider begin (assigned r provider begin end)
fits_some r provider begin end a h = elim (Option-cases fit) [
  | inl e ↦ absurd (ground arith)
  | inr (b, e) ↦
      let exact = stage_fits-some r.model offer begin end r.context r.sessions b e in
      let range = stage_fits_range r.model offer begin end r.context r.sessions b e in
      (
        ground (arith, e, exact),
        record { grows = range.0; within = range.1; filled = refl; fitting = e ∙ ap some exact },
      )
]
  where
    offer : ℕ
    offer = get_or r.offered_mib provider 0

    fit : Option StageAssignment
    fit = stage_fits r.model offer begin end r.context r.sessions

fits-IsStage :
    (r : StagesRequest) (provider begin : ℕ) (s : StageAssignment)
    → IsStage r provider begin s
    → fits r provider begin s.end ≡ some s
fits-IsStage r provider begin s i = ground (arith, i.fitting, i.filled)

module _ (r : StagesRequest) (next : ℕ → Option (List StageAssignment)) (provider begin : ℕ) where
  try_ends_sound :
      (ends : List ℕ) (stages : List StageAssignment)
      → try_ends r next provider begin ends ≡ some stages
      → (s : StageAssignment) × (rest : List StageAssignment) × (stages ≡ s ∷ rest)
        × IsStage r provider begin s
        × (next s.end ≡ some rest)
  unfolding try_ends
  try_ends_sound [] stages h = cc
  try_ends_sound (end ∷ ends) stages h = elim (Option-cases (fits r provider begin end)) [
    | inl e ↦ try_ends_sound ends stages (ground arith)
    | inr (a, e) ↦ elim (Option-cases (next end)) [
      | inl f ↦ try_ends_sound ends stages (ground arith)
      | inr (rest, f) ↦
          let (exact, stage) = fits_some r provider begin end a e in
          (assigned r provider begin end, rest, ground (arith, e, f, exact), stage, f)
    ]
  ]

  try_ends_complete :
      (ends : List ℕ) (s : StageAssignment) (rest : List StageAssignment)
      → In s.end ends
      → IsStage r provider begin s
      → next s.end ≡ some rest
      → (stages : List StageAssignment) × (try_ends r next provider begin ends ≡ some stages)
  unfolding try_ends
  try_ends_complete [] s rest m i n = absurd m
  try_ends_complete (end ∷ ends) s rest (inl h) i n =
      (s ∷ rest, ground (arith, rw h at (fits-IsStage r provider begin s i), n, h))
  try_ends_complete (end ∷ ends) s rest (inr m) i n =
      let (stages, q) = try_ends_complete ends s rest m i n in
      elim (Option-cases (fits r provider begin end)) [
        | inl e ↦ (stages, ground arith)
        | inr (a, e) ↦ elim (Option-cases (next end)) [
          | inl f ↦ (stages, ground arith)
          | inr (others, f) ↦ (a ∷ others, ground arith)
        ]
      ]

pub split_sound :
    (share : Share) (r : StagesRequest) (order : List ℕ) (begin : ℕ) (stages : List StageAssignment)
    → split share r order begin ≡ some stages
    → IsSplit r order begin stages
unfolding split
split_sound share r [] begin stages h = cc
split_sound share r (provider ∷ []) begin stages h =
    elim (Option-cases (fits r provider begin r.model.layers)) [
      | inl e ↦ absurd (ground arith)
      | inr (a, e) ↦
          let (exact, stage) = fits_some r provider begin r.model.layers a e in
          let q : stages ≡ assigned r provider begin r.model.layers ∷ [] =
            ground (arith, e, exact) in
          subst (IsSplit r (provider ∷ []) begin) (sym q) (stage, refl)
    ]
split_sound share r (provider ∷ second ∷ rest) begin stages h =
    let last = r.model.layers - length (second ∷ rest) in
    let offers = map (λ p. get_or r.offered_mib p 0) (provider ∷ second ∷ rest) in
    let wanted = wanted_end share r.model.layers begin last offers in
    let (s, others, q, stage, n) =
      try_ends_sound r (split share r (second ∷ rest)) provider begin (ends_near wanted begin last)
        stages h in
    subst (IsSplit r (provider ∷ second ∷ rest) begin) (sym q)
      (stage, split_sound share r (second ∷ rest) s.end others n)

-- Each stage has a layer of its own.
pub split_room :
    (r : StagesRequest) (order : List ℕ) (begin : ℕ) (stages : List StageAssignment)
    → IsSplit r order begin stages
    → begin + length order ≤ r.model.layers
split_room r [] begin [] h = omega arith
split_room r [] begin (s ∷ stages) h = absurd h
split_room r (provider ∷ order) begin [] h = absurd h
split_room r (provider ∷ order) begin (s ∷ stages) (i, rest) =
    let behind = split_room r order s.end stages rest in let grows = i.grows in omega arith

pub split_complete :
    (share : Share) (r : StagesRequest) (provider : ℕ) (order : List ℕ) (begin : ℕ)
    (stages : List StageAssignment)
    → IsSplit r (provider ∷ order) begin stages
    → (found : List StageAssignment) × (split share r (provider ∷ order) begin ≡ some found)
unfolding split
split_complete share r provider [] begin [] h = absurd h
split_complete share r provider (second ∷ rest) begin [] h = absurd h
split_complete share r provider [] begin (s ∷ []) (i, e) =
    (s ∷ [], ground (arith, rw e at (fits-IsStage r provider begin s i), e))
split_complete share r provider [] begin (s ∷ t ∷ stages) (i, e) = absurd e
split_complete share r provider (second ∷ rest) begin (s ∷ stages) (i, behind) =
    let last = r.model.layers - length (second ∷ rest) in
    let offers = map (λ p. get_or r.offered_mib p 0) (provider ∷ second ∷ rest) in
    let wanted = wanted_end share r.model.layers begin last offers in
    let (others, n) = split_complete share r second rest s.end stages behind in
    let room = split_room r (second ∷ rest) s.end stages behind in
    try_ends_complete r (split share r (second ∷ rest)) provider begin (ends_near wanted begin last)
      s others (In-ends_near wanted begin last s.end i.grows (omega arith)) i n
