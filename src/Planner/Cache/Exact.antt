-- ===== src/Planner/Cache/Exact.antt =====
-- planner.cpp, plan_from_cache: what it answers is a plan from cached ranges, and it answers one
-- whenever there is one.
use mathlib.Core.List.{append_assoc, append-nil}
use dan.Common.{
  ℕ, zero, suc, ◌≤◌, ◌<◌, ◌≡◌, ◌≢◌, inl, inr, refl, ap, ◌∙◌, Bool, true, false, List, [], ◌∷◌, ◌++◌,
  Option, none, some, ◌==◌, length, length-append, set, get_elem?, replicate, arith, Bool-cases,
  Option-cases,
}
use dan.Planner.Sizes.{StageAssignment, stage_assignment}
use dan.Planner.Sizes.Bounds.{stage_fits-some}
use dan.Planner.Compatible.{compatible_stage_model}
use dan.Planner.Cache.Options.{
  In, head_elsewhere, collect, sort_options, collect-In, In-collect, sort_options-In,
}
use dan.Planner.Cache.{CacheRequest, fit, try_options, extend, head_invalid, plan_from_cache}

-- The layers, the bytes of their weights and of their KV.
abbrev pub assigned : CacheRequest → ℕ → ℕ → StageAssignment
assigned r begin end = stage_assignment r.model begin end r.context r.sessions

-- The assignment is for the stage that begins here: its worker is free and allowed at this place,
-- holds exactly that range, and has the memory for it.
pub record IsStage (r : CacheRequest) (begin : ℕ) (used : List Bool) (s : StageAssignment)
    : Type 0 where
  pub free : get_elem? used s.provider ≡ some false
  pub allowed : head_elsewhere r.head begin s.provider ≡ false
  pub grows : begin < s.end
  pub within : s.end ≤ r.model.layers
  pub ranges : List (ℕ × ℕ)
  pub candidate : get_elem? r.cached s.provider ≡ some ranges
  pub held : In (begin, s.end) ranges
  pub fits : fit r s.provider begin s.end ≡ some (assigned r begin s.end)
  pub filled : s ≡ record (assigned r begin s.end) { provider = s.provider }

-- The stages cover the layers from `begin` to the last without gap or overlap, each with a worker
-- of its own, at most `room` of them, and with the `count` before them at least the minimum.
abbrev pub IsPlan : CacheRequest → ℕ → ℕ → List Bool → ℕ → List StageAssignment → Type 0
IsPlan r room begin used count [] = (begin ≡ r.model.layers) × (r.minimum_stages ≤ count)
IsPlan r zero begin used count (s ∷ rest) = ⊥
IsPlan r (suc room) begin used count (s ∷ rest) =
    (begin ≢ r.model.layers)
    × IsStage r begin used s
    × IsPlan r room s.end (set used s.provider true) (suc count) rest

module _ (r : CacheRequest)
    (next : ℕ → List Bool → List StageAssignment → Option (List StageAssignment)) (begin : ℕ)
    (used : List Bool) (stages : List StageAssignment) where
  abbrev tried : ℕ → ℕ → StageAssignment → Option (List StageAssignment)
  tried end index a = next end (set used index true) (stages ++ record a { provider = index } ∷ [])

  try_sound :
      (options : List (ℕ × ℕ)) (plan : List StageAssignment)
      → try_options r next begin used stages options ≡ some plan
      → (end : ℕ) × (index : ℕ) × (a : StageAssignment) × In (end, index) options
        × (fit r index begin end ≡ some a)
        × (tried end index a ≡ some plan)
  unfolding try_options
  try_sound [] plan h = cc
  try_sound ((end, index) ∷ options) plan h = elim (Option-cases (fit r index begin end)) [
    | inl e ↦
        let (end', index', a, m, f, t) = try_sound options plan (ground arith) in
        (end', index', a, inr m, f, t)
    | inr (a, e) ↦ elim (Option-cases (tried end index a)) [
      | inl t ↦
          let (end', index', a', m, f, t') = try_sound options plan (ground arith) in
          (end', index', a', inr m, f, t')
      | inr (p, t) ↦ (end, index, a, inl refl, e, ground arith)
    ]
  ]

  try_complete :
      (options : List (ℕ × ℕ)) (end index : ℕ) (a : StageAssignment) (plan : List StageAssignment)
      → In (end, index) options
      → fit r index begin end ≡ some a
      → tried end index a ≡ some plan
      → (p : List StageAssignment) × (try_options r next begin used stages options ≡ some p)
  unfolding try_options
  try_complete [] end index a plan m f t = absurd m
  try_complete ((e, i) ∷ options) end index a plan (inl h) f t = (
    plan,
    rw (← ap (λ (o : ℕ × ℕ). o.0) h, ← ap (λ (o : ℕ × ℕ). o.1) h)
        (rw (f, try_options) (rw (t, try_options))),
  )
  try_complete ((e, i) ∷ options) end index a plan (inr m) f t =
      let (p, q) = try_complete options end index a plan m f t in
      elim (Option-cases (fit r i begin e)) [
        | inl none_fits ↦ (p, ground arith)
        | inr (b, fits) ↦ elim (Option-cases (tried e i b)) [
          | inl failed ↦ (p, ground arith)
          | inr (p', found) ↦ (p', ground arith)
        ]
      ]

-- The stage that the loop pushes for an option.
abbrev pushed : CacheRequest → ℕ → ℕ → ℕ → StageAssignment
pushed r begin end index = record (assigned r begin end) { provider = index }

option-IsStage :
    (r : CacheRequest) (begin end index : ℕ) (used : List Bool) (a : StageAssignment)
    → In (end, index) (sort_options (collect r.head r.model.layers begin 0 used r.cached))
    → fit r index begin end ≡ some a
    → IsStage r begin used (pushed r begin end index) × (a ≡ assigned r begin end)
option-IsStage r begin end index used a m f =
    let (i, o) =
      collect-In r.head r.model.layers begin 0 used r.cached (end, index)
        ((sort_options-In (end, index) (collect r.head r.model.layers begin 0 used r.cached)).0
          m) in
    let same : i ≡ index = omega (arith, o.0) in
    let exact = stage_fits-some r.model _ begin end r.context r.sessions a f in
    (
      record {
        free = rw (← same) (o.1);
        allowed = o.2;
        grows = o.3;
        within = o.4;
        ranges = o.5;
        candidate = rw (← same) (o.6);
        held = o.7;
        fits = f ∙ ap some exact;
        filled = refl;
      },
      exact,
    )

extend_sound :
    (r : CacheRequest) (room begin : ℕ) (used : List Bool) (stages plan : List StageAssignment)
    → extend r room begin used stages ≡ some plan
    → (rest : List StageAssignment) × (plan ≡ stages ++ rest)
      × IsPlan r room begin used (length stages) rest
unfolding extend
extend_sound r zero begin used stages plan h =
    ([], ground (arith, append-nil stages), (ground arith, ground arith))
extend_sound r (suc room) begin used stages plan h = elim (Bool-cases (begin == r.model.layers)) [
  | inl done ↦ ([], ground (arith, append-nil stages), (ground arith, ground arith))
  | inr more ↦
      let (end, index, a, m, f, t) =
        try_sound r (extend r room) begin used stages
          (sort_options (collect r.head r.model.layers begin 0 used r.cached)) plan
          (rw more at h) in
      let (stage, exact) = option-IsStage r begin end index used a m f in
      let s = pushed r begin end index in
      let (rest, e, p) =
        extend_sound r room end (set used index true) (stages ++ s ∷ []) plan (rw exact at t) in
      let count : length (stages ++ s ∷ []) ≡ suc (length stages) =
        omega (arith, length-append stages (s ∷ [])) in
      (s ∷ rest, e ∙ append_assoc stages (s ∷ []) rest, (ground arith, stage, rw count at p))
]

extend_complete :
    (r : CacheRequest) (room begin : ℕ) (used : List Bool) (stages rest : List StageAssignment)
    → IsPlan r room begin used (length stages) rest
    → (plan : List StageAssignment) × (extend r room begin used stages ≡ some plan)
unfolding extend
extend_complete r zero begin used stages [] p = (stages, ground arith)
extend_complete r zero begin used stages (s ∷ rest) p = absurd p
extend_complete r (suc room) begin used stages [] p = (stages, ground arith)
extend_complete r (suc room) begin used stages (s ∷ rest) (more, stage, p) =
    let next = pushed r begin s.end s.provider in
    let count : suc (length stages) ≡ length (stages ++ next ∷ []) =
      omega (arith, length-append stages (next ∷ [])) in
    let (plan, e) =
      extend_complete r room s.end (set used s.provider true) (stages ++ next ∷ []) rest
        (rw count at p) in
    let option =
      (sort_options-In (s.end, s.provider) (collect r.head r.model.layers begin 0 used r.cached)).1
        (In-collect r.head r.model.layers begin 0 s.provider used r.cached (s.end, s.provider)
          (
            omega arith,
            stage.free,
            stage.allowed,
            stage.grows,
            stage.within,
            stage.ranges,
            stage.candidate,
            stage.held,
          )) in
    let (plan', e') =
      try_complete r (extend r room) begin used stages
        (sort_options (collect r.head r.model.layers begin 0 used r.cached)) s.end s.provider
        (assigned r begin s.end) plan option stage.fits e in
    let not_last : (begin == r.model.layers) ≡ false = ground arith in (plan', rw not_last e')

-- The requests that `plan_from_cache` does not turn away at once.
pub record IsRequest (r : CacheRequest) : Type 0 where
  pub compatible : compatible_stage_model r.model ≡ none
  pub same_length : length r.offered_mib ≡ length r.cached
  pub some_minimum : r.minimum_stages ≢ 0
  pub some_limit : r.stage_limit ≢ 0
  pub some_context : r.context ≢ 0
  pub some_sessions : r.sessions ≢ 0
  pub head_exists : head_invalid r.head (length r.offered_mib) ≡ false

abbrev pub all_free : CacheRequest → List Bool
all_free r = replicate (length r.offered_mib) false

-- What `plan_from_cache` answers is a plan: stages that cover the model from layer 0 to the last
-- without gap or overlap, each a range that its worker holds and has the memory for, no worker
-- twice, the head first if one is asked for, and as many stages as the request allows.
pub plan_from_cache_sound :
    (r : CacheRequest) (plan : List StageAssignment)
    → plan_from_cache r ≡ some plan
    → IsRequest r × IsPlan r r.stage_limit 0 (all_free r) 0 plan
unfolding plan_from_cache
plan_from_cache_sound r plan h = elim (Option-cases (compatible_stage_model r.model)) [
  | inr (problem, e) ↦ ground arith
  | inl e ↦
      let found : extend r r.stage_limit 0 (all_free r) [] ≡ some plan = ground arith in
      let (rest, same, p) = extend_sound r r.stage_limit 0 (all_free r) [] plan found in
      (ground arith, rw (← same) at p)
]

-- For a request that is not turned away, `plan_from_cache` answers a plan whenever there is one.
pub plan_from_cache_complete :
    (r : CacheRequest) (plan : List StageAssignment)
    → IsRequest r
    → IsPlan r r.stage_limit 0 (all_free r) 0 plan
    → (found : List StageAssignment) × (plan_from_cache r ≡ some found)
unfolding plan_from_cache
plan_from_cache_complete r plan v p =
    let (found, e) = extend_complete r r.stage_limit 0 (all_free r) [] plan p in
    (found, ground (arith, v.compatible, v.same_length))
