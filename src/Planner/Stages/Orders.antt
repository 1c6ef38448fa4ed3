-- ===== src/Planner/Stages/Orders.antt =====
-- planner.cpp, the lambda `choose` of plan_stages: it goes through the orders of `count` different
-- candidates that put the head first, until one of them has a split.
use mathlib.Core.List.{append_assoc, append-nil}
use dan.Common.{
  ◌-◌, ℕ, zero, suc, ◌+◌, ◌≤◌, ◌<◌, ◌≡◌, ◌⊎◌, inl, inr, refl, sym, ap, ◌∙◌, Bool, true, false, ◌||◌,
  List, [], ◌∷◌, ◌++◌, Option, some, length, get_or, set, arith, Bool-cases, Option-cases,
}
use dan.Planner.Sizes.{StageAssignment}
use dan.Planner.Stages.Cuts.{Share}
use dan.Planner.Stages.{StagesRequest, not_head, split, choose_loop, choose}

||-false : (a b : Bool) → (a || b) ≡ false → (a ≡ false) × (b ≡ false)
||-false true b h = cc
||-false false b h = (refl, h)

Nat-cases : (a b : ℕ) → a ≤ b → (a ≡ b) ⊎ (a < b)
Nat-cases a b h = omega arith

-- An order of `room` more workers: none is used already, none comes twice, and where no worker has
-- been chosen yet the first is the head.
abbrev pub IsOrder : StagesRequest → ℕ → List Bool → List ℕ → List ℕ → Type 0
IsOrder r zero used order [] = Unit
IsOrder r zero used order (w ∷ ws) = ⊥
IsOrder r (suc room) used order [] = ⊥
IsOrder r (suc room) used order (w ∷ ws) =
    (w < length used)
    × (get_or used w false ≡ false)
    × (not_head r.head order w ≡ false)
    × IsOrder r room (set used w true) (order ++ w ∷ []) ws

get_or-later :
    (taken : Bool) (flags : List Bool) (index w : ℕ)
    → index < w
    → get_or (taken ∷ flags) (w - index) false ≡ get_or flags (w - suc index) false
get_or-later taken flags index w h =
    let q : w - index ≡ suc (w - suc index) = omega arith in
    ap (λ k. get_or (taken ∷ flags) k false) q

get_or-same :
    (taken : Bool) (flags : List Bool) (index : ℕ)
    → get_or (taken ∷ flags) (index - index) false ≡ taken
get_or-same taken flags index =
    let q : index - index ≡ 0 = omega arith in ap (λ k. get_or (taken ∷ flags) k false) q

get_or-first : (flags : List Bool) (w : ℕ) → get_or flags (w - 0) false ≡ get_or flags w false
get_or-first flags w = let q : w - 0 ≡ w = omega arith in ap (λ k. get_or flags k false) q

module _ (r : StagesRequest) (next : List Bool → List ℕ → Option (List StageAssignment))
    (used : List Bool) (order : List ℕ) where
  -- The worker w is free in the flags from `index` on, and may come next in the order.
  abbrev IsFree : ℕ → List Bool → ℕ → Type 0
  IsFree index flags w =
      (index ≤ w)
      × (w < index + length flags)
      × (get_or flags (w - index) false ≡ false)
      × (not_head r.head order w ≡ false)

  IsFree-later :
      (index : ℕ) (taken : Bool) (flags : List Bool) (w : ℕ)
      → IsFree (suc index) flags w
      → IsFree index (taken ∷ flags) w
  IsFree-later index taken flags w (low, high, free, head) =
      (omega arith, omega arith, get_or-later taken flags index w low ∙ free, head)

  choose_loop_sound :
      (index : ℕ) (flags : List Bool) (stages : List StageAssignment)
      → choose_loop r next used order index flags ≡ some stages
      → (w : ℕ) × IsFree index flags w × (next (set used w true) (order ++ w ∷ []) ≡ some stages)
  unfolding choose_loop
  choose_loop_sound index [] stages h = cc
  choose_loop_sound index (taken ∷ flags) stages h = go (choose_loop_sound (suc index) flags stages)
    where
      Found : ℕ → List Bool → Type 0
      Found i fs =
          (w : ℕ) × IsFree i fs w × (next (set used w true) (order ++ w ∷ []) ≡ some stages)

      later : Found (suc index) flags → Found index (taken ∷ flags)
      later (w, free, found) = (w, IsFree-later index taken flags w free, found)

      go :
          (choose_loop r next used order (suc index) flags ≡ some stages → Found (suc index) flags)
          → Found index (taken ∷ flags)
      go ih = elim (Bool-cases (taken || not_head r.head order index)) [
        | inl e ↦ later (ih (ground (arith, e)))
        | inr e ↦ elim (Option-cases (next (set used index true) (order ++ index ∷ []))) [
          | inl f ↦ later (ih (ground (arith, e, f)))
          | inr (plan, f) ↦
              let (free, head) = ||-false taken (not_head r.head order index) e in
              (
                index,
                (omega arith, omega arith, get_or-same taken flags index ∙ free, head),
                ground (arith, e, f),
              )
        ]
      ]

  choose_loop_complete :
      (index : ℕ) (flags : List Bool) (w : ℕ) (stages : List StageAssignment)
      → IsFree index flags w
      → next (set used w true) (order ++ w ∷ []) ≡ some stages
      → (found : List StageAssignment) × (choose_loop r next used order index flags ≡ some found)
  unfolding choose_loop
  choose_loop_complete index [] w stages (low, high, free, head) n = absurd (omega arith)
  choose_loop_complete index (taken ∷ flags) w stages (low, high, free, head) n =
      go (choose_loop_complete (suc index) flags w stages)
    where
      Some : Option (List StageAssignment) → Type 0
      Some o = (found : List StageAssignment) × (o ≡ some found)

      go :
          (IsFree (suc index) flags w
            → next (set used w true) (order ++ w ∷ []) ≡ some stages
            → Some (choose_loop r next used order (suc index) flags))
          → Some (choose_loop r next used order index (taken ∷ flags))
      go ih = elim (Nat-cases index w low) [
        | inl e ↦
            let taken_free : taken ≡ false =
              sym (get_or-same taken flags index)
              ∙ ap (λ k. get_or (taken ∷ flags) (k - index) false) e
              ∙ free in
            let here : next (set used index true) (order ++ index ∷ []) ≡ some stages =
              ap (λ k. next (set used k true) (order ++ k ∷ [])) e ∙ n in
            let head_here : not_head r.head order index ≡ false =
              ap (not_head r.head order) e ∙ head in
            (stages, ground (arith, taken_free, here, head_here))
        | inr later ↦
            let (found, q) =
              ih (later, omega arith, sym (get_or-later taken flags index w later) ∙ free, head)
                n in
            elim (Bool-cases (taken || not_head r.head order index)) [
              | inl e ↦ (found, ground (arith, e, q))
              | inr e ↦ elim (Option-cases (next (set used index true) (order ++ index ∷ []))) [
                | inl f ↦ (found, ground (arith, e, f, q))
                | inr (plan, f) ↦ (plan, ground (arith, e, f))
              ]
            ]
      ]

pub choose_sound :
    (share : Share) (r : StagesRequest) (room : ℕ) (used : List Bool) (order : List ℕ)
    (stages : List StageAssignment)
    → choose share r room used order ≡ some stages
    → (ws : List ℕ) × IsOrder r room used order ws × (split share r (order ++ ws) 0 ≡ some stages)
unfolding choose
choose_sound share r zero used order stages h =
    ([], tt, ap (λ o. split share r o 0) (append-nil order) ∙ h)
choose_sound share r (suc room) used order stages h =
    let (w, (low, high, free, head), n) =
      choose_loop_sound r (choose share r room) used order 0 used stages h in
    let (ws, is_order, q) =
      choose_sound share r room (set used w true) (order ++ w ∷ []) stages n in
    (
      w ∷ ws,
      (omega (arith, high), sym (get_or-first used w) ∙ free, head, is_order),
      ap (λ o. split share r o 0) (sym (append_assoc order (w ∷ []) ws)) ∙ q,
    )

pub choose_complete :
    (share : Share) (r : StagesRequest) (room : ℕ) (used : List Bool) (order ws : List ℕ)
    (stages : List StageAssignment)
    → IsOrder r room used order ws
    → split share r (order ++ ws) 0 ≡ some stages
    → (found : List StageAssignment) × (choose share r room used order ≡ some found)
unfolding choose
choose_complete share r zero used order [] stages i h =
    (stages, sym (ap (λ o. split share r o 0) (append-nil order)) ∙ h)
choose_complete share r zero used order (w ∷ ws) stages i h = absurd i
choose_complete share r (suc room) used order [] stages i h = absurd i
choose_complete share r (suc room) used order (w ∷ ws) stages (high, free, head, i) h =
    let (found, n) =
      choose_complete share r room (set used w true) (order ++ w ∷ []) ws stages i
        (ap (λ o. split share r o 0) (append_assoc order (w ∷ []) ws) ∙ h) in
    choose_loop_complete r (choose share r room) used order 0 used w found
      (omega arith, omega arith, get_or-first used w ∙ free, head) n
