-- ===== src/Planner/Sizes/Bounds.antt =====
-- planner.cpp, the sizes: what a computed size promises, and when it is refused as 0.
use dan.Common.{
  ℕ, ◌+◌, ◌-◌, ◌*◌, ◌/◌, ◌%◌, ◌^◌, ◌≤◌, ◌<◌, ◌≡◌, ◌≢◌, ◌↔◌, refl, true, List, [], ◌∷◌, Option, none,
  some, leb, if◌then◌else◌, arith, ◌⊎◌, inl, inr, Bool-cases, zero, suc, ltb, ltb→lt,
}
use native.Mathlib.Nat.{mul_assoc}
use dan.Model.{ModelIndex, u64_max, stage_model_bytes}
use dan.Model.Owned.{stage_model_bytes_range}
use dan.Planner.Sizes.{
  mib, pad256, allocated_positions, head_width_k, head_width_v, checked_product, kv_bytes,
  reserve_of, StageAssignment, stage_assignment, stage_fits, stage_with_draft_fits,
}

abbrev product : List ℕ → ℕ
product [] = 1
product (f ∷ fs) = f * product fs

le-div : (a b f : ℕ) → 0 < f → a * f ≤ b → a ≤ b / f
le-div a b f p h = grind arith

le-div_mul : (a b f : ℕ) → a ≤ b / f → a * f ≤ b
le-div_mul a b f h = grind arith

div-lt : (a b f : ℕ) → 0 < f → b / f < a → b < a * f
div-lt a b f p h = grind arith

grows : (a p : ℕ) → (p ≡ 0) ⊎ (a ≤ a * p)
grows a zero = inl refl
grows a (suc p) = inr (omega arith)

-- `std::uint64_t` multiplication with the overflow test is multiplication that answers 0 where
-- the result would pass 2^64 - 1.
checked_product_lem :
    (v : ℕ) (fs : List ℕ)
    → v ≤ u64_max
    → checked_product v fs ≡ (if leb (v * product fs) u64_max then v * product fs else 0)
unfolding checked_product
checked_product_lem v [] h = ground arith
checked_product_lem v (zero ∷ fs) h = ground arith
checked_product_lem v (suc g ∷ fs) h = elim (Bool-cases (ltb (u64_max / suc g) v)) [
  | inl over ↦ ground (
    arith,
    past (div-lt v u64_max (suc g) (omega arith) (ltb→lt _ _ over))
        (grows (v * suc g) (product fs)),
  )
  | inr within ↦ ground (
    arith,
    checked_product_lem (v * suc g) fs (le-div_mul v u64_max (suc g) (ground arith)),
    mul_assoc v (suc g) (product fs),
  )
]
  where
    past :
        u64_max < v * suc g
        → (product fs ≡ 0) ⊎ (v * suc g ≤ v * suc g * product fs)
        → 0 ≡ (if leb (v * (suc g * product fs)) u64_max then v * (suc g * product fs) else 0)
    past p (inl z) = rw z (ground arith)
    past p (inr m) = ground (arith, mul_assoc v (suc g) (product fs))

-- The positions that are allocated for each session cover the context that was asked for, in
-- whole blocks of 256, unless the answer is 0.
pub allocated_positions_cover :
    (context sessions : ℕ)
    → allocated_positions context sessions ≢ 0
    → (context ≤ allocated_positions context sessions)
      × (allocated_positions context sessions % 256 ≡ 0)
      × (allocated_positions context sessions < 2 ^ 32)
unfolding allocated_positions
allocated_positions_cover context sessions h =
    grind (arith, le-div context (pad256 (context * sessions)) sessions)

-- K and V in F16 for every kv head, layer, session and allocated position, in plain arithmetic.
abbrev pub kv_exact : ModelIndex → ℕ → ℕ → ℕ → ℕ → ℕ
kv_exact model begin end context sessions =
    allocated_positions context sessions
    * (sessions
        * ((end - begin) * (model.kv_heads * ((head_width_k model + head_width_v model) * 2))))

positions-le : (context sessions : ℕ) → allocated_positions context sessions ≤ u64_max
unfolding allocated_positions
positions-le context sessions = ground arith

-- `kv_bytes` of a model with heads is the exact number of bytes, and 0 where that does not fit in
-- 64 bits: no size is ever wrapped.
pub kv_bytes_lem :
    (model : ModelIndex) (begin end context sessions : ℕ)
    → model.heads ≢ 0
    → kv_bytes model begin end context sessions ≡ (
        if leb (kv_exact model begin end context sessions) u64_max
        then kv_exact model begin end context sessions
        else 0)
unfolding kv_bytes
kv_bytes_lem model begin end context sessions h = ground (
  arith,
  checked_product_lem (allocated_positions context sessions)
      (sessions
        ∷ (end - begin)
        ∷ model.kv_heads
        ∷ (head_width_k model + head_width_v model)
        ∷ 2
        ∷ [])
      (positions-le context sessions),
)

-- Within 16 TiB the reserve is at least 1 GiB and at least 15%, rounded down to a byte.
reserve_bounds :
    (offered_mib : ℕ)
    → (1024 * mib ≤ reserve_of (offered_mib * mib))
      × (offered_mib ≤ 2 ^ 24 → offered_mib * mib * 15 < 100 * reserve_of (offered_mib * mib) + 100)
reserve_bounds offered_mib = (omega arith, λ h. omega arith)

-- A stage fits exactly when its weights and its KV are both of known size and, with the reserve,
-- within the offer; the assignment records that stage, with provider 0.
pub stage_fits_iff :
    (model : ModelIndex) (offered_mib begin end context sessions : ℕ) (a : StageAssignment)
    → offered_mib ≤ 2 ^ 24
    → (stage_fits model offered_mib begin end context sessions ≡ some a) ↔ (
        (a ≡ stage_assignment model begin end context sessions)
        × (a.model_bytes ≢ 0)
        × (a.kv_bytes ≢ 0)
        × (a.model_bytes + a.kv_bytes + reserve_of (offered_mib * mib) ≤ offered_mib * mib))
unfolding stage_fits
stage_fits_iff model offered_mib begin end context sessions a small =
    (λ h. ground arith, λ h. ground arith)

-- What `stage_with_draft_fits` accepts fits together: the first stage and the whole draft model,
-- weights and KV of both at their known sizes, and the reserve, are within the offer.
pub stage_with_draft_sound :
    (model draft : ModelIndex) (offered_mib end context sessions : ℕ)
    → offered_mib ≤ 2 ^ 24
    → stage_with_draft_fits model draft offered_mib end context sessions ≡ true
    → let main = stage_assignment model 0 end context sessions in
      let weights = stage_model_bytes draft 0 draft.layers in
      let kv = kv_bytes draft 0 draft.layers context sessions in
      (main.model_bytes ≢ 0)
      × (main.kv_bytes ≢ 0)
      × (weights ≢ 0)
      × (kv ≢ 0)
      × (main.model_bytes + main.kv_bytes + weights + kv + reserve_of (offered_mib * mib)
          ≤ offered_mib * mib)
unfolding stage_with_draft_fits
stage_with_draft_sound model draft offered_mib end context sessions small h =
    go (stage_fits model offered_mib 0 end context sessions) refl
  where
    go :
        (r : Option StageAssignment)
        → stage_fits model offered_mib 0 end context sessions ≡ r
        → let main = stage_assignment model 0 end context sessions in
          let weights = stage_model_bytes draft 0 draft.layers in
          let kv = kv_bytes draft 0 draft.layers context sessions in
          (main.model_bytes ≢ 0)
          × (main.kv_bytes ≢ 0)
          × (weights ≢ 0)
          × (kv ≢ 0)
          × (main.model_bytes + main.kv_bytes + weights + kv + reserve_of (offered_mib * mib)
              ≤ offered_mib * mib)
    go none e = cc
    go (some main) e =
        ground (arith, (stage_fits_iff model offered_mib 0 end context sessions main small).0 e)

pub stage_fits-some :
    (model : ModelIndex) (offered_mib begin end context sessions : ℕ) (a : StageAssignment)
    → stage_fits model offered_mib begin end context sessions ≡ some a
    → a ≡ stage_assignment model begin end context sessions
unfolding stage_fits
stage_fits-some model offered_mib begin end context sessions a h = ground arith

stage_fits_known :
    (model : ModelIndex) (offered_mib begin end context sessions : ℕ) (a : StageAssignment)
    → stage_fits model offered_mib begin end context sessions ≡ some a
    → stage_model_bytes model begin end ≢ 0
unfolding stage_fits
stage_fits_known model offered_mib begin end context sessions a h = ground arith

-- A stage that fits has layers, all of the model.
pub stage_fits_range :
    (model : ModelIndex) (offered_mib begin end context sessions : ℕ) (a : StageAssignment)
    → stage_fits model offered_mib begin end context sessions ≡ some a
    → (begin < end) × (end ≤ model.layers)
stage_fits_range model offered_mib begin end context sessions a h =
    stage_model_bytes_range model begin end
      (stage_fits_known model offered_mib begin end context sessions a h)
