-- ===== src/Search/Sizes/Folding.antt =====
-- search.cpp, sizes_of and fits against the planner's stage_fits.
use dan.Common.{
  ℕ, ◌≡◌, ◌≢◌, refl, Bool, true, false, List, Option, none, some, arith, Bool-cases, inl, inr,
}
use mathlib.Core.Path.{subst}
use dan.Common.Text.Entries.Keeps.{same_some}
use dan.Model.{ModelIndex, stage_model_bytes}
use dan.Planner.Sizes.{kv_bytes, stage_fits}
use dan.Search.{LayerSizes, model_size, kv_size}
use dan.Search.Sizes.{
  prefix_loop, folding_fails, checked_sizes, folded_sizes, overlap_fails, from_sums, sizes_of, fits,
}

abbrev pub is_some : {A : Type 0} → Option A → Bool
is_some none = false
is_some (some x) = true

-- The memory rule in numbers: what both functions test, given the bytes.
fits_numbers :
    (s : LayerSizes) (model : ModelIndex) (offered_mib begin end context sessions : ℕ)
    → model_size s begin end ≡ stage_model_bytes model begin end
    → kv_size s begin end ≡ kv_bytes model begin end context sessions
    → stage_model_bytes model begin end ≢ 0
    → kv_bytes model begin end context sessions ≢ 0
    → fits s offered_mib begin end
      ≡ is_some (stage_fits model offered_mib begin end context sessions)
unfolding fits stage_fits
fits_numbers s model offered_mib begin end context sessions w k nw nk = ground (arith, w, k)

checked-folding :
    (model : ModelIndex) (s r : LayerSizes) (context sessions : ℕ)
    → checked_sizes model s context sessions ≡ some r
    → (s ≡ r) × (folding_fails model s context sessions ≡ false)
checked-folding model s r context sessions h =
    elim (Bool-cases (folding_fails model s context sessions)) [
      | inl e ↦ absurd (ground (arith, rw e at h))
      | inr e ↦ (same_some (rw e at h), e)
    ]

folding-exact :
    (model : ModelIndex) (s : LayerSizes) (context sessions : ℕ)
    → folding_fails model s context sessions ≡ false
    → (model_size s 0 s.layers ≡ stage_model_bytes model 0 s.layers)
      × (kv_size s 0 s.layers ≡ kv_bytes model 0 s.layers context sessions)
unfolding folding_fails
folding-exact model s context sessions h = ground (arith, h)

folded_sizes-layers :
    (model : ModelIndex) (context sessions : ℕ) (sums : List ℕ)
    → (folded_sizes model context sessions sums).layers ≡ model.layers
unfolding folded_sizes
folded_sizes-layers model context sessions sums = refl

from_sums-checked :
    (model : ModelIndex) (s : LayerSizes) (context sessions : ℕ) (sums : List ℕ)
    → from_sums model context sessions sums ≡ some s
    → (s.layers ≡ model.layers) × (folding_fails model s context sessions ≡ false)
from_sums-checked model s context sessions sums h = elim (Bool-cases (overlap_fails model sums)) [
  | inl e ↦ absurd (ground (arith, rw e at h))
  | inr e ↦
      let (same, checked) =
        checked-folding model (folded_sizes model context sessions sums) s context sessions
          (rw e at h) in
      subst
        (λ (r : LayerSizes).
          (r.layers ≡ model.layers) × (folding_fails model r context sessions ≡ false))
        same (folded_sizes-layers model context sessions sums, checked)
]

sizes_of-checked :
    (model : ModelIndex) (s : LayerSizes) (context sessions : ℕ)
    → sizes_of model context sessions ≡ some s
    → (s.layers ≡ model.layers) × (folding_fails model s context sessions ≡ false)
unfolding sizes_of
sizes_of-checked model s context sessions h = go (prefix_loop model model.layers 0 0) refl
  where
    go :
        (sums : Option (List ℕ))
        → prefix_loop model model.layers 0 0 ≡ sums
        → (s.layers ≡ model.layers) × (folding_fails model s context sessions ≡ false)
    go none e = absurd (ground (arith, rw (e, sizes_of) at h))
    go (some sums) e = from_sums-checked model s context sessions sums (rw (e, sizes_of) at h)

-- When `sizes_of` answers sizes, the search's `fits` and the planner's `stage_fits` agree on a single
-- stage with all layers, for every offer, if the model's bytes and its KV for the request are known.
pub sizes_of-stage_fits :
    (model : ModelIndex) (s : LayerSizes) (offered_mib context sessions : ℕ)
    → sizes_of model context sessions ≡ some s
    → stage_model_bytes model 0 model.layers ≢ 0
    → kv_bytes model 0 model.layers context sessions ≢ 0
    → fits s offered_mib 0 model.layers
      ≡ is_some (stage_fits model offered_mib 0 model.layers context sessions)
sizes_of-stage_fits model s offered_mib context sessions h w k =
    let (layers, checked) = sizes_of-checked model s context sessions h in
    let (bytes, kv) = folding-exact model s context sessions checked in
    fits_numbers s model offered_mib 0 model.layers context sessions
      (subst (λ n. model_size s 0 n ≡ stage_model_bytes model 0 n) layers bytes)
      (subst (λ n. kv_size s 0 n ≡ kv_bytes model 0 n context sessions) layers kv) w k
