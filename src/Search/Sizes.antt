-- ===== src/Search/Sizes.antt =====
-- search.cpp, lines 48 to 88: sizes_of and fits.
pub mod Folding
use dan.Common.{
  ℕ, zero, suc, ◌+◌, ◌-◌, ◌*◌, ◌/◌, ◌%◌, ◌^◌, max, Bool, true, false, not, ◌&&◌, ◌||◌, List, [],
  ◌∷◌, ◌++◌, Option, none, some, bytes_eq, ltb, leb, ◌==◌, if◌then◌else◌, get_or,
}
use dan.Common.Text.{codes}
use dan.Model.{ModelTensor, ModelIndex, u64_max, stage_model_bytes}
use dan.Planner.Sizes.{kv_bytes, mib}
use dan.Search.{add64, sub64, LayerSizes, model_size, kv_size}

-- The last tensor of that name counts.
unfoldable pub embedding_bytes : ℕ → List ModelTensor → ℕ
embedding_bytes found [] = found
embedding_bytes found (t ∷ ts) =
    embedding_bytes (if bytes_eq t.name (codes "token_embd.weight") then t.bytes else found) ts

-- The entries of `prefix` behind the one of `layer`, whose value is `sum`.
unfoldable pub prefix_loop : ModelIndex → ℕ → ℕ → ℕ → Option (List ℕ)
unfolding stage_model_bytes
prefix_loop model zero layer sum = some []
prefix_loop model (suc left) layer sum =
    let bytes = stage_model_bytes model layer (layer + 1) in
    let next = sub64 (add64 sum bytes) model.header_bytes in
    let rest = prefix_loop model left (layer + 1) next in
    if ltb bytes model.header_bytes || bytes == 0
    then none
    else elim rest [ none ↦ none | some sums ↦ some (next ∷ sums) ]

-- The checks of the folding: the whole model, two parts of it, and the KV of all layers.
unfoldable pub folding_fails : ModelIndex → LayerSizes → ℕ → ℕ → Bool
unfolding model_size kv_size stage_model_bytes kv_bytes
folding_fails model s context sessions =
    let middle = s.layers / 2 in
    s.kv_per_layer == 0
    || not (model_size s 0 s.layers == stage_model_bytes model 0 s.layers)
    || (ltb 0 middle
        && (not (model_size s 0 middle == stage_model_bytes model 0 middle)
            || not (model_size s middle s.layers == stage_model_bytes model middle s.layers)))
    || not (kv_bytes model 0 s.layers context sessions == kv_size s 0 s.layers)

abbrev pub checked_sizes : ModelIndex → LayerSizes → ℕ → ℕ → Option LayerSizes
checked_sizes model s context sessions =
    if folding_fails model s context sessions then none else some s

-- The header and all layers, folded.
abbrev pub folded_whole : ModelIndex → List ℕ → ℕ
folded_whole model sums = add64 model.header_bytes (get_or (0 ∷ sums) model.layers 0)

unfoldable pub folded_sizes : ModelIndex → ℕ → ℕ → List ℕ → LayerSizes
unfolding embedding_bytes stage_model_bytes kv_bytes
folded_sizes model context sessions sums = record {
  header = model.header_bytes;
  embedding = embedding_bytes 0 model.tensors;
  prefix = 0 ∷ sums;
  whole_overlap =
      if ltb 1 model.layers
      then sub64 (folded_whole model sums) (stage_model_bytes model 0 model.layers)
      else 0;
  kv_per_layer = kv_bytes model 0 1 context sessions;
  layers = model.layers;
}

unfoldable pub overlap_fails : ModelIndex → List ℕ → Bool
unfolding stage_model_bytes
overlap_fails model sums =
    let whole = stage_model_bytes model 0 model.layers in
    ltb 1 model.layers && (whole == 0 || ltb (folded_whole model sums) whole)

abbrev pub from_sums : ModelIndex → ℕ → ℕ → List ℕ → Option LayerSizes
from_sums model context sessions sums =
    if overlap_fails model sums
    then none
    else checked_sizes model (folded_sizes model context sessions sums) context sessions

unfoldable pub sizes_of : ModelIndex → ℕ → ℕ → Option LayerSizes
unfolding prefix_loop folding_fails folded_sizes overlap_fails
sizes_of model context sessions = elim (prefix_loop model model.layers 0 0) [
  | none ↦ none
  | some sums ↦ from_sums model context sessions sums
]

unfoldable pub fits : LayerSizes → ℕ → ℕ → ℕ → Bool
unfolding model_size kv_size
fits s offered_mib begin end =
    let offered = offered_mib * mib in
    let reserve = max (1024 * mib) (offered * 15 % 2 ^ 64 / 100) in
    let usable = offered - reserve in
    let weights = model_size s begin end in
    not (ltb (u64_max / mib) offered_mib)
    && not (leb offered reserve)
    && leb weights usable
    && leb (kv_size s begin end) (usable - weights)
