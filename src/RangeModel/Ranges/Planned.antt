-- ===== src/RangeModel/Ranges/Planned.antt =====
-- range_model.cpp: required_ranges against stage_model_bytes, which planning uses.
use dan.Common.{
  ℕ, ◌+◌, ◌-◌, ◌^◌, ◌≤◌, ◌<◌, ◌≡◌, refl, ap, ◌∙◌, Bool, false, ◌||◌, List, [], ◌∷◌, some, Bytes,
  bytes_eq, ltb, leb, if◌then◌else◌, arith, Bool-cases, inl, inr,
}
use dan.Common.Text.{codes}
use dan.Model.{
  ModelIndex, ModelTensor, u64_max, any, is_named, owned_tensor, sum_owned, stage_model_bytes,
}
use dan.RangeModel.{Tensor, Index}
use dan.RangeModel.Header.{complete, parse_index}
use dan.RangeModel.Header.Sound.{parse_index-IsSound}
use dan.RangeModel.Fill.{fill_tensors, fill_model_index}
use dan.RangeModel.Fill.Spans.{total_bytes, fill_model_index-tensors, fill_model_index-total}
use dan.RangeModel.Ranges.{count_layers, Ranges, range_loop, required_ranges, ranges_of}
use dan.RangeModel.Ranges.Owned.{total_size, owned_bytes, range_loop-total}

sum_owned-owned_bytes :
    (owned : Bytes → Bool) (bytes : ℕ) (ts : List ModelTensor)
    → bytes + owned_bytes owned ts ≤ u64_max
    → sum_owned (λ t. owned t.name) bytes ts ≡ bytes + owned_bytes owned ts
unfolding sum_owned
sum_owned-owned_bytes owned bytes [] h = omega arith
sum_owned-owned_bytes owned bytes (t ∷ ts) h = elim (Bool-cases (owned t.name)) [
  | inr other ↦ rw other (sum_owned-owned_bytes owned bytes ts (rw other at h))
  | inl mine ↦
      let k : bytes + (t.bytes + owned_bytes owned ts) ≤ u64_max = rw mine at h in
      let rest = sum_owned-owned_bytes owned (bytes + t.bytes) ts (omega (arith, k)) in
      let small : ltb (u64_max - t.bytes) bytes ≡ false = ground (arith, k) in
      rw (mine, small) (omega (arith, rest))
]

owned_bytes-total :
    (owned : Bytes → Bool) (ts : List ModelTensor) → owned_bytes owned ts ≤ total_bytes ts
owned_bytes-total owned [] = omega arith
owned_bytes-total owned (t ∷ ts) = ground (arith, owned_bytes-total owned ts)

any-fill_tensors :
    (end : ℕ) (ts : List Tensor)
    → any (is_named (codes "output.weight")) (fill_tensors end ts)
      ≡ any (λ (t : Tensor). bytes_eq t.name (codes "output.weight")) ts
unfolding fill_tensors
any-fill_tensors end [] = refl
any-fill_tensors end (t ∷ []) = refl
any-fill_tensors end (t ∷ u ∷ ts) =
    ap (λ b. bytes_eq t.name (codes "output.weight") || b) (any-fill_tensors end (u ∷ ts))

fill_model_index-layers :
    (parsed : Index) (index : ModelIndex)
    → fill_model_index parsed ≡ some index
    → index.layers ≡ parsed.layers
unfolding fill_model_index
fill_model_index-layers parsed index h = ground (arith, h)

-- stage_model_bytes by the parts of the index that it reads.
abbrev planned_bytes : ℕ → ℕ → ℕ → Bool → ℕ → List ModelTensor → ℕ
planned_bytes begin end layers output_present header tensors =
    if leb end begin || ltb layers end
    then 0
    else sum_owned (λ t. owned_tensor t.name begin end layers output_present) header tensors

-- For a header that `parse_index` accepted of a file smaller than 2^64 bytes, whose tensor names speak of
-- as many layers as its metadata, and a stage of some of its layers: the ranges that are downloaded for the
-- stage have exactly the bytes that planning counts for it.
pub required_ranges-planned :
    (bytes : Bytes) (size : ℕ) (parsed : Index) (index : ModelIndex) (begin end : ℕ)
    → parse_index bytes size ≡ complete parsed
    → fill_model_index parsed ≡ some index
    → size < 2 ^ 64
    → count_layers 0 parsed.tensors ≡ parsed.layers
    → begin < end
    → end ≤ parsed.layers
    → total_size (ranges_of (required_ranges parsed begin end)) ≡ stage_model_bytes index begin end
unfolding required_ranges stage_model_bytes
required_ranges-planned bytes size parsed index begin end h k w l b e =
    let sound = parse_index-IsSound bytes size parsed h in
    let (tensors, header, _) = fill_model_index-tensors parsed index k in
    let (total, _) = fill_model_index-total bytes size parsed index h k in
    let span = size - parsed.data_offset in
    let output_present =
      any (λ (t : Tensor). bytes_eq t.name (codes "output.weight")) parsed.tensors in
    let owned : Bytes → Bool = λ name. owned_tensor name begin end parsed.layers output_present in
    let start : Ranges = record {
      front = [];
      last = record { offset = 0; size = parsed.data_offset; sha256 = [] };
      tensor_count = 0;
      shared_bytes = 0;
    } in
    let ranges =
      range_loop-total owned begin parsed.data_offset span parsed.logical_size start parsed.tensors
        (omega (arith, sound.size_kept, sound.data_inside)) in
    let filled = fill_tensors span parsed.tensors in
    let same : index.tensors ≡ filled =
      tensors ∙ ap (λ n. fill_tensors (n - parsed.data_offset) parsed.tensors) sound.size_kept in
    let filled_total : total_bytes index.tensors ≡ total_bytes filled = ap total_bytes same in
    let room : parsed.data_offset + owned_bytes owned filled ≤ u64_max =
      omega (arith, owned_bytes-total owned filled, total, header, w, filled_total) in
    let planned = sum_owned-owned_bytes owned parsed.data_offset filled room in
    let layers = fill_model_index-layers parsed index k in
    let inside : (leb end begin || ltb parsed.layers end) ≡ false = ground (arith, b, e) in
    let left : total_size (ranges_of (required_ranges parsed begin end))
        ≡ total_size (
            ranges_of (
              range_loop owned begin parsed.data_offset parsed.logical_size start parsed.tensors)) =
      ap
        (λ (n : ℕ). total_size (
          ranges_of (
            range_loop (λ name. owned_tensor name begin end n output_present) begin
              parsed.data_offset parsed.logical_size start parsed.tensors)))
        l in
    let right : stage_model_bytes index begin end
        ≡ sum_owned (λ t. owned t.name) parsed.data_offset filled =
      ap
        (λ (n : ℕ).
          planned_bytes begin end n (any (is_named (codes "output.weight")) index.tensors)
            index.header_bytes index.tensors)
        layers
      ∙ ap
          (λ (ts : List ModelTensor).
            planned_bytes begin end parsed.layers (any (is_named (codes "output.weight")) ts)
              index.header_bytes ts)
          same
      ∙ ap (λ (p : Bool). planned_bytes begin end parsed.layers p index.header_bytes filled)
          (any-fill_tensors span parsed.tensors)
      ∙ ap (λ (n : ℕ). planned_bytes begin end parsed.layers output_present n filled) header
      ∙ ap
          (λ (test : Bool).
            if test then 0 else sum_owned (λ t. owned t.name) parsed.data_offset filled)
          inside in
    omega (arith, left, right, ranges, planned)
