-- ===== src/RangeModel/Fill/Spans.antt =====
-- range_model.cpp: the byte spans of an accepted header make up the file.
use dan.Common.{
  ℕ, ◌+◌, ◌-◌, ◌≡◌, refl, Bool, true, not, ◌&&◌, List, [], ◌∷◌, some, Bytes, ◌==◌, arith,
}
use dan.Model.{ModelTensor, ModelIndex}
use dan.RangeModel.{Tensor, Index}
use dan.RangeModel.Header.{complete, valid_offsets, parse_index}
use dan.RangeModel.Header.Sound.{parse_index-IsSound}
use dan.RangeModel.Fill.{fill_tensors, fill_model_index}

abbrev pub total_bytes : List ModelTensor → ℕ
total_bytes [] = 0
total_bytes (t ∷ ts) = t.bytes + total_bytes ts

-- Where the first tensor begins, or the end where there is none.
abbrev pub first_offset : ℕ → List Tensor → ℕ
first_offset end [] = end
first_offset end (t ∷ ts) = t.offset

fill_tensors-total :
    (end : ℕ) (ts : List Tensor)
    → valid_offsets end ts ≡ true
    → first_offset end ts + total_bytes (fill_tensors end ts) ≡ end
unfolding valid_offsets fill_tensors
fill_tensors-total end [] h = omega arith
fill_tensors-total end (t ∷ []) h = ground (arith, h)
fill_tensors-total end (t ∷ u ∷ ts) h = ground (arith, h, fill_tensors-total end (u ∷ ts))

abbrev pub all_have_bytes : List ModelTensor → Bool
all_have_bytes [] = true
all_have_bytes (t ∷ ts) = not (t.bytes == 0) && all_have_bytes ts

fill_tensors-all_have_bytes :
    (end : ℕ) (ts : List Tensor)
    → valid_offsets end ts ≡ true
    → all_have_bytes (fill_tensors end ts) ≡ true
unfolding valid_offsets fill_tensors
fill_tensors-all_have_bytes end [] h = refl
fill_tensors-all_have_bytes end (t ∷ []) h = ground (arith, h)
fill_tensors-all_have_bytes end (t ∷ u ∷ ts) h =
    ground (arith, h, fill_tensors-all_have_bytes end (u ∷ ts))

pub fill_model_index-tensors :
    (parsed : Index) (index : ModelIndex)
    → fill_model_index parsed ≡ some index
    → (index.tensors ≡ fill_tensors (parsed.logical_size - parsed.data_offset) parsed.tensors)
      × (index.header_bytes ≡ parsed.data_offset)
      × (index.logical_bytes ≡ parsed.logical_size)
unfolding fill_model_index
fill_model_index-tensors parsed index h = ground (arith, h)

-- The public index of a header that `parse_index` accepted, whatever its bytes: the header, the gap in
-- front of the first tensor and the tensors' spans add up to the size of the file, and no span is empty.
pub fill_model_index-total :
    (bytes : Bytes) (size : ℕ) (parsed : Index) (index : ModelIndex)
    → parse_index bytes size ≡ complete parsed
    → fill_model_index parsed ≡ some index
    → (index.header_bytes
          + first_offset (size - parsed.data_offset) parsed.tensors
          + total_bytes index.tensors
        ≡ size)
      × (all_have_bytes index.tensors ≡ true)
fill_model_index-total bytes size parsed index h k =
    let sound = parse_index-IsSound bytes size parsed h in
    let (tensors, header, _) = fill_model_index-tensors parsed index k in
    let total = fill_tensors-total (size - parsed.data_offset) parsed.tensors sound.offsets in
    let spans =
      fill_tensors-all_have_bytes (size - parsed.data_offset) parsed.tensors sound.offsets in
    rw (tensors, header, sound.size_kept) (omega (arith, total, sound.data_inside), spans)
