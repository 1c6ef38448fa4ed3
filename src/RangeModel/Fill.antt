-- ===== src/RangeModel/Fill.antt =====
-- range_model.cpp, lines 285 to 321: fill_model_index, the parsed header as the public index.
pub mod Spans
use dan.Common.{
  ℕ, ◌-◌, Bool, true, false, ◌||◌, List, [], ◌∷◌, Option, none, some, ltb, ◌==◌, if◌then◌else◌,
}
use dan.Protocol.Endpoints.{is_empty}
use dan.Model.{ModelTensor, ModelIndex}
use dan.RangeModel.{Tensor, Index}

abbrev pub model_tensor : Tensor → ℕ → ModelTensor
model_tensor t finish = record {
  name = t.name;
  bytes = finish - t.offset;
  dimensions = t.dimensions;
  type = t.type;
}

-- A tensor's bytes go up to the next tensor, and the last one's to the end of the data.
unfoldable pub fill_tensors : ℕ → List Tensor → List ModelTensor
fill_tensors end [] = []
fill_tensors end (t ∷ []) = model_tensor t end ∷ []
fill_tensors end (t ∷ u ∷ ts) = model_tensor t u.offset ∷ fill_tensors end (u ∷ ts)

unfoldable pub fill_model_index : Index → Option ModelIndex
unfolding fill_tensors
fill_model_index parsed =
    if is_empty parsed.architecture
      || ltb parsed.layers 2
      || parsed.hidden == 0
      || parsed.heads == 0
      || parsed.kv_heads == 0
    then none
    else some (record {
      architecture = parsed.architecture;
      layers = parsed.layers;
      hidden = parsed.hidden;
      heads = parsed.heads;
      kv_heads = parsed.kv_heads;
      experts = parsed.experts;
      experts_used = parsed.experts_used;
      ffn_length = parsed.ffn_length;
      trained_context = parsed.trained_context;
      expert_ffn_length = parsed.expert_ffn_length;
      head_dim_k = parsed.head_dim_k;
      head_dim_v = parsed.head_dim_v;
      logical_bytes = parsed.logical_size;
      header_bytes = parsed.data_offset;
      tensors = fill_tensors (parsed.logical_size - parsed.data_offset) parsed.tensors;
    })
