-- ===== src/Runs/Downloads.antt =====
-- range_model.cpp on the header of a small GGUF file with two layers.
use dan.Common.{ℕ, ◌+◌, ◌-◌, ◌≡◌, refl, true, [], ◌∷◌, ◌++◌, some, Bytes, length, arith}
use dan.Common.Text.{codes, parse_int}
use dan.Model.{ModelIndex, stage_model_bytes}
use dan.RangeModel.{Tensor, Index, Range, integer, string}
use dan.RangeModel.Header.{complete, parse_index}
use dan.RangeModel.Fill.{fill_tensors, fill_model_index}
use dan.RangeModel.Fill.Spans.{total_bytes, first_offset, all_have_bytes, fill_model_index-total}
use dan.RangeModel.Ranges.{count_layers, required_ranges, ranges_of, bounded_ranges}
use dan.RangeModel.Ranges.Planned.{required_ranges-planned}
use dan.RangeModel.Ranges.Owned.{total_size}
use dan.RangeModel.Ranges.Pieces.{Tiling, bounded_ranges-Tiling}

-- Words of small numbers, and a text with its length.
abbrev word : ℕ → Bytes
word n = n ∷ 0 ∷ 0 ∷ 0 ∷ []

abbrev long_word : ℕ → Bytes
long_word n = word n ++ word 0

abbrev counted : Bytes → Bytes
counted text = long_word (length text) ++ text

abbrev number_value : Bytes → ℕ → Bytes
number_value key n = counted key ++ word 4 ++ word n

abbrev listed : Bytes → ℕ → Bytes
listed name offset = counted name ++ word 1 ++ long_word 8 ++ word 0 ++ long_word offset

abbrev header : Bytes
header =
    codes "GGUF"
    ++ word 3
    ++ long_word 3
    ++ long_word 5
    ++ counted (codes "general.architecture")
    ++ word 8
    ++ counted (codes "x")
    ++ number_value (codes "x.block_count") 2
    ++ number_value (codes "x.embedding_length") 4
    ++ number_value (codes "x.attention.head_count") 1
    ++ number_value (codes "x.attention.head_count_kv") 1
    ++ listed (codes "token_embd.weight") 0
    ++ listed (codes "blk.1.w") 64
    ++ listed (codes "blk.0.w") 32

abbrev tensor : Bytes → ℕ → Tensor
tensor name offset = record { name = name; offset = offset; dimensions = 8 ∷ []; type = 0 }

abbrev parsed : Index
parsed = record {
  architecture = codes "x";
  layers = 2;
  hidden = 4;
  heads = 1;
  kv_heads = 1;
  experts = 0;
  experts_used = 0;
  ffn_length = 0;
  trained_context = 0;
  expert_ffn_length = 0;
  head_dim_k = 0;
  head_dim_v = 0;
  logical_size = 452;
  data_offset = 352;
  alignment = 32;
  tensors =
      tensor (codes "token_embd.weight") 0
      ∷ tensor (codes "blk.0.w") 32
      ∷ tensor (codes "blk.1.w") 64
      ∷ [];
}

abbrev index : ModelIndex
unfolding fill_tensors
index = record {
  architecture = codes "x";
  layers = 2;
  hidden = 4;
  heads = 1;
  kv_heads = 1;
  experts = 0;
  experts_used = 0;
  ffn_length = 0;
  trained_context = 0;
  expert_ffn_length = 0;
  head_dim_k = 0;
  head_dim_v = 0;
  logical_bytes = 452;
  header_bytes = 352;
  tensors = fill_tensors 100 parsed.tensors;
}

header-parsed : parse_index header 452 ≡ complete parsed
unfolding parse_index integer string
header-parsed = refl

index-filled : fill_model_index parsed ≡ some index
unfolding fill_model_index
index-filled = refl

layers-counted : count_layers 0 parsed.tensors ≡ 2
unfolding count_layers parse_int
layers-counted = refl

required_ranges-planned_example :
    total_size (ranges_of (required_ranges parsed 1 2)) ≡ stage_model_bytes index 1 2
required_ranges-planned_example =
    required_ranges-planned header 452 parsed index 1 2 header-parsed index-filled (omega arith)
      layers-counted (omega arith) (omega arith)

fill_model_index-total_example :
    (index.header_bytes
        + first_offset (452 - parsed.data_offset) parsed.tensors
        + total_bytes index.tensors
      ≡ 452)
    × (all_have_bytes index.tensors ≡ true)
fill_model_index-total_example =
    fill_model_index-total header 452 parsed index header-parsed index-filled

abbrev two_chunks : Range
two_chunks = record { offset = 64; size = 300_000_000; sha256 = [] }

bounded_ranges-Tiling_example : Tiling (two_chunks ∷ []) (bounded_ranges (two_chunks ∷ []))
bounded_ranges-Tiling_example = bounded_ranges-Tiling (two_chunks ∷ [])
