-- ===== src/Runs/Models.antt =====
-- Two small models: a dense one of two layers and a mixture of experts of two layers.
use dan.Common.{ℕ, List, [], ◌∷◌, ◌++◌, none, some, ◌≡◌, refl, Bytes, map}
use dan.Common.Text.{codes, to_string, print_loop}
use dan.Model.{ModelTensor, ModelIndex}
use dan.Planner.Compatible.{
  Problem, has_tensor, find_tensor, valid_attention, compatible_qwen2, layer_prefix, layer_suffixes,
  check_found, check_layer, compatible_olmoe, compatible_stage_model,
}

abbrev pub tensor : Bytes → ℕ → List ℕ → ModelTensor
tensor name bytes dimensions = record {
  name = name;
  bytes = bytes;
  dimensions = dimensions;
  type = 0;
}

abbrev pub dense : ModelIndex
dense = record {
  architecture = codes "qwen2";
  layers = 2;
  hidden = 64;
  heads = 2;
  kv_heads = 1;
  experts = 0;
  experts_used = 0;
  ffn_length = 128;
  trained_context = 1024;
  expert_ffn_length = 0;
  head_dim_k = 0;
  head_dim_v = 0;
  logical_bytes = 9000;
  header_bytes = 1000;
  tensors =
      tensor (codes "token_embd.weight") 2000 (64 ∷ 100 ∷ [])
      ∷ tensor (codes "blk.0.attn_q.weight") 3000 (64 ∷ 64 ∷ [])
      ∷ tensor (codes "blk.1.attn_q.weight") 3000 (64 ∷ 64 ∷ [])
      ∷ tensor (codes "output_norm.weight") 100 (64 ∷ [])
      ∷ [];
}

abbrev layer_tensors : ℕ → List ModelTensor
layer_tensors layer =
    map (λ suffix. tensor (layer_prefix layer ++ suffix) 10 (64 ∷ [])) layer_suffixes
    ++ (tensor (layer_prefix layer ++ codes "ffn_gate_inp.weight") 10 (64 ∷ 4 ∷ [])
        ∷ tensor (layer_prefix layer ++ codes "ffn_gate_exps.weight") 10 (64 ∷ 32 ∷ 4 ∷ [])
        ∷ tensor (layer_prefix layer ++ codes "ffn_up_exps.weight") 10 (64 ∷ 32 ∷ 4 ∷ [])
        ∷ tensor (layer_prefix layer ++ codes "ffn_down_exps.weight") 10 (32 ∷ 64 ∷ 4 ∷ [])
        ∷ [])

abbrev pub mixture : ModelIndex
mixture = record dense {
  architecture = codes "olmoe";
  experts = 4;
  experts_used = 2;
  ffn_length = 32;
  tensors =
      tensor (codes "token_embd.weight") 100 (64 ∷ 100 ∷ [])
      ∷ tensor (codes "output_norm.weight") 100 (64 ∷ [])
      ∷ tensor (codes "output.weight") 100 (64 ∷ 100 ∷ [])
      ∷ (layer_tensors 0 ++ layer_tensors 1);
}

pub dense_is_compatible : compatible_stage_model dense ≡ none
unfolding compatible_stage_model compatible_qwen2 valid_attention has_tensor to_string print_loop
dense_is_compatible = refl

pub mixture_is_compatible : compatible_stage_model mixture ≡ none
unfolding compatible_stage_model compatible_olmoe valid_attention has_tensor find_tensor check_layer
    check_found to_string print_loop
mixture_is_compatible = refl

one_layer_is_refused :
    compatible_stage_model (record dense { layers = 1 }) ≡ some Problem.invalid_attention
unfolding compatible_stage_model compatible_qwen2 valid_attention
one_layer_is_refused = refl
