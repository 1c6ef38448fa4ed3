-- ===== src/Planner/Compatible.antt =====
-- planner.cpp, lines 15 to 194: which models can be staged. A check is the first problem found,
-- or `none`; `std::to_string` and text concatenation make the tensor names.
pub mod Requirements
use dan.Common.{
  ℕ, zero, suc, ◌+◌, ◌/◌, ◌%◌, Bool, true, false, not, ◌&&◌, ◌||◌, List, [], ◌∷◌, ◌++◌, Option,
  none, some, Bytes, ltb, leb, ◌==◌, if◌then◌else◌, bytes_eq, length,
}
use dan.Common.Text.{codes, starts_with, to_string}
use dan.Model.{ModelTensor, ModelIndex, is_named, any}
use dan.Planner.Sizes.{head_width_k, head_width_v}

-- The messages, each with the parts that vary.
pub data Problem : Type 0 where
  invalid_attention declares_experts missing_norms missing_ffn_length missing_expert_width : Problem
  too_few_experts no_expert_used too_many_used unequal_heads unsupported : Problem
  missing_tensor : Bytes → Problem
  missing_layer : ℕ → Problem
  layer_missing : ℕ → Bytes → Problem
  wrong_rank : Bytes → ℕ → Problem
  wrong_shape : Bytes → ℕ → Problem
  wrong_head_width : Bytes → ℕ → Problem

abbrev pub Check : Type 0
Check = Option Problem

-- `if (!b) return reject(p);`
abbrev pub require : Bool → Problem → Check
require true p = none
require false p = some p

infixl 5 ◌>>◌
abbrev pub ◌>>◌ : Check → Check → Check
none >> k = k
some p >> k = some p

unfoldable pub has_tensor : ModelIndex → Bytes → Bool
has_tensor model name = any (is_named name) model.tensors

abbrev pub find_named : Bytes → List ModelTensor → Option ModelTensor
find_named name [] = none
find_named name (t ∷ ts) = if is_named name t then some t else find_named name ts

unfoldable pub find_tensor : ModelIndex → Bytes → Option ModelTensor
find_tensor model name = find_named name model.tensors

unfoldable pub valid_attention : ModelIndex → Bool
valid_attention model =
    leb 2 model.layers
    && not (model.hidden == 0)
    && not (model.heads == 0)
    && not (model.kv_heads == 0)
    && model.hidden % model.heads == 0
    && model.heads % model.kv_heads == 0

-- A loop over the layers from `layer` on, over the rounds that are left.
abbrev pub for_layers : ℕ → ℕ → (ℕ → Check) → Check
for_layers zero layer check = none
for_layers (suc rounds) layer check = check layer >> for_layers rounds (layer + 1) check

abbrev pub for_each {ℓ} : {A : Type ℓ} → (A → Check) → List A → Check
for_each check [] = none
for_each check (x ∷ xs) = check x >> for_each check xs

abbrev pub layer_prefix : ℕ → Bytes
layer_prefix layer = codes "blk." ++ (to_string layer ++ codes ".")

unfoldable pub compatible_qwen2 : ModelIndex → Check
compatible_qwen2 model = do
  require (valid_attention model) invalid_attention
  require (model.experts == 0 && model.experts_used == 0) declares_experts
  require
      (has_tensor model (codes "token_embd.weight")
        && has_tensor model (codes "output_norm.weight"))
      missing_norms
  for_layers model.layers 0 λ layer.
      require (any (λ tensor. starts_with tensor.name (layer_prefix layer)) model.tensors)
        (missing_layer layer)

abbrev pub layer_suffixes : List Bytes
layer_suffixes =
    codes "attn_norm.weight"
    ∷ codes "attn_q.weight"
    ∷ codes "attn_k.weight"
    ∷ codes "attn_v.weight"
    ∷ codes "attn_output.weight"
    ∷ codes "attn_q_norm.weight"
    ∷ codes "attn_k_norm.weight"
    ∷ codes "ffn_norm.weight"
    ∷ []

-- The loop over the axes, on a tensor of as many dimensions as the shape has.
abbrev pub check_axes : Bytes → ℕ → List ℕ → List ℕ → Check
check_axes suffix layer (d ∷ dims) (s ∷ shape) =
    require (d == s) (wrong_shape suffix layer) >> check_axes suffix layer dims shape
check_axes suffix layer _ _ = none

unfoldable pub check_found : Bytes → ℕ → List ℕ → Option ModelTensor → Check
check_found suffix layer shape none = some (layer_missing layer suffix)
check_found suffix layer shape (some tensor) =
    require (length tensor.dimensions == length shape) (wrong_rank suffix layer)
    >> check_axes suffix layer tensor.dimensions shape

-- One row of the table `expected`; a third extent of 0 there stands for a shape of two axes.
abbrev pub check_shape : ModelIndex → ℕ → Bytes × List ℕ → Check
check_shape model layer (suffix, shape) =
    check_found suffix layer shape (find_tensor model (layer_prefix layer ++ suffix))

-- The router and the packed expert banks of a layer, for a per-expert width.
abbrev pub expected : ModelIndex → ℕ → List (Bytes × List ℕ)
expected model ffn =
    (codes "ffn_gate_inp.weight", model.hidden ∷ model.experts ∷ [])
    ∷ (codes "ffn_gate_exps.weight", model.hidden ∷ ffn ∷ model.experts ∷ [])
    ∷ (codes "ffn_up_exps.weight", model.hidden ∷ ffn ∷ model.experts ∷ [])
    ∷ (codes "ffn_down_exps.weight", ffn ∷ model.hidden ∷ model.experts ∷ [])
    ∷ []

abbrev pub check_suffix : ModelIndex → ℕ → Bytes → Check
check_suffix model layer suffix =
    require (has_tensor model (layer_prefix layer ++ suffix)) (layer_missing layer suffix)

unfoldable pub check_layer : ModelIndex → ℕ → ℕ → Check
check_layer model ffn layer = do
  for_each (check_suffix model layer) layer_suffixes
  for_each (check_shape model layer) (expected model ffn)

unfoldable pub compatible_olmoe : ModelIndex → Check
compatible_olmoe model = do
  require (valid_attention model) invalid_attention
  require (leb 2 model.experts) too_few_experts
  require (not (model.experts_used == 0)) no_expert_used
  require (leb model.experts_used model.experts) too_many_used
  require (not (model.ffn_length == 0)) missing_ffn_length
  for_each (λ name. require (has_tensor model name) (missing_tensor name))
      (codes "token_embd.weight" ∷ codes "output_norm.weight" ∷ codes "output.weight" ∷ [])
  for_layers model.layers 0 (check_layer model model.ffn_length)

-- The per-head norms, where they have one dimension, are one head wide.
abbrev pub check_norm_width : ℕ → ℕ → Bytes → Option ModelTensor → Check
check_norm_width head_k layer norm none = none
check_norm_width head_k layer norm (some tensor) = elim tensor.dimensions [
  | [] ↦ none
  | d ∷ rest ↦ elim rest [
    | [] ↦ require (d == head_k) (wrong_head_width norm layer)
    | e ∷ more ↦ none
  ]
]

unfoldable pub check_qwen3moe_layer : ModelIndex → ℕ → ℕ → ℕ → Check
check_qwen3moe_layer model head_k ffn layer = do
  for_each (check_suffix model layer) layer_suffixes
  for_each
      (λ norm. check_norm_width head_k layer norm (find_tensor model (layer_prefix layer ++ norm)))
      (codes "attn_q_norm.weight" ∷ codes "attn_k_norm.weight" ∷ [])
  for_each (check_shape model layer) (expected model ffn)

unfoldable pub expert_width : ModelIndex → ℕ
expert_width model =
    if not (model.expert_ffn_length == 0)
    then model.expert_ffn_length
    else if not (model.experts_used == 0)
    then model.ffn_length / model.experts_used
    else 0

unfoldable pub compatible_qwen3moe : ModelIndex → Check
compatible_qwen3moe model = do
  require (valid_attention model) invalid_attention
  require (not (head_width_k model == 0) && head_width_k model == head_width_v model) unequal_heads
  require (leb 2 model.experts) too_few_experts
  require (not (model.experts_used == 0)) no_expert_used
  require (leb model.experts_used model.experts) too_many_used
  require (not (expert_width model == 0)) missing_expert_width
  require
      (has_tensor model (codes "token_embd.weight")
        && has_tensor model (codes "output_norm.weight"))
      missing_norms
  for_layers model.layers 0 (check_qwen3moe_layer model (head_width_k model) (expert_width model))

unfoldable pub compatible_stage_model : ModelIndex → Check
compatible_stage_model model =
    if bytes_eq model.architecture (codes "qwen2")
    then compatible_qwen2 model
    else if bytes_eq model.architecture (codes "olmoe")
    then compatible_olmoe model
    else if bytes_eq model.architecture (codes "qwen3moe")
    then compatible_qwen3moe model
    else some unsupported
