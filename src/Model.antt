-- ===== src/Model.antt =====
-- The parsed model that planning works on: engine/include/provider_owned/range_model.hpp, lines
-- 31 to 66, and from engine/range_model.cpp which tensors a stage owns and their bytes. Layer
-- counts are below 2^31, so that the casts to `int` keep them; the layer numbers begin and end
-- are never negative.
pub mod Owned
use dan.Common.{
  ℕ, ◌+◌, ◌-◌, ◌^◌, ◌<◌, Bool, true, false, not, ◌&&◌, ◌||◌, List, [], ◌∷◌, Option, none, some,
  Bytes, ltb, leb, ◌==◌, if◌then◌else◌, bytes_eq, drop, ℤ, pos, negsuc,
}
use dan.Common.Text.{codes, starts_with, split_at, parse_int}

pub record ModelTensor : Type 0 where
  pub name : Bytes
  pub bytes : ℕ
  pub dimensions : List ℕ
  pub type : ℕ

pub record ModelIndex : Type 0 where
  pub architecture : Bytes
  pub layers : ℕ
  pub hidden : ℕ
  pub heads : ℕ
  pub kv_heads : ℕ
  pub experts : ℕ
  pub experts_used : ℕ
  pub ffn_length : ℕ
  pub trained_context : ℕ
  pub expert_ffn_length : ℕ
  pub head_dim_k : ℕ
  pub head_dim_v : ℕ
  pub logical_bytes : ℕ
  pub header_bytes : ℕ
  pub tensors : List ModelTensor

abbrev pub u64_max : ℕ
u64_max = 2 ^ 64 - 1

unfoldable pub block_layer : Bytes → Option ℤ
block_layer name =
    if not (starts_with name (codes "blk."))
    then none
    else elim (split_at b'.' (drop 4 name)) [ none ↦ none | some (number, rest) ↦ parse_int number ]

-- `*layer >= begin && *layer < end`
abbrev pub layer_within : ℕ → ℕ → ℤ → Bool
layer_within begin end (pos layer) = leb begin layer && ltb layer end
layer_within begin end (negsuc layer) = false

-- A tensor that belongs to no block.
unfoldable pub owned_outside : Bytes → ℕ → ℕ → ℕ → Bool → Bool
owned_outside name begin end layers output_present =
    if bytes_eq name (codes "token_embd.weight")
    then begin == 0 || (end == layers && not output_present)
    else if starts_with name (codes "output_norm.") || starts_with name (codes "output.")
    then end == layers
    else false

unfoldable pub owned_tensor : Bytes → ℕ → ℕ → ℕ → Bool → Bool
unfolding block_layer owned_outside
owned_tensor name begin end layers output_present = elim (block_layer name) [
  | some layer ↦ layer_within begin end layer
  | none ↦ owned_outside name begin end layers output_present
]

abbrev pub is_named : Bytes → ModelTensor → Bool
is_named name tensor = bytes_eq tensor.name name

abbrev pub any {ℓ} : {A : Type ℓ} → (A → Bool) → List A → Bool
any p [] = false
any p (x ∷ xs) = p x || any p xs

-- The summing loop, from the bytes so far; an overflow answers 0 at once.
unfoldable pub sum_owned : (ModelTensor → Bool) → ℕ → List ModelTensor → ℕ
sum_owned owned bytes [] = bytes
sum_owned owned bytes (tensor ∷ tensors) =
    let skipped = sum_owned owned bytes tensors in
    let added = sum_owned owned (bytes + tensor.bytes) tensors in
    if owned tensor then (if ltb (u64_max - tensor.bytes) bytes then 0 else added) else skipped

unfoldable pub stage_model_bytes : ModelIndex → ℕ → ℕ → ℕ
unfolding owned_tensor sum_owned
stage_model_bytes index begin end =
    if leb end begin || ltb index.layers end
    then 0
    else (let output_present = any (is_named (codes "output.weight")) index.tensors in
        sum_owned (λ tensor. owned_tensor tensor.name begin end index.layers output_present)
          index.header_bytes index.tensors)
