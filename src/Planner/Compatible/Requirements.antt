-- ===== src/Planner/Compatible/Requirements.antt =====
-- planner.cpp, compatible_stage_model: what a model that passes the check is known to have.
use dan.Common.{
  ℕ, zero, suc, ◌+◌, ◌%◌, ◌≤◌, ◌<◌, ◌≡◌, ◌≢◌, ◌⊎◌, inl, inr, refl, Bool, true, false, List, [], ◌∷◌,
  ◌++◌, Option, none, some, Bytes, ◌==◌, if◌then◌else◌, bytes_eq, length, arith, Bool-cases,
  bytes_eq_iff,
}
use dan.Common.Text.{codes}
use dan.Model.{ModelTensor, ModelIndex}
use dan.Planner.Sizes.{head_width_k}
use dan.Planner.Compatible.{
  Problem, Check, require, ◌>>◌, find_tensor, valid_attention, for_layers, for_each, layer_prefix,
  layer_suffixes, check_axes, check_found, check_shape, check_suffix, expected, check_layer,
  check_norm_width, compatible_qwen2, compatible_olmoe, check_qwen3moe_layer, expert_width,
  compatible_qwen3moe, compatible_stage_model,
}

>>-none : (a b : Check) → (a >> b) ≡ none → (a ≡ none) × (b ≡ none)
>>-none none b h = (refl, h)
>>-none (some p) b h = cc

require-none : (b : Bool) (p : Problem) → require b p ≡ none → b ≡ true
require-none true p h = refl
require-none false p h = cc

for_layers-none :
    (rounds layer : ℕ) (check : ℕ → Check)
    → for_layers rounds layer check ≡ none
    → (k : ℕ) → layer ≤ k
    → k < layer + rounds
    → check k ≡ none
for_layers-none zero layer check h k low high = absurd (omega arith)
for_layers-none (suc rounds) layer check h k low high =
    let (first, rest) = >>-none (check layer) (for_layers rounds (layer + 1) check) h in
    elim (Bool-cases (layer == k)) [
      | inl here ↦ (let e : layer ≡ k = ground arith in rw (← e) first)
      | inr later ↦ for_layers-none rounds (layer + 1) check rest k (ground arith) (omega arith)
    ]

check_axes-none :
    (suffix : Bytes) (layer : ℕ) (dims shape : List ℕ)
    → length dims ≡ length shape
    → check_axes suffix layer dims shape ≡ none
    → dims ≡ shape
check_axes-none suffix layer [] [] e h = refl
check_axes-none suffix layer [] (s ∷ shape) e h = absurd (omega arith)
check_axes-none suffix layer (d ∷ dims) [] e h = absurd (omega arith)
check_axes-none suffix layer (d ∷ dims) (s ∷ shape) e h =
    ground (arith, check_axes-none suffix layer dims shape)

-- The index has a tensor of that name, with exactly these dimensions.
abbrev pub HasShape : ModelIndex → Bytes → List ℕ → Type 0
HasShape model name shape =
    (t : ModelTensor) × (find_tensor model name ≡ some t) × (t.dimensions ≡ shape)

check_found-none :
    (suffix : Bytes) (layer : ℕ) (shape : List ℕ) (r : Option ModelTensor)
    → check_found suffix layer shape r ≡ none
    → (t : ModelTensor) × (r ≡ some t) × (t.dimensions ≡ shape)
unfolding check_found
check_found-none suffix layer shape none h = cc
check_found-none suffix layer shape (some t) h =
    let (rank, axes) =
      >>-none (require (length t.dimensions == length shape) (Problem.wrong_rank suffix layer))
        (check_axes suffix layer t.dimensions shape) h in
    (t, refl, check_axes-none suffix layer t.dimensions shape (ground (arith, rank)) axes)

-- The router and the three packed expert banks of one layer.
pub record Banks (model : ModelIndex) (width layer : ℕ) : Type 0 where
  pub router :
      HasShape model
        (layer_prefix layer ++ codes "ffn_gate_inp.weight")
        (model.hidden ∷ model.experts ∷ [])
  pub gate :
      HasShape model
        (layer_prefix layer ++ codes "ffn_gate_exps.weight")
        (model.hidden ∷ width ∷ model.experts ∷ [])
  pub up :
      HasShape model
        (layer_prefix layer ++ codes "ffn_up_exps.weight")
        (model.hidden ∷ width ∷ model.experts ∷ [])
  pub down :
      HasShape model
        (layer_prefix layer ++ codes "ffn_down_exps.weight")
        (width ∷ model.hidden ∷ model.experts ∷ [])

expected-Banks :
    (model : ModelIndex) (width layer : ℕ)
    → for_each (check_shape model layer) (expected model width) ≡ none
    → Banks model width layer
expected-Banks model width layer h =
    let (a, h1) = >>-none _ _ h in
    let (b, h2) = >>-none _ _ h1 in
    let (c, h3) = >>-none _ _ h2 in
    let (d, _) = >>-none _ _ h3 in
    record {
      router = check_found-none _ layer _ _ a;
      gate = check_found-none _ layer _ _ b;
      up = check_found-none _ layer _ _ c;
      down = check_found-none _ layer _ _ d;
    }

olmoe_layers :
    (model : ModelIndex)
    → compatible_olmoe model ≡ none
    → for_layers model.layers 0 (check_layer model model.ffn_length) ≡ none
unfolding compatible_olmoe
olmoe_layers model h = ground arith

check_layer-Banks :
    (model : ModelIndex) (width layer : ℕ)
    → check_layer model width layer ≡ none
    → Banks model width layer
unfolding check_layer
check_layer-Banks model width layer h =
    expected-Banks model width layer
      (>>-none (for_each (check_suffix model layer) layer_suffixes)
        (for_each (check_shape model layer) (expected model width)) h).1

olmoe-Banks :
    (model : ModelIndex) (layer : ℕ)
    → compatible_olmoe model ≡ none
    → layer < model.layers
    → Banks model model.ffn_length layer
olmoe-Banks model layer h l = check_layer-Banks model model.ffn_length layer (
    for_layers-none model.layers 0 (check_layer model model.ffn_length) (olmoe_layers model h) layer
      (omega arith) (omega arith))

qwen3moe_layers :
    (model : ModelIndex)
    → compatible_qwen3moe model ≡ none
    → for_layers model.layers 0
        (check_qwen3moe_layer model (head_width_k model) (expert_width model))
      ≡ none
unfolding compatible_qwen3moe
qwen3moe_layers model h = ground arith

check_qwen3moe_layer-Banks :
    (model : ModelIndex) (head_k width layer : ℕ)
    → check_qwen3moe_layer model head_k width layer ≡ none
    → Banks model width layer
unfolding check_qwen3moe_layer
check_qwen3moe_layer-Banks model head_k width layer h = expected-Banks model width layer (
    last_of_three (for_each (check_suffix model layer) layer_suffixes)
      (for_each
        (λ norm.
          check_norm_width head_k layer norm (find_tensor model (layer_prefix layer ++ norm)))
        (codes "attn_q_norm.weight" ∷ codes "attn_k_norm.weight" ∷ []))
      (for_each (check_shape model layer) (expected model width)) h)
  where
    last_of_three : (a b c : Check) → (a >> (b >> c)) ≡ none → c ≡ none
    last_of_three a b c e = (>>-none b c ((>>-none a (b >> c) e).1)).1

qwen3moe-Banks :
    (model : ModelIndex) (layer : ℕ)
    → compatible_qwen3moe model ≡ none
    → layer < model.layers
    → Banks model (expert_width model) layer
qwen3moe-Banks model layer h l =
    check_qwen3moe_layer-Banks model (head_width_k model) (expert_width model) layer (
      for_layers-none model.layers 0
        (check_qwen3moe_layer model (head_width_k model) (expert_width model))
        (qwen3moe_layers model h) layer (omega arith) (omega arith))

-- The width of one expert, as each architecture gives it.
abbrev pub bank_width : ModelIndex → ℕ
bank_width model =
    if bytes_eq model.architecture (codes "olmoe") then model.ffn_length else expert_width model

-- A mixture-of-experts model that passes the check has, in every layer, the router and the three
-- packed expert banks, with the shapes that the metadata gives.
pub compatible-Banks :
    (model : ModelIndex) (layer : ℕ)
    → compatible_stage_model model ≡ none
    → model.architecture ≢ codes "qwen2"
    → layer < model.layers
    → Banks model (bank_width model) layer
unfolding compatible_stage_model
compatible-Banks model layer h dense l = go (bytes_eq model.architecture (codes "olmoe")) refl
  where
    not_qwen2 : bytes_eq model.architecture (codes "qwen2") ≡ false
    not_qwen2 = ground (arith, bytes_eq_iff model.architecture (codes "qwen2"))

    go :
        (b : Bool)
        → bytes_eq model.architecture (codes "olmoe") ≡ b
        → Banks model (bank_width model) layer
    go true e = rw e (olmoe-Banks model layer (ground arith) l)
    go false e = rw e (qwen3moe-Banks model layer (ground arith) l)

attention_first :
    (model : ModelIndex) → compatible_stage_model model ≡ none → valid_attention model ≡ true
unfolding compatible_stage_model compatible_qwen2 compatible_olmoe compatible_qwen3moe
attention_first model h = elim (Bool-cases (valid_attention model)) [
  | inl good ↦ good
  | inr bad ↦ ground arith
]

-- A model that passes the check is of a known architecture, has two layers at least, and divides
-- its width over its heads and its heads over its kv heads.
pub compatible_attention :
    (model : ModelIndex)
    → compatible_stage_model model ≡ none
    → ((model.architecture ≡ codes "qwen2")
        ⊎ (model.architecture ≡ codes "olmoe")
        ⊎ (model.architecture ≡ codes "qwen3moe"))
      × (2 ≤ model.layers)
      × (model.heads ≢ 0)
      × (model.kv_heads ≢ 0)
      × (model.hidden % model.heads ≡ 0)
      × (model.heads % model.kv_heads ≡ 0)
unfolding valid_attention compatible_stage_model
compatible_attention model h = ground (
  arith,
  attention_first model h,
  bytes_eq_iff model.architecture (codes "qwen2"),
  bytes_eq_iff model.architecture (codes "olmoe"),
  bytes_eq_iff model.architecture (codes "qwen3moe"),
)
