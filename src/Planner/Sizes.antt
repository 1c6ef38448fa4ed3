-- ===== src/Planner/Sizes.antt =====
-- planner.cpp, lines 15 to 29 and 196 to 285: the bytes of a stage and whether they fit a worker.
-- Sizes are uint64_t and counts uint32_t; a product that may wrap is reduced where C++ does.
pub mod Bounds
use dan.Common.{
  ℕ, ◌+◌, ◌-◌, ◌*◌, ◌/◌, ◌%◌, ◌^◌, Bool, true, false, not, ◌&&◌, ◌||◌, List, [], ◌∷◌, Option, none,
  some, Bytes, ltb, leb, ◌==◌, if◌then◌else◌, bytes_eq, max,
}
use dan.Common.Text.{codes}
use dan.Model.{ModelTensor, ModelIndex, is_named, u64_max, stage_model_bytes}

abbrev pub mib : ℕ
mib = 1024 * 1024

abbrev pub pad256 : ℕ → ℕ
pad256 n = (n + 256 - 1) / 256 * 256

unfoldable pub allocated_positions : ℕ → ℕ → ℕ
allocated_positions context sessions =
    if context == 0 || sessions == 0
    then 0
    else (let total = pad256 (context * sessions) in
        let per_session = pad256 (total / sessions) in
        if ltb (2 ^ 32 - 1) per_session then 0 else per_session)

unfoldable pub head_width_k : ModelIndex → ℕ
head_width_k model =
    if not (model.head_dim_k == 0)
    then model.head_dim_k
    else if model.heads == 0 || not (model.hidden % model.heads == 0)
    then 0
    else model.hidden / model.heads

unfoldable pub head_width_v : ModelIndex → ℕ
head_width_v model =
    if not (model.head_dim_v == 0)
    then model.head_dim_v
    else if model.heads == 0 || not (model.hidden % model.heads == 0)
    then 0
    else model.hidden / model.heads

-- The loop over the factors: 0 at a factor 0 and where the product would pass 2^64 - 1.
unfoldable pub checked_product : ℕ → List ℕ → ℕ
checked_product value [] = value
checked_product value (factor ∷ factors) =
    let rest = checked_product (value * factor) factors in
    if factor == 0 || ltb (u64_max / factor) value then 0 else rest

unfoldable pub kv_bytes : ModelIndex → ℕ → ℕ → ℕ → ℕ → ℕ
kv_bytes model begin end context sessions =
    if model.heads == 0 || leb end begin
    then 0
    else (let width = head_width_k model + head_width_v model in
        let positions = allocated_positions context sessions in
        if width == 0 || positions == 0
        then 0
        else checked_product positions (sessions ∷ (end - begin) ∷ model.kv_heads ∷ width ∷ 2 ∷ []))

-- The loop of `decode_bytes` that takes the embedding off.
unfoldable pub without_embedding : ℕ → List ModelTensor → ℕ
without_embedding bytes [] = bytes
without_embedding bytes (tensor ∷ tensors) =
    without_embedding
      (if is_named (codes "token_embd.weight") tensor && ltb tensor.bytes bytes
        then bytes - tensor.bytes
        else bytes)
      tensors

unfoldable pub decode_bytes : ModelIndex → ℕ → ℕ → ℕ
unfolding without_embedding
decode_bytes model begin end =
    let bytes = stage_model_bytes model begin end in
    if begin == 0 then without_embedding bytes model.tensors else bytes

-- `std::max<std::uint64_t>(1024ull * mib, offered * 15 / 100)`, whose product wraps at 2^64.
abbrev pub reserve_of : ℕ → ℕ
reserve_of offered = max (1024 * mib) (offered * 15 % 2 ^ 64 / 100)

unfoldable pub usable_bytes : ℕ → ℕ
usable_bytes offered_mib =
    if ltb (u64_max / mib) offered_mib
    then 0
    else (let offered = offered_mib * mib in
        if ltb (reserve_of offered) offered then offered - reserve_of offered else 0)

pub record StageAssignment : Type 0 where
  pub provider : ℕ
  pub begin : ℕ
  pub end : ℕ
  pub model_bytes : ℕ
  pub kv_bytes : ℕ

abbrev pub stage_assignment : ModelIndex → ℕ → ℕ → ℕ → ℕ → StageAssignment
stage_assignment model begin end context sessions = record {
  provider = 0;
  begin = begin;
  end = end;
  model_bytes = stage_model_bytes model begin end;
  kv_bytes = kv_bytes model begin end context sessions;
}

-- The assignment is filled in behind the first test, and read by callers only if the stage fits.
unfoldable pub stage_fits : ModelIndex → ℕ → ℕ → ℕ → ℕ → ℕ → Option StageAssignment
stage_fits model offered_mib begin end context sessions =
    if ltb (u64_max / mib) offered_mib
    then none
    else (let offered = offered_mib * mib in
        let reserve = reserve_of offered in
        let assignment = stage_assignment model begin end context sessions in
        if not (assignment.model_bytes == 0)
          && not (assignment.kv_bytes == 0)
          && ltb reserve offered
          && leb assignment.model_bytes (offered - reserve)
          && leb assignment.kv_bytes (offered - reserve - assignment.model_bytes)
        then some assignment
        else none)

unfoldable pub draft_room : ModelIndex → ℕ → ℕ → ℕ → StageAssignment → Bool
draft_room draft offered_mib context sessions main =
    let draft_weights = stage_model_bytes draft 0 draft.layers in
    let draft_kv = kv_bytes draft 0 draft.layers context sessions in
    if draft_weights == 0 || draft_kv == 0 || ltb (u64_max - draft_kv) draft_weights
    then false
    else (let offered = offered_mib * mib in
        let usable = offered - reserve_of offered in
        leb (draft_weights + draft_kv) (usable - (main.model_bytes + main.kv_bytes)))

unfoldable pub stage_with_draft_fits : ModelIndex → ModelIndex → ℕ → ℕ → ℕ → ℕ → Bool
unfolding draft_room
stage_with_draft_fits model draft offered_mib end context sessions =
    elim (stage_fits model offered_mib 0 end context sessions) [
      | none ↦ false
      | some main ↦ draft_room draft offered_mib context sessions main
    ]
