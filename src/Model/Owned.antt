-- ===== src/Model/Owned.antt =====
-- range_model.cpp, stage_model_bytes and owned_tensor: which ranges have bytes at all.
use dan.Common.{ℕ, ◌≤◌, ◌<◌, ◌≢◌, arith}
use dan.Model.{ModelIndex, stage_model_bytes}

-- A range of known size is not empty and lies within the model.
pub stage_model_bytes_range :
    (index : ModelIndex) (begin end : ℕ)
    → stage_model_bytes index begin end ≢ 0
    → (begin < end) × (end ≤ index.layers)
unfolding stage_model_bytes
stage_model_bytes_range index begin end h = ground arith
