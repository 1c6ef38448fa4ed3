-- ===== src/Measurement.antt =====
-- engine/include/provider_owned/measurement.hpp: the speeds that a worker observed. A time is a number
-- of seconds since the epoch in an int64_t, here an integer; `double` is a parameter.
pub mod Buckets
pub mod Speeds
pub mod Texts
pub mod Bandwidth
use dan.Common.{
  ℕ, zero, suc, ◌*◌, ◌^◌, ◌+◌, Bool, true, false, ◌&&◌, Bytes, bytes_eq, ltb, ◌==◌, if◌then◌else◌,
  ℤ,
}
use dan.Common.Double.{Doubles}

pub data Phase : Type 0 where
  decode prefill : Phase

abbrev pub phase_eq : Phase → Phase → Bool
phase_eq decode decode = true
phase_eq prefill prefill = true
phase_eq _ _ = false

abbrev pub max_speed_records : ℕ
max_speed_records = 64

abbrev pub speed_max_age_s : ℕ
speed_max_age_s = 7 * 24 * 3600

abbrev pub confident_samples : ℕ
confident_samples = 32

-- `max_us_per_gib`, 1e9.
abbrev pub max_us_per_gib : ℕ
max_us_per_gib = 1_000_000_000

-- `while (bucket < wanted && bucket < limit) bucket *= 2;`
unfoldable pub bucket_loop : ℕ → ℕ → ℕ → ℕ → ℕ
bucket_loop zero limit wanted bucket = bucket
bucket_loop (suc fuel) limit wanted bucket =
    let rest = bucket_loop fuel limit wanted (bucket * 2) in
    if ltb bucket wanted && ltb bucket limit then rest else bucket

-- From 512 there are 11 doublings to the limit, and from 1 there are 6.
unfoldable pub context_bucket : ℕ → ℕ
unfolding bucket_loop
context_bucket context = bucket_loop 11 (2 ^ 20) context 512

unfoldable pub sessions_bucket : ℕ → ℕ
unfolding bucket_loop
sessions_bucket sessions = bucket_loop 6 64 sessions 1

pub record SpeedKey : Type 0 where
  pub model_sha256 : Bytes
  pub phase : Phase
  pub context : ℕ
  pub sessions : ℕ

unfoldable pub key_eq : SpeedKey → SpeedKey → Bool
key_eq a b =
    bytes_eq a.model_sha256 b.model_sha256
    && phase_eq a.phase b.phase
    && a.context == b.context
    && a.sessions == b.sessions

pub record SpeedRecord (d : Doubles) : Type 0 where
  pub key : SpeedKey
  pub us_per_gib : d.Double
  pub samples : ℕ
  pub updated_unix_s : ℤ
