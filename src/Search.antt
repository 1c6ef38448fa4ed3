-- ===== src/Search.antt =====
-- engine/include/provider_owned/search.hpp and engine/search.cpp, lines 11 to 46: what the search for a
-- plan looks at. Layers are natural numbers; 64-bit sums and differences keep their modulus.
pub mod Sizes
pub mod Times
pub mod FirstToken
pub mod Pool
pub mod Split
use dan.Common.{
  ℕ, ◌+◌, ◌-◌, ◌*◌, ◌%◌, ◌^◌, Bool, true, false, ◌&&◌, List, Option, Bytes, ltb, ◌==◌,
  if◌then◌else◌, get_or,
}
use dan.Common.Double.{Doubles}

-- Unsigned 64-bit addition and subtraction.
abbrev pub add64 : ℕ → ℕ → ℕ
add64 a b = (a + b) % 2 ^ 64

abbrev pub sub64 : ℕ → ℕ → ℕ
sub64 a b = (a + 2 ^ 64 - b) % 2 ^ 64

pub record Link (d : Doubles) : Type 0 where
  pub peer : Bytes
  pub rtt_ms : d.Double
  pub relayed : Bool
  pub mib_per_s : d.Double

pub record SearchCandidate (d : Doubles) : Type 0 where
  pub offered_mib : ℕ
  pub us_per_gib : d.Double
  pub rtt_ms : d.Double
  pub relayed : Bool
  pub prefill_us_per_gib : d.Double
  pub cached : List (ℕ × ℕ)
  pub key : Bytes
  pub links : List (Link d)

pub record SearchRequest (d : Doubles) : Type 0 where
  pub context : ℕ
  pub sessions : ℕ
  pub minimum_stages : ℕ
  pub maximum_stages : ℕ
  pub head : Option ℕ
  pub work_budget : ℕ
  pub pool_limit : ℕ
  pub cached_tolerance : d.Double
  pub relay_penalty_ms : d.Double
  pub prompt_rows : ℕ
  pub chunk_rows : ℕ
  pub row_bytes : ℕ
  pub first_token_limit_ms : d.Double

-- `Sizes`
pub record LayerSizes : Type 0 where
  pub header : ℕ
  pub embedding : ℕ
  pub prefix : List ℕ
  pub whole_overlap : ℕ
  pub kv_per_layer : ℕ
  pub layers : ℕ

-- The methods of `Sizes`.
unfoldable pub model_size : LayerSizes → ℕ → ℕ → ℕ
model_size s begin end =
    sub64 (sub64 (add64 s.header (get_or s.prefix end 0)) (get_or s.prefix begin 0))
      (if begin == 0 && end == s.layers then s.whole_overlap else 0)

unfoldable pub decode_size : LayerSizes → ℕ → ℕ → ℕ
unfolding model_size
decode_size s begin end =
    let bytes = model_size s begin end in
    if begin == 0 && ltb s.embedding bytes then bytes - s.embedding else bytes

unfoldable pub kv_size : LayerSizes → ℕ → ℕ → ℕ
kv_size s begin end = s.kv_per_layer * (end - begin) % 2 ^ 64
