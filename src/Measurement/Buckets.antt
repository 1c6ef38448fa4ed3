-- ===== src/Measurement/Buckets.antt =====
-- measurement.hpp, context_bucket and sessions_bucket: the loops end, at the smallest bucket that is
-- large enough or at the limit.
use dan.Common.{
  ℕ, zero, suc, ◌*◌, ◌^◌, ◌≤◌, ◌<◌, ◌≡◌, ◌⊎◌, inl, inr, refl, ltb, ◌&&◌, arith, Bool-cases,
}
use dan.Measurement.{bucket_loop, context_bucket}

-- The loop's result is final: its test fails there.
abbrev IsFinal : ℕ → ℕ → ℕ → ℕ → Type 0
IsFinal limit wanted start r =
    ((wanted ≤ r) ⊎ (limit ≤ r))
    × ((r ≡ start) ⊎ ((r < wanted * 2) × (r < limit * 2)))
    × (start ≤ r)

bucket_loop-IsFinal :
    (fuel limit wanted bucket : ℕ)
    → limit ≤ bucket * 2 ^ fuel
    → IsFinal limit wanted bucket (bucket_loop fuel limit wanted bucket)
unfolding bucket_loop
bucket_loop-IsFinal zero limit wanted bucket h = (inr (grind arith), inl refl, omega arith)
bucket_loop-IsFinal (suc fuel) limit wanted bucket h =
    ground (arith, bucket_loop-IsFinal fuel limit wanted (bucket * 2) (grind arith))

bucket_loop-grows : (fuel limit wanted bucket : ℕ) → bucket ≤ bucket_loop fuel limit wanted bucket
unfolding bucket_loop
bucket_loop-grows zero limit wanted bucket = omega arith
bucket_loop-grows (suc fuel) limit wanted bucket =
    ground (arith, bucket_loop-grows fuel limit wanted (bucket * 2))

-- A bucket is its own bucket.
bucket_loop-again :
    (fuel limit wanted bucket : ℕ)
    → bucket_loop fuel limit (bucket_loop fuel limit wanted bucket) bucket
      ≡ bucket_loop fuel limit wanted bucket
unfolding bucket_loop
bucket_loop-again zero limit wanted bucket = refl
bucket_loop-again (suc fuel) limit wanted bucket =
    elim (Bool-cases (ltb bucket wanted && ltb bucket limit)) [
      | inr e ↦ ground (arith, e)
      | inl e ↦ ground (
        arith,
        e,
        bucket_loop-again fuel limit wanted (bucket * 2),
        bucket_loop-grows fuel limit wanted (bucket * 2),
      )
    ]

-- The loop of `context_bucket` has come to its end: the bucket is large enough or the limit 2^20, and
-- half of it would not have been, unless it is 512; a bucket is its own bucket.
pub context_bucket_lem :
    (context : ℕ)
    → ((context ≤ context_bucket context) ⊎ (2 ^ 20 ≤ context_bucket context))
      × ((context_bucket context ≡ 512)
          ⊎ ((context_bucket context < context * 2) × (context_bucket context < 2 ^ 20 * 2)))
      × (512 ≤ context_bucket context)
      × (context_bucket (context_bucket context) ≡ context_bucket context)
unfolding context_bucket
context_bucket_lem context =
    let (a, b, c) = bucket_loop-IsFinal 11 (2 ^ 20) context 512 (omega arith) in
    (a, b, c, bucket_loop-again 11 (2 ^ 20) context 512)
