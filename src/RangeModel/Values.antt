-- ===== src/RangeModel/Values.antt =====
-- range_model.cpp, lines 122 to 161: metadata values that are skipped, and the keys that are kept.
use dan.Common.{
  ℕ, zero, suc, Bool, false, ◌||◌, List, [], ◌∷◌, Option, none, some, Bytes, bytes_eq, ltb,
  if◌then◌else◌, ◌==◌, ◌>>=◌,
}
use dan.Common.Text.{codes, split_at}
use dan.RangeModel.{integer, skip, string}

-- The loop over an array's elements.
unfoldable pub skip_elements : ℕ → (Bytes → Option Bytes) → Bytes → Option Bytes
skip_elements zero skip_one reader = some reader
skip_elements (suc count) skip_one reader =
    skip_one reader >>= λ rest. skip_elements count skip_one rest

-- The element type and the count of an array.
abbrev pub array_head : Bytes → Option (ℕ × ℕ × Bytes)
array_head reader = do
  (element_type, rest) ← integer 4 reader
  (count, rest') ← if ltb 12 element_type then none else integer 8 rest
  if ltb 100_000_000 count then none else some (element_type, count, rest')

-- A value of a type other than an array.
unfoldable pub skip_scalar : ℕ → Bytes → Option Bytes
skip_scalar type reader =
    if type == 0 || type == 1 || type == 7
    then skip 1 reader
    else if type == 2 || type == 3
    then skip 2 reader
    else if type == 4 || type == 5 || type == 6
    then skip 4 reader
    else if type == 10 || type == 11 || type == 12
    then skip 8 reader
    else if type == 8
    then (string reader >>= λ found. some found.1)
    else none

-- The first argument is 5 - depth, so that it is 0 where `depth > 4`.
unfoldable pub skip_value : ℕ → ℕ → Bytes → Option Bytes
unfolding skip_elements skip_scalar
skip_value zero type reader = none
skip_value (suc levels) type reader =
    let elements =
      array_head reader >>= λ head. skip_elements head.1 (skip_value levels head.0) head.2 in
    if type == 9 then elements else skip_scalar type reader

abbrev pub suffixes : List Bytes
suffixes =
    codes ".block_count"
    ∷ codes ".embedding_length"
    ∷ codes ".attention.head_count"
    ∷ codes ".attention.head_count_kv"
    ∷ codes ".expert_count"
    ∷ codes ".expert_used_count"
    ∷ codes ".feed_forward_length"
    ∷ codes ".context_length"
    ∷ codes ".expert_feed_forward_length"
    ∷ codes ".attention.key_length"
    ∷ codes ".attention.value_length"
    ∷ []

abbrev pub is_one_of : List Bytes → Bytes → Bool
is_one_of [] text = false
is_one_of (candidate ∷ candidates) text = bytes_eq text candidate || is_one_of candidates text

unfoldable pub architecture_key : Bytes → Bool
architecture_key key = elim (split_at b'.' key) [
  | none ↦ false
  | some (before, after) ↦ is_one_of suffixes (b'.' ∷ after)
]
