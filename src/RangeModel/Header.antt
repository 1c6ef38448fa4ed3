-- ===== src/RangeModel/Header.antt =====
-- range_model.cpp, lines 163 to 264: parse_index, the header of a GGUF file.
pub mod Sound
use dan.Common.{
  ℕ, zero, suc, ◌+◌, ◌-◌, ◌*◌, ◌%◌, ◌^◌, bit_and, Bool, true, false, not, ◌&&◌, ◌||◌, List, [], ◌∷◌,
  ◌++◌, Option, none, some, Bytes, bytes_eq, ltb, leb, ◌==◌, if◌then◌else◌, ◌>>=◌, length,
}
use dan.Common.Text.{codes}
use dan.Protocol.Endpoints.{is_empty}
use dan.RangeModel.{Tensor, Index, integer, string}
use dan.RangeModel.Values.{skip_value, architecture_key}

-- `ParseResult`, with what a complete parse has written.
pub data ParseResult {ℓ} (A : Type ℓ) : Type ℓ where
  complete : A → ParseResult A
  incomplete invalid : ParseResult A

infixl 5 ◌then_parse◌
abbrev pub ◌then_parse◌ {ℓ κ} :
    {A : Type ℓ} {B : Type κ} → ParseResult A → (A → ParseResult B) → ParseResult B
complete x then_parse f = f x
incomplete then_parse f = incomplete
invalid then_parse f = invalid

-- `if (!reader...) return ParseResult::incomplete`
abbrev pub or_incomplete {ℓ} : {A : Type ℓ} → Option A → ParseResult A
or_incomplete none = incomplete
or_incomplete (some x) = complete x

abbrev pub or_invalid {ℓ} : {A : Type ℓ} → Bool → A → ParseResult A
or_invalid test x = if test then invalid else complete x

-- What the loop over the metadata has gathered.
pub record Metadata : Type 0 where
  pub architecture : Bytes
  pub alignment : ℕ
  pub geometry : List (Bytes × ℕ)

-- The value of one key.
unfoldable pub take_metadata : Metadata → Bytes → ℕ → Bytes → Option (Metadata × Bytes)
unfolding skip_value architecture_key
take_metadata m key type reader =
    if bytes_eq key (codes "general.architecture") && type == 8
    then (string reader >>= λ found. some (record m { architecture = found.0 }, found.1))
    else if architecture_key key && type == 4
    then (integer 4 reader >>= λ found.
        some (record m { geometry = m.geometry ++ (key, found.0) ∷ [] }, found.1))
    else if bytes_eq key (codes "general.alignment") && type == 4
    then (integer 4 reader >>= λ found. some (record m { alignment = found.0 }, found.1))
    else (skip_value 5 type reader >>= λ rest. some (m, rest))

abbrev pub key_and_type : Bytes → Option (Bytes × ℕ × Bytes)
key_and_type reader = do
  (key, rest) ← string reader
  (type, rest') ← integer 4 rest
  some (key, type, rest')

unfoldable pub metadata_loop : ℕ → Metadata → Bytes → ParseResult (Metadata × Bytes)
unfolding take_metadata
metadata_loop zero m reader = complete (m, reader)
metadata_loop (suc count) m reader = or_incomplete (key_and_type reader) then_parse λ found.
    or_invalid (ltb 12 found.1) found then_parse λ found.
    or_incomplete (take_metadata m found.0 found.1 found.2) then_parse λ next.
    metadata_loop count next.0 next.1

unfoldable pub dimensions_loop : ℕ → Bytes → Option (List ℕ × Bytes)
dimensions_loop zero reader = some ([], reader)
dimensions_loop (suc count) reader = do
  (size, rest) ← integer 8 reader
  (sizes, rest') ← dimensions_loop count rest
  some (size ∷ sizes, rest')

-- The name and the number of dimensions.
abbrev pub tensor_head : Bytes → Option (Bytes × ℕ × Bytes)
tensor_head reader = do
  (name, rest) ← string reader
  (dimensions, rest') ← if is_empty name then none else integer 4 rest
  some (name, dimensions, rest')

abbrev pub tensor_rest : Bytes → ℕ → Bytes → Option (Tensor × Bytes)
tensor_rest name count reader = do
  (dimensions, rest) ← dimensions_loop count reader
  (type, rest') ← integer 4 rest
  (offset, rest'') ← integer 8 rest'
  some (record { name = name; offset = offset; dimensions = dimensions; type = type }, rest'')

unfoldable pub tensors_loop : ℕ → Bytes → ParseResult (List Tensor × Bytes)
unfolding dimensions_loop
tensors_loop zero reader = complete ([], reader)
tensors_loop (suc count) reader = or_incomplete (tensor_head reader) then_parse λ found.
    or_invalid (found.1 == 0 || ltb 4 found.1) found then_parse λ found.
    or_incomplete (tensor_rest found.0 found.1 found.2) then_parse λ first.
    tensors_loop count first.1 then_parse λ others. complete (first.0 ∷ others.0, others.1)

-- `std::sort` by the offset; equal offsets are refused behind it.
abbrev pub insert_tensor : Tensor → List Tensor → List Tensor
insert_tensor t [] = t ∷ []
insert_tensor t (u ∷ us) = if ltb u.offset t.offset then u ∷ insert_tensor t us else t ∷ u ∷ us

unfoldable pub sort_tensors : List Tensor → List Tensor
sort_tensors [] = []
sort_tensors (t ∷ ts) = insert_tensor t (sort_tensors ts)

-- The loop over the sorted tensors: each offset below `limit` and above the one before.
unfoldable pub valid_offsets : ℕ → List Tensor → Bool
valid_offsets limit [] = true
valid_offsets limit (t ∷ []) = ltb t.offset limit
valid_offsets limit (t ∷ u ∷ ts) =
    ltb t.offset limit && ltb t.offset u.offset && valid_offsets limit (u ∷ ts)

-- `(alignment & (alignment - 1)) != 0`
abbrev pub valid_alignment : ℕ → Bool
valid_alignment alignment =
    not (alignment == 0) && leb alignment (1024 * 1024) && bit_and alignment (alignment - 1) == 0

-- `(metadata_end + alignment - 1) & ~(alignment - 1)` in 64 bits.
abbrev pub aligned_end : ℕ → ℕ → ℕ
aligned_end metadata_end alignment =
    bit_and ((metadata_end + alignment - 1) % 2 ^ 64) (2 ^ 64 - alignment)

-- The first value of the key `<architecture>.<suffix>`, and 0 where there is none.
unfoldable pub geometry_value : Bytes → List (Bytes × ℕ) → ℕ
geometry_value key [] = 0
geometry_value key ((name, value) ∷ rest) =
    if bytes_eq name key then value else geometry_value key rest

unfoldable pub make_index : Metadata → ℕ → ℕ → List Tensor → Index
unfolding geometry_value
make_index m logical_size data_offset tensors =
    let value : Bytes → ℕ = λ suffix. geometry_value (m.architecture ++ b'.' ∷ suffix) m.geometry in
    record {
      architecture = m.architecture;
      layers = value (codes "block_count");
      hidden = value (codes "embedding_length");
      heads = value (codes "attention.head_count");
      kv_heads = value (codes "attention.head_count_kv");
      experts = value (codes "expert_count");
      experts_used = value (codes "expert_used_count");
      ffn_length = value (codes "feed_forward_length");
      trained_context = value (codes "context_length");
      expert_ffn_length = value (codes "expert_feed_forward_length");
      head_dim_k = value (codes "attention.key_length");
      head_dim_v = value (codes "attention.value_length");
      logical_size = logical_size;
      data_offset = data_offset;
      alignment = m.alignment;
      tensors = tensors;
    }

-- The four words in front: the magic, the version and the two counts.
abbrev pub read_counts : Bytes → Option (ℕ × ℕ × ℕ × ℕ × Bytes)
read_counts reader = do
  (magic, r1) ← integer 4 reader
  (version, r2) ← integer 4 r1
  (tensor_count, r3) ← integer 8 r2
  (metadata_count, r4) ← integer 8 r3
  some (magic, version, tensor_count, metadata_count, r4)

abbrev pub bad_counts : ℕ → ℕ → ℕ → ℕ → Bool
bad_counts magic version tensor_count metadata_count =
    not (magic == 0x46554747)
    || ltb version 2
    || ltb 3 version
    || tensor_count == 0
    || ltb 1000000 tensor_count
    || ltb 1000000 metadata_count

-- Behind the two loops: the offset of the data, the sorted tensors and their checks.
unfoldable pub finish_index : ℕ → Metadata → ℕ → List Tensor → ParseResult Index
unfolding sort_tensors valid_offsets make_index
finish_index logical_size m metadata_end tensors =
    let data_offset = aligned_end metadata_end m.alignment in
    let sorted = sort_tensors tensors in
    or_invalid
      (leb logical_size data_offset || not (valid_offsets (logical_size - data_offset) sorted))
      (make_index m logical_size data_offset sorted)

unfoldable pub parse_index : Bytes → ℕ → ParseResult Index
unfolding metadata_loop tensors_loop finish_index
parse_index bytes logical_size = or_incomplete (read_counts bytes) then_parse λ h.
    or_invalid (bad_counts h.0 h.1 h.2 h.3) h then_parse λ h.
    metadata_loop h.3 (record { architecture = []; alignment = 32; geometry = [] }) h.4
    then_parse λ found.
        or_invalid (not (valid_alignment found.0.alignment)) found then_parse λ found.
        tensors_loop h.2 found.1 then_parse λ listed.
        finish_index logical_size found.0 (length bytes - length listed.1) listed.0
