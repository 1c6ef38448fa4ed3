-- ===== src/RangeModel.antt =====
-- engine/range_model.cpp, lines 33 to 121: the parsed header of a GGUF file, and the reader of its bytes.
-- A reader is the bytes behind its cursor.
pub mod Values
pub mod Header
pub mod Fill
pub mod Ranges
use dan.Common.{
  ℕ, zero, suc, ◌+◌, ◌*◌, ◌^◌, Bool, true, false, ◌||◌, List, [], ◌∷◌, Option, none, some, Bytes,
  ltb, leb, if◌then◌else◌, ◌>>=◌, length, take, drop,
}

pub record Tensor : Type 0 where
  pub name : Bytes
  pub offset : ℕ
  pub dimensions : List ℕ
  pub type : ℕ

pub record Index : Type 0 where
  pub architecture : Bytes
  pub layers : ℕ
  pub hidden : ℕ
  pub heads : ℕ
  pub kv_heads : ℕ
  pub experts : ℕ
  pub experts_used : ℕ
  pub ffn_length : ℕ
  pub trained_context : ℕ
  pub expert_ffn_length : ℕ
  pub head_dim_k : ℕ
  pub head_dim_v : ℕ
  pub logical_size : ℕ
  pub data_offset : ℕ
  pub alignment : ℕ
  pub tensors : List Tensor

pub record Range : Type 0 where
  pub offset : ℕ
  pub size : ℕ
  pub sha256 : Bytes

abbrev pub metadata_chunk : ℕ
metadata_chunk = 1024 * 1024

abbrev pub max_metadata : ℕ
max_metadata = 64 * 1024 * 1024

abbrev pub download_chunk : ℕ
download_chunk = 256 * 1024 * 1024

-- `available` and the bytes up to the new cursor.
unfoldable pub read_bytes : ℕ → Bytes → Option (Bytes × Bytes)
read_bytes count reader =
    if leb count (length reader) then some (take count reader, drop count reader) else none

-- `value |= static_cast<T>(byte) << (i * 8)` over the bytes, which keep apart.
abbrev pub little_endian : Bytes → ℕ
little_endian [] = 0
little_endian (byte ∷ bytes) = byte + 256 * little_endian bytes

unfoldable pub integer : ℕ → Bytes → Option (ℕ × Bytes)
unfolding read_bytes
integer size reader = do (bytes, rest) ← read_bytes size reader; some (little_endian bytes, rest)

unfoldable pub skip : ℕ → Bytes → Option Bytes
skip count reader = if leb count (length reader) then some (drop count reader) else none

unfoldable pub string : Bytes → Option (Bytes × Bytes)
unfolding integer
string reader = do
  (size, rest) ← integer 8 reader
  if ltb (1024 * 1024 * 32) size then none else read_bytes size rest
