-- ===== src/RangeModel/Ranges.antt =====
-- range_model.cpp, lines 470 to 505: the byte ranges of a file that a stage needs, and their pieces.
-- The layers `begin` and `end` are not negative.
pub mod Owned
pub mod Pieces
pub mod Planned
use dan.Common.{
  ℕ, zero, suc, ◌+◌, ◌-◌, ◌/◌, ◌%◌, ◌^◌, Bool, true, false, not, ◌&&◌, List, [], ◌∷◌, ◌++◌, Option,
  none, some, Bytes, bytes_eq, ltb, ◌==◌, if◌then◌else◌, min, max, ℤ, pos, negsuc,
}
use dan.Common.Text.{codes}
use dan.Model.{any, block_layer, owned_tensor}
use dan.RangeModel.{Tensor, Index, Range, download_chunk}

-- `layers = std::max(layers, *layer + 1)`, never below 0.
abbrev pub more_layers : ℕ → Option ℤ → ℕ
more_layers layers none = layers
more_layers layers (some (pos layer)) = max layers (layer + 1)
more_layers layers (some (negsuc layer)) = layers

unfoldable pub count_layers : ℕ → List Tensor → ℕ
unfolding block_layer
count_layers layers [] = layers
count_layers layers (t ∷ ts) = count_layers (more_layers layers (block_layer t.name)) ts

-- The ranges so far are those in front of `last`, and `last` at the back.
pub record Ranges : Type 0 where
  pub front : List Range
  pub last : Range
  pub tensor_count : ℕ
  pub shared_bytes : ℕ

abbrev pub add_span : Ranges → ℕ → ℕ → Ranges
add_span r start finish =
    if r.last.offset + r.last.size == start
    then record r { last = record r.last { size = r.last.size + (finish - start) } }
    else record r {
      front = r.front ++ r.last ∷ [];
      last = record { offset = start; size = finish - start; sha256 = [] };
    }

-- One owned tensor of the loop, from `start` to `finish`.
abbrev pub add_tensor : ℕ → Ranges → Bytes → ℕ → ℕ → Ranges
add_tensor begin r name start finish =
    let shared = bytes_eq name (codes "token_embd.weight") && not (begin == 0) in
    add_span
      (record r {
        tensor_count = r.tensor_count + 1;
        shared_bytes = if shared then r.shared_bytes + (finish - start) else r.shared_bytes;
      })
      start finish

-- Where a tensor's bytes end: at the next tensor, or at the end of the file.
abbrev pub finish_of : ℕ → ℕ → List Tensor → ℕ
finish_of data_offset logical_size [] = logical_size
finish_of data_offset logical_size (next ∷ rest) = data_offset + next.offset

unfoldable pub range_loop : (Bytes → Bool) → ℕ → ℕ → ℕ → Ranges → List Tensor → Ranges
range_loop owned begin data_offset logical_size r [] = r
range_loop owned begin data_offset logical_size r (t ∷ ts) =
    let start = data_offset + t.offset in
    let taken = add_tensor begin r t.name start (finish_of data_offset logical_size ts) in
    range_loop owned begin data_offset logical_size (if owned t.name then taken else r) ts

unfoldable pub required_ranges : Index → ℕ → ℕ → Ranges
unfolding owned_tensor count_layers range_loop
required_ranges index begin end =
    let layers = count_layers 0 index.tensors in
    let output_present =
      any (λ (t : Tensor). bytes_eq t.name (codes "output.weight")) index.tensors in
    range_loop (λ name. owned_tensor name begin end layers output_present) begin index.data_offset
      index.logical_size
      (record {
        front = [];
        last = record { offset = 0; size = index.data_offset; sha256 = [] };
        tensor_count = 0;
        shared_bytes = 0;
      })
      index.tensors

-- The vector that the loop leaves.
abbrev pub ranges_of : Ranges → List Range
ranges_of r = r.front ++ r.last ∷ []

-- The inner loop from `consumed` bytes on. The offset is a u64 in the code: it does not wrap for a
-- range that ends below 2^64, as those of an accepted header do.
unfoldable pub piece_loop : ℕ → Range → ℕ → List Range
piece_loop zero range consumed = []
piece_loop (suc fuel) range consumed =
    let size = min download_chunk (range.size - consumed) in
    let rest = piece_loop fuel range (consumed + size) in
    if ltb consumed range.size
    then record { offset = range.offset + consumed; size = size; sha256 = [] } ∷ rest
    else []

-- Each round but the last takes a whole chunk, so the fuel is one more than the chunks of the range.
unfoldable pub bounded_ranges : List Range → List Range
unfolding piece_loop
bounded_ranges [] = []
bounded_ranges (range ∷ ranges) =
    piece_loop (range.size / download_chunk + 1) range 0 ++ bounded_ranges ranges
