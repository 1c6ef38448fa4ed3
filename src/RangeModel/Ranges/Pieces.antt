-- ===== src/RangeModel/Ranges/Pieces.antt =====
-- range_model.cpp, bounded_ranges: the pieces of a range are the range, chunk by chunk.
use mathlib.Core.Path.{subst}
use dan.Common.{
  ℕ, zero, suc, ◌+◌, ◌-◌, ◌*◌, ◌/◌, ◌≤◌, ◌<◌, ◌≡◌, Bool, true, ◌&&◌, List, [], ◌∷◌, ◌++◌, ltb, leb,
  ◌==◌, min, arith, Bool-cases, inl, inr,
}
use dan.RangeModel.{Range, download_chunk}
use dan.RangeModel.Ranges.{piece_loop, bounded_ranges}

-- The pieces follow one another from `at` to `end` without a gap, none empty and none above a chunk.
abbrev pub tiles : ℕ → ℕ → List Range → Bool
tiles at end [] = at == end
tiles at end (r ∷ rs) =
    r.offset == at && ltb 0 r.size && leb r.size download_chunk && tiles (at + r.size) end rs

head_piece :
    (at size end : ℕ) (rest : List Range)
    → 0 < size
    → size ≤ download_chunk
    → tiles (at + size) end rest ≡ true
    → tiles at end (record { offset = at; size = size; sha256 = [] } ∷ rest) ≡ true
head_piece at size end rest h k t = ground (arith, t)

piece_loop-tiles :
    (fuel : ℕ) (range : Range) (consumed : ℕ)
    → consumed ≤ range.size
    → range.size - consumed ≤ fuel * download_chunk
    → tiles (range.offset + consumed) (range.offset + range.size) (piece_loop fuel range consumed)
      ≡ true
unfolding piece_loop
piece_loop-tiles zero range consumed h k = ground (arith, h, k)
piece_loop-tiles (suc fuel) range consumed h k = elim (Bool-cases (ltb consumed range.size)) [
  | inr over ↦ ground (arith, over)
  | inl more ↦
      let size = min download_chunk (range.size - consumed) in
      let next =
        piece_loop-tiles fuel range (consumed + size) (ground (arith, more))
          (ground (arith, more, k)) in
      let at_next : tiles (range.offset + consumed + size) (range.offset + range.size)
            (piece_loop fuel range (consumed + size))
          ≡ true =
        subst
          (λ at.
            tiles at (range.offset + range.size) (piece_loop fuel range (consumed + size)) ≡ true)
          (omega arith) next in
      rw more (
        head_piece (range.offset + consumed) size (range.offset + range.size)
          (piece_loop fuel range (consumed + size)) (ground (arith, more)) (ground arith) at_next)
]

-- The pieces of several ranges are the pieces of each, in their order.
pub data Tiling : List Range → List Range → Type 0 where
  no_ranges : Tiling [] []
  next_range :
      (range : Range) (ranges pieces others : List Range)
      → tiles range.offset (range.offset + range.size) pieces ≡ true
      → Tiling ranges others
      → Tiling (range ∷ ranges) (pieces ++ others)

-- The loop of `bounded_ranges` ends for every range: the pieces of each range follow one another from
-- its first byte to its last without a gap or an overlap, each has a byte and at most a chunk, and the
-- pieces of the ranges stand in the order of the ranges.
pub bounded_ranges-Tiling : (ranges : List Range) → Tiling ranges (bounded_ranges ranges)
unfolding bounded_ranges
bounded_ranges-Tiling [] = no_ranges
bounded_ranges-Tiling (range ∷ ranges) =
    let rounds = range.size / download_chunk + 1 in
    let tiled : tiles range.offset (range.offset + range.size) (piece_loop rounds range 0) ≡ true =
      subst (λ at. tiles at (range.offset + range.size) (piece_loop rounds range 0) ≡ true)
        (omega arith) (piece_loop-tiles rounds range 0 (omega arith) (omega arith)) in
    next_range range ranges (piece_loop rounds range 0) (bounded_ranges ranges) tiled
      (bounded_ranges-Tiling ranges)
