-- ===== src/RangeModel/Ranges/Owned.antt =====
-- range_model.cpp, required_ranges: the ranges hold exactly the bytes that planning counts.
use dan.Common.{
  ℕ, ◌+◌, ◌-◌, ◌≡◌, refl, Bool, ◌&&◌, not, List, [], ◌∷◌, ◌++◌, Bytes, bytes_eq, ◌==◌,
  if◌then◌else◌, arith, Bool-cases, inl, inr,
}
use dan.Common.Text.{codes}
use dan.Model.{ModelTensor}
use dan.RangeModel.{Tensor, Range}
use dan.RangeModel.Fill.{fill_tensors}
use dan.RangeModel.Ranges.{Ranges, add_span, add_tensor, finish_of, range_loop, ranges_of}

abbrev pub total_size : List Range → ℕ
total_size [] = 0
total_size (r ∷ rs) = r.size + total_size rs

-- The bytes of the tensors that a stage owns, and their number.
abbrev pub owned_bytes : (Bytes → Bool) → List ModelTensor → ℕ
owned_bytes owned [] = 0
owned_bytes owned (t ∷ ts) =
    if owned t.name then t.bytes + owned_bytes owned ts else owned_bytes owned ts

total_size-append :
    (rs : List Range) (r : Range) → total_size (rs ++ r ∷ []) ≡ total_size rs + r.size
total_size-append [] r = omega arith
total_size-append (s ∷ rs) r = omega (arith, total_size-append rs r)

add_span-total :
    (r : Ranges) (start finish : ℕ)
    → total_size (ranges_of (add_span r start finish)) ≡ total_size (ranges_of r) + (finish - start)
add_span-total r start finish = elim (Bool-cases (r.last.offset + r.last.size == start)) [
  | inl e ↦ rw e (
      omega (
        arith,
        total_size-append r.front (record r.last { size = r.last.size + (finish - start) }),
        total_size-append r.front r.last,
      ))
  | inr e ↦ rw e (
      total_size-append (r.front ++ r.last ∷ [])
        (record { offset = start; size = finish - start; sha256 = [] }))
]

add_tensor-total :
    (begin : ℕ) (r : Ranges) (name : Bytes) (start finish : ℕ)
    → total_size (ranges_of (add_tensor begin r name start finish))
      ≡ total_size (ranges_of r) + (finish - start)
add_tensor-total begin r name start finish =
    add_span-total
      (record r {
        tensor_count = r.tensor_count + 1;
        shared_bytes =
            if bytes_eq name (codes "token_embd.weight") && not (begin == 0)
            then r.shared_bytes + (finish - start)
            else r.shared_bytes;
      })
      start finish

-- The bytes of the head of a list of tensors: up to the next one, or to the end of the data.
head_bytes :
    (offset end : ℕ) (t : Tensor) (ts : List Tensor) (size : ℕ)
    → size ≡ offset + end
    → (owned : Bytes → Bool)
    → owned_bytes owned (fill_tensors end (t ∷ ts)) ≡ (
        if owned t.name
        then finish_of offset size ts
          - (offset + t.offset)
          + owned_bytes owned (fill_tensors end ts)
        else owned_bytes owned (fill_tensors end ts))
unfolding fill_tensors
head_bytes offset end t [] size e owned = ground (arith, e)
head_bytes offset end t (u ∷ ts) size e owned = ground (arith, e)

pub range_loop-total :
    (owned : Bytes → Bool) (begin offset end size : ℕ) (r : Ranges) (ts : List Tensor)
    → size ≡ offset + end
    → total_size (ranges_of (range_loop owned begin offset size r ts))
      ≡ total_size (ranges_of r) + owned_bytes owned (fill_tensors end ts)
unfolding range_loop fill_tensors
range_loop-total owned begin offset end size r [] e = omega arith
range_loop-total owned begin offset end size r (t ∷ ts) e = elim (Bool-cases (owned t.name)) [
  | inr other ↦
      let step : range_loop owned begin offset size r (t ∷ ts)
          ≡ range_loop owned begin offset size r ts =
        rw (other, range_loop) refl in
      rw (step, head_bytes offset end t ts size e owned, other)
        (range_loop-total owned begin offset end size r ts e)
  | inl mine ↦
      let start = offset + t.offset in
      let finish = finish_of offset size ts in
      let taken = add_tensor begin r t.name start finish in
      let rest = range_loop-total owned begin offset end size taken ts e in
      let step : range_loop owned begin offset size r (t ∷ ts)
          ≡ range_loop owned begin offset size taken ts =
        rw (mine, range_loop) refl in
      rw (step, head_bytes offset end t ts size e owned, mine)
        (omega (arith, rest, add_tensor-total begin r t.name start finish))
]
