-- ===== src/Protocol/Words/Inverse.antt =====
-- Reading a word back from the bytes that were written for it.
use dan.Common.{ℕ, ◌+◌, ◌*◌, ◌/◌, ◌%◌, ◌^◌, ◌<◌, ◌≡◌, ap, ◌∙◌, bit_or, arith}
use dan.Common.Bits.{bit_or_disjoint}

-- One byte below a value that leaves room for it.
pub push_byte : (v b : ℕ) → b < 256 → bit_or (v * 2 ^ 8) b ≡ v * 256 + b
push_byte v b h = bit_or_disjoint 8 v b h

pub join16 : (v : ℕ) → v < 2 ^ 16 → bit_or (v / 2 ^ 8 % 256 * 2 ^ 8) (v % 256) ≡ v
join16 v h = omega (arith, push_byte (v / 2 ^ 8 % 256) (v % 256) (omega arith))

join_high : (a b : ℕ) → b < 256 → bit_or (a * 2 ^ 24) (b * 2 ^ 16) ≡ (a * 256 + b) * 2 ^ 16
join_high a b h = bit_or_disjoint 24 a (b * 2 ^ 16) (omega arith) ∙ omega arith

join_middle : (a b : ℕ) → b < 256 → bit_or (a * 2 ^ 16) (b * 2 ^ 8) ≡ (a * 256 + b) * 2 ^ 8
join_middle a b h = bit_or_disjoint 16 a (b * 2 ^ 8) (omega arith) ∙ omega arith

join_bytes :
    (a b c d : ℕ)
    → b < 256
    → c < 256
    → d < 256
    → bit_or (bit_or (bit_or (a * 2 ^ 24) (b * 2 ^ 16)) (c * 2 ^ 8)) d
      ≡ ((a * 256 + b) * 256 + c) * 256 + d
join_bytes a b c d hb hc hd =
    rw (join_high a b hb) (rw (join_middle (a * 256 + b) c hc) (push_byte _ d hd))

pub join32 :
    (v : ℕ)
    → v < 2 ^ 32
    → bit_or
        (bit_or
          (bit_or (v / 2 ^ 24 % 256 * 2 ^ 24) (v / 2 ^ 16 % 256 * 2 ^ 16))
          (v / 2 ^ 8 % 256 * 2 ^ 8))
        (v % 256)
      ≡ v
join32 v h =
    join_bytes (v / 2 ^ 24 % 256) (v / 2 ^ 16 % 256) (v / 2 ^ 8 % 256) (v % 256) (omega arith)
      (omega arith) (omega arith)
    ∙ omega arith

-- One round of `get64`, from the value shifted so far.
abbrev pub round64 : ℕ → ℕ → ℕ
round64 v b = bit_or (v * 2 ^ 8 % 2 ^ 64) b

round64_lem : (v : ℕ) → v < 2 ^ 64 → round64 (v / 2 ^ 8) (v % 256) ≡ v
round64_lem v h = rw small (push_byte (v / 2 ^ 8) (v % 256) (omega arith) ∙ omega arith)
  where
    small : v / 2 ^ 8 * 2 ^ 8 % 2 ^ 64 ≡ v / 2 ^ 8 * 2 ^ 8
    small = omega arith

abbrev pub shr8 : ℕ → ℕ
shr8 v = v / 2 ^ 8

-- The value without its lowest bytes, after `k` shifts.
abbrev tail2 : ℕ → ℕ
tail2 v = shr8 (shr8 v)

abbrev tail4 : ℕ → ℕ
tail4 v = tail2 (tail2 v)

join_tail :
    (v : ℕ)
    → v < 2 ^ 32
    → round64
        (round64 (round64 (round64 0 (shr8 (tail2 v) % 256)) (tail2 v % 256)) (shr8 v % 256))
        (v % 256)
      ≡ v
join_tail v h = rw top (
    rw (round64_lem (tail2 v) (omega arith))
      (rw (round64_lem (shr8 v) (omega arith)) (round64_lem v (omega arith))))
  where
    top : round64 0 (shr8 (tail2 v) % 256) ≡ shr8 (tail2 v)
    top =
        ap (λ t. round64 t (shr8 (tail2 v) % 256)) zeros
        ∙ round64_lem (shr8 (tail2 v)) (omega arith)
      where
        zeros : 0 ≡ tail4 v
        zeros = omega arith

-- The eight rounds of `get64` on the bytes that `put64` writes.
pub join64 :
    (v : ℕ)
    → v < 2 ^ 64
    → let w = tail4 v in
      let high =
        round64
          (round64 (round64 (round64 0 (shr8 (tail2 w) % 256)) (tail2 w % 256)) (shr8 w % 256))
          (w % 256) in
      round64
        (round64 (round64 (round64 high (shr8 (tail2 v) % 256)) (tail2 v % 256)) (shr8 v % 256))
        (v % 256)
      ≡ v
join64 v h = rw (join_tail (tail4 v) (omega arith)) (
    rw (round64_lem (shr8 (tail2 v)) (omega arith)) (
      rw (round64_lem (tail2 v) (omega arith))
        (rw (round64_lem (shr8 v) (omega arith)) (round64_lem v (omega arith)))))
