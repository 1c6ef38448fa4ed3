-- ===== src/Protocol/Endpoints/Targets.antt =====
-- protocol.hpp: an accepted address has no newline in it, so it fits in one line of a message.
use dan.Common.{
  ℕ, ◌≡◌, refl, ap, Bool, true, false, not, [], ◌∷◌, Bytes, all, arith, &&-true, Bool-cases, inl,
  inr, Option-cases,
}
use dan.Common.Text.Decimal.{lacks}
use dan.Protocol.Peers.{is_base58, valid_peer_id}
use dan.Protocol.Endpoints.{
  split_last, lacks_blanks, is_blank, valid_endpoint, is_target_byte, valid_ring_target,
}

-- A text all of whose bytes pass a test that the mark fails.
pub all-lacks :
    (p : ℕ → Bool) (mark : ℕ)
    → p mark ≡ false
    → (text : Bytes) → all p text ≡ true
    → lacks mark text ≡ true
all-lacks p mark m [] h = refl
all-lacks p mark m (c ∷ text) h =
    let (first, rest) = &&-true (p c) (all p text) h in
    let tail = all-lacks p mark m text rest in ground (arith, ap p {x = c} {y = mark})

pub valid_peer_id-lacks : (value : Bytes) → valid_peer_id value ≡ true → lacks b'\n' value ≡ true
unfolding valid_peer_id
valid_peer_id-lacks value h =
    let checked : all is_base58 value ≡ true = ground (arith, h) in
    all-lacks is_base58 b'\n' refl value checked

valid_endpoint-lacks : (value : Bytes) → valid_endpoint value ≡ true → lacks b'\n' value ≡ true
unfolding valid_endpoint
valid_endpoint-lacks [] h = refl
valid_endpoint-lacks (c ∷ value) h = elim (Option-cases (split_last b':' (c ∷ value))) [
  | inl e ↦ absurd (ground (arith, h, e))
  | inr ((host, port), e) ↦
      let checked : lacks_blanks (c ∷ value) ≡ true = ground (arith, h, e) in
      all-lacks (λ b. not (is_blank b)) b'\n' refl (c ∷ value) checked
]

pub valid_ring_target-lacks :
    (value : Bytes) → valid_ring_target value ≡ true → lacks b'\n' value ≡ true
unfolding valid_ring_target
valid_ring_target-lacks value h = elim (Bool-cases (valid_endpoint value)) [
  | inl e ↦ valid_endpoint-lacks value e
  | inr e ↦
      let checked : all is_target_byte value ≡ true = ground (arith, h, e) in
      all-lacks is_target_byte b'\n' refl value checked
]
