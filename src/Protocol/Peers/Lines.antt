-- ===== src/Protocol/Peers/Lines.antt =====
-- protocol.hpp, parse_peer_id: which lines it accepts.
use dan.Common.{
  ◌≡◌, ◌↔◌, refl, ap, ◌∙◌, sym, true, [], ◌∷◌, ◌++◌, some, Bytes, length, drop, arith, Bool-cases,
  inl, inr,
}
use dan.Common.Text.{starts_with}
use dan.Protocol.Peers.{peer_prefix, valid_peer_id, parse_peer_id}

starts_with-cut :
    (text prefix : Bytes)
    → starts_with text prefix ≡ true
    → text ≡ prefix ++ drop (length prefix) text
starts_with-cut text [] h = refl
starts_with-cut [] (c ∷ prefix) h = cc
starts_with-cut (x ∷ text) (c ∷ prefix) h = ground (arith, starts_with-cut text prefix)

accepted :
    (line id : Bytes)
    → parse_peer_id line ≡ some id
    → (starts_with line peer_prefix ≡ true) × (drop 10 line ≡ id) × (valid_peer_id id ≡ true)
unfolding parse_peer_id valid_peer_id
accepted line id h = elim (Bool-cases (starts_with line peer_prefix)) [
  | inr e ↦ absurd (ground (arith, rw e at h))
  | inl e ↦ elim (Bool-cases (valid_peer_id (drop 10 line))) [
    | inr f ↦ absurd (ground (arith, h, e, f))
    | inl f ↦
        let q : drop 10 line ≡ id = ground (arith, h, e, f) in (e, q, sym (ap valid_peer_id q) ∙ f)
  ]
]

-- `parse_peer_id` accepts exactly the lines that are the prefix and a valid peer id, and answers the
-- id.
pub parse_peer_id_iff :
    (line id : Bytes)
    → (parse_peer_id line ≡ some id) ↔ ((line ≡ peer_prefix ++ id) × (valid_peer_id id ≡ true))
unfolding parse_peer_id valid_peer_id
parse_peer_id_iff line id = (
  λ h.
      let (start, cut, valid) = accepted line id h in
      (starts_with-cut line peer_prefix start ∙ ap (λ l. peer_prefix ++ l) cut, valid),
  λ (e, v). ap parse_peer_id e ∙ rw v refl,
)
