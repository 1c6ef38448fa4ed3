-- ===== src/Speculation/Acceptance.antt =====
-- speculation.hpp, accept_speculation: which samples of a verified batch are committed. The samples are
-- any list, as the code takes them; how the model comes by them is not modelled.
use dan.Common.{
  ℕ, zero, suc, ◌+◌, ◌<◌, ◌≡◌, ◌∙◌, refl, ap, Bool, true, not, List, [], ◌∷◌, ◌++◌, length, arith,
  ==_iff, ◌==◌, if◌then◌else◌, Bool-cases, inl, inr,
}
use dan.Speculation.{accept_loop, accept_speculation, speculation_room}

accept_loop_cons :
    (t p : ℕ) (proposals samples : List ℕ)
    → accept_loop t (p ∷ proposals) samples
      ≡ (if p == t then accept_speculation proposals samples else [])
unfolding accept_loop accept_speculation
accept_loop_cons t p proposals [] = ground arith
accept_loop_cons t p proposals (s ∷ samples) = ground arith

accept_cons :
    (p t : ℕ) (proposals samples : List ℕ)
    → accept_speculation (p ∷ proposals) (t ∷ samples)
      ≡ t ∷ (if p == t then accept_speculation proposals samples else [])
unfolding accept_speculation
accept_cons p t proposals samples = ap (λ l. t ∷ l) (accept_loop_cons t p proposals samples)

-- Where the commit stops: behind the last proposal, behind the last sample, or at a proposal that is
-- not the last token committed.
abbrev pub stops_at : ℕ → List ℕ → List ℕ → Bool
stops_at last [] rest = true
stops_at last (p ∷ left) [] = true
stops_at last (p ∷ left) (r ∷ rest) = not (p == last)

-- The committed tokens as the first samples and, but for the last one, as the first proposals.
pub record Commits (proposals samples accepted : List ℕ) : Type 0 where
  pub confirmed : List ℕ
  pub last : ℕ
  pub left : List ℕ
  pub rest : List ℕ
  pub tokens : accepted ≡ confirmed ++ last ∷ []
  pub guessed : proposals ≡ confirmed ++ left
  pub sampled : samples ≡ accepted ++ rest
  pub stopped : stops_at last left rest ≡ true

Commits-one :
    (t : ℕ) (proposals samples : List ℕ)
    → stops_at t proposals samples ≡ true
    → Commits proposals (t ∷ samples) (t ∷ [])
Commits-one t proposals samples h = record {
  confirmed = [];
  last = t;
  left = proposals;
  rest = samples;
  tokens = refl;
  guessed = refl;
  sampled = refl;
  stopped = h;
}

Commits-cons :
    (t : ℕ) (proposals samples accepted : List ℕ)
    → Commits proposals samples accepted
    → Commits (t ∷ proposals) (t ∷ samples) (t ∷ accepted)
Commits-cons t proposals samples accepted c = record {
  confirmed = t ∷ c.confirmed;
  last = c.last;
  left = c.left;
  rest = c.rest;
  tokens = ap (λ l. t ∷ l) c.tokens;
  guessed = ap (λ l. t ∷ l) c.guessed;
  sampled = ap (λ l. t ∷ l) c.sampled;
  stopped = c.stopped;
}

-- Of any samples, at least one, and any proposals: the committed tokens are the first samples, at
-- least one; but for the last of them they are the first proposals, so that each is the sample that
-- the batch gave behind exactly the tokens committed before it; and the commit stops only where the
-- proposals or the samples end or the next proposal is not the last token committed.
pub accept_speculation-Commits :
    (proposals : List ℕ) (t : ℕ) (samples : List ℕ)
    → Commits proposals (t ∷ samples) (accept_speculation proposals (t ∷ samples))
accept_speculation-Commits [] t samples =
    unfold accept_speculation accept_loop in Commits-one t [] samples refl
accept_speculation-Commits (p ∷ proposals) t [] =
    unfold accept_speculation accept_loop in Commits-one t (p ∷ proposals) [] refl
accept_speculation-Commits (p ∷ proposals) t (s ∷ samples) = elim (Bool-cases (p == t)) [
  | inl right ↦
      let e : p ≡ t = (==_iff p t).0 right in
      rw (accept_cons, right, e)
        (Commits-cons t proposals (s ∷ samples) _ (accept_speculation-Commits proposals s samples))
  | inr wrong ↦
      rw (accept_cons, wrong) (Commits-one t (p ∷ proposals) (s ∷ samples) (ground (arith, wrong)))
]

module _ (next : List ℕ → ℕ) where
  -- Plain decoding: n tokens after a text, one at a time.
  plain : List ℕ → ℕ → List ℕ
  plain text zero = []
  plain text (suc n) = next text ∷ plain (text ++ next text ∷ []) n

  -- Each sample is what the model says, one at a time, after the text and the proposals before it. A
  -- batch of more than one position need not keep this: it rounds differently.
  abbrev IsSerial : List ℕ → List ℕ → List ℕ → Type 0
  IsSerial text proposals [] = Unit
  IsSerial text [] (s ∷ samples) = s ≡ next text
  IsSerial text (p ∷ proposals) (s ∷ samples) =
      (s ≡ next text) × IsSerial (text ++ p ∷ []) proposals samples

  -- Where the samples are those of serial decoding, the committed tokens are those of plain decoding.
  accept-plain :
      (proposals samples text : List ℕ)
      → IsSerial text proposals samples
      → accept_speculation proposals samples
        ≡ plain text (length (accept_speculation proposals samples))
  unfolding plain
  accept-plain proposals [] text h = unfold accept_speculation in refl
  accept-plain [] (s ∷ samples) text h = unfold accept_speculation accept_loop in ap (λ t. t ∷ []) h
  accept-plain (p ∷ proposals) (s ∷ samples) text h = elim (Bool-cases (p == s)) [
    | inl right ↦
        let e : p ≡ next text = (==_iff p s).0 right ∙ h.0 in
        rw (accept_cons, right, h.0)
          (ap (λ l. next text ∷ l) (accept-plain proposals samples _ (rw e at h.1)))
    | inr wrong ↦ rw (accept_cons, wrong, h.0) refl
  ]

-- A batch of the current token and as many proposals as there is room for ends exactly where the
-- context does.
pub speculation_room_lem :
    (context position : ℕ)
    → position < context
    → position + 1 + speculation_room context position ≡ context
unfolding speculation_room
speculation_room_lem context position h = ground arith
