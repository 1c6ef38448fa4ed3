-- ===== src/Measurement/Speeds/Estimate.antt =====
-- measurement.hpp, estimate_speed: which record's speed it gives.
use dan.Common.{
  ◌≡◌, ◌⊎◌, inl, inr, refl, ◌∙◌, true, false, List, [], ◌∷◌, Option, none, some, if◌then◌else◌, ℤ,
  Member, sym, ap, arith, Bool-cases,
}
use dan.Common.Double.{Doubles}
use dan.Measurement.{SpeedKey, SpeedRecord}
use dan.Measurement.Speeds.{is_comparable, is_closer, take_closer, estimate_loop, estimate_speed}

module _ (d : Doubles) (wanted : SpeedKey) (now : ℤ) where
  abbrev Rec : Type 0
  Rec = SpeedRecord d

  abbrev Cmp : Rec → Type 0
  Cmp r = is_comparable d wanted now r ≡ true

  is_closer_trans :
      (a b c : Rec) → is_closer d a b ≡ false → is_closer d b c ≡ false → is_closer d a c ≡ false
  is_closer_trans a b c h k = ground arith

  is_closer_refl : (a : Rec) → is_closer d a a ≡ false
  is_closer_refl a = ground arith

  is_closer_asym : (a b : Rec) → is_closer d a b ≡ true → is_closer d b a ≡ false
  is_closer_asym a b h = ground arith

  same_some : {a b : Rec} → some a ≡ some b → a ≡ b
  same_some h = cc

  loop_sound :
      (best : Option Rec) (rs : List Rec) (o : Rec)
      → estimate_loop d wanted now best rs ≡ some o
      → (best ≡ some o) ⊎ (Member o rs × Cmp o)
  unfolding estimate_loop
  loop_sound best [] o h = inl h
  loop_sound best (r ∷ rs) o h = elim (Bool-cases (is_comparable d wanted now r)) [
    | inr w ↦ elim (loop_sound best rs o (rw w at h)) [
      | inl e ↦ inl e
      | inr (m, v) ↦ inr (inr m, v)
    ]
    | inl w ↦ elim (loop_sound (take_closer d r best) rs o (rw w at h)) [
      | inl e ↦ taken best w e
      | inr (m, v) ↦ inr (inr m, v)
    ]
  ]
    where
      new : Cmp r → r ≡ o → Member o (r ∷ rs) × Cmp o
      new w e = (inl (sym e), sym (ap (is_comparable d wanted now) e) ∙ w)

      taken :
          (b : Option Rec)
          → Cmp r
          → take_closer d r b ≡ some o
          → (b ≡ some o) ⊎ (Member o (r ∷ rs) × Cmp o)
      taken none w e = inr (new w (same_some e))
      taken (some b) w e = elim (Bool-cases (is_closer d r b)) [
        | inl t ↦ inr (new w (same_some (rw t at e)))
        | inr t ↦ inl (rw t at e)
      ]

  -- What the best record becomes is no farther than it was, and no farther than the new record.
  take_closer_lem :
      (r : Rec) (best : Option Rec)
      → (c : Rec) × (take_closer d r best ≡ some c)
        × (is_closer d r c ≡ false)
        × ((b : Rec) → best ≡ some b → is_closer d b c ≡ false)
  take_closer_lem r none = (r, refl, is_closer_refl r, λ b e. cc)
  take_closer_lem r (some b) = elim (Bool-cases (is_closer d r b)) [
    | inl t ↦ (r, rw t refl, is_closer_refl r, λ x e. rw (sym (same_some e)) (is_closer_asym r b t))
    | inr t ↦ (b, rw t refl, t, λ x e. rw (sym (same_some e)) (is_closer_refl b))
  ]

  loop_keeps :
      (b : Rec) (rs : List Rec)
      → (c : Rec) × (estimate_loop d wanted now (some b) rs ≡ some c) × (is_closer d b c ≡ false)
  unfolding estimate_loop
  loop_keeps b [] = (b, refl, is_closer_refl b)
  loop_keeps b (r ∷ rs) = elim (Bool-cases (is_comparable d wanted now r)) [
    | inr w ↦ rw w (loop_keeps b rs)
    | inl w ↦
        let (c, e, new, old) = take_closer_lem r (some b) in
        let (x, q, most) = loop_keeps c rs in
        (x, rw (w, e) q, is_closer_trans b c x (old b refl) most)
  ]

  loop_complete :
      (best : Option Rec) (rs : List Rec) (o : Rec)
      → Member o rs
      → Cmp o
      → (c : Rec) × (estimate_loop d wanted now best rs ≡ some c) × (is_closer d o c ≡ false)
  unfolding estimate_loop
  loop_complete best [] o m v = absurd m
  loop_complete best (r ∷ rs) o (inr m) v =
      loop_complete (if is_comparable d wanted now r then take_closer d r best else best) rs o m v
  loop_complete best (r ∷ rs) o (inl e) v =
      let w : Cmp r = sym (ap (is_comparable d wanted now) e) ∙ v in
      let (c, t, new, old) = take_closer_lem r best in
      let (x, q, most) = loop_keeps c rs in
      (x, rw (w, t) q, ap (λ (u : Rec). is_closer d u x) e ∙ is_closer_trans r c x new most)

  -- An estimate that counts as measured is the speed of a comparable record of the table.
  pub measured_comparable :
      (rs : List Rec) (fallback speed : d.Double)
      → estimate_speed d rs wanted now fallback ≡ (speed, true)
      → (best : Rec) × Member best rs
        × (is_comparable d wanted now best ≡ true)
        × (best.us_per_gib ≡ speed)
  unfolding estimate_speed
  measured_comparable rs fallback speed h = go (estimate_loop d wanted now none rs) refl
    where
      go :
          (found : Option Rec)
          → estimate_loop d wanted now none rs ≡ found
          → (best : Rec) × Member best rs
            × (is_comparable d wanted now best ≡ true)
            × (best.us_per_gib ≡ speed)
      go none e = absurd (ground (arith, rw (e, estimate_speed) at h))
      go (some best) e = elim (loop_sound none rs best e) [
        | inl c ↦ absurd (ground (arith, c))
        | inr (m, v) ↦ (best, m, v, ap (λ p. p.0) (rw (e, estimate_speed) at h))
      ]

  -- With a comparable record `o` in the table, in whatever order its records stand, the estimate is
  -- measured: it is the speed of a comparable record of the table that `o` is no closer than, in the
  -- order of the context and then the sessions.
  pub estimate_speed-nearest :
      (rs : List Rec) (fallback : d.Double) (o : Rec)
      → Member o rs
      → is_comparable d wanted now o ≡ true
      → (best : Rec) × (estimate_speed d rs wanted now fallback ≡ (best.us_per_gib, true))
        × Member best rs
        × (is_comparable d wanted now best ≡ true)
        × (is_closer d o best ≡ false)
  unfolding estimate_speed
  estimate_speed-nearest rs fallback o m v =
      let (best, e, near) = loop_complete none rs o m v in
      elim (loop_sound none rs best e) [
        | inl c ↦ absurd (ground (arith, c))
        | inr (mem, w) ↦ (best, rw (e, estimate_speed) refl, mem, w, near)
      ]
