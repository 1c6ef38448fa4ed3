-- ===== src/Upgrade/Choice.antt =====
-- upgrade.hpp, upgrade_choice: what it may choose, whatever the arithmetic on `double`.
use dan.Common.{
  ℕ, ◌≡◌, ◌⊎◌, inl, inr, refl, sym, ap, ◌∙◌, true, false, ◌||◌, List, [], ◌∷◌, Option, none, some,
  if◌then◌else◌, int_lt, int_lt_irrefl, int_lt_asym, int_ge_of_eq, int_le_trans, arith, Bool-cases,
  &&-true, Member,
}
use dan.Common.Double.{Doubles}
use dan.Upgrade

same_some {ℓ} : {A : Type ℓ} {a b : A} → some a ≡ some b → a ≡ b
same_some h = cc

module _ (d : Doubles) (current : Upgrade.CurrentReplica d) (rules : Upgrade.UpgradeRules d) where
  abbrev Opt : Type 0
  Opt = Upgrade.UpgradeOption d

  beats_tier :
      (b x : Opt) → Upgrade.beats d x b ≡ true → int_lt x.quality_tier b.quality_tier ≡ false
  unfolding Upgrade.beats
  beats_tier b x h = elim (Bool-cases (int_lt b.quality_tier x.quality_tier)) [
    | inl e ↦ int_lt_asym b.quality_tier x.quality_tier e
    | inr e ↦ int_ge_of_eq x.quality_tier b.quality_tier (ground (arith, h, e))
  ]

  not_beats_tier :
      (b x : Opt) → Upgrade.beats d x b ≡ false → int_lt b.quality_tier x.quality_tier ≡ false
  unfolding Upgrade.beats
  not_beats_tier b x h = ground (arith, h)

  choice_loop_sound :
      (best : Option Opt) (options : List Opt) (o : Opt)
      → Upgrade.choice_loop d current rules best options ≡ some o
      → (best ≡ some o) ⊎ (Member o options × (Upgrade.worthwhile d current rules o ≡ true))
  unfolding Upgrade.choice_loop
  choice_loop_sound best [] o h = inl h
  choice_loop_sound best (x ∷ xs) o h = elim (Bool-cases (Upgrade.worthwhile d current rules x)) [
    | inr w ↦ elim (choice_loop_sound best xs o (rw w at h)) [
      | inl e ↦ inl e
      | inr (m, v) ↦ inr (inr m, v)
    ]
    | inl w ↦ elim (choice_loop_sound (Upgrade.take_better d best x) xs o (rw w at h)) [
      | inl e ↦ taken best w e
      | inr (m, v) ↦ inr (inr m, v)
    ]
  ]
    where
      here :
          Upgrade.worthwhile d current rules x ≡ true
          → x ≡ o
          → Upgrade.worthwhile d current rules o ≡ true
      here w e = sym (ap (Upgrade.worthwhile d current rules) e) ∙ w

      taken :
          (b : Option Opt)
          → Upgrade.worthwhile d current rules x ≡ true
          → Upgrade.take_better d b x ≡ some o
          → (b ≡ some o) ⊎ (((o ≡ x) ⊎ Member o xs) × (Upgrade.worthwhile d current rules o ≡ true))
      taken none w e = let q : x ≡ o = same_some e in inr (inl (sym q), here w q)
      taken (some b) w e = elim (Bool-cases (Upgrade.beats d x b)) [
        | inl t ↦ let q : x ≡ o = same_some (rw t at e) in inr (inl (sym q), here w q)
        | inr t ↦ inl (rw t at e)
      ]

  -- The option that `best` becomes is of at least the tier of what it was and of the new one.
  take_better_tier :
      (best : Option Opt) (x : Opt)
      → (r : Opt) × (Upgrade.take_better d best x ≡ some r)
        × (int_lt r.quality_tier x.quality_tier ≡ false)
        × ((b : Opt) → best ≡ some b → int_lt r.quality_tier b.quality_tier ≡ false)
  take_better_tier none x = (x, refl, int_lt_irrefl x.quality_tier, λ b e. cc)
  take_better_tier (some b) x = elim (Bool-cases (Upgrade.beats d x b)) [
    | inl t ↦ (
      x,
      rw t refl,
      int_lt_irrefl x.quality_tier,
      λ c e.
          sym (ap (λ (u : Opt). int_lt x.quality_tier u.quality_tier) (same_some e))
          ∙ beats_tier b x t,
    )
    | inr t ↦ (
      b,
      rw t refl,
      not_beats_tier b x t,
      λ c e.
          sym (ap (λ (u : Opt). int_lt b.quality_tier u.quality_tier) (same_some e))
          ∙ int_lt_irrefl b.quality_tier,
    )
  ]

  choice_loop_keeps :
      (b : Opt) (options : List Opt)
      → (r : Opt) × (Upgrade.choice_loop d current rules (some b) options ≡ some r)
        × (int_lt r.quality_tier b.quality_tier ≡ false)
  unfolding Upgrade.choice_loop
  choice_loop_keeps b [] = (b, refl, int_lt_irrefl b.quality_tier)
  choice_loop_keeps b (x ∷ xs) = elim (Bool-cases (Upgrade.worthwhile d current rules x)) [
    | inr w ↦ rw w (choice_loop_keeps b xs)
    | inl w ↦
        let (c, e, new, old) = take_better_tier (some b) x in
        let (r, q, most) = choice_loop_keeps c xs in
        (
          r,
          rw (w, e) q,
          int_le_trans b.quality_tier c.quality_tier r.quality_tier (old b refl) most,
        )
  ]

  choice_loop_complete :
      (best : Option Opt) (options : List Opt) (o : Opt)
      → Member o options
      → Upgrade.worthwhile d current rules o ≡ true
      → (r : Opt) × (Upgrade.choice_loop d current rules best options ≡ some r)
        × (int_lt r.quality_tier o.quality_tier ≡ false)
  unfolding Upgrade.choice_loop
  choice_loop_complete best [] o m v = absurd m
  choice_loop_complete best (x ∷ xs) o (inr m) v =
      choice_loop_complete
        (if Upgrade.worthwhile d current rules x then Upgrade.take_better d best x else best) xs o m
        v
  choice_loop_complete best (x ∷ xs) o (inl e) v =
      let w : Upgrade.worthwhile d current rules x ≡ true =
        sym (ap (Upgrade.worthwhile d current rules) e) ∙ v in
      let (c, t, new, old) = take_better_tier best x in
      let (r, q, most) = choice_loop_keeps c xs in
      (
        r,
        rw (w, t) q,
        ap (λ (u : Opt). int_lt r.quality_tier u.quality_tier) e
            ∙ int_le_trans x.quality_tier c.quality_tier r.quality_tier new most,
      )

  -- An option is chosen only for a replica that is not busy. It is one of those given, brings a peer
  -- from outside and is of a higher tier or faster.
  pub upgrade_choice_sound :
      (options : List Opt) (state : Upgrade.UpgradeState) (now_ms : ℕ) (o : Opt)
      → Upgrade.upgrade_choice d current options state now_ms rules ≡ some o
      → (Upgrade.is_busy d state now_ms rules ≡ false)
        × Member o options
        × (Upgrade.adds_gpu d current o ≡ true)
        × ((Upgrade.higher_tier d current o ≡ true) ⊎ (Upgrade.faster d current rules o ≡ true))
  unfolding Upgrade.upgrade_choice Upgrade.worthwhile
  upgrade_choice_sound options state now_ms o h =
      elim (Bool-cases (Upgrade.is_busy d state now_ms rules)) [
        | inl b ↦ absurd (ground (arith, rw b at h))
        | inr b ↦ elim (choice_loop_sound none options o (rw b at h)) [
          | inl e ↦ absurd (ground (arith, e))
          | inr (m, v) ↦
              let (gpu, gain) =
                &&-true (Upgrade.adds_gpu d current o)
                  (Upgrade.higher_tier d current o || Upgrade.faster d current rules o) v in
              (
                b,
                m,
                gpu,
                elim (Bool-cases (Upgrade.higher_tier d current o)) [
                  | inl t ↦ inl t
                  | inr t ↦ inr (ground (arith, gain, t))
                ],
              )
        ]
      ]

  -- Where a replica that is not busy has a worthwhile option, one is chosen, and of no lower tier.
  -- An option is worthwhile when it has a peer from outside and either a higher tier or, for the
  -- same tier and model, a measured time whose product with (1 + margin) is below the time of the
  -- replica: at the margin of 0.25 that is more than 20% less time, not the 25% less of the comment
  -- on speed_margin.
  pub upgrade_choice_complete :
      (options : List Opt) (state : Upgrade.UpgradeState) (now_ms : ℕ) (o : Opt)
      → Upgrade.is_busy d state now_ms rules ≡ false
      → Member o options
      → Upgrade.worthwhile d current rules o ≡ true
      → (r : Opt) × (Upgrade.upgrade_choice d current options state now_ms rules ≡ some r)
        × (int_lt r.quality_tier o.quality_tier ≡ false)
  unfolding Upgrade.upgrade_choice
  upgrade_choice_complete options state now_ms o b m v =
      rw b (choice_loop_complete none options o m v)
