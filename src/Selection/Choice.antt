-- ===== src/Selection/Choice.antt =====
-- selection.cpp, select_plan: which plans it may choose or offer, whatever the arithmetic on `double`.
use mathlib.Core.Path.{subst}
use dan.Common.{
  ℕ, zero, suc, ◌<◌, ◌≡◌, ◌↔◌, ◌⊎◌, inl, inr, refl, sym, ap, ◌∙◌, Bool, true, false, not, ◌&&◌,
  List, Option, none, some, if◌then◌else◌, length, ℤ, int_lt, int_eq, int_lt_irrefl, int_lt_asym,
  int_le_trans, int_ge_of_eq, int_le_of_eq, arith, Bool-cases, Option-cases,
}
use dan.Common.Double.{Doubles}
use dan.Selection

last_cases : (i count : ℕ) → i < suc count → (i ≡ count) ⊎ (i < count)
last_cases i count h = omega arith

module _ (d : Doubles) (plans : List (Selection.PlanEstimate d))
    (policy : Selection.SelectionPolicy d) where
  abbrev pub tier : ℕ → ℤ
  tier i = (Selection.plan_at d plans i).quality_tier

  -- Of the first `count` plans that `ok` admits, the one with the highest tier; `none` where it
  -- admits none.
  abbrev pub IsBest : (ℕ → Bool) → ℕ → Option ℕ → Type 0
  IsBest ok count none = (i : ℕ) → i < count → ok i ≡ false
  IsBest ok count (some best) =
      (best < count)
      × (ok best ≡ true)
      × ((i : ℕ) → i < count → ok i ≡ true → int_lt (tier best) (tier i) ≡ false)

  better_tier :
      (left right : Selection.PlanEstimate d)
      → Selection.better d left right policy ≡ true
      → int_lt left.quality_tier right.quality_tier ≡ false
  unfolding Selection.better
  better_tier left right h = elim (Bool-cases (int_eq left.quality_tier right.quality_tier)) [
    | inl e ↦ int_ge_of_eq left.quality_tier right.quality_tier e
    | inr e ↦ int_lt_asym right.quality_tier left.quality_tier (ground (arith, h, e))
  ]

  not_better_tier :
      (left right : Selection.PlanEstimate d)
      → Selection.better d left right policy ≡ false
      → int_lt right.quality_tier left.quality_tier ≡ false
  unfolding Selection.better
  not_better_tier left right h = elim (Bool-cases (int_eq left.quality_tier right.quality_tier)) [
    | inl e ↦ int_le_of_eq left.quality_tier right.quality_tier e
    | inr e ↦ ground (arith, h, e)
  ]

  IsBest-skip :
      (ok : ℕ → Bool) (count : ℕ) (o : Option ℕ)
      → IsBest ok count o
      → ok count ≡ false
      → IsBest ok (suc count) o
  IsBest-skip ok count none h e =
      λ i low. elim (last_cases i count low) [ inl q ↦ ap ok q ∙ e | inr before ↦ h i before ]
  IsBest-skip ok count (some best) (low, admitted, most) e = (
    omega arith,
    admitted,
    λ i below o. elim (last_cases i count below) [
      | inl q ↦ absurd (ground (arith, ap ok q, e, o))
      | inr before ↦ most i before o
    ],
  )

  IsBest-keep :
      (ok : ℕ → Bool) (count : ℕ) (o : Option ℕ)
      → IsBest ok count o
      → ok count ≡ true
      → IsBest ok (suc count) (Selection.keep d plans policy o count)
  unfolding Selection.keep
  IsBest-keep ok count none h e = (
    omega arith,
    e,
    λ i below o. elim (last_cases i count below) [
      | inl q ↦ ap (λ j. int_lt (tier count) (tier j)) q ∙ int_lt_irrefl (tier count)
      | inr before ↦ absurd (ground (arith, h i before, o))
    ],
  )
  IsBest-keep ok count (some best) (low, admitted, most) e = go wins refl
    where
      wins : Bool
      wins =
          Selection.better d (Selection.plan_at d plans count) (Selection.plan_at d plans best)
            policy

      go : (b : Bool) → wins ≡ b → IsBest ok (suc count) (if b then some count else some best)
      go true w = (
        omega arith,
        e,
        λ i below o. elim (last_cases i count below) [
          | inl q ↦ ap (λ j. int_lt (tier count) (tier j)) q ∙ int_lt_irrefl (tier count)
          | inr before ↦
              int_le_trans (tier i) (tier best) (tier count) (most i before o)
                (better_tier (Selection.plan_at d plans count) (Selection.plan_at d plans best) w)
        ],
      )
      go false w = (
        omega arith,
        admitted,
        λ i below o. elim (last_cases i count below) [
          | inl q ↦
              ap (λ j. int_lt (tier best) (tier j)) q
              ∙ not_better_tier (Selection.plan_at d plans count) (Selection.plan_at d plans best) w
          | inr before ↦ most i before o
        ],
      )

  -- What the loop admits to each of its optionals.
  abbrev pub meets : ℕ → Bool
  meets i = Selection.is_meets (Selection.verdict_at d plans policy i)

  abbrev pub is_ready : ℕ → Bool
  is_ready i = (Selection.plan_at d plans i).ready

  abbrev pub meets_ready : ℕ → Bool
  meets_ready i = meets i && is_ready i

  abbrev pub meets_cold : ℕ → Bool
  meets_cold i = meets i && not (is_ready i)

  abbrev pub slow : ℕ → Bool
  slow i = not (meets i) && not (Selection.is_ineligible (Selection.verdict_at d plans policy i))

  record Inv (count : ℕ) (b : Selection.Bests d) : Type 0 where
    pub readies : IsBest meets_ready count b.best_ready
    pub colds : IsBest meets_cold count b.best_cold
    pub anys : IsBest meets count b.best_any
    pub slows : IsBest slow count b.fallback

  consider-Inv :
      (count : ℕ) (b : Selection.Bests d)
      → Inv count b
      → Inv (suc count) (Selection.consider d plans policy b count)
  unfolding Selection.consider
  consider-Inv count b i =
      go (meets count) refl (is_ready count) refl
        (Selection.is_ineligible (Selection.verdict_at d plans policy count)) refl
    where
      go :
          (m : Bool)
          → meets count ≡ m
          → (q : Bool) → is_ready count ≡ q
          → (l : Bool) → Selection.is_ineligible (Selection.verdict_at d plans policy count) ≡ l
          → Inv (suc count) (
              if m
              then (if q
                  then record b {
                    best_ready = Selection.keep d plans policy b.best_ready count;
                    best_any = Selection.keep d plans policy b.best_any count;
                  }
                  else record b {
                    best_cold = Selection.keep d plans policy b.best_cold count;
                    best_any = Selection.keep d plans policy b.best_any count;
                  })
              else if not l
              then record b { fallback = Selection.keep d plans policy b.fallback count }
              else b)
      go true m true q l x = record {
        readies = IsBest-keep meets_ready count b.best_ready i.readies (ground (arith, m, q));
        colds = IsBest-skip meets_cold count b.best_cold i.colds (ground (arith, m, q));
        anys = IsBest-keep meets count b.best_any i.anys m;
        slows = IsBest-skip slow count b.fallback i.slows (ground (arith, m));
      }
      go true m false q l x = record {
        readies = IsBest-skip meets_ready count b.best_ready i.readies (ground (arith, m, q));
        colds = IsBest-keep meets_cold count b.best_cold i.colds (ground (arith, m, q));
        anys = IsBest-keep meets count b.best_any i.anys m;
        slows = IsBest-skip slow count b.fallback i.slows (ground (arith, m));
      }
      go false m q r true x = record {
        readies = IsBest-skip meets_ready count b.best_ready i.readies (ground (arith, m));
        colds = IsBest-skip meets_cold count b.best_cold i.colds (ground (arith, m));
        anys = IsBest-skip meets count b.best_any i.anys m;
        slows = IsBest-skip slow count b.fallback i.slows (ground (arith, m, x));
      }
      go false m q r false x = record {
        readies = IsBest-skip meets_ready count b.best_ready i.readies (ground (arith, m));
        colds = IsBest-skip meets_cold count b.best_cold i.colds (ground (arith, m));
        anys = IsBest-skip meets count b.best_any i.anys m;
        slows = IsBest-keep slow count b.fallback i.slows (ground (arith, m, x));
      }

  consider_all-Inv : (count : ℕ) → Inv count (Selection.consider_all d plans policy count)
  unfolding Selection.consider_all
  consider_all-Inv zero = record {
    readies = λ i h. absurd (omega arith);
    colds = λ i h. absurd (omega arith);
    anys = λ i h. absurd (omega arith);
    slows = λ i h. absurd (omega arith);
  }
  consider_all-Inv (suc count) =
      consider-Inv count (Selection.consider_all d plans policy count) (consider_all-Inv count)

  abbrev loop : Selection.Bests d
  loop = Selection.consider_all d plans policy (length plans)

  loop-Inv : Inv (length plans) loop
  loop-Inv = consider_all-Inv (length plans)

  IsBest-of :
      (ok : ℕ → Bool) (o p : Option ℕ)
      → IsBest ok (length plans) o
      → o ≡ p
      → IsBest ok (length plans) p
  IsBest-of ok o p h e = subst (IsBest ok (length plans)) e h

  -- A chosen plan meets the target. It has the highest tier of all plans that do, where the policy
  -- waits or none of them is ready; otherwise it is ready and has the highest tier of the ready ones.
  pub select_plan_chosen :
      (i : ℕ)
      → (Selection.select_plan d plans policy).chosen ≡ some i
      → (IsBest meets (length plans) (some i)
          × ((Selection.is_wait policy.cold_start ≡ true) ⊎ IsBest meets_ready (length plans) none))
        ⊎ ((Selection.is_wait policy.cold_start ≡ false)
            × IsBest meets_ready (length plans) (some i))
  unfolding Selection.select_plan
  select_plan_chosen i h = elim (Option-cases loop.best_ready) [
    | inl e ↦ inl (
      IsBest-of meets loop.best_any (some i) loop-Inv.anys (ground (arith, h, e)),
      inr (IsBest-of meets_ready loop.best_ready none loop-Inv.readies e),
    )
    | inr (r, e) ↦ elim (Bool-cases (Selection.is_wait policy.cold_start)) [
      | inl w ↦
          inl
            (IsBest-of meets loop.best_any (some i) loop-Inv.anys (ground (arith, h, e, w)), inl w)
      | inr w ↦ inr (
        w,
        IsBest-of meets_ready loop.best_ready (some i) loop-Inv.readies (ground (arith, h, e, w)),
      )
    ]
  ]

  ready_meets : (r : ℕ) → meets_ready r ≡ true → meets r ≡ true
  ready_meets r h = ground (arith, h)

  -- No plan is chosen exactly when no plan meets the target.
  pub select_plan_none :
      ((Selection.select_plan d plans policy).chosen ≡ none) ↔ IsBest meets (length plans) none
  unfolding Selection.select_plan
  select_plan_none = elim (Option-cases loop.best_ready) [
    | inl e ↦ elim (Option-cases loop.best_any) [
      | inl f ↦ (λ h. IsBest-of meets loop.best_any none loop-Inv.anys f, λ h. ground (arith, e, f))
      | inr (a, f) ↦
          let (low, met, most) = IsBest-of meets loop.best_any (some a) loop-Inv.anys f in
          (λ h. absurd (ground (arith, h, e, f)), λ h. absurd (ground (arith, h a low, met)))
    ]
    | inr (r, e) ↦
        let (low, met, most) = IsBest-of meets_ready loop.best_ready (some r) loop-Inv.readies e in
        let met_target = ready_meets r met in
        elim (Option-cases loop.best_any) [
          | inl f ↦
              absurd (
                ground
                  (arith, IsBest-of meets loop.best_any none loop-Inv.anys f r low, met_target))
          | inr (a, f) ↦ elim (Bool-cases (Selection.is_wait policy.cold_start)) [
            | inl w ↦ (
              λ h. absurd (ground (arith, h, e, f, w)),
              λ h. absurd (ground (arith, h r low, met_target)),
            )
            | inr w ↦ (
              λ h. absurd (ground (arith, h, e, w)),
              λ h. absurd (ground (arith, h r low, met_target)),
            )
          ]
        ]
  ]

  -- A fallback is offered only where no plan is chosen. It misses the target or is not measured, is
  -- not ineligible, and has the highest tier of the plans of which this is so. A plan that needs more
  -- providers than the policy allows is ineligible in assess_plan, so it is never the fallback: the
  -- comment on `ineligible` says so too, but the one at the top of selection.hpp says that such a plan
  -- is offered as a fallback.
  pub select_plan_fallback :
      (j : ℕ)
      → (Selection.select_plan d plans policy).fallback ≡ some j
      → ((Selection.select_plan d plans policy).chosen ≡ none) × IsBest slow (length plans) (some j)
  unfolding Selection.select_plan
  select_plan_fallback j h = elim (Option-cases (Selection.choose_from d plans policy loop).0) [
    | inr (i, e) ↦ absurd (ground (arith, h, e))
    | inl e ↦ elim (Option-cases loop.fallback) [
      | inl f ↦ absurd (ground (arith, h, e, f))
      | inr (k, f) ↦ (
        ground (arith, e, f),
        IsBest-of slow loop.fallback (some j) loop-Inv.slows (ground (arith, h, e, f)),
      )
    ]
  ]

  -- A better plan is reported beside the chosen one only where the policy does not wait. It meets the
  -- target, is not ready, and is of a higher tier than the chosen plan, which is ready.
  pub select_plan_better_cold :
      (c : ℕ)
      → (Selection.select_plan d plans policy).better_cold ≡ some c
      → (Selection.is_wait policy.cold_start ≡ false)
        × IsBest meets_cold (length plans) (some c)
        × (i : ℕ) × ((Selection.select_plan d plans policy).chosen ≡ some i)
        × IsBest meets_ready (length plans) (some i)
        × (int_lt (tier i) (tier c) ≡ true)
  unfolding Selection.select_plan
  select_plan_better_cold c h = elim (Option-cases loop.best_ready) [
    | inl e ↦ elim (Option-cases loop.best_any) [
      | inl f ↦ elim (Option-cases loop.fallback) [
        | inl g ↦ absurd (ground (arith, h, e, f, g))
        | inr (k, g) ↦ absurd (ground (arith, h, e, f, g))
      ]
      | inr (a, f) ↦ absurd (ground (arith, h, e, f))
    ]
    | inr (r, e) ↦ elim (Bool-cases (Selection.is_wait policy.cold_start)) [
      | inl w ↦ elim (Option-cases loop.best_any) [
        | inl f ↦ elim (Option-cases loop.fallback) [
          | inl g ↦ absurd (ground (arith, h, e, f, g, w))
          | inr (k, g) ↦ absurd (ground (arith, h, e, f, g, w))
        ]
        | inr (a, f) ↦ absurd (ground (arith, h, e, f, w))
      ]
      | inr w ↦ elim (Option-cases loop.best_cold) [
        | inl f ↦ absurd (ground (arith, h, e, f, w))
        | inr (k, f) ↦ elim (Bool-cases (int_lt (tier r) (tier k))) [
          | inr l ↦ absurd (ground (arith, h, e, f, w, l))
          | inl l ↦
              let q : k ≡ c = ground (arith, h, e, f, w, l) in
              (
                w,
                IsBest-of meets_cold loop.best_cold (some c) loop-Inv.colds (f ∙ ap some q),
                r,
                ground (arith, e, w),
                IsBest-of meets_ready loop.best_ready (some r) loop-Inv.readies e,
                ap (λ x. int_lt (tier r) (tier x)) (sym q) ∙ l,
              )
        ]
      ]
    ]
  ]
