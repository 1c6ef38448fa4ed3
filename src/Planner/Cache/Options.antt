-- ===== src/Planner/Cache/Options.antt =====
-- planner.cpp, lines 301 to 310: the options for the stage that begins at a layer, longest first.
use mathlib.Core.Path.{subst}
use mathlib.Core.Option.{some-injective}
use dan.Common.{
  ℕ, sym, zero, suc, ◌+◌, ◌≤◌, ◌<◌, ◌≡◌, ◌↔◌, ◌⊎◌, inl, inr, refl, Bool, true, false, not, ◌&&◌,
  ◌||◌, List, [], ◌∷◌, Option, none, some, ltb, leb, ◌==◌, if◌then◌else◌, get_elem?, arith,
  Bool-cases,
}

-- `head && begin == 0 && index != *head`
abbrev pub head_elsewhere : Option ℕ → ℕ → ℕ → Bool
head_elsewhere none begin index = false
head_elsewhere (some head) begin index = begin == 0 && not (index == head)

-- The ranges of one candidate that begin here, as (end, candidate), in front of `options`.
unfoldable pub collect_ranges : ℕ → ℕ → ℕ → List (ℕ × ℕ) → List (ℕ × ℕ) → List (ℕ × ℕ)
collect_ranges layers begin index [] options = options
collect_ranges layers begin index ((range_begin, range_end) ∷ ranges) options =
    let rest = collect_ranges layers begin index ranges options in
    if range_begin == begin && ltb begin range_end && leb range_end layers
    then (range_end, index) ∷ rest
    else rest

-- The loop over the candidates from `index` on, with their `used` flags.
unfoldable pub collect : Option ℕ → ℕ → ℕ → ℕ → List Bool → List (List (ℕ × ℕ)) → List (ℕ × ℕ)
collect head layers begin index (taken ∷ used) (ranges ∷ cached) =
    let rest = collect head layers begin (suc index) used cached in
    if taken || head_elsewhere head begin index
    then rest
    else collect_ranges layers begin index ranges rest
collect head layers begin index _ _ = []

-- `std::greater<>` on pairs.
abbrev pub greater : ℕ × ℕ → ℕ × ℕ → Bool
greater (e, i) (f, j) = ltb f e || (e == f && ltb j i)

unfoldable pub insert_option : ℕ × ℕ → List (ℕ × ℕ) → List (ℕ × ℕ)
insert_option o [] = o ∷ []
insert_option o (p ∷ ps) =
    let rest = insert_option o ps in if greater p o then p ∷ rest else o ∷ p ∷ ps

-- `std::sort`: equal pairs are interchangeable, so the order is the one that any sort gives.
unfoldable pub sort_options : List (ℕ × ℕ) → List (ℕ × ℕ)
unfolding insert_option
sort_options [] = []
sort_options (o ∷ os) = insert_option o (sort_options os)

abbrev pub In : {A : Type 0} → A → List A → Type 0
In x [] = ⊥
In x (y ∷ ys) = (x ≡ y) ⊎ In x ys

-- What an option says: an unused candidate, allowed here, holds the range.
abbrev pub IsOption : Option ℕ → ℕ → ℕ → ℕ → ℕ → List Bool → List (List (ℕ × ℕ)) → ℕ × ℕ → Type 0
IsOption head layers begin first index used cached (end, i) =
    (i ≡ first + index)
    × (get_elem? used index ≡ some false)
    × (head_elsewhere head begin i ≡ false)
    × (begin < end)
    × (end ≤ layers)
    × (ranges : List (ℕ × ℕ)) × (get_elem? cached index ≡ some ranges)
    × In (begin, end) ranges

collect_ranges-In :
    (layers begin index : ℕ) (ranges options : List (ℕ × ℕ)) (end i : ℕ)
    → In (end, i) (collect_ranges layers begin index ranges options)
    → ((i ≡ index) × (begin < end) × (end ≤ layers) × In (begin, end) ranges) ⊎ In (end, i) options
unfolding collect_ranges
collect_ranges-In layers begin index [] options end i h = inr h
collect_ranges-In layers begin index ((b, e) ∷ ranges) options end i h =
    ground (arith, collect_ranges-In layers begin index ranges options end i)

In-collect_ranges :
    (layers begin index : ℕ) (ranges options : List (ℕ × ℕ)) (end i : ℕ)
    → (((i ≡ index) × (begin < end) × (end ≤ layers) × In (begin, end) ranges)
        ⊎ In (end, i) options)
    → In (end, i) (collect_ranges layers begin index ranges options)
unfolding collect_ranges
In-collect_ranges layers begin index [] options end i (inl h) = absurd h.3
In-collect_ranges layers begin index [] options end i (inr h) = h
In-collect_ranges layers begin index ((b, e) ∷ ranges) options end i (inl (x, y, z, inl w)) =
    ground arith
In-collect_ranges layers begin index ((b, e) ∷ ranges) options end i (inl (x, y, z, inr w)) =
    ground (arith, In-collect_ranges layers begin index ranges options end i (inl (x, y, z, w)))
In-collect_ranges layers begin index ((b, e) ∷ ranges) options end i (inr h) =
    ground (arith, In-collect_ranges layers begin index ranges options end i (inr h))

insert_option-In : (x o : ℕ × ℕ) (ps : List (ℕ × ℕ)) → In x (insert_option o ps) ↔ In x (o ∷ ps)
unfolding insert_option
insert_option-In x o [] = (λ h. h, λ h. h)
insert_option-In x o (p ∷ ps) = elim (Bool-cases (greater p o)) [
  | inl after ↦ (
    λ h.
        let h' : In x (p ∷ insert_option o ps) = rw after at h in
        ground (arith, h', (insert_option-In x o ps).0),
    λ h. rw after (ground (arith, (insert_option-In x o ps).1)),
  )
  | inr before ↦ (λ h. rw before at h, λ h. rw before h)
]

pub sort_options-In : (x : ℕ × ℕ) (os : List (ℕ × ℕ)) → In x (sort_options os) ↔ In x os
unfolding sort_options
sort_options-In x [] = (λ h. h, λ h. h)
sort_options-In x (o ∷ os) = (
  λ h. ground (arith, (insert_option-In x o (sort_options os)).0 h, (sort_options-In x os).0),
  λ h. (insert_option-In x o (sort_options os)).1 (ground (arith, (sort_options-In x os).1)),
)

pub collect-In :
    (head : Option ℕ) (layers begin first : ℕ) (used : List Bool) (cached : List (List (ℕ × ℕ)))
    (o : ℕ × ℕ)
    → In o (collect head layers begin first used cached)
    → (index : ℕ) × IsOption head layers begin first index used cached o
unfolding collect
collect-In head layers begin first [] cached o h = absurd h
collect-In head layers begin first (taken ∷ used) [] o h = absurd h
collect-In head layers begin first (taken ∷ used) (ranges ∷ cached) (end, i) h =
    go (Bool-cases (taken || head_elsewhere head begin first))
      (collect-In head layers begin (suc first) used cached (end, i))
  where
    Found : Type 0
    Found =
        (index : ℕ) × IsOption head layers begin first index (taken ∷ used) (ranges ∷ cached)
          (end, i)

    Later : Type 0
    Later =
        In (end, i) (collect head layers begin (suc first) used cached)
        → (index : ℕ) × IsOption head layers begin (suc first) index used cached (end, i)

    later : Later → In (end, i) (collect head layers begin (suc first) used cached) → Found
    later ih m =
        let (index, p) = ih m in
        let step : i ≡ first + suc index = omega (arith, p.0) in
        (suc index, (step, p.1, p.2, p.3, p.4, p.5, p.6, p.7))

    go :
        ((taken || head_elsewhere head begin first) ≡ true)
          ⊎ ((taken || head_elsewhere head begin first) ≡ false)
        → Later
        → Found
    go (inl skip) ih = later ih (rw skip at h)
    go (inr look) ih = elim (collect_ranges-In layers begin first ranges _ end i (rw look at h)) [
      | inl (e, lo, hi, r) ↦
          (0, (omega arith, ground arith, rw e (ground arith), lo, hi, ranges, refl, r))
      | inr m ↦ later ih m
    ]

pub In-collect :
    (head : Option ℕ) (layers begin first index : ℕ) (used : List Bool)
    (cached : List (List (ℕ × ℕ))) (o : ℕ × ℕ)
    → IsOption head layers begin first index used cached o
    → In o (collect head layers begin first used cached)
unfolding collect
In-collect head layers begin first index [] cached (end, i) h = cc (h.1)
In-collect head layers begin first index (taken ∷ used) [] (end, i) h = cc (h.6)
In-collect head layers begin first zero (taken ∷ used) (ranges ∷ cached) (end, i)
      (e, u, x, lo, hi, rs, c, r) =
    rw free (
      In-collect_ranges layers begin first ranges _ end i (
        inl (
          omega arith,
          lo,
          hi,
          subst (λ l. In (begin, end) l) (sym (some-injective ranges rs c)) r,
        )))
  where
    free : (taken || head_elsewhere head begin first) ≡ false
    free = let here : i ≡ first = omega arith in ground (arith, rw here at x)
In-collect head layers begin first (suc index) (taken ∷ used) (ranges ∷ cached) (end, i)
      (e, u, x, lo, hi, rs, c, r) =
    go (Bool-cases (taken || head_elsewhere head begin first)) (
      In-collect head layers begin (suc first) index used cached (end, i)
        (omega arith, u, x, lo, hi, rs, c, r))
  where
    go :
        ((taken || head_elsewhere head begin first) ≡ true)
          ⊎ ((taken || head_elsewhere head begin first) ≡ false)
        → In (end, i) (collect head layers begin (suc first) used cached)
        → In (end, i) (collect head layers begin first (taken ∷ used) (ranges ∷ cached))
    go (inl skip) m = rw skip m
    go (inr look) m = rw look (In-collect_ranges layers begin first ranges _ end i (inr m))
