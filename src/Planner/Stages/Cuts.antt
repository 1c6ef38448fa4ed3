-- ===== src/Planner/Stages/Cuts.antt =====
-- planner.cpp, lines 392 to 404: the cut points of one stage, nearest to the wanted one first.
use dan.Common.{
  ℕ, zero, suc, ◌+◌, ◌-◌, ◌*◌, ◌%◌, ◌^◌, ◌≤◌, ◌<◌, inl, inr, List, [], ◌∷◌, ltb, arith,
  if◌then◌else◌,
}
use dan.Planner.Cache.Options.{In}

-- `static_cast<int>(numerator / remaining_capacity + 0.5L)`, from the numerator and the offers
-- that the remaining capacity adds up. No theorem asks anything of it.
abbrev pub Share : Type 0
Share = ℕ → List ℕ → ℕ

-- `std::clamp`
abbrev pub clamp : ℕ → ℕ → ℕ → ℕ
clamp value low high = if ltb value low then low else if ltb high value then high else value

abbrev pub wanted_end : Share → ℕ → ℕ → ℕ → List ℕ → ℕ
wanted_end share layers begin last [] = last
wanted_end share layers begin last (offer ∷ offers) =
    clamp (begin + share ((layers - begin) * offer % 2 ^ 64) (offer ∷ offers)) (begin + 1) last

-- `count` end points from `end` on.
unfoldable pub ends_from : ℕ → ℕ → List ℕ
ends_from zero end = []
ends_from (suc count) end = end ∷ ends_from count (end + 1)

abbrev pub distance : ℕ → ℕ → ℕ
distance a b = (a - b) + (b - a)

unfoldable pub insert_end : ℕ → ℕ → List ℕ → List ℕ
insert_end wanted e [] = e ∷ []
insert_end wanted e (f ∷ fs) =
    let rest = insert_end wanted e fs in
    if ltb (distance f wanted) (distance e wanted) then f ∷ rest else e ∷ f ∷ fs

-- `std::stable_sort` by the distance from `wanted`: an end stays before those as near behind it.
unfoldable pub sort_ends : ℕ → List ℕ → List ℕ
unfolding insert_end
sort_ends wanted [] = []
sort_ends wanted (e ∷ es) = insert_end wanted e (sort_ends wanted es)

-- begin + 1 up to last, nearest to `wanted` first.
unfoldable pub ends_near : ℕ → ℕ → ℕ → List ℕ
unfolding ends_from sort_ends
ends_near wanted begin last = sort_ends wanted (ends_from (last - begin) (begin + 1))

In-insert_end : (wanted x e : ℕ) (fs : List ℕ) → In x (e ∷ fs) → In x (insert_end wanted e fs)
unfolding insert_end
In-insert_end wanted x e [] h = h
In-insert_end wanted x e (f ∷ fs) (inl h) = ground (arith, In-insert_end wanted x e fs (inl h))
In-insert_end wanted x e (f ∷ fs) (inr (inl h)) = ground arith
In-insert_end wanted x e (f ∷ fs) (inr (inr h)) =
    ground (arith, In-insert_end wanted x e fs (inr h))

In-sort_ends : (wanted x : ℕ) (es : List ℕ) → In x es → In x (sort_ends wanted es)
unfolding sort_ends
In-sort_ends wanted x (e ∷ es) (inl h) = In-insert_end wanted x e (sort_ends wanted es) (inl h)
In-sort_ends wanted x (e ∷ es) (inr h) =
    In-insert_end wanted x e (sort_ends wanted es) (inr (In-sort_ends wanted x es h))
In-sort_ends wanted x [] h = absurd h

In-ends_from : (count end x : ℕ) → end ≤ x → x < end + count → In x (ends_from count end)
unfolding ends_from
In-ends_from zero end x low high = absurd (omega arith)
In-ends_from (suc count) end x low high = ground (arith, In-ends_from count (end + 1) x)

-- Every cut point that leaves a layer for each later stage is among those tried.
pub In-ends_near :
    (wanted begin last x : ℕ) → begin < x → x ≤ last → In x (ends_near wanted begin last)
unfolding ends_near
In-ends_near wanted begin last x low high =
    In-sort_ends wanted x (ends_from (last - begin) (begin + 1))
      (In-ends_from (last - begin) (begin + 1) x (omega arith) (omega arith))
