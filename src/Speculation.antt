-- ===== src/Speculation.antt =====
-- engine/include/provider_owned/speculation.hpp: which tokens of a verified batch are committed,
-- how much room a batch has, and the search for a verify width.
pub mod Acceptance
pub mod Width
use dan.Common.{
  ℕ, zero, suc, ◌+◌, ◌-◌, ◌*◌, ◌^◌, ◌%◌, Bool, true, false, not, ◌&&◌, ◌||◌, List, [], ◌∷◌, ltb,
  ◌==◌, if◌then◌else◌, min, max,
}
use dan.Common.Double.{Doubles}

abbrev pub max_speculative_width : ℕ
max_speculative_width = 32

-- The loop, from the last token accepted, over the proposals and samples not yet looked at.
accept_loop : ℕ → List ℕ → List ℕ → List ℕ
accept_loop last [] samples = []
accept_loop last (p ∷ proposals) [] = []
accept_loop last (p ∷ proposals) (s ∷ samples) =
    let rest = accept_loop s proposals samples in if not (p == last) then [] else s ∷ rest

pub accept_speculation : List ℕ → List ℕ → List ℕ
accept_speculation proposals [] = []
accept_speculation proposals (s ∷ samples) = s ∷ accept_loop s proposals samples

pub speculation_room : ℕ → ℕ → ℕ
speculation_room context position =
    if ltb position context && ltb 1 (context - position) then context - position - 1 else 0

module _ (d : Doubles) where
  open d use {Double, literal, of_nat, add, mul, div, lt}

  pub record AdaptiveDraftWidth : Type 0 where
    pub limit : ℕ
    pub width : ℕ
    pub best : ℕ
    pub rounds : ℕ
    pub held_blocks : ℕ
    pub committed : ℕ
    pub elapsed : Double
    pub baseline : Double
    pub best_cost : Double
    pub searching : Bool

  -- The constructor; `std::clamp(limit, 1u, max_speculative_width)`.
  pub new_width : ℕ → AdaptiveDraftWidth
  new_width limit = record {
    limit = min (max limit 1) max_speculative_width;
    width = 1;
    best = 1;
    rounds = 0;
    held_blocks = 0;
    committed = 0;
    elapsed = of_nat 0;
    baseline = of_nat 0;
    best_cost = of_nat 0;
    searching = true;
  }

  -- What a block of four rounds decides, from its cost per committed token.
  unfoldable pub decide : AdaptiveDraftWidth → Double → AdaptiveDraftWidth
  decide w cost =
      if w.searching
      then (if w.width == 1
          then record w { baseline = cost; best_cost = cost; best = 1; width = 2 }
          else if lt cost (mul w.best_cost (literal 95 100))
          then (if ltb w.width w.limit
              then record w { best = w.width; best_cost = cost; width = min w.limit (w.width * 2) }
              else record w { best = w.width; best_cost = cost; searching = false })
          else record w { width = w.best; searching = false })
      else if ltb 1 w.width && lt (mul w.baseline (literal 105 100)) cost
      then record w { width = 1; searching = true; held_blocks = 0 }
      else if w.held_blocks + 1 == 4
      then record w { width = 1; searching = true; held_blocks = 0 }
      else record w { held_blocks = w.held_blocks + 1 }

  unfoldable pub observe : AdaptiveDraftWidth → ℕ → ℕ → ℕ → AdaptiveDraftWidth
  observe w width committed elapsed_ns =
      if w.limit == 1
        || not (width == w.width)
        || committed == 0
        || ltb width committed
        || elapsed_ns == 0
      then w
      else (let elapsed = add w.elapsed (of_nat elapsed_ns) in
          let total = w.committed + committed in
          if not (w.rounds + 1 == 4)
          then record w { elapsed = elapsed; committed = total; rounds = w.rounds + 1 }
          else decide (record w { rounds = 0; elapsed = of_nat 0; committed = 0 })
              (div elapsed (of_nat total)))
