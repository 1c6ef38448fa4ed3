-- ===== src/Speculation/Width.antt =====
-- speculation.hpp, AdaptiveDraftWidth: what holds of the width whatever costs are measured.
use dan.Common.{ℕ, ◌+◌, ◌*◌, ◌≤◌, ◌<◌, List, [], ◌∷◌, arith}
use dan.Common.Double.{Doubles}
use dan.Speculation.{AdaptiveDraftWidth, max_speculative_width, new_width, decide, observe}

module _ (d : Doubles) where
  pub record Inv (w : AdaptiveDraftWidth d) : Type 0 where
    pub limit_low : 1 ≤ w.limit
    pub limit_high : w.limit ≤ max_speculative_width
    pub width_low : 1 ≤ w.width
    pub width_high : w.width ≤ w.limit
    pub best_low : 1 ≤ w.best
    pub best_high : w.best ≤ w.limit
    pub rounds_low : w.rounds < 4
    pub held_low : w.held_blocks < 4
    pub committed_low : w.committed ≤ max_speculative_width * w.rounds

  new-Inv : (limit : ℕ) → Inv (new_width d limit)
  unfolding new_width
  new-Inv limit = omega arith

  decide-Inv :
      (w : AdaptiveDraftWidth d) (cost : d.Double) → 2 ≤ w.limit → Inv w → Inv (decide d w cost)
  unfolding decide
  decide-Inv w cost h v = ground arith

  observe-Inv :
      (w : AdaptiveDraftWidth d) (width committed elapsed_ns : ℕ)
      → Inv w
      → Inv (observe d w width committed elapsed_ns)
  unfolding observe
  observe-Inv w width committed elapsed_ns v =
      let cost =
        d.div (d.add w.elapsed (d.of_nat elapsed_ns)) (d.of_nat (w.committed + committed)) in
      let block_done = record w { rounds = 0; elapsed = d.of_nat 0; committed = 0 } in
      ground (arith, decide-Inv block_done cost)

  pub observe_all : AdaptiveDraftWidth d → List (ℕ × ℕ × ℕ) → AdaptiveDraftWidth d
  observe_all w [] = w
  observe_all w ((width, committed, elapsed_ns) ∷ rest) =
      observe_all (observe d w width committed elapsed_ns) rest

  observe_all-Inv :
      (w : AdaptiveDraftWidth d) (rounds : List (ℕ × ℕ × ℕ)) → Inv w → Inv (observe_all w rounds)
  unfolding observe_all
  observe_all-Inv w [] v = v
  observe_all-Inv w ((width, committed, elapsed_ns) ∷ rest) v =
      observe_all-Inv (observe d w width committed elapsed_ns) rest
        (observe-Inv w width committed elapsed_ns v)

  -- After any observations, whatever the arithmetic of `double` answers, the width offered is at
  -- least 1 and at most the limit, which is between 1 and 32; the round counter stays below 4, the
  -- held blocks below 4, and the committed tokens of an open block are at most 32 for each round.
  pub observe_all_bounds :
      (limit : ℕ) (rounds : List (ℕ × ℕ × ℕ)) → Inv (observe_all (new_width d limit) rounds)
  observe_all_bounds limit rounds = observe_all-Inv (new_width d limit) rounds (new-Inv limit)
