-- ===== src/Runs/Speculating.antt =====
-- speculation.hpp on a batch with one wrong guess, and on a few rounds.
use dan.Common.{ℕ, ◌+◌, ◌*◌, ◌/◌, ◌^◌, true, List, [], ◌∷◌, ltb, leb, ◌==◌, pos}
use dan.Common.Double.{Doubles}
use dan.Speculation.{accept_speculation, new_width}
use dan.Speculation.Acceptance.{Commits, accept_speculation-Commits}
use dan.Speculation.Width.{Inv, observe_all, observe_all_bounds}

-- Numbers in thousandths, rounded down.
abbrev pub thousandths : Doubles
thousandths = record {
  Double = ℕ;
  literal = λ n d. n * 1000 / d;
  of_nat = λ n. n * 1000;
  add = λ a b. a + b;
  mul = λ a b. a * b / 1000;
  div = λ a b. a * 1000 / b;
  lt = ltb;
  le = leb;
  eq = λ a b. a == b;
  is_finite = λ a. true;
  infinity = 10 ^ 300;
  llround = λ a. pos ((a + 500) / 1000);
}

accept_speculation-Commits_example :
    Commits
      (5 ∷ 6 ∷ 9 ∷ [])
      (5 ∷ 6 ∷ 7 ∷ 10 ∷ [])
      (accept_speculation (5 ∷ 6 ∷ 9 ∷ []) (5 ∷ 6 ∷ 7 ∷ 10 ∷ []))
accept_speculation-Commits_example = accept_speculation-Commits (5 ∷ 6 ∷ 9 ∷ []) 5 (6 ∷ 7 ∷ 10 ∷ [])

abbrev rounds : List (ℕ × ℕ × ℕ)
rounds = (1, 1, 100) ∷ (1, 1, 100) ∷ (1, 1, 90) ∷ (1, 1, 110) ∷ (2, 2, 150) ∷ []

observe_all_bounds_example :
    Inv thousandths (observe_all thousandths (new_width thousandths 8) rounds)
observe_all_bounds_example = observe_all_bounds thousandths 8 rounds
