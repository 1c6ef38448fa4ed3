-- ===== src/Upgrade/Backoff.antt =====
-- upgrade.hpp, next_backoff_ms: failed upgrades back off exponentially, up to the limit.
use dan.Common.{ℕ, zero, suc, ◌*◌, ◌^◌, ◌≤◌, ◌<◌, ◌≡◌, false, min, arith, ap, ◌∙◌}
use dan.Common.Double.{Doubles}
use dan.Upgrade.{UpgradeRules, next_backoff_ms}

-- The backoff after n failures in a row.
pub after_failures : (d : Doubles) → UpgradeRules d → ℕ → ℕ
after_failures d rules zero = 0
after_failures d rules (suc n) = next_backoff_ms d (after_failures d rules n) false rules

-- One doubling of a backoff that is the limit already or has not reached it.
double_capped : (p m : ℕ) → min (min p m * 2) m ≡ min (p * 2) m
double_capped p m = omega arith

doubled-positive : (f n : ℕ) → 0 < f → 0 < f * 2 ^ n
doubled-positive f zero h = omega arith
doubled-positive f (suc n) h = grind (arith, doubled-positive f n h)

twice : (f n : ℕ) → f * 2 ^ n * 2 ≡ f * 2 ^ suc n
twice f n = grind arith

first_failure :
    (d : Doubles) (rules : UpgradeRules d)
    → rules.first_backoff_ms ≤ rules.max_backoff_ms
    → next_backoff_ms d 0 false rules ≡ min (rules.first_backoff_ms * 2 ^ 0) rules.max_backoff_ms
unfolding next_backoff_ms
first_failure d rules low = ground arith

fail_again :
    (d : Doubles) (rules : UpgradeRules d) (p : ℕ)
    → 0 < p
    → next_backoff_ms d p false rules ≡ min (p * 2) rules.max_backoff_ms
unfolding next_backoff_ms
fail_again d rules p h = ground arith

-- With a first backoff that is positive and within the limit, n + 1 failures in a row give the first
-- backoff doubled n times, or the limit where that is less.
pub after_failures_lem :
    (d : Doubles) (rules : UpgradeRules d) (n : ℕ)
    → 0 < rules.first_backoff_ms
    → rules.first_backoff_ms ≤ rules.max_backoff_ms
    → after_failures d rules (suc n) ≡ min (rules.first_backoff_ms * 2 ^ n) rules.max_backoff_ms
unfolding after_failures
after_failures_lem d rules zero positive low = first_failure d rules low
after_failures_lem d rules (suc n) positive low =
    let p = rules.first_backoff_ms * 2 ^ n in
    let m = rules.max_backoff_ms in
    let some_backoff = doubled-positive rules.first_backoff_ms n positive in
    ap (λ q. next_backoff_ms d q false rules) (after_failures_lem d rules n positive low)
    ∙ fail_again d rules (min p m) (omega arith)
    ∙ double_capped p m
    ∙ ap (λ q. min q m) (twice rules.first_backoff_ms n)
