-- ===== src/Upgrade.antt =====
-- engine/include/provider_owned/upgrade.hpp: when an idle replica gives way to a better one. Times
-- are numbers of milliseconds on one clock, so a difference of two times is written as a sum on the
-- other side of its comparison; the sums and the doubled backoff stay far below 2^63.
pub mod Choice
pub mod Backoff
use dan.Common.{
  ℕ, ◌+◌, ◌*◌, Bool, true, false, not, ◌&&◌, ◌||◌, List, [], ◌∷◌, Option, none, some, Bytes,
  bytes_eq, ltb, ◌==◌, if◌then◌else◌, ℤ, int_eq, int_lt, min,
}
use dan.Common.Double.{Doubles}
use dan.Model.{any}

pub record UpgradeState : Type 0 where
  pub idle_since_ms : ℕ
  pub open_sessions : ℕ
  pub queued : ℕ
  pub not_before_ms : ℕ

module _ (d : Doubles) where
  open d use {Double, of_nat, add, mul, lt}

  pub record UpgradeRules : Type 0 where
    pub idle_ms : ℕ
    pub check_interval_ms : ℕ
    pub speed_margin : Double
    pub first_backoff_ms : ℕ
    pub max_backoff_ms : ℕ

  pub record CurrentReplica : Type 0 where
    pub quality_tier : ℤ
    pub model_sha256 : Bytes
    pub measured_ms : Double
    pub members : List Bytes

  pub record UpgradeOption : Type 0 where
    pub quality_tier : ℤ
    pub model_sha256 : Bytes
    pub token_ms : Double
    pub measured : Bool
    pub peers : List Bytes

  -- The first test: the replica is in use, or backs off, or has not been idle for long enough.
  abbrev pub is_busy : UpgradeState → ℕ → UpgradeRules → Bool
  is_busy state now_ms rules =
      not (state.open_sessions == 0)
      || not (state.queued == 0)
      || ltb now_ms state.not_before_ms
      || ltb now_ms (state.idle_since_ms + rules.idle_ms)

  abbrev pub adds_gpu : CurrentReplica → UpgradeOption → Bool
  adds_gpu current option = any (λ peer. not (any (bytes_eq peer) current.members)) option.peers

  abbrev pub higher_tier : CurrentReplica → UpgradeOption → Bool
  higher_tier current option = int_lt current.quality_tier option.quality_tier

  -- The test of the code: at the margin of 0.25, more than 20% less time per token.
  abbrev pub faster : CurrentReplica → UpgradeRules → UpgradeOption → Bool
  faster current rules option =
      int_eq option.quality_tier current.quality_tier
      && bytes_eq option.model_sha256 current.model_sha256
      && option.measured
      && lt (of_nat 0) current.measured_ms
      && lt (of_nat 0) option.token_ms
      && lt (mul option.token_ms (add (of_nat 1) rules.speed_margin)) current.measured_ms

  -- Neither `continue` of the loop is taken.
  unfoldable pub worthwhile : CurrentReplica → UpgradeRules → UpgradeOption → Bool
  worthwhile current rules option =
      adds_gpu current option && (higher_tier current option || faster current rules option)

  unfoldable pub beats : UpgradeOption → UpgradeOption → Bool
  beats option best =
      int_lt best.quality_tier option.quality_tier
      || (int_eq option.quality_tier best.quality_tier && lt option.token_ms best.token_ms)

  -- The assignment at the end of the loop's body.
  abbrev pub take_better : Option UpgradeOption → UpgradeOption → Option UpgradeOption
  take_better none option = some option
  take_better (some best) option = if beats option best then some option else some best

  -- The loop over the options, from the best so far.
  unfoldable pub choice_loop :
      CurrentReplica
      → UpgradeRules
      → Option UpgradeOption
      → List UpgradeOption
      → Option UpgradeOption
  choice_loop current rules best [] = best
  choice_loop current rules best (option ∷ options) =
      choice_loop current rules
        (if worthwhile current rules option then take_better best option else best) options

  unfoldable pub upgrade_choice :
      CurrentReplica → List UpgradeOption → UpgradeState → ℕ → UpgradeRules → Option UpgradeOption
  upgrade_choice current options state now_ms rules =
      if is_busy state now_ms rules then none else choice_loop current rules none options

  unfoldable pub next_backoff_ms : ℕ → Bool → UpgradeRules → ℕ
  next_backoff_ms previous_ms upgraded rules =
      if upgraded
      then 0
      else if previous_ms == 0
      then rules.first_backoff_ms
      else min (previous_ms * 2) rules.max_backoff_ms
