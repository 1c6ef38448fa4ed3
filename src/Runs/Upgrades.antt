-- ===== src/Runs/Upgrades.antt =====
-- upgrade.hpp on a replica that could move to a better model with one more peer.
use dan.Common.{Member, ◌*◌, ◌≡◌, ◌⊎◌, inl, refl, true, false, [], ◌∷◌, some, pos, int_lt}
use dan.Upgrade
use dan.Upgrade.Choice.{upgrade_choice_sound, upgrade_choice_complete}
use dan.Runs.Speculating.{thousandths}

abbrev rules : Upgrade.UpgradeRules thousandths
rules = record {
  idle_ms = 120000;
  check_interval_ms = 60000;
  speed_margin = 250;
  first_backoff_ms = 600000;
  max_backoff_ms = 4 * 3600 * 1000;
}

abbrev replica : Upgrade.CurrentReplica thousandths
replica = record {
  quality_tier = pos 1;
  model_sha256 = 7 ∷ [];
  measured_ms = 40000;
  members = (1 ∷ []) ∷ [];
}

abbrev bigger : Upgrade.UpgradeOption thousandths
bigger = record {
  quality_tier = pos 2;
  model_sha256 = 8 ∷ [];
  token_ms = 30000;
  measured = false;
  peers = (1 ∷ []) ∷ (2 ∷ []) ∷ [];
}

abbrev idle : Upgrade.UpgradeState
idle = record { idle_since_ms = 1000; open_sessions = 0; queued = 0; not_before_ms = 0 }

bigger_is_chosen :
    Upgrade.upgrade_choice thousandths replica (bigger ∷ []) idle 121000 rules ≡ some bigger
unfolding Upgrade.upgrade_choice Upgrade.choice_loop Upgrade.worthwhile Upgrade.beats
bigger_is_chosen = refl

bigger_is_worthwhile : Upgrade.worthwhile thousandths replica rules bigger ≡ true
unfolding Upgrade.worthwhile
bigger_is_worthwhile = refl

upgrade_choice_sound_example :
    (Upgrade.is_busy thousandths idle 121000 rules ≡ false)
    × Member bigger (bigger ∷ [])
    × (Upgrade.adds_gpu thousandths replica bigger ≡ true)
    × ((Upgrade.higher_tier thousandths replica bigger ≡ true)
        ⊎ (Upgrade.faster thousandths replica rules bigger ≡ true))
upgrade_choice_sound_example =
    upgrade_choice_sound thousandths replica rules (bigger ∷ []) idle 121000 bigger bigger_is_chosen

upgrade_choice_complete_example :
    (r : Upgrade.UpgradeOption thousandths) × (Upgrade.upgrade_choice thousandths replica
        (bigger ∷ [])
        idle
        121000
        rules
      ≡ some r)
    × (int_lt r.quality_tier (pos 2) ≡ false)
upgrade_choice_complete_example =
    upgrade_choice_complete thousandths replica rules (bigger ∷ []) idle 121000 bigger refl
      (inl refl) bigger_is_worthwhile
