-- ===== src/Formation/Greeting/Parse/Kept.antt =====
-- formation.hpp, parse_available: the bounds on what a greeting brings, and what keeps them.

use dan.Common.{
  ℕ, suc, ◌≤◌, ◌≡◌, refl, true, not, List, [], ◌∷◌, ◌++◌, Bytes, leb, ℤ, length, all, arith,
}
use dan.Common.Double.{Doubles}
use dan.Measurement.{SpeedRecord, max_speed_records, max_us_per_gib}
use dan.Formation.Hex.{hex_string}
use dan.Formation.Greeting.{CachedRange, PeerLink, ProviderCapability, no_capability}
use dan.Formation.Greeting.Parse.{max_greeting_models, max_greeting_cached, max_greeting_links}
use dan.Formation.Greeting.Parse.Fields.{
  valid_link, sound_range, valid_hash, hex_string-valid_hash, length-append_one, all-append_one,
}
use dan.Formation.Greeting.Parse.Speeds.{IsSpeed, AllSpeeds, AllSpeeds-append_one}

-- What a greeting read at `now` brings, behind its bounds.
pub record AreBounded (d : Doubles) (now : ℤ) (models : List Bytes) (cached : List CachedRange)
    (speeds : List (SpeedRecord d)) (links : List PeerLink) (us_per_gib : ℕ) : Type 0 where
  pub few_models : length models ≤ max_greeting_models
  pub few_cached : length cached ≤ max_greeting_cached
  pub few_speeds : length speeds ≤ max_speed_records
  pub few_links : length links ≤ max_greeting_links
  pub hashes : all valid_hash models ≡ true
  pub ranges : all sound_range cached ≡ true
  pub measured : AllSpeeds d now speeds
  pub rates : all valid_link links ≡ true
  pub pace : us_per_gib ≤ max_us_per_gib

module _ (d : Doubles) (now : ℤ) where
  abbrev pub IsBounded : ProviderCapability d → Type 0
  IsBounded p = AreBounded d now p.models p.cached p.speeds p.links p.speed_us_per_gib

  room : (limit n : ℕ) → not (leb limit n) ≡ true → suc n ≤ limit
  room limit n h = ground arith

  pub add_model :
      (p : ProviderCapability d) (value : Bytes)
      → IsBounded p
      → hex_string value 64 ≡ true
      → not (leb max_greeting_models (length p.models)) ≡ true
      → IsBounded (record p { models = p.models ++ value ∷ [] })
  add_model p value b v t = record {
    few_models =
        rw (length-append_one p.models value) (room max_greeting_models (length p.models) t);
    few_cached = b.few_cached;
    few_speeds = b.few_speeds;
    few_links = b.few_links;
    hashes = all-append_one valid_hash p.models value b.hashes (hex_string-valid_hash value v);
    ranges = b.ranges;
    measured = b.measured;
    rates = b.rates;
    pace = b.pace;
  }

  pub add_cached :
      (p : ProviderCapability d) (range : CachedRange)
      → IsBounded p
      → sound_range range ≡ true
      → not (leb max_greeting_cached (length p.cached)) ≡ true
      → IsBounded (record p { cached = p.cached ++ range ∷ [] })
  add_cached p range b v t = record {
    few_models = b.few_models;
    few_cached =
        rw (length-append_one p.cached range) (room max_greeting_cached (length p.cached) t);
    few_speeds = b.few_speeds;
    few_links = b.few_links;
    hashes = b.hashes;
    ranges = all-append_one sound_range p.cached range b.ranges v;
    measured = b.measured;
    rates = b.rates;
    pace = b.pace;
  }

  pub add_speed :
      (p : ProviderCapability d) (r : SpeedRecord d)
      → IsBounded p
      → IsSpeed d now r
      → not (leb max_speed_records (length p.speeds)) ≡ true
      → IsBounded (record p { speeds = p.speeds ++ r ∷ [] })
  add_speed p r b v t = record {
    few_models = b.few_models;
    few_cached = b.few_cached;
    few_speeds = rw (length-append_one p.speeds r) (room max_speed_records (length p.speeds) t);
    few_links = b.few_links;
    hashes = b.hashes;
    ranges = b.ranges;
    measured = AllSpeeds-append_one d now p.speeds r b.measured v;
    rates = b.rates;
    pace = b.pace;
  }

  pub add_link :
      (p : ProviderCapability d) (link : PeerLink)
      → IsBounded p
      → valid_link link ≡ true
      → not (leb max_greeting_links (length p.links)) ≡ true
      → IsBounded (record p { links = p.links ++ link ∷ [] })
  add_link p link b v t = record {
    few_models = b.few_models;
    few_cached = b.few_cached;
    few_speeds = b.few_speeds;
    few_links = rw (length-append_one p.links link) (room max_greeting_links (length p.links) t);
    hashes = b.hashes;
    ranges = b.ranges;
    measured = b.measured;
    rates = all-append_one valid_link p.links link b.rates v;
    pace = b.pace;
  }

  pub set_links :
      (p : ProviderCapability d) (links : List PeerLink)
      → IsBounded p
      → length links ≡ length p.links
      → all valid_link links ≡ true
      → IsBounded (record p { links = links })
  set_links p links b n v = record {
    few_models = b.few_models;
    few_cached = b.few_cached;
    few_speeds = b.few_speeds;
    few_links = rw n b.few_links;
    hashes = b.hashes;
    ranges = b.ranges;
    measured = b.measured;
    rates = v;
    pace = b.pace;
  }

  pub set_pace :
      (p : ProviderCapability d) (n : ℕ)
      → IsBounded p
      → leb n max_us_per_gib ≡ true
      → IsBounded (record p { speed_us_per_gib = n })
  set_pace p n b t = record {
    few_models = b.few_models;
    few_cached = b.few_cached;
    few_speeds = b.few_speeds;
    few_links = b.few_links;
    hashes = b.hashes;
    ranges = b.ranges;
    measured = b.measured;
    rates = b.rates;
    pace = ground (arith, t);
  }

  pub no_capability-AreBounded : IsBounded (no_capability d)
  no_capability-AreBounded = record {
    few_models = omega arith;
    few_cached = omega arith;
    few_speeds = omega arith;
    few_links = omega arith;
    ranges = refl;
    rates = refl;
    hashes = refl;
    measured = tt;
    pace = omega arith;
  }
