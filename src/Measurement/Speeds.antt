-- ===== src/Measurement/Speeds.antt =====
-- measurement.hpp, SpeedTable and estimate_speed.
pub mod Table
pub mod Estimate
use dan.Common.{
  ℕ, zero, suc, ◌+◌, ◌-◌, ◌^◌, Bool, true, false, not, ◌&&◌, ◌||◌, List, [], ◌∷◌, ◌++◌, Option,
  none, some, bytes_eq, ltb, leb, ◌==◌, if◌then◌else◌, ℤ, pos, int_lt, ◌-ℤ◌, length, min,
}
use dan.Common.Double.{Doubles}
use dan.Measurement.{
  SpeedKey, SpeedRecord, key_eq, phase_eq, max_speed_records, speed_max_age_s, confident_samples,
  max_us_per_gib,
}

abbrev pub u32_max : ℕ
u32_max = 2 ^ 32 - 1

module _ (d : Doubles) where
  open d use {Double, of_nat, add, mul, div, lt}

  -- `find_if` by key; the records in front of the one found, it, and those behind.
  abbrev pub find_record : SpeedKey → List (SpeedRecord d) → Option (SpeedRecord d)
  find_record key [] = none
  find_record key (r ∷ rs) = if key_eq r.key key then some r else find_record key rs

  -- The write through the iterator of `find_if`.
  unfoldable pub replace_record :
      SpeedKey → SpeedRecord d → List (SpeedRecord d) → List (SpeedRecord d)
  replace_record key new [] = []
  replace_record key new (r ∷ rs) =
      let rest = replace_record key new rs in if key_eq r.key key then new ∷ rs else r ∷ rest

  -- The oldest record of a list and the rest; of equally old ones the first, as `min_element`.
  unfoldable pub older_first : SpeedRecord d → SpeedRecord d → Bool
  older_first r s = not (int_lt s.updated_unix_s r.updated_unix_s)

  abbrev pub take_oldest :
      SpeedRecord d
      → List (SpeedRecord d)
      → Option (SpeedRecord d × List (SpeedRecord d))
      → SpeedRecord d × List (SpeedRecord d)
  take_oldest r rs none = (r, [])
  take_oldest r rs (some (s, rest)) = if older_first r s then (r, rs) else (s, r ∷ rest)

  unfoldable pub erase_oldest : List (SpeedRecord d) → Option (SpeedRecord d × List (SpeedRecord d))
  erase_oldest [] = none
  erase_oldest (r ∷ rs) = some (take_oldest r rs (erase_oldest rs))

  -- `records_.erase(std::min_element(...))`
  unfoldable pub erase_min : List (SpeedRecord d) → List (SpeedRecord d)
  unfolding erase_oldest
  erase_min records = elim (erase_oldest records) [ none ↦ records | some (oldest, rest) ↦ rest ]

  abbrev pub make_room : List (SpeedRecord d) → List (SpeedRecord d)
  make_room records = if leb max_speed_records (length records) then erase_min records else records

  -- What the found record becomes.
  unfoldable pub fold_samples : SpeedRecord d → Double → ℕ → ℤ → SpeedRecord d
  fold_samples r us_per_gib samples now =
      let old_weight = of_nat (min r.samples confident_samples) in
      record r {
        us_per_gib =
            div (add (mul r.us_per_gib old_weight) (mul us_per_gib (of_nat samples)))
              (add old_weight (of_nat samples));
        samples = if ltb (u32_max - samples) r.samples then u32_max else r.samples + samples;
        updated_unix_s = now;
      }

  -- `!(us_per_gib > 0) || us_per_gib > max_us_per_gib || samples == 0`
  unfoldable pub is_nonsense : Double → ℕ → Bool
  is_nonsense us_per_gib samples =
      not (lt (of_nat 0) us_per_gib) || lt (of_nat max_us_per_gib) us_per_gib || samples == 0

  -- What `find_if` found decides between a new record and new samples of an old one.
  abbrev pub store :
      List (SpeedRecord d)
      → SpeedKey
      → Double
      → ℕ
      → ℤ
      → Option (SpeedRecord d)
      → List (SpeedRecord d)
  store records key us_per_gib samples now none =
      make_room records
      ++ record { key = key; us_per_gib = us_per_gib; samples = samples; updated_unix_s = now } ∷ []
  store records key us_per_gib samples now (some r) =
      replace_record key (fold_samples r us_per_gib samples now) records

  unfoldable pub observe : List (SpeedRecord d) → SpeedKey → Double → ℕ → ℤ → List (SpeedRecord d)
  unfolding replace_record erase_min is_nonsense fold_samples
  observe records key us_per_gib samples now =
      if is_nonsense us_per_gib samples
      then records
      else store records key us_per_gib samples now (find_record key records)

  unfoldable pub add_record : List (SpeedRecord d) → SpeedRecord d → List (SpeedRecord d)
  unfolding observe
  add_record records r = observe records r.key r.us_per_gib r.samples r.updated_unix_s

  -- The record passes each test of the `continue` of estimate_speed.
  unfoldable pub is_comparable : SpeedKey → ℤ → SpeedRecord d → Bool
  is_comparable wanted now r =
      bytes_eq r.key.model_sha256 wanted.model_sha256
      && phase_eq r.key.phase wanted.phase
      && leb wanted.context r.key.context
      && leb wanted.sessions r.key.sessions
      && leb confident_samples r.samples
      && not (int_lt (pos speed_max_age_s) (now -ℤ r.updated_unix_s))

  -- `std::tie(context, sessions) < ...`
  abbrev pub is_closer : SpeedRecord d → SpeedRecord d → Bool
  is_closer r s =
      ltb r.key.context s.key.context
      || (r.key.context == s.key.context && ltb r.key.sessions s.key.sessions)

  abbrev pub take_closer : SpeedRecord d → Option (SpeedRecord d) → Option (SpeedRecord d)
  take_closer r none = some r
  take_closer r (some best) = if is_closer r best then some r else some best

  unfoldable pub estimate_loop :
      SpeedKey → ℤ → Option (SpeedRecord d) → List (SpeedRecord d) → Option (SpeedRecord d)
  unfolding is_comparable
  estimate_loop wanted now best [] = best
  estimate_loop wanted now best (r ∷ rs) =
      estimate_loop wanted now (if is_comparable wanted now r then take_closer r best else best) rs

  -- The speed, and whether it is measured.
  unfoldable pub estimate_speed : List (SpeedRecord d) → SpeedKey → ℤ → Double → Double × Bool
  unfolding estimate_loop
  estimate_speed records wanted now fallback = elim (estimate_loop wanted now none records) [
    | none ↦ (fallback, false)
    | some best ↦ (best.us_per_gib, true)
  ]
