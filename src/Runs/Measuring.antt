-- ===== src/Runs/Measuring.antt =====
-- measurement.hpp on a small table of speeds.
use dan.Common.{◌≡◌, inl, inr, refl, true, false, [], ◌∷◌, some, Bytes, pos, replicate, arith}
use dan.Measurement.{decode, SpeedKey, SpeedRecord}
use dan.Measurement.Speeds.{is_comparable, is_closer, estimate_speed}
use dan.Measurement.Speeds.Table.{IsTable, add_all, add_all-IsTable}
use dan.Measurement.Speeds.Estimate.{estimate_speed-nearest}
use dan.Measurement.Texts.{valid_names, valid_numbers, phase_text, speed_text, parse_speed_text}
use dan.Measurement.Texts.RoundTrip.{parse_speed_text-speed_text}
use dan.Common.{Member}
use dan.Runs.Speculating.{thousandths}

abbrev model : Bytes
model = replicate 64 b'a'

abbrev small_key : SpeedKey
small_key = record { model_sha256 = model; phase = decode; context = 4096; sessions = 2 }

abbrev large_key : SpeedKey
large_key = record { model_sha256 = model; phase = decode; context = 8192; sessions = 1 }

abbrev small : SpeedRecord thousandths
small = record { key = small_key; us_per_gib = 2000000; samples = 40; updated_unix_s = pos 1000 }

abbrev large : SpeedRecord thousandths
large = record { key = large_key; us_per_gib = 3000000; samples = 50; updated_unix_s = pos 1200 }

add_all-IsTable_example : IsTable thousandths (add_all thousandths [] (small ∷ large ∷ small ∷ []))
add_all-IsTable_example = add_all-IsTable thousandths (small ∷ large ∷ small ∷ [])

large-is_comparable : is_comparable thousandths small_key (pos 2000) large ≡ false
unfolding is_comparable
large-is_comparable = refl

small-is_comparable : is_comparable thousandths small_key (pos 2000) small ≡ true
unfolding is_comparable
small-is_comparable = refl

estimate_speed-nearest_example :
    (best : SpeedRecord thousandths) × (estimate_speed thousandths
        (large ∷ small ∷ [])
        small_key
        (pos 2000)
        7000
      ≡ (best.us_per_gib, true))
    × Member best (large ∷ small ∷ [])
    × (is_comparable thousandths small_key (pos 2000) best ≡ true)
    × (is_closer thousandths small best ≡ false)
estimate_speed-nearest_example =
    estimate_speed-nearest thousandths small_key (pos 2000) (large ∷ small ∷ []) 7000 small
      (inr (inl refl)) small-is_comparable

small-valid_names : valid_names model (phase_text decode) ≡ true
unfolding valid_names
small-valid_names = refl

small-valid_numbers : valid_numbers 4096 2 2000 40 1000 ≡ true
unfolding valid_numbers
small-valid_numbers = refl

parse_speed_text-speed_text_example :
    parse_speed_text thousandths (speed_text thousandths small (pos 2000)) (pos 2000) ≡ some small
parse_speed_text-speed_text_example =
    parse_speed_text-speed_text thousandths small (pos 2000) 2000 (omega arith) (omega arith)
      (omega arith) refl small-valid_names small-valid_numbers
