-- ===== src/Measurement/Texts/RoundTrip.antt =====
-- measurement.hpp: a record that speed_text writes is read back by parse_speed_text.
use dan.Common.{
  ℕ, ◌-◌, ◌^◌, ◌<◌, ◌≡◌, refl, Bool, true, ◌&&◌, ◌||◌, List, [], ◌∷◌, some, Bytes, bytes_eq, ◌==◌,
  if◌then◌else◌, ℤ, pos, ◌-ℤ◌, length, all, arith,
}
use dan.Common.Double.{Doubles}
use dan.Common.Text.{codes, to_string}
use dan.Common.Text.Decimal.{
  lacks, split_at-lacks, split_at_none, to_string-lacks, parse_unsigned-to_string,
}
use dan.Measurement.{Phase, decode, prefill, SpeedRecord}
use dan.Measurement.Speeds.{u32_max}
use dan.Measurement.Texts.{
  phase_text, as_u64, at_least_0, joined, fields_of, is_lower_hex, valid_names, valid_numbers,
  checked_speed, parse_numbers, parse_fields, speed_fields, speed_text, parse_speed_text,
}

AllLack : List Bytes → Type 0
AllLack [] = Unit
AllLack (field ∷ fields) = (lacks b':' field ≡ true) × AllLack fields

fields_of-joined :
    (field : Bytes) (fields : List Bytes)
    → AllLack (field ∷ fields)
    → fields_of (length (field ∷ fields)) (joined (field ∷ fields)) ≡ some (field ∷ fields)
unfolding fields_of AllLack
fields_of-joined field [] (h, _) = rw (split_at_none b':' field h, fields_of) refl
fields_of-joined field (next ∷ fields) (h, hs) =
    rw
      (
        split_at-lacks b':' field (joined (next ∷ fields)) h,
        fields_of-joined next fields hs,
        fields_of,
      )
      refl

hex-lacks : (model : Bytes) → all is_lower_hex model ≡ true → lacks b':' model ≡ true
hex-lacks [] h = refl
hex-lacks (c ∷ model) h = ground (arith, hex-lacks model)

phase-lacks : (p : Phase) → lacks b':' (phase_text p) ≡ true
phase-lacks decode = refl
phase-lacks prefill = refl

-- What `std::from_chars` makes of the numbers of the fields.
read_numbers :
    (d : Doubles) (model phase : Bytes) (context sessions speed samples age : ℕ) (now : ℤ)
    → context < 2 ^ 32
    → sessions < 2 ^ 32
    → speed < 2 ^ 64
    → samples < 2 ^ 32
    → age < 2 ^ 64
    → parse_numbers d model phase
        (to_string context)
        (to_string sessions)
        (to_string speed)
        (to_string samples)
        (to_string age)
        now
      ≡ checked_speed d model phase context sessions speed samples age now
unfolding parse_numbers
read_numbers d model phase context sessions speed samples age now c s v n a =
    rw
      (
        parse_unsigned-to_string u32_max context (omega arith) (omega arith),
        parse_unsigned-to_string u32_max sessions (omega arith) (omega arith),
        parse_unsigned-to_string (2 ^ 64 - 1) speed (omega arith) v,
        parse_unsigned-to_string u32_max samples (omega arith) (omega arith),
        parse_unsigned-to_string (2 ^ 64 - 1) age (omega arith) a,
      )
      refl

speed_lt :
    (context sessions speed samples age : ℕ)
    → valid_numbers context sessions speed samples age ≡ true
    → (speed < 2 ^ 64) × (age < 2 ^ 64)
unfolding valid_numbers
speed_lt context sessions speed samples age h = ground (arith, h)

names-hex : (a b c : Bool) → a && b && c ≡ true → b ≡ true
names-hex a b c h = ground arith

fields-AllLack :
    (d : Doubles) (r : SpeedRecord d) (now : ℤ)
    → valid_names r.key.model_sha256 (phase_text r.key.phase) ≡ true
    → AllLack (speed_fields d r now)
unfolding AllLack speed_fields valid_names
fields-AllLack d r now h = (
  hex-lacks r.key.model_sha256 (
      names-hex (length r.key.model_sha256 == 64) (all is_lower_hex r.key.model_sha256)
        (bytes_eq (phase_text r.key.phase) (codes "d")
          || bytes_eq (phase_text r.key.phase) (codes "p"))
        h),
  (
    phase-lacks r.key.phase,
    (
      to_string-lacks b':' r.key.context refl,
      (
        to_string-lacks b':' r.key.sessions refl,
        (
          to_string-lacks b':' (as_u64 (d.llround r.us_per_gib)) refl,
          (
            to_string-lacks b':' r.samples refl,
            (to_string-lacks b':' (at_least_0 (now -ℤ r.updated_unix_s)) refl, tt),
          ),
        ),
      ),
    ),
  ),
)

phase_again : (p : Phase) → (if bytes_eq (phase_text p) (codes "d") then decode else prefill) ≡ p
phase_again decode = refl
phase_again prefill = refl

-- A record with the names and numbers that the parser wants, whose speed rounds to `speed`, is read
-- back from its text at the same time `now`: with the rounded speed, and with the age that the text
-- keeps in place of the time stamp.
pub parse_speed_text-speed_text :
    (d : Doubles) (r : SpeedRecord d) (now : ℤ) (speed : ℕ)
    → r.key.context < 2 ^ 32
    → r.key.sessions < 2 ^ 32
    → r.samples < 2 ^ 32
    → d.llround r.us_per_gib ≡ pos speed
    → valid_names r.key.model_sha256 (phase_text r.key.phase) ≡ true
    → valid_numbers r.key.context r.key.sessions speed r.samples
        (at_least_0 (now -ℤ r.updated_unix_s))
      ≡ true
    → parse_speed_text d (speed_text d r now) now
      ≡ some (record r {
        us_per_gib = d.of_nat speed;
        updated_unix_s = now -ℤ pos (at_least_0 (now -ℤ r.updated_unix_s));
      })
unfolding parse_speed_text speed_text speed_fields parse_fields
parse_speed_text-speed_text d r now speed c s n e names numbers =
    let context = r.key.context in
    let sessions = r.key.sessions in
    let age = at_least_0 (now -ℤ r.updated_unix_s) in
    let (v, a) = speed_lt context sessions speed r.samples age numbers in
    let read =
      read_numbers d r.key.model_sha256 (phase_text r.key.phase) context sessions speed r.samples
        age now c s v n a in
    rw
      (
        fields_of-joined r.key.model_sha256
            (phase_text r.key.phase
              ∷ to_string context
              ∷ to_string sessions
              ∷ to_string (as_u64 (d.llround r.us_per_gib))
              ∷ to_string r.samples
              ∷ to_string age
              ∷ [])
            (fields-AllLack d r now names),
        names,
        e,
        read,
        numbers,
        phase_again r.key.phase,
        parse_speed_text,
        parse_fields,
      )
      refl
