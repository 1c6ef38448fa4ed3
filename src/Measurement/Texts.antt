-- ===== src/Measurement/Texts.antt =====
-- measurement.hpp, speed_text and parse_speed_text: a record as seven fields with colons.
pub mod RoundTrip
use dan.Common.{
  ℕ, zero, suc, ◌-◌, ◌*◌, ◌^◌, Bool, true, false, not, ◌&&◌, ◌||◌, List, [], ◌∷◌, ◌++◌, Option,
  none, some, Bytes, bytes_eq, ltb, leb, ◌==◌, if◌then◌else◌, ◌>>=◌, ℤ, pos, negsuc, ◌-ℤ◌, length,
  all,
}
use dan.Common.Double.{Doubles}
use dan.Common.Text.{codes, split_at, to_string, parse_unsigned}
use dan.Measurement.{
  Phase, decode, prefill, SpeedKey, SpeedRecord, context_bucket, sessions_bucket, max_us_per_gib,
  speed_max_age_s,
}
use dan.Measurement.Speeds.{u32_max}

abbrev pub phase_text : Phase → Bytes
phase_text decode = codes "d"
phase_text prefill = codes "p"

-- `static_cast<std::uint64_t>` of an int64_t, and `std::max<std::int64_t>(0, ...)`.
abbrev pub as_u64 : ℤ → ℕ
as_u64 (pos n) = n
as_u64 (negsuc n) = 2 ^ 64 - 1 - n

abbrev pub at_least_0 : ℤ → ℕ
at_least_0 (pos n) = n
at_least_0 (negsuc n) = 0

-- The fields with a colon between them.
abbrev pub joined : List Bytes → Bytes
joined [] = []
joined (field ∷ []) = field
joined (field ∷ next ∷ fields) = field ++ b':' ∷ joined (next ∷ fields)

-- Exactly so many fields: a colon behind each but the last, and none in the last.
unfoldable pub fields_of : ℕ → Bytes → Option (List Bytes)
fields_of zero text = none
fields_of (suc zero) text = elim (split_at b':' text) [ none ↦ some (text ∷ []) | some _ ↦ none ]
fields_of (suc (suc n)) text = elim (split_at b':' text) [
  | none ↦ none
  | some (field, rest) ↦ elim (fields_of (suc n) rest) [
    | none ↦ none
    | some fields ↦ some (field ∷ fields)
  ]
]

abbrev pub is_lower_hex : ℕ → Bool
is_lower_hex c = (leb b'0' c && leb c b'9') || (leb b'a' c && leb c b'f')

-- The tests on the first two fields.
unfoldable pub valid_names : Bytes → Bytes → Bool
valid_names model phase =
    length model == 64
    && all is_lower_hex model
    && (bytes_eq phase (codes "d") || bytes_eq phase (codes "p"))

-- The tests on the numbers.
unfoldable pub valid_numbers : ℕ → ℕ → ℕ → ℕ → ℕ → Bool
unfolding context_bucket sessions_bucket
valid_numbers context sessions speed samples age =
    context == context_bucket context
    && sessions == sessions_bucket sessions
    && not (speed == 0)
    && leb speed max_us_per_gib
    && not (samples == 0)
    && leb age (speed_max_age_s * 4)

module _ (d : Doubles) where
  unfoldable pub speed_fields : SpeedRecord d → ℤ → List Bytes
  speed_fields r now =
      r.key.model_sha256
      ∷ phase_text r.key.phase
      ∷ to_string r.key.context
      ∷ to_string r.key.sessions
      ∷ to_string (as_u64 (d.llround r.us_per_gib))
      ∷ to_string r.samples
      ∷ to_string (at_least_0 (now -ℤ r.updated_unix_s))
      ∷ []

  unfoldable pub speed_text : SpeedRecord d → ℤ → Bytes
  unfolding speed_fields
  speed_text r now = joined (speed_fields r now)

  abbrev pub parsed_speed : Bytes → Bytes → ℕ → ℕ → ℕ → ℕ → ℕ → ℤ → SpeedRecord d
  parsed_speed model phase context sessions speed samples age now = record {
    key = record {
      model_sha256 = model;
      phase = if bytes_eq phase (codes "d") then decode else prefill;
      context = context;
      sessions = sessions;
    };
    us_per_gib = d.of_nat speed;
    samples = samples;
    updated_unix_s = now -ℤ pos age;
  }

  -- The tests behind the reads of the numbers.
  abbrev pub checked_speed : Bytes → Bytes → ℕ → ℕ → ℕ → ℕ → ℕ → ℤ → Option (SpeedRecord d)
  checked_speed model phase context sessions speed samples age now =
      if valid_numbers context sessions speed samples age
      then some (parsed_speed model phase context sessions speed samples age now)
      else none

  unfoldable pub parse_numbers :
      Bytes → Bytes → Bytes → Bytes → Bytes → Bytes → Bytes → ℤ → Option (SpeedRecord d)
  unfolding valid_numbers
  parse_numbers model phase f2 f3 f4 f5 f6 now = do
    context ← parse_unsigned u32_max f2
    sessions ← parse_unsigned u32_max f3
    speed ← parse_unsigned (2 ^ 64 - 1) f4
    samples ← parse_unsigned u32_max f5
    age ← parse_unsigned (2 ^ 64 - 1) f6
    checked_speed model phase context sessions speed samples age now

  unfoldable pub parse_fields : List Bytes → ℤ → Option (SpeedRecord d)
  unfolding valid_names parse_numbers
  parse_fields (model ∷ phase ∷ f2 ∷ f3 ∷ f4 ∷ f5 ∷ f6 ∷ []) now =
      if valid_names model phase then parse_numbers model phase f2 f3 f4 f5 f6 now else none
  parse_fields _ now = none

  unfoldable pub parse_speed_text : Bytes → ℤ → Option (SpeedRecord d)
  unfolding fields_of parse_fields
  parse_speed_text text now = elim (fields_of 7 text) [
    | none ↦ none
    | some fields ↦ parse_fields fields now
  ]
