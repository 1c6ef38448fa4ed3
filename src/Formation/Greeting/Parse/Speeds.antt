-- ===== src/Formation/Greeting/Parse/Speeds.antt =====
-- formation.hpp, parse_available: a speed that a greeting brings, read by parse_speed_text.
use dan.Common.{
  ℕ, ◌≡◌, refl, true, ◌&&◌, List, [], ◌∷◌, ◌++◌, some, Bytes, ◌==◌, ◌^◌, ◌-◌, ℤ, pos, ◌-ℤ◌, length,
  all, arith, Bool-cases, inl, inr, &&-true, Option-cases, ==_iff, ◌≤◌, ◌*◌,
}
use mathlib.Core.Path.{subst}
use dan.Common.Double.{Doubles}
use dan.Common.Text.{parse_unsigned}
use dan.Common.Text.Entries.Keeps.{same_some}
use dan.Measurement.{SpeedRecord, context_bucket, sessions_bucket, max_us_per_gib, speed_max_age_s}
use dan.Measurement.Speeds.{u32_max}
use dan.Measurement.Texts.{
  is_lower_hex, valid_names, valid_numbers, fields_of, parsed_speed, checked_speed, parse_numbers,
  parse_fields, parse_speed_text,
}
use dan.Formation.Greeting.Parse.Fields.{through}

-- The context and the sessions of a bucket, samples, and a speed and an age within their limits.
pub record Numbers (context sessions speed samples age : ℕ) : Type 0 where
  pub in_context : context ≡ context_bucket context
  pub in_sessions : sessions ≡ sessions_bucket sessions
  pub some_samples : 1 ≤ samples
  pub some_speed : 1 ≤ speed
  pub bounded_speed : speed ≤ max_us_per_gib
  pub recent : age ≤ speed_max_age_s * 4

-- A record of a greeting read at `now`: a model by its hash in small letters, the context and the
-- sessions of a bucket, samples, and a whole number of microseconds and an age within their limits.
pub record IsSpeed (d : Doubles) (now : ℤ) (r : SpeedRecord d) : Type 0 where
  pub speed : ℕ
  pub age : ℕ
  pub model : (length r.key.model_sha256 == 64 && all is_lower_hex r.key.model_sha256) ≡ true
  pub numbers : Numbers r.key.context r.key.sessions speed r.samples age
  pub pace : r.us_per_gib ≡ d.of_nat speed
  pub time : r.updated_unix_s ≡ now -ℤ pos age

abbrev pub AllSpeeds : (d : Doubles) → ℤ → List (SpeedRecord d) → Type 0
AllSpeeds d now [] = Unit
AllSpeeds d now (r ∷ rs) = IsSpeed d now r × AllSpeeds d now rs

valid_numbers-Numbers :
    (context sessions speed samples age : ℕ)
    → valid_numbers context sessions speed samples age ≡ true
    → Numbers context sessions speed samples age
unfolding valid_numbers
valid_numbers-Numbers context sessions speed samples age h = record {
  in_context = (==_iff context (context_bucket context)).0 (ground (arith, h));
  in_sessions = (==_iff sessions (sessions_bucket sessions)).0 (ground (arith, h));
  some_samples = ground (arith, h);
  some_speed = ground (arith, h);
  bounded_speed = ground (arith, h);
  recent = ground (arith, h);
}

module _ (d : Doubles) where
  pub AllSpeeds-append_one :
      (now : ℤ) (rs : List (SpeedRecord d)) (r : SpeedRecord d)
      → AllSpeeds d now rs
      → IsSpeed d now r
      → AllSpeeds d now (rs ++ r ∷ [])
  AllSpeeds-append_one now [] r hs h = (h, tt)
  AllSpeeds-append_one now (s ∷ rs) r hs h = (hs.0, AllSpeeds-append_one now rs r hs.1 h)

  parsed_speed-IsSpeed :
      (model phase : Bytes) (context sessions speed samples age : ℕ) (now : ℤ)
      → valid_names model phase ≡ true
      → valid_numbers context sessions speed samples age ≡ true
      → IsSpeed d now (parsed_speed d model phase context sessions speed samples age now)
  unfolding valid_names
  parsed_speed-IsSpeed model phase context sessions speed samples age now names numbers = record {
    speed = speed;
    age = age;
    model = (&&-true (length model == 64 && all is_lower_hex model) _ names).0;
    numbers = valid_numbers-Numbers context sessions speed samples age numbers;
    pace = refl;
    time = refl;
  }

  checked_speed-IsSpeed :
      (model phase : Bytes) (context sessions speed samples age : ℕ) (now : ℤ) (r : SpeedRecord d)
      → valid_names model phase ≡ true
      → checked_speed d model phase context sessions speed samples age now ≡ some r
      → IsSpeed d now r
  checked_speed-IsSpeed model phase context sessions speed samples age now r names h =
      elim (Bool-cases (valid_numbers context sessions speed samples age)) [
        | inl v ↦
            subst (IsSpeed d now) (same_some (rw v at h))
              (parsed_speed-IsSpeed model phase context sessions speed samples age now names v)
        | inr v ↦ absurd (ground (arith, rw v at h))
      ]

  parse_numbers-IsSpeed :
      (model phase f2 f3 f4 f5 f6 : Bytes) (now : ℤ) (r : SpeedRecord d)
      → valid_names model phase ≡ true
      → parse_numbers d model phase f2 f3 f4 f5 f6 now ≡ some r
      → IsSpeed d now r
  unfolding parse_numbers
  parse_numbers-IsSpeed model phase f2 f3 f4 f5 f6 now r names =
      let P = IsSpeed d now in
      through P (parse_unsigned u32_max f2) _ r (λ context _.
        through P (parse_unsigned u32_max f3) _ r (λ sessions _.
          through P (parse_unsigned (2 ^ 64 - 1) f4) _ r (λ speed _.
            through P (parse_unsigned u32_max f5) _ r (λ samples _.
              through P (parse_unsigned (2 ^ 64 - 1) f6) _ r (λ age _.
                checked_speed-IsSpeed model phase context sessions speed samples age now r
                  names)))))

  parse_fields-IsSpeed :
      (fields : List Bytes) (now : ℤ) (r : SpeedRecord d)
      → parse_fields d fields now ≡ some r
      → IsSpeed d now r
  unfolding parse_fields
  parse_fields-IsSpeed (model ∷ phase ∷ f2 ∷ f3 ∷ f4 ∷ f5 ∷ f6 ∷ []) now r h =
      elim (Bool-cases (valid_names model phase)) [
        | inl v ↦ parse_numbers-IsSpeed model phase f2 f3 f4 f5 f6 now r v (rw v at h)
        | inr v ↦ absurd (ground (arith, rw v at h))
      ]
  parse_fields-IsSpeed _ now r h = absurd (ground (arith, h))

  pub parse_speed_text-IsSpeed :
      (text : Bytes) (now : ℤ) (r : SpeedRecord d)
      → parse_speed_text d text now ≡ some r
      → IsSpeed d now r
  unfolding parse_speed_text
  parse_speed_text-IsSpeed text now r h = elim (Option-cases (fields_of 7 text)) [
    | inl e ↦ absurd (ground (arith, rw (e, parse_speed_text) at h))
    | inr (fields, e) ↦ parse_fields-IsSpeed fields now r (rw (e, parse_speed_text) at h)
  ]
