-- ===== src/Formation/Greeting/Parse/Bounds.antt =====
-- formation.hpp, parse_available: what a peer sends cannot exceed the bounds of a greeting.
use mathlib.Core.Path.{subst}
use dan.Common.{
  ◌-◌, ◌^◌, ◌≤◌, ◌≡◌, Bool, true, not, ◌&&◌, [], ◌∷◌, ◌++◌, Option, some, Bytes, ltb, leb, ◌>>=◌, ℤ,
  length, arith, Bool-cases, inl, inr, &&-true,
}
use dan.Common.Double.{Doubles}
use dan.Common.Text.{parse_unsigned}
use dan.Common.Text.Entries.{read_entries}
use dan.Common.Text.Entries.Keeps.{same_some, read_entries-keeps}
use dan.Measurement.{max_speed_records, max_us_per_gib}
use dan.Measurement.Speeds.{u32_max}
use dan.Measurement.Texts.{parse_speed_text}
use dan.Formation.Hex.{hex_string}
use dan.Formation.Greeting.{ProviderCapability, no_capability}
use dan.Formation.Greeting.Parse.{
  GreetingKey, is_id, is_gpu, is_vram, is_ring, is_state, is_abi, is_context, is_sessions, is_model,
  is_cached, is_speed, is_measured, is_idle, is_open, is_link, is_link_bw, is_owner, is_activations,
  is_unknown, greeting_keys, key_of, check, parse_cached, parse_link, parse_link_bw, take_value,
  greeting_step, in_bounds, valid_provider, parse_available, max_greeting_models,
  max_greeting_cached, max_greeting_links, max_greeting_bytes,
}
use dan.Formation.Greeting.Parse.Fields.{
  through, check-some, parse_cached-sound_range, parse_link-valid_link, parse_link_bw-all,
  keep_if-some, keep_if-true,
}
use dan.Formation.Greeting.Parse.Speeds.{parse_speed_text-IsSpeed}
use dan.Formation.Greeting.Parse.Kept.{
  AreBounded, IsBounded, add_model, add_cached, add_speed, add_link, set_links, set_pace,
  no_capability-AreBounded,
}

-- The single values of a greeting within their limits.
pub record InLimits (d : Doubles) (q : ProviderCapability d) : Type 0 where
  pub id : length q.id ≤ 128
  pub gpu : length q.gpu ≤ 128
  pub abi : length q.runtime_abi ≤ 128
  pub vram : q.offered_vram_mib ≤ 2 ^ 24
  pub context : q.max_context ≤ 2 ^ 20
  pub sessions : q.max_sessions ≤ 256
  pub open_sessions : q.open_sessions ≤ 256

module _ (d : Doubles) (now : ℤ) where
  kept : (p q : ProviderCapability d) → some p ≡ some q → IsBounded d now p → IsBounded d now q
  kept p q e b = subst (IsBounded d now) (same_some e) b

  -- An answer that keeps the four lists, whatever the number that is read.
  kept_number :
      {A : Type 0} (o : Option A) (f : A → ProviderCapability d) (q : ProviderCapability d)
      → ((x : A) → IsBounded d now (f x))
      → (o >>= λ x. some (f x)) ≡ some q
      → IsBounded d now q
  kept_number o f q b =
      through (IsBounded d now) o (λ x. some (f x)) q (λ x _ e. kept (f x) q e (b x))

  kept_check :
      (test : Bool) (p q : ProviderCapability d)
      → (test ≡ true → IsBounded d now p)
      → check test p ≡ some q
      → IsBounded d now q
  kept_check test p q b h = let (t, e) = check-some test p q h in subst (IsBounded d now) e (b t)

  take_value-AreBounded :
      (key : GreetingKey) (p q : ProviderCapability d) (value : Bytes)
      → IsBounded d now p
      → take_value d key p value now ≡ some q
      → IsBounded d now q
  unfolding take_value
  take_value-AreBounded is_id p q value b h = kept _ q h b
  take_value-AreBounded is_gpu p q value b h = kept _ q h b
  take_value-AreBounded is_vram p q value b h =
      kept_number (parse_unsigned (2 ^ 64 - 1) value) _ q (λ _. b) h
  take_value-AreBounded is_ring p q value b h = kept _ q h b
  take_value-AreBounded is_state p q value b h = kept _ q h b
  take_value-AreBounded is_abi p q value b h = kept _ q h b
  take_value-AreBounded is_context p q value b h =
      kept_number (parse_unsigned u32_max value) _ q (λ _. b) h
  take_value-AreBounded is_sessions p q value b h =
      kept_number (parse_unsigned u32_max value) _ q (λ _. b) h
  take_value-AreBounded is_model p q value b h =
      kept_check (hex_string value 64 && not (leb max_greeting_models (length p.models)))
        (record p { models = p.models ++ value ∷ [] }) q
        (λ t.
          let (hex, few) =
            &&-true (hex_string value 64) (not (leb max_greeting_models (length p.models))) t in
          add_model d now p value b hex few)
        h
  take_value-AreBounded is_cached p q value b h =
      through (IsBounded d now) (parse_cached value) _ q
        (λ range e.
          kept_check (not (leb max_greeting_cached (length p.cached)))
            (record p { cached = p.cached ++ range ∷ [] }) q
            (add_cached d now p range b (parse_cached-sound_range value range e)))
        h
  take_value-AreBounded is_speed p q value b h =
      through (IsBounded d now) (parse_unsigned (2 ^ 64 - 1) value) _ q
        (λ n _.
          kept_check (leb n max_us_per_gib) (record p { speed_us_per_gib = n }) q
            (set_pace d now p n b))
        h
  take_value-AreBounded is_measured p q value b h =
      through (IsBounded d now) (parse_speed_text d value now) _ q
        (λ r e.
          kept_check (not (leb max_speed_records (length p.speeds)))
            (record p { speeds = p.speeds ++ r ∷ [] }) q
            (add_speed d now p r b (parse_speed_text-IsSpeed d value now r e)))
        h
  take_value-AreBounded is_idle p q value b h =
      kept_number (parse_unsigned u32_max value) _ q (λ _. b) h
  take_value-AreBounded is_open p q value b h =
      kept_number (parse_unsigned u32_max value) _ q (λ _. b) h
  take_value-AreBounded is_link p q value b h =
      through (IsBounded d now) (parse_link value) _ q
        (λ link e.
          kept_check (not (leb max_greeting_links (length p.links)))
            (record p { links = p.links ++ link ∷ [] }) q
            (add_link d now p link b (parse_link-valid_link value link e)))
        h
  take_value-AreBounded is_link_bw p q value b h =
      through (IsBounded d now) (parse_link_bw value p.links)
        (λ links. some (record p { links = links })) q
        (λ links e found.
          kept (record p { links = links }) q found
            (let (v, n) = parse_link_bw-all value p.links links b.rates e in
              set_links d now p links b n v))
        h
  take_value-AreBounded is_owner p q value b h = kept _ q h b
  take_value-AreBounded is_activations p q value b h = kept _ q h b
  take_value-AreBounded is_unknown p q value b h = kept p q h b

  greeting_step-AreBounded :
      (p q : ProviderCapability d) (key value : Bytes)
      → IsBounded d now p
      → greeting_step d now p key value ≡ some q
      → IsBounded d now q
  unfolding greeting_step
  greeting_step-AreBounded p q key value b h =
      take_value-AreBounded (key_of key greeting_keys) p q value b h

  in_bounds-InLimits : (q : ProviderCapability d) → in_bounds d q ≡ true → InLimits d q
  unfolding in_bounds
  in_bounds-InLimits q h = record {
    id = ground (arith, h);
    gpu = ground (arith, h);
    abi = ground (arith, h);
    vram = ground (arith, h);
    context = ground (arith, h);
    sessions = ground (arith, h);
    open_sessions = ground (arith, h);
  }

  valid_provider-InLimits : (q : ProviderCapability d) → valid_provider d q ≡ true → InLimits d q
  unfolding valid_provider
  valid_provider-InLimits q h = in_bounds-InLimits q (ground (arith, h))

  -- A greeting that is accepted, whoever sent it and whatever it says, has at most 64 models, 256
  -- cached ranges, 64 measured speeds and 32 links. Each model is a hash of 64 hex digits; each
  -- cached range is of such a model and of layers from 0 to 4096, and not empty; each measured speed
  -- is of such a model in small letters, at the context and sessions of a bucket, from at least one
  -- sample, of 1 to 10^9 microseconds per GiB, and at most 28 days old; the speed of the old form is
  -- at most 10^9; each link is to a valid peer id, with a round trip of at most 60 seconds and a
  -- rate of at most 100 GiB/s. The id, the GPU and the runtime are of at most 128 bytes, the memory
  -- is at most 2^24 MiB, the context at most 2^20, the sessions and the open sessions at most 256,
  -- and the text is of at most 64 KiB.
  pub parse_available-AreBounded :
      (text : Bytes) (q : ProviderCapability d)
      → parse_available d text now ≡ some q
      → AreBounded d now q.models q.cached q.speeds q.links q.speed_us_per_gib
        × InLimits d q
        × (length text ≤ max_greeting_bytes)
  unfolding parse_available
  parse_available-AreBounded text q h = elim (Bool-cases (ltb max_greeting_bytes (length text))) [
    | inl long ↦ absurd (ground (arith, rw long at h))
    | inr short ↦
        let read = rw short at h in
        (
          read_entries-keeps (IsBounded d now) (greeting_step d now) greeting_step-AreBounded
              (no_capability d) q text (no_capability-AreBounded d now)
              (keep_if-some (valid_provider d)
                (read_entries (greeting_step d now) (no_capability d) text) q read),
          valid_provider-InLimits q (
              keep_if-true (valid_provider d)
                (read_entries (greeting_step d now) (no_capability d) text) q read),
          ground (arith, short),
        )
  ]
