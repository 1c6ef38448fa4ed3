-- ===== src/Formation/Greeting/Parse.antt =====
-- formation.hpp, lines 191 to 316: parse_available. The system clock gives one time `now` for the whole
-- text; the code asks it again at each measured speed.
pub mod Fields
pub mod Speeds
pub mod Kept
pub mod Bounds
use dan.Common.{
  ℕ, ◌-◌, ◌*◌, ◌^◌, Bool, true, false, not, ◌&&◌, ◌||◌, List, [], ◌∷◌, ◌++◌, Option, none, some,
  Bytes, bytes_eq, ltb, leb, ◌==◌, if◌then◌else◌, ◌>>=◌, ℤ, pos, int_lt, length,
}
use dan.Common.Double.{Doubles}
use dan.Common.Text.{codes, split_at, parse_unsigned, parse_int}
use dan.Common.Text.Entries.{read_entries, keep_if}
use dan.Protocol.Peers.{valid_peer_id}
use dan.Protocol.Endpoints.{is_empty, valid_ring_target, between_commas}
use dan.Measurement.{max_speed_records, max_us_per_gib}
use dan.Measurement.Speeds.{u32_max}
use dan.Measurement.Texts.{parse_speed_text}
use dan.Formation.Hex.{hex_string}
use dan.Formation.Assignment.{is_one_line}
use dan.Formation.Greeting.{CachedRange, PeerLink, ProviderCapability, no_capability}

abbrev pub max_greeting_bytes : ℕ
max_greeting_bytes = 64 * 1024

abbrev pub max_greeting_name : ℕ
max_greeting_name = 128

abbrev pub max_greeting_vram_mib : ℕ
max_greeting_vram_mib = 16 * 2 ^ 20

abbrev pub max_greeting_context : ℕ
max_greeting_context = 2 ^ 20

abbrev pub max_greeting_sessions : ℕ
max_greeting_sessions = 256

abbrev pub max_greeting_models : ℕ
max_greeting_models = 64

abbrev pub max_greeting_cached : ℕ
max_greeting_cached = 256

abbrev pub max_greeting_layer : ℕ
max_greeting_layer = 4096

abbrev pub max_greeting_links : ℕ
max_greeting_links = 32

abbrev pub max_greeting_kib_per_s : ℕ
max_greeting_kib_per_s = 100 * 2 ^ 20

-- The keys that the chain of tests knows.
pub data GreetingKey : Type 0 where
  is_id is_gpu is_vram is_ring is_state is_abi is_context is_sessions is_model is_cached is_speed
        is_measured is_idle is_open is_link is_link_bw is_owner is_activations is_unknown :
      GreetingKey

abbrev pub greeting_keys : List (Bytes × GreetingKey)
greeting_keys =
    (codes "id", is_id)
    ∷ (codes "gpu", is_gpu)
    ∷ (codes "vram_mib", is_vram)
    ∷ (codes "ring", is_ring)
    ∷ (codes "state", is_state)
    ∷ (codes "abi", is_abi)
    ∷ (codes "max_context", is_context)
    ∷ (codes "max_sessions", is_sessions)
    ∷ (codes "model", is_model)
    ∷ (codes "cached", is_cached)
    ∷ (codes "speed", is_speed)
    ∷ (codes "measured", is_measured)
    ∷ (codes "idle_s", is_idle)
    ∷ (codes "open_sessions", is_open)
    ∷ (codes "link", is_link)
    ∷ (codes "link_bw", is_link_bw)
    ∷ (codes "owner", is_owner)
    ∷ (codes "activations", is_activations)
    ∷ []

unfoldable pub key_of : Bytes → List (Bytes × GreetingKey) → GreetingKey
key_of key [] = is_unknown
key_of key ((name, meaning) ∷ rest) = if bytes_eq key name then meaning else key_of key rest

abbrev pub check : {A : Type 0} → Bool → A → Option A
check test x = if test then some x else none

-- "<sha256>:<begin>-<end>"
abbrev pub valid_range : CachedRange → Bool
valid_range range =
    not (int_lt range.begin (pos 0))
    && int_lt range.begin range.end
    && not (int_lt (pos max_greeting_layer) range.end)

unfoldable pub parse_cached : Bytes → Option CachedRange
parse_cached value = do
  (model, range) ← split_at b':' value
  (first, last) ← split_at b'-' range
  _ ← check (hex_string model 64) model
  begin ← parse_int first
  end ← parse_int last
  keep_if valid_range (some (record { model_sha256 = model; begin = begin; end = end }))

-- "<PeerID>:<rtt ms>:<direct|relay>"
abbrev pub valid_path : Bytes → Bool
valid_path path = bytes_eq path (codes "direct") || bytes_eq path (codes "relay")

unfoldable pub parse_link : Bytes → Option PeerLink
parse_link value = do
  (peer, rest) ← split_at b':' value
  (rtt, path) ← split_at b':' rest
  _ ← check (valid_peer_id peer) peer
  rtt_ms ← parse_unsigned u32_max rtt
  _ ← check (leb rtt_ms 60000 && valid_path path) rtt_ms
  some (record {
    peer = peer;
    rtt_ms = rtt_ms;
    relayed = bytes_eq path (codes "relay");
    kib_per_s = 0;
  })

-- The first link of the peer, which must have no bandwidth yet.
unfoldable pub set_bandwidth : Bytes → ℕ → List PeerLink → Option (List PeerLink)
set_bandwidth peer kib_per_s [] = none
set_bandwidth peer kib_per_s (link ∷ links) =
    if bytes_eq link.peer peer
    then check (link.kib_per_s == 0) (record link { kib_per_s = kib_per_s } ∷ links)
    else (set_bandwidth peer kib_per_s links >>= λ rest. some (link ∷ rest))

unfoldable pub parse_link_bw : Bytes → List PeerLink → Option (List PeerLink)
unfolding set_bandwidth
parse_link_bw value links = do
  (peer, number) ← split_at b':' value
  kib_per_s ← parse_unsigned u32_max number
  _ ← check (not (kib_per_s == 0) && leb kib_per_s max_greeting_kib_per_s) kib_per_s
  set_bandwidth peer kib_per_s links

abbrev pub has_format : Bytes → List Bytes → Bool
has_format name [] = false
has_format name (format ∷ formats) = bytes_eq format name || has_format name formats

module _ (d : Doubles) where
  -- One line of the greeting.
  unfoldable pub take_value :
      GreetingKey → ProviderCapability d → Bytes → ℤ → Option (ProviderCapability d)
  unfolding parse_cached parse_link parse_link_bw parse_speed_text
  take_value is_id p value now = some (record p { id = value })
  take_value is_gpu p value now = some (record p { gpu = value })
  take_value is_vram p value now = do
    n ← parse_unsigned (2 ^ 64 - 1) value
    some (record p { offered_vram_mib = n })
  take_value is_ring p value now = some (record p { ring_endpoint = value })
  take_value is_state p value now = some (record p { state = value })
  take_value is_abi p value now = some (record p { runtime_abi = value })
  take_value is_context p value now = do
    n ← parse_unsigned u32_max value
    some (record p { max_context = n })
  take_value is_sessions p value now = do
    n ← parse_unsigned u32_max value
    some (record p { max_sessions = n })
  take_value is_model p value now =
      check (hex_string value 64 && not (leb max_greeting_models (length p.models)))
        (record p { models = p.models ++ value ∷ [] })
  take_value is_cached p value now = do
    range ← parse_cached value
    check (not (leb max_greeting_cached (length p.cached)))
        (record p { cached = p.cached ++ range ∷ [] })
  take_value is_speed p value now = do
    n ← parse_unsigned (2 ^ 64 - 1) value
    check (leb n max_us_per_gib) (record p { speed_us_per_gib = n })
  take_value is_measured p value now = do
    r ← parse_speed_text d value now
    check (not (leb max_speed_records (length p.speeds))) (record p { speeds = p.speeds ++ r ∷ [] })
  take_value is_idle p value now = do
    n ← parse_unsigned u32_max value
    some (record p { idle_s = some n })
  take_value is_open p value now = do
    n ← parse_unsigned u32_max value
    some (record p { open_sessions = n })
  take_value is_link p value now = do
    link ← parse_link value
    check (not (leb max_greeting_links (length p.links)))
        (record p { links = p.links ++ link ∷ [] })
  take_value is_link_bw p value now = do
    links ← parse_link_bw value p.links
    some (record p { links = links })
  take_value is_owner p value now = some (record p { replica_owner = bytes_eq value (codes "1") })
  take_value is_activations p value now = some (record p {
    f16_activations = p.f16_activations || has_format (codes "f16") (between_commas value);
    fp8_activations = p.fp8_activations || has_format (codes "fp8") (between_commas value);
  })
  take_value is_unknown p value now = some p

  unfoldable pub greeting_step :
      ℤ → ProviderCapability d → Bytes → Bytes → Option (ProviderCapability d)
  unfolding key_of take_value
  greeting_step now p key value = take_value (key_of key greeting_keys) p value now

  unfoldable pub valid_state : Bytes → Bool
  valid_state state =
      is_empty state
      || bytes_eq state (codes "available")
      || bytes_eq state (codes "reserved")
      || bytes_eq state (codes "loading")
      || bytes_eq state (codes "serving")

  -- The sizes and ranges behind the loop, and the rest of the tests.
  unfoldable pub in_bounds : ProviderCapability d → Bool
  in_bounds p =
      leb (length p.id) max_greeting_name
      && leb (length p.gpu) max_greeting_name
      && leb (length p.runtime_abi) max_greeting_name
      && leb p.offered_vram_mib max_greeting_vram_mib
      && leb p.max_context max_greeting_context
      && leb p.max_sessions max_greeting_sessions
      && leb p.open_sessions max_greeting_sessions

  unfoldable pub valid_provider : ProviderCapability d → Bool
  unfolding in_bounds valid_state
  valid_provider p =
      in_bounds p
      && not (is_empty p.id)
      && is_one_line p.id
      && not (is_empty p.gpu)
      && not (p.offered_vram_mib == 0)
      && valid_ring_target p.ring_endpoint
      && valid_state p.state
      && is_one_line p.runtime_abi

  unfoldable pub parse_available : Bytes → ℤ → Option (ProviderCapability d)
  unfolding greeting_step valid_provider
  parse_available text now =
      if ltb max_greeting_bytes (length text)
      then none
      else keep_if valid_provider (read_entries (greeting_step now) (no_capability d) text)
