-- ===== src/Formation/Greeting.antt =====
-- formation.hpp, lines 22 to 70 and 158 to 189: what a worker offers, and the text that says so.
pub mod Parse
use dan.Common.{
  ℕ, ◌*◌, ◌^◌, Bool, true, false, not, ◌&&◌, ◌||◌, List, [], ◌∷◌, ◌++◌, map, Option, none, some,
  Bytes, ◌==◌, if◌then◌else◌, ℤ,
}
use dan.Common.Double.{Doubles}
use dan.Common.Text.{codes, to_string, int_to_string}
use dan.Common.Text.Entries.{entries_text, when}
use dan.Protocol.Endpoints.{is_empty}
use dan.Model.{ModelIndex}
use dan.Planner.Sizes.{StageAssignment}
use dan.Planner.Stages.{plan_stages}
use dan.Planner.Stages.Cuts.{Share}
use dan.Measurement.{SpeedRecord}
use dan.Measurement.Texts.{speed_text}

pub record CachedRange : Type 0 where
  pub model_sha256 : Bytes
  pub begin : ℤ
  pub end : ℤ

pub record PeerLink : Type 0 where
  pub peer : Bytes
  pub rtt_ms : ℕ
  pub relayed : Bool
  pub kib_per_s : ℕ

pub record ProviderCapability (d : Doubles) : Type 0 where
  pub id : Bytes
  pub gpu : Bytes
  pub offered_vram_mib : ℕ
  pub ring_endpoint : Bytes
  pub state : Bytes
  pub runtime_abi : Bytes
  pub max_context : ℕ
  pub max_sessions : ℕ
  pub models : List Bytes
  pub cached : List CachedRange
  pub speed_us_per_gib : ℕ
  pub speeds : List (SpeedRecord d)
  pub idle_s : Option ℕ
  pub open_sessions : ℕ
  pub links : List PeerLink
  pub replica_owner : Bool
  pub f16_activations : Bool
  pub fp8_activations : Bool

-- `provider = {}`
abbrev pub no_capability : (d : Doubles) → ProviderCapability d
no_capability d = record {
  id = [];
  gpu = [];
  offered_vram_mib = 0;
  ring_endpoint = [];
  state = [];
  runtime_abi = [];
  max_context = 0;
  max_sessions = 0;
  models = [];
  cached = [];
  speed_us_per_gib = 0;
  speeds = [];
  idle_s = none;
  open_sessions = 0;
  links = [];
  replica_owner = false;
  f16_activations = false;
  fp8_activations = false;
}

-- `text += "\nkey=value"` where the value is set.
abbrev pub text_entry : Bytes → Bytes → List (Bytes × Bytes)
text_entry key value = when (not (is_empty value)) (key, value) []

abbrev pub number_entry : Bytes → ℕ → List (Bytes × Bytes)
number_entry key value = when (not (value == 0)) (key, to_string value) []

abbrev pub cached_text : CachedRange → Bytes
cached_text range =
    range.model_sha256 ++ b':' ∷ int_to_string range.begin ++ b'-' ∷ int_to_string range.end

abbrev pub link_entries : List PeerLink → List (Bytes × Bytes)
link_entries [] = []
link_entries (link ∷ links) =
    (
      codes "link",
      link.peer
          ++ b':' ∷ to_string link.rtt_ms
          ++ b':' ∷ codes (if link.relayed then "relay" else "direct"),
    )
    ∷ when (not (link.kib_per_s == 0))
        (codes "link_bw", link.peer ++ b':' ∷ to_string link.kib_per_s) (link_entries links)

abbrev pub idle_entries : Option ℕ → ℕ → List (Bytes × Bytes)
idle_entries none sessions = []
idle_entries (some seconds) sessions =
    (codes "idle_s", to_string seconds) ∷ (codes "open_sessions", to_string sessions) ∷ []

abbrev pub format_entries : Bool → Bool → List (Bytes × Bytes)
format_entries f16 fp8 =
    when (f16 || fp8)
      (
        codes "activations",
        (if f16 then codes "f16" else [])
            ++ (if f16 && fp8 then codes "," else [])
            ++ (if fp8 then codes "fp8" else []),
      )
      []

module _ (d : Doubles) where
  -- `now` is the time that the system clock gives.
  unfoldable pub available_entries : ProviderCapability d → ℤ → List (Bytes × Bytes)
  available_entries p now =
      (codes "id", p.id)
        ∷ (codes "gpu", p.gpu)
        ∷ (codes "vram_mib", to_string p.offered_vram_mib)
        ∷ text_entry (codes "ring") p.ring_endpoint
      ++ text_entry (codes "state") p.state
      ++ text_entry (codes "abi") p.runtime_abi
      ++ number_entry (codes "max_context") p.max_context
      ++ number_entry (codes "max_sessions") p.max_sessions
      ++ map (λ model. (codes "model", model)) p.models
      ++ map (λ range. (codes "cached", cached_text range)) p.cached
      ++ number_entry (codes "speed") p.speed_us_per_gib
      ++ map (λ r. (codes "measured", speed_text d r now)) p.speeds
      ++ idle_entries p.idle_s p.open_sessions
      ++ link_entries p.links
      ++ when p.replica_owner (codes "owner", codes "1") []
      ++ format_entries p.f16_activations p.fp8_activations

  unfoldable pub available_message : ProviderCapability d → ℤ → Bytes
  unfolding available_entries
  available_message p now = entries_text (available_entries p now)

  -- `minimum_stages` is 1 where the caller gives none.
  unfoldable pub plan_replica :
      Share → ModelIndex → List (ProviderCapability d) → ℕ → ℕ → ℕ → Option (List StageAssignment)
  unfolding plan_stages
  plan_replica share model providers context sessions minimum_stages = plan_stages share (record {
    model = model;
    offered_mib = map (λ p. p.offered_vram_mib) providers;
    context = context;
    sessions = sessions;
    minimum_stages = minimum_stages;
    head = none;
  })
