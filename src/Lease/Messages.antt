-- ===== src/Lease/Messages.antt =====
-- lease.hpp, lines 52 to 96: a StageRequest as text.
pub mod RoundTrip
use mathlib.Core.Option
use dan.Common.{
  ℕ, ◌-◌, ◌^◌, Bool, true, false, not, ◌&&◌, ◌||◌, List, [], ◌∷◌, Option, none, some, Bytes,
  bytes_eq, leb, ◌==◌, if◌then◌else◌, ℤ, pos, negsuc, int_lt,
}
use dan.Common.Text.{codes, to_string, int_to_string, parse_unsigned, parse_int}
use dan.Common.Text.Entries.{entries_text, read_entries, keep_if, when}
use dan.Protocol.Frame.{DType}
use dan.Protocol.Endpoints.{is_empty}
use dan.Formation.Hex.{hex_string}
use dan.Lease.{StageRequest, empty_request, max_lease_ms}

abbrev pub activation_entries : DType → List (Bytes × Bytes)
activation_entries DType.f16le = (codes "activations", codes "f16") ∷ []
activation_entries DType.fp8e4m3 = (codes "activations", codes "fp8") ∷ []
activation_entries _ = []

unfoldable pub stage_request_entries : StageRequest → List (Bytes × Bytes)
stage_request_entries r =
    (codes "route_id", r.route_id)
    ∷ (codes "model_sha256", r.model_sha256)
    ∷ (codes "begin", int_to_string r.begin)
    ∷ (codes "end", int_to_string r.end)
    ∷ (codes "context", to_string r.context)
    ∷ (codes "sessions", to_string r.sessions)
    ∷ when (not (r.lease_ms == 0)) (codes "lease_ms", to_string r.lease_ms)
        (when (not (is_empty r.draft_sha256)) (codes "draft_sha256", r.draft_sha256)
          (activation_entries r.activations))

unfoldable pub stage_request_message : StageRequest → Bytes
unfolding stage_request_entries
stage_request_message r = entries_text (stage_request_entries r)

abbrev pub parse_u32 : Bytes → Option ℕ
parse_u32 value = parse_unsigned (2 ^ 32 - 1) value

abbrev pub parse_activations : Bytes → Option DType
parse_activations value =
    if bytes_eq value (codes "f16")
    then some DType.f16le
    else if bytes_eq value (codes "fp8")
    then some DType.fp8e4m3
    else if bytes_eq value (codes "f32")
    then some DType.f32le
    else none

-- The chain of tests on the key of one line.
unfoldable pub stage_request_step : StageRequest → Bytes → Bytes → Option StageRequest
stage_request_step r key value =
    if bytes_eq key (codes "route_id")
    then some (record r { route_id = value })
    else if bytes_eq key (codes "model_sha256")
    then some (record r { model_sha256 = value })
    else if bytes_eq key (codes "begin")
    then Option.map (λ n. record r { begin = n }) (parse_int value)
    else if bytes_eq key (codes "end")
    then Option.map (λ n. record r { end = n }) (parse_int value)
    else if bytes_eq key (codes "context")
    then Option.map (λ n. record r { context = n }) (parse_u32 value)
    else if bytes_eq key (codes "sessions")
    then Option.map (λ n. record r { sessions = n }) (parse_u32 value)
    else if bytes_eq key (codes "lease_ms")
    then Option.map (λ n. record r { lease_ms = n }) (parse_u32 value)
    else if bytes_eq key (codes "draft_sha256")
    then some (record r { draft_sha256 = value })
    else if bytes_eq key (codes "activations")
    then Option.map (λ a. record r { activations = a }) (parse_activations value)
    else none

unfoldable pub valid_stage_request : StageRequest → Bool
valid_stage_request r =
    hex_string r.route_id 32
    && hex_string r.model_sha256 64
    && not (int_lt r.begin (pos 0))
    && int_lt r.begin r.end
    && not (r.context == 0)
    && not (r.sessions == 0)
    && leb r.lease_ms max_lease_ms
    && (is_empty r.draft_sha256 || hex_string r.draft_sha256 64)

unfoldable pub parse_stage_request : Bytes → Option StageRequest
unfolding stage_request_step valid_stage_request
parse_stage_request text =
    keep_if valid_stage_request (read_entries stage_request_step empty_request text)
