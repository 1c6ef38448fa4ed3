-- ===== src/Runs/Messages.antt =====
-- The texts of lease.hpp, formation.hpp and route.hpp, written and read back.
use dan.Common.{
  ◌≤◌, ◌≡◌, refl, true, [], ◌∷◌, ◌++◌, some, Bytes, pos, length, replicate, arith, false,
}
use dan.Common.Text.{codes, parse_unsigned, parse_int}
use dan.Common.Text.Entries.{read_entries}
use dan.Protocol.Peers.{valid_peer_id}
use dan.Protocol.Endpoints.{valid_ring_target}
use dan.Protocol.Frame.{DType}
use dan.Lease.{StageRequest}
use dan.Lease.Messages.{stage_request_message, valid_stage_request, parse_stage_request}
use dan.Lease.Messages.RoundTrip.{parse_stage_request-stage_request_message}
use dan.Formation.Assignment.{
  ModelAssignment, assignment_message, valid_assignment, parse_assignment,
}
use dan.Formation.Assignment.RoundTrip.{parse_assignment-assignment_message}
use dan.Route.{RingRoute, route_message, valid_route, parse_route}
use dan.Route.RoundTrip.{parse_route-route_message}
use dan.Formation.Hex.{hex_string}
use dan.Formation.Greeting.{ProviderCapability, no_capability}
use dan.Formation.Greeting.Parse.{parse_available, max_greeting_bytes}
use dan.Formation.Greeting.Parse.Kept.{AreBounded}
use dan.Formation.Greeting.Parse.Bounds.{InLimits, parse_available-AreBounded}
use dan.Measurement.{decode, SpeedRecord}
use dan.Measurement.Texts.{parse_speed_text}
use dan.Runs.Speculating.{thousandths}

abbrev hash : Bytes
hash = replicate 64 b'a'

abbrev peer : Bytes
peer = replicate 40 b'Q'

abbrev request : StageRequest
request = record {
  route_id = replicate 32 b'7';
  model_sha256 = hash;
  begin = pos 0;
  end = pos 12;
  context = 4096;
  sessions = 2;
  lease_ms = 30000;
  draft_sha256 = hash;
  activations = DType.f16le;
}

request-valid : valid_stage_request request ≡ true
unfolding valid_stage_request hex_string
request-valid = refl

parse_stage_request-stage_request_message_example :
    parse_stage_request (stage_request_message request) ≡ some request
parse_stage_request-stage_request_message_example =
    parse_stage_request-stage_request_message request
      (record {
        begin_int = omega arith;
        end_int = omega arith;
        context_u32 = omega arith;
        sessions_u32 = omega arith;
        lease_u32 = omega arith;
        activations_known = refl;
      })
      request-valid

abbrev assignment : ModelAssignment
assignment = record {
  model_id = codes "qwen3-30b";
  url = codes "https://example.org/model.gguf";
  revision = replicate 40 b'c';
  sha256 = hash;
  begin = pos 12;
  end = pos 24;
  context = 4096;
  sessions = 2;
  next_endpoint = codes "10.0.0.7:9000";
  previous_peer_id = peer;
}

assignment-valid : valid_assignment assignment ≡ true
unfolding valid_assignment hex_string valid_ring_target parse_unsigned valid_peer_id
assignment-valid = refl

parse_assignment-assignment_message_example :
    parse_assignment (assignment_message assignment) ≡ some assignment
parse_assignment-assignment_message_example =
    parse_assignment-assignment_message assignment
      (record {
        begin_int = omega arith;
        end_int = omega arith;
        context_u32 = omega arith;
        sessions_u32 = omega arith;
      })
      assignment-valid

abbrev route : RingRoute
route = record { next = codes "10.0.0.7:9000"; previous_peer = peer; loop = codes "self" }

route-valid : valid_route route ≡ true
unfolding valid_route valid_peer_id
route-valid = refl

parse_route-route_message_example : parse_route (route_message route) ≡ some route
parse_route-route_message_example = parse_route-route_message route refl route-valid

abbrev measured : SpeedRecord thousandths
measured = record {
  key = record { model_sha256 = hash; phase = decode; context = 1024; sessions = 2 };
  us_per_gib = 750000;
  samples = 3;
  updated_unix_s = pos 40;
}

abbrev offer : ProviderCapability thousandths
offer = record (no_capability thousandths) {
  id = codes "w";
  gpu = codes "g";
  offered_vram_mib = 8192;
  models = hash ∷ [];
  cached = record { model_sha256 = hash; begin = pos 0; end = pos 12 } ∷ [];
  speed_us_per_gib = 500;
  speeds = measured ∷ [];
  links = record { peer = peer; rtt_ms = 20; relayed = false; kib_per_s = 900 } ∷ [];
}

abbrev greeting : Bytes
greeting =
    codes "id=w\ngpu=g\nvram_mib=8192\nmodel="
    ++ hash
    ++ codes "\ncached="
    ++ hash
    ++ codes ":0-12\nspeed=500\nmeasured="
    ++ hash
    ++ codes ":d:1024:2:750:3:60\nlink="
    ++ peer
    ++ codes ":20:direct\nlink_bw="
    ++ peer
    ++ codes ":900"

greeting_read : parse_available thousandths greeting (pos 100) ≡ some offer
unfolding parse_available read_entries parse_unsigned hex_string parse_int valid_ring_target
    parse_speed_text valid_peer_id
greeting_read = refl

parse_available-AreBounded_example :
    AreBounded thousandths
      (pos 100)
      offer.models
      offer.cached
      offer.speeds
      offer.links
      offer.speed_us_per_gib
    × InLimits thousandths offer
    × (length greeting ≤ max_greeting_bytes)
parse_available-AreBounded_example =
    parse_available-AreBounded thousandths (pos 100) greeting offer greeting_read
