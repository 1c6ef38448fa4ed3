-- ===== src/Lib.antt =====
-- DAN runs one large language model as stages on several workers. This library models the parts of
-- its engine that decide: which models can be staged and where the layers go, which plan a client
-- takes, who holds a worker, in which order requests are served, what frames look like on the wire,
-- and which speculated tokens are committed.
--
--   Planner    engine/planner.cpp and planner.hpp. Sizes: kv_bytes, stage_fits and their kin.
--              Compatible: compatible_stage_model. Cache: plan_from_cache. Stages: plan_stages, with
--              the lambdas fits, choose and split as functions of their own.
--   Model      range_model.hpp and engine/range_model.cpp: the parsed model, owned_tensor and
--              stage_model_bytes, which the planner takes its sizes from.
--   Selection  engine/selection.cpp and selection.hpp: assess_plan, better and select_plan.
--   Lease      lease.hpp: WorkerLease, one function for each method, and the text of a
--              StageRequest (Messages). `serving` is mark_serving and
--              `state` is query_state, since the states have those names.
--   FairQueue  fair_queue.hpp: push, pop_locked, remove_if, drain and close.
--   Protocol   protocol.hpp: the words put16 to get64, the frames with their header, and
--              send_frame and recv_frame over sockets, parse_peer_id, and the checks of
--              endpoints and ring targets (Endpoints), those of route.hpp included.
--   Speculation  speculation.hpp: accept_speculation, speculation_room and AdaptiveDraftWidth.
--   Upgrade    upgrade.hpp: upgrade_choice and next_backoff_ms.
--   RangeModel engine/range_model.cpp: the header of a GGUF file. The Reader's methods, skip_value
--              (Values), parse_index (Header), fill_model_index (Fill), and required_ranges and
--              bounded_ranges (Ranges), whose two answers are a record.
--   Search     engine/search.cpp and search.hpp: the class Sizes as LayerSizes, sizes_of and fits
--              (Sizes), the times of links and tokens (Times, FirstToken), best_split with each of
--              its loops as a function (Split), and search_pool (Pool), whose outer loop has as
--              many rounds as the pool has places. search_plan is not modelled.
--   Formation  formation.hpp: hex_string (Hex), ModelAssignment with its message and parser
--              (Assignment), ProviderCapability with available_message, plan_replica and
--              parse_available (Greeting).
--   Route      route.hpp: RingRoute with its message and parser.
--   Measurement  measurement.hpp: the buckets, SpeedTable and estimate_speed (Speeds), the text of a
--              record (Texts) and BandwidthTable (Bandwidth).
--   Common     helpers: lists, texts, integers, Boolean tests and the parameter for `double`.
--   Runs       tests and examples.
--
-- The headers are in engine/include/provider_owned. The planner asks Model for the bytes of a stage
-- and Planner.Sizes for the fit; both planners build on stage_fits, and a plan's stages are what a
-- client then asks of workers with a StageRequest, which Lease guards. Objects that the code changes
-- in place are records that a function takes and returns; each method of the lease and the queue
-- holds its mutex throughout, so a history of concurrent calls is a list of calls. Unsigned
-- arithmetic that may wrap is written with its modulus.
--
-- No function runs on fuel that could be too little: the socket loops have a round for each byte
-- and move one at least, plan_from_cache recurses on the stages that its
-- limit still allows, plan_stages on the counts up to the number of candidates, choose on the
-- workers still to be chosen, and split on the order chosen; context_bucket has a round for each
-- doubling up to its limit, the inner loop of bounded_ranges one for each chunk and one more, and
-- skip_value one for each level of nesting that its depth test allows. `to_string` has room for 20 digits,
-- which 64-bit numbers do not exceed.
--
-- Parameters: `double` (Common.Double) and the proportional share in `long double` of plan_stages
-- (Planner.Stages.Cuts.Share), of which the theorems ask at most that infinity equals itself and to
-- what number a given speed rounds, and the system's sockets
-- (Protocol.Socket), of which the theorems ask that bytes stay in order, inet_pton and the cast of a
-- double to an integer, and the time of the system clock, which is an argument. A header's bytes are
-- a list, and what is behind the cursor of the Reader is its state. Not modelled: processes,
-- threads, files and HTTP (stage_worker.cpp, coordinator.cpp, client.cpp and the launchers), calls of
-- llama.cpp, the platform layer, the dashboards, the legacy prototype and the Go sidecar.
pub mod Common
pub mod Protocol
pub mod Lease
pub mod FairQueue
pub mod Speculation
pub mod Model
pub mod Planner
pub mod Selection
pub mod Runs
pub mod Upgrade
pub mod Formation
pub mod Route
pub mod Measurement
pub mod RangeModel
pub mod Search
