-- ===== src/Lease.antt =====
-- engine/include/provider_owned/lease.hpp: the request for a stage and the worker's single lease.
-- Every method holds the lease's mutex for its whole body, so a history of concurrent calls is a
-- sequence of the steps below. A time point is a number of milliseconds.
pub mod LifeCycle
pub mod Exclusive
pub mod Messages
use dan.Common.{
  ℕ, ◌+◌, Bool, true, false, not, ◌&&◌, ◌||◌, [], Bytes, ℤ, pos, int_eq, bytes_eq, leb, ◌==◌,
  if◌then◌else◌, Option, none, some, List, ◌∷◌,
}
use dan.Protocol.Frame.{DType, dtype_value}

abbrev pub max_lease_ms : ℕ
max_lease_ms = 60000

pub record StageRequest : Type 0 where
  pub route_id : Bytes
  pub model_sha256 : Bytes
  pub begin : ℤ
  pub end : ℤ
  pub context : ℕ
  pub sessions : ℕ
  pub lease_ms : ℕ
  pub draft_sha256 : Bytes
  pub activations : DType

-- `StageRequest{}`
abbrev pub empty_request : StageRequest
empty_request = record {
  route_id = [];
  model_sha256 = [];
  begin = pos 0;
  end = pos 0;
  context = 0;
  sessions = 0;
  lease_ms = 0;
  draft_sha256 = [];
  activations = DType.f32le;
}

unfoldable pub same_stage : StageRequest → StageRequest → Bool
same_stage a b =
    bytes_eq a.route_id b.route_id
    && bytes_eq a.model_sha256 b.model_sha256
    && int_eq a.begin b.begin
    && int_eq a.end b.end
    && a.context == b.context
    && a.sessions == b.sessions
    && bytes_eq a.draft_sha256 b.draft_sha256
    && dtype_value a.activations == dtype_value b.activations

pub data State : Type 0 where
  available reserved loading serving : State

pub record WorkerLease : Type 0 where
  pub state : State
  pub request : StageRequest
  pub deadline : ℕ

-- `WorkerLease{}`; the deadline is the clock's epoch.
abbrev pub new_lease : WorkerLease
new_lease = record { state = available; request = empty_request; deadline = 0 }

abbrev pub is_state : State → State → Bool
is_state available available = true
is_state reserved reserved = true
is_state loading loading = true
is_state serving serving = true
is_state _ _ = false

unfoldable pub expire_locked : WorkerLease → ℕ → WorkerLease
expire_locked lease now =
    if is_state lease.state reserved && leb lease.deadline now
    then record lease { state = available; request = empty_request }
    else lease

unfoldable pub reserve : WorkerLease → StageRequest → ℕ → WorkerLease × Bool
unfolding expire_locked
reserve lease request now =
    let l = expire_locked lease now in
    if not (is_state l.state available) || request.lease_ms == 0
    then (l, false)
    else (record { state = reserved; request = request; deadline = now + request.lease_ms }, true)

unfoldable pub begin_loading : WorkerLease → StageRequest → ℕ → WorkerLease × Bool
unfolding expire_locked
begin_loading lease assignment now =
    let l = expire_locked lease now in
    if not (is_state l.state reserved) || not (same_stage l.request assignment)
    then (l, false)
    else (record l { state = loading }, true)

-- The method `serving`.
unfoldable pub mark_serving : WorkerLease → Bytes → WorkerLease × Bool
mark_serving lease route_id =
    if not (is_state lease.state loading) || not (bytes_eq lease.request.route_id route_id)
    then (lease, false)
    else (record lease { state = serving }, true)

unfoldable pub release : WorkerLease → Bytes → WorkerLease × Bool
release lease route_id =
    if is_state lease.state available || not (bytes_eq lease.request.route_id route_id)
    then (lease, false)
    else (record lease { state = available; request = empty_request }, true)

-- The method `state`: it expires the lease, then answers.
unfoldable pub query_state : WorkerLease → ℕ → WorkerLease × State
unfolding expire_locked
query_state lease now = let l = expire_locked lease now in (l, l.state)

unfoldable pub current : WorkerLease → ℕ → WorkerLease × Option StageRequest
unfolding expire_locked
current lease now =
    let l = expire_locked lease now in
    (l, if is_state l.state available then none else some l.request)

-- The calls that other threads may make, with their arguments.
pub data Call : Type 0 where
  reserves : StageRequest → ℕ → Call
  begins_loading : StageRequest → ℕ → Call
  serves : Bytes → Call
  releases : Bytes → Call
  asks_state : ℕ → Call
  asks_current : ℕ → Call

pub step : WorkerLease → Call → WorkerLease
step l (reserves r now) = (reserve l r now).0
step l (begins_loading r now) = (begin_loading l r now).0
step l (serves id) = (mark_serving l id).0
step l (releases id) = (release l id).0
step l (asks_state now) = (query_state l now).0
step l (asks_current now) = (current l now).0

pub run : WorkerLease → List Call → WorkerLease
run l [] = l
run l (c ∷ cs) = run (step l c) cs
