-- ===== src/Lease/LifeCycle.antt =====
-- lease.hpp, WorkerLease: the transitions of the lease over any history of calls.
use dan.Common.{◌<◌, ◌≡◌, ◌≢◌, refl, List, [], ◌∷◌, true, false, arith, Bool}
use dan.Lease.{
  empty_request, State, available, reserved, loading, serving, WorkerLease, new_lease, reserve,
  begin_loading, mark_serving, release, query_state, current, Call, reserves, step, run,
}

-- A free lease holds no request; a taken one holds a request that asked for some time.
pub record Inv (l : WorkerLease) : Type 0 where
  pub free_is_empty : l.state ≡ available → l.request ≡ empty_request
  pub held_is_timed : l.state ≢ available → 0 < l.request.lease_ms

-- The arrows of the diagram at the top of lease.hpp, with no move at all among them. A
-- reservation that has run out may be replaced in one call.
abbrev pub allowed : State → State → Bool
allowed available available = true
allowed available reserved = true
allowed reserved loading = true
allowed reserved reserved = true
allowed loading loading = true
allowed loading serving = true
allowed serving serving = true
allowed _ available = true
allowed _ _ = false

step-Inv : (l : WorkerLease) (c : Call) → Inv l → Inv (step l c)
unfolding step reserve begin_loading mark_serving release query_state current
step-Inv l (reserves r now) v = ground arith
step-Inv l _ v = ground arith

-- Whatever calls are made, in any order, a free lease names no stage and a taken one names a
-- request with a positive lease time.
pub run_lease-Inv : (l : WorkerLease) (cs : List Call) → Inv l → Inv (run l cs)
unfolding run
run_lease-Inv l [] v = v
run_lease-Inv l (c ∷ cs) v = run_lease-Inv (step l c) cs (step-Inv l c v)

pub new-Inv : Inv new_lease
new-Inv = record { free_is_empty = λ e. refl; held_is_timed = λ n. absurd (n refl) }

-- Every call moves the lease along an arrow of the diagram (available to reserved, reserved to
-- loading, loading to serving, each back to available), and a lease that ends up loading or
-- serving still holds the request that it held before the call.
pub step_allowed :
    (l : WorkerLease) (c : Call)
    → (allowed l.state (step l c).state ≡ true)
      × ((step l c).state ≢ available
          → (step l c).state ≢ reserved
          → (step l c).request ≡ l.request)
unfolding step reserve begin_loading mark_serving release query_state current
step_allowed l (reserves r now) = ground arith
step_allowed l _ = ground arith
