-- ===== src/Runs/Leases.antt =====
-- lease.hpp, WorkerLease: two routes that want one worker.
use dan.Common.{◌+◌, ◌≡◌, ◌≢◌, refl, true, List, [], ◌∷◌, arith, All, leb, if◌then◌else◌, pos}
use dan.Lease.{
  StageRequest, empty_request, same_stage, available, reserved, loading, WorkerLease, new_lease,
  expire_locked, reserve, begin_loading, query_state, Call, reserves, begins_loading, serves,
  releases, asks_state, asks_current, step, run,
}
use dan.Lease.LifeCycle.{Inv, allowed, run_lease-Inv, step_allowed, new-Inv}
use dan.Lease.Exclusive.{Foreign, run-Foreign, reservation_window, begin_loading_in_time}

abbrev first : StageRequest
first = record empty_request {
  route_id = 1 ∷ [];
  end = pos 4;
  context = 256;
  sessions = 1;
  lease_ms = 1000;
}

abbrev second : StageRequest
second = record first { route_id = 2 ∷ [] }

abbrev held : WorkerLease
held = record { state = reserved; request = first; deadline = 1500 }

-- What the second route does while the first holds the worker.
abbrev others : List Call
others =
    reserves second 600
    ∷ begins_loading second 700
    ∷ releases (2 ∷ [])
    ∷ asks_state 800
    ∷ serves (2 ∷ [])
    ∷ asks_current 900
    ∷ []

held-reserve : (reserve new_lease first 500).1 ≡ true
unfolding reserve expire_locked
held-reserve = refl

is_held : held.state ≢ available
is_held = λ e. cc

others-Foreign : All (Foreign first 1500) others
unfolding same_stage
others-Foreign =
    (omega arith, ((refl, omega arith), (refl, (omega arith, (refl, (omega arith, tt))))))

run-Foreign_example : run held others ≡ held
run-Foreign_example = run-Foreign held others is_held others-Foreign

reservation_window_example :
    (query_state (run (reserve new_lease first 500).0 others) 1500).1
    ≡ (if leb (500 + 1000) 1500 then available else reserved)
reservation_window_example =
    reservation_window new_lease first 500 1500 others held-reserve others-Foreign

same : same_stage first first ≡ true
unfolding same_stage
same = refl

begin_loading_in_time_example :
    begin_loading (run (reserve new_lease first 500).0 others) first 1499
    ≡ (record { state = loading; request = first; deadline = 1500 }, true)
begin_loading_in_time_example =
    begin_loading_in_time new_lease first first 500 1499 others held-reserve others-Foreign same
      (omega arith)

run_lease-Inv_example : Inv (run new_lease (reserves first 500 ∷ others))
run_lease-Inv_example = run_lease-Inv new_lease (reserves first 500 ∷ others) new-Inv

step_allowed_example :
    (allowed held.state (step held (begins_loading first 600)).state ≡ true)
    × ((step held (begins_loading first 600)).state ≢ available
        → (step held (begins_loading first 600)).state ≢ reserved
        → (step held (begins_loading first 600)).request ≡ held.request)
step_allowed_example = step_allowed held (begins_loading first 600)
