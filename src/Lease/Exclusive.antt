-- ===== src/Lease/Exclusive.antt =====
-- lease.hpp, WorkerLease: who may change a held lease, and for how long a reservation holds.
use dan.Common.{
  ℕ, ◌+◌, ◌≤◌, ◌<◌, ◌≡◌, ◌≢◌, ◌↔◌, ◌⊎◌, refl, ◌∙◌, List, [], ◌∷◌, true, false, arith, leb, bytes_eq,
  All, if◌then◌else◌, ap,
}
use dan.Lease.{
  StageRequest, same_stage, available, reserved, loading, WorkerLease, reserve, begin_loading,
  mark_serving, release, query_state, current, Call, reserves, begins_loading, serves, releases,
  asks_state, asks_current, step, run,
}

-- A call by somebody else than the route of `request`, made before `deadline`: any reservation,
-- an assignment of another stage, another route's id, or a question.
abbrev pub Foreign : StageRequest → ℕ → Call → Type 0
Foreign request deadline (reserves r now) = now < deadline
Foreign request deadline (begins_loading a now) = (same_stage request a ≡ false) × (now < deadline)
Foreign request deadline (serves id) = bytes_eq request.route_id id ≡ false
Foreign request deadline (releases id) = bytes_eq request.route_id id ≡ false
Foreign request deadline (asks_state now) = now < deadline
Foreign request deadline (asks_current now) = now < deadline

step-Foreign :
    (l : WorkerLease) (c : Call)
    → l.state ≢ available
    → Foreign l.request l.deadline c
    → step l c ≡ l
unfolding step reserve begin_loading mark_serving release query_state current
step-Foreign l (reserves r now) held f = ground arith
step-Foreign l _ held f = ground arith

-- A held lease is left exactly as it is by any sequence of foreign calls made before its deadline:
-- the first reservation wins, and only its own route moves it on or gives it back.
pub run-Foreign :
    (l : WorkerLease) (cs : List Call)
    → l.state ≢ available
    → All (Foreign l.request l.deadline) cs
    → run l cs ≡ l
unfolding run
run-Foreign l [] held f = refl
run-Foreign l (c ∷ cs) held f =
    ap (λ m. run m cs) (step-Foreign l c held f.0) ∙ run-Foreign l cs held f.1

-- `reserve` succeeds exactly when the request asks for some time and the lease is free or holds a
-- reservation that has run out.
pub reserve_iff :
    (l : WorkerLease) (r : StageRequest) (now : ℕ)
    → ((reserve l r now).1 ≡ true)
      ↔ ((r.lease_ms ≢ 0) × ((l.state ≡ available) ⊎ ((l.state ≡ reserved) × (l.deadline ≤ now))))
unfolding reserve
reserve_iff l r now = (λ h. ground arith, λ h. ground arith)

abbrev pub reservation : StageRequest → ℕ → WorkerLease
reservation r now = record { state = reserved; request = r; deadline = now + r.lease_ms }

reserve_won :
    (l : WorkerLease) (r : StageRequest) (now : ℕ)
    → (reserve l r now).1 ≡ true
    → (reserve l r now).0 ≡ reservation r now
unfolding reserve
reserve_won l r now won = ground arith

held_until :
    (l : WorkerLease) (r : StageRequest) (now : ℕ) (cs : List Call)
    → (reserve l r now).1 ≡ true
    → All (Foreign r (now + r.lease_ms)) cs
    → run (reserve l r now).0 cs ≡ reservation r now
held_until l r now cs won f =
    ap (λ m. run m cs) (reserve_won l r now won) ∙ run-Foreign (reservation r now) cs (λ e. cc) f

-- A reservation holds for its lease time and no longer: after a successful `reserve` at `now` and
-- any foreign calls before the deadline, the state is `reserved` before now + lease_ms and
-- `available` from then on.
pub reservation_window :
    (l : WorkerLease) (r : StageRequest) (now later : ℕ) (cs : List Call)
    → (reserve l r now).1 ≡ true
    → All (Foreign r (now + r.lease_ms)) cs
    → (query_state (run (reserve l r now).0 cs) later).1
      ≡ (if leb (now + r.lease_ms) later then available else reserved)
unfolding query_state
reservation_window l r now later cs won f = rw (held_until l r now cs won f) (ground arith)

-- Before the deadline, and after any foreign calls, the assignment of the reserved stage is taken
-- up: the lease is loading, for the request that reserved it.
pub begin_loading_in_time :
    (l : WorkerLease) (r a : StageRequest) (now later : ℕ) (cs : List Call)
    → (reserve l r now).1 ≡ true
    → All (Foreign r (now + r.lease_ms)) cs
    → same_stage r a ≡ true
    → later < now + r.lease_ms
    → begin_loading (run (reserve l r now).0 cs) a later
      ≡ (record { state = loading; request = r; deadline = now + r.lease_ms }, true)
unfolding begin_loading
begin_loading_in_time l r a now later cs won f same early =
    rw (held_until l r now cs won f) (ground arith)
