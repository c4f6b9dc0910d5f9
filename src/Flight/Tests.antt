-- ===== src/Flight/Tests.antt =====
-- Runs of singleflight.py's leased profile, and its theorems at them: the keys are numbers.
use oc_slimapi.Prelude.{
  ℕ, ◌≤◌, ◌≡◌, refl, Bool, true, false, none, some, List, [], ◌∷◌, ◌++◌, ◌+◌, lookup, map,
  ℕ_discrete,
}
use oc_slimapi.Prelude.Dict.{assign, remove}
use oc_slimapi.Flight.{
  Ownership, in_flight, grace, retained_body, failed, Layer, active, retired, detach_key,
  expire_grace_entry, fail, shutdown_entry, pending,
}
use oc_slimapi.Flight.Calls.{Flight}
use oc_slimapi.Flight.Events.{
  World, FlightEvent, enters, returns, raises, wakes, releases, timer_fires, bypassed, leads,
  at_flight, at_key, reserve_loop, try_reserve, lead_new, fetch_or_bypass, shutdown, shutdown_loop,
  happens, run_events,
}
use oc_slimapi.Flight.Steps.{callers, owed_by}
use oc_slimapi.Flight.Shared.{
  after, after-ledger, after-references, after-single, after-drained, after-raised,
}

program : Unit {0}
unfolding run_events happens fetch_or_bypass at_flight at_key reserve_loop try_reserve lead_new
    shutdown_loop detach_key expire_grace_entry fail shutdown_entry lookup assign remove ℕ_discrete
program = tt

abbrev Event : Type 0
Event = FlightEvent ℕ ℕ ℕ

-- A budget of 100 bytes and a grace window of 5.
abbrev run : List Event → World ℕ ℕ ℕ
run es = after ℕ_discrete 100 5 es

-- Two callers share the flight of key 7; both get a lease.
abbrev shared : List Event
shared = enters 7 60 0 ∷ enters 7 60 1 ∷ returns 1 42 2 ∷ wakes 1 60 3 ∷ []

abbrev states : World ℕ ℕ ℕ → List (Ownership × Layer × ℕ × Bool)
states w =
    map (λ x. (x.1.flight.state, x.1.flight.layer, x.1.flight.caller_refs, x.1.flight.accounted))
      w.flights

both_lease : states (run shared) ≡ (grace, active, 2, true) ∷ []
unfolding program
both_lease = refl

-- A second key does not fit while the first is held, and the caller bypasses.
busy : (fetch_or_bypass ℕ_discrete 8 60 3 (run shared)).0 ≡ bypassed
unfolding program
busy = refl

-- Once both leases are released the grace entry gives way.
freed :
    (fetch_or_bypass ℕ_discrete 8 60 3 (run (shared ++ (releases 1 ∷ releases 1 ∷ [])))).0 ≡ leads 2
unfolding program
freed = refl

-- At the deadline the body is retained for the callers, and reaped with the last of them.
kept :
    states (run (shared ++ (timer_fires 1 ∷ releases 1 ∷ [])))
    ≡ (retained_body, retired, 1, true) ∷ []
unfolding program
kept = refl

reaped : (run (shared ++ (timer_fires 1 ∷ releases 1 ∷ releases 1 ∷ []))).registry.leased_bytes ≡ 0
unfolding program
reaped = refl

-- The leader is cancelled: the waiter leads a flight of its own.
abbrev relead : List Event
relead = enters 7 60 0 ∷ enters 7 60 1 ∷ raises 1 none ∷ wakes 1 60 2 ∷ []

releads : states (run relead) ≡ (failed, retired, 0, false) ∷ (in_flight, active, 1, true) ∷ []
unfolding program
releads = refl

-- The flight of two callers before the factory returns.
abbrev two : List Event
two = enters 7 60 0 ∷ enters 7 60 1 ∷ []

abbrev two_flight : Flight ℕ ℕ ℕ
two_flight = record {
  flight = record {
    key = 7;
    seq = 1;
    future = pending;
    caller_refs = 2;
    state = in_flight;
    layer = active;
    reserve_bytes = 60;
    accounted = true;
    expires_at = none;
    timer = false;
  };
  leading = true;
  waiters = 1;
  leases = 0;
}

after-ledger_example :
    ((run shared).registry.leased_bytes ≡ owed_by (run shared).flights)
    × ((run shared).registry.leased_bytes ≤ (run shared).registry.max_bytes)
after-ledger_example = after-ledger ℕ_discrete 100 5 shared

after-references_example : two_flight.flight.caller_refs ≡ callers two_flight
unfolding program
after-references_example = after-references ℕ_discrete 100 5 two 1 two_flight refl

after-single_example : ◌≡◌ {A = ℕ} 1 1
unfolding program
after-single_example =
    after-single ℕ_discrete 100 5 two 1 1 two_flight two_flight refl refl refl refl refl

-- Everybody has gone, and the body is still in its grace window.
abbrev over : List Event
over = shared ++ (releases 1 ∷ releases 1 ∷ [])

over_bytes : (run over).registry.leased_bytes ≡ 60
unfolding program
over_bytes = refl

after-drained_example : (shutdown ℕ_discrete (run over)).registry.leased_bytes ≡ 0
unfolding program
after-drained_example = after-drained ℕ_discrete 100 5 over refl

after-raised_example :
    (happens ℕ_discrete (raises 1 (some 9)) (run two)).registry.leased_bytes + 60
    ≡ (run two).registry.leased_bytes
unfolding program
after-raised_example = after-raised ℕ_discrete 100 5 two 1 two_flight (some 9) refl refl
