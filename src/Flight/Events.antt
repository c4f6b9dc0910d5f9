-- ===== src/Flight/Events.antt =====
-- singleflight.py: `fetch_or_bypass`, `_join`, `_lead`, the leases, the timers and `shutdown` as the
-- events of the loop. Between two awaits the source runs undisturbed, so each event is one function.
use oc_slimapi.Prelude.{
  ℕ, zero, suc, ◌+◌, Bool, true, false, Option, none, some, List, [], ◌∷◌, lookup, leb,
  if◌then◌else◌, ℕ_discrete,
}
use oc_slimapi.Prelude.Dict.{assign, remove}
use oc_slimapi.Prelude.Dict.Keys.{keys}
use oc_slimapi.Flight.{
  Future, pending, cancelled, fetched, fetch_failed, SingleFlight, Touched, leased_registry,
  new_flight,
}
use oc_slimapi.Flight.Calls.{
  Flight, Held, fits, join_flight, lead_returned, lead_raised, leave, release_lease, take_lease,
  expire_flight, expire_flight_due, evict_idle, stop_flight,
}

-- The registry and every entry that was ever made, by its generation.
pub record World (K V X : Type 0) : Type 0 where
  pub registry : SingleFlight K
  pub flights : List (ℕ × Flight K V X)

abbrev pub started : {K V X : Type 0} → ℕ → ℕ → World K V X
started max_bytes grace_time = record {
  registry = leased_registry max_bytes grace_time;
  flights = [];
}

-- What a caller of `fetch_or_bypass` has at the end of the serial point.
pub data Admission : Type 0 where
  bypassed : Admission
  leads joins : ℕ → Admission

pub data FlightEvent (K V X : Type 0) : Type 0 where
  -- A caller enters `fetch_or_bypass` with a key and a reserve, at a time.
  enters : K → ℕ → ℕ → FlightEvent K V X
  -- The factory of a flight returns, or it raises, or its task is cancelled (no exception).
  returns : ℕ → V → ℕ → FlightEvent K V X
  raises : ℕ → Option X → FlightEvent K V X
  -- A waiter resumes, with the reserve and the time of another entry should the flight have died.
  wakes : ℕ → ℕ → ℕ → FlightEvent K V X
  -- The task of a waiter is cancelled.
  interrupted : ℕ → FlightEvent K V X
  releases : ℕ → FlightEvent K V X
  timer_fires : ℕ → FlightEvent K V X
  shuts_down : FlightEvent K V X

module _ {K V X : Type 0} where
  -- An operation at the flight of a generation.
  unfoldable pub at_flight : ℕ → (Held K V X → Held K V X) → World K V X → World K V X
  unfolding lookup assign ℕ_discrete
  at_flight i op w = elim (lookup ℕ_discrete i w.flights) [
    | none ↦ w
    | some f ↦
        let t = op (w.registry, f) in
        record { registry = t.0; flights = assign ℕ_discrete i t.1 w.flights }
  ]

module _ {K V X : Type 0} (dec : Discrete K) where
  -- The flight that a key's joinable entry belongs to.
  unfoldable pub at_key : K → (Held K V X → Held K V X) → World K V X → World K V X
  unfolding lookup at_flight
  at_key k op w = elim (lookup dec k w.registry.entries) [ none ↦ w | some i ↦ at_flight i op w ]

  abbrev pub expire_if_due : K → ℕ → World K V X → World K V X
  expire_if_due k now w = at_key k (expire_flight_due dec now) w

  unfoldable pub reserve_loop : ℕ → List K → World K V X → World K V X
  unfolding at_key
  reserve_loop needed [] w = w
  reserve_loop needed (k ∷ ks) w =
      let rest = reserve_loop needed ks (at_key k (evict_idle dec) w) in
      if fits needed w.registry then w else rest

  -- `_try_reserve`: whether the reserve fits, after the evictions.
  unfoldable pub try_reserve : ℕ → World K V X → Bool × World K V X
  unfolding reserve_loop
  try_reserve needed w =
      if leb needed w.registry.max_bytes
      then (if fits needed w.registry
          then (true, w)
          else let w' = reserve_loop needed (keys w.registry.entries) w in
            (fits needed w'.registry, w'))
      else (false, w)

  -- A fresh flight, registered with its leader.
  unfoldable pub lead_new : K → ℕ → World K V X → World K V X
  unfolding assign
  lead_new k needed w =
      let t : Touched K V X = new_flight k needed w.registry in
      record {
        registry = record (t.0) { entries = assign dec k t.1.seq t.0.entries };
        flights =
            assign ℕ_discrete t.1.seq
              (record { flight = t.1; leading = true; waiters = 0; leases = 0 }) w.flights;
      }

  -- `fetch_or_bypass` at its serial point.
  unfoldable pub fetch_or_bypass : K → ℕ → ℕ → World K V X → Admission × World K V X
  unfolding lookup at_key at_flight try_reserve lead_new
  fetch_or_bypass k needed now w =
      let w' = expire_if_due k now w in
      elim (lookup dec k w'.registry.entries) [
        | none ↦
            let (room, w'') = try_reserve needed w' in
            if room
            then (leads (w''.registry.flight_seq + 1), lead_new k needed w'')
            else (bypassed, w'')
        | some i ↦ (joins i, at_flight i join_flight w')
      ]

  -- `_join` when the awaited future is done: a lease, or the release and, if the flight was
  -- cancelled, the serial point again.
  abbrev pub woken : Future V X → ℕ → K → ℕ → ℕ → World K V X → World K V X
  woken pending i k needed now w = w
  woken (fetched v) i k needed now w = at_flight i take_lease w
  woken (fetch_failed x) i k needed now w = at_flight i (leave dec) w
  woken cancelled i k needed now w = (fetch_or_bypass k needed now (at_flight i (leave dec) w)).1

  abbrev pub woken_flight : Flight K V X → ℕ → ℕ → ℕ → World K V X → World K V X
  woken_flight f i needed now w = elim f.waiters [
    | zero ↦ w
    | suc n ↦ woken f.flight.future i f.flight.key needed now w
  ]

  -- `del self._entries[key]`.
  abbrev pub without_key : K → World K V X → World K V X
  without_key k w = record w {
    registry = record (w.registry) { entries = remove dec k w.registry.entries };
  }

  unfoldable pub shutdown_loop : List (K × ℕ) → World K V X → World K V X
  unfolding at_flight
  shutdown_loop [] w = w
  shutdown_loop (x ∷ d) w = shutdown_loop d (at_flight x.1 (stop_flight dec) (without_key x.0 w))

  -- `shutdown`.
  abbrev pub shutdown : World K V X → World K V X
  shutdown w = shutdown_loop w.registry.entries w

  unfoldable pub happens : FlightEvent K V X → World K V X → World K V X
  unfolding lookup at_flight fetch_or_bypass shutdown_loop
  happens (enters k needed now) w = (fetch_or_bypass k needed now w).1
  happens (returns i v now) w = at_flight i (lead_returned v now) w
  happens (raises i exc) w = at_flight i (lead_raised dec exc) w
  happens (wakes i needed now) w = elim (lookup ℕ_discrete i w.flights) [
    | none ↦ w
    | some f ↦ woken_flight f i needed now w
  ]
  happens (interrupted i) w = at_flight i (leave dec) w
  happens (releases i) w = at_flight i (release_lease dec) w
  happens (timer_fires i) w = at_flight i (expire_flight dec) w
  happens shuts_down w = shutdown w

  -- The events in the order in which they happen.
  unfoldable pub run_events : List (FlightEvent K V X) → World K V X → World K V X
  unfolding happens
  run_events [] w = w
  run_events (e ∷ es) w = run_events es (happens e w)
