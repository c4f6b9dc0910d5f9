-- ===== src/Flight/Steps.antt =====
-- singleflight.py: every event keeps the ledger, and what a flight holds by its state.
use mathlib.Core.Path.{subst}
use oc_slimapi.Prelude.{
  ℕ, zero, suc, ◌+◌, ◌≡◌, ◌≢◌, refl, Bool, true, false, Option, List, [], ◌∷◌, lookup, ◌==◌,
  if◌then◌else◌, sum_by, All, if_both, Option_both, arith, ℕ_discrete,
}
use oc_slimapi.Flight.{
  Ownership, in_flight, grace, retained_body, failed, active, Future, pending, cancelled, fetched,
  fetch_failed, Touched, release_caller, fail_released, fail,
}
use oc_slimapi.Flight.Calls.{
  Flight, lead_returned, lead_raised, leave, release_lease, take_lease, expire_flight,
}
use oc_slimapi.Flight.Events.{
  World, started, FlightEvent, enters, returns, raises, wakes, interrupted, releases, timer_fires,
  shuts_down, at_flight, woken_flight, happens, run_events,
}
use oc_slimapi.Flight.Keeps.{held_of, one_if, StateOk, held, FlightOk}
use oc_slimapi.Flight.Moves.{
  returned-Move, raised-Move, leave-Move, release-Move, take-Move, expire-Move,
}
use oc_slimapi.Flight.Admit.{Good, at_flight-Good}
use oc_slimapi.Flight.Reach.{fetch_or_bypass-Good}
use oc_slimapi.Flight.Shutdown.{shutdown-Good}

-- What a flight owes the budget, by its state and its callers.
abbrev pub owed_in : Ownership → ℕ → ℕ → ℕ
owed_in in_flight n reserve = reserve
owed_in grace n reserve = reserve
owed_in retained_body n reserve = if n == 0 then 0 else reserve
owed_in failed n reserve = 0

module _ {K V X : Type 0} where
  -- Those who hold a reference to a flight.
  abbrev pub callers : Flight K V X → ℕ
  callers f = one_if f.leading + f.waiters + f.leases

  abbrev pub callers_in : World K V X → ℕ
  callers_in w = sum_by (λ x. callers x.1) w.flights

  abbrev pub owed : Flight K V X → ℕ
  owed f = owed_in f.flight.state (callers f) f.flight.reserve_bytes

  abbrev pub owed_by : List (ℕ × Flight K V X) → ℕ
  owed_by d = sum_by (λ x. owed x.1) d

  pub held-owed : (f : Flight K V X) → FlightOk f → held f.flight ≡ owed f
  held-owed f h = go f.flight.state f.flight.accounted h.state
    where
      n : ℕ
      n = f.flight.reserve_bytes

      go :
          (st : Ownership) (a : Bool)
          → StateOk st f.flight.layer a f.flight.caller_refs f.leading
          → held_of a n ≡ owed_in st (callers f) n
      go in_flight a z = rw z.0 refl
      go grace a z = rw z.1 refl
      go retained_body a z = rw (z.1, h.counts) (ground arith)
      go failed a z = rw z.1 refl

  pub sum_by-same :
      (f g : ℕ × Flight K V X → ℕ) (d : List (ℕ × Flight K V X))
      → All (λ x. f x ≡ g x) d
      → sum_by f d ≡ sum_by g d
  sum_by-same f g [] h = refl
  sum_by-same f g (x ∷ d) h = omega (arith, h.0, sum_by-same f g d h.1)

  pub sum_by-zero :
      (f : ℕ × Flight K V X → ℕ) (d : List (ℕ × Flight K V X))
      → All (λ x. f x ≡ 0) d
      → sum_by f d ≡ 0
  sum_by-zero f [] h = refl
  sum_by-zero f (x ∷ d) h = omega (arith, h.0, sum_by-zero f d h.1)

  -- A flight that is not active and has no callers holds nothing.
  pub held-idle :
      (f : Flight K V X) → FlightOk f → f.flight.layer ≢ active → callers f ≡ 0 → held f.flight ≡ 0
  held-idle f h off c = go f.flight.state f.flight.accounted h.state
    where
      go :
          (st : Ownership) (a : Bool)
          → StateOk st f.flight.layer a f.flight.caller_refs f.leading
          → held_of a f.flight.reserve_bytes ≡ 0
      go in_flight a z =
          let one : one_if f.leading ≡ 1 = rw z.1 refl in absurd (omega (arith, c, one))
      go grace a z = absurd (off z.0)
      go retained_body a z = rw (z.1, h.counts, c) refl
      go failed a z = rw z.1 refl

  pub held-led :
      (f : Flight K V X) → FlightOk f → f.leading ≡ true → held f.flight ≡ f.flight.reserve_bytes
  held-led f h t = go f.flight.state f.flight.accounted h.state
    where
      go :
          (st : Ownership) (a : Bool)
          → StateOk st f.flight.layer a f.flight.caller_refs f.leading
          → held_of a f.flight.reserve_bytes ≡ f.flight.reserve_bytes
      go in_flight a z = rw z.0 refl
      go grace a z = absurd (cc)
      go retained_body a z = absurd (cc)
      go failed a z = absurd (cc)

  pub held-failed : (f : Flight K V X) → FlightOk f → f.flight.state ≡ failed → held f.flight ≡ 0
  held-failed f h p =
      let z =
        subst (λ s. StateOk s f.flight.layer f.flight.accounted f.flight.caller_refs f.leading) p
          h.state in
      held_of-false f.flight.accounted z.1
    where
      held_of-false : (a : Bool) → a ≡ false → held_of a f.flight.reserve_bytes ≡ 0
      held_of-false a q = rw q refl

module _ {K V X : Type 0} (dec : Discrete K) where
  pub fail-failed : (exc : Option X) (t : Touched K V X) → (fail dec exc t).1.state ≡ failed
  unfolding fail
  fail-failed exc t = go (release_caller dec t).1.accounted
    where
      go :
          (a : Bool)
          → (fail_released dec exc (
            (release_caller dec t).0,
            record ((release_caller dec t).1) { accounted = a },
          )).1.state
            ≡ failed
      go true =
          if_both (λ (u : Touched K V X). u.1.state ≡ failed)
            ((release_caller dec t).1.caller_refs == 0) _ _ (λ _. refl) (λ _. refl)
      go false =
          if_both (λ (u : Touched K V X). u.1.state ≡ failed)
            ((release_caller dec t).1.caller_refs == 0) _ _ (λ _. refl) (λ _. refl)

  pub wakes-Good :
      (i : ℕ) (f : Flight K V X) (needed now : ℕ) (w : World K V X)
      → Good dec w
      → Good dec (woken_flight dec f i needed now w)
  wakes-Good i f needed now w h = go f.waiters f.flight.future
    where
      go :
          (n : ℕ) (u : Future V X)
          → Good dec (
              woken_flight dec
                (record f { waiters = n; flight = record (f.flight) { future = u } })
                i
                needed
                now
                w)
      go zero u = h
      go (suc n) pending = h
      go (suc n) (fetched v) = at_flight-Good dec i take_lease w (take-Move dec) h
      go (suc n) (fetch_failed x) = at_flight-Good dec i (leave dec) w (leave-Move dec) h
      go (suc n) cancelled =
          fetch_or_bypass-Good dec f.flight.key needed now (at_flight i (leave dec) w)
            (at_flight-Good dec i (leave dec) w (leave-Move dec) h)

  pub happens-Good :
      (e : FlightEvent K V X) (w : World K V X) → Good dec w → Good dec (happens dec e w)
  unfolding happens
  happens-Good (enters k needed now) w h = fetch_or_bypass-Good dec k needed now w h
  happens-Good (returns i v now) w h =
      at_flight-Good dec i (lead_returned v now) w (returned-Move dec v now) h
  happens-Good (raises i exc) w h =
      at_flight-Good dec i (lead_raised dec exc) w (raised-Move dec exc) h
  happens-Good (wakes i needed now) w h =
      Option_both (λ u. Good dec u) (lookup ℕ_discrete i w.flights) w _ (λ _. h)
        (λ f _. wakes-Good i f needed now w h)
  happens-Good (interrupted i) w h = at_flight-Good dec i (leave dec) w (leave-Move dec) h
  happens-Good (releases i) w h = at_flight-Good dec i (release_lease dec) w (release-Move dec) h
  happens-Good (timer_fires i) w h = at_flight-Good dec i (expire_flight dec) w (expire-Move dec) h
  happens-Good shuts_down w h = (shutdown-Good dec w h).0

  pub run_events-Good :
      (es : List (FlightEvent K V X)) (w : World K V X)
      → Good dec w
      → Good dec (run_events dec es w)
  unfolding run_events
  run_events-Good [] w h = h
  run_events-Good (e ∷ es) w h = run_events-Good es (happens dec e w) (happens-Good e w h)

  pub started-Good :
      (max_bytes grace_time : ℕ) → Good {V = V} {X = X} dec (started max_bytes grace_time)
  unfolding lookup
  started-Good max_bytes grace_time = record {
    world = record {
      distinct = tt;
      ledger = refl;
      within = omega arith;
      listed = λ i f q. absurd (cc);
    };
    index = record { keyed = tt; leads = λ i f q. absurd (cc); points = λ k i q. absurd (cc) };
  }
