-- ===== src/Flight/Methods.antt =====
-- singleflight.py: every method at one entry keeps the ledger and the references.
use oc_slimapi.Prelude.{
  inr, ℕ, suc, ◌+◌, ◌-◌, ◌≤◌, ◌≡◌, refl, Bool, true, false, Option, ◌==◌, if_both, arith,
}
use oc_slimapi.Flight.{
  Ownership, in_flight, grace, retained_body, failed, retired, FlightEntry, SingleFlight, reap,
  release_caller, put_retired, detach_from_active, fail, fail_released, fail_future,
}
use oc_slimapi.Flight.Calls.{Flight}
use oc_slimapi.Flight.Keeps.{
  held_of, one_if, StateOk, held, FlightOk, Detached, reap-Keeps, detach_key-Detached,
  detach_key-twice,
}
use oc_slimapi.Flight.Convert.{landed, with_parts, After, release_parts}

module _ {K V X : Type 0} (dec : Discrete K) where
  -- The failure of a flight whose leader still has its reference: the budget is free at once.
  fail_parts :
      (exc : Option X) (r : SingleFlight K) (st : Ownership) (a : Bool) (f : Flight K V X)
      → StateOk st f.flight.layer a f.flight.caller_refs f.leading
      → f.flight.caller_refs ≡ one_if f.leading + f.waiters + f.leases
      → f.leading ≡ true
      → held_of a f.flight.reserve_bytes ≤ r.leased_bytes
      → After dec r
          (with_parts dec st a f.flight.caller_refs f)
          (landed f.leases f)
          (fail dec exc (r, (with_parts dec st a f.flight.caller_refs f).flight))
  unfolding fail
  fail_parts exc r in_flight true f h k t b =
      if_both (λ x. After dec r old new (fail_released dec exc x)) (f.flight.caller_refs - 1 == 0) _
        _ (λ _. rest) (λ _. rest)
    where
      old : Flight K V X
      old = with_parts dec in_flight true f.flight.caller_refs f

      new : Flight K V X
      new = landed f.leases f

      one : one_if f.leading ≡ 1
      one = rw t refl

      -- The entry as `_fail` leaves it before the tombstone is looked at.
      dead : FlightEntry K V X
      dead = record (f.flight) {
        state = failed;
        accounted = false;
        layer = retired;
        caller_refs = f.flight.caller_refs - 1;
        future = fail_future exc f.flight.future;
      }

      freed : SingleFlight K
      freed =
          let r' = put_retired dec dead (detach_from_active dec f.flight r) in
          record r' { leased_bytes = r.leased_bytes - f.flight.reserve_bytes }

      ok : FlightOk (record new { flight = dead })
      ok = record { counts = omega (arith, k, one); state = (refl, refl, refl) }

      detached : Detached dec f.flight.key f.flight.seq r.entries freed.entries
      detached = detach_key-Detached dec f.flight.key f.flight.seq r.entries

      rest : After dec r old new (
          fail_released dec exc (r, record (old.flight) { caller_refs = f.flight.caller_refs - 1 }))
      rest =
          if_both (After dec r old new) (f.flight.caller_refs - 1 == 0) (reap dec (freed, dead))
            (freed, dead)
            (λ _.
              reap-Keeps dec r old.flight false (record new { flight = dead }) ok refl (omega arith)
                b freed (omega (arith, b)) refl refl
                (detach_key-twice dec f.flight.key f.flight.seq r.entries freed.entries detached))
            (λ _. record {
              pays = record {
                ok = ok;
                numbered = refl;
                keyed = refl;
                paid = omega (arith, b);
                less = omega arith;
                counted = refl;
                limit = refl;
              };
              shift = inr (refl, detached);
            })
  fail_parts exc r in_flight false f h k t b = absurd (cc)
  fail_parts exc r grace a f h k t b = absurd (cc)
  fail_parts exc r retained_body a f h k t b = absurd (cc)
  fail_parts exc r failed a f h k t b = absurd (cc)

  pub fail-Keeps :
      (exc : Option X) (r : SingleFlight K) (f : Flight K V X)
      → FlightOk f
      → f.leading ≡ true
      → held f.flight ≤ r.leased_bytes
      → After dec r f (landed f.leases f) (fail dec exc (r, f.flight))
  fail-Keeps exc r f h t b =
      fail_parts exc r f.flight.state f.flight.accounted f h.state h.counts t b

  pub release-Keeps :
      (r : SingleFlight K) (f : Flight K V X) (w l : ℕ)
      → FlightOk f
      → f.waiters + f.leases ≡ suc (w + l)
      → held f.flight ≤ r.leased_bytes
      → After dec r f (record f { waiters = w; leases = l }) (release_caller dec (r, f.flight))
  release-Keeps r f w l h p b =
      release_parts dec r f.flight.state f.flight.accounted f.flight.caller_refs
        (one_if f.leading + w + l) (record f { waiters = w; leases = l }) h.state
        (omega (arith, h.counts, p)) refl b
