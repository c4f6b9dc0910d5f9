-- ===== src/Flight/Calls.antt =====
-- singleflight.py: the callers that hold references to an entry, and the methods at one entry with
-- them.
use oc_slimapi.Prelude.{
  ℕ, zero, suc, ◌+◌, Bool, false, Option, none, some, leb, ◌==◌, if◌then◌else◌,
}
use oc_slimapi.Flight.{
  Ownership, in_flight, grace, retained_body, failed, Future, pending, cancelled, fetched,
  fetch_failed, FlightEntry, SingleFlight, Touched, release_caller, expire_grace,
  expire_grace_entry, succeed, fail, shutdown_entry,
}

-- An entry with those who hold a reference to it: its leader, who runs the factory, the callers that
-- wait for the future, and the leases that are not released yet.
pub record Flight (K V X : Type 0) : Type 0 where
  pub flight : FlightEntry K V X
  pub leading : Bool
  pub waiters : ℕ
  pub leases : ℕ

abbrev pub Held : Type 0 → Type 0 → Type 0 → Type 0
Held K V X = SingleFlight K × Flight K V X

-- The body that a lease hands out, once the future has a result.
abbrev pub lease_body : {V X : Type 0} → Future V X → Option V
lease_body pending = none
lease_body cancelled = none
lease_body (fetched v) = some v
lease_body (fetch_failed x) = none

-- `entry.state == GRACE and entry.caller_refs == 0`.
abbrev pub evictable : Ownership → ℕ → Bool
evictable in_flight refs = false
evictable grace refs = refs == 0
evictable retained_body refs = false
evictable failed refs = false

-- `clock() >= expires_at`, for an entry that has a deadline.
abbrev pub due : Option ℕ → ℕ → Bool
due none now = false
due (some t) now = leb t now

-- `leased_bytes + needed <= max_bytes`.
abbrev pub fits : {K : Type 0} → ℕ → SingleFlight K → Bool
fits needed r = leb (r.leased_bytes + needed) r.max_bytes

module _ {K V X : Type 0} where
  -- A method at the entry of a flight, whose callers become those of the given record.
  abbrev pub at_entry : Flight K V X → (Touched K V X → Touched K V X) → SingleFlight K → Held K V X
  at_entry f op r = let t = op (r, f.flight) in (t.0, record f { flight = t.1 })

  -- A waiter's reference, counted before it awaits.
  abbrev pub join_flight : Held K V X → Held K V X
  join_flight (r, f) = (
    r,
    record f {
      flight = record (f.flight) { caller_refs = f.flight.caller_refs + 1 };
      waiters = f.waiters + 1;
    },
  )

  -- The leader has the result and a lease on it.
  abbrev pub lead_returned : V → ℕ → Held K V X → Held K V X
  lead_returned v now (r, f) =
      if f.leading
      then at_entry (record f { leading = false; leases = f.leases + 1 }) (succeed now v) r
      else (r, f)

  -- A waiter that resumes with a result keeps its reference in a lease.
  abbrev pub take_lease : Held K V X → Held K V X
  take_lease (r, f) = elim f.waiters [
    | zero ↦ (r, f)
    | suc n ↦ (r, record f { waiters = n; leases = f.leases + 1 })
  ]

module _ {K V X : Type 0} (dec : Discrete K) where
  abbrev pub lead_raised : Option X → Held K V X → Held K V X
  lead_raised exc (r, f) =
      if f.leading then at_entry (record f { leading = false }) (fail dec exc) r else (r, f)

  -- A waiter gives up its reference.
  abbrev pub leave : Held K V X → Held K V X
  leave (r, f) = elim f.waiters [
    | zero ↦ (r, f)
    | suc n ↦ at_entry (record f { waiters = n }) (release_caller dec) r
  ]

  -- `Lease._release`, which the handle does once.
  abbrev pub release_lease : Held K V X → Held K V X
  release_lease (r, f) = elim f.leases [
    | zero ↦ (r, f)
    | suc n ↦ at_entry (record f { leases = n }) (release_caller dec) r
  ]

  abbrev pub expire_flight : Held K V X → Held K V X
  expire_flight (r, f) = at_entry f (expire_grace_entry dec) r

  abbrev pub expire_flight_due : ℕ → Held K V X → Held K V X
  expire_flight_due now (r, f) =
      if due f.flight.expires_at now then expire_flight (r, f) else (r, f)

  -- One round of the eviction in `_try_reserve`.
  abbrev pub evict_idle : Held K V X → Held K V X
  evict_idle (r, f) =
      if evictable f.flight.state f.flight.caller_refs
      then at_entry f (expire_grace dec) r
      else (r, f)

  abbrev pub stop_flight : Held K V X → Held K V X
  stop_flight (r, f) = at_entry f (shutdown_entry dec) r
