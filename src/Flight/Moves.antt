-- ===== src/Flight/Moves.antt =====
-- singleflight.py: what each caller's move does to the flight it holds keeps the ledger.
use mathlib.Core.Path.{subst}
use oc_slimapi.Prelude.{ℕ, zero, suc, ◌+◌, ◌≤◌, ◌≡◌, refl, sym, Option, if_both, arith}
use oc_slimapi.Flight.{Ownership, in_flight, grace, retained_body, failed, active, SingleFlight}
use oc_slimapi.Flight.Calls.{
  Flight, Held, due, evictable, join_flight, lead_returned, lead_raised, leave, release_lease,
  take_lease, expire_flight, expire_flight_due, evict_idle,
}
use oc_slimapi.Flight.Keeps.{StateOk, held, FlightOk, Keeps, unchanged-Keeps}
use oc_slimapi.Flight.Convert.{expire_grace-Keeps, expire_grace_entry-Keeps, succeed-Keeps}
use oc_slimapi.Flight.Methods.{fail-Keeps, release-Keeps}

module _ {K V X : Type 0} (dec : Discrete K) where
  -- A move at a flight keeps the ledger, for a registry that can pay for the flight.
  abbrev pub Move : (Held K V X → Held K V X) → Type 0
  Move op =
      (r : SingleFlight K) (f : Flight K V X)
      → FlightOk f
      → held f.flight ≤ r.leased_bytes
      → Keeps dec r f.flight (op (r, f))

  idle : (r : SingleFlight K) (f : Flight K V X) → FlightOk f → Keeps dec r f.flight (r, f)
  idle r f h = unchanged-Keeps dec r f f h refl refl refl refl

  -- An entry of the active layer can be joined.
  pub join-Keeps :
      (r : SingleFlight K) (f : Flight K V X)
      → FlightOk f
      → f.flight.layer ≡ active
      → Keeps dec r f.flight (join_flight (r, f))
  join-Keeps r f h l =
      unchanged-Keeps dec r f _
        (record { counts = omega (arith, h.counts); state = more f.flight.state refl h.state }) refl
        refl refl refl
    where
      back :
          (st : Ownership)
          → f.flight.state ≡ st
          → StateOk st f.flight.layer f.flight.accounted (f.flight.caller_refs + 1) f.leading
          → StateOk f.flight.state f.flight.layer f.flight.accounted
              (f.flight.caller_refs + 1)
              f.leading
      back st p z =
          subst
            (λ s. StateOk s f.flight.layer f.flight.accounted (f.flight.caller_refs + 1) f.leading)
            (sym p) z

      more :
          (st : Ownership)
          → f.flight.state ≡ st
          → StateOk st f.flight.layer f.flight.accounted f.flight.caller_refs f.leading
          → StateOk f.flight.state f.flight.layer f.flight.accounted
              (f.flight.caller_refs + 1)
              f.leading
      more in_flight p z = back in_flight p z
      more grace p z = back grace p z
      more retained_body p z = absurd (cc)
      more failed p z = absurd (cc)

  pub returned-Move : (v : V) (now : ℕ) → Move (lead_returned v now)
  returned-Move v now r f h b =
      if_both (λ (t : Held K V X). Keeps dec r f.flight t) f.leading _ _
        (λ t. succeed-Keeps dec now v r f h t) (λ _. idle r f h)

  pub raised-Move : (exc : Option X) → Move (lead_raised dec exc)
  raised-Move exc r f h b =
      if_both (λ (t : Held K V X). Keeps dec r f.flight t) f.leading _ _
        (λ t. fail-Keeps dec exc r f h t b) (λ _. idle r f h)

  pub leave-Move : Move (leave dec)
  leave-Move r f h b = go f.waiters refl
    where
      go : (n : ℕ) → f.waiters ≡ n → Keeps dec r f.flight (leave dec (r, record f { waiters = n }))
      go zero p =
          unchanged-Keeps dec r f _
            (record { counts = omega (arith, h.counts, p); state = h.state }) refl refl refl refl
      go (suc n) p = release-Keeps dec r f n f.leases h (omega (arith, p)) b

  pub release-Move : Move (release_lease dec)
  release-Move r f h b = go f.leases refl
    where
      go :
          (n : ℕ)
          → f.leases ≡ n
          → Keeps dec r f.flight (release_lease dec (r, record f { leases = n }))
      go zero p =
          unchanged-Keeps dec r f _
            (record { counts = omega (arith, h.counts, p); state = h.state }) refl refl refl refl
      go (suc n) p = release-Keeps dec r f f.waiters n h (omega (arith, p)) b

  pub take-Move : Move take_lease
  take-Move r f h b = go f.waiters refl
    where
      go : (n : ℕ) → f.waiters ≡ n → Keeps dec r f.flight (take_lease (r, record f { waiters = n }))
      go zero p =
          unchanged-Keeps dec r f _
            (record { counts = omega (arith, h.counts, p); state = h.state }) refl refl refl refl
      go (suc n) p =
          unchanged-Keeps dec r f _
            (record { counts = omega (arith, h.counts, p); state = h.state }) refl refl refl refl

  pub expire-Move : Move (expire_flight dec)
  expire-Move r f h b = expire_grace_entry-Keeps dec r f h b

  pub expire_due-Move : (now : ℕ) → Move (expire_flight_due dec now)
  expire_due-Move now r f h b =
      if_both (λ (t : Held K V X). Keeps dec r f.flight t) (due f.flight.expires_at now) _ _
        (λ _. expire-Move r f h b) (λ _. idle r f h)

  pub evict-Move : Move (evict_idle dec)
  evict-Move r f h b =
      if_both (λ (t : Held K V X). Keeps dec r f.flight t)
        (evictable f.flight.state f.flight.caller_refs) _ _ (λ _. expire_grace-Keeps dec r f h b)
        (λ _. idle r f h)
