-- ===== src/Flight/Stop.antt =====
-- singleflight.py `shutdown`: what it does to one entry of the active layer.
use mathlib.Core.Path.{subst}
use oc_slimapi.Prelude.{◌⊎◌, inl, inr, ◌≤◌, ◌≡◌, refl, sym, false, ◌==◌, if_both, arith}
use oc_slimapi.Flight.{
  Ownership, in_flight, grace, retained_body, failed, retired, FlightEntry, SingleFlight, Touched,
  detach_key, put_retired, shutdown_entry, stopped,
}
use oc_slimapi.Flight.Calls.{Flight, at_entry}
use oc_slimapi.Flight.Keeps.{StateOk, held, FlightOk, Pays, reap-Pays, reap-entries, reap-layer}

module _ {K V X : Type 0} (dec : Discrete K) where
  -- The entry when it has moved to the retired layer, and the registry that has it there.
  abbrev moved_entry : FlightEntry K V X → FlightEntry K V X
  moved_entry e = record e { timer = false; layer = retired }

  abbrev moved_off : SingleFlight K → FlightEntry K V X → SingleFlight K
  moved_off r e = put_retired dec (moved_entry e) r

  pub stop-Pays :
      (r : SingleFlight K) (f : Flight K V X)
      → FlightOk f
      → held f.flight ≤ r.leased_bytes
      → Pays r f.flight (at_entry f (shutdown_entry dec) r)
  unfolding shutdown_entry
  stop-Pays r f h b = go f.flight.state refl h.state
    where
      tombstone :
          StateOk f.flight.state retired f.flight.accounted f.flight.caller_refs f.leading
          → Pays r f.flight (moved_off r f.flight, record f { flight = moved_entry f.flight })
      tombstone z = record {
        ok = record { counts = h.counts; state = z };
        numbered = refl;
        keyed = refl;
        paid = refl;
        less = omega arith;
        counted = refl;
        limit = refl;
      }

      back :
          (st : Ownership)
          → f.flight.state ≡ st
          → StateOk st retired f.flight.accounted f.flight.caller_refs f.leading
          → StateOk f.flight.state retired f.flight.accounted f.flight.caller_refs f.leading
      back st p z =
          subst (λ s. StateOk s retired f.flight.accounted f.flight.caller_refs f.leading) (sym p) z

      go :
          (st : Ownership)
          → f.flight.state ≡ st
          → StateOk st f.flight.layer f.flight.accounted f.flight.caller_refs f.leading
          → Pays r f.flight
              (at_entry f (λ _. stopped dec st (moved_off r f.flight, moved_entry f.flight)) r)
      go in_flight p z = tombstone (back in_flight p z)
      go grace p z =
          if_both (λ (t : Touched K V X). Pays r f.flight (t.0, record f { flight = t.1 }))
            (f.flight.caller_refs == 0) _ _
            (λ y.
              reap-Pays dec r f.flight f.flight.accounted
                (record f { flight = record (moved_entry f.flight) { state = retained_body } })
                (record { counts = h.counts; state = (refl, rw y refl, z.2) }) refl refl
                (omega arith) b (moved_off r f.flight) refl refl refl)
            (λ y. record {
              ok = record { counts = h.counts; state = (refl, rw (y, z.1) refl, z.2) };
              numbered = refl;
              keyed = refl;
              paid = refl;
              less = omega arith;
              counted = refl;
              limit = refl;
            })
      go retained_body p z = tombstone (back retained_body p (refl, z.1, z.2))
      go failed p z = tombstone (back failed p (refl, z.1, z.2))

  -- The entry is in the active layer no more, and the layer has at most lost it.
  pub stop-retired :
      (r : SingleFlight K) (f : Flight K V X)
      → ((at_entry f (shutdown_entry dec) r).1.flight.layer ≡ retired)
        × ((at_entry f (shutdown_entry dec) r).0.entries ≡ r.entries
            ⊎ ((at_entry f (shutdown_entry dec) r).0.entries
                ≡ detach_key dec f.flight.key f.flight.seq r.entries))
  unfolding shutdown_entry
  stop-retired r f = go f.flight.state
    where
      go :
          (st : Ownership)
          → ((stopped dec st (moved_off r f.flight, moved_entry f.flight)).1.layer ≡ retired)
            × ((stopped dec st (moved_off r f.flight, moved_entry f.flight)).0.entries ≡ r.entries
                ⊎ ((stopped dec st (moved_off r f.flight, moved_entry f.flight)).0.entries
                    ≡ detach_key dec f.flight.key f.flight.seq r.entries))
      go in_flight = (refl, inl refl)
      go grace =
          if_both
            (λ (t : Touched K V X).
              (t.1.layer ≡ retired)
              × (t.0.entries ≡ r.entries
                  ⊎ (t.0.entries ≡ detach_key dec f.flight.key f.flight.seq r.entries)))
            (f.flight.caller_refs == 0) _ _
            (λ _. (
              reap-layer dec f.flight.accounted kept (moved_off r f.flight),
              inr (reap-entries dec f.flight.accounted kept (moved_off r f.flight)),
            ))
            (λ _. (refl, inl refl))
        where
          kept : Flight K V X
          kept = record f { flight = record (moved_entry f.flight) { state = retained_body } }
      go retained_body = (refl, inl refl)
      go failed = (refl, inl refl)
