-- ===== src/Flight/Convert.antt =====
-- singleflight.py: releases, the end of the grace window and a success keep the ledger and the references.
use mathlib.Core.Path.{subst}
use oc_slimapi.Prelude.{
  inl, inr, ℕ, suc, ◌+◌, ◌-◌, ◌≤◌, ◌≡◌, refl, ◌∙◌, Bool, true, false, lookup, ◌==◌, if_both, arith,
}
use oc_slimapi.Flight.{
  Ownership, in_flight, grace, retained_body, failed, Layer, active, retired, FlightEntry,
  SingleFlight, Touched, is_entry, reap, release_caller, drop_grace, put_retired,
  detach_from_active, expire_grace, expire_grace_in, expire_grace_entry, converted, succeed,
  set_result,
}
use oc_slimapi.Flight.Calls.{Flight}
use oc_slimapi.Flight.Keeps.{
  Keeps, held_of, one_if, StateOk, held, FlightOk, Detached, reap-Keeps, unchanged-Keeps,
  detach_key-Detached, detach_key-twice,
}

module _ {K V X : Type 0} where
  -- The flight after its leader has gone, with this many leases.
  abbrev pub landed : ℕ → Flight K V X → Flight K V X
  landed n f = record f { leading = false; leases = n }

module _ {K V X : Type 0} (dec : Discrete K) where
  -- The flight whose entry has this state, mark and count.
  abbrev pub with_parts : Ownership → Bool → ℕ → Flight K V X → Flight K V X
  with_parts st a c g = record g {
    flight = record (g.flight) { state = st; accounted = a; caller_refs = c };
  }

  -- What the method's result keeps.
  abbrev pub After : SingleFlight K → Flight K V X → Flight K V X → Touched K V X → Type 0
  After r f g t = Keeps dec r f.flight (t.0, record g { flight = t.1 })

  -- One reference is given up: `g` has the callers that are left.
  pub release_parts :
      (r : SingleFlight K) (st : Ownership) (a : Bool) (c n : ℕ) (g : Flight K V X)
      → StateOk st g.flight.layer a c g.leading
      → c ≡ suc n
      → n ≡ one_if g.leading + g.waiters + g.leases
      → held_of a g.flight.reserve_bytes ≤ r.leased_bytes
      → After r (with_parts st a c g) g (release_caller dec (r, (with_parts st a c g).flight))
  release_parts r st a c n g h p q b = go st h
    where
      f : Ownership → Flight K V X
      f st' = with_parts st' a c g

      same :
          (st' : Ownership)
          → StateOk st' g.flight.layer a (c - 1) g.leading
          → After r (f st') g (r, (with_parts st' a (c - 1) g).flight)
      same st' z =
          unchanged-Keeps dec r (f st') (with_parts st' a (c - 1) g)
            (record { counts = omega (arith, p, q); state = z }) refl refl refl refl

      gone :
          (st' : Ownership)
          → StateOk st' g.flight.layer false (c - 1) g.leading
          → g.flight.layer ≡ retired
          → After r (f st') g (reap dec (r, (with_parts st' a (c - 1) g).flight))
      gone st' z l =
          reap-Keeps dec r (f st').flight a (with_parts st' a (c - 1) g)
            (record { counts = omega (arith, p, q); state = z }) l (omega arith) b r refl refl refl
            (detach_key-Detached dec g.flight.key g.flight.seq r.entries)

      go :
          (st' : Ownership)
          → StateOk st' g.flight.layer a c g.leading
          → After r (f st') g (release_caller dec (r, (f st').flight))
      go in_flight h' =
          if_both (After r (f in_flight) g) (c - 1 == 0) _ _ (λ _. same in_flight h')
            (λ _. same in_flight h')
      go grace h' =
          if_both (After r (f grace) g) (c - 1 == 0) _ _ (λ _. same grace h') (λ _. same grace h')
      go retained_body h' =
          if_both (After r (f retained_body) g) (c - 1 == 0) _ _
            (λ z. gone retained_body (h'.0, rw z refl, h'.2) h'.0)
            (λ z. same retained_body (h'.0, h'.1 ∙ ground arith, h'.2))
      go failed h' =
          if_both (After r (f failed) g) (c - 1 == 0) _ _ (λ _. gone failed (h'.0, refl, h'.2) h'.0)
            (λ _. same failed h')

  -- `_drop_grace`, its entry in the grace state: whoever still has it keeps it in the budget.
  pub drop_grace-Keeps :
      (r : SingleFlight K) (f : Flight K V X)
      → FlightOk f
      → f.flight.accounted ≡ true
      → f.leading ≡ false
      → held f.flight ≤ r.leased_bytes
      → After r f f (drop_grace dec (r, record (f.flight) { timer = false }))
  drop_grace-Keeps r f h a l b =
      if_both (After r f f) (f.flight.caller_refs == 0) _ _
        (λ z.
          reap-Keeps dec r f.flight f.flight.accounted (record f { flight = kept })
            (record { counts = h.counts; state = (refl, rw z refl, l) }) refl (omega arith) b off
            refl refl refl
            (detach_key-twice dec f.flight.key f.flight.seq r.entries off.entries detached))
        (λ z. record {
          pays = record {
            ok = record { counts = h.counts; state = (refl, rw (z, a) refl, l) };
            numbered = refl;
            keyed = refl;
            paid = refl;
            less = omega arith;
            counted = refl;
            limit = refl;
          };
          shift = inr (refl, detached);
        })
    where
      kept : FlightEntry K V X
      kept = record (f.flight) { timer = false; layer = retired; state = retained_body }

      off : SingleFlight K
      off = put_retired dec kept (detach_from_active dec f.flight r)

      detached : Detached dec f.flight.key f.flight.seq r.entries off.entries
      detached = detach_key-Detached dec f.flight.key f.flight.seq r.entries

  pub expire_grace-Keeps :
      (r : SingleFlight K) (f : Flight K V X)
      → FlightOk f
      → held f.flight ≤ r.leased_bytes
      → After r f f (expire_grace dec (r, f.flight))
  expire_grace-Keeps r f h b = go f.flight.state f.flight.layer refl
    where
      go :
          (st : Ownership) (l : Layer)
          → f.flight.state ≡ st
          → After r f f (expire_grace_in dec st l (r, f.flight))
      go grace active p =
          let z =
            subst (λ s. StateOk s f.flight.layer f.flight.accounted f.flight.caller_refs f.leading)
              p h.state in
          drop_grace-Keeps r f h z.1 z.2 b
      go grace retired p = unchanged-Keeps dec r f f h refl refl refl refl
      go in_flight l p = unchanged-Keeps dec r f f h refl refl refl refl
      go retained_body l p = unchanged-Keeps dec r f f h refl refl refl refl
      go failed l p = unchanged-Keeps dec r f f h refl refl refl refl

  pub expire_grace_entry-Keeps :
      (r : SingleFlight K) (f : Flight K V X)
      → FlightOk f
      → held f.flight ≤ r.leased_bytes
      → After r f f (expire_grace_entry dec (r, f.flight))
  unfolding expire_grace_entry
  expire_grace_entry-Keeps r f h b =
      if_both (After r f f) (is_entry (lookup dec f.flight.key r.entries) f.flight.seq) _ _
        (λ _. expire_grace-Keeps r f h b) (λ _. unchanged-Keeps dec r f f h refl refl refl refl)

  pub succeed-Keeps :
      (now : ℕ) (v : V) (r : SingleFlight K) (f : Flight K V X)
      → FlightOk f
      → f.leading ≡ true
      → After r f (landed (f.leases + 1) f) (succeed now v (r, f.flight))
  succeed-Keeps now v r f h t = go f.flight.state f.flight.layer h.state refl
    where
      one : one_if f.leading ≡ 1
      one = rw t refl

      go :
          (st : Ownership) (l : Layer)
          → StateOk st f.flight.layer f.flight.accounted f.flight.caller_refs f.leading
          → f.flight.layer ≡ l
          → After r f
              (landed (f.leases + 1) f)
              (converted now st l (r, record (f.flight) { future = set_result v f.flight.future }))
      go in_flight active z q = record {
        pays = record {
          ok = record { counts = omega (arith, h.counts, one); state = (q, z.0, refl) };
          numbered = refl;
          keyed = refl;
          paid = refl;
          less = omega arith;
          counted = refl;
          limit = refl;
        };
        shift = inl (refl, refl);
      }
      go in_flight retired z q = record {
        pays = record {
          ok = record {
            counts = omega (arith, h.counts, one);
            state = (q, z.0 ∙ ground (arith, h.counts, one), refl);
          };
          numbered = refl;
          keyed = refl;
          paid = refl;
          less = omega arith;
          counted = refl;
          limit = refl;
        };
        shift = inl (refl, refl);
      }
      go grace l z q = absurd (cc)
      go retained_body l z q = absurd (cc)
      go failed l z q = absurd (cc)
