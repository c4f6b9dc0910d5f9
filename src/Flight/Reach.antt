-- ===== src/Flight/Reach.antt =====
-- singleflight.py: admission keeps the ledger and the active layer.
use oc_slimapi.Prelude.{
  ℕ, ◌+◌, ◌≤◌, ◌≡◌, refl, sym, ap, ◌∙◌, true, none, some, inl, inr, lookup, if_both, Option_both,
  Option-cases, arith, ℕ_discrete,
}
use oc_slimapi.Prelude.Dict.{assign}
use oc_slimapi.Prelude.Dict.Laws.{lookup-assign_self, lookup-assign_ne, sum_by-assign}
use oc_slimapi.Prelude.Dict.Keys.{assign-Distinct}
use oc_slimapi.Flight.{active, new_flight}
use oc_slimapi.Flight.Calls.{Flight, join_flight, expire_flight_due}
use oc_slimapi.Flight.Events.{
  World, Admission, try_reserve, lead_new, fetch_or_bypass, expire_if_due,
}
use oc_slimapi.Flight.Keeps.{held}
use oc_slimapi.Flight.Ledger.{Listed, at_flight-WorldOk, lookup-assign_both}
use oc_slimapi.Flight.Index.{at_flight-IndexOk}
use oc_slimapi.Flight.Moves.{join-Keeps, expire_due-Move}
use oc_slimapi.Flight.Admit.{Good, at_key-Good, Evicted, try_reserve-Evicted}

module _ {K V X : Type 0} (dec : Discrete K) where
  -- A fresh flight under a key that leads nowhere, with a reserve that fits.
  lead_new-Good :
      (k : K) (needed : ℕ) (w : World K V X)
      → Evicted dec k w
      → w.registry.leased_bytes + needed ≤ w.registry.max_bytes
      → Good dec (lead_new dec k needed w)
  unfolding lead_new
  lead_new-Good k needed w (h, a) b = record {
    world = record {
      distinct = assign-Distinct ℕ_discrete n new w.flights h.world.distinct;
      ledger = omega (
        arith,
        h.world.ledger,
        rw fresh at
            (sum_by-assign ℕ_discrete (λ (g : Flight K V X). held g.flight) n new w.flights),
      );
      within = b;
      listed =
          lookup-assign_both (λ j g. Listed (lead_new dec k needed w).registry j g) n new w.flights
            (record {
              ok = record { counts = refl; state = (refl, refl) };
              numbered = refl;
              issued = omega arith;
            })
            (λ j g _ q.
              let z = h.world.listed j g q in
              record { ok = z.ok; numbered = z.numbered; issued = omega (arith, z.issued) });
    };
    index = record {
      keyed = assign-Distinct dec k n w.registry.entries h.index.keyed;
      leads =
          lookup-assign_both
            (λ j g.
              g.flight.layer ≡ active
              → lookup dec g.flight.key (assign dec k n w.registry.entries) ≡ some j)
            n new w.flights (λ _. lookup-assign_self dec k n w.registry.entries)
            (λ j g _ q l.
              let z = h.index.leads j g q l in
              lookup-assign_ne dec g.flight.key k n w.registry.entries
                (λ p. cc (sym (ap (λ x. lookup dec x w.registry.entries) p) ∙ z, a))
              ∙ z);
      points = λ j i q. elim (dec j k) [
        | yes p ↦
            let u : some n ≡ some i =
              sym (lookup-assign_self dec k n w.registry.entries)
              ∙ ap (λ x. lookup dec x (assign dec k n w.registry.entries)) (sym p)
              ∙ q in
            let v : n ≡ i = cc u in
            (
              new,
              ap (λ x. lookup ℕ_discrete x (assign ℕ_discrete n new w.flights)) (sym v)
                  ∙ lookup-assign_self ℕ_discrete n new w.flights,
              refl,
              p,
            )
        | no m ↦
            let (f, found, l, key) =
              h.index.points j i (sym (lookup-assign_ne dec j k n w.registry.entries m) ∙ q) in
            (
              f,
              lookup-assign_ne ℕ_discrete i n new w.flights
                    (λ p. cc (sym (ap (λ x. lookup ℕ_discrete x w.flights) p) ∙ found, fresh))
                  ∙ found,
              l,
              key,
            )
      ];
    };
  }
    where
      n : ℕ
      n = w.registry.flight_seq + 1

      new : Flight K V X
      new = record {
        flight = (new_flight k needed w.registry).1;
        leading = true;
        waiters = 0;
        leases = 0;
      }

      fresh : lookup ℕ_discrete n w.flights ≡ none
      fresh = elim (Option-cases (lookup ℕ_discrete n w.flights)) [
        | inl e ↦ e
        | inr (f, e) ↦ absurd (omega (arith, (h.world.listed n f e).issued))
      ]

  pub fetch_or_bypass-Good :
      (k : K) (needed now : ℕ) (w : World K V X)
      → Good dec w
      → Good dec (fetch_or_bypass dec k needed now w).1
  unfolding fetch_or_bypass
  fetch_or_bypass-Good k needed now w h =
      let w' = expire_if_due dec k now w in
      let h' = at_key-Good dec k (expire_flight_due dec now) w (expire_due-Move dec now) h in
      Option_both (λ (t : Admission × World K V X). Good dec t.1) (lookup dec k w'.registry.entries)
        _ _
        (λ a.
          let r = try_reserve-Evicted dec k needed w' (h', a) in
          if_both (λ (t : Admission × World K V X). Good dec t.1) (try_reserve dec needed w').0 _ _
            (λ t. lead_new-Good k needed (try_reserve dec needed w').1 r.0 (r.1 t)) (λ _. r.0.0))
        (λ i e.
          let (f, found, l, _) = h'.index.points k i e in
          let same = λ (g : Flight K V X) (q : lookup ℕ_discrete i w'.flights ≡ some g).
            let u : some f ≡ some g = sym found ∙ q in
            let v : f ≡ g = cc u in ap (λ z. z.flight.layer) (sym v) ∙ l in
          record {
            world =
                at_flight-WorldOk i join_flight w' h'.world
                  (λ g ok b q. (join-Keeps dec w'.registry g ok (same g q)).pays);
            index =
                at_flight-IndexOk dec i join_flight w' h'.world h'.index
                  (λ g ok b q. join-Keeps dec w'.registry g ok (same g q));
          })
