-- ===== src/Flight/Ledger.antt =====
-- singleflight.py: the invariants of the registry with all its flights, and that an operation at one
-- flight keeps them.
use mathlib.Core.Path.{subst}
use oc_slimapi.Prelude.{
  ℕ, ◌≤◌, ◌≡◌, ◌≢◌, sym, ap, ◌∙◌, some, List, lookup, sum_by, Option_both, arith, ℕ_discrete,
}
use oc_slimapi.Prelude.Dict.{assign, Distinct}
use oc_slimapi.Prelude.Dict.Laws.{
  lookup-assign_self, lookup-assign_ne, sum_by-assign, sum_by-remove,
}
use oc_slimapi.Prelude.Dict.Keys.{assign-Distinct}
use oc_slimapi.Flight.{SingleFlight}
use oc_slimapi.Flight.Calls.{Flight, Held}
use oc_slimapi.Flight.Events.{World, at_flight}
use oc_slimapi.Flight.Keeps.{Pays, held, FlightOk}

module _ {K V X : Type 0} where
  -- What all flights together hold of the budget.
  abbrev pub held_by : List (ℕ × Flight K V X) → ℕ
  held_by d = sum_by (λ x. held x.1.flight) d

  -- A flight as it stands in the registry's record of them.
  pub record Listed (r : SingleFlight K) (i : ℕ) (f : Flight K V X) : Type 0 where
    pub ok : FlightOk f
    pub numbered : f.flight.seq ≡ i
    pub issued : i ≤ r.flight_seq

  -- The registry whose ledger is the sum of what its flights hold, and within the budget.
  pub record WorldOk (w : World K V X) : Type 0 where
    pub distinct : Distinct ℕ_discrete w.flights
    pub ledger : w.registry.leased_bytes ≡ held_by w.flights
    pub within : w.registry.leased_bytes ≤ w.registry.max_bytes
    pub listed :
        (i : ℕ) (f : Flight K V X) → lookup ℕ_discrete i w.flights ≡ some f → Listed w.registry i f

  pub held-held_by :
      (i : ℕ) (f : Flight K V X) (d : List (ℕ × Flight K V X))
      → lookup ℕ_discrete i d ≡ some f
      → held f.flight ≤ held_by d
  held-held_by i f d h =
      omega (arith, rw h at (sum_by-remove ℕ_discrete (λ (g : Flight K V X). held g.flight) i d))

  -- What a lookup finds after an assignment: the new value, or an old one under another key.
  pub lookup-assign_both :
      (Q : ℕ → Flight K V X → Type 0) (i : ℕ) (v : Flight K V X) (d : List (ℕ × Flight K V X))
      → Q i v
      → ((j : ℕ) (g : Flight K V X) → j ≢ i → lookup ℕ_discrete j d ≡ some g → Q j g)
      → (j : ℕ) (g : Flight K V X) → lookup ℕ_discrete j (assign ℕ_discrete i v d) ≡ some g
      → Q j g
  lookup-assign_both Q i v d new old j g q = elim (ℕ_discrete j i) [
    | yes p ↦
        let e : some v ≡ some g =
          sym (lookup-assign_self ℕ_discrete i v d)
          ∙ ap (λ x. lookup ℕ_discrete x (assign ℕ_discrete i v d)) (sym p)
          ∙ q in
        subst (λ x. Q x g) (sym p) (subst (λ x. Q i x) (cc e) new)
    | no n ↦ old j g n (sym (lookup-assign_ne ℕ_discrete j i v d n) ∙ q)
  ]

  pub at_flight-WorldOk :
      (i : ℕ) (op : Held K V X → Held K V X) (w : World K V X)
      → WorldOk w
      → ((f : Flight K V X)
          → FlightOk f
          → held f.flight ≤ w.registry.leased_bytes
          → lookup ℕ_discrete i w.flights ≡ some f
          → Pays w.registry f.flight (op (w.registry, f)))
      → WorldOk (at_flight i op w)
  unfolding at_flight
  at_flight-WorldOk i op w h k =
      Option_both (λ u. WorldOk u) (lookup ℕ_discrete i w.flights) w _ (λ _. h) moved
    where
      moved :
          (f : Flight K V X)
          → lookup ℕ_discrete i w.flights ≡ some f
          → WorldOk (record {
            registry = (op (w.registry, f)).0;
            flights = assign ℕ_discrete i (op (w.registry, f)).1 w.flights;
          })
      moved f e =
          let old = h.listed i f e in
          let part = held-held_by i f w.flights e in
          let kept = k f old.ok (omega (arith, part, h.ledger)) e in
          let sum = rw e at (
            sum_by-assign ℕ_discrete (λ (g : Flight K V X). held g.flight) i (op (w.registry, f)).1
              w.flights) in
          record {
            distinct = assign-Distinct ℕ_discrete i (op (w.registry, f)).1 w.flights h.distinct;
            ledger = omega (arith, h.ledger, kept.paid, sum, part);
            within = omega (arith, h.within, kept.paid, kept.less, kept.limit);
            listed = λ j g q.
                lookup-assign_both (λ j g. Listed (op (w.registry, f)).0 j g) i
                  (op (w.registry, f)).1 w.flights
                  (record {
                    ok = kept.ok;
                    numbered = kept.numbered ∙ old.numbered;
                    issued = omega (arith, old.issued, kept.counted);
                  })
                  (λ j g n q.
                    let z = h.listed j g q in
                    record {
                      ok = z.ok;
                      numbered = z.numbered;
                      issued = omega (arith, z.issued, kept.counted);
                    })
                  j g q;
          }
