-- ===== src/Flight/Shared.antt =====
-- singleflight.py: what holds after any events, in whatever order they come.
use oc_slimapi.Prelude.{
  ℕ, ◌+◌, ◌≤◌, ◌≡◌, refl, sym, ap, ◌∙◌, true, Option, some, List, [], ◌∷◌, lookup, All-map, if_both,
  Option_both, arith, ℕ_discrete,
}
use oc_slimapi.Prelude.Dict.Laws.{sum_by-assign, sum_by-remove}
use oc_slimapi.Prelude.Dict.Keys.{Distinct-Found}
use oc_slimapi.Flight.{active, fail}
use oc_slimapi.Flight.Calls.{Flight, Held, stop_flight}
use oc_slimapi.Flight.Events.{
  World, started, FlightEvent, raises, at_flight, without_key, shutdown_loop, shutdown, happens,
  run_events,
}
use oc_slimapi.Flight.Keeps.{held}
use oc_slimapi.Flight.Ledger.{held-held_by}
use oc_slimapi.Flight.Convert.{landed}
use oc_slimapi.Flight.Methods.{fail-Keeps}
use oc_slimapi.Flight.Admit.{Good}
use oc_slimapi.Flight.Shutdown.{shutdown-Good}
use oc_slimapi.Flight.Steps.{
  callers, callers_in, owed, owed_by, held-owed, sum_by-same, sum_by-zero, held-idle, held-led,
  held-failed, fail-failed, run_events-Good, started-Good,
}

module _ {K V X : Type 0} (dec : Discrete K) where
  -- The world after these events, from an empty registry.
  abbrev pub after : ℕ → ℕ → List (FlightEvent K V X) → World K V X
  after max_bytes grace_time es = run_events dec es (started max_bytes grace_time)

  after-Good : (m g : ℕ) (es : List (FlightEvent K V X)) → Good dec (after m g es)
  after-Good m g es = run_events-Good dec es (started m g) (started-Good dec m g)

  -- Whatever callers, factories, timers and shutdowns do, and in whatever order, the registry's
  -- total is the sum of the reserves of the flights that are in flight, in their grace window or
  -- kept for a caller who has not released them, and it is within the budget.
  pub after-ledger :
      (max_bytes grace_time : ℕ) (es : List (FlightEvent K V X))
      → ((after max_bytes grace_time es).registry.leased_bytes
          ≡ owed_by (after max_bytes grace_time es).flights)
        × ((after max_bytes grace_time es).registry.leased_bytes
            ≤ (after max_bytes grace_time es).registry.max_bytes)
  after-ledger m g es =
      let h = after-Good m g es in
      (
        h.world.ledger
            ∙ sum_by-same (λ x. held x.1.flight) (λ x. owed x.1) (after m g es).flights
                (All-map _ _ (λ x q. held-owed x.1 (h.world.listed x.0 x.1 q).ok)
                  (after m g es).flights
                  (Distinct-Found ℕ_discrete (after m g es).flights h.world.distinct)),
        h.world.within,
      )

  -- After any events the count of callers in an entry is the number of those who hold a reference to
  -- it: its leader, the callers that wait and the leases that are not released.
  pub after-references :
      (max_bytes grace_time : ℕ) (es : List (FlightEvent K V X)) (i : ℕ) (f : Flight K V X)
      → lookup ℕ_discrete i (after max_bytes grace_time es).flights ≡ some f
      → f.flight.caller_refs ≡ callers f
  after-references m g es i f q = ((after-Good m g es).world.listed i f q).ok.counts

  -- After any events two flights of the active layer with one key are the same flight, so a key has at
  -- most one request that can be joined.
  pub after-single :
      (max_bytes grace_time : ℕ) (es : List (FlightEvent K V X)) (i j : ℕ) (f g : Flight K V X)
      → lookup ℕ_discrete i (after max_bytes grace_time es).flights ≡ some f
      → lookup ℕ_discrete j (after max_bytes grace_time es).flights ≡ some g
      → f.flight.layer ≡ active
      → g.flight.layer ≡ active
      → f.flight.key ≡ g.flight.key
      → i ≡ j
  after-single m t es i j f g p q a b e =
      let h = (after-Good m t es).index in
      let u : some i ≡ some j =
        sym (h.leads i f p a)
        ∙ ap (λ k. lookup dec k (after m t es).registry.entries) e
        ∙ h.leads j g q b in
      cc u

  shutdown_loop-callers :
      (d : List (K × ℕ)) (w : World K V X) → callers_in (shutdown_loop dec d w) ≡ callers_in w
  unfolding shutdown_loop at_flight
  shutdown_loop-callers [] w = refl
  shutdown_loop-callers ((k, i) ∷ d) w =
      shutdown_loop-callers d (at_flight i (stop_flight dec) (without_key dec k w))
      ∙ Option_both (λ (u : World K V X). callers_in u ≡ callers_in w)
          (lookup ℕ_discrete i w.flights) (without_key dec k w) _ (λ _. refl)
          (λ f q. omega (
            arith,
            rw q at (
                sum_by-assign ℕ_discrete callers i
                  (stop_flight dec ((without_key dec k w).registry, f)).1 w.flights),
          ))

  -- The budget drains: when after any events no caller holds a reference any more, a shutdown leaves
  -- nothing reserved.
  pub after-drained :
      (max_bytes grace_time : ℕ) (es : List (FlightEvent K V X))
      → callers_in (after max_bytes grace_time es) ≡ 0
      → (shutdown dec (after max_bytes grace_time es)).registry.leased_bytes ≡ 0
  after-drained m g es none_left =
      let w = after m g es in
      let (h, off) = shutdown-Good dec w (after-Good m g es) in
      let quiet = shutdown_loop-callers w.registry.entries w ∙ none_left in
      h.world.ledger
      ∙ sum_by-zero (λ x. held x.1.flight) (shutdown dec w).flights
          (All-map _ _
            (λ x q.
              let z = h.world.listed x.0 x.1 q in
              held-idle x.1 z.ok (off x.0 x.1 q) (
                omega (
                  arith,
                  quiet,
                  rw q at (sum_by-remove ℕ_discrete callers x.0 (shutdown dec w).flights),
                )))
            (shutdown dec w).flights
            (Distinct-Found ℕ_discrete (shutdown dec w).flights h.world.distinct))

  -- When the leader of a flight fails, its whole reserve is free again in the same step, before any
  -- waiter wakes: for a flight with a leader, after any events, whatever was raised.
  pub after-raised :
      (max_bytes grace_time : ℕ) (es : List (FlightEvent K V X)) (i : ℕ) (f : Flight K V X)
      (exc : Option X)
      → lookup ℕ_discrete i (after max_bytes grace_time es).flights ≡ some f
      → f.leading ≡ true
      → (happens dec (raises i exc) (after max_bytes grace_time es)).registry.leased_bytes
          + f.flight.reserve_bytes
        ≡ (after max_bytes grace_time es).registry.leased_bytes
  unfolding happens at_flight
  after-raised m g es i f exc q t =
      let w = after m g es in
      Option_both
        (λ (u : World K V X).
          u.registry.leased_bytes + f.flight.reserve_bytes ≡ w.registry.leased_bytes)
        (lookup ℕ_discrete i w.flights) w _ (λ e. absurd (cc (e, q)))
        (λ f' e.
          let same : some f ≡ some f' = sym q ∙ e in
          let same' : f ≡ f' = cc same in
          if_both
            (λ (u : Held K V X).
              u.0.leased_bytes + f.flight.reserve_bytes ≡ w.registry.leased_bytes)
            f'.leading _ _
            (λ t'.
              let h = after-Good m g es in
              let z = h.world.listed i f' e in
              let b : held f'.flight ≤ w.registry.leased_bytes =
                omega (arith, h.world.ledger, held-held_by i f' w.flights e) in
              let k = (fail-Keeps dec exc w.registry f' z.ok t' b).pays in
              let dead =
                held-failed
                  (record (landed f'.leases f') {
                    flight = (fail dec exc (w.registry, f'.flight)).1;
                  })
                  k.ok (fail-failed dec exc (w.registry, f'.flight)) in
              let size : f.flight.reserve_bytes ≡ f'.flight.reserve_bytes =
                ap (λ x. x.flight.reserve_bytes) same' in
              omega (arith, k.paid, dead, held-led f' z.ok t', size))
            (λ t'. absurd (cc (ap (λ x. x.leading) same', t, t'))))
