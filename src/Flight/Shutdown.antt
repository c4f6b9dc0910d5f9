-- ===== src/Flight/Shutdown.antt =====
-- singleflight.py `shutdown`: every entry leaves the active layer, and the ledger stays right.
use oc_slimapi.Prelude.{
  ℕ, ◌≡◌, ◌≢◌, sym, ap, ◌∙◌, some, inl, inr, List, [], ◌∷◌, lookup, if_pos, if_neg, Option_both,
  ℕ_discrete,
}
use oc_slimapi.Prelude.Dict.{Distinct}
use oc_slimapi.Prelude.Dict.Laws.{lookup-remove_self, remove-Distinct}
use oc_slimapi.Flight.{active}
use oc_slimapi.Flight.Calls.{Flight, stop_flight}
use oc_slimapi.Flight.Events.{World, at_flight, without_key, shutdown_loop, shutdown}
use oc_slimapi.Flight.Keeps.{Fewer, remove-Fewer, detach_key-Detached}
use oc_slimapi.Flight.Stop.{stop-Pays, stop-retired}
use oc_slimapi.Flight.Ledger.{WorldOk, at_flight-WorldOk, lookup-assign_both}
use oc_slimapi.Flight.Admit.{Good}

module _ {K : Type 0} (dec : Discrete K) where
  -- What a lookup finds past an entry of another key.
  lookup-tail :
      (k : K) (i : ℕ) (d : List (K × ℕ)) (j : K) (m : ℕ)
      → j ≢ k
      → lookup dec j ((k, i) ∷ d) ≡ some m
      → lookup dec j d ≡ some m
  unfolding lookup
  lookup-tail k i d j m n q = sym (if_neg (dec j k) n _ _) ∙ q

  lookup-head :
      (k : K) (i : ℕ) (d : List (K × ℕ)) (j : K) (m : ℕ)
      → j ≡ k
      → lookup dec j ((k, i) ∷ d) ≡ some m
      → i ≡ m
  unfolding lookup
  lookup-head k i d j m p q = let e : some i ≡ some m = sym (if_pos (dec j k) p _ _) ∙ q in cc e

module _ {K V X : Type 0} (dec : Discrete K) where
  -- The loop of `shutdown` with `d` still to come: no entry and no active flight but those of `d`.
  record Rest (d : List (K × ℕ)) (w : World K V X) : Type 0 where
    world : WorldOk w
    keyed : Distinct dec w.registry.entries
    within_d : Fewer dec d w.registry.entries
    left :
        (i : ℕ) (f : Flight K V X)
        → lookup ℕ_discrete i w.flights ≡ some f
        → f.flight.layer ≡ active
        → (k : K) × (lookup dec k d ≡ some i)

  step-Rest :
      (k : K) (i : ℕ) (d : List (K × ℕ)) (w : World K V X)
      → Rest ((k, i) ∷ d) w
      → Rest d (at_flight i (stop_flight dec) (without_key dec k w))
  unfolding at_flight
  step-Rest k i d w h = record {
    world =
        at_flight-WorldOk i (stop_flight dec) u world'
          (λ f ok b _. stop-Pays dec u.registry f ok b);
    keyed = layers.0;
    within_d = layers.1;
    left = layers.2;
  }
    where
      u : World K V X
      u = without_key dec k w

      world' : WorldOk u
      world' = record {
        distinct = h.world.distinct;
        ledger = h.world.ledger;
        within = h.world.within;
        listed = λ j g q.
            let z = h.world.listed j g q in
            record { ok = z.ok; numbered = z.numbered; issued = z.issued };
      }

      keyed' : Distinct dec u.registry.entries
      keyed' = remove-Distinct dec k w.registry.entries h.keyed

      within' : Fewer dec d u.registry.entries
      within' j m q = elim (dec j k) [
        | yes p ↦ absurd (
            cc (
              sym (ap (λ x. lookup dec x u.registry.entries) p) ∙ q,
              lookup-remove_self dec k w.registry.entries h.keyed,
            ))
        | no n ↦
            lookup-tail dec k i d j m n
              (h.within_d j m (remove-Fewer dec k w.registry.entries h.keyed j m q))
      ]

      -- What the loop still has to find of the active layer and of the active flights.
      Layers : World K V X → Type 0
      Layers w' =
          Distinct dec w'.registry.entries
          × Fewer dec d w'.registry.entries
          × ((j : ℕ) (g : Flight K V X)
              → lookup ℕ_discrete j w'.flights ≡ some g
              → g.flight.layer ≡ active
              → (x : K) × (lookup dec x d ≡ some j))

      others :
          (j : ℕ) (g : Flight K V X)
          → j ≢ i
          → lookup ℕ_discrete j w.flights ≡ some g
          → g.flight.layer ≡ active
          → (x : K) × (lookup dec x d ≡ some j)
      others j g n q l =
          let (x, e) = h.left j g q l in
          (x, lookup-tail dec k i d x j (λ p. n (sym (lookup-head dec k i d x j p e))) e)

      layers : Layers (at_flight i (stop_flight dec) u)
      layers =
          Option_both Layers (lookup ℕ_discrete i u.flights) u _
            (λ e. (
              keyed',
              within',
              λ j g q l.
                  others j g (λ p. cc (sym (ap (λ x. lookup ℕ_discrete x w.flights) p) ∙ q, e)) q l,
            ))
            (λ f e.
              let (out, moved) = stop-retired dec u.registry f in
              let cut = detach_key-Detached dec f.flight.key f.flight.seq u.registry.entries in
              let here =
                lookup-assign_both
                  (λ j g. g.flight.layer ≡ active → (x : K) × (lookup dec x d ≡ some j)) i
                  (stop_flight dec (u.registry, f)).1 u.flights (λ l. absurd (cc))
                  (λ j g n q l. others j g n q l) in
              elim moved [
                | inl same ↦ (rw same keyed', rw same within', here)
                | inr less ↦ (
                  rw less (cut.distinct keyed'),
                  rw less (λ j m q. within' j m (cut.fewer keyed' j m q)),
                  here,
                )
              ])

  -- The whole loop.
  loop-Rest : (d : List (K × ℕ)) (w : World K V X) → Rest d w → Rest [] (shutdown_loop dec d w)
  unfolding shutdown_loop
  loop-Rest [] w h = h
  loop-Rest ((k, i) ∷ d) w h =
      loop-Rest d (at_flight i (stop_flight dec) (without_key dec k w)) (step-Rest k i d w h)

  -- After a shutdown the ledger is right and no flight is active.
  pub shutdown-Good :
      (w : World K V X)
      → Good dec w
      → Good dec (shutdown dec w)
        × ((i : ℕ) (f : Flight K V X)
            → lookup ℕ_discrete i (shutdown dec w).flights ≡ some f
            → f.flight.layer ≢ active)
  unfolding lookup
  shutdown-Good w h =
      let r = loop-Rest w.registry.entries w (record {
        world = h.world;
        keyed = h.index.keyed;
        within_d = λ j m q. q;
        left = λ i f q l. (f.flight.key, h.index.leads i f q l);
      }) in
      (
        record {
          world = r.world;
          index = record {
            keyed = r.keyed;
            leads = λ i f q l. absurd (let (x, e) = r.left i f q l in cc e);
            points = λ k i q. absurd (cc (r.within_d k i q));
          };
        },
        λ i f q l. let (x, e) = r.left i f q l in cc e,
      )
