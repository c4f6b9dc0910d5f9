-- ===== src/Flight/Index.antt =====
-- singleflight.py: the active layer and the flights agree, and an operation at one flight keeps that.
use mathlib.Core.Path.{subst}
use oc_slimapi.Prelude.{
  ℕ, ◌≤◌, ◌≡◌, sym, ap, ◌∙◌, some, inl, inr, lookup, Option_both, arith, ℕ_discrete,
}
use oc_slimapi.Prelude.Dict.{assign, Distinct}
use oc_slimapi.Prelude.Dict.Laws.{lookup-assign_self, lookup-assign_ne}
use oc_slimapi.Flight.{active, retired}
use oc_slimapi.Flight.Calls.{Flight, Held}
use oc_slimapi.Flight.Events.{World, at_flight}
use oc_slimapi.Flight.Keeps.{Keeps, Detached, Sole, held, FlightOk}
use oc_slimapi.Flight.Ledger.{WorldOk, held-held_by, lookup-assign_both}

module _ {K V X : Type 0} (dec : Discrete K) where
  -- The active layer leads to the active flights, each under its own key, and to nothing else.
  pub record IndexOk (w : World K V X) : Type 0 where
    pub keyed : Distinct dec w.registry.entries
    pub leads :
        (i : ℕ) (f : Flight K V X)
        → lookup ℕ_discrete i w.flights ≡ some f
        → f.flight.layer ≡ active
        → lookup dec f.flight.key w.registry.entries ≡ some i
    pub points :
        (k : K) (i : ℕ)
        → lookup dec k w.registry.entries ≡ some i
        → (f : Flight K V X) × (lookup ℕ_discrete i w.flights ≡ some f)
          × (f.flight.layer ≡ active)
          × (k ≡ f.flight.key)

  -- The world in which the flight of a generation and the registry are these.
  abbrev put_flight : ℕ → Held K V X → World K V X → World K V X
  put_flight i t w = record { registry = t.0; flights = assign ℕ_discrete i t.1 w.flights }

  -- A flight that stays in its layer, under its key.
  stayed-IndexOk :
      (i : ℕ) (f : Flight K V X) (t : Held K V X) (w : World K V X)
      → IndexOk w
      → lookup ℕ_discrete i w.flights ≡ some f
      → t.1.flight.key ≡ f.flight.key
      → t.1.flight.layer ≡ f.flight.layer
      → t.0.entries ≡ w.registry.entries
      → IndexOk (put_flight i t w)
  stayed-IndexOk i f t w x e key l same = record {
    keyed = rw same x.keyed;
    leads =
        lookup-assign_both
          (λ j g. g.flight.layer ≡ active → lookup dec g.flight.key t.0.entries ≡ some j) i t.1
          w.flights (λ a. rw (key, same) (x.leads i f e (sym l ∙ a)))
          (λ j g n q a. rw same (x.leads j g q a));
    points = λ k j q.
        let (g, found, a, p) = x.points k j (rw same at q) in
        elim (ℕ_discrete j i) [
          | yes r ↦
              let u : some g ≡ some f = sym found ∙ ap (λ z. lookup ℕ_discrete z w.flights) r ∙ e in
              let v : g ≡ f = cc u in
              (
                t.1,
                ap (λ z. lookup ℕ_discrete z (assign ℕ_discrete i t.1 w.flights)) r
                    ∙ lookup-assign_self ℕ_discrete i t.1 w.flights,
                l ∙ ap (λ z. z.flight.layer) (sym v) ∙ a,
                p ∙ ap (λ z. z.flight.key) v ∙ sym key,
              )
          | no n ↦ (g, lookup-assign_ne ℕ_discrete j i t.1 w.flights n ∙ found, a, p)
        ];
  }

  -- A flight that leaves the active layer.
  left-IndexOk :
      (i : ℕ) (f : Flight K V X) (t : Held K V X) (w : World K V X)
      → IndexOk w
      → lookup ℕ_discrete i w.flights ≡ some f
      → t.1.flight.layer ≡ retired
      → Detached dec f.flight.key i w.registry.entries t.0.entries
      → IndexOk (put_flight i t w)
  left-IndexOk i f t w x e l o = record {
    keyed = o.distinct x.keyed;
    leads =
        lookup-assign_both
          (λ j g. g.flight.layer ≡ active → lookup dec g.flight.key t.0.entries ≡ some j) i t.1
          w.flights (λ a. absurd (cc)) (λ j g n q a. o.others g.flight.key j n (x.leads j g q a));
    points = λ k j q.
        let (g, found, a, p) = x.points k j (o.fewer x.keyed k j q) in
        elim (ℕ_discrete j i) [
          | yes r ↦ absurd (o.gone x.keyed sole k (q ∙ ap some r))
          | no n ↦ (g, lookup-assign_ne ℕ_discrete j i t.1 w.flights n ∙ found, a, p)
        ];
  }
    where
      sole : Sole dec f.flight.key i w.registry.entries
      sole j q =
          let (g, found, a, p) = x.points j i q in
          let u : some g ≡ some f = sym found ∙ e in
          let v : g ≡ f = cc u in p ∙ ap (λ z. z.flight.key) v

  pub at_flight-IndexOk :
      (i : ℕ) (op : Held K V X → Held K V X) (w : World K V X)
      → WorldOk w
      → IndexOk w
      → ((f : Flight K V X)
          → FlightOk f
          → held f.flight ≤ w.registry.leased_bytes
          → lookup ℕ_discrete i w.flights ≡ some f
          → Keeps dec w.registry f.flight (op (w.registry, f)))
      → IndexOk (at_flight i op w)
  unfolding at_flight
  at_flight-IndexOk i op w h x k =
      Option_both (λ u. IndexOk u) (lookup ℕ_discrete i w.flights) w _ (λ _. x)
        (λ f e.
          let old = h.listed i f e in
          let kept = k f old.ok (omega (arith, held-held_by i f w.flights e, h.ledger)) e in
          elim kept.shift [
            | inl (l, same) ↦ stayed-IndexOk i f (op (w.registry, f)) w x e kept.pays.keyed l same
            | inr (l, o) ↦ left-IndexOk i f (op (w.registry, f)) w x e l (
                subst
                  (λ n.
                    Detached dec f.flight.key n w.registry.entries (op (w.registry, f)).0.entries)
                  old.numbered o)
          ])
