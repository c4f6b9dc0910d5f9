-- ===== src/Flight/Admit.antt =====
-- singleflight.py `_try_reserve`: the evictions keep the ledger and the active layer.
use oc_slimapi.Prelude.{
  ℕ, ◌+◌, ◌≤◌, ◌≡◌, Bool, true, none, inl, inr, List, [], ◌∷◌, lookup, leb, leb→le, if_both,
  Option_both, Option-cases, arith, ℕ_discrete,
}
use oc_slimapi.Prelude.Dict.Keys.{keys}
use oc_slimapi.Flight.Calls.{Held, fits, evict_idle}
use oc_slimapi.Flight.Events.{World, at_flight, at_key, reserve_loop, try_reserve}
use oc_slimapi.Flight.Ledger.{WorldOk, held-held_by, at_flight-WorldOk}
use oc_slimapi.Flight.Index.{IndexOk, at_flight-IndexOk}
use oc_slimapi.Flight.Moves.{Move, evict-Move}

module _ {K V X : Type 0} (dec : Discrete K) where
  -- Everything that holds of the registry with its flights.
  pub record Good (w : World K V X) : Type 0 where
    pub world : WorldOk w
    pub index : IndexOk dec w

  pub at_flight-Good :
      (i : ℕ) (op : Held K V X → Held K V X) (w : World K V X)
      → Move dec op
      → Good w
      → Good (at_flight i op w)
  at_flight-Good i op w m h = record {
    world = at_flight-WorldOk i op w h.world (λ f ok b _. (m w.registry f ok b).pays);
    index = at_flight-IndexOk dec i op w h.world h.index (λ f ok b _. m w.registry f ok b);
  }

  -- A move makes no key lead to a flight.
  pub at_flight-absent :
      (k : K) (i : ℕ) (op : Held K V X → Held K V X) (w : World K V X)
      → Move dec op
      → Good w
      → lookup dec k w.registry.entries ≡ none
      → lookup dec k (at_flight i op w).registry.entries ≡ none
  unfolding at_flight
  at_flight-absent k i op w m h a =
      Option_both (λ (u : World K V X). lookup dec k u.registry.entries ≡ none)
        (lookup ℕ_discrete i w.flights) w _ (λ _. a)
        (λ f e.
          let old = h.world.listed i f e in
          let kept =
            m w.registry f old.ok (omega (arith, held-held_by i f w.flights e, h.world.ledger)) in
          elim kept.shift [
            | inl (l, same) ↦ rw same a
            | inr (l, o) ↦ elim (Option-cases (lookup dec k (op (w.registry, f)).0.entries)) [
              | inl n ↦ n
              | inr (j, s) ↦ absurd (cc (o.fewer h.index.keyed k j s, a))
            ]
          ])

  pub at_key-Good :
      (k : K) (op : Held K V X → Held K V X) (w : World K V X)
      → Move dec op
      → Good w
      → Good (at_key dec k op w)
  unfolding at_key
  at_key-Good k op w m h =
      Option_both (λ u. Good u) (lookup dec k w.registry.entries) w _ (λ _. h)
        (λ i _. at_flight-Good i op w m h)

  pub at_key-absent :
      (j k : K) (op : Held K V X → Held K V X) (w : World K V X)
      → Move dec op
      → Good w
      → lookup dec j w.registry.entries ≡ none
      → lookup dec j (at_key dec k op w).registry.entries ≡ none
  unfolding at_key
  at_key-absent j k op w m h a =
      Option_both (λ (u : World K V X). lookup dec j u.registry.entries ≡ none)
        (lookup dec k w.registry.entries) w _ (λ _. a) (λ i _. at_flight-absent j i op w m h a)

  -- The evictions of `_try_reserve`, in which a key that leads nowhere still does.
  abbrev pub Evicted : K → World K V X → Type 0
  Evicted k w = Good w × (lookup dec k w.registry.entries ≡ none)

  pub reserve_loop-Evicted :
      (k : K) (needed : ℕ) (ks : List K) (w : World K V X)
      → Evicted k w
      → Evicted k (reserve_loop dec needed ks w)
  unfolding reserve_loop
  reserve_loop-Evicted k needed [] w h = h
  reserve_loop-Evicted k needed (j ∷ ks) w h =
      if_both (Evicted k) (fits needed w.registry) _ _ (λ _. h)
        (λ _. reserve_loop-Evicted k needed ks (at_key dec j (evict_idle dec) w) (
          at_key-Good j (evict_idle dec) w (evict-Move dec) h.0,
          at_key-absent k j (evict_idle dec) w (evict-Move dec) h.0 h.1,
        ))

  -- An admitted reserve fits, whatever had to be evicted for it.
  pub try_reserve-Evicted :
      (k : K) (needed : ℕ) (w : World K V X)
      → Evicted k w
      → Evicted k (try_reserve dec needed w).1
        × ((try_reserve dec needed w).0 ≡ true
            → (try_reserve dec needed w).1.registry.leased_bytes + needed
              ≤ (try_reserve dec needed w).1.registry.max_bytes)
  unfolding try_reserve
  try_reserve-Evicted k needed w h =
      if_both Q (leb needed w.registry.max_bytes) _ _
        (λ _.
          if_both Q (fits needed w.registry) _ _ (λ t. (h, λ _. leb→le _ _ t))
            (λ _. (reserve_loop-Evicted k needed (keys w.registry.entries) w h, λ t. leb→le _ _ t)))
        (λ _. (h, λ t. absurd (cc)))
    where
      Q : Bool × World K V X → Type 0
      Q t =
          Evicted k t.1 × (t.0 ≡ true → t.1.registry.leased_bytes + needed ≤ t.1.registry.max_bytes)
