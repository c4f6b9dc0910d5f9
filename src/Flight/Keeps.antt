-- ===== src/Flight/Keeps.antt =====
-- singleflight.py: what a method at one entry keeps of the ledger, of the callers' references and of
-- the other entries.
use oc_slimapi.Prelude.{
  ◌⊎◌, inl, inr, ==_self, ℕ, ◌+◌, ◌≤◌, ◌≡◌, ◌≢◌, refl, sym, ap, ◌∙◌, Bool, true, false, not, some,
  List, lookup, ◌==◌, ==_iff, if_both, arith,
}
use oc_slimapi.Prelude.Dict.{remove, Distinct}
use oc_slimapi.Prelude.Dict.Laws.{lookup-remove_ne, lookup-remove_self, remove-Distinct}
use oc_slimapi.Flight.{
  Ownership, in_flight, grace, retained_body, failed, Layer, active, retired, FlightEntry,
  SingleFlight, is_entry, detach_key, reap,
}
use oc_slimapi.Flight.Calls.{Flight, Held, at_entry}

-- What an entry with this mark and reserve holds of the budget.
abbrev pub held_of : Bool → ℕ → ℕ
held_of false n = 0
held_of true n = n

abbrev pub one_if : Bool → ℕ
one_if false = 0
one_if true = 1

-- What the state of an entry says of its layer, its mark, its references and its leader.
abbrev pub StateOk : Ownership → Layer → Bool → ℕ → Bool → Type 0
StateOk in_flight l a n b = (a ≡ true) × (b ≡ true)
StateOk grace l a n b = (l ≡ active) × (a ≡ true) × (b ≡ false)
StateOk retained_body l a n b = (l ≡ retired) × (a ≡ not (n == 0)) × (b ≡ false)
StateOk failed l a n b = (l ≡ retired) × (a ≡ false) × (b ≡ false)

module _ {K V X : Type 0} where
  abbrev pub held : FlightEntry K V X → ℕ
  held e = held_of e.accounted e.reserve_bytes

  -- A flight that counts every reference to it and whose mark agrees with its state.
  pub record FlightOk (f : Flight K V X) : Type 0 where
    pub counts : f.flight.caller_refs ≡ one_if f.leading + f.waiters + f.leases
    pub state :
        StateOk f.flight.state f.flight.layer f.flight.accounted f.flight.caller_refs f.leading

module _ {K : Type 0} (dec : Discrete K) where
  -- Every key that leads to another entry than `i` still does.
  abbrev pub OthersStay : ℕ → List (K × ℕ) → List (K × ℕ) → Type 0
  OthersStay i d d' = (k : K) (j : ℕ) → j ≢ i → lookup dec k d ≡ some j → lookup dec k d' ≡ some j

  -- No key leads elsewhere than before.
  abbrev pub Fewer : List (K × ℕ) → List (K × ℕ) → Type 0
  Fewer d d' = (k : K) (j : ℕ) → lookup dec k d' ≡ some j → lookup dec k d ≡ some j

  -- Only this key leads to the entry `i`.
  abbrev pub Sole : K → ℕ → List (K × ℕ) → Type 0
  Sole k i d = (j : K) → lookup dec j d ≡ some i → j ≡ k

  -- The active layer without the entry `i`, which stood under `k` at most.
  pub record Detached (k : K) (i : ℕ) (d d' : List (K × ℕ)) : Type 0 where
    pub others : OthersStay i d d'
    pub distinct : Distinct dec d → Distinct dec d'
    pub fewer : Distinct dec d → Fewer d d'
    pub gone : Distinct dec d → Sole k i d → (j : K) → lookup dec j d' ≢ some i

  pub remove-Fewer : (k : K) (d : List (K × ℕ)) → Distinct dec d → Fewer d (remove dec k d)
  remove-Fewer k d h j i e = elim (dec j k) [
    | yes p ↦
        absurd (cc (ap (λ x. lookup dec x (remove dec k d)) p ∙ lookup-remove_self dec k d h, e))
    | no n ↦ sym (lookup-remove_ne dec j k d n) ∙ e
  ]

  pub detach_key-Detached :
      (k : K) (i : ℕ) (d : List (K × ℕ)) → Detached k i d (detach_key dec k i d)
  unfolding detach_key
  detach_key-Detached k i d =
      if_both (λ d'. Detached k i d d') (is_entry (lookup dec k d) i) (remove dec k d) d found
        absent
    where
      found : is_entry (lookup dec k d) i ≡ true → Detached k i d (remove dec k d)
      found t = record {
        others = λ k' j n h. elim (dec k' k) [
          | yes p ↦
              let q : lookup dec k d ≡ some j = ap (λ x. lookup dec x d) (sym p) ∙ h in
              absurd (n ((==_iff j i).0 (rw q at t)))
          | no p ↦ lookup-remove_ne dec k' k d p ∙ h
        ];
        distinct = remove-Distinct dec k d;
        fewer = remove-Fewer k d;
        gone = λ h s j e.
            let p = s j (remove-Fewer k d h j i e) in
            absurd
              (cc (ap (λ x. lookup dec x (remove dec k d)) p ∙ lookup-remove_self dec k d h, e));
      }

      absent : is_entry (lookup dec k d) i ≡ false → Detached k i d d
      absent t = record {
        others = λ _ _ _ e. e;
        distinct = λ h. h;
        fewer = λ _ _ _ e. e;
        gone = λ h s j e.
            let q : lookup dec k d ≡ some i = ap (λ x. lookup dec x d) (sym (s j e)) ∙ e in
            absurd (cc (rw q at t, ==_self i));
      }

  -- An entry that is detached twice.
  pub detach_key-twice :
      (k : K) (i : ℕ) (c d : List (K × ℕ))
      → Detached k i c d
      → Detached k i c (detach_key dec k i d)
  detach_key-twice k i c d g =
      let h = detach_key-Detached k i d in
      record {
        others = λ j m n q. h.others j m n (g.others j m n q);
        distinct = λ u. h.distinct (g.distinct u);
        fewer = λ u j m q. g.fewer u j m (h.fewer (g.distinct u) j m q);
        gone = λ u s j q. g.gone u s j (h.fewer (g.distinct u) j i q);
      }

module _ {K V X : Type 0} where
  -- What an operation that took the registry and an entry to `t` keeps of the ledger.
  pub record Pays (r : SingleFlight K) (e : FlightEntry K V X) (t : Held K V X) : Type 0 where
    pub ok : FlightOk t.1
    pub numbered : t.1.flight.seq ≡ e.seq
    pub keyed : t.1.flight.key ≡ e.key
    pub paid : t.0.leased_bytes + held e ≡ r.leased_bytes + held t.1.flight
    pub less : held t.1.flight ≤ held e
    pub counted : t.0.flight_seq ≡ r.flight_seq
    pub limit : t.0.max_bytes ≡ r.max_bytes

  -- The flight with this mark.
  abbrev pub marked : Bool → Flight K V X → Flight K V X
  marked a g = record g { flight = record (g.flight) { accounted = a } }

module _ {K V X : Type 0} (dec : Discrete K) where
  -- What becomes of the active layer: nothing, or the entry leaves it.
  abbrev pub Shift : SingleFlight K → FlightEntry K V X → Held K V X → Type 0
  Shift r e t =
      ((t.1.flight.layer ≡ e.layer) × (t.0.entries ≡ r.entries))
      ⊎ ((t.1.flight.layer ≡ retired) × Detached dec e.key e.seq r.entries t.0.entries)

  pub record Keeps (r : SingleFlight K) (e : FlightEntry K V X) (t : Held K V X) : Type 0 where
    pub pays : Pays r e t
    pub shift : Shift r e t

  -- A reaped entry has given back what it held.
  pub reap-Pays :
      (r : SingleFlight K) (e : FlightEntry K V X) (a : Bool) (g : Flight K V X)
      → FlightOk (marked false g)
      → g.flight.seq ≡ e.seq
      → g.flight.key ≡ e.key
      → held_of a g.flight.reserve_bytes ≤ held e
      → held e ≤ r.leased_bytes
      → (u : SingleFlight K)
      → u.leased_bytes + held e ≡ r.leased_bytes + held_of a g.flight.reserve_bytes
      → u.flight_seq ≡ r.flight_seq
      → u.max_bytes ≡ r.max_bytes
      → Pays r e (at_entry (marked a g) (reap dec) u)
  reap-Pays r e true g ok q k h b u paid us um = record {
    ok = ok;
    numbered = q;
    keyed = k;
    paid = omega (arith, h, b, paid);
    less = omega arith;
    counted = us;
    limit = um;
  }
  reap-Pays r e false g ok q k h b u paid us um = record {
    ok = ok;
    numbered = q;
    keyed = k;
    paid = omega (arith, h, b, paid);
    less = omega arith;
    counted = us;
    limit = um;
  }

  pub reap-entries :
      (a : Bool) (g : Flight K V X) (u : SingleFlight K)
      → (at_entry (marked a g) (reap dec) u).0.entries
        ≡ detach_key dec g.flight.key g.flight.seq u.entries
  reap-entries true g u = refl
  reap-entries false g u = refl

  pub reap-layer :
      (a : Bool) (g : Flight K V X) (u : SingleFlight K)
      → (at_entry (marked a g) (reap dec) u).1.flight.layer ≡ g.flight.layer
  reap-layer true g u = refl
  reap-layer false g u = refl

  -- The entry that is reaped is detached from the layer that it was in.
  pub reap-Shift :
      (r : SingleFlight K) (a : Bool) (g : Flight K V X) (u : SingleFlight K)
      → g.flight.layer ≡ retired
      → Detached dec g.flight.key g.flight.seq r.entries
          (detach_key dec g.flight.key g.flight.seq u.entries)
      → (at_entry (marked a g) (reap dec) u).1.flight.layer ≡ retired
        × Detached dec g.flight.key g.flight.seq r.entries
            (at_entry (marked a g) (reap dec) u).0.entries
  reap-Shift r a g u l o = (reap-layer a g u ∙ l, rw (reap-entries a g u) o)

  pub unchanged-Keeps :
      (r : SingleFlight K) (f g : Flight K V X)
      → FlightOk g
      → g.flight.seq ≡ f.flight.seq
      → g.flight.key ≡ f.flight.key
      → g.flight.layer ≡ f.flight.layer
      → held g.flight ≡ held f.flight
      → Keeps r f.flight (r, g)
  unchanged-Keeps r f g ok q k l h = record {
    pays = record {
      ok = ok;
      numbered = q;
      keyed = k;
      paid = omega (arith, h);
      less = omega (arith, h);
      counted = refl;
      limit = refl;
    };
    shift = inl (l, refl);
  }

  pub reap-Keeps :
      (r : SingleFlight K) (e : FlightEntry K V X) (a : Bool) (g : Flight K V X)
      → FlightOk (marked false g)
      → g.flight.layer ≡ retired
      → held_of a g.flight.reserve_bytes ≤ held e
      → held e ≤ r.leased_bytes
      → (u : SingleFlight K)
      → u.leased_bytes + held e ≡ r.leased_bytes + held_of a g.flight.reserve_bytes
      → u.flight_seq ≡ r.flight_seq
      → u.max_bytes ≡ r.max_bytes
      → Detached dec g.flight.key g.flight.seq r.entries
          (detach_key dec g.flight.key g.flight.seq u.entries)
      → Keeps r
          (record e { key = g.flight.key; seq = g.flight.seq })
          (at_entry (marked a g) (reap dec) u)
  reap-Keeps r e a g ok l h b u paid us um o = record {
    pays =
        reap-Pays r (record e { key = g.flight.key; seq = g.flight.seq }) a g ok refl refl h b u
          paid us um;
    shift = inr (reap-Shift r a g u l o);
  }
