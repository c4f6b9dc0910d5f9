-- ===== src/Catalog/Refine.antt =====
-- catalog_cache.py against its promise: the cache answers what is remembered, or nothing.
use mathlib.Core.Path.{ap₂}
use oc_slimapi.Prelude.{
  ℕ, ◌+◌, ◌-◌, ◌≡◌, refl, sym, ap, ◌∙◌, ◌⊎◌, inl, inr, Bool, true, false, ◌||◌, not, Option, none,
  some, List, [], ◌∷◌, lookup, Text, length, ltb, leb, ◌==◌, if_both, Option_both, if◌then◌else◌,
}
use oc_slimapi.Catalog.{
  CachedBody, CatalogCache, drop_body, store, lookup_body, fetched_body, CatalogEvent, looks_up,
  ends, invalidates, closes, catalog_event, catalog_run,
}
use oc_slimapi.Catalog.Store.{CatalogOk, drop_body-Ok, store-CatalogOk}
use oc_slimapi.Catalog.Caps.{cleared-Ok}
use oc_slimapi.Catalog.Memory.{
  Memory, Part, Part-trans, remember, drop_body-Part, store-Part, memory_event, memory_run,
}

-- A cache with right bytes that holds a part of what is remembered.
pub record Refines {K : Type 0} (dec : Discrete K) (ttl limit : ℕ) (c : CatalogCache K)
    (m : Memory K) : Type 0 where
  pub ok : CatalogOk dec c
  pub same_ttl : c.ttl ≡ ttl
  pub same_cap : c.entry_bytes_cap ≡ limit
  pub same_fence : c.fence ≡ m.fence
  pub held : (j : K) → Part (lookup dec j c.bodies) (m.newest j)

-- What may be answered of a remembered body at a time.
abbrev pub recalled : ℕ → ℕ → Option CachedBody → Option Text
recalled ttl now none = none
recalled ttl now (some b) = if leb ttl (now - b.1) then none else some b.0

module _ {K : Type 0} (dec : Discrete K) where
  abbrev Settings : CatalogCache K → CatalogCache K → Type 0
  Settings d c = (d.ttl ≡ c.ttl) × (d.entry_bytes_cap ≡ c.entry_bytes_cap) × (d.fence ≡ c.fence)

  drop_body-Settings : (k : K) (c : CatalogCache K) → Settings (drop_body dec k c) c
  unfolding drop_body
  drop_body-Settings k c =
      Option_both (λ (d : CatalogCache K). Settings d c) (lookup dec k c.bodies) c _
        (λ _. (refl, refl, refl)) (λ _ _. (refl, refl, refl))

  store-Settings :
      (k : K) (body : Text) (now : ℕ) (c : CatalogCache K) → Settings (store dec k body now c) c
  unfolding store
  store-Settings k body now c = drop_body-Settings k c

  drop_body-Refines :
      (ttl limit : ℕ) (k : K) (c : CatalogCache K) (m : Memory K)
      → Refines dec ttl limit c m
      → Refines dec ttl limit (drop_body dec k c) m
  drop_body-Refines ttl limit k c m r =
      let (t, e, f) = drop_body-Settings k c in
      record {
        ok = drop_body-Ok dec k c r.ok;
        same_ttl = t ∙ r.same_ttl;
        same_cap = e ∙ r.same_cap;
        same_fence = f ∙ r.same_fence;
        held = λ j. Part-trans (drop_body-Part dec j k c r.ok) (r.held j);
      }

  store-Refines :
      (ttl limit : ℕ) (k : K) (body : Text) (now : ℕ) (c : CatalogCache K) (m : Memory K)
      → Refines dec ttl limit c m
      → Refines dec ttl limit
          (store dec k body now c)
          (record m { newest = remember dec k (body, now) m.newest })
  store-Refines ttl limit k body now c m r =
      let (t, e, f) = store-Settings k body now c in
      record {
        ok = store-CatalogOk dec k body now c r.ok;
        same_ttl = t ∙ r.same_ttl;
        same_cap = e ∙ r.same_cap;
        same_fence = f ∙ r.same_fence;
        held = λ j. store-Part dec j k body now c m.newest r.ok (r.held j);
      }

  -- What a lookup answers of a remembered body, and the cache that it leaves.
  lookup_body-Refines :
      (ttl limit : ℕ) (k : K) (now : ℕ) (c : CatalogCache K) (m : Memory K)
      → Refines dec ttl limit c m
      → Refines dec ttl limit (lookup_body dec k now c).1 m
        × (((lookup_body dec k now c).0 ≡ none)
            ⊎ ((lookup_body dec k now c).0 ≡ recalled ttl now (m.newest k)))
  unfolding lookup_body
  lookup_body-Refines ttl limit k now c m r =
      if_both Q (c.ttl == 0) _ _ (λ _. (r, inl refl))
        (λ _.
          Option_both Q (lookup dec k c.bodies) _ _ (λ _. (r, inl refl))
            (λ b q.
              if_both Q (leb c.ttl (now - b.1)) _ _
                (λ _. (drop_body-Refines ttl limit k c m r, inl refl))
                (λ young. (r, inr (answer b q young (r.held k))))))
    where
      Q : Option Text × CatalogCache K → Type 0
      Q a = Refines dec ttl limit a.1 m × ((a.0 ≡ none) ⊎ (a.0 ≡ recalled ttl now (m.newest k)))

      answer :
          (b : CachedBody)
          → lookup dec k c.bodies ≡ some b
          → leb c.ttl (now - b.1) ≡ false
          → Part (lookup dec k c.bodies) (m.newest k)
          → some b.0 ≡ recalled ttl now (m.newest k)
      answer b q young (inl e) = absurd (cc (sym q ∙ e))
      answer b q young (inr e) =
          let fresh : leb ttl (now - b.1) ≡ false =
            ap (λ t. leb t (now - b.1)) (sym r.same_ttl) ∙ young in
          let one : recalled ttl now (some b) ≡ some b.0 = rw fresh refl in
          sym one ∙ ap (recalled ttl now) (sym q ∙ e)

module _ {K : Type 0} (dec : Discrete K) (is_json_list : Text → Bool) (ttl limit : ℕ) where
  -- The two take the same branch.
  guarded :
      (a b a' b' : Bool) (c d : CatalogCache K) (m n : Memory K)
      → a ≡ a'
      → b ≡ b'
      → Refines dec ttl limit c m
      → Refines dec ttl limit d n
      → Refines dec ttl limit
          (if a then c else if b then c else d)
          (if a' then m else if b' then m else n)
  guarded true b true b' c d m n p q r s = r
  guarded true b false b' c d m n p q r s = absurd (cc p)
  guarded false b true b' c d m n p q r s = absurd (cc p)
  guarded false true false true c d m n p q r s = r
  guarded false true false false c d m n p q r s = absurd (cc q)
  guarded false false false true c d m n p q r s = absurd (cc q)
  guarded false false false false c d m n p q r s = s

  event-Refines :
      (e : CatalogEvent K) (c : CatalogCache K) (m : Memory K)
      → Refines dec ttl limit c m
      → Refines dec ttl limit
          (catalog_event dec is_json_list e c)
          (memory_event dec is_json_list ttl limit e m)
  unfolding catalog_event memory_event fetched_body
  event-Refines (looks_up k now) c m r = (lookup_body-Refines dec ttl limit k now c m r).0
  event-Refines (ends captured k none now) c m r =
      if_both (λ d. Refines dec ttl limit d m) (c.ttl == 0) c c (λ _. r) (λ _. r)
  event-Refines (ends captured k (some body) now) c m r =
      guarded (c.ttl == 0)
        (ltb c.entry_bytes_cap (length body)
          || not (is_json_list body)
          || not (captured == c.fence))
        (ttl == 0) (ltb limit (length body) || not (is_json_list body) || not (captured == m.fence))
        c (store dec k body now c) m (record m { newest = remember dec k (body, now) m.newest })
        (ap (λ t. t == 0) r.same_ttl)
        (ap₂ (λ e f. ltb e (length body) || not (is_json_list body) || not (captured == f))
          r.same_cap r.same_fence)
        r (store-Refines dec ttl limit k body now c m r)
  event-Refines invalidates c m r = record {
    ok = cleared-Ok dec is_json_list (c.fence + 1) c;
    same_ttl = r.same_ttl;
    same_cap = r.same_cap;
    same_fence = ap (λ n. n + 1) r.same_fence;
    held = λ j. inl refl;
  }
  event-Refines closes c m r = record {
    ok = cleared-Ok dec is_json_list c.fence c;
    same_ttl = r.same_ttl;
    same_cap = r.same_cap;
    same_fence = r.same_fence;
    held = λ j. inl refl;
  }

  run-Refines :
      (es : List (CatalogEvent K)) (c : CatalogCache K) (m : Memory K)
      → Refines dec ttl limit c m
      → Refines dec ttl limit
          (catalog_run dec is_json_list es c)
          (memory_run dec is_json_list ttl limit es m)
  unfolding catalog_run memory_run
  run-Refines [] c m r = r
  run-Refines (e ∷ es) c m r =
      run-Refines es (catalog_event dec is_json_list e c)
        (memory_event dec is_json_list ttl limit e m) (event-Refines e c m r)

  -- The cache refines its promise: from a cache that holds a part of what is remembered, after any
  -- lookups, fetches, invalidations and shutdowns it holds a part of what is remembered then, and any
  -- lookup answers nothing, or the body that is remembered of its key, if that is younger than the time
  -- to live. Remembered is the last JSON list that was fetched for a key, if it is small enough to be
  -- kept and its fetch began after the last invalidation, until an invalidation or a shutdown.
  pub catalog_run-Refines :
      (es : List (CatalogEvent K)) (c : CatalogCache K) (m : Memory K) (k : K) (now : ℕ)
      → Refines dec ttl limit c m
      → Refines dec ttl limit
          (catalog_run dec is_json_list es c)
          (memory_run dec is_json_list ttl limit es m)
        × (((lookup_body dec k now (catalog_run dec is_json_list es c)).0 ≡ none)
            ⊎ ((lookup_body dec k now (catalog_run dec is_json_list es c)).0
                ≡ recalled ttl now ((memory_run dec is_json_list ttl limit es m).newest k)))
  catalog_run-Refines es c m k now r =
      let after = run-Refines es c m r in
      (
        after,
        (lookup_body-Refines dec ttl limit k now (catalog_run dec is_json_list es c)
            (memory_run dec is_json_list ttl limit es m) after).1,
      )
