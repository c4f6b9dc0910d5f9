-- ===== src/Since/Commit.antt =====
-- since_cache.py `commit`: its bounds, and the compare-and-set of generations.
use mathlib.Core.Path.{subst}
use oc_slimapi.Prelude.{
  ℕ, ◌+◌, ◌≤◌, ◌<◌, ◌≡◌, refl, sym, ap, ◌∙◌, Bool, true, false, ◌||◌, not, Option, none, some, List,
  [], ◌∷◌, ◌++◌, lookup, Text, ltb, sum_by-append, arith, if_both, All-append, All-map, if_pos,
}
use oc_slimapi.Prelude.Dict.{Distinct}
use oc_slimapi.Prelude.Dict.Laws.{append-Distinct}
use oc_slimapi.Since.{
  CacheEntry, entry_bytes, retained, SinceCache, Committed, same_observation, unchanged, drop_key,
  evict_over_budget, publish_entry, commit, observe, touch_key,
}
use oc_slimapi.Since.Evict.{
  total_bytes, evict_loop_within, evict_loop-All, evict_loop-append, evict_loop-Distinct,
}
use oc_slimapi.Since.Budget.{
  touch_key-CacheOk, lookup-touch_key, drop_key-CacheOk, lookup-drop_key, drop_key-settings,
  CacheOk,
}

module _ {K : Type 0} (dec : Discrete K) where
  lookup-last :
      (k : K) (e : CacheEntry) (c : List (K × CacheEntry))
      → Distinct dec (c ++ ((k, e) ∷ []))
      → lookup dec k (c ++ ((k, e) ∷ [])) ≡ some e
  unfolding lookup
  lookup-last k e [] h = if_pos (dec k k) refl _ _
  lookup-last k e (x ∷ c) h = ground (arith, lookup-last k e c h.1)

  -- An entry put last into a cache without its key, and the eviction after it.
  module _ (counter : ℕ) (d : SinceCache K) (k : K) (e : CacheEntry) (h : CacheOk dec counter d)
      (absent : lookup dec k d.entries ≡ none) where
    abbrev put : SinceCache K
    put = record d {
      entries = d.entries ++ ((k, e) ∷ []);
      retained_bytes = d.retained_bytes + entry_bytes e;
    }

    put_total : put.retained_bytes ≡ total_bytes put.entries
    put_total = omega (
      arith,
      h.sums,
      sum_by-append (λ (x : K × CacheEntry). entry_bytes x.1) d.entries ((k, e) ∷ []),
    )

    put-CacheOk :
        e.generation ≡ counter + 1
        → entry_bytes e ≤ d.max_entry_bytes
        → CacheOk dec (counter + 1) (evict_over_budget dec put)
    put-CacheOk gen size =
        let (sums, few, small) =
          evict_loop_within d.max_entries d.max_bytes put.entries put.retained_bytes put_total in
        record {
          distinct =
              evict_loop-Distinct dec d.max_entries d.max_bytes put.entries put.retained_bytes
                (append-Distinct dec k e d.entries absent h.distinct);
          sums = sums;
          passed =
              evict_loop-All (λ x. x.1.generation ≤ counter + 1) d.max_entries d.max_bytes
                put.entries put.retained_bytes
                (All-append (λ x. x.1.generation ≤ counter + 1) d.entries ((k, e) ∷ [])
                  (All-map (λ x. x.1.generation ≤ counter) (λ x. x.1.generation ≤ counter + 1)
                    (λ x le. omega arith) d.entries h.passed)
                  (omega (arith, gen), tt));
          sized =
              evict_loop-All (λ x. entry_bytes x.1 ≤ d.max_entry_bytes) d.max_entries d.max_bytes
                put.entries put.retained_bytes
                (All-append (λ x. entry_bytes x.1 ≤ d.max_entry_bytes) d.entries ((k, e) ∷ [])
                  h.sized (size, tt));
          few = few;
          small = small;
        }

    -- It survives if it fits alone.
    pub lookup-put :
        0 < d.max_entries
        → entry_bytes e ≤ d.max_bytes
        → lookup dec k (evict_over_budget dec put).entries ≡ some e
    lookup-put pos fits =
        let (c, q) =
          evict_loop-append d.max_entries d.max_bytes d.entries (k, e) put.retained_bytes put_total
            pos fits in
        ap (lookup dec k) q
        ∙ lookup-last k e c (
            subst (Distinct dec) q (
              evict_loop-Distinct dec d.max_entries d.max_bytes put.entries put.retained_bytes
                (append-Distinct dec k e d.entries absent h.distinct)))

  publish_entry-CacheOk :
      (counter : ℕ) (c : SinceCache K) (k : K) (items : Text) (prints : List (Text × Text))
      → CacheOk dec counter c
      → retained items prints ≤ c.max_entry_bytes
      → CacheOk dec
          (publish_entry dec counter c k items prints).counter
          (publish_entry dec counter c k items prints).cache
  unfolding publish_entry
  publish_entry-CacheOk counter c k items prints h size =
      let (_, _, cap) = drop_key-settings dec k c in
      put-CacheOk counter (drop_key dec k c) k
        (record { canonical_items = items; fingerprints = prints; generation = counter + 1 })
        (drop_key-CacheOk dec counter k c h) (lookup-drop_key dec k c h.distinct) refl
        (omega (arith, size, cap))

  -- A commit keeps a cache well formed, on every branch: the keys are distinct, the byte total is the
  -- sum over the entries, both budgets and the bound on one entry hold, and no generation is above the
  -- counter.
  pub commit-CacheOk :
      (counter : ℕ) (c : SinceCache K) (k : K) (observed : Option ℕ) (items : Text)
      (prints : List (Text × Text)) (cacheable : Bool)
      → CacheOk dec counter c
      → CacheOk dec
          (commit dec counter c k observed items prints cacheable).counter
          (commit dec counter c k observed items prints cacheable).cache
  unfolding commit
  commit-CacheOk counter c k observed items prints cacheable h =
      let Q : Committed K → Type 0 = λ r. CacheOk dec r.counter r.cache in
      if_both Q (not c.enabled) _ _ (λ _. h)
        (λ _.
          if_both Q (not (same_observation (lookup dec k c.entries) observed)) _ _
            (λ _.
              if_both Q (unchanged (lookup dec k c.entries) items) _ _
                (λ _. touch_key-CacheOk dec counter k c h) (λ _. h))
            (λ _.
              if_both Q (unchanged (lookup dec k c.entries) items) _ _
                (λ _. touch_key-CacheOk dec counter k c h)
                (λ _.
                  if_both Q (not cacheable || ltb c.max_entry_bytes (retained items prints)) _ _
                    (λ _. drop_key-CacheOk dec counter k c h)
                    (λ t. publish_entry-CacheOk counter c k items prints h (ground arith)))))

  -- An observation of an enabled, well-formed cache returns the entry of the key and changes no entry
  -- of any key; the cache stays well formed.
  pub observe-CacheOk :
      (counter : ℕ) (c : SinceCache K) (k j : K)
      → c.enabled ≡ true
      → CacheOk dec counter c
      → CacheOk dec counter (observe dec k c).0
        × ((observe dec k c).1 ≡ lookup dec k c.entries)
        × (lookup dec j (observe dec k c).0.entries ≡ lookup dec j c.entries)
  unfolding observe
  observe-CacheOk counter c k j on h =
      let Q : SinceCache K × Option CacheEntry → Type 0 = λ r.
        CacheOk dec counter r.0
        × (r.1 ≡ lookup dec k c.entries)
        × (lookup dec j r.0.entries ≡ lookup dec j c.entries) in
      if_both Q c.enabled (touch_key dec k c, lookup dec k c.entries) (c, none)
        (λ _. (
          touch_key-CacheOk dec counter k c h,
          refl,
          lookup-touch_key dec j k c.entries h.distinct,
        ))
        (λ t. absurd (off (sym on ∙ t)))
    where
      off : true ≡ false → ⊥
      off e = cc e
