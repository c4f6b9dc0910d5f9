-- ===== src/Catalog/Caps.antt =====
-- catalog_cache.py: the caps of the cache, and what a lookup finds after a store.
use oc_slimapi.Prelude.{
  ℕ, ◌+◌, ◌-◌, refl, Bool, ◌||◌, not, Option, none, some, List, [], ◌∷◌, lookup, Text, length, ltb,
  leb, ◌==◌, if_both, Option_both, arith,
}
use oc_slimapi.Catalog.{
  CatalogCache, lookup_body, fetched_body, invalidate, CatalogEvent, looks_up, ends, invalidates,
  closes, catalog_event, catalog_run,
}
use oc_slimapi.Catalog.Store.{CatalogOk, drop_body-Ok, store-CatalogOk}

module _ {K : Type 0} (dec : Discrete K) (is_json_list : Text → Bool) where
  pub fetched_body-Ok :
      (captured : ℕ) (k : K) (body : Option Text) (now : ℕ) (c : CatalogCache K)
      → CatalogOk dec c
      → CatalogOk dec (fetched_body dec is_json_list captured k body now c)
  unfolding fetched_body
  fetched_body-Ok captured k none now c h = h
  fetched_body-Ok captured k (some body) now c h =
      if_both (CatalogOk dec)
        (ltb c.entry_bytes_cap (length body)
          || not (is_json_list body)
          || not (captured == c.fence))
        _ _ (λ _. h) (λ _. store-CatalogOk dec k body now c h)

  pub lookup_body-Ok :
      (k : K) (now : ℕ) (c : CatalogCache K)
      → CatalogOk dec c
      → CatalogOk dec (lookup_body dec k now c).1
  unfolding lookup_body
  lookup_body-Ok k now c h =
      if_both (λ (r : Option Text × CatalogCache K). CatalogOk dec r.1) (c.ttl == 0) _ _ (λ _. h)
        (λ _.
          Option_both (λ (r : Option Text × CatalogCache K). CatalogOk dec r.1)
            (lookup dec k c.bodies) _ _ (λ _. h)
            (λ b _.
              if_both (λ (r : Option Text × CatalogCache K). CatalogOk dec r.1)
                (leb c.ttl (now - b.1)) _ _ (λ _. drop_body-Ok dec k c h) (λ _. h)))

  pub cleared-Ok :
      (n : ℕ) (c : CatalogCache K)
      → CatalogOk dec (record c { bodies = []; body_bytes = 0; fence = n })
  cleared-Ok n c = record { distinct = tt; sums = refl; few = omega arith; small = omega arith }

  -- The caps hold after any lookups, fetches, invalidations and shutdowns, and the bytes are those of
  -- the bodies that are kept, from a cache of which that is true.
  pub catalog_run-CatalogOk :
      (es : List (CatalogEvent K)) (c : CatalogCache K)
      → CatalogOk dec c
      → CatalogOk dec (catalog_run dec is_json_list es c)
  unfolding catalog_run catalog_event
  catalog_run-CatalogOk [] c h = h
  catalog_run-CatalogOk (looks_up k now ∷ es) c h =
      catalog_run-CatalogOk es (lookup_body dec k now c).1 (lookup_body-Ok k now c h)
  catalog_run-CatalogOk (ends captured k body now ∷ es) c h = catalog_run-CatalogOk es _ (
      if_both (CatalogOk dec) (c.ttl == 0) c (fetched_body dec is_json_list captured k body now c)
        (λ _. h) (λ _. fetched_body-Ok captured k body now c h))
  catalog_run-CatalogOk (invalidates ∷ es) c h =
      catalog_run-CatalogOk es (invalidate c) (cleared-Ok (c.fence + 1) c)
  catalog_run-CatalogOk (closes ∷ es) c h =
      catalog_run-CatalogOk es (record c { bodies = []; body_bytes = 0 }) (cleared-Ok c.fence c)
