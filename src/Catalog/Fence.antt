-- ===== src/Catalog/Fence.antt =====
-- catalog_cache.py `invalidate`: a body of a lost upstream process never comes back into the cache.
use oc_slimapi.Prelude.{
  ℕ, ◌-◌, ◌≤◌, ◌<◌, ◌≡◌, refl, ap, Bool, ◌||◌, not, Option, none, some, List, [], ◌∷◌, ◌++◌, lookup,
  Text, length, ltb, leb, ◌==◌, if_both, if◌then◌else◌, Option_both, arith,
}
use oc_slimapi.Catalog.{
  CatalogCache, drop_body, store, lookup_body, fetched_body, invalidate, CatalogEvent, looks_up,
  ends, invalidates, closes, catalog_event, catalog_run,
}

module _ {K : Type 0} (dec : Discrete K) where
  pub drop_body-fence : (k : K) (c : CatalogCache K) → (drop_body dec k c).fence ≡ c.fence
  unfolding drop_body
  drop_body-fence k c =
      Option_both (λ (d : CatalogCache K). d.fence ≡ c.fence) (lookup dec k c.bodies) c _
        (λ _. refl) (λ _ _. refl)

  pub store-fence :
      (k : K) (body : Text) (now : ℕ) (c : CatalogCache K)
      → (store dec k body now c).fence ≡ c.fence
  unfolding store
  store-fence k body now c = drop_body-fence k c

  pub lookup_body-fence :
      (k : K) (now : ℕ) (c : CatalogCache K) → (lookup_body dec k now c).1.fence ≡ c.fence
  unfolding lookup_body
  lookup_body-fence k now c =
      if_both (λ (r : Option Text × CatalogCache K). r.1.fence ≡ c.fence) (c.ttl == 0) _ _
        (λ _. refl)
        (λ _.
          Option_both (λ (r : Option Text × CatalogCache K). r.1.fence ≡ c.fence)
            (lookup dec k c.bodies) _ _ (λ _. refl)
            (λ b _.
              if_both (λ (r : Option Text × CatalogCache K). r.1.fence ≡ c.fence)
                (leb c.ttl (now - b.1)) _ _ (λ _. drop_body-fence k c) (λ _. refl)))

module _ {K : Type 0} (dec : Discrete K) (is_json_list : Text → Bool) where
  pub fetched_body-fence :
      (captured : ℕ) (k : K) (body : Option Text) (now : ℕ) (c : CatalogCache K)
      → (fetched_body dec is_json_list captured k body now c).fence ≡ c.fence
  unfolding fetched_body
  fetched_body-fence captured k none now c = refl
  fetched_body-fence captured k (some body) now c =
      if_both (λ (d : CatalogCache K). d.fence ≡ c.fence)
        (ltb c.entry_bytes_cap (length body)
          || not (is_json_list body)
          || not (captured == c.fence))
        _ _ (λ _. refl) (λ _. store-fence dec k body now c)

  -- The generation never goes back.
  catalog_run-fence :
      (es : List (CatalogEvent K)) (c : CatalogCache K)
      → c.fence ≤ (catalog_run dec is_json_list es c).fence
  unfolding catalog_run catalog_event
  catalog_run-fence [] c = omega arith
  catalog_run-fence (looks_up k now ∷ es) c =
      omega (arith, lookup_body-fence dec k now c, catalog_run-fence es (lookup_body dec k now c).1)
  catalog_run-fence (ends captured k body now ∷ es) c =
      let d = if c.ttl == 0 then c else fetched_body dec is_json_list captured k body now c in
      let same : d.fence ≡ c.fence =
        if_both (λ (u : CatalogCache K). u.fence ≡ c.fence) (c.ttl == 0) c
          (fetched_body dec is_json_list captured k body now c) (λ _. refl)
          (λ _. fetched_body-fence captured k body now c) in
      omega (arith, same, catalog_run-fence es d)
  catalog_run-fence (invalidates ∷ es) c = omega (arith, catalog_run-fence es (invalidate c))
  catalog_run-fence (closes ∷ es) c =
      catalog_run-fence es (record c { bodies = []; body_bytes = 0 })

  catalog_run-append :
      (es fs : List (CatalogEvent K)) (c : CatalogCache K)
      → catalog_run dec is_json_list (es ++ fs) c
        ≡ catalog_run dec is_json_list fs (catalog_run dec is_json_list es c)
  unfolding catalog_run
  catalog_run-append [] fs c = refl
  catalog_run-append (e ∷ es) fs c = catalog_run-append es fs (catalog_event dec is_json_list e c)

  -- A fetch that began before an invalidation stores nothing, whatever happens in between: for the
  -- generation captured at its beginning and any events with an invalidation among them, its end
  -- leaves the cache as it is.
  pub catalog_run-Fenced :
      (c : CatalogCache K) (before after : List (CatalogEvent K)) (k : K) (body : Option Text)
      (now : ℕ)
      → fetched_body dec is_json_list c.fence k body now
          (catalog_run dec is_json_list (before ++ (invalidates ∷ after)) c)
        ≡ catalog_run dec is_json_list (before ++ (invalidates ∷ after)) c
  unfolding fetched_body
  catalog_run-Fenced c before after k none now = refl
  catalog_run-Fenced c before after k (some body) now =
      let d = catalog_run dec is_json_list (before ++ (invalidates ∷ after)) c in
      if_both (λ (u : CatalogCache K). u ≡ d)
        (ltb d.entry_bytes_cap (length body) || not (is_json_list body) || not (c.fence == d.fence))
        _ _ (λ _. refl) (λ z. absurd (ground (arith, z, later)))
    where
      later : c.fence < (catalog_run dec is_json_list (before ++ (invalidates ∷ after)) c).fence
      later =
          let u = catalog_run dec is_json_list before c in
          let e = catalog_run-append before (invalidates ∷ after) c in
          let last : (catalog_run dec is_json_list (invalidates ∷ after) u).fence
              ≡ (catalog_run dec is_json_list after (invalidate u)).fence =
            unfold catalog_run catalog_event in refl in
          omega (
            arith,
            catalog_run-fence before c,
            catalog_run-fence after (invalidate u),
            ap (λ x. x.fence) e,
            last,
          )
