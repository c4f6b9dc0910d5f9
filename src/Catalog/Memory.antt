-- ===== src/Catalog/Memory.antt =====
-- What catalog_cache.py promises: of each key the newest body that was fetched for the running upstream
-- process, without bounds, order or expiry; and which of its parts a cache holds.
use oc_slimapi.Prelude.{
  ℕ, ◌+◌, ◌≡◌, refl, sym, ap, ◌∙◌, ◌⊎◌, inl, inr, Bool, ◌||◌, not, Option, none, some, List, [],
  ◌∷◌, ◌++◌, lookup, Text, length, ltb, ◌==◌, if_both, Option_both, if◌then◌else◌, ite, if_pos,
  if_neg,
}
use oc_slimapi.Prelude.Dict.{remove, Distinct}
use oc_slimapi.Prelude.Dict.Laws.{
  lookup-remove_self, lookup-remove_ne, lookup-append_none, lookup-append_some, append-Distinct,
}
use oc_slimapi.Catalog.{
  CachedBody, CatalogCache, evict_bodies, drop_body, store, CatalogEvent, looks_up, ends,
  invalidates, closes,
}
use oc_slimapi.Catalog.Store.{CatalogOk, drop_body-Ok, drop_body-gone}

pub record Memory (K : Type 0) : Type 0 where
  pub fence : ℕ
  pub newest : K → Option CachedBody

-- Nothing, or the same.
abbrev pub Part : Option CachedBody → Option CachedBody → Type 0
Part x y = (x ≡ none) ⊎ (x ≡ y)

pub Part-trans : {x y z : Option CachedBody} → Part x y → Part y z → Part x z
Part-trans (inl e) p = inl e
Part-trans (inr e) (inl f) = inl (e ∙ f)
Part-trans (inr e) (inr f) = inr (e ∙ f)

module _ {K : Type 0} (dec : Discrete K) where
  abbrev pub remember : K → CachedBody → (K → Option CachedBody) → K → Option CachedBody
  remember k b f j = ite (dec j k) (some b) (f j)

  tail-Part :
      (j : K) (e : K × CachedBody) (d : List (K × CachedBody))
      → lookup dec e.0 d ≡ none
      → Part (lookup dec j d) (lookup dec j (e ∷ d))
  unfolding lookup
  tail-Part j e d h = elim (dec j e.0) [
    | yes q ↦ inl (ap (λ x. lookup dec x d) q ∙ h)
    | no n ↦ inr (sym (if_neg (dec j e.0) n _ _))
  ]

  evict_bodies-Part :
      (j : K) (most bytes : ℕ) (d : List (K × CachedBody)) (total : ℕ)
      → Distinct dec d
      → Part (lookup dec j (evict_bodies most bytes d total).0) (lookup dec j d)
  unfolding evict_bodies
  evict_bodies-Part j most bytes [] total h = inr refl
  evict_bodies-Part j most bytes (e ∷ d) total h =
      if_both (λ (r : List (K × CachedBody) × ℕ). Part (lookup dec j r.0) (lookup dec j (e ∷ d)))
        (ltb most (length (e ∷ d)) || ltb bytes total) _ _
        (λ _. Part-trans (evict_bodies-Part j most bytes d _ h.1) (tail-Part j e d h.0))
        (λ _. inr refl)

  placed-Part :
      (j k : K) (b : CachedBody) (d : List (K × CachedBody)) (f : K → Option CachedBody)
      → lookup dec k d ≡ none
      → Part (lookup dec j d) (f j)
      → Part (lookup dec j (d ++ ((k, b) ∷ []))) (remember k b f j)
  unfolding lookup
  placed-Part j k b d f h p = elim (dec j k) [
    | yes q ↦ inr (
        lookup-append_none dec j d ((k, b) ∷ []) (ap (λ x. lookup dec x d) q ∙ h)
        ∙ if_pos (dec j k) q _ _
        ∙ sym (if_pos (dec j k) q _ _))
    | no n ↦ go n (lookup dec j d) refl p
  ]
    where
      go :
          (¬ (j ≡ k))
          → (v : Option CachedBody) → lookup dec j d ≡ v
          → Part (lookup dec j d) (f j)
          → Part (lookup dec j (d ++ ((k, b) ∷ []))) (remember k b f j)
      go n none q r = inl (lookup-append_none dec j d ((k, b) ∷ []) q ∙ if_neg (dec j k) n _ _)
      go n (some v) q (inl e) = absurd (cc (sym q ∙ e))
      go n (some v) q (inr e) =
          inr (
            lookup-append_some dec j d ((k, b) ∷ []) v q ∙ sym q ∙ e ∙ sym (if_neg (dec j k) n _ _))

  pub drop_body-Part :
      (j k : K) (c : CatalogCache K)
      → CatalogOk dec c
      → Part (lookup dec j (drop_body dec k c).bodies) (lookup dec j c.bodies)
  unfolding drop_body
  drop_body-Part j k c h =
      Option_both (λ (d : CatalogCache K). Part (lookup dec j d.bodies) (lookup dec j c.bodies))
        (lookup dec k c.bodies) c _ (λ _. inr refl)
        (λ b _. elim (dec j k) [
          | yes q ↦ inl (
              ap (λ x. lookup dec x (remove dec k c.bodies)) q
              ∙ lookup-remove_self dec k c.bodies h.distinct)
          | no n ↦ inr (lookup-remove_ne dec j k c.bodies n)
        ])

  -- What a store keeps is part of what is remembered with the body.
  pub store-Part :
      (j k : K) (body : Text) (now : ℕ) (c : CatalogCache K) (f : K → Option CachedBody)
      → CatalogOk dec c
      → Part (lookup dec j c.bodies) (f j)
      → Part (lookup dec j (store dec k body now c).bodies) (remember k (body, now) f j)
  unfolding store
  store-Part j k body now c f h p =
      let d = drop_body dec k c in
      let (gone, _, _, _) = drop_body-gone dec k c h.distinct in
      let all = d.bodies ++ ((k, (body, now)) ∷ []) in
      Part-trans
        (evict_bodies-Part j c.entries_cap c.bytes_cap all (d.body_bytes + length body)
          (append-Distinct dec k (body, now) d.bodies gone (drop_body-Ok dec k c h).distinct))
        (placed-Part j k (body, now) d.bodies f gone (Part-trans (drop_body-Part j k c h) p))

module _ {K : Type 0} (dec : Discrete K) (is_json_list : Text → Bool) where
  -- The promise for a cache of this time to live and cap of an entry: a fetch is remembered when it is a list,
  -- small enough, and began after the last invalidation.
  unfoldable pub memory_event : ℕ → ℕ → CatalogEvent K → Memory K → Memory K
  memory_event ttl limit (looks_up k now) m = m
  memory_event ttl limit (ends captured k none now) m = m
  memory_event ttl limit (ends captured k (some body) now) m =
      if ttl == 0
      then m
      else if ltb limit (length body) || not (is_json_list body) || not (captured == m.fence)
      then m
      else record m { newest = remember dec k (body, now) m.newest }
  memory_event ttl limit invalidates m = record { fence = m.fence + 1; newest = λ _. none }
  memory_event ttl limit closes m = record m { newest = λ _. none }

  unfoldable pub memory_run : ℕ → ℕ → List (CatalogEvent K) → Memory K → Memory K
  unfolding memory_event
  memory_run ttl limit [] m = m
  memory_run ttl limit (e ∷ es) m = memory_run ttl limit es (memory_event ttl limit e m)
