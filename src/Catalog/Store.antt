-- ===== src/Catalog/Store.antt =====
-- catalog_cache.py: the eviction and a store keep the caps, and what a lookup finds after a store.
use oc_slimapi.Prelude.{
  ℕ, ◌+◌, ◌-◌, ◌≤◌, ◌<◌, ◌≡◌, refl, sym, ap, ◌∙◌, true, false, ◌||◌, Option, none, some, List, [],
  ◌∷◌, ◌++◌, lookup, Text, length, ltb, leb, ◌==◌, if_both, if◌then◌else◌, if_pos, if_neg,
  Option_both, sum_by, sum_by-append, arith,
}
use oc_slimapi.Prelude.Dict.{remove, Distinct}
use oc_slimapi.Prelude.Dict.Laws.{
  lookup-remove_self, remove-Distinct, append-Distinct, sum_by-remove, lookup-append_none,
}
use oc_slimapi.Catalog.{
  CachedBody, CatalogCache, body_size, evict_bodies, drop_body, store, lookup_body,
}

module _ {K : Type 0} where
  abbrev pub bodies_sum : List (K × CachedBody) → ℕ
  bodies_sum d = sum_by (λ e. body_size e.1) d

  pub evict_bodies-within :
      (most bytes : ℕ) (d : List (K × CachedBody)) (total : ℕ)
      → total ≡ bodies_sum d
      → ((evict_bodies most bytes d total).1 ≡ bodies_sum (evict_bodies most bytes d total).0)
        × (length (evict_bodies most bytes d total).0 ≤ most)
        × ((evict_bodies most bytes d total).1 ≤ bytes)
  unfolding evict_bodies
  evict_bodies-within most bytes [] total h = (h, omega arith, omega (arith, h))
  evict_bodies-within most bytes (e ∷ d) total h =
      if_both
        (λ (r : List (K × CachedBody) × ℕ).
          (r.1 ≡ bodies_sum r.0) × (length r.0 ≤ most) × (r.1 ≤ bytes))
        (ltb most (length (e ∷ d)) || ltb bytes total) _ _
        (λ _. evict_bodies-within most bytes d (total - body_size e.1) (omega (arith, h)))
        (λ z. (h, ground (arith, z), ground (arith, z)))

module _ {K : Type 0} (dec : Discrete K) where
  pub evict_bodies-none :
      (k : K) (most bytes : ℕ) (d : List (K × CachedBody)) (total : ℕ)
      → lookup dec k d ≡ none
      → lookup dec k (evict_bodies most bytes d total).0 ≡ none
  unfolding evict_bodies lookup
  evict_bodies-none k most bytes [] total h = refl
  evict_bodies-none k most bytes (e ∷ d) total h =
      if_both (λ (r : List (K × CachedBody) × ℕ). lookup dec k r.0 ≡ none)
        (ltb most (length (e ∷ d)) || ltb bytes total) _ _
        (λ _. evict_bodies-none k most bytes d (total - body_size e.1) (ground (arith, h))) (λ _. h)

  pub evict_bodies-Distinct :
      (most bytes : ℕ) (d : List (K × CachedBody)) (total : ℕ)
      → Distinct dec d
      → Distinct dec (evict_bodies most bytes d total).0
  unfolding evict_bodies
  evict_bodies-Distinct most bytes [] total h = tt
  evict_bodies-Distinct most bytes (e ∷ d) total h =
      if_both (λ (r : List (K × CachedBody) × ℕ). Distinct dec r.0)
        (ltb most (length (e ∷ d)) || ltb bytes total) _ _
        (λ _. evict_bodies-Distinct most bytes d (total - body_size e.1) h.1) (λ _. h)

  -- The newest body stays when it fits alone.
  pub evict_bodies-newest :
      (k : K) (b : CachedBody) (most bytes : ℕ) (d : List (K × CachedBody)) (total : ℕ)
      → lookup dec k d ≡ none
      → total ≡ bodies_sum (d ++ ((k, b) ∷ []))
      → 0 < most
      → body_size b ≤ bytes
      → lookup dec k (evict_bodies most bytes (d ++ ((k, b) ∷ [])) total).0 ≡ some b
  unfolding evict_bodies lookup
  evict_bodies-newest k b most bytes [] total h t p f =
      if_both (λ (r : List (K × CachedBody) × ℕ). lookup dec k r.0 ≡ some b)
        (ltb most 1 || ltb bytes total) _ _ (λ z. absurd (ground (arith, z, t)))
        (λ _. if_pos (dec k k) refl _ _)
  evict_bodies-newest k b most bytes (x ∷ d) total h t p f = elim (dec k x.0) [
    | yes q ↦ absurd (cc (sym (if_pos (dec k x.0) q _ _) ∙ h))
    | no n ↦
        let a : lookup dec k d ≡ none = sym (if_neg (dec k x.0) n _ _) ∙ h in
        if_both (λ (r : List (K × CachedBody) × ℕ). lookup dec k r.0 ≡ some b)
          (ltb most (length (x ∷ (d ++ ((k, b) ∷ [])))) || ltb bytes total) _ _
          (λ _.
            evict_bodies-newest k b most bytes d (total - body_size x.1) a (omega (arith, t)) p f)
          (λ _.
            if_neg (dec k x.0) n _ _
            ∙ lookup-append_none dec k d ((k, b) ∷ []) a
            ∙ if_pos (dec k k) refl _ _)
  ]

  -- A cache whose bytes are right and within the caps.
  pub record CatalogOk (c : CatalogCache K) : Type 0 where
    pub distinct : Distinct dec c.bodies
    pub sums : c.body_bytes ≡ bodies_sum c.bodies
    pub few : length c.bodies ≤ c.entries_cap
    pub small : c.body_bytes ≤ c.bytes_cap

  pub length-removed : (k : K) (d : List (K × CachedBody)) → length (remove dec k d) ≤ length d
  unfolding remove
  length-removed k [] = omega arith
  length-removed k (x ∷ d) = ground (arith, length-removed k d)

  pub drop_body-Ok : (k : K) (c : CatalogCache K) → CatalogOk c → CatalogOk (drop_body dec k c)
  unfolding drop_body
  drop_body-Ok k c h =
      Option_both CatalogOk (lookup dec k c.bodies) c _ (λ _. h)
        (λ b q. record {
          distinct = remove-Distinct dec k c.bodies h.distinct;
          sums = omega (arith, h.sums, rw q at (sum_by-remove dec body_size k c.bodies));
          few = omega (arith, h.few, length-removed k c.bodies);
          small = omega (arith, h.small);
        })

  pub drop_body-gone :
      (k : K) (c : CatalogCache K)
      → Distinct dec c.bodies
      → (lookup dec k (drop_body dec k c).bodies ≡ none)
        × ((drop_body dec k c).entries_cap ≡ c.entries_cap)
        × ((drop_body dec k c).bytes_cap ≡ c.bytes_cap)
        × ((drop_body dec k c).ttl ≡ c.ttl)
  unfolding drop_body
  drop_body-gone k c h =
      Option_both
        (λ (d : CatalogCache K).
          (lookup dec k d.bodies ≡ none)
          × (d.entries_cap ≡ c.entries_cap)
          × (d.bytes_cap ≡ c.bytes_cap)
          × (d.ttl ≡ c.ttl))
        (lookup dec k c.bodies) c _ (λ q. (q, refl, refl, refl))
        (λ b q. (lookup-remove_self dec k c.bodies h, refl, refl, refl))

  pub placed_sum :
      (k : K) (b : CachedBody) (d : CatalogCache K)
      → CatalogOk d
      → d.body_bytes + body_size b ≡ bodies_sum (d.bodies ++ ((k, b) ∷ []))
  placed_sum k b d h =
      omega (
        arith,
        h.sums,
        sum_by-append (λ (e : K × CachedBody). body_size e.1) d.bodies ((k, b) ∷ []),
      )

  pub store-CatalogOk :
      (k : K) (body : Text) (now : ℕ) (c : CatalogCache K)
      → CatalogOk c
      → CatalogOk (store dec k body now c)
  unfolding store
  store-CatalogOk k body now c h =
      let d = drop_body dec k c in
      let o = drop_body-Ok k c h in
      let (gone, most, bytes, _) = drop_body-gone k c h.distinct in
      let all = d.bodies ++ ((k, (body, now)) ∷ []) in
      let (sum, few, small) =
        evict_bodies-within c.entries_cap c.bytes_cap all (d.body_bytes + length body)
          (placed_sum k (body, now) d o) in
      record {
        distinct =
            evict_bodies-Distinct c.entries_cap c.bytes_cap all (d.body_bytes + length body)
              (append-Distinct dec k (body, now) d.bodies gone o.distinct);
        sums = sum;
        few = omega (arith, few, most);
        small = omega (arith, small, bytes);
      }

  -- What a lookup of this age answers.
  abbrev pub fresh_for : ℕ → ℕ → Text → Option Text
  fresh_for ttl age body = if leb ttl age then none else some body

  -- On an enabled cache whose bytes are right, with room for an entry and for this body, a stored body
  -- is found for as long as its time to live and never after.
  pub lookup_body-store :
      (k : K) (body : Text) (now age : ℕ) (c : CatalogCache K)
      → CatalogOk c
      → 0 < c.ttl
      → 0 < c.entries_cap
      → length body ≤ c.bytes_cap
      → (lookup_body dec k (now + age) (store dec k body now c)).0 ≡ fresh_for c.ttl age body
  unfolding lookup_body
  lookup_body-store k body now age c h on room fit =
      let s = store dec k body now c in
      let (found, ttl) = stored in
      if_both Q (s.ttl == 0) _ _ (λ z. absurd (ground (arith, z, ttl, on)))
        (λ _.
          Option_both Q (lookup dec k s.bodies) _ _ (λ q. absurd (cc (q, found)))
            (λ b q.
              let same : some b ≡ some (body, now) = sym q ∙ found in
              let same' : b ≡ (body, now) = cc same in
              let time : b.1 ≡ now = ap (λ x. x.1) same' in
              let text : b.0 ≡ body = ap (λ x. x.0) same' in
              if_both Q (leb s.ttl (now + age - b.1)) _ _
                (λ z. let old : leb c.ttl age ≡ true = ground (arith, z, time, ttl) in rw old refl)
                (λ z.
                  let young : leb c.ttl age ≡ false = ground (arith, z, time, ttl) in
                  rw young (ap some text))))
    where
      Q : Option Text × CatalogCache K → Type 0
      Q r = r.0 ≡ fresh_for c.ttl age body

      stored :
          (lookup dec k (store dec k body now c).bodies ≡ some (body, now))
          × ((store dec k body now c).ttl ≡ c.ttl)
      stored =
          let d = drop_body dec k c in
          let (gone, _, _, ttl) = drop_body-gone k c h.distinct in
          unfold store in
          (
            evict_bodies-newest k (body, now) c.entries_cap c.bytes_cap d.bodies
                (d.body_bytes + length body) gone (placed_sum k (body, now) d (drop_body-Ok k c h))
                room fit,
            ttl,
          )
