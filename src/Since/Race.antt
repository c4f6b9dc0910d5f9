-- ===== src/Since/Race.antt =====
-- since_cache.py `commit`: what two requests that raced for one key end with.
use mathlib.Core.Path.{subst}
use oc_slimapi.Prelude.{
  ℕ, ◌+◌, ◌≤◌, ◌<◌, ◌≡◌, refl, sym, ap, ◌∙◌, Bool, true, false, ◌||◌, not, Option, none, some, List,
  lookup, Text, ltb, arith, if_both, Option_both, Option-cases, inl, inr,
}
use oc_slimapi.Prelude.Dict.{Distinct}
use oc_slimapi.Prelude.Dict.Laws.{All-lookup}
use oc_slimapi.Since.{
  CacheEntry, retained, SinceCache, CommitResult, Committed, same_observation, observed_generation,
  unchanged, drop_key, survived, publish_entry, commit,
}
use oc_slimapi.Since.Budget.{
  drop_key-CacheOk, lookup-touch_key, lookup-drop_key, drop_key-settings, CacheOk,
}
use oc_slimapi.Since.Commit.{lookup-put, commit-CacheOk}

-- The entry that a commit publishes.
abbrev pub published_entry : ℕ → Text → List (Text × Text) → CacheEntry
published_entry counter items prints = record {
  canonical_items = items;
  fingerprints = prints;
  generation = counter + 1;
}

-- How a lost commit is reported: with the winner's entry, and omitted unless the items are the same.
abbrev pub lost : Option CacheEntry → Text → CommitResult
lost current items = record {
  entry = current;
  cas_loser = true;
  omitted = not (unchanged current items);
  bypassed = false;
}

abbrev pub won : CacheEntry → CommitResult
won e = record { entry = some e; cas_loser = false; omitted = false; bypassed = false }

module _ {K : Type 0} (dec : Discrete K) where
  -- What a commit that came too late leaves.
  abbrev pub Lost : ℕ → SinceCache K → K → Text → Committed K → K → Type 0
  Lost counter c k items r j =
      (r.result ≡ lost (lookup dec k c.entries) items)
      × (r.counter ≡ counter)
      × (lookup dec j r.cache.entries ≡ lookup dec j c.entries)

  -- On an enabled cache with distinct keys, a commit whose key has changed since it was observed
  -- overwrites nothing: every key keeps its entry, no generation is used up, and the result reports
  -- the entry that won.
  pub commit-Lost :
      (counter : ℕ) (c : SinceCache K) (k j : K) (observed : Option ℕ) (items : Text)
      (prints : List (Text × Text)) (cacheable : Bool)
      → c.enabled ≡ true
      → Distinct dec c.entries
      → same_observation (lookup dec k c.entries) observed ≡ false
      → Lost counter c k items (commit dec counter c k observed items prints cacheable) j
  unfolding commit
  commit-Lost counter c k j observed items prints cacheable on h stale =
      let Q : Committed K → Type 0 = λ r. Lost counter c k items r j in
      if_both Q (not c.enabled) _ _ (λ t. absurd (ground arith))
        (λ _.
          if_both Q (not (same_observation (lookup dec k c.entries) observed)) _ _
            (λ _.
              if_both Q (unchanged (lookup dec k c.entries) items) _ _
                (λ t. (
                  ap (reported (lookup dec k c.entries)) (sym (ap not t)),
                  refl,
                  lookup-touch_key dec j k c.entries h,
                ))
                (λ t. (ap (reported (lookup dec k c.entries)) (sym (ap not t)), refl, refl)))
            (λ t. absurd (ground arith)))
    where
      reported : Option CacheEntry → Bool → CommitResult
      reported current b = record {
        entry = current;
        cas_loser = true;
        omitted = b;
        bypassed = false;
      }

  -- What a commit that is published leaves.
  abbrev pub Won : ℕ → K → Text → List (Text × Text) → Committed K → Type 0
  Won counter k items prints r =
      (lookup dec k r.cache.entries ≡ some (published_entry counter items prints))
      × (r.result ≡ won (published_entry counter items prints))
      × (r.counter ≡ counter + 1)

  publish_entry-Won :
      (counter : ℕ) (c : SinceCache K) (k : K) (items : Text) (prints : List (Text × Text))
      → CacheOk dec counter c
      → 0 < c.max_entries
      → retained items prints ≤ c.max_bytes
      → Won counter k items prints (publish_entry dec counter c k items prints)
  unfolding publish_entry
  publish_entry-Won counter c k items prints h pos fits =
      let (n, b, _) = drop_key-settings dec k c in
      let found =
        lookup-put dec counter (drop_key dec k c) k (published_entry counter items prints)
          (drop_key-CacheOk dec counter k c h) (lookup-drop_key dec k c h.distinct)
          (omega (arith, n)) (omega (arith, b)) in
      (found, ap (survived (published_entry counter items prints)) found, refl)

  -- On an enabled, well-formed cache, a commit on what was observed, with items that differ from
  -- the entry that is there, is published under a new generation, if it may be cached and fits the
  -- bounds alone.
  pub commit-Won :
      (counter : ℕ) (c : SinceCache K) (k : K) (observed : Option ℕ) (items : Text)
      (prints : List (Text × Text))
      → c.enabled ≡ true
      → CacheOk dec counter c
      → same_observation (lookup dec k c.entries) observed ≡ true
      → unchanged (lookup dec k c.entries) items ≡ false
      → 0 < c.max_entries
      → retained items prints ≤ c.max_bytes
      → retained items prints ≤ c.max_entry_bytes
      → Won counter k items prints (commit dec counter c k observed items prints true)
  unfolding commit
  commit-Won counter c k observed items prints on h same differ pos fits cap =
      let Q : Committed K → Type 0 = Won counter k items prints in
      if_both Q (not c.enabled) _ _ (λ t. absurd (ground arith))
        (λ _.
          if_both Q (not (same_observation (lookup dec k c.entries) observed)) _ _
            (λ t. absurd (ground arith))
            (λ _.
              if_both Q (unchanged (lookup dec k c.entries) items) _ _ (λ t. absurd (ground arith))
                (λ _.
                  if_both Q (not true || ltb c.max_entry_bytes (retained items prints)) _ _
                    (λ t. absurd (ground arith))
                    (λ _. publish_entry-Won counter c k items prints h pos fits))))

  drop_key-enabled : (k : K) (c : SinceCache K) → (drop_key dec k c).enabled ≡ c.enabled
  unfolding drop_key
  drop_key-enabled k c =
      Option_both (λ (d : SinceCache K). d.enabled ≡ c.enabled) (lookup dec k c.entries) _ _
        (λ _. refl) (λ _ _. refl)

  commit-enabled :
      (counter : ℕ) (c : SinceCache K) (k : K) (observed : Option ℕ) (items : Text)
      (prints : List (Text × Text)) (cacheable : Bool)
      → (commit dec counter c k observed items prints cacheable).cache.enabled ≡ c.enabled
  unfolding commit publish_entry
  commit-enabled counter c k observed items prints cacheable =
      let Q : Committed K → Type 0 = λ r. r.cache.enabled ≡ c.enabled in
      if_both Q (not c.enabled) _ _ (λ _. refl)
        (λ _.
          if_both Q (not (same_observation (lookup dec k c.entries) observed)) _ _
            (λ _. if_both Q (unchanged (lookup dec k c.entries) items) _ _ (λ _. refl) (λ _. refl))
            (λ _.
              if_both Q (unchanged (lookup dec k c.entries) items) _ _ (λ _. refl)
                (λ _.
                  if_both Q (not cacheable || ltb c.max_entry_bytes (retained items prints)) _ _
                    (λ _. drop_key-enabled k c) (λ _. drop_key-enabled k c))))

  stale_after :
      (counter : ℕ) (c : SinceCache K) (k : K) (e : CacheEntry)
      → CacheOk dec counter c
      → e.generation ≡ counter + 1
      → same_observation (some e) (observed_generation (lookup dec k c.entries)) ≡ false
  stale_after counter c k e h gen = elim (Option-cases (lookup dec k c.entries)) [
    | inl n ↦ ap (λ o. same_observation (some e) (observed_generation o)) n
    | inr (v, s) ↦
        let le = All-lookup dec (λ v. v.generation ≤ counter) k c.entries h.passed s in
        ap (λ o. same_observation (some e) (observed_generation o)) s ∙ ground arith
  ]

  -- Two requests observe the same snapshot of an enabled, well-formed cache, and the items of the
  -- first differ from the entry that is there. If they may be cached and fit the bounds alone, the
  -- first commit is published; the second, whatever it brings, loses: the first one's entry stays
  -- and is the one that the second is told of.
  pub commit-race :
      (counter : ℕ) (c : SinceCache K) (k : K) (items items' : Text)
      (prints prints' : List (Text × Text)) (cacheable : Bool) (r : Committed K)
      → c.enabled ≡ true
      → CacheOk dec counter c
      → r ≡ commit dec counter c k (observed_generation (lookup dec k c.entries)) items prints true
      → unchanged (lookup dec k c.entries) items ≡ false
      → 0 < c.max_entries
      → retained items prints ≤ c.max_bytes
      → retained items prints ≤ c.max_entry_bytes
      → Won counter k items prints r
        × Lost r.counter r.cache k items'
            (commit dec r.counter r.cache k
              (observed_generation (lookup dec k c.entries))
              items'
              prints'
              cacheable)
            k
  commit-race counter c k items items' prints prints' cacheable r on h q differ pos fits cap =
      let observed = observed_generation (lookup dec k c.entries) in
      let on' : r.cache.enabled ≡ true =
        ap (λ (r : Committed K). r.cache.enabled) q
        ∙ commit-enabled counter c k observed items prints true
        ∙ on in
      let ok : CacheOk dec r.counter r.cache =
        subst (λ (r : Committed K). CacheOk dec r.counter r.cache) (sym q)
          (commit-CacheOk dec counter c k observed items prints true h) in
      let w =
        commit-Won counter c k (observed_generation (lookup dec k c.entries)) items prints on h
          (same_itself (lookup dec k c.entries)) differ pos fits cap in
      let won : Won counter k items prints r = subst (Won counter k items prints) (sym q) w in
      (
        won,
        commit-Lost r.counter r.cache k k (observed_generation (lookup dec k c.entries)) items'
            prints' cacheable on' ok.distinct
            (ap (λ o. same_observation o (observed_generation (lookup dec k c.entries))) won.0
              ∙ stale_after counter c k (published_entry counter items prints) h refl),
      )
    where
      same_itself : (o : Option CacheEntry) → same_observation o (observed_generation o) ≡ true
      same_itself none = refl
      same_itself (some e) = ground arith
