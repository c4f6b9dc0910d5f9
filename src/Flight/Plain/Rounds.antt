-- ===== src/Flight/Plain/Rounds.antt =====
-- singleflight.py `_evict_over_budget`: the rounds of its loop bring a registry within its bounds.
use oc_slimapi.Prelude.{
  ℕ, zero, suc, ◌+◌, ◌≤◌, ◌≡◌, ◌⊎◌, refl, sym, ap, ◌∙◌, Option, none, some, inl, inr, List, [], ◌∷◌,
  lookup, length, if◌then◌else◌, if_pos, if_neg, if_both, Option_both, sum_by, arith,
}
use oc_slimapi.Prelude.Dict.{Distinct}
use oc_slimapi.Prelude.Dict.Laws.{sum_by-remove, remove-Distinct}
use oc_slimapi.Flight.Plain.{
  PlainEntry, PlainRegistry, completed?, weight_of, retained_size, oldest_completed, over_bounds,
  drop_plain, evict_rounds,
}

abbrev pub one_completed : Option ℕ → ℕ
one_completed none = 0
one_completed (some t) = 1

module _ {K : Type 0} where
  -- How many entries have completed, and what they retain.
  abbrev pub completed_count : List (K × PlainEntry) → ℕ
  completed_count d = sum_by (λ x. one_completed x.1.deadline) d

  abbrev pub retained_in : List (K × PlainEntry) → ℕ
  retained_in d = sum_by (λ x. retained_size x.1) d

  pub count-length : (d : List (K × PlainEntry)) → completed_count d ≤ length d
  count-length [] = omega arith
  count-length (x ∷ d) = omega (arith, count-length d, small x.1.deadline)
    where
      small : (t : Option ℕ) → one_completed t ≤ 1
      small none = omega arith
      small (some t) = omega arith

  -- Only in-flight entries remain, and they retain nothing.
  pub none_completed : (d : List (K × PlainEntry)) → oldest_completed d ≡ none → retained_in d ≡ 0
  unfolding oldest_completed
  none_completed [] h = refl
  none_completed (x ∷ d) h = go x.1.deadline h (none_completed d)
    where
      go :
          (t : Option ℕ)
          → (if completed? t then some x.0 else oldest_completed d) ≡ none
          → (oldest_completed d ≡ none → retained_in d ≡ 0)
          → weight_of t x.1.size + retained_in d ≡ 0
      go none q ih = omega (arith, ih q)
      go (some t) q ih = absurd (cc)

  pub no_count : (d : List (K × PlainEntry)) → completed_count d ≡ 0 → oldest_completed d ≡ none
  unfolding oldest_completed
  no_count [] h = refl
  no_count (x ∷ d) h = go x.1.deadline h (no_count d)
    where
      go :
          (t : Option ℕ)
          → one_completed t + completed_count d ≡ 0
          → (completed_count d ≡ 0 → oldest_completed d ≡ none)
          → (if completed? t then some x.0 else oldest_completed d) ≡ none
      go none q ih = ih (omega (arith, q))
      go (some t) q ih = absurd (omega (arith, q))

  pub no_completed_count :
      (d : List (K × PlainEntry)) → oldest_completed d ≡ none → completed_count d ≡ 0
  unfolding oldest_completed
  no_completed_count [] h = refl
  no_completed_count (x ∷ d) h = go x.1.deadline h (no_completed_count d)
    where
      go :
          (t : Option ℕ)
          → (if completed? t then some x.0 else oldest_completed d) ≡ none
          → (oldest_completed d ≡ none → completed_count d ≡ 0)
          → one_completed t + completed_count d ≡ 0
      go none q ih = omega (arith, ih q)
      go (some t) q ih = absurd (cc)

module _ {K : Type 0} (dec : Discrete K) where
  -- The key that the eviction drops has a completed entry.
  pub oldest-found :
      (k : K) (d : List (K × PlainEntry))
      → Distinct dec d
      → oldest_completed d ≡ some k
      → (e : PlainEntry) × (lookup dec k d ≡ some e) × (one_completed e.deadline ≡ 1)
  unfolding oldest_completed lookup
  oldest-found k [] h q = absurd (cc)
  oldest-found k (x ∷ d) h q = go x.1.deadline refl q (oldest-found k d h.1)
    where
      go :
          (t : Option ℕ)
          → x.1.deadline ≡ t
          → (if completed? t then some x.0 else oldest_completed d) ≡ some k
          → (oldest_completed d ≡ some k
              → (e : PlainEntry) × (lookup dec k d ≡ some e) × (one_completed e.deadline ≡ 1))
          → (e : PlainEntry) × (lookup dec k (x ∷ d) ≡ some e) × (one_completed e.deadline ≡ 1)
      go none p r ih =
          let (e, found, c) = ih r in
          (
            e,
            if_neg (dec k x.0) (λ z. cc (sym (ap (λ y. lookup dec y d) z) ∙ found, h.0)) _ _
                ∙ found,
            c,
          )
      go (some t) p r ih =
          let z : some x.0 ≡ some k = r in
          let same : k ≡ x.0 = cc z in (x.1, if_pos (dec k x.0) same _ _, ap one_completed p)

  -- A registry that counts what it retains.
  pub record PlainCounts (r : PlainRegistry K) : Type 0 where
    pub distinct : Distinct dec r.plain_entries
    pub total : r.total_retained ≡ retained_in r.plain_entries

  -- The bounds: the bytes, and the number unless only in-flight entries remain.
  abbrev pub InBounds : PlainRegistry K → Type 0
  InBounds r =
      (r.total_retained ≤ r.max_retained_bytes)
      × ((length r.plain_entries ≤ r.max_retained_entries)
          ⊎ (oldest_completed r.plain_entries ≡ none))

  pub drop_plain-Counts :
      (k : K) (r : PlainRegistry K) → PlainCounts r → PlainCounts (drop_plain dec k r)
  unfolding drop_plain
  drop_plain-Counts k r h =
      Option_both PlainCounts (lookup dec k r.plain_entries) r _ (λ _. h)
        (λ e q. record {
          distinct = remove-Distinct dec k r.plain_entries h.distinct;
          total =
              omega (arith, h.total, rw q at (sum_by-remove dec retained_size k r.plain_entries));
        })

  pub drop_plain-count :
      (k : K) (r : PlainRegistry K)
      → PlainCounts r
      → oldest_completed r.plain_entries ≡ some k
      → completed_count (drop_plain dec k r).plain_entries + 1 ≡ completed_count r.plain_entries
  unfolding drop_plain
  drop_plain-count k r h q =
      let (e, found, c) = oldest-found k r.plain_entries h.distinct q in
      Option_both
        (λ (s : PlainRegistry K).
          completed_count s.plain_entries + 1 ≡ completed_count r.plain_entries)
        (lookup dec k r.plain_entries) r _ (λ z. absurd (cc (z, found)))
        (λ e' z.
          let same : some e ≡ some e' = sym found ∙ z in
          let same' : e ≡ e' = cc same in
          let c' : one_completed e'.deadline ≡ 1 =
            ap (λ x. one_completed x.deadline) (sym same') ∙ c in
          omega (
            arith,
            c',
            rw z at (
                sum_by-remove dec (λ (x : PlainEntry). one_completed x.deadline) k r.plain_entries),
          ))

  -- Every round drops a completed entry, so that as many rounds as there are completed entries bring
  -- the registry within its bounds.
  pub evict_rounds-InBounds :
      (n : ℕ) (r : PlainRegistry K)
      → PlainCounts r
      → completed_count r.plain_entries ≤ n
      → PlainCounts (evict_rounds dec n r) × InBounds (evict_rounds dec n r)
  unfolding evict_rounds
  evict_rounds-InBounds zero r h b =
      let q = no_count r.plain_entries (omega (arith, b)) in
      (h, (omega (arith, h.total, none_completed r.plain_entries q), inr q))
  evict_rounds-InBounds (suc n) r h b =
      if_both (λ s. PlainCounts s × InBounds s) (over_bounds r) _ _
        (λ _.
          Option_both (λ s. PlainCounts s × InBounds s) (oldest_completed r.plain_entries) r
            (λ k. evict_rounds dec n (drop_plain dec k r))
            (λ q. (h, (omega (arith, h.total, none_completed r.plain_entries q), inr q)))
            (λ k q.
              evict_rounds-InBounds n (drop_plain dec k r) (drop_plain-Counts k r h)
                (omega (arith, b, drop_plain-count k r h q))))
        (λ z. (h, (ground arith, inl (ground arith))))
