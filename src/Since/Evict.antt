-- ===== src/Since/Evict.antt =====
-- since_cache.py: what `_evict_over_budget` does to the entries.
use oc_slimapi.Prelude.{
  ℕ, ◌-◌, ◌≤◌, ◌<◌, ◌≡◌, refl, ◌||◌, none, List, [], ◌∷◌, ◌++◌, lookup, ltb, length, sum_by, arith,
  Bool-cases, inl, inr, if_both, All,
}
use oc_slimapi.Prelude.Dict.{Distinct}
use oc_slimapi.Since.{CacheEntry, entry_bytes, evict_loop}

module _ {K : Type 0} where
  abbrev pub total_bytes : List (K × CacheEntry) → ℕ
  total_bytes d = sum_by (λ e. entry_bytes e.1) d

  -- The eviction keeps the totals right and ends within both budgets.
  pub evict_loop_within :
      (n b : ℕ) (d : List (K × CacheEntry)) (total : ℕ)
      → total ≡ total_bytes d
      → ((evict_loop n b d total).1 ≡ total_bytes (evict_loop n b d total).0)
        × (length (evict_loop n b d total).0 ≤ n)
        × ((evict_loop n b d total).1 ≤ b)
  unfolding evict_loop
  evict_loop_within n b [] total h = (h, omega arith, omega (arith, h))
  evict_loop_within n b (e ∷ d) total h =
      let ih = evict_loop_within n b d (total - entry_bytes e.1) (omega (arith, h)) in
      elim (Bool-cases (ltb n (length (e ∷ d)) || ltb b total)) [
        | inl t ↦ rw t ih
        | inr t ↦ rw t (h, ground arith, ground arith)
      ]

  -- What holds of every entry holds of those that stay.
  pub evict_loop-All {κ} :
      (Q : K × CacheEntry → Type κ) (n b : ℕ) (d : List (K × CacheEntry)) (total : ℕ)
      → All Q d
      → All Q (evict_loop n b d total).0
  unfolding evict_loop
  evict_loop-All Q n b [] total h = tt
  evict_loop-All Q n b (e ∷ d) total h =
      if_both (λ (r : List (K × CacheEntry) × ℕ). All Q r.0) (ltb n (length (e ∷ d)) || ltb b total)
        _ _ (λ _. evict_loop-All Q n b d (total - entry_bytes e.1) h.1) (λ _. h)

  -- The newest entry stays if it fits alone.
  pub evict_loop-append :
      (n b : ℕ) (d : List (K × CacheEntry)) (e : K × CacheEntry) (total : ℕ)
      → total ≡ total_bytes (d ++ (e ∷ []))
      → 0 < n
      → entry_bytes e.1 ≤ b
      → (c : List (K × CacheEntry)) × ((evict_loop n b (d ++ (e ∷ [])) total).0 ≡ c ++ (e ∷ []))
  unfolding evict_loop
  evict_loop-append n b [] e total h pos fits = (
    [],
    if_both (λ (r : List (K × CacheEntry) × ℕ). r.0 ≡ e ∷ []) (ltb n 1 || ltb b total) _ _
        (λ t. absurd (ground arith)) (λ _. refl),
  )
  evict_loop-append n b (x ∷ d) e total h pos fits =
      let (c, q) =
        evict_loop-append n b d e (total - entry_bytes x.1) (omega (arith, h)) pos fits in
      elim (Bool-cases (ltb n (length (x ∷ (d ++ (e ∷ [])))) || ltb b total)) [
        | inl t ↦ (c, rw t q)
        | inr t ↦ (x ∷ d, rw t)
      ]

module _ {K : Type 0} (dec : Discrete K) where
  pub lookup-evict_loop-none :
      (k : K) (n b : ℕ) (d : List (K × CacheEntry)) (total : ℕ)
      → lookup dec k d ≡ none
      → lookup dec k (evict_loop n b d total).0 ≡ none
  unfolding evict_loop lookup
  lookup-evict_loop-none k n b [] total h = refl
  lookup-evict_loop-none k n b (e ∷ d) total h =
      if_both (λ (r : List (K × CacheEntry) × ℕ). lookup dec k r.0 ≡ none)
        (ltb n (length (e ∷ d)) || ltb b total) _ _
        (λ _. lookup-evict_loop-none k n b d (total - entry_bytes e.1) (ground arith)) (λ _. h)

  pub evict_loop-Distinct :
      (n b : ℕ) (d : List (K × CacheEntry)) (total : ℕ)
      → Distinct dec d
      → Distinct dec (evict_loop n b d total).0
  unfolding evict_loop
  evict_loop-Distinct n b [] total h = tt
  evict_loop-Distinct n b (e ∷ d) total h =
      if_both (λ (r : List (K × CacheEntry) × ℕ). Distinct dec r.0)
        (ltb n (length (e ∷ d)) || ltb b total) _ _
        (λ _. evict_loop-Distinct n b d (total - entry_bytes e.1) h.1) (λ _. h)
