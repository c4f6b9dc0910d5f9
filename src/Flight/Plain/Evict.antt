-- ===== src/Flight/Plain/Evict.antt =====
-- singleflight.py `_evict_over_budget`: the loop ends by its own tests, and spares what is in flight.
use oc_slimapi.Prelude.{
  ℕ, zero, suc, ◌≤◌, ◌≡◌, ◌≢◌, ◌⊎◌, sym, ap, ◌∙◌, false, none, some, inl, inr, lookup, length,
  if_both, Option_both, arith,
}
use oc_slimapi.Prelude.Dict.Laws.{lookup-remove_ne}
use oc_slimapi.Flight.Plain.{
  PlainEntry, PlainRegistry, oldest_completed, over_bounds, drop_plain, evict_rounds, evict_plain,
}
use oc_slimapi.Flight.Plain.Rounds.{
  PlainCounts, drop_plain-Counts, oldest-found, one_completed, completed_count, no_count,
  drop_plain-count, count-length,
}

module _ {K : Type 0} (dec : Discrete K) where
  -- What the loop was to end with: its condition is false, or only in-flight entries remain.
  abbrev pub Ended : PlainRegistry K → Type 0
  Ended r = (over_bounds r ≡ false) ⊎ (oldest_completed r.plain_entries ≡ none)

  evict_rounds-Ended :
      (n : ℕ) (r : PlainRegistry K)
      → PlainCounts dec r
      → completed_count r.plain_entries ≤ n
      → Ended (evict_rounds dec n r)
  unfolding evict_rounds
  evict_rounds-Ended zero r h b = inr (no_count r.plain_entries (omega (arith, b)))
  evict_rounds-Ended (suc n) r h b =
      if_both Ended (over_bounds r) _ _
        (λ _.
          Option_both Ended (oldest_completed r.plain_entries) r
            (λ k. evict_rounds dec n (drop_plain dec k r)) (λ q. inr q)
            (λ k q.
              evict_rounds-Ended n (drop_plain dec k r) (drop_plain-Counts dec k r h)
                (omega (arith, b, drop_plain-count dec k r h q))))
        (λ z. inl z)

  drop_plain-spares :
      (j k : K) (e : PlainEntry) (r : PlainRegistry K)
      → j ≢ k
      → lookup dec j r.plain_entries ≡ some e
      → lookup dec j (drop_plain dec k r).plain_entries ≡ some e
  unfolding drop_plain
  drop_plain-spares j k e r n q =
      Option_both (λ (s : PlainRegistry K). lookup dec j s.plain_entries ≡ some e)
        (lookup dec k r.plain_entries) r _ (λ _. q)
        (λ _ _. lookup-remove_ne dec j k r.plain_entries n ∙ q)

  evict_rounds-spares :
      (n : ℕ) (r : PlainRegistry K) (j : K) (e : PlainEntry)
      → PlainCounts dec r
      → lookup dec j r.plain_entries ≡ some e
      → e.deadline ≡ none
      → lookup dec j (evict_rounds dec n r).plain_entries ≡ some e
  unfolding evict_rounds
  evict_rounds-spares zero r j e h q t = q
  evict_rounds-spares (suc n) r j e h q t =
      if_both (λ (s : PlainRegistry K). lookup dec j s.plain_entries ≡ some e) (over_bounds r) _ _
        (λ _.
          Option_both (λ (s : PlainRegistry K). lookup dec j s.plain_entries ≡ some e)
            (oldest_completed r.plain_entries) r (λ k. evict_rounds dec n (drop_plain dec k r))
            (λ _. q)
            (λ k o.
              let (e', found, c) = oldest-found dec k r.plain_entries h.distinct o in
              let other : j ≢ k = λ p.
                let z : some e ≡ some e' =
                  sym q ∙ ap (λ x. lookup dec x r.plain_entries) p ∙ found in
                let z' : e ≡ e' = cc z in
                let c' : one_completed e.deadline ≡ 1 = ap (λ x. one_completed x.deadline) z' ∙ c in
                let c'' : one_completed e.deadline ≡ 0 = ap one_completed t in
                omega (arith, c', c'') in
              evict_rounds-spares n (drop_plain dec k r) j e (drop_plain-Counts dec k r h)
                (drop_plain-spares j k e r other q) t))
        (λ _. q)

  -- The eviction's loop ends, on a registry that counts what it retains: after at most as many rounds
  -- as there are entries its condition is false or no completed entry is left.
  pub evict_plain-Ended : (r : PlainRegistry K) → PlainCounts dec r → Ended (evict_plain dec r)
  evict_plain-Ended r h =
      evict_rounds-Ended (length r.plain_entries) r h (count-length r.plain_entries)

  -- The eviction spares what is in flight: on a registry that counts what it retains, an entry without
  -- a deadline is still under its key afterwards.
  pub evict_plain-spares :
      (r : PlainRegistry K) (j : K) (e : PlainEntry)
      → PlainCounts dec r
      → lookup dec j r.plain_entries ≡ some e
      → e.deadline ≡ none
      → lookup dec j (evict_plain dec r).plain_entries ≡ some e
  evict_plain-spares r j e h q t = evict_rounds-spares (length r.plain_entries) r j e h q t
