-- ===== src/Flight/Plain/Bounds.antt =====
-- singleflight.py, the plain profile: the eviction's loop ends within the bounds, and so does every
-- event.
use oc_slimapi.Prelude.{
  ℕ, ◌+◌, ◌≤◌, ◌≡◌, refl, true, not, Option, none, some, inl, inr, List, [], ◌∷◌, lookup, length,
  ◌==◌, if_both, Option_both, arith,
}
use oc_slimapi.Prelude.Dict.{remove}
use oc_slimapi.Prelude.Dict.Laws.{sum_by-assign, sum_by-remove, weigh}
use oc_slimapi.Prelude.Dict.Keys.{assign-Distinct, keys}
use oc_slimapi.Flight.Plain.{
  PlainEntry, PlainRegistry, PlainEvent, fetches, completes, fails, expires, stops, completed?,
  weight_of, retained_size, is_object, in_flight_now, past, drop_plain, evict_plain, expire_plain,
  expire_plain_due, fetch, complete_plain, drop_all, plain_happens, plain_run, plain_registry,
}
use oc_slimapi.Flight.Plain.Rounds.{
  one_completed, retained_in, count-length, no_count, no_completed_count, PlainCounts, InBounds,
  drop_plain-Counts, evict_rounds-InBounds,
}

module _ {K : Type 0} (dec : Discrete K) where
  length-removed : (k : K) (d : List (K × PlainEntry)) → length (remove dec k d) ≤ length d
  unfolding remove
  length-removed k [] = omega arith
  length-removed k (x ∷ d) = ground (arith, length-removed k d)

  abbrev pub PlainOk : PlainRegistry K → Type 0
  PlainOk r = PlainCounts dec r × InBounds dec r

  pub drop_plain-Ok : (k : K) (r : PlainRegistry K) → PlainOk r → PlainOk (drop_plain dec k r)
  unfolding drop_plain
  drop_plain-Ok k r h = (
    drop_plain-Counts dec k r h.0,
    Option_both (InBounds dec) (lookup dec k r.plain_entries) r _ (λ _. h.1)
        (λ e q. (
          omega (arith, h.1.0),
          elim h.1.1 [
            | inl few ↦ inl (omega (arith, few, length-removed k r.plain_entries))
            | inr off ↦ inr (
                no_count (remove dec k r.plain_entries) (
                  omega (
                    arith,
                    no_completed_count r.plain_entries off,
                    rw q at (
                        sum_by-remove dec (λ (x : PlainEntry). one_completed x.deadline) k
                          r.plain_entries),
                  )))
          ],
        )),
  )

  expire_plain-Ok :
      (k : K) (i now : ℕ) (r : PlainRegistry K) → PlainOk r → PlainOk (expire_plain dec k i now r)
  unfolding expire_plain
  expire_plain-Ok k i now r h =
      Option_both PlainOk (lookup dec k r.plain_entries) r _ (λ _. h)
        (λ e _.
          if_both PlainOk (e.object == i) _ _
            (λ _. if_both PlainOk (past e.deadline now) _ _ (λ _. drop_plain-Ok k r h) (λ _. h))
            (λ _. h))

  expire_plain_due-Ok :
      (k : K) (now : ℕ) (r : PlainRegistry K) → PlainOk r → PlainOk (expire_plain_due dec k now r)
  unfolding expire_plain_due
  expire_plain_due-Ok k now r h =
      Option_both PlainOk (lookup dec k r.plain_entries) r _ (λ _. h)
        (λ e _. if_both PlainOk (past e.deadline now) _ _ (λ _. drop_plain-Ok k r h) (λ _. h))

  evict_plain-Ok : (r : PlainRegistry K) → PlainCounts dec r → PlainOk (evict_plain dec r)
  evict_plain-Ok r h =
      evict_rounds-InBounds dec (length r.plain_entries) r h (count-length r.plain_entries)

  pub fetch-Ok : (k : K) (now : ℕ) (r : PlainRegistry K) → PlainOk r → PlainOk (fetch dec k now r)
  unfolding fetch
  fetch-Ok k now r h =
      let r' = expire_plain_due dec k now r in
      let h' = expire_plain_due-Ok k now r h in
      Option_both PlainOk (lookup dec k r'.plain_entries) _ _
        (λ q. evict_plain-Ok _ (record {
          distinct = assign-Distinct dec k _ r'.plain_entries h'.0.distinct;
          total = omega (
            arith,
            h'.0.total,
            rw q at (
                sum_by-assign dec retained_size k
                  (record { object = r'.objects + 1; deadline = none; size = 0 }) r'.plain_entries),
          );
        }))
        (λ e _. h')

  -- A result is counted once: the entry was in flight.
  complete_plain-Ok :
      (k : K) (i size now : ℕ) (r : PlainRegistry K)
      → in_flight_now (lookup dec k r.plain_entries) ≡ true
      → PlainOk r
      → PlainOk (complete_plain dec k i size now r)
  unfolding complete_plain
  complete_plain-Ok k i size now r f h =
      if_both PlainOk (is_object (lookup dec k r.plain_entries) i) _ _
        (λ _. evict_plain-Ok _ (record {
          distinct = assign-Distinct dec k _ r.plain_entries h.0.distinct;
          total = omega (
            arith,
            h.0.total,
            weightless (lookup dec k r.plain_entries) f,
            sum_by-assign dec retained_size k
                (record { object = i; deadline = some (now + r.result_grace); size = size })
                r.plain_entries,
          );
        }))
        (λ _. h)
    where
      weightless : (o : Option PlainEntry) → in_flight_now o ≡ true → weigh retained_size o ≡ 0
      weightless none q = refl
      weightless (some e) q = go e.deadline q
        where
          go : (t : Option ℕ) → not (completed? t) ≡ true → weight_of t e.size ≡ 0
          go none z = refl
          go (some t) z = absurd (cc)

  drop_all-Ok : (ks : List K) (r : PlainRegistry K) → PlainOk r → PlainOk (drop_all dec ks r)
  unfolding drop_all
  drop_all-Ok [] r h = h
  drop_all-Ok (k ∷ ks) r h = drop_all-Ok ks (drop_plain dec k r) (drop_plain-Ok k r h)

  plain_happens-Ok :
      (e : PlainEvent K) (r : PlainRegistry K) → PlainOk r → PlainOk (plain_happens dec e r)
  unfolding plain_happens
  plain_happens-Ok (fetches k now) r h = fetch-Ok k now r h
  plain_happens-Ok (completes k i size now) r h =
      if_both PlainOk (in_flight_now (lookup dec k r.plain_entries)) _ _
        (λ f. complete_plain-Ok k i size now r f h) (λ _. h)
  plain_happens-Ok (fails k) r h = drop_plain-Ok k r h
  plain_happens-Ok (expires k i now) r h = expire_plain-Ok k i now r h
  plain_happens-Ok stops r h = drop_all-Ok (keys r.plain_entries) r h

  pub plain_run-Ok :
      (es : List (PlainEvent K)) (r : PlainRegistry K) → PlainOk r → PlainOk (plain_run dec es r)
  unfolding plain_run
  plain_run-Ok [] r h = h
  plain_run-Ok (e ∷ es) r h = plain_run-Ok es (plain_happens dec e r) (plain_happens-Ok e r h)

  -- Whatever fetches, completions, failures, timers and shutdowns happen, and in whatever order, the
  -- total is what the completed entries retain, it is within the bound on the bytes, and the number
  -- of entries is within its bound unless every entry is in flight.
  pub plain_run-bounds :
      (es : List (PlainEvent K)) (entries bytes grace_time : ℕ)
      → ((plain_run dec es (plain_registry entries bytes grace_time)).total_retained
          ≡ retained_in (plain_run dec es (plain_registry entries bytes grace_time)).plain_entries)
        × InBounds dec (plain_run dec es (plain_registry entries bytes grace_time))
  plain_run-bounds es entries bytes grace_time =
      let h =
        plain_run-Ok es (plain_registry entries bytes grace_time)
          (record { distinct = tt; total = refl }, (omega arith, inl (omega arith))) in
      (h.0.total, h.1)
