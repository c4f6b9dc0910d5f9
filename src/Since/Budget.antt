-- ===== src/Since/Budget.antt =====
-- since_cache.py: the bounds of the cache, through a touch and a drop.
use oc_slimapi.Prelude.{
  ℕ, ◌+◌, ◌-◌, ◌≤◌, ◌≡◌, ◌≢◌, refl, sym, ap, ◌∙◌, none, some, List, [], ◌∷◌, ◌++◌, lookup, length,
  length-append, sum_by-append, arith, Option-cases, inl, inr, All, All-append, Option_both, if_pos,
  if_neg,
}
use oc_slimapi.Prelude.Dict.{remove, move_to_end, Distinct}
use oc_slimapi.Prelude.Dict.Laws.{
  lookup-remove_self, lookup-remove_ne, remove-Distinct, append-Distinct, lookup-append_none,
  lookup-append_some, sum_by-remove, weigh, All-lookup,
}
use oc_slimapi.Prelude.Dict.Keys.{All-remove}
use oc_slimapi.Since.{CacheEntry, entry_bytes, SinceCache, drop_key, touch_key}
use oc_slimapi.Since.Evict.{total_bytes}

module _ {K : Type 0} (dec : Discrete K) where
  -- A cache whose totals are right, whose generations the counter has passed, and which is within its
  -- budgets.
  pub record CacheOk (counter : ℕ) (c : SinceCache K) : Type 0 where
    pub distinct : Distinct dec c.entries
    pub sums : c.retained_bytes ≡ total_bytes c.entries
    pub passed : All (λ e. e.1.generation ≤ counter) c.entries
    pub sized : All (λ e. entry_bytes e.1 ≤ c.max_entry_bytes) c.entries
    pub few : length c.entries ≤ c.max_entries
    pub small : c.retained_bytes ≤ c.max_bytes

  length-removed :
      (k : K) (d : List (K × CacheEntry))
      → length (remove dec k d) + weigh (λ _. 1) (lookup dec k d) ≡ length d
  unfolding remove lookup
  length-removed k [] = refl
  length-removed k (e ∷ d) = ground (arith, length-removed k d)

  -- Removing a key and adding an entry of it back at the end.
  touched_length :
      (k : K) (v : CacheEntry) (d : List (K × CacheEntry))
      → lookup dec k d ≡ some v
      → length (remove dec k d ++ ((k, v) ∷ [])) ≡ length d
  touched_length k v d h =
      omega (arith, length-append (remove dec k d) ((k, v) ∷ []), rw h at (length-removed k d))

  touched_total :
      (k : K) (v : CacheEntry) (d : List (K × CacheEntry))
      → lookup dec k d ≡ some v
      → total_bytes (remove dec k d ++ ((k, v) ∷ [])) ≡ total_bytes d
  touched_total k v d h = omega (
    arith,
    sum_by-append (λ (e : K × CacheEntry). entry_bytes e.1) (remove dec k d) ((k, v) ∷ []),
    rw h at (sum_by-remove dec entry_bytes k d),
  )

  -- A touch_key reorders the entries: every property of a well-formed cache stays, and so does every lookup.
  pub touch_key-CacheOk :
      (counter : ℕ) (k : K) (c : SinceCache K)
      → CacheOk counter c
      → CacheOk counter (touch_key dec k c)
  unfolding move_to_end
  touch_key-CacheOk counter k c h =
      Option_both (λ d. CacheOk counter (record c { entries = d })) (lookup dec k c.entries)
        c.entries (λ v. remove dec k c.entries ++ ((k, v) ∷ [])) (λ _. h)
        (λ v e. record {
          distinct =
              append-Distinct dec k v (remove dec k c.entries)
                (lookup-remove_self dec k c.entries h.distinct)
                (remove-Distinct dec k c.entries h.distinct);
          sums = h.sums ∙ sym (touched_total k v c.entries e);
          passed =
              All-append (λ e. e.1.generation ≤ counter) (remove dec k c.entries) ((k, v) ∷ [])
                (All-remove dec (λ e. e.1.generation ≤ counter) k c.entries h.passed)
                (All-lookup dec (λ v. v.generation ≤ counter) k c.entries h.passed e, tt);
          sized =
              All-append (λ e. entry_bytes e.1 ≤ c.max_entry_bytes) (remove dec k c.entries)
                ((k, v) ∷ [])
                (All-remove dec (λ e. entry_bytes e.1 ≤ c.max_entry_bytes) k c.entries h.sized)
                (All-lookup dec (λ v. entry_bytes v ≤ c.max_entry_bytes) k c.entries h.sized e, tt);
          few = omega (arith, h.few, touched_length k v c.entries e);
          small = h.small;
        })

  pub drop_key-CacheOk :
      (counter : ℕ) (k : K) (c : SinceCache K)
      → CacheOk counter c
      → CacheOk counter (drop_key dec k c)
  unfolding drop_key
  drop_key-CacheOk counter k c h =
      Option_both (λ d. CacheOk counter d) (lookup dec k c.entries) c
        (λ old. record c {
          entries = remove dec k c.entries;
          retained_bytes = c.retained_bytes - entry_bytes old;
        })
        (λ _. h)
        (λ old e.
          let sum = rw e at (sum_by-remove dec entry_bytes k c.entries) in
          record {
            distinct = remove-Distinct dec k c.entries h.distinct;
            sums = omega (arith, h.sums, sum);
            passed = All-remove dec (λ e. e.1.generation ≤ counter) k c.entries h.passed;
            sized = All-remove dec (λ e. entry_bytes e.1 ≤ c.max_entry_bytes) k c.entries h.sized;
            few = omega (arith, h.few, length-removed k c.entries);
            small = omega (arith, h.small);
          })

  pub lookup-touch_key :
      (j k : K) (d : List (K × CacheEntry))
      → Distinct dec d
      → lookup dec j (move_to_end dec k d) ≡ lookup dec j d
  unfolding move_to_end
  lookup-touch_key j k d h =
      Option_both (λ d'. lookup dec j d' ≡ lookup dec j d) (lookup dec k d) d
        (λ v. remove dec k d ++ ((k, v) ∷ [])) (λ _. refl) moved
    where
      single : (v : CacheEntry) → j ≡ k → lookup dec j ((k, v) ∷ []) ≡ some v
      single v p = unfold lookup in if_pos (dec j k) p _ _

      other : (v : CacheEntry) → j ≢ k → lookup dec j ((k, v) ∷ []) ≡ none
      other v n = unfold lookup in if_neg (dec j k) n _ _

      moved :
          (v : CacheEntry)
          → lookup dec k d ≡ some v
          → lookup dec j (remove dec k d ++ ((k, v) ∷ [])) ≡ lookup dec j d
      moved v e = elim (dec j k) [
        | yes p ↦
            lookup-append_none dec j (remove dec k d) ((k, v) ∷ [])
              (ap (λ x. lookup dec x (remove dec k d)) p ∙ lookup-remove_self dec k d h)
            ∙ single v p
            ∙ sym (ap (λ x. lookup dec x d) p ∙ e)
        | no n ↦ elim (Option-cases (lookup dec j (remove dec k d))) [
          | inl a ↦
              lookup-append_none dec j (remove dec k d) ((k, v) ∷ []) a
              ∙ other v n
              ∙ sym a
              ∙ lookup-remove_ne dec j k d n
          | inr (w, a) ↦
              lookup-append_some dec j (remove dec k d) ((k, v) ∷ []) w a
              ∙ sym a
              ∙ lookup-remove_ne dec j k d n
        ]
      ]

  -- What a drop leaves: nothing under its key, and the budget's slack.
  pub lookup-drop_key :
      (k : K) (c : SinceCache K)
      → Distinct dec c.entries
      → lookup dec k (drop_key dec k c).entries ≡ none
  unfolding drop_key
  lookup-drop_key k c h =
      Option_both (λ (d : SinceCache K). lookup dec k d.entries ≡ none) (lookup dec k c.entries) c
        (λ old. record c {
          entries = remove dec k c.entries;
          retained_bytes = c.retained_bytes - entry_bytes old;
        })
        (λ e. e) (λ _ _. lookup-remove_self dec k c.entries h)

  pub drop_key-settings :
      (k : K) (c : SinceCache K)
      → ((drop_key dec k c).max_entries ≡ c.max_entries)
        × ((drop_key dec k c).max_bytes ≡ c.max_bytes)
        × ((drop_key dec k c).max_entry_bytes ≡ c.max_entry_bytes)
  unfolding drop_key
  drop_key-settings k c =
      Option_both
        (λ (d : SinceCache K).
          (d.max_entries ≡ c.max_entries)
          × (d.max_bytes ≡ c.max_bytes)
          × (d.max_entry_bytes ≡ c.max_entry_bytes))
        (lookup dec k c.entries) c
        (λ old. record c {
          entries = remove dec k c.entries;
          retained_bytes = c.retained_bytes - entry_bytes old;
        })
        (λ _. (refl, refl, refl)) (λ _ _. (refl, refl, refl))
