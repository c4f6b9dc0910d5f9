-- ===== src/Since.antt =====
-- since_cache.py: the cache of message snapshots, and its commit.
pub mod Evict
pub mod Budget
pub mod Commit
pub mod Race
mod Tests
use oc_slimapi.Prelude.{
  ℕ, suc, ◌+◌, ◌-◌, Bool, true, false, ◌&&◌, ◌||◌, not, Option, none, some, List, [], ◌∷◌, ◌++◌,
  lookup, Text, text_dec, ltb, ◌==◌, if◌then◌else◌, length, sum_by,
}
use oc_slimapi.Prelude.Dict.{remove, move_to_end}

-- `len(c.encode("utf-8"))` of one character; a lone surrogate, on which the code raises, counts 3 here.
abbrev pub utf8_size : ℕ → ℕ
utf8_size c = if ltb c 128 then 1 else if ltb c 2048 then 2 else if ltb c 65536 then 3 else 4

pub record CacheEntry : Type 0 where
  pub canonical_items : Text
  pub fingerprints : List (Text × Text)
  pub generation : ℕ

-- What an entry with these parts weighs.
abbrev pub retained : Text → List (Text × Text) → ℕ
retained items prints = length items + sum_by (λ f. sum_by utf8_size f.0 + 32 + 64) prints

-- `CacheEntry.retained_bytes`.
abbrev pub entry_bytes : CacheEntry → ℕ
entry_bytes e = retained e.canonical_items e.fingerprints

-- `SinceCache`, the oldest entry first; its keys are of any type that can be compared.
pub record SinceCache (K : Type 0) : Type 0 where
  pub enabled : Bool
  pub max_entries : ℕ
  pub max_bytes : ℕ
  pub max_entry_bytes : ℕ
  pub entries : List (K × CacheEntry)
  pub retained_bytes : ℕ

pub record CommitResult : Type 0 where
  pub entry : Option CacheEntry
  pub cas_loser : Bool
  pub omitted : Bool
  pub bypassed : Bool

-- A commit leaves the cache, the process-wide generation counter and its result.
pub record Committed (K : Type 0) : Type 0 where
  pub cache : SinceCache K
  pub counter : ℕ
  pub result : CommitResult

abbrev pub bypass : CommitResult
bypass = record { entry = none; cas_loser = false; omitted = true; bypassed = true }

-- The result of a published entry, given what the eviction left under its key.
abbrev pub survived : CacheEntry → Option CacheEntry → CommitResult
survived e none = bypass
survived e (some _) = record {
  entry = some e;
  cas_loser = false;
  omitted = false;
  bypassed = false;
}

-- `ObservedSnapshot.generation`.
abbrev pub observed_generation : Option CacheEntry → Option ℕ
observed_generation none = none
observed_generation (some e) = some e.generation

-- `same_observation`.
abbrev pub same_observation : Option CacheEntry → Option ℕ → Bool
same_observation none none = true
same_observation none (some g) = false
same_observation (some e) none = false
same_observation (some e) (some g) = e.generation == g

abbrev pub same_text : Text → Text → Bool
same_text s t = elim (text_dec s t) [ yes _ ↦ true | no _ ↦ false ]

-- `current is not None and current.canonical_items == canonical_items`.
abbrev pub unchanged : Option CacheEntry → Text → Bool
unchanged none items = false
unchanged (some e) items = same_text e.canonical_items items

-- `_evict_over_budget`, on the entries and their total.
unfoldable pub evict_loop :
    {K : Type 0} → ℕ → ℕ → List (K × CacheEntry) → ℕ → List (K × CacheEntry) × ℕ
evict_loop max_entries max_bytes [] total = ([], total)
evict_loop max_entries max_bytes (e ∷ d) total =
    let rest = evict_loop max_entries max_bytes d (total - entry_bytes e.1) in
    if ltb max_entries (length (e ∷ d)) || ltb max_bytes total then rest else (e ∷ d, total)

module _ {K : Type 0} (dec : Discrete K) where
  -- `_drop`.
  unfoldable pub drop_key : K → SinceCache K → SinceCache K
  unfolding lookup remove
  drop_key k c = elim (lookup dec k c.entries) [
    | none ↦ c
    | some old ↦ record c {
      entries = remove dec k c.entries;
      retained_bytes = c.retained_bytes - entry_bytes old;
    }
  ]

  abbrev pub touch_key : K → SinceCache K → SinceCache K
  touch_key k c = record c { entries = move_to_end dec k c.entries }

  abbrev pub evict_over_budget : SinceCache K → SinceCache K
  evict_over_budget c =
      let r = evict_loop c.max_entries c.max_bytes c.entries c.retained_bytes in
      record c { entries = r.0; retained_bytes = r.1 }

  -- `observe`, and `current`: the entry, touched if it is there.
  unfoldable pub observe : K → SinceCache K → SinceCache K × Option CacheEntry
  unfolding lookup remove move_to_end
  observe k c = if c.enabled then (touch_key k c, lookup dec k c.entries) else (c, none)

  -- The entry goes last, whatever stood under its key before.
  abbrev pub put_last : K → CacheEntry → SinceCache K → SinceCache K
  put_last k e c =
      let d = drop_key k c in
      record d {
        entries = d.entries ++ ((k, e) ∷ []);
        retained_bytes = d.retained_bytes + entry_bytes e;
      }

  -- The end of `commit`: a new generation is published, if it survives the eviction.
  unfoldable pub publish_entry : ℕ → SinceCache K → K → Text → List (Text × Text) → Committed K
  unfolding drop_key evict_loop
  publish_entry counter c k items prints =
      let e : CacheEntry = record {
        canonical_items = items;
        fingerprints = prints;
        generation = counter + 1;
      } in
      let c' = evict_over_budget (put_last k e c) in
      record { cache = c'; counter = counter + 1; result = survived e (lookup dec k c'.entries) }

  -- `commit` with the generation that was observed.
  unfoldable pub commit :
      ℕ → SinceCache K → K → Option ℕ → Text → List (Text × Text) → Bool → Committed K
  unfolding publish_entry move_to_end
  commit counter c k observed items prints cacheable =
      let current = lookup dec k c.entries in
      if not c.enabled
      then record { cache = c; counter = counter; result = bypass }
      else if not (same_observation current observed)
      then (if unchanged current items
          then record {
            cache = touch_key k c;
            counter = counter;
            result = record {
              entry = current;
              cas_loser = true;
              omitted = false;
              bypassed = false;
            };
          }
          else record {
            cache = c;
            counter = counter;
            result = record { entry = current; cas_loser = true; omitted = true; bypassed = false };
          })
      else if unchanged current items
      then record {
        cache = touch_key k c;
        counter = counter;
        result = record { entry = current; cas_loser = false; omitted = false; bypassed = false };
      }
      else if not cacheable || ltb c.max_entry_bytes (retained items prints)
      then record { cache = drop_key k c; counter = counter; result = bypass }
      else publish_entry counter c k items prints
