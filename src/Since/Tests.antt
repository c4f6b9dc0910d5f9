-- ===== src/Since/Tests.antt =====
-- Runs of since_cache.py on small caches, and its theorems at them.
use oc_slimapi.Prelude.{◌≡◌, refl, true, none, [], ◌∷◌, lookup, Text, text, text_dec, arith, map}
use oc_slimapi.Prelude.Dict.{remove, move_to_end}
use oc_slimapi.Since.{
  SinceCache, Committed, observed_generation, evict_loop, drop_key, publish_entry, commit, observe,
}
use oc_slimapi.Since.Budget.{CacheOk}
use oc_slimapi.Since.Commit.{commit-CacheOk, observe-CacheOk}
use oc_slimapi.Since.Race.{Lost, Won, commit-Lost, commit-Won, commit-race}

program : Unit {0}
unfolding commit publish_entry drop_key evict_loop observe lookup text_dec remove move_to_end
program = tt

abbrev cache : SinceCache Text
cache = record {
  enabled = true;
  max_entries = 2;
  max_bytes = 300;
  max_entry_bytes = 200;
  entries = [];
  retained_bytes = 0;
}

abbrev one : Committed Text
one = commit text_dec 4 cache (text "k1") none (text "aa") ((text "m1", text "f") ∷ []) true

abbrev two : Committed Text
two =
    commit text_dec one.counter one.cache (text "k2") none (text "bb") ((text "m2", text "f") ∷ [])
      true

abbrev three : Committed Text
three = commit text_dec two.counter two.cache (text "k3") none (text "cc") [] true

generations : map (λ e. e.1.generation) two.cache.entries ≡ 5 ∷ 6 ∷ []
unfolding program
generations = refl

-- The oldest entry gives way, by the count.
evicted : map (λ e. e.0) three.cache.entries ≡ text "k2" ∷ text "k3" ∷ []
unfolding program
evicted = refl

bytes : two.cache.retained_bytes ≡ 200
unfolding program
bytes = refl

-- An observation touches: the other entry is then the oldest.
touched :
    map (λ e. e.0) (observe text_dec (text "k1") two.cache).0.entries ≡ text "k2" ∷ text "k1" ∷ []
unfolding program
touched = refl

cache-CacheOk : CacheOk text_dec 4 cache
cache-CacheOk = record {
  distinct = tt;
  sums = refl;
  passed = tt;
  sized = tt;
  few = omega arith;
  small = omega arith;
}

commit-CacheOk_example : CacheOk text_dec one.counter one.cache
commit-CacheOk_example =
    commit-CacheOk text_dec 4 cache (text "k1") none (text "aa") ((text "m1", text "f") ∷ []) true
      cache-CacheOk

commit-Won_run : Won text_dec 4 (text "k1") (text "aa") ((text "m1", text "f") ∷ []) one
unfolding lookup
commit-Won_run =
    commit-Won text_dec 4 cache (text "k1") none (text "aa") ((text "m1", text "f") ∷ []) refl
      cache-CacheOk refl refl (omega arith) (omega arith) (omega arith)

commit-Lost_run :
    Lost text_dec 5 one.cache
      (text "k1")
      (text "dd")
      (commit text_dec 5 one.cache (text "k1") none (text "dd") [] true)
      (text "k1")
unfolding program
commit-Lost_run =
    commit-Lost text_dec 5 one.cache (text "k1") (text "k1") none (text "dd") [] true refl
      (refl, tt) refl

commit-race_example :
    Won text_dec 4 (text "k1") (text "aa") ((text "m1", text "f") ∷ []) one
    × Lost text_dec one.counter one.cache
        (text "k1")
        (text "dd")
        (commit text_dec one.counter one.cache
          (text "k1")
          (observed_generation (lookup text_dec (text "k1") cache.entries))
          (text "dd")
          []
          true)
        (text "k1")
unfolding lookup
commit-race_example =
    commit-race text_dec 4 cache (text "k1") (text "aa") (text "dd") ((text "m1", text "f") ∷ []) []
      true one refl cache-CacheOk refl refl (omega arith) (omega arith) (omega arith)

observe-CacheOk_run :
    CacheOk text_dec 4 (observe text_dec (text "k1") cache).0
    × ((observe text_dec (text "k1") cache).1 ≡ lookup text_dec (text "k1") cache.entries)
    × (lookup text_dec (text "k2") (observe text_dec (text "k1") cache).0.entries
        ≡ lookup text_dec (text "k2") cache.entries)
observe-CacheOk_run = observe-CacheOk text_dec 4 cache (text "k1") (text "k2") refl cache-CacheOk
