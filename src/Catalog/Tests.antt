-- ===== src/Catalog/Tests.antt =====
-- Runs of catalog_cache.py, and its theorems at them: the keys are numbers, and a body is a JSON list
-- when it begins with a bracket.
use oc_slimapi.Prelude.{
  ℕ, ◌+◌, ◌≡◌, ◌⊎◌, inl, refl, Bool, false, none, some, List, [], ◌∷◌, ◌++◌, lookup, ◌==◌, Text,
  text, map, ℕ_discrete, arith,
}
use oc_slimapi.Prelude.Dict.{remove}
use oc_slimapi.Catalog.{
  CatalogCache, evict_bodies, drop_body, store, lookup_body, fetched_body, CatalogEvent, ends,
  invalidates, catalog_event, catalog_run,
}
use oc_slimapi.Catalog.Store.{CatalogOk, fresh_for, lookup_body-store}
use oc_slimapi.Catalog.Caps.{catalog_run-CatalogOk}
use oc_slimapi.Catalog.Memory.{Memory, memory_run}
use oc_slimapi.Catalog.Refine.{Refines, recalled, catalog_run-Refines}
use oc_slimapi.Catalog.Fence.{catalog_run-Fenced}

program : Unit {0}
unfolding catalog_run catalog_event fetched_body store lookup_body drop_body evict_bodies lookup
    remove ℕ_discrete
program = tt

abbrev bracketed : Text → Bool
bracketed [] = false
bracketed (c ∷ t) = c == 91

abbrev cache : CatalogCache ℕ
cache = record {
  ttl = 300;
  entries_cap = 2;
  bytes_cap = 10;
  entry_bytes_cap = 6;
  bodies = [];
  body_bytes = 0;
  fence = 0;
}

abbrev run : List (CatalogEvent ℕ) → CatalogCache ℕ
run es = catalog_run ℕ_discrete bracketed es cache

abbrev fills : List (CatalogEvent ℕ)
fills =
    ends 0 1 (some (text "[1]")) 5
    ∷ ends 0 2 (some (text "[22]")) 6
    ∷ ends 0 3 (some (text "[333]")) 7
    ∷ []

-- The oldest body gives way, by the bytes.
evicted : map (λ e. e.0) (run fills).bodies ≡ 2 ∷ 3 ∷ []
unfolding program
evicted = refl

-- What is not a list, or too large, is not kept.
refused :
    (run (
      ends 0 1 (some (text "{}")) 5
      ∷ ends 0 1 (some (text "[123456]")) 5
      ∷ ends 0 1 none 5
      ∷ [])).bodies
    ≡ []
unfolding program
refused = refl

cache-CatalogOk : CatalogOk ℕ_discrete cache
cache-CatalogOk = record { distinct = tt; sums = refl; few = omega arith; small = omega arith }

catalog_run-CatalogOk_example : CatalogOk ℕ_discrete (run fills)
catalog_run-CatalogOk_example =
    catalog_run-CatalogOk ℕ_discrete bracketed fills cache cache-CatalogOk

-- The answer of a body of the lost process comes after the invalidation.
catalog_run-Fenced_example :
    fetched_body ℕ_discrete bracketed 0 1 (some (text "[1]")) 9 (run (fills ++ (invalidates ∷ [])))
    ≡ run (fills ++ (invalidates ∷ []))
catalog_run-Fenced_example =
    catalog_run-Fenced ℕ_discrete bracketed cache fills [] 1 (some (text "[1]")) 9

lookup_body-store_example :
    (lookup_body ℕ_discrete 7 (5 + 299) (store ℕ_discrete 7 (text "[1]") 5 cache)).0
    ≡ fresh_for ℕ_discrete 300 299 (text "[1]")
lookup_body-store_example =
    lookup_body-store ℕ_discrete 7 (text "[1]") 5 299 cache cache-CatalogOk (omega arith)
      (omega arith) (omega arith)

fresh :
    (lookup_body ℕ_discrete 7 304 (store ℕ_discrete 7 (text "[1]") 5 cache)).0 ≡ some (text "[1]")
unfolding program
fresh = refl

stale : (lookup_body ℕ_discrete 7 305 (store ℕ_discrete 7 (text "[1]") 5 cache)).0 ≡ none
unfolding program
stale = refl

abbrev nothing_known : Memory ℕ
nothing_known = record { fence = 0; newest = λ _. none }

-- From an empty cache, over a run in which the bytes push a body out.
catalog_run-Refines_example :
    Refines ℕ_discrete 300 cache.entry_bytes_cap
      (run fills)
      (memory_run ℕ_discrete bracketed 300 cache.entry_bytes_cap fills nothing_known)
    × (((lookup_body ℕ_discrete 3 9 (run fills)).0 ≡ none)
        ⊎ ((lookup_body ℕ_discrete 3 9 (run fills)).0
            ≡ recalled 300 9 (
                (memory_run ℕ_discrete bracketed 300 cache.entry_bytes_cap fills
                    nothing_known).newest
                  3)))
catalog_run-Refines_example =
    catalog_run-Refines ℕ_discrete bracketed 300 cache.entry_bytes_cap fills cache nothing_known 3 9
      (record {
        ok = cache-CatalogOk;
        same_ttl = refl;
        same_cap = refl;
        same_fence = refl;
        held = λ j. unfold program in inl refl;
      })
