-- ===== src/Flight/Plain/Tests.antt =====
-- Runs of singleflight.py's plain profile.
use oc_slimapi.Prelude.{ℕ, ◌≡◌, refl, none, some, List, [], ◌∷◌, lookup, map, ℕ_discrete}
use oc_slimapi.Flight.Plain.Rounds.{PlainCounts, InBounds, retained_in}
use oc_slimapi.Flight.Plain.Bounds.{plain_run-bounds}
use oc_slimapi.Flight.Plain.Evict.{Ended, evict_plain-Ended, evict_plain-spares}
use oc_slimapi.Prelude.Dict.{assign, remove}
use oc_slimapi.Flight.Plain.{
  PlainEntry, PlainRegistry, PlainEvent, fetches, completes, fails, expires, stops,
  oldest_completed, drop_plain, evict_rounds, evict_plain, expire_plain, expire_plain_due, fetch,
  complete_plain, drop_all, plain_happens, plain_run, plain_registry,
}

program : Unit {0}
unfolding plain_run plain_happens fetch complete_plain drop_plain expire_plain expire_plain_due
    drop_all evict_rounds oldest_completed lookup assign remove ℕ_discrete
program = tt

-- Two entries at most, 100 bytes, and a grace window of 5.
abbrev run : List (PlainEvent ℕ) → PlainRegistry ℕ
run es = plain_run ℕ_discrete es (plain_registry 2 100 5)

abbrev objects_of : PlainRegistry ℕ → List (ℕ × ℕ)
objects_of r = map (λ x. (x.0, x.1.object)) r.plain_entries

-- The third entry drops the oldest completed one and spares the one in flight.
abbrev three : List (PlainEvent ℕ)
three = fetches 7 0 ∷ fetches 8 0 ∷ completes 8 2 40 1 ∷ fetches 9 2 ∷ []

spared : objects_of (run three) ≡ (7, 1) ∷ (9, 3) ∷ []
unfolding program
spared = refl

-- A body larger than the bound is not retained.
large : objects_of (run (fetches 7 0 ∷ completes 7 1 101 1 ∷ [])) ≡ []
unfolding program
large = refl

-- A timer of an object that was replaced does nothing.
stale :
    objects_of (run (fetches 7 0 ∷ completes 7 1 10 1 ∷ fetches 7 6 ∷ expires 7 1 6 ∷ []))
    ≡ (7, 2) ∷ []
unfolding program
stale = refl

-- A leader that fails after a shutdown drops the entry that a later caller registered under its key:
-- the next caller fetches a second time while the first request is still in flight.
late_failure :
    objects_of (run (fetches 7 0 ∷ stops ∷ fetches 7 1 ∷ fails 7 ∷ fetches 7 2 ∷ [])) ≡ (7, 3) ∷ []
unfolding program
late_failure = refl

plain_run-bounds_example :
    ((run three).total_retained ≡ retained_in (run three).plain_entries)
    × InBounds ℕ_discrete (run three)
unfolding program
plain_run-bounds_example = plain_run-bounds ℕ_discrete three 2 100 5

-- One entry in flight and one that holds 40 bytes, with room for one entry.
abbrev flying : PlainEntry
flying = record { object = 1; deadline = none; size = 0 }

abbrev crowded : PlainRegistry ℕ
crowded = record {
  plain_entries = (7, flying) ∷ (8, record { object = 2; deadline = some 6; size = 40 }) ∷ [];
  total_retained = 40;
  max_retained_entries = 1;
  max_retained_bytes = 100;
  result_grace = 5;
  objects = 2;
}

crowded-Counts : PlainCounts ℕ_discrete crowded
unfolding program
crowded-Counts = record { distinct = (refl, (refl, tt)); total = refl }

evict_plain-Ended_example : Ended ℕ_discrete (evict_plain ℕ_discrete crowded)
evict_plain-Ended_example = evict_plain-Ended ℕ_discrete crowded crowded-Counts

evict_plain-spares_example :
    lookup ℕ_discrete 7 (evict_plain ℕ_discrete crowded).plain_entries ≡ some flying
unfolding program
evict_plain-spares_example = evict_plain-spares ℕ_discrete crowded 7 flying crowded-Counts refl refl
