-- ===== src/Flight/Plain.antt =====
-- singleflight.py, the plain profile: completed results stay joinable for a short time, within bounds
-- on their number and their bytes.
pub mod Rounds
pub mod Bounds
pub mod Evict
mod Tests
use oc_slimapi.Prelude.{
  ℕ, zero, suc, ◌+◌, ◌-◌, Bool, true, false, ◌||◌, Option, none, some, List, [], ◌∷◌, lookup,
  length, not, leb, ltb, ◌==◌, if◌then◌else◌,
}
use oc_slimapi.Prelude.Dict.{assign, remove}
use oc_slimapi.Prelude.Dict.Keys.{keys}

-- `_Entry` without the leased profile's fields: which object it is, its deadline once it has completed,
-- and its bytes.
pub record PlainEntry : Type 0 where
  pub object : ℕ
  pub deadline : Option ℕ
  pub size : ℕ

-- `SingleFlight` without `max_bytes` of a budget; `objects` numbers the entries as they are made.
pub record PlainRegistry (K : Type 0) : Type 0 where
  pub plain_entries : List (K × PlainEntry)
  pub total_retained : ℕ
  pub max_retained_entries : ℕ
  pub max_retained_bytes : ℕ
  pub result_grace : ℕ
  pub objects : ℕ

pub data PlainEvent (K : Type 0) : Type 0 where
  -- A caller fetches a key, at a time.
  fetches : K → ℕ → PlainEvent K
  -- The factory of an object returns a result of some bytes, at a time, or it fails.
  completes : K → ℕ → ℕ → ℕ → PlainEvent K
  fails : K → PlainEvent K
  -- The grace timer of an object, at a time.
  expires : K → ℕ → ℕ → PlainEvent K
  stops : PlainEvent K

abbrev pub completed? : Option ℕ → Bool
completed? none = false
completed? (some t) = true

-- `expires_at is not None and expires_at <= clock()`.
abbrev pub past : Option ℕ → ℕ → Bool
past none now = false
past (some t) now = leb t now

-- What an entry adds to the retained bytes: in-flight entries are not counted.
abbrev pub weight_of : Option ℕ → ℕ → ℕ
weight_of none n = 0
weight_of (some t) n = n

abbrev pub retained_size : PlainEntry → ℕ
retained_size e = weight_of e.deadline e.size

-- The key of the oldest completed entry.
unfoldable pub oldest_completed : {K : Type 0} → List (K × PlainEntry) → Option K
oldest_completed [] = none
oldest_completed (x ∷ d) =
    let rest = oldest_completed d in if completed? x.1.deadline then some x.0 else rest

-- `self._entries.get(entry.key) is entry`.
abbrev pub is_object : Option PlainEntry → ℕ → Bool
is_object none i = false
is_object (some e) i = e.object == i

-- `in_flight(key)`, of the key's entry.
abbrev pub in_flight_now : Option PlainEntry → Bool
in_flight_now none = false
in_flight_now (some e) = not (completed? e.deadline)

module _ {K : Type 0} where
  -- The condition of the eviction's loop.
  abbrev pub over_bounds : PlainRegistry K → Bool
  over_bounds r =
      ltb r.max_retained_entries (length r.plain_entries)
      || ltb r.max_retained_bytes r.total_retained

module _ {K : Type 0} (dec : Discrete K) where
  -- `_drop`.
  unfoldable pub drop_plain : K → PlainRegistry K → PlainRegistry K
  unfolding lookup remove
  drop_plain k r = elim (lookup dec k r.plain_entries) [
    | none ↦ r
    | some e ↦ record r {
      plain_entries = remove dec k r.plain_entries;
      total_retained = r.total_retained - retained_size e;
    }
  ]

  -- The loop of `_evict_over_budget`, at most so many rounds.
  unfoldable pub evict_rounds : ℕ → PlainRegistry K → PlainRegistry K
  unfolding drop_plain oldest_completed
  evict_rounds zero r = r
  evict_rounds (suc n) r =
      let rest : PlainRegistry K = elim (oldest_completed r.plain_entries) [
        | none ↦ r
        | some k ↦ evict_rounds n (drop_plain k r)
      ] in
      if over_bounds r then rest else r

  -- `_evict_over_budget`: every round drops an entry.
  abbrev pub evict_plain : PlainRegistry K → PlainRegistry K
  evict_plain r = evict_rounds (length r.plain_entries) r

  -- `_expire_grace_entry`, for the object of the timer.
  unfoldable pub expire_plain : K → ℕ → ℕ → PlainRegistry K → PlainRegistry K
  unfolding lookup drop_plain
  expire_plain k i now r = elim (lookup dec k r.plain_entries) [
    | none ↦ r
    | some e ↦ if e.object == i then (if past e.deadline now then drop_plain k r else r) else r
  ]

  -- `_expire_if_due`.
  unfoldable pub expire_plain_due : K → ℕ → PlainRegistry K → PlainRegistry K
  unfolding lookup drop_plain
  expire_plain_due k now r = elim (lookup dec k r.plain_entries) [
    | none ↦ r
    | some e ↦ if past e.deadline now then drop_plain k r else r
  ]

  -- A fresh entry goes last, since its key is not there, and the bounds are enforced.
  abbrev pub insert_plain : K → PlainRegistry K → PlainRegistry K
  insert_plain k r = evict_plain (record r {
    plain_entries =
        assign dec k (record { object = r.objects + 1; deadline = none; size = 0 }) r.plain_entries;
    objects = r.objects + 1;
  })

  -- `fetch` at its serial point.
  unfoldable pub fetch : K → ℕ → PlainRegistry K → PlainRegistry K
  unfolding lookup expire_plain_due evict_rounds assign
  fetch k now r =
      let r' = expire_plain_due k now r in
      elim (lookup dec k r'.plain_entries) [ none ↦ insert_plain k r' | some e ↦ r' ]

  -- `_convert_success`, for the object that completed.
  unfoldable pub complete_plain : K → ℕ → ℕ → ℕ → PlainRegistry K → PlainRegistry K
  unfolding lookup evict_rounds assign
  complete_plain k i size now r =
      if is_object (lookup dec k r.plain_entries) i
      then evict_plain (record r {
        plain_entries =
            assign dec k
              (record { object = i; deadline = some (now + r.result_grace); size = size })
              r.plain_entries;
        total_retained = r.total_retained + size;
      })
      else r

  -- The loop of `shutdown`.
  unfoldable pub drop_all : List K → PlainRegistry K → PlainRegistry K
  unfolding drop_plain
  drop_all [] r = r
  drop_all (k ∷ ks) r = drop_all ks (drop_plain k r)

  -- An event; a factory returns once, while its entry is in flight or has been dropped.
  unfoldable pub plain_happens : PlainEvent K → PlainRegistry K → PlainRegistry K
  unfolding fetch complete_plain drop_plain expire_plain drop_all lookup
  plain_happens (fetches k now) r = fetch k now r
  plain_happens (completes k i size now) r =
      if in_flight_now (lookup dec k r.plain_entries) then complete_plain k i size now r else r
  plain_happens (fails k) r = drop_plain k r
  plain_happens (expires k i now) r = expire_plain k i now r
  plain_happens stops r = drop_all (keys r.plain_entries) r

  unfoldable pub plain_run : List (PlainEvent K) → PlainRegistry K → PlainRegistry K
  unfolding plain_happens
  plain_run [] r = r
  plain_run (e ∷ es) r = plain_run es (plain_happens e r)

-- A new registry.
abbrev pub plain_registry : {K : Type 0} → ℕ → ℕ → ℕ → PlainRegistry K
plain_registry entries bytes grace_time = record {
  plain_entries = [];
  total_retained = 0;
  max_retained_entries = entries;
  max_retained_bytes = bytes;
  result_grace = grace_time;
  objects = 0;
}
