-- ===== src/Catalog.antt =====
-- catalog_cache.py: successful upstream bodies, kept for a time, within bounds, and dropped when the
-- upstream process is lost.
pub mod Store
pub mod Caps
pub mod Fence
pub mod Memory
pub mod Refine
mod Tests
use oc_slimapi.Prelude.{
  ℕ, zero, suc, ◌+◌, ◌-◌, Bool, true, false, ◌||◌, not, Option, none, some, List, [], ◌∷◌, ◌++◌,
  lookup, Text, length, ltb, leb, ◌==◌, if◌then◌else◌,
}
use oc_slimapi.Prelude.Dict.{remove}

-- A body with the time at which it was fetched.
abbrev pub CachedBody : Type 0
CachedBody = Text × ℕ

-- `CatalogCache`; the time to live and the times are in the clock's ticks.
pub record CatalogCache (K : Type 0) : Type 0 where
  pub ttl : ℕ
  pub entries_cap : ℕ
  pub bytes_cap : ℕ
  pub entry_bytes_cap : ℕ
  pub bodies : List (K × CachedBody)
  pub body_bytes : ℕ
  pub fence : ℕ

abbrev pub body_size : CachedBody → ℕ
body_size b = length b.0

-- `_evict_over_budget`, on the entries and their bytes: the oldest go until both caps hold.
unfoldable pub evict_bodies :
    {K : Type 0} → ℕ → ℕ → List (K × CachedBody) → ℕ → List (K × CachedBody) × ℕ
evict_bodies most bytes [] total = ([], total)
evict_bodies most bytes (e ∷ d) total =
    let rest = evict_bodies most bytes d (total - body_size e.1) in
    if ltb most (length (e ∷ d)) || ltb bytes total then rest else (e ∷ d, total)

module _ {K : Type 0} (dec : Discrete K) where
  -- `_drop`.
  unfoldable pub drop_body : K → CatalogCache K → CatalogCache K
  unfolding lookup remove
  drop_body k c = elim (lookup dec k c.bodies) [
    | none ↦ c
    | some b ↦ record c { bodies = remove dec k c.bodies; body_bytes = c.body_bytes - body_size b }
  ]

  -- `_store`.
  unfoldable pub store : K → Text → ℕ → CatalogCache K → CatalogCache K
  unfolding drop_body evict_bodies
  store k body now c =
      let d = drop_body k c in
      let r =
        evict_bodies c.entries_cap c.bytes_cap (d.bodies ++ ((k, (body, now)) ∷ []))
          (d.body_bytes + length body) in
      record d { bodies = r.0; body_bytes = r.1 }

  -- `lookup`: a body that is past its time to live is dropped.
  unfoldable pub lookup_body : K → ℕ → CatalogCache K → Option Text × CatalogCache K
  unfolding lookup drop_body
  lookup_body k now c = if c.ttl == 0 then (none, c) else elim (lookup dec k c.bodies) [
    | none ↦ (none, c)
    | some b ↦ if leb c.ttl (now - b.1) then (none, drop_body k c) else (some b.0, c)
  ]

module _ {K : Type 0} (dec : Discrete K) (is_json_list : Text → Bool) where
  -- The end of `_fetch_and_store`, for the generation that was captured before the fetch.
  unfoldable pub fetched_body : ℕ → K → Option Text → ℕ → CatalogCache K → CatalogCache K
  unfolding store
  fetched_body captured k none now c = c
  fetched_body captured k (some body) now c =
      if ltb c.entry_bytes_cap (length body) || not (is_json_list body) || not (captured == c.fence)
      then c
      else store dec k body now c

-- `invalidate`.
abbrev pub invalidate : {K : Type 0} → CatalogCache K → CatalogCache K
invalidate c = record c { bodies = []; body_bytes = 0; fence = c.fence + 1 }

-- `shutdown`, on the entries.
abbrev pub clear_bodies : {K : Type 0} → CatalogCache K → CatalogCache K
clear_bodies c = record c { bodies = []; body_bytes = 0 }

-- What happens to the cache; a fetch ends with the generation that it captured, and
-- a disabled cache takes no part in it.
pub data CatalogEvent (K : Type 0) : Type 0 where
  looks_up : K → ℕ → CatalogEvent K
  ends : ℕ → K → Option Text → ℕ → CatalogEvent K
  invalidates closes : CatalogEvent K

module _ {K : Type 0} (dec : Discrete K) (is_json_list : Text → Bool) where
  unfoldable pub catalog_event : CatalogEvent K → CatalogCache K → CatalogCache K
  unfolding lookup_body fetched_body
  catalog_event (looks_up k now) c = (lookup_body dec k now c).1
  catalog_event (ends captured k body now) c =
      if c.ttl == 0 then c else fetched_body dec is_json_list captured k body now c
  catalog_event invalidates c = invalidate c
  catalog_event closes c = clear_bodies c

  unfoldable pub catalog_run : List (CatalogEvent K) → CatalogCache K → CatalogCache K
  unfolding catalog_event
  catalog_run [] c = c
  catalog_run (e ∷ es) c = catalog_run es (catalog_event e c)
