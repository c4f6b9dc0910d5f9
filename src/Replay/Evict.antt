-- ===== src/Replay/Evict.antt =====
-- sse/replay_log.py: the eviction loops of `ReplayLog`, which only ever drop the head of a window.
use oc_slimapi.Prelude.{
  ℕ, zero, suc, ◌-◌, Bool, true, false, Option, none, some, List, [], ◌∷◌, lookup, Text, text_dec,
  ltb, if◌then◌else◌, length,
}
use oc_slimapi.Prelude.Dict.{assign}
use oc_slimapi.Replay.Types.{ReplayEntry, DomainState, ReplayLog, frame_count}

-- A domain and the byte total of the log, with the number of frames dropped so far.
pub record Shed (P : Type 0) : Type 0 where
  pub state : DomainState P
  pub total : ℕ
  pub evicted : ℕ

module _ {P : Type 0} where
  -- `_drop_head`, where the head is `e` and `es` is what follows it.
  abbrev pub drop_head : ReplayEntry P → List (ReplayEntry P) → DomainState P → DomainState P
  drop_head e es s = record s { entries = es; bytes = s.bytes - e.size }

  -- `while state.entries and test: _drop_head(state)`, on the entries of the state.
  unfoldable pub shed_while : (List (ReplayEntry P) → Bool) → List (ReplayEntry P) → Shed P → Shed P
  shed_while test [] a = a
  shed_while test (e ∷ es) a =
      let rest = shed_while test es (record {
        state = drop_head e es a.state;
        total = a.total - e.size;
        evicted = suc a.evicted;
      }) in
      if test (e ∷ es) then rest else a

  abbrev pub shed : (List (ReplayEntry P) → Bool) → DomainState P → ℕ → Shed P
  shed test s total = shed_while test s.entries (record { state = s; total = total; evicted = 0 })

  -- `now - state.entries[0].appended_at > self.ttl_s`; the clock is monotonic.
  abbrev pub expired : ℕ → ℕ → List (ReplayEntry P) → Bool
  expired ttl now [] = false
  expired ttl now (e ∷ _) = ltb ttl (now - e.appended_at)

  -- `_ttl_evict_head`.
  abbrev pub ttl_evict_head : ℕ → ℕ → DomainState P → ℕ → Shed P
  ttl_evict_head ttl now = shed (expired ttl now)

  -- `_evict_for_count`.
  abbrev pub evict_for_count : ℕ → DomainState P → ℕ → Shed P
  evict_for_count max_count = shed (λ es. ltb max_count (length es))

  -- One round of the scan for the victim: the domain whose head has the smallest order so far.
  unfoldable pub better : Option (Text × ℕ) → Text → List (ReplayEntry P) → Option (Text × ℕ)
  better best k [] = best
  better none k (e ∷ _) = some (k, e.order)
  better (some b) k (e ∷ _) = if ltb e.order b.1 then some (k, e.order) else some b

  unfoldable pub victim : Option (Text × ℕ) → List (Text × DomainState P) → Option (Text × ℕ)
  unfolding better
  victim best [] = best
  victim best (d ∷ ds) = victim (better best d.0 d.1.entries) ds

  -- `_drop_head` on the domain of a key; a domain that is not there or is empty has no head.
  unfoldable pub drop_head_of :
      Text → List (Text × DomainState P) → ℕ → List (Text × DomainState P) × ℕ
  unfolding text_dec assign lookup
  drop_head_of k ds total = elim (lookup text_dec k ds) [
    | none ↦ (ds, total)
    | some s ↦ elim s.entries [
      | [] ↦ (ds, total)
      | e ∷ es ↦ (assign text_dec k (drop_head e es s) ds, total - e.size)
    ]
  ]

  -- The loop of `_evict_for_bytes`; the first argument is its counter `frames`.
  unfoldable pub byte_loop :
      ℕ → ℕ → List (Text × DomainState P) → ℕ → List (Text × DomainState P) × ℕ
  unfolding victim drop_head_of
  byte_loop zero max_bytes ds total = (ds, total)
  byte_loop (suc zero) max_bytes ds total = (ds, total)
  byte_loop (suc (suc frames)) max_bytes ds total = elim (ltb max_bytes total) [
    | false ↦ (ds, total)
    | true ↦ elim (victim none ds) [
      | none ↦ (ds, total)
      | some v ↦
          let (ds', total') = drop_head_of v.0 ds total in
          byte_loop (suc frames) max_bytes ds' total'
    ]
  ]

  -- `_evict_for_bytes`.
  unfoldable pub evict_for_bytes : ReplayLog P → ReplayLog P
  unfolding byte_loop
  evict_for_bytes log =
      let (ds, total) =
        byte_loop (frame_count log.domains) log.max_bytes log.domains log.total_bytes in
      record log { domains = ds; total_bytes = total }
