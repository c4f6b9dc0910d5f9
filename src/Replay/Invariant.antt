-- ===== src/Replay/Invariant.antt =====
-- The representation invariant of `ReplayLog` (sse/replay_log.py).
use oc_slimapi.Prelude.{
  ℕ, ◌+◌, ◌≤◌, ◌<◌, ◌≡◌, refl, Option, none, some, List, [], ◌∷◌, arith, length, All, ◌⊎◌, sum_by,
  Text, text_dec, lookup, All-map,
}
use oc_slimapi.Prelude.Dict.{assign, Distinct}
use oc_slimapi.Prelude.Dict.Keys.{assign-Distinct}
use oc_slimapi.Prelude.Dict.Laws.{weigh, sum_by-assign, All-assign}
use oc_slimapi.Replay.Types.{ReplayEntry, DomainState, new_domain, ReplayLog, size_sum, frame_count}
use oc_slimapi.Replay.Evict.{Shed}
use oc_slimapi.Replay.Window.{
  Rising, Ordered, Ordered-widen, Suffix, Suffix-Rising, Suffix-Ordered, Sheds,
}

-- A watermark is a seq that was published.
abbrev pub Barred : Option ℕ → ℕ → Type 0
Barred none last = Unit
Barred (some w) last = w ≤ last

module _ {P : Type 0} where
  pub record DomainOk (max_count order : ℕ) (s : DomainState P) : Type 0 where
    pub rising : Rising 0 s.entries s.last_seq
    pub fresh : s.last_seq < s.next_seq
    pub sized : s.bytes ≡ size_sum s.entries
    pub ordered : Ordered s.entries order
    pub capped : length s.entries ≤ max_count
    pub barred : Barred s.barrier_watermark s.last_seq

  -- The domains are well formed and the log's byte total is the sum of theirs.
  pub record Stored (max_count order : ℕ) (ds : List (Text × DomainState P)) (total : ℕ)
      : Type 0 where
    pub each : All (λ d. DomainOk max_count order d.1) ds
    pub sums : total ≡ sum_by (λ d. d.1.bytes) ds
    pub distinct : Distinct text_dec ds

  -- The process-wide byte bound, but for a single frame that is larger than it.
  abbrev pub WithinBudget : ℕ → List (Text × DomainState P) → ℕ → Type 0
  WithinBudget max_bytes ds total = (total ≤ max_bytes) ⊎ (frame_count ds ≤ 1)

  pub record LogOk (log : ReplayLog P) : Type 0 where
    pub positive : 0 < log.max_count
    pub stored : Stored log.max_count log.order log.domains log.total_bytes
    pub budget : WithinBudget log.max_bytes log.domains log.total_bytes

  pub new_domain-DomainOk : (m o : ℕ) → DomainOk m o (new_domain {P = P})
  new_domain-DomainOk m o = record {
    rising = omega arith;
    fresh = omega arith;
    sized = refl;
    ordered = tt;
    capped = omega arith;
    barred = tt;
  }

  pub length-Suffix : (es fs : List (ReplayEntry P)) → Suffix es fs → length es ≤ length fs
  length-Suffix es _ Suffix.here = omega arith
  length-Suffix es _ (Suffix.there {fs = fs} f s) = omega (arith, length-Suffix es fs s)

  -- An eviction loop keeps a domain well formed.
  pub Sheds-DomainOk :
      {m o total n : ℕ} {s : DomainState P} {a : Shed P}
      → DomainOk m o s
      → Sheds s total n a
      → DomainOk m o a.state
  Sheds-DomainOk {o = o} {s = s} {a = a} d h = record {
    rising =
        rw h.same_last (Suffix-Rising 0 s.last_seq a.state.entries s.entries h.suffix d.rising);
    fresh = omega (arith, d.fresh, h.same_last, h.same_next);
    sized = h.sized;
    ordered = Suffix-Ordered o a.state.entries s.entries h.suffix d.ordered;
    capped = omega (arith, d.capped, length-Suffix a.state.entries s.entries h.suffix);
    barred = rw (h.same_last, h.same_barrier) d.barred;
  }

  pub DomainOk-widen : {m o o' : ℕ} {s : DomainState P} → o ≤ o' → DomainOk m o s → DomainOk m o' s
  DomainOk-widen {o = o} {o' = o'} {s = s} h d = record {
    rising = d.rising;
    fresh = d.fresh;
    sized = d.sized;
    ordered = Ordered-widen o o' s.entries h d.ordered;
    capped = d.capped;
    barred = d.barred;
  }

  -- The bytes of one domain are no more than the log's total.
  pub bytes-le-total :
      (k : Text) (ds : List (Text × DomainState P)) {s : DomainState P}
      → lookup text_dec k ds ≡ some s
      → s.bytes ≤ sum_by (λ d. d.1.bytes) ds
  unfolding lookup
  bytes-le-total k [] e = cc
  bytes-le-total k (d ∷ ds) {s} e = ground (arith, bytes-le-total k ds {s = s})

  -- One domain is replaced: the old one's bytes leave the total and the new one's come in.
  pub assign-Stored :
      {m o o' : ℕ} (k : Text) (s : DomainState P) (ds : List (Text × DomainState P))
      (total total' : ℕ)
      → Stored m o ds total
      → o ≤ o'
      → DomainOk m o' s
      → total' + weigh (λ t. t.bytes) (lookup text_dec k ds) ≡ total + s.bytes
      → Stored m o' (assign text_dec k s ds) total'
  assign-Stored {m} {o} {o'} k s ds total total' h le d b = record {
    each = All-assign text_dec (DomainOk m o') k s ds d (
        All-map (λ x. DomainOk m o x.1) (λ x. DomainOk m o' x.1) (λ x y. DomainOk-widen le y) ds
          h.each);
    sums = omega (arith, h.sums, sum_by-assign text_dec (λ t. t.bytes) k s ds);
    distinct = assign-Distinct text_dec k s ds h.distinct;
  }
