-- ===== src/Replay/Sweep.antt =====
-- `sweep` (sse/replay_log.py): the invariant, and the number of frames that it returns.
use oc_slimapi.Prelude.{
  ℕ, ◌+◌, ◌≤◌, ◌≡◌, refl, ap, Option, none, some, List, [], ◌∷◌, arith, inl, inr, Text, text_dec,
  length, All, sum_by, ltb, if_both,
}
use oc_slimapi.Prelude.Dict.Keys.{keys, Distinct-keys}
use oc_slimapi.Replay.Types.{ReplayEntry, DomainState, ReplayLog, frame_count}
use oc_slimapi.Replay.Evict.{Shed, ttl_evict_head, expired}
use oc_slimapi.Replay.Write.{collect_barrier, sweep_domain, sweep_all, sweep}
use oc_slimapi.Replay.Window.{shed-Sheds}
use oc_slimapi.Replay.Settle.{size_sum-Suffix}
use oc_slimapi.Replay.Invariant.{DomainOk, Barred, Sheds-DomainOk, LogOk}

module _ {P : Type 0} where
  collect_barrier-Barred :
      (es : List (ReplayEntry P)) (w : Option ℕ) (last : ℕ)
      → Barred w last
      → Barred (collect_barrier es w) last
  unfolding collect_barrier
  collect_barrier-Barred [] w last b = b
  collect_barrier-Barred (e ∷ es) none last b = tt
  collect_barrier-Barred (e ∷ es) (some w) last b =
      if_both (λ o. Barred o last) (ltb (w + 1) e.seq) none (some w) (λ _. tt) (λ _. b)

  record SweptDomain (m o : ℕ) (s : DomainState P) (total : ℕ) (a : Shed P) : Type 0 where
    ok : DomainOk m o a.state
    balanced : a.total + s.bytes ≡ total + a.state.bytes
    counted : a.evicted + length a.state.entries ≡ length s.entries
    shrinks : a.state.bytes ≤ s.bytes

  sweep_domain-Swept :
      (ttl now m o : ℕ) (s : DomainState P) (total : ℕ)
      → DomainOk m o s
      → s.bytes ≤ total
      → SweptDomain m o s total (sweep_domain ttl now s total)
  unfolding sweep_domain
  sweep_domain-Swept ttl now m o s total d le =
      let r = shed-Sheds (expired ttl now) s total d.sized le in
      let d' = Sheds-DomainOk d r in
      record {
        ok = record {
          rising = d'.rising;
          fresh = d'.fresh;
          sized = d'.sized;
          ordered = d'.ordered;
          capped = d'.capped;
          barred = collect_barrier-Barred _ _ _ d'.barred;
        };
        balanced = r.balanced;
        counted = omega (arith, r.counted);
        shrinks = omega (
          arith,
          r.sized,
          d.sized,
          size_sum-Suffix (ttl_evict_head ttl now s total).state.entries s.entries r.suffix,
        );
      }

  record Swept (m o : ℕ) (ds : List (Text × DomainState P)) (total : ℕ)
      (r : List (Text × DomainState P) × ℕ × ℕ) : Type 0 where
    each : All (λ d. DomainOk m o d.1) r.0
    same_keys : keys ds ≡ keys r.0
    balanced : r.1 + sum_by (λ d. d.1.bytes) ds ≡ total + sum_by (λ d. d.1.bytes) r.0
    counted : r.2 + frame_count r.0 ≡ frame_count ds
    shrinks : sum_by (λ d. d.1.bytes) r.0 ≤ sum_by (λ d. d.1.bytes) ds

  sweep_all-Swept :
      (ttl now m o : ℕ) (ds : List (Text × DomainState P)) (total : ℕ)
      → All (λ d. DomainOk m o d.1) ds
      → sum_by (λ d. d.1.bytes) ds ≤ total
      → Swept m o ds total (sweep_all ttl now ds total)
  unfolding sweep_all
  sweep_all-Swept ttl now m o [] total h le = record {
    each = tt;
    same_keys = refl;
    balanced = refl;
    counted = refl;
    shrinks = omega arith;
  }
  sweep_all-Swept ttl now m o (d ∷ ds) total h le =
      let a = sweep_domain-Swept ttl now m o d.1 total h.0 (omega arith) in
      let r =
        sweep_all-Swept ttl now m o ds (sweep_domain ttl now d.1 total).total h.1
          (omega (arith, a.balanced)) in
      record {
        each = (a.ok, r.each);
        same_keys = ap (◌∷◌ d.0) r.same_keys;
        balanced = omega (arith, a.balanced, r.balanced);
        counted = omega (arith, a.counted, r.counted);
        shrinks = omega (arith, a.shrinks, r.shrinks);
      }

  -- `sweep` keeps a well-formed log well formed.
  pub sweep-LogOk : (log : ReplayLog P) (now : ℕ) → LogOk log → LogOk (sweep log now).0
  unfolding sweep
  sweep-LogOk log now h =
      let r =
        sweep_all-Swept log.ttl_s now log.max_count log.order log.domains log.total_bytes
          h.stored.each (omega (arith, h.stored.sums)) in
      record {
        positive = h.positive;
        stored = record {
          each = r.each;
          sums = omega (arith, r.balanced, h.stored.sums);
          distinct = Distinct-keys text_dec log.domains _ r.same_keys h.stored.distinct;
        };
        budget = elim h.budget [
          | inl b ↦ inl (omega (arith, r.balanced, r.shrinks, h.stored.sums))
          | inr b ↦ inr (omega (arith, r.counted))
        ];
      }

  -- On a well-formed log, `sweep` returns the number of frames that it evicted.
  pub sweep-frame_count :
      (log : ReplayLog P) (now : ℕ)
      → LogOk log
      → let (log', evicted) = sweep log now in
        evicted + frame_count log'.domains ≡ frame_count log.domains
  unfolding sweep
  sweep-frame_count log now h =
      let r =
        sweep_all-Swept log.ttl_s now log.max_count log.order log.domains log.total_bytes
          h.stored.each (omega (arith, h.stored.sums)) in
      r.counted
