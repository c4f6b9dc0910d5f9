-- ===== src/Replay/Maintain.antt =====
-- The invariant under the other operations of `ReplayLog` (sse/replay_log.py).
use mathlib.Core.Path.{subst}
use oc_slimapi.Prelude.{
  ℕ, ◌+◌, ◌≤◌, ◌≡◌, refl, ◌∙◌, sym, ap, Bool, true, Option, none, some, List, [], ◌∷◌, arith, inl,
  inr, ◌&&◌, Text, text_dec, lookup, if_both, Option_both, ltb, ◌==◌, length, All, sum_by,
}
use oc_slimapi.Prelude.Dict.Keys.{keys, Distinct-keys}
use oc_slimapi.Prelude.Dict.Laws.{All-lookup}
use oc_slimapi.Replay.Types.{ReplayEntry, DomainState, ReplayLog, Result, frame_count}
use oc_slimapi.Replay.Evict.{shed}
use oc_slimapi.Replay.Write.{
  state_in, domain_or_new, put_domain, reserve_seq, rollback_seq, raise_barrier, barrier_all,
  write_barrier, mark_invalidated, recycle_domain, close,
}
use oc_slimapi.Replay.Invariant.{DomainOk, LogOk}
use oc_slimapi.Replay.Settle.{settle, domain_or_new-DomainOk, shed-LogOk}

module _ {P : Type 0} where
  -- A stored domain is the one at hand.
  pub domain_or_new_found :
      (k : Text) (log : ReplayLog P) {s : DomainState P}
      → lookup text_dec k log.domains ≡ some s
      → domain_or_new k log ≡ s
  domain_or_new_found k log found = rw (found, state_in)

  -- A change of the metadata alone.
  retouch :
      (k : Text) (log : ReplayLog P) (s : DomainState P)
      → LogOk log
      → DomainOk log.max_count log.order s
      → s.bytes ≡ (domain_or_new k log).bytes
      → length s.entries ≡ length (domain_or_new k log).entries
      → LogOk (put_domain k s log)
  retouch k log s h d b l =
      settle k log s log.total_bytes h d (omega arith) (omega arith) (omega arith)

  pub reserve_seq-LogOk : (log : ReplayLog P) (k : Text) → LogOk log → LogOk (reserve_seq log k).0
  unfolding reserve_seq
  reserve_seq-LogOk log [] h = h
  reserve_seq-LogOk log (c ∷ cs) h =
      let d = domain_or_new-DomainOk (c ∷ cs) log h in
      if_both (λ (r : ReplayLog P × Result ℕ). LogOk r.0) log.closed _ _ (λ _. h)
        (λ _.
          retouch (c ∷ cs) log _ h
            (record {
              rising = d.rising;
              fresh = omega (arith, d.fresh);
              sized = d.sized;
              ordered = d.ordered;
              capped = d.capped;
              barred = d.barred;
            })
            refl refl)

  -- A change of the metadata of a domain that is there.
  retouch_found :
      (k : Text) (log : ReplayLog P) (old s : DomainState P)
      → LogOk log
      → lookup text_dec k log.domains ≡ some old
      → DomainOk log.max_count log.order s
      → s.bytes ≡ old.bytes
      → length s.entries ≡ length old.entries
      → LogOk (put_domain k s log)
  retouch_found k log old s h found d b l =
      let same = sym (domain_or_new_found k log found) in
      retouch k log s h d (b ∙ ap (λ (t : DomainState P). t.bytes) same)
        (l ∙ ap (λ (t : DomainState P). length t.entries) same)

  found-DomainOk :
      (k : Text) (log : ReplayLog P) {s : DomainState P}
      → LogOk log
      → lookup text_dec k log.domains ≡ some s
      → DomainOk log.max_count log.order s
  found-DomainOk k log h found =
      All-lookup text_dec (DomainOk log.max_count log.order) k log.domains h.stored.each found

  pub rollback_seq-LogOk :
      (log : ReplayLog P) (k : Text) (seq : ℕ) → LogOk log → LogOk (rollback_seq log k seq).0
  unfolding rollback_seq
  rollback_seq-LogOk log k seq h =
      Option_both (λ (r : ReplayLog P × Bool). LogOk r.0) (lookup text_dec k log.domains) _ _
        (λ _. h)
        (λ s found.
          let d = found-DomainOk k log h found in
          if_both (λ (r : ReplayLog P × Bool). LogOk r.0)
            (s.next_seq == seq + 1 && ltb s.last_seq seq) _ _
            (λ t.
              retouch_found k log s _ h found
                (record {
                  rising = d.rising;
                  fresh = ground arith;
                  sized = d.sized;
                  ordered = d.ordered;
                  capped = d.capped;
                  barred = d.barred;
                })
                refl refl)
            (λ _. h))

  raise_barrier-DomainOk :
      {m o : ℕ} (s : DomainState P) → DomainOk m o s → DomainOk m o (raise_barrier s)
  raise_barrier-DomainOk {m} {o} s d =
      Option_both (DomainOk m o) s.barrier_watermark _ _ (λ _. raised (omega arith))
        (λ w e. if_both (DomainOk m o) (ltb w s.last_seq) _ _ (λ _. raised (omega arith)) (λ _. d))
    where
      raised :
          s.last_seq ≤ s.last_seq → DomainOk m o (record s { barrier_watermark = some s.last_seq })
      raised b = record {
        rising = d.rising;
        fresh = d.fresh;
        sized = d.sized;
        ordered = d.ordered;
        capped = d.capped;
        barred = b;
      }

  -- A barrier leaves the window alone.
  raise_barrier-entries :
      (s : DomainState P)
      → ((raise_barrier s).entries ≡ s.entries) × ((raise_barrier s).bytes ≡ s.bytes)
  raise_barrier-entries s =
      Option_both (λ (t : DomainState P). (t.entries ≡ s.entries) × (t.bytes ≡ s.bytes))
        s.barrier_watermark _ _ (λ _. (refl, refl))
        (λ w e.
          if_both (λ (t : DomainState P). (t.entries ≡ s.entries) × (t.bytes ≡ s.bytes))
            (ltb w s.last_seq) _ _ (λ _. (refl, refl)) (λ _. (refl, refl)))

  barrier_all-each :
      (m o : ℕ) (ds : List (Text × DomainState P))
      → All (λ d. DomainOk m o d.1) ds
      → All (λ d. DomainOk m o d.1) (barrier_all ds)
  unfolding barrier_all
  barrier_all-each m o [] h = tt
  barrier_all-each m o (d ∷ ds) h = (raise_barrier-DomainOk d.1 h.0, barrier_all-each m o ds h.1)

  barrier_all-same :
      (ds : List (Text × DomainState P))
      → (keys ds ≡ keys (barrier_all ds))
        × (sum_by (λ d. d.1.bytes) (barrier_all ds) ≡ sum_by (λ d. d.1.bytes) ds)
        × (frame_count (barrier_all ds) ≡ frame_count ds)
  unfolding barrier_all
  barrier_all-same [] = (refl, refl, refl)
  barrier_all-same (d ∷ ds) =
      let (k, b, f) = barrier_all-same ds in
      let (e, b') = raise_barrier-entries d.1 in
      let l = ap (λ (xs : List (ReplayEntry P)). length xs) e in
      (ap (◌∷◌ d.0) k, omega arith, omega arith)

  pub write_barrier-LogOk :
      (log : ReplayLog P) (k : Option Text) → LogOk log → LogOk (write_barrier log k)
  unfolding write_barrier
  write_barrier-LogOk log none h =
      let (k, b, f) = barrier_all-same log.domains in
      record {
        positive = h.positive;
        stored = record {
          each = barrier_all-each log.max_count log.order log.domains h.stored.each;
          sums = h.stored.sums ∙ sym b;
          distinct =
              Distinct-keys text_dec log.domains (barrier_all log.domains) k h.stored.distinct;
        };
        budget = elim h.budget [ inl le ↦ inl le | inr le ↦ inr (omega arith) ];
      }
  write_barrier-LogOk log (some k) h =
      Option_both LogOk (lookup text_dec k log.domains) _ _ (λ _. h)
        (λ s found.
          let (e, b) = raise_barrier-entries s in
          retouch_found k log s _ h found (raise_barrier-DomainOk s (found-DomainOk k log h found))
            b (ap (λ (xs : List (ReplayEntry P)). length xs) e))

  pub mark_invalidated-LogOk :
      (log : ReplayLog P) (k : Text) → LogOk log → LogOk (mark_invalidated log k).0
  unfolding mark_invalidated
  mark_invalidated-LogOk log [] h = h
  mark_invalidated-LogOk log (c ∷ cs) h =
      let d = domain_or_new-DomainOk (c ∷ cs) log h in
      retouch (c ∷ cs) log _ h
        (record {
          rising = d.rising;
          fresh = d.fresh;
          sized = d.sized;
          ordered = d.ordered;
          capped = d.capped;
          barred = d.barred;
        })
        refl refl

  pub recycle_domain-LogOk :
      (log : ReplayLog P) (k : Text) → LogOk log → LogOk (recycle_domain log k).0
  unfolding recycle_domain
  recycle_domain-LogOk log k h =
      Option_both (λ (r : ReplayLog P × Bool). LogOk r.0) (lookup text_dec k log.domains) _ _
        (λ _. h)
        (λ s found.
          subst
            (λ (t : DomainState P).
              let a = shed (λ _. true) t log.total_bytes in
              LogOk (put_domain k a.state (record log { total_bytes = a.total })))
            (domain_or_new_found k log found) (shed-LogOk (λ _. true) k log h))

  pub close-LogOk : (log : ReplayLog P) → LogOk log → LogOk (close log)
  unfolding close
  close-LogOk log h = record {
    positive = h.positive;
    stored = record { each = tt; sums = refl; distinct = tt };
    budget = inl (omega arith);
  }
