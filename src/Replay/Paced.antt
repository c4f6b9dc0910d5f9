-- ===== src/Replay/Paced.antt =====
-- What the moves of a domain keep (sse/replay_log.py): a window with no hole, a barrier that no cursor
-- gets across, counters that never fall and the sticky invalidation flag.
use mathlib.Core.Path.{subst}
use oc_slimapi.Prelude.{
  ℕ, ◌+◌, ◌≤◌, ◌<◌, ◌≡◌, refl, true, Option, none, some, List, [], ◌∷◌, arith, ◌⊎◌, inl, inr,
  length, length-append, ltb, if_both, Option_both, Bool-cases,
}
use oc_slimapi.Replay.Types.{ReplayEntry, DomainState, new_domain}
use oc_slimapi.Replay.Write.{choose_seq, raise_barrier, collect_barrier}
use oc_slimapi.Replay.Window.{Run, Run-append}
use oc_slimapi.Replay.Moves.{Move, Permitted}

-- The barrier intercepts every cursor up to `w`.
abbrev pub Covers : Option ℕ → ℕ → Type 0
Covers none w = ⊥
Covers (some b) w = w ≤ b

module _ {P : Type 0} where
  -- The retained seqs are consecutive up to the last published one, and at most one reservation is
  -- outstanding.
  pub record Paced (s : DomainState P) : Type 0 where
    pub run : Run s.entries s.last_seq
    pub low : s.last_seq + 1 ≤ s.next_seq
    pub high : s.next_seq ≤ s.last_seq + 2

  pub new_domain-Paced : Paced (new_domain {P = P})
  new_domain-Paced = record { run = tt; low = omega arith; high = omega arith }

  -- Under the contract a pushed frame has the very next seq.
  choose_seq-next :
      (s : DomainState P) (seq : Option ℕ) (n next : ℕ)
      → Permitted s seq
      → Paced s
      → choose_seq s seq ≡ some (n, next)
      → (n ≡ s.last_seq + 1) × (n + 1 ≤ next) × (next ≤ n + 2)
  unfolding choose_seq
  choose_seq-next s none n next may p e = ground arith
  choose_seq-next s (some q) n next may p e = ground arith

  raise_barrier-same :
      (s : DomainState P)
      → ((raise_barrier s).entries ≡ s.entries)
        × ((raise_barrier s).last_seq ≡ s.last_seq)
        × ((raise_barrier s).next_seq ≡ s.next_seq)
        × ((raise_barrier s).invalidated ≡ s.invalidated)
  raise_barrier-same s =
      Option_both
        (λ (t : DomainState P).
          (t.entries ≡ s.entries)
          × (t.last_seq ≡ s.last_seq)
          × (t.next_seq ≡ s.next_seq)
          × (t.invalidated ≡ s.invalidated))
        s.barrier_watermark _ _ (λ _. (refl, refl, refl, refl))
        (λ w e.
          if_both
            (λ (t : DomainState P).
              (t.entries ≡ s.entries)
              × (t.last_seq ≡ s.last_seq)
              × (t.next_seq ≡ s.next_seq)
              × (t.invalidated ≡ s.invalidated))
            (ltb w s.last_seq) _ _ (λ _. (refl, refl, refl, refl)) (λ _. (refl, refl, refl, refl)))

  Run-tail :
      (s : DomainState P) (e : ReplayEntry P) (es : List (ReplayEntry P))
      → s.entries ≡ e ∷ es
      → Run s.entries s.last_seq
      → (e.seq + length es ≡ s.last_seq) × Run es s.last_seq
  Run-tail s e es q r = rw q at r

  pub Move-Paced : (s t : DomainState P) → Move s t → Paced s → Paced t
  Move-Paced s _ (Move.drop e es q) p = record {
    run = (Run-tail s e es q p.run).1;
    low = p.low;
    high = p.high;
  }
  Move-Paced s _ (Move.push e seq next may chosen) p =
      let (n, low, high) = choose_seq-next s seq e.seq next may p chosen in
      record { run = Run-append s.last_seq s.entries e n p.run; low = low; high = high }
  Move-Paced s _ (Move.reserve q) p = record {
    run = p.run;
    low = omega (arith, p.low);
    high = omega arith;
  }
  Move-Paced s _ (Move.rollback seq q l) p = record {
    run = p.run;
    low = omega arith;
    high = omega (arith, p.high);
  }
  Move-Paced s _ Move.barrier p =
      let (e, l, n, f) = raise_barrier-same s in
      record { run = rw (e, l) p.run; low = omega (arith, p.low); high = omega (arith, p.high) }
  Move-Paced s _ Move.collect p = record { run = p.run; low = p.low; high = p.high }
  Move-Paced s _ Move.mark p = record { run = p.run; low = p.low; high = p.high }

  -- A cursor at or below `w` is intercepted by the barrier, or its next frame is gone.
  pub record Blocked (w : ℕ) (s : DomainState P) : Type 0 where
    pub paced : Paced s
    pub shut : Covers s.barrier_watermark w ⊎ (w + length s.entries < s.last_seq)

  raise_barrier-Covers :
      (w : ℕ) (s : DomainState P)
      → Covers s.barrier_watermark w
      → Covers (raise_barrier s).barrier_watermark w
  raise_barrier-Covers w s c =
      Option_both (λ (t : DomainState P). Covers t.barrier_watermark w) s.barrier_watermark _ _
        (λ e. absurd (subst (λ o. Covers o w) e c))
        (λ b e.
          let le : w ≤ b = subst (λ o. Covers o w) e c in
          if_both (λ (t : DomainState P). Covers t.barrier_watermark w) (ltb b s.last_seq) _ _
            (λ t. ground arith) (λ _. c))

  collect_barrier-shut :
      (w last : ℕ) (es : List (ReplayEntry P)) (o : Option ℕ)
      → Run es last
      → Covers o w
      → Covers (collect_barrier es o) w ⊎ (w + length es < last)
  unfolding collect_barrier
  collect_barrier-shut w last [] o r c = inl c
  collect_barrier-shut w last (e ∷ es) none r c = absurd c
  collect_barrier-shut w last (e ∷ es) (some b) r c = elim (Bool-cases (ltb (b + 1) e.seq)) [
    | inl t ↦ inr (ground arith)
    | inr t ↦ rw t (inl c)
  ]

  covered_after :
      (w : ℕ) (s t : DomainState P)
      → Move s t
      → Paced s
      → Covers s.barrier_watermark w
      → Covers t.barrier_watermark w ⊎ (w + length t.entries < t.last_seq)
  covered_after w s _ (Move.drop e es q) p c = inl c
  covered_after w s _ (Move.push e seq next may chosen) p c = inl c
  covered_after w s _ (Move.reserve q) p c = inl c
  covered_after w s _ (Move.rollback seq q l) p c = inl c
  covered_after w s _ Move.barrier p c = inl (raise_barrier-Covers w s c)
  covered_after w s _ Move.collect p c =
      collect_barrier-shut w s.last_seq s.entries s.barrier_watermark p.run c
  covered_after w s _ Move.mark p c = inl c

  passed_after :
      (w : ℕ) (s t : DomainState P)
      → Move s t
      → Paced s
      → w + length s.entries < s.last_seq
      → w + length t.entries < t.last_seq
  passed_after w s _ (Move.drop e es q) p l = let l' = rw q at l in omega arith
  passed_after w s _ (Move.push e seq next may chosen) p l =
      let (n, _, _) = choose_seq-next s seq e.seq next may p chosen in
      omega (arith, length-append s.entries (e ∷ []))
  passed_after w s _ (Move.reserve q) p l = l
  passed_after w s _ (Move.rollback seq q k) p l = l
  passed_after w s _ Move.barrier p l = let (e, k, n, f) = raise_barrier-same s in rw (e, k) l
  passed_after w s _ Move.collect p l = l
  passed_after w s _ Move.mark p l = l

  pub Move-Blocked : (w : ℕ) (s t : DomainState P) → Move s t → Blocked w s → Blocked w t
  Move-Blocked w s t m b = record {
    paced = Move-Paced s t m b.paced;
    shut = elim b.shut [
      | inl c ↦ covered_after w s t m b.paced c
      | inr l ↦ inr (passed_after w s t m b.paced l)
    ];
  }

  -- The flag of an un-signalled invalidation is sticky.
  pub Move-invalidated :
      (s t : DomainState P) → Move s t → s.invalidated ≡ true → t.invalidated ≡ true
  Move-invalidated s _ (Move.drop e es q) f = f
  Move-invalidated s _ (Move.push e seq next may chosen) f = f
  Move-invalidated s _ (Move.reserve q) f = f
  Move-invalidated s _ (Move.rollback seq q k) f = f
  Move-invalidated s _ Move.barrier f = let (e, l, n, g) = raise_barrier-same s in rw g f
  Move-invalidated s _ Move.collect f = f
  Move-invalidated s _ Move.mark f = refl

  -- The last published seq never falls.
  pub record Reached (n : ℕ) (s : DomainState P) : Type 0 where
    pub paced : Paced s
    pub at_least : n ≤ s.last_seq

  pub Move-Reached : (n : ℕ) (s t : DomainState P) → Move s t → Reached n s → Reached n t
  Move-Reached n s t m r = record {
    paced = Move-Paced s t m r.paced;
    at_least = risen t m r.at_least;
  }
    where
      risen : (t : DomainState P) → Move s t → n ≤ s.last_seq → n ≤ t.last_seq
      risen _ (Move.drop e es q) h = h
      risen _ (Move.push e seq next may chosen) h =
          let (k, _, _) = choose_seq-next s seq e.seq next may r.paced chosen in omega arith
      risen _ (Move.reserve q) h = h
      risen _ (Move.rollback seq q k) h = h
      risen _ Move.barrier h = let (e, l, k, f) = raise_barrier-same s in omega arith
      risen _ Move.collect h = h
      risen _ Move.mark h = h
