-- ===== src/Replay/Evolve.antt =====
-- The operations of `ReplayLog` (sse/replay_log.py) other than `append`: each moves every domain.
use mathlib.Core.Path.{sym, subst}
use oc_slimapi.Prelude.{
  ℕ, ◌+◌, ◌≡◌, Bool, true, Option, none, some, List, [], ◌∷◌, arith, Text, text_dec, lookup,
  if_both, Option_both, Dec_both, ltb, ◌==◌, ◌&&◌, ite,
}
use oc_slimapi.Prelude.Dict.{assign}
use oc_slimapi.Replay.Types.{DomainState, ReplayLog, Result, ReplayOutcome, new_domain}
use oc_slimapi.Replay.Evict.{expired}
use oc_slimapi.Replay.Write.{
  domain_or_new, reserve_seq, rollback_seq, barrier_all, write_barrier, mark_invalidated,
  recycle_domain, sweep_domain, sweep_all, sweep, raise_barrier,
}
use oc_slimapi.Replay.Read.{replay, first_connect_invalidated}
use oc_slimapi.Replay.Moves.{
  Settled, Move, Moves, Moves-once, shed-Moves, Evolved, assign-Evolved, state_in_found,
}
use oc_slimapi.Replay.Steps.{unmoved}

module _ {P : Type 0} where
  abbrev or_new : Option (DomainState P) → DomainState P
  or_new o = elim o [ none ↦ new_domain | some s ↦ s ]

  by_key :
      {k j : Text} (d : Dec (k ≡ j)) (s s' : DomainState P) (o o' : Option (DomainState P))
      → Moves s s'
      → Moves (or_new o) (or_new o')
      → Moves (or_new (ite d (some s) o)) (or_new (ite d (some s') o'))
  by_key (yes p) s s' o o' m n = m
  by_key (no p) s s' o o' m n = n

  cons-Evolved :
      (j : Text) (s s' : DomainState P) (ds ds' : List (Text × DomainState P))
      → Moves s s'
      → Evolved ds ds'
      → Evolved ((j, s) ∷ ds) ((j, s') ∷ ds')
  unfolding lookup
  cons-Evolved j s s' ds ds' m e k =
      by_key (text_dec k j) s s' (lookup text_dec k ds) (lookup text_dec k ds') m (e k)

  barrier_all-Evolved : (ds : List (Text × DomainState P)) → Evolved ds (barrier_all ds)
  unfolding barrier_all
  barrier_all-Evolved [] = unmoved []
  barrier_all-Evolved (d ∷ ds) =
      cons-Evolved d.0 d.1 (raise_barrier d.1) ds (barrier_all ds) (Moves-once Move.barrier)
        (barrier_all-Evolved ds)

  sweep_domain-Moves :
      (ttl now : ℕ) (s : DomainState P) (total : ℕ) → Moves s (sweep_domain ttl now s total).state
  unfolding sweep_domain
  sweep_domain-Moves ttl now s total =
      Moves.move (shed-Moves (expired ttl now) s total) Move.collect

  sweep_all-Evolved :
      (ttl now : ℕ) (ds : List (Text × DomainState P)) (total : ℕ)
      → Evolved ds (sweep_all ttl now ds total).0
  unfolding sweep_all
  sweep_all-Evolved ttl now [] total = unmoved []
  sweep_all-Evolved ttl now (d ∷ ds) total =
      let a = sweep_domain ttl now d.1 total in
      cons-Evolved d.0 d.1 a.state ds (sweep_all ttl now ds a.total).0
        (sweep_domain-Moves ttl now d.1 total) (sweep_all-Evolved ttl now ds a.total)

  -- A domain that is there is replaced by a moved one.
  found-Evolved :
      (k : Text) (ds : List (Text × DomainState P)) (s s' : DomainState P)
      → lookup text_dec k ds ≡ some s
      → Moves s s'
      → Evolved ds (assign text_dec k s' ds)
  found-Evolved k ds s s' found m =
      assign-Evolved k s' ds (subst (λ t. Moves t s') (sym (state_in_found k ds found)) m)

  abbrev pub Grows : ReplayLog P → ReplayLog P → Type 0
  Grows log log' = Evolved log.domains log'.domains

  pub reserve_seq-Evolved :
      (log : ReplayLog P) (k : Text)
      → Settled (domain_or_new k log)
      → Grows log (reserve_seq log k).0
  unfolding reserve_seq
  reserve_seq-Evolved log [] q = unmoved log.domains
  reserve_seq-Evolved log (c ∷ cs) q =
      if_both (λ (r : ReplayLog P × Result ℕ). Grows log r.0) log.closed _ _
        (λ _. unmoved log.domains)
        (λ _. assign-Evolved (c ∷ cs) _ log.domains (Moves-once (Move.reserve q)))

  pub rollback_seq-Evolved :
      (log : ReplayLog P) (k : Text) (seq : ℕ) → Grows log (rollback_seq log k seq).0
  unfolding rollback_seq
  rollback_seq-Evolved log k seq =
      Option_both (λ (r : ReplayLog P × Bool). Grows log r.0) (lookup text_dec k log.domains) _ _
        (λ _. unmoved log.domains)
        (λ s found.
          if_both (λ (r : ReplayLog P × Bool). Grows log r.0)
            (s.next_seq == seq + 1 && ltb s.last_seq seq) _ _
            (λ t.
              found-Evolved k log.domains s _ found
                (Moves-once (Move.rollback seq (ground arith) (ground arith))))
            (λ _. unmoved log.domains))

  pub write_barrier-Evolved :
      (log : ReplayLog P) (k : Option Text) → Grows log (write_barrier log k)
  unfolding write_barrier
  write_barrier-Evolved log none = barrier_all-Evolved log.domains
  write_barrier-Evolved log (some k) =
      Option_both (Grows log) (lookup text_dec k log.domains) _ _ (λ _. unmoved log.domains)
        (λ s found. found-Evolved k log.domains s _ found (Moves-once Move.barrier))

  pub mark_invalidated-Evolved :
      (log : ReplayLog P) (k : Text) → Grows log (mark_invalidated log k).0
  unfolding mark_invalidated
  mark_invalidated-Evolved log [] = unmoved log.domains
  mark_invalidated-Evolved log (c ∷ cs) =
      assign-Evolved (c ∷ cs) _ log.domains (Moves-once Move.mark)

  pub recycle_domain-Evolved : (log : ReplayLog P) (k : Text) → Grows log (recycle_domain log k).0
  unfolding recycle_domain
  recycle_domain-Evolved log k =
      Option_both (λ (r : ReplayLog P × Bool). Grows log r.0) (lookup text_dec k log.domains) _ _
        (λ _. unmoved log.domains)
        (λ s found.
          found-Evolved k log.domains s _ found (shed-Moves (λ _. true) s log.total_bytes))

  pub sweep-Evolved : (log : ReplayLog P) (now : ℕ) → Grows log (sweep log now).0
  unfolding sweep
  sweep-Evolved log now = sweep_all-Evolved log.ttl_s now log.domains log.total_bytes

  pub replay-Evolved :
      (now : ℕ) (log : ReplayLog P) (k : Text) (after : ℕ) (epoch : Option Text)
      → Grows log (replay now log k after epoch).0
  unfolding replay
  replay-Evolved now log k after none = unmoved log.domains
  replay-Evolved now log k after (some epoch) =
      let Q = λ (r : ReplayLog P × ReplayOutcome P). Grows log r.0 in
      Dec_both Q (text_dec epoch log.epoch) _ _ (λ _. unmoved log.domains)
        (λ _.
          Option_both Q (lookup text_dec k log.domains) _ _ (λ _. unmoved log.domains)
            (λ s found.
              found-Evolved k log.domains s _ found
                (shed-Moves (expired log.ttl_s now) s log.total_bytes)))

  pub first_connect_invalidated-Evolved :
      (log : ReplayLog P) (k : Text) → Grows log (first_connect_invalidated log k).0
  unfolding first_connect_invalidated
  first_connect_invalidated-Evolved log k =
      let Q = λ (r : ReplayLog P × Bool). Grows log r.0 in
      Option_both Q (lookup text_dec k log.domains) _ _ (λ _. unmoved log.domains)
        (λ s found.
          if_both Q s.invalidated _ _ (λ _. unmoved log.domains) (λ _. unmoved log.domains))
