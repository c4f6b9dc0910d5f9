-- ===== src/Replay/Barrier.antt =====
-- What a reconnecting client is told (sse/replay_log.py `replay` and `first_connect_invalidated`),
-- whatever happened to the log in between.
use mathlib.Core.Path.{subst, sym}
use native.Mathlib.Nat.{le_refl}
use oc_slimapi.Prelude.{
  if_pos, if_neg, ℕ, ◌+◌, ◌≤◌, ◌≡◌, refl, ◌∙◌, ap, Bool, true, false, Option, none, some, List, [],
  ◌∷◌, ◌≢◌, arith, inl, length, ltb, if_both, Option_both, Dec_both, Text, text_dec, lookup,
}
use oc_slimapi.Replay.Types.{
  ReplayEntry, DomainState, ReplayLog, ReplayOutcome, frames, resync, ResyncReason, epoch_changed,
  new_domain,
}
use oc_slimapi.Replay.Evict.{shed_while, ttl_evict_head, expired}
use oc_slimapi.Replay.Write.{
  state_in, domain_or_new, write_barrier, barrier_all, raise_barrier, mark_invalidated,
}
use oc_slimapi.Replay.Read.{
  classify, classify_absent, replay, first_connect_invalidated, last_seq, newer, classify_window,
}
use oc_slimapi.Replay.Window.{Run}
use oc_slimapi.Replay.Moves.{Move, Moves-keep, shed-Moves, state_in_found, state_in-assign}
use oc_slimapi.Replay.Reach.{Reach, Reach-keep}
use oc_slimapi.Replay.Paced.{
  Paced, Move-Paced, Covers, Blocked, Move-Blocked, Move-invalidated, Reached, Move-Reached,
}
use oc_slimapi.Replay.Classify.{owed, classify-owed, owed-Blocked, owed_frames}
use oc_slimapi.Replay.Published.{last_seq_or_new}
use oc_slimapi.Replay.Steps.{shed_while_seqs}

module _ {P : Type 0} where
  -- The domain of a cursor, its expired head dropped.
  abbrev pub seen : ℕ → ReplayLog P → Text → DomainState P
  seen now log k = (ttl_evict_head log.ttl_s now (domain_or_new k log) log.total_bytes).state

  -- A domain that was never created answers as a fresh one.
  classify_absent_lem :
      (after : ℕ) → (classify_absent {P = P} after).0 ≡ (classify after (new_domain {P = P})).0
  unfolding classify newer classify_window
  classify_absent_lem after = ground arith

  state_in_absent :
      (k : Text) (ds : List (Text × DomainState P))
      → lookup text_dec k ds ≡ none
      → state_in k ds ≡ new_domain
  state_in_absent k ds absent = rw (absent, state_in)

  replay-classify :
      (now : ℕ) (log : ReplayLog P) (k : Text) (after : ℕ)
      → (replay now log k after (some log.epoch)).1 ≡ (classify after (seen now log k)).0
  unfolding replay shed_while
  replay-classify now log k after =
      Dec_both (λ (r : ReplayLog P × ReplayOutcome P). r.1 ≡ (classify after (seen now log k)).0)
        (text_dec log.epoch log.epoch) _ _ (λ n. absurd (n refl))
        (λ _.
          Option_both
            (λ (r : ReplayLog P × ReplayOutcome P). r.1 ≡ (classify after (seen now log k)).0)
            (lookup text_dec k log.domains) _ _
            (λ absent.
              classify_absent_lem after ∙ ap at (sym (state_in_absent k log.domains absent)))
            (λ s found. ap at (sym (state_in_found k log.domains found))))
    where
      at : DomainState P → ReplayOutcome P
      at t = (classify after (ttl_evict_head log.ttl_s now t log.total_bytes).state).0

  seen-keep {κ} :
      (Q : DomainState P → Type κ)
      → ((s t : DomainState P) → Move s t → Q s → Q t)
      → (now : ℕ) (log : ReplayLog P) (k : Text) → Q (domain_or_new k log)
      → Q (seen now log k)
  seen-keep Q keep now log k q =
      Moves-keep Q keep _ _
        (shed-Moves (expired log.ttl_s now) (domain_or_new k log) log.total_bytes) q

  -- A cursor of this epoch, into a domain whose seqs are paced, is answered as it is owed: by the
  -- barrier, as a future cursor, with the frames after it, or as expired; never by `replay_gap`.
  pub replay-owed :
      (now : ℕ) (log : ReplayLog P) (k : Text) (after : ℕ)
      → Paced (domain_or_new k log)
      → (replay now log k after (some log.epoch)).1 ≡ owed after (seen now log k)
  replay-owed now log k after p =
      replay-classify now log k after
      ∙ classify-owed after (seen now log k) (seen-keep Paced Move-Paced now log k p)

  -- Whatever cursor is presented, of whatever epoch, a blocked domain answers with a resync.
  replay-Blocked :
      (now : ℕ) (log : ReplayLog P) (k : Text) (after w : ℕ) (epoch : Option Text)
      → Blocked w (domain_or_new k log)
      → after ≤ w
      → (reason : ResyncReason) × ((replay now log k after epoch).1 ≡ resync reason)
  replay-Blocked now log k after w none b le = (epoch_changed, unfold replay in refl)
  replay-Blocked now log k after w (some epoch) b le = elim (text_dec epoch log.epoch) [
    | yes p ↦
        let (reason, e) =
          owed-Blocked after w (seen now log k) (seen-keep (Blocked w) (Move-Blocked w) now log k b)
            le in
        (
          reason,
          ap (λ x. (replay now log k after (some x)).1) p ∙ replay-owed now log k after b.paced ∙ e,
        )
    | no n ↦ (epoch_changed, foreign n)
  ]
    where
      foreign : epoch ≢ log.epoch → (replay now log k after (some epoch)).1 ≡ resync epoch_changed
      foreign n =
          unfold replay in
          Dec_both (λ (r : ReplayLog P × ReplayOutcome P). r.1 ≡ resync epoch_changed)
            (text_dec epoch log.epoch) _ _ (λ _. refl) (λ p. absurd (n p))

  lookup-barrier_all :
      (k : Text) (ds : List (Text × DomainState P)) (s : DomainState P)
      → lookup text_dec k ds ≡ some s
      → lookup text_dec k (barrier_all ds) ≡ some (raise_barrier s)
  unfolding lookup barrier_all
  lookup-barrier_all k [] s h = cc
  lookup-barrier_all k (d ∷ ds) s h = elim (text_dec k d.0) [
    | yes p ↦
        let q : some d.1 ≡ some s = rw (if_pos _ p) at h in
        rw (if_pos _ p)
          (ap (λ (t : DomainState P). some (raise_barrier t)) {x = d.1} {y = s} (cc q))
    | no p ↦ rw (if_neg _ p) (lookup-barrier_all k ds s (rw (if_neg _ p) at h))
  ]

  raise_barrier-Covers : (s : DomainState P) → Covers (raise_barrier s).barrier_watermark s.last_seq
  raise_barrier-Covers s =
      Option_both (λ (t : DomainState P). Covers t.barrier_watermark s.last_seq) s.barrier_watermark
        _ _ (λ e. le_refl s.last_seq)
        (λ b e.
          if_both (λ (t : DomainState P). Covers t.barrier_watermark s.last_seq) (ltb b s.last_seq)
            _ _ (λ t. le_refl s.last_seq)
            (λ t. subst (λ o. Covers o s.last_seq) (sym e) (ground arith)))

  write_barrier-Blocked :
      (log : ReplayLog P) (k : Text) (s : DomainState P)
      → lookup text_dec k log.domains ≡ some s
      → Paced s
      → Blocked s.last_seq (domain_or_new k (write_barrier log none))
  unfolding write_barrier
  write_barrier-Blocked log k s found p =
      subst (Blocked s.last_seq)
        (sym
          (state_in_found k (barrier_all log.domains) (lookup-barrier_all k log.domains s found)))
        (record {
          paced = Move-Paced s (raise_barrier s) Move.barrier p;
          shut = inl (raise_barrier-Covers s);
        })

  -- For a domain that the log holds and whose seqs are paced: once the upstream-loss barrier is
  -- written, no cursor up to the last seq published before it is ever served frames. After any
  -- further steps of the log under the contract of `reserve_seq` (appends, evictions, sweeps,
  -- recycling, more barriers), a replay from such a cursor, at any time and of any epoch, is a
  -- resync.
  pub barrier_holds :
      (size_of : P → Option ℕ) (log log' : ReplayLog P) (k : Text) (s : DomainState P)
      (now after : ℕ) (epoch : Option Text)
      → lookup text_dec k log.domains ≡ some s
      → Paced s
      → Reach size_of (write_barrier log none) log'
      → after ≤ s.last_seq
      → (reason : ResyncReason) × ((replay now log' k after epoch).1 ≡ resync reason)
  barrier_holds size_of log log' k s now after epoch found p r le =
      replay-Blocked now log' k after s.last_seq epoch
        (Reach-keep (Blocked s.last_seq) (Move-Blocked s.last_seq) r k
          (write_barrier-Blocked log k s found p))
        le

  -- Frames that a replay of this epoch serves from a domain whose seqs are paced are consecutive,
  -- begin right after the cursor and end with the last published frame of the domain.
  pub replay_frames :
      (now : ℕ) (log : ReplayLog P) (k : Text) (after : ℕ) (es : List (ReplayEntry P))
      → Paced (domain_or_new k log)
      → (replay now log k after (some log.epoch)).1 ≡ frames es
      → Run es (last_seq log k) × (after + length es ≡ last_seq log k)
  replay_frames now log k after es p e =
      let (_, l) =
        shed_while_seqs (expired log.ttl_s now) (domain_or_new k log).entries
          (record { state = domain_or_new k log; total = log.total_bytes; evicted = 0 }) in
      subst (λ n. Run es n × (after + length es ≡ n)) (l ∙ sym (last_seq_or_new log k))
        (owed_frames after (seen now log k) es (seen-keep Paced Move-Paced now log k p)
          (sym (replay-owed now log k after p) ∙ e))

  -- A domain with a non-empty key that `mark_invalidated` flagged owes its signal to every later
  -- connect without a cursor, whatever steps the log makes in between under the contract of
  -- `reserve_seq`.
  pub invalidated_sticky :
      (size_of : P → Option ℕ) (log log' : ReplayLog P) (k : Text)
      → k ≢ []
      → Reach size_of (mark_invalidated log k).0 log'
      → (first_connect_invalidated log' k).1 ≡ true
  invalidated_sticky size_of log log' k ne r =
      flagged (Reach-keep (λ s. s.invalidated ≡ true) Move-invalidated r k (marked k ne))
    where
      impossible : false ≡ true → ⊥
      impossible e = cc

      marked : (k : Text) → k ≢ [] → (domain_or_new k (mark_invalidated log k).0).invalidated ≡ true
      marked [] ne = absurd (ne refl)
      marked (c ∷ cs) ne =
          unfold mark_invalidated in
          ap (λ (s : DomainState P). s.invalidated) (state_in-assign (c ∷ cs) _ log.domains)

      flagged :
          (domain_or_new k log').invalidated ≡ true → (first_connect_invalidated log' k).1 ≡ true
      flagged f =
          unfold first_connect_invalidated in
          Option_both (λ (r : ReplayLog P × Bool). r.1 ≡ true) (lookup text_dec k log'.domains) _ _
            (λ absent.
              let g =
                ap (λ (s : DomainState P). s.invalidated) (state_in_absent k log'.domains absent) in
              absurd (impossible (sym g ∙ f)))
            (λ s found.
              let g =
                ap (λ (t : DomainState P). t.invalidated) (state_in_found k log'.domains found) in
              if_both (λ (r : ReplayLog P × Bool). r.1 ≡ true) s.invalidated _ _ (λ _. refl)
                (λ t. absurd (impossible (sym t ∙ sym g ∙ f))))

  -- The last published seq of a domain whose seqs are paced never falls, over any steps under the
  -- contract of `reserve_seq`.
  pub last_seq-Reach :
      (size_of : P → Option ℕ) (log log' : ReplayLog P) (k : Text)
      → Paced (domain_or_new k log)
      → Reach size_of log log'
      → last_seq log k ≤ last_seq log' k
  last_seq-Reach size_of log log' k p r =
      let q =
        Reach-keep (Reached (domain_or_new k log).last_seq) (Move-Reached _) r k
          (record { paced = p; at_least = le_refl _ }) in
      omega (arith, q.at_least, last_seq_or_new log k, last_seq_or_new log' k)
