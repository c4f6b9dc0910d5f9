-- ===== src/Replay/Always.antt =====
-- The reachable states of a `ReplayLog` (sse/replay_log.py) and its invariant.
use oc_slimapi.Prelude.{
  ℕ, Bool, Option, none, some, List, Text, text_dec, lookup, if_both, Option_both, Dec_both,
}
use oc_slimapi.Replay.Types.{DomainState, ReplayLog, ReplayOutcome}
use oc_slimapi.Replay.Evict.{ttl_evict_head, expired}
use oc_slimapi.Replay.Read.{replay, first_connect_invalidated}
use oc_slimapi.Replay.Invariant.{LogOk}
use oc_slimapi.Replay.Settle.{shed-LogOk}
use oc_slimapi.Replay.Published.{append-LogOk}
use oc_slimapi.Replay.Maintain.{
  domain_or_new_found, reserve_seq-LogOk, rollback_seq-LogOk, write_barrier-LogOk,
  mark_invalidated-LogOk, recycle_domain-LogOk,
}
use oc_slimapi.Replay.Sweep.{sweep-LogOk}
use oc_slimapi.Replay.Reach.{Step, Reach}
use mathlib.Core.Path.{subst}
use oc_slimapi.Replay.Write.{put_domain}

module _ {P : Type 0} where
  -- The outcome counter is no part of the invariant.
  recount :
      (log : ReplayLog P) (c : List (Text × ℕ))
      → LogOk log
      → LogOk (record log { replay_outcomes_total = c })
  recount log c h = record { positive = h.positive; stored = h.stored; budget = h.budget }

  replay-LogOk :
      (now : ℕ) (log : ReplayLog P) (k : Text) (after : ℕ) (epoch : Option Text)
      → LogOk log
      → LogOk (replay now log k after epoch).0
  unfolding replay
  replay-LogOk now log k after none h = recount log _ h
  replay-LogOk now log k after (some epoch) h =
      let Q = λ (r : ReplayLog P × ReplayOutcome P). LogOk r.0 in
      Dec_both Q (text_dec epoch log.epoch) _ _ (λ _. recount log _ h)
        (λ _.
          Option_both Q (lookup text_dec k log.domains) _ _ (λ _. recount log _ h)
            (λ s found. recount _ _ (
              subst
                (λ (t : DomainState P).
                  let a = ttl_evict_head log.ttl_s now t log.total_bytes in
                  LogOk (put_domain k a.state (record log { total_bytes = a.total })))
                (domain_or_new_found k log found) (shed-LogOk (expired log.ttl_s now) k log h))))

  first_connect_invalidated-LogOk :
      (log : ReplayLog P) (k : Text) → LogOk log → LogOk (first_connect_invalidated log k).0
  unfolding first_connect_invalidated
  first_connect_invalidated-LogOk log k h =
      let Q = λ (r : ReplayLog P × Bool). LogOk r.0 in
      Option_both Q (lookup text_dec k log.domains) _ _ (λ _. h)
        (λ s found. if_both Q s.invalidated _ _ (λ _. recount log _ h) (λ _. h))

  Step-LogOk :
      {size_of : P → Option ℕ} {log log' : ReplayLog P}
      → Step size_of log log'
      → LogOk log
      → LogOk log'
  Step-LogOk {size_of} {log} (Step.append now k payload kind seq may) h =
      append-LogOk now size_of log k payload kind seq h
  Step-LogOk {log = log} (Step.reserve k q) h = reserve_seq-LogOk log k h
  Step-LogOk {log = log} (Step.rollback k seq) h = rollback_seq-LogOk log k seq h
  Step-LogOk {log = log} (Step.barrier k) h = write_barrier-LogOk log k h
  Step-LogOk {log = log} (Step.mark k) h = mark_invalidated-LogOk log k h
  Step-LogOk {log = log} (Step.recycle k) h = recycle_domain-LogOk log k h
  Step-LogOk {log = log} (Step.sweep now) h = sweep-LogOk log now h
  Step-LogOk {log = log} (Step.replay now k after epoch) h = replay-LogOk now log k after epoch h
  Step-LogOk {log = log} (Step.first_connect k) h = first_connect_invalidated-LogOk log k h

  -- Any run of steps under the contract of `reserve_seq`, from a well-formed log, keeps the log
  -- well formed: the windows rise, the byte counts add up, every domain holds at most `max_count`
  -- frames, and all of them together hold at most `max_bytes` bytes, or a single frame.
  pub Reach-LogOk :
      {size_of : P → Option ℕ} {log log' : ReplayLog P}
      → Reach size_of log log'
      → LogOk log
      → LogOk log'
  Reach-LogOk Reach.here h = h
  Reach-LogOk (Reach.next r s) h = Step-LogOk s (Reach-LogOk r h)
