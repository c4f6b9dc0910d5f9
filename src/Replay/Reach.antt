-- ===== src/Replay/Reach.antt =====
-- The steps of a `ReplayLog` (sse/replay_log.py) within one process epoch, under the contract of
-- `reserve_seq`: every step moves every domain, so what each move keeps holds of all domains for ever.
use oc_slimapi.Prelude.{ℕ, Option, Text}
use oc_slimapi.Replay.Types.{FrameKind, DomainState, ReplayLog}
use oc_slimapi.Replay.Write
use oc_slimapi.Replay.Write.{
  domain_or_new, reserve_seq, rollback_seq, write_barrier, mark_invalidated, recycle_domain,
}
use oc_slimapi.Replay.Read
use oc_slimapi.Replay.Read.{first_connect_invalidated}
use oc_slimapi.Replay.Moves.{Settled, Permitted, Move, Moves, Moves-trans, Moves-keep, Evolved}
use oc_slimapi.Replay.Steps.{append-Evolved}
use oc_slimapi.Replay.Evolve.{
  reserve_seq-Evolved, rollback_seq-Evolved, write_barrier-Evolved, mark_invalidated-Evolved,
  recycle_domain-Evolved, sweep-Evolved, replay-Evolved, first_connect_invalidated-Evolved,
}

module _ {P : Type 0} where
  -- One operation on the log; an append without a reserved seq and a reservation find no reservation
  -- outstanding in their domain.
  pub data Step (size_of : P → Option ℕ) (log : ReplayLog P) : ReplayLog P → Type 0 where
    append :
        (now : ℕ) (k : Text) (payload : P) (kind : FrameKind) (seq : Option ℕ)
        → Permitted (domain_or_new k log) seq
        → Step size_of log (Write.append now size_of log k payload kind seq).0
    reserve : (k : Text) → Settled (domain_or_new k log) → Step size_of log (reserve_seq log k).0
    rollback : (k : Text) (seq : ℕ) → Step size_of log (rollback_seq log k seq).0
    barrier : (k : Option Text) → Step size_of log (write_barrier log k)
    mark : (k : Text) → Step size_of log (mark_invalidated log k).0
    recycle : (k : Text) → Step size_of log (recycle_domain log k).0
    sweep : (now : ℕ) → Step size_of log (Write.sweep log now).0
    replay :
        (now : ℕ) (k : Text) (after : ℕ) (epoch : Option Text)
        → Step size_of log (Read.replay now log k after epoch).0
    first_connect : (k : Text) → Step size_of log (first_connect_invalidated log k).0

  -- A step moves every domain.
  pub Step-Evolved :
      {size_of : P → Option ℕ} {log log' : ReplayLog P}
      → Step size_of log log'
      → Evolved log.domains log'.domains
  Step-Evolved {size_of} {log} (Step.append now k payload kind seq may) =
      append-Evolved now size_of log k payload kind seq may
  Step-Evolved {log = log} (Step.reserve k q) = reserve_seq-Evolved log k q
  Step-Evolved {log = log} (Step.rollback k seq) = rollback_seq-Evolved log k seq
  Step-Evolved {log = log} (Step.barrier k) = write_barrier-Evolved log k
  Step-Evolved {log = log} (Step.mark k) = mark_invalidated-Evolved log k
  Step-Evolved {log = log} (Step.recycle k) = recycle_domain-Evolved log k
  Step-Evolved {log = log} (Step.sweep now) = sweep-Evolved log now
  Step-Evolved {log = log} (Step.replay now k after epoch) = replay-Evolved now log k after epoch
  Step-Evolved {log = log} (Step.first_connect k) = first_connect_invalidated-Evolved log k

  pub data Reach (size_of : P → Option ℕ) (log : ReplayLog P) : ReplayLog P → Type 0 where
    here : Reach size_of log log
    next :
        {log' log'' : ReplayLog P}
        → Reach size_of log log'
        → Step size_of log' log''
        → Reach size_of log log''

  pub Reach-Evolved :
      {size_of : P → Option ℕ} {log log' : ReplayLog P}
      → Reach size_of log log'
      → Evolved log.domains log'.domains
  Reach-Evolved Reach.here k = Moves.still
  Reach-Evolved (Reach.next r s) k = Moves-trans (Reach-Evolved r k) (Step-Evolved s k)

  -- What every move keeps, every run of steps keeps in every domain.
  pub Reach-keep {κ} :
      {size_of : P → Option ℕ} {log log' : ReplayLog P} (Q : DomainState P → Type κ)
      → ((s t : DomainState P) → Move s t → Q s → Q t)
      → Reach size_of log log'
      → (k : Text) → Q (domain_or_new k log)
      → Q (domain_or_new k log')
  Reach-keep Q keep r k q = Moves-keep Q keep _ _ (Reach-Evolved r k) q
