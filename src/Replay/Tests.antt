-- ===== src/Replay/Tests.antt =====
-- Runs of the replay log of sse/replay_log.py on small logs, and its theorems at them.
use oc_slimapi.Prelude.{
  ℕ, ◌+◌, ◌<◌, ◌≤◌, ◌≡◌, refl, true, false, Option, none, some, [], ◌∷◌, arith, inl, Text, text,
  text_dec, lookup, length, map,
}
use oc_slimapi.Prelude.Dict.{assign}
use oc_slimapi.Replay.Types.{
  ReplayEntry, business, tombstone, DomainState, ReplayLog, ok, resync, ignore_reset, ResyncReason,
  replay_expired, frame_count,
}
use oc_slimapi.Replay.Evict.{shed_while}
use oc_slimapi.Replay.Write.{
  append, reserve_seq, rollback_seq, write_barrier, mark_invalidated, sweep, domain_or_new,
}
use oc_slimapi.Replay.Read.{
  replay, first_connect_invalidated, last_seq, classify, increment, metrics_snapshot, window_start,
}
use oc_slimapi.Replay.Window.{Run}
use oc_slimapi.Replay.Invariant.{LogOk}
use oc_slimapi.Replay.Published.{Published, append-LogOk, append-Published}
use oc_slimapi.Replay.Sweep.{sweep-frame_count, sweep-LogOk}
use oc_slimapi.Replay.Epoch.{ticks, init, epoch_matches, init-LogOk}
use oc_slimapi.Replay.Reach.{Step, Reach}
use oc_slimapi.Replay.Paced.{Paced}
use oc_slimapi.Replay.Classify.{owed}
use oc_slimapi.Replay.Barrier.{
  seen, replay-owed, barrier_holds, replay_frames, invalidated_sticky, last_seq-Reach,
}
use oc_slimapi.Replay.Always.{Reach-LogOk}
use oc_slimapi.Replay.Reserve.{rollback-reserve, append-reserve}

-- What a run of the log computes with.
program : Unit {0}
unfolding append reserve_seq rollback_seq write_barrier mark_invalidated sweep replay
    first_connect_invalidated shed_while increment classify text_dec lookup assign
program = tt

abbrev g : Text
g = text "g"

abbrev epoch : Text
epoch = text "00000000deadbeef"

-- A payload is its own size.
abbrev sized : ℕ → Option ℕ
sized n = some n

abbrev fresh : ReplayLog ℕ
fresh = record {
  epoch = epoch;
  max_count = 2;
  max_bytes = 100;
  ttl_s = 10;
  total_bytes = 0;
  replay_outcomes_total = [];
  domains = [];
  order = 0;
  closed = false;
}

abbrev entry : ℕ → ℕ → ℕ → ReplayEntry ℕ
entry seq at order = record {
  domain = g;
  seq = seq;
  payload = 30;
  kind = business;
  appended_at = at;
  size = 30;
  order = order;
}

abbrev two_frames : DomainState ℕ
two_frames = record {
  entries = entry 1 0 1 ∷ entry 2 5 2 ∷ [];
  next_seq = 3;
  last_seq = 2;
  bytes = 60;
  barrier_watermark = none;
  invalidated = false;
}

abbrev busy : ReplayLog ℕ
busy = record fresh { total_bytes = 60; domains = (g, two_frames) ∷ []; order = 2 }

-- Two appends to a fresh log.
busy_runs : (append 5 sized (append 0 sized fresh g 30 business none).0 g 30 business none).0 ≡ busy
unfolding program
busy_runs = refl

-- A third frame overwrites the first, by the count bound.
third_frame :
    map (λ e. e.seq) (domain_or_new g (append 6 sized busy g 30 business none).0).entries
    ≡ 2 ∷ 3 ∷ []
unfolding program
third_frame = refl

-- At age 11 the first frame is expired, so a cursor at 0 is too old.
expired_cursor : (replay 11 busy g 0 (some epoch)).1 ≡ resync replay_expired
unfolding program
expired_cursor = refl

future_cursor : (replay 11 busy g 3 (some epoch)).1 ≡ ignore_reset 3
unfolding program
future_cursor = refl

fresh-LogOk : LogOk fresh
fresh-LogOk = record {
  positive = omega arith;
  stored = record { each = tt; sums = refl; distinct = tt };
  budget = inl (omega arith);
}

busy-LogOk : LogOk busy
unfolding lookup text_dec
busy-LogOk = record {
  positive = omega arith;
  stored = record {
    each = (
      record {
        rising = omega arith;
        fresh = omega arith;
        sized = refl;
        ordered = omega arith;
        capped = omega arith;
        barred = tt;
      },
      tt,
    );
    sums = refl;
    distinct = (refl, tt);
  };
  budget = inl (omega arith);
}

busy-Paced : Paced (domain_or_new g busy)
unfolding lookup text_dec
busy-Paced = record { run = omega arith; low = omega arith; high = omega arith }

append-LogOk_example : LogOk (append 6 sized busy g 30 tombstone none).0
append-LogOk_example = append-LogOk 6 sized busy g 30 tombstone none busy-LogOk

append-Published_example : Published busy (append 6 sized busy g 30 business none).0 g (entry 3 6 3)
unfolding program
append-Published_example =
    append-Published 6 sized busy (append 6 sized busy g 30 business none).0 g 30 business none
      (entry 3 6 3) busy-LogOk refl

-- After the barrier one more frame is published; the cursor 1 stays intercepted.
abbrev barred : ReplayLog ℕ
barred = (append 6 sized (write_barrier busy none) g 30 business none).0

barred-Reach : Reach sized (write_barrier busy none) barred
unfolding program
barred-Reach = Reach.next Reach.here (Step.append 6 g 30 business none refl)

barrier_holds_example :
    (reason : ResyncReason) × ((replay 7 barred g 1 (some epoch)).1 ≡ resync reason)
unfolding lookup text_dec
barrier_holds_example =
    barrier_holds sized busy barred g two_frames 7 1 (some epoch) refl busy-Paced barred-Reach
      (omega arith)

replay-owed_example : (replay 5 busy g 1 (some epoch)).1 ≡ owed 1 (seen 5 busy g)
replay-owed_example = replay-owed 5 busy g 1 busy-Paced

replay_frames_example :
    Run (entry 2 5 2 ∷ []) (last_seq busy g) × (1 + length (entry 2 5 2 ∷ []) ≡ last_seq busy g)
unfolding program
replay_frames_example = replay_frames 5 busy g 1 (entry 2 5 2 ∷ []) busy-Paced refl

abbrev flagged : ReplayLog ℕ
flagged = (append 6 sized (mark_invalidated busy g).0 g 30 business none).0

flagged-Reach : Reach sized (mark_invalidated busy g).0 flagged
unfolding program
flagged-Reach = Reach.next Reach.here (Step.append 6 g 30 business none refl)

invalidated_sticky_example : (first_connect_invalidated flagged g).1 ≡ true
invalidated_sticky_example = invalidated_sticky sized busy flagged g (λ p. cc p) flagged-Reach

busy-Reach :
    Reach sized fresh
      (append 5 sized (append 0 sized fresh g 30 business none).0 g 30 business none).0
unfolding program
busy-Reach =
    Reach.next (Reach.next Reach.here (Step.append 0 g 30 business none refl))
      (Step.append 5 g 30 business none refl)

last_seq-Reach_run : last_seq busy g ≤ last_seq (append 6 sized busy g 30 business none).0 g
last_seq-Reach_run =
    last_seq-Reach sized busy (append 6 sized busy g 30 business none).0 g busy-Paced
      (Reach.next Reach.here (Step.append 6 g 30 business none settled))
  where
    settled : (domain_or_new g busy).next_seq ≡ (domain_or_new g busy).last_seq + 1
    settled = unfold lookup text_dec in refl

Reach-LogOk_example :
    LogOk (append 5 sized (append 0 sized fresh g 30 business none).0 g 30 business none).0
Reach-LogOk_example = Reach-LogOk busy-Reach fresh-LogOk

sweep-frame_count_run :
    (sweep busy 11).1 + frame_count (sweep busy 11).0.domains ≡ frame_count busy.domains
sweep-frame_count_run = sweep-frame_count busy 11 busy-LogOk

rollback-reserve_run :
    ((rollback_seq (reserve_seq busy g).0 g 3).1 ≡ true)
    × ((j : Text)
        → domain_or_new j (rollback_seq (reserve_seq busy g).0 g 3).0 ≡ domain_or_new j busy)
unfolding program
rollback-reserve_run = rollback-reserve busy (reserve_seq busy g).0 g 3 refl refl

append-reserve_run :
    (e : ReplayEntry ℕ) × ((append 6 sized (reserve_seq busy g).0 g 30 business (some 3)).1 ≡ ok e)
    × (e.seq ≡ 3)
    × (e.size ≡ 30)
unfolding program
append-reserve_run =
    append-reserve 6 sized busy (reserve_seq busy g).0 g 30 business 3 30 refl refl refl

init-LogOk_run :
    LogOk fresh
    × (epoch ≡ epoch)
    × (epoch_matches epoch ≡ true)
    × (0 < 100)
    × (ticks 10 ≡ ticks 10)
    × (0 < 10)
unfolding init
init-LogOk_run = init-LogOk epoch (text "0123456789abcdef") 2 100 (ticks 10) fresh refl

sweep-LogOk_run : LogOk (sweep busy 11).0
sweep-LogOk_run = sweep-LogOk busy 11 busy-LogOk

metrics :
    metrics_snapshot (write_barrier busy none)
    ≡ (text "domains", 1) ∷ (text "frames", 2) ∷ (text "bytes", 60) ∷ (text "barriers", 1) ∷ []
unfolding program metrics_snapshot
metrics = refl

oldest : window_start busy g ≡ some 1
unfolding program
oldest = refl
