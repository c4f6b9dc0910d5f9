-- ===== src/Replay/Read.antt =====
-- sse/replay_log.py: the reads of `ReplayLog`, the classification of a reconnect cursor first.
use oc_slimapi.Prelude.{
  ℕ, ◌+◌, Bool, true, false, not, Option, none, some, List, [], ◌∷◌, lookup, Text, text, text_dec,
  ltb, leb, ◌==◌, if◌then◌else◌, length,
}
use oc_slimapi.Prelude.Dict.{assign}
use oc_slimapi.Replay.Types.{
  ReplayEntry, epoch_changed, replay_expired, replay_gap, reconnect_no_replay, ReplayOutcome,
  frames, resync, ignore_reset, DomainState, frame_count, ReplayLog,
}
use oc_slimapi.Replay.Evict.{shed_while, ttl_evict_head}
use oc_slimapi.Replay.Write.{put_domain}

-- `counter[key] += 1`.
unfoldable pub increment : Text → List (Text × ℕ) → List (Text × ℕ)
unfolding lookup text_dec assign
increment key c = assign text_dec key (elim (lookup text_dec key c) [ none ↦ 1 | some n ↦ n + 1 ]) c

-- `watermark is not None and after_seq <= watermark`.
abbrev pub intercepts : Option ℕ → ℕ → Bool
intercepts none after = false
intercepts (some w) after = leb after w

module _ {P : Type 0} where
  -- `tuple(e for e in state.entries if e.seq > after_seq)`.
  unfoldable pub newer : ℕ → List (ReplayEntry P) → List (ReplayEntry P)
  newer after [] = []
  newer after (e ∷ es) = if ltb after e.seq then e ∷ newer after es else newer after es

  -- The scan over neighbouring entries; `false` where one seq does not follow the other.
  unfoldable pub adjacent : ReplayEntry P → List (ReplayEntry P) → Bool
  adjacent e [] = true
  adjacent e (f ∷ es) = if f.seq == e.seq + 1 then adjacent f es else false

  -- The tail of `replay`, on the entries past the cursor: the outcome and its counter key.
  unfoldable pub classify_window : ℕ → ℕ → List (ReplayEntry P) → ReplayOutcome P × Text
  unfolding adjacent
  classify_window after last [] =
      if after == last
      then (frames [], text "up_to_date")
      else (resync replay_expired, text "replay_expired")
  classify_window after last (e ∷ es) =
      if not (e.seq == after + 1)
      then (resync replay_expired, text "replay_expired")
      else if adjacent e es
      then (frames (e ∷ es), text "replayed")
      else (resync replay_gap, text "replay_gap")

  -- Step 4 of `replay` on the state of a domain.
  unfoldable pub classify : ℕ → DomainState P → ReplayOutcome P × Text
  unfolding newer classify_window
  classify after s =
      if intercepts s.barrier_watermark after
      then (resync reconnect_no_replay, text "reconnect_no_replay")
      else if ltb s.last_seq after
      then (ignore_reset after, text "ignore_reset")
      else classify_window after s.last_seq (newer after s.entries)

  -- Step 4 where no such domain was ever created.
  abbrev pub classify_absent : ℕ → ReplayOutcome P × Text
  classify_absent after =
      if ltb 0 after
      then (ignore_reset after, text "ignore_reset")
      else (frames [], text "up_to_date")

  abbrev pub counted : ReplayLog P → ReplayOutcome P × Text → ReplayLog P × ReplayOutcome P
  counted log r =
      (record log { replay_outcomes_total = increment r.1 log.replay_outcomes_total }, r.0)

  -- `replay` at the clock reading `now`; a cursor is a non-negative number here.
  unfoldable pub replay : ℕ → ReplayLog P → Text → ℕ → Option Text → ReplayLog P × ReplayOutcome P
  unfolding increment classify shed_while
  replay now log domain after none = counted log (resync epoch_changed, text "epoch_changed")
  replay now log domain after (some epoch) = elim (text_dec epoch log.epoch) [
    | no _ ↦ counted log (resync epoch_changed, text "epoch_changed")
    | yes _ ↦ elim (lookup text_dec domain log.domains) [
      | none ↦ counted log (classify_absent after)
      | some s ↦
          let a = ttl_evict_head log.ttl_s now s log.total_bytes in
          counted (put_domain domain a.state (record log { total_bytes = a.total }))
            (classify after a.state)
    ]
  ]

  unfoldable pub first_connect_invalidated : ReplayLog P → Text → ReplayLog P × Bool
  unfolding increment
  first_connect_invalidated log domain = elim (lookup text_dec domain log.domains) [
    | none ↦ (log, false)
    | some s ↦
        if s.invalidated
        then (
          record log {
            replay_outcomes_total =
                increment (text "reconnect_no_replay") log.replay_outcomes_total;
          },
          true,
        )
        else (log, false)
  ]

  -- `last_seq`: 0 for a domain that was never created.
  abbrev pub last_seq : ReplayLog P → Text → ℕ
  last_seq log domain = elim (lookup text_dec domain log.domains) [ none ↦ 0 | some s ↦ s.last_seq ]

  -- `has_domain`, `domain_keys`, `domain_frame_count`, `window_start`, `barrier_watermark`.
  abbrev pub has_domain : ReplayLog P → Text → Bool
  has_domain log domain = elim (lookup text_dec domain log.domains) [ none ↦ false | some _ ↦ true ]

  abbrev pub domain_frame_count : ReplayLog P → Text → ℕ
  domain_frame_count log domain = elim (lookup text_dec domain log.domains) [
    | none ↦ 0
    | some s ↦ length s.entries
  ]

  abbrev pub head_seq : List (ReplayEntry P) → Option ℕ
  head_seq [] = none
  head_seq (e ∷ es) = some e.seq

  abbrev pub window_start : ReplayLog P → Text → Option ℕ
  window_start log domain = elim (lookup text_dec domain log.domains) [
    | none ↦ none
    | some s ↦ head_seq s.entries
  ]

  abbrev pub barrier_watermark : ReplayLog P → Text → Option ℕ
  barrier_watermark log domain = elim (lookup text_dec domain log.domains) [
    | none ↦ none
    | some s ↦ s.barrier_watermark
  ]

  abbrev pub barrier_count : List (Text × DomainState P) → ℕ
  barrier_count [] = 0
  barrier_count (d ∷ ds) =
      (elim (d.1.barrier_watermark) [ none ↦ 0 | some _ ↦ 1 ]) + barrier_count ds

  -- `metrics_snapshot`.
  unfoldable pub metrics_snapshot : ReplayLog P → List (Text × ℕ)
  unfolding assign text_dec
  metrics_snapshot log = assign text_dec (text "barriers") (barrier_count log.domains) (
      assign text_dec (text "bytes") log.total_bytes (
        assign text_dec (text "frames") (frame_count log.domains)
          (assign text_dec (text "domains") (length log.domains) log.replay_outcomes_total)))
