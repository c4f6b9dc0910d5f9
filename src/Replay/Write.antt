-- ===== src/Replay/Write.antt =====
-- sse/replay_log.py: the operations of `ReplayLog` that publish frames, reserve sequence numbers
-- and maintain domains. Each returns the new log beside its result.
use oc_slimapi.Prelude.{
  ℕ, ◌+◌, ◌-◌, Bool, true, false, not, ◌||◌, ◌&&◌, Option, none, some, List, [], ◌∷◌, ◌++◌, lookup,
  Text, text_dec, ltb, leb, ◌==◌, if◌then◌else◌,
}
use oc_slimapi.Prelude.Dict.{assign}
use oc_slimapi.Replay.Types.{
  FrameKind, ReplayEntry, DomainState, new_domain, ReplayLog, runtime_error, value_error,
  size_error, Result, ok, raise,
}
use oc_slimapi.Replay.Evict.{
  Shed, shed, shed_while, ttl_evict_head, evict_for_count, evict_for_bytes,
}

module _ {P : Type 0} where
  -- `self._domains.get(domain)`, or a fresh state where there is none.
  abbrev pub state_in : Text → List (Text × DomainState P) → DomainState P
  state_in domain ds = elim (lookup text_dec domain ds) [ none ↦ new_domain | some s ↦ s ]

  abbrev pub domain_or_new : Text → ReplayLog P → DomainState P
  domain_or_new domain log = state_in domain log.domains

  abbrev pub put_domain : Text → DomainState P → ReplayLog P → ReplayLog P
  put_domain domain s log = record log { domains = assign text_dec domain s log.domains }

  -- The seq of an `append` and the `next_seq` that it leaves; `none` is the mismatched reservation.
  unfoldable pub choose_seq : DomainState P → Option ℕ → Option (ℕ × ℕ)
  choose_seq s none = some (s.next_seq, s.next_seq + 1)
  choose_seq s (some seq) =
      if not (seq == s.next_seq - 1) || leb seq s.last_seq then none else some (seq, s.next_seq)

  -- The domain with one more frame, before its own eviction.
  abbrev pub push_entry : DomainState P → ReplayEntry P → ℕ → DomainState P
  push_entry s e next = record s {
    entries = s.entries ++ (e ∷ []);
    next_seq = next;
    last_seq = e.seq;
    bytes = s.bytes + e.size;
  }

  -- The tail of `append` once the frame has its seq: count it, push it, evict.
  unfoldable pub publish : ReplayLog P → DomainState P → ReplayEntry P → ℕ → ReplayLog P
  unfolding shed_while evict_for_bytes
  publish log s e next =
      let c = evict_for_count log.max_count (push_entry s e next) (log.total_bytes + e.size) in
      evict_for_bytes
        (put_domain e.domain c.state (record log { total_bytes = c.total; order = e.order }))

  module _ (now : ℕ) (size_of : P → Option ℕ) where
    -- The `ReplayEntry` that `append` builds.
    abbrev pub new_entry : ReplayLog P → Text → P → FrameKind → ℕ → ℕ → ReplayEntry P
    new_entry log domain payload kind n size = record {
      domain = domain;
      seq = n;
      payload = payload;
      kind = kind;
      appended_at = now;
      size = size;
      order = log.order + 1;
    }

    -- `append` on a live log and a well-formed domain, after the lazy creation and TTL eviction.
    unfoldable pub append_open :
        ReplayLog P
        → Text
        → DomainState P
        → P
        → FrameKind
        → Option ℕ
        → ReplayLog P × Result (ReplayEntry P)
    unfolding choose_seq publish
    append_open log domain s payload kind seq = elim (size_of payload) [
      | none ↦ (log, raise size_error)
      | some size ↦ elim (choose_seq s seq) [
        | none ↦ (log, raise value_error)
        | some (n, next) ↦
            let e = new_entry log domain payload kind n size in (publish log s e next, ok e)
      ]
    ]

    -- The first lines of `append`: the state of the domain with its expired head dropped, and the
    -- log that stores it.
    abbrev pub touch : ReplayLog P → Text → Shed P
    touch log domain = ttl_evict_head log.ttl_s now (domain_or_new domain log) log.total_bytes

    abbrev pub touched : ReplayLog P → Text → ReplayLog P
    touched log domain =
        let a = touch log domain in put_domain domain a.state (record log { total_bytes = a.total })

    unfoldable pub append :
        ReplayLog P → Text → P → FrameKind → Option ℕ → ReplayLog P × Result (ReplayEntry P)
    unfolding append_open shed_while lookup text_dec assign
    append log [] payload kind seq =
        (log, raise (if log.closed then runtime_error else value_error))
    append log (c ∷ cs) payload kind seq =
        if log.closed
        then (log, raise runtime_error)
        else append_open (touched log (c ∷ cs)) (c ∷ cs) (touch log (c ∷ cs)).state payload kind seq

  unfoldable pub reserve_seq : ReplayLog P → Text → ReplayLog P × Result ℕ
  unfolding lookup text_dec assign
  reserve_seq log [] = (log, raise (if log.closed then runtime_error else value_error))
  reserve_seq log (c ∷ cs) =
      let s = domain_or_new (c ∷ cs) log in
      if log.closed
      then (log, raise runtime_error)
      else (put_domain (c ∷ cs) (record s { next_seq = s.next_seq + 1 }) log, ok s.next_seq)

  unfoldable pub rollback_seq : ReplayLog P → Text → ℕ → ReplayLog P × Bool
  unfolding lookup text_dec assign
  rollback_seq log domain seq = elim (lookup text_dec domain log.domains) [
    | none ↦ (log, false)
    | some s ↦
        if s.next_seq == seq + 1 && ltb s.last_seq seq
        then (put_domain domain (record s { next_seq = seq }) log, true)
        else (log, false)
  ]

  -- One target of `write_barrier`: the watermark rises to the last published seq.
  abbrev pub raise_barrier : DomainState P → DomainState P
  raise_barrier s = elim s.barrier_watermark [
    | none ↦ record s { barrier_watermark = some s.last_seq }
    | some w ↦ if ltb w s.last_seq then record s { barrier_watermark = some s.last_seq } else s
  ]

  unfoldable pub barrier_all : List (Text × DomainState P) → List (Text × DomainState P)
  barrier_all [] = []
  barrier_all (d ∷ ds) = (d.0, raise_barrier d.1) ∷ barrier_all ds

  unfoldable pub write_barrier : ReplayLog P → Option Text → ReplayLog P
  unfolding lookup text_dec assign barrier_all
  write_barrier log none = record log { domains = barrier_all log.domains }
  write_barrier log (some domain) = elim (lookup text_dec domain log.domains) [
    | none ↦ log
    | some s ↦ put_domain domain (raise_barrier s) log
  ]

  unfoldable pub mark_invalidated : ReplayLog P → Text → ReplayLog P × Result (Unit {0})
  unfolding lookup text_dec assign
  mark_invalidated log [] = (log, raise value_error)
  mark_invalidated log (c ∷ cs) =
      let s = domain_or_new (c ∷ cs) log in
      (put_domain (c ∷ cs) (record s { invalidated = true }) log, ok tt)

  unfoldable pub recycle_domain : ReplayLog P → Text → ReplayLog P × Bool
  unfolding lookup text_dec assign shed_while
  recycle_domain log domain = elim (lookup text_dec domain log.domains) [
    | none ↦ (log, false)
    | some s ↦
        let a = shed (λ _. true) s log.total_bytes in
        (put_domain domain a.state (record log { total_bytes = a.total }), true)
  ]

  -- The barrier collection of `sweep`: `state.entries[0].seq > state.barrier_watermark + 1`.
  unfoldable pub collect_barrier : List (ReplayEntry P) → Option ℕ → Option ℕ
  collect_barrier [] w = w
  collect_barrier (e ∷ _) none = none
  collect_barrier (e ∷ _) (some w) = if ltb (w + 1) e.seq then none else some w

  -- One round of `sweep` on a domain.
  unfoldable pub sweep_domain : ℕ → ℕ → DomainState P → ℕ → Shed P
  unfolding shed_while collect_barrier
  sweep_domain ttl now s total =
      let a = ttl_evict_head ttl now s total in
      record a {
        state = record (a.state) {
          barrier_watermark = collect_barrier a.state.entries a.state.barrier_watermark;
        };
      }

  -- The loop of `sweep`: the domains, the byte total and the number of evicted frames.
  unfoldable pub sweep_all :
      ℕ → ℕ → List (Text × DomainState P) → ℕ → List (Text × DomainState P) × ℕ × ℕ
  unfolding sweep_domain
  sweep_all ttl now [] total = ([], total, 0)
  sweep_all ttl now (d ∷ ds) total =
      let a = sweep_domain ttl now d.1 total in
      let (ds', total', evicted) = sweep_all ttl now ds a.total in
      ((d.0, a.state) ∷ ds', total', a.evicted + evicted)

  unfoldable pub sweep : ReplayLog P → ℕ → ReplayLog P × ℕ
  unfolding sweep_all
  sweep log now =
      let (ds, total, evicted) = sweep_all log.ttl_s now log.domains log.total_bytes in
      (record log { domains = ds; total_bytes = total }, evicted)

  unfoldable pub close : ReplayLog P → ReplayLog P
  close log = record log { closed = true; domains = []; total_bytes = 0 }
