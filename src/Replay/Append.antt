-- ===== src/Replay/Append.antt =====
-- `append` (sse/replay_log.py): the invariant on every branch, and what a published frame is.
use oc_slimapi.Prelude.{
  ℕ, suc, ◌+◌, ◌<◌, ◌≡◌, refl, false, Option, none, some, List, [], ◌∷◌, ◌++◌, arith, length,
  length-append, last?, All, All-map, ◌⊎◌, inl, inr, Text, text_dec, lookup, sum_by-append, ltb,
  Bool-cases, Option-cases,
}
use oc_slimapi.Prelude.Dict.{assign}
use oc_slimapi.Prelude.Dict.Keys.{remove-assign_self, All-remove}
use oc_slimapi.Prelude.Dict.Laws.{lookup-assign_self}
use oc_slimapi.Replay.Types.{
  ReplayEntry, FrameKind, DomainState, ReplayLog, ok, raise, ReplayError, size_error, value_error,
}
use oc_slimapi.Replay.Evict.{Shed, shed_while, evict_for_count, evict_for_bytes, expired}
use oc_slimapi.Replay.Write.{
  domain_or_new, choose_seq, push_entry, publish, append_open, touch, touched, new_entry,
}
use oc_slimapi.Replay.Window.{
  Rising-append, Ordered-append, Ordered-widen, Ordered, Sheds, shed-Sheds, shed_while_stops,
}
use oc_slimapi.Replay.Invariant.{
  DomainOk, Sheds-DomainOk, Stored, assign-Stored, bytes-le-total, LogOk, Barred,
}
use oc_slimapi.Replay.Budget.{Evicted, byte_loop-Evicted}
use oc_slimapi.Replay.Settle.{shed-LogOk, domain_or_new-DomainOk, domain_or_new-bytes}

module _ {P : Type 0} where
  pub choose_seq-fresh :
      (s : DomainState P) (seq : Option ℕ) (n next : ℕ)
      → s.last_seq < s.next_seq
      → choose_seq s seq ≡ some (n, next)
      → (s.last_seq < n) × (n < next)
  unfolding choose_seq
  choose_seq-fresh s none n next h e = ground arith
  choose_seq-fresh s (some q) n next h e = ground arith

  -- The count eviction never drops the frame just pushed.
  shed_while-last :
      (m : ℕ) (es : List (ReplayEntry P)) (e : ReplayEntry P) (a : Shed P)
      → 0 < m
      → a.state.entries ≡ es
      → last? es ≡ some e
      → last? (shed_while (λ xs. ltb m (length xs)) es a).state.entries ≡ some e
  unfolding shed_while
  shed_while-last m [] e a h q l = rw q l
  shed_while-last m (x ∷ []) e a h q l = ground arith
  shed_while-last m (x ∷ y ∷ es) e a h q l = elim (Bool-cases (ltb m (length (x ∷ y ∷ es)))) [
    | inl t ↦ rw t (shed_while-last m (y ∷ es) e _ h refl l)
    | inr t ↦ rw (t, q) l
  ]

  pub last?-append :
      (es : List (ReplayEntry P)) (e : ReplayEntry P) → last? (es ++ (e ∷ [])) ≡ some e
  last?-append [] e = refl
  last?-append (x ∷ []) e = refl
  last?-append (x ∷ y ∷ es) e = last?-append (y ∷ es) e

  push_entry-DomainOk :
      {m o : ℕ} (s : DomainState P) (e : ReplayEntry P) (next : ℕ)
      → DomainOk m o s
      → s.last_seq < e.seq
      → e.seq < next
      → e.order ≡ o + 1
      → DomainOk (suc m) e.order (push_entry s e next)
  push_entry-DomainOk {m} {o} s e next d lt lt' ord = record {
    rising = Rising-append 0 s.last_seq s.entries e lt d.rising;
    fresh = lt';
    sized =
        omega (arith, sum_by-append (λ (x : ReplayEntry P). x.size) s.entries (e ∷ []), d.sized);
    ordered =
        Ordered-append e.order s.entries e (omega arith)
          (Ordered-widen o e.order s.entries (omega arith) d.ordered);
    capped = omega (arith, length-append s.entries (e ∷ []), d.capped);
    barred = raised s.barrier_watermark d.barred;
  }
    where
      raised : (w : Option ℕ) → Barred w s.last_seq → Barred w e.seq
      raised none b = tt
      raised (some w) b = omega arith

  recapped :
      {m o : ℕ} {s : DomainState P}
      → ltb m (length s.entries) ≡ false
      → DomainOk (suc m) o s
      → DomainOk m o s
  recapped t d = record {
    rising = d.rising;
    fresh = d.fresh;
    sized = d.sized;
    ordered = d.ordered;
    capped = ground arith;
    barred = d.barred;
  }

  -- Publishing a frame into a stored domain keeps the invariant and retains the frame.
  publish-Evicted :
      (log : ReplayLog P) (s : DomainState P) (e : ReplayEntry P) (next : ℕ)
      → LogOk log
      → lookup text_dec e.domain log.domains ≡ some s
      → DomainOk log.max_count log.order s
      → s.last_seq < e.seq
      → e.seq < next
      → e.order ≡ log.order + 1
      → let r = publish log s e next in
        Evicted log.max_count e.order log.max_bytes e.domain e (r.domains, r.total_bytes)
  unfolding publish evict_for_bytes
  publish-Evicted log s e next h found d lt lt' ord =
      byte_loop-Evicted log.max_count e.order log.max_bytes e.domain e _ _ _ refl stored (record {
        state = c.state;
        found = lookup-assign_self text_dec e.domain c.state log.domains;
        ends =
            shed_while-last log.max_count (s.entries ++ (e ∷ [])) e _ h.positive refl
              (last?-append s.entries e);
        tip = r.same_last;
        older = rw (remove-assign_self text_dec e.domain c.state log.domains) (
            All-remove text_dec (λ x. All (λ y. y.order < e.order) x.1.entries) e.domain log.domains
              (All-map (λ x. DomainOk log.max_count log.order x.1)
                (λ x. All (λ y. y.order < e.order) x.1.entries) (λ x k. below x.1.entries k.ordered)
                log.domains h.stored.each));
      })
    where
      t : ℕ
      t = log.total_bytes + e.size

      c : Shed P
      c = evict_for_count log.max_count (push_entry s e next) t

      p : DomainOk (suc log.max_count) e.order (push_entry s e next)
      p = push_entry-DomainOk s e next d lt lt' ord

      r : Sheds (push_entry s e next) t 0 c
      r =
          shed-Sheds (λ xs. ltb log.max_count (length xs)) (push_entry s e next) t p.sized
            (omega (arith, bytes-le-total e.domain log.domains found, h.stored.sums))

      below : (es : List (ReplayEntry P)) → Ordered es log.order → All (λ y. y.order < e.order) es
      below [] k = tt
      below (x ∷ es) k = (omega arith, below es k.1)

      stored : Stored log.max_count e.order (assign text_dec e.domain c.state log.domains) c.total
      stored =
          assign-Stored e.domain c.state log.domains log.total_bytes c.total h.stored (omega arith)
            (recapped
              (shed_while_stops (λ xs. ltb log.max_count (length xs)) (s.entries ++ (e ∷ [])) _ refl
                (ground arith))
              (Sheds-DomainOk p r))
            (rw found (omega (arith, r.balanced)))

  module _ (now : ℕ) (size_of : P → Option ℕ) where
    -- How the tail of `append` ends: an exception that changes nothing more, or a published frame.
    pub append_open_cases :
        (log : ReplayLog P) (domain : Text) (s : DomainState P) (payload : P) (kind : FrameKind)
        (seq : Option ℕ)
        → ((err : ReplayError) × (append_open now size_of log domain s payload kind seq
              ≡ (log, raise err)))
          ⊎ ((size n next : ℕ) × (choose_seq s seq ≡ some (n, next))
              × (append_open now size_of log domain s payload kind seq ≡ (
                publish log s (new_entry now size_of log domain payload kind n size) next,
                ok (new_entry now size_of log domain payload kind n size),
              )))
    append_open_cases log domain s payload kind seq = elim (Option-cases (size_of payload)) [
      | inl no_size ↦ inl (size_error, unfold append_open in rw (no_size, append_open))
      | inr (size, sized) ↦ elim (Option-cases (choose_seq s seq)) [
        | inl bad ↦
            inl (value_error, unfold append_open in rw (sized, append_open) (rw (bad, append_open)))
        | inr ((n, next), chosen) ↦ inr (
          size,
          n,
          next,
          chosen,
          unfold append_open in rw (sized, append_open) (rw (chosen, append_open)),
        )
      ]
    ]

    pub touched-LogOk :
        (log : ReplayLog P) (k : Text) → LogOk log → LogOk (touched now size_of log k)
    touched-LogOk log k h = shed-LogOk (expired log.ttl_s now) k log h

    pub touch-Sheds :
        (log : ReplayLog P) (k : Text)
        → LogOk log
        → Sheds (domain_or_new k log) log.total_bytes 0 (touch now size_of log k)
    touch-Sheds log k h =
        shed-Sheds (expired log.ttl_s now) (domain_or_new k log) log.total_bytes
          (domain_or_new-DomainOk k log h).sized (domain_or_new-bytes k log h)

    pub touch-DomainOk :
        (log : ReplayLog P) (k : Text)
        → LogOk log
        → DomainOk log.max_count log.order (touch now size_of log k).state
    touch-DomainOk log k h = Sheds-DomainOk (domain_or_new-DomainOk k log h) (touch-Sheds log k h)

    pub publish-touched :
        (log : ReplayLog P) (k : Text) (payload : P) (kind : FrameKind) (size n next : ℕ)
        (seq : Option ℕ)
        → LogOk log
        → choose_seq (touch now size_of log k).state seq ≡ some (n, next)
        → let log' = touched now size_of log k in
          let e = new_entry now size_of log' k payload kind n size in
          let r = publish log' (touch now size_of log k).state e next in
          Evicted log.max_count e.order log.max_bytes k e (r.domains, r.total_bytes)
    publish-touched log k payload kind size n next seq h chosen =
        let s = (touch now size_of log k).state in
        let d = touch-DomainOk log k h in
        let f = choose_seq-fresh s seq n next d.fresh chosen in
        publish-Evicted (touched now size_of log k) s _ next (touched-LogOk log k h)
          (lookup-assign_self text_dec k s log.domains) d f.0 f.1 refl

    pub publish-LogOk :
        (log : ReplayLog P) (s : DomainState P) (e : ReplayEntry P) (next : ℕ)
        → 0 < log.max_count
        → (let r = publish log s e next in
            Evicted log.max_count e.order log.max_bytes e.domain e (r.domains, r.total_bytes))
        → LogOk (publish log s e next)
    publish-LogOk log s e next pos h =
        unfold publish evict_for_bytes in
        record { positive = pos; stored = h.stored; budget = h.budget }
