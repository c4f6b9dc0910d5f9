-- ===== src/Replay/Reserve.antt =====
-- `reserve_seq` with the `append` or the `rollback_seq` that follows it (sse/replay_log.py).
use mathlib.Core.Path.{sym}
use oc_slimapi.Prelude.{
  ℕ, ◌+◌, ◌<◌, ◌≡◌, refl, ◌∙◌, ap, ◌≢◌, Bool, true, false, Option, some, [], ◌∷◌, arith, inl, inr,
  Text, text_dec, lookup, if_cases,
}
use oc_slimapi.Prelude.Dict.{assign}
use oc_slimapi.Prelude.Dict.Laws.{lookup-assign_self}
use oc_slimapi.Replay.Types.{
  ReplayEntry, FrameKind, DomainState, ReplayLog, Result, ok, raise, runtime_error,
}
use oc_slimapi.Replay.Evict.{expired}
use oc_slimapi.Replay.Write.{
  state_in, domain_or_new, put_domain, choose_seq, append_open, append, touch, touched, new_entry,
  reserve_seq, rollback_seq,
}
use oc_slimapi.Replay.Moves.{Settled, state_in-assign, state_in-assign_ne}
use oc_slimapi.Replay.Steps.{shed_while_seqs}

module _ {P : Type 0} where
  -- A successful reservation: the log was open, the domain was named, and its counter moved by one.
  record Reserved (log log' : ReplayLog P) (k : Text) (n : ℕ) : Type 0 where
    open_log : log.closed ≡ false
    named : k ≢ []
    seq : n ≡ (domain_or_new k log).next_seq
    after :
        log'
        ≡ put_domain k
            (record (domain_or_new k log) { next_seq = (domain_or_new k log).next_seq + 1 })
            log

  reserved :
      (log log' : ReplayLog P) (k : Text) (n : ℕ)
      → reserve_seq log k ≡ (log', ok n)
      → Reserved log log' k n
  unfolding reserve_seq
  reserved log log' [] n e = let f = ap (λ (x : ReplayLog P × Result ℕ). x.1) e in absurd (cc f)
  reserved log log' (c ∷ cs) n e =
      let s = domain_or_new (c ∷ cs) log in
      let good : ReplayLog P × Result ℕ =
        (put_domain (c ∷ cs) (record s { next_seq = s.next_seq + 1 }) log, ok s.next_seq) in
      let bad : ReplayLog P × Result ℕ = (log, raise runtime_error) in
      elim (if_cases log.closed bad good) [
        | inl (_, q) ↦ let f = ap (λ (x : ReplayLog P × Result ℕ). x.1) (sym q ∙ e) in absurd (cc f)
        | inr (live, q) ↦ record {
          open_log = live;
          named = λ p. absurd (cc p);
          seq = let f = ap (λ (x : ReplayLog P × Result ℕ). x.1) (sym q ∙ e) in cc f;
          after = sym (ap (λ (x : ReplayLog P × Result ℕ). x.0) (sym q ∙ e));
        }
      ]

  rollback_hit :
      (log : ReplayLog P) (k : Text) (n : ℕ) (t : DomainState P)
      → lookup text_dec k log.domains ≡ some t
      → t.next_seq ≡ n + 1
      → t.last_seq < n
      → rollback_seq log k n ≡ (put_domain k (record t { next_seq = n }) log, true)
  unfolding rollback_seq
  rollback_hit log k n t found next last = ground arith

  -- In a domain with no reservation outstanding, a reservation that is rolled back at once leaves
  -- every domain as it was.
  pub rollback-reserve :
      (log log' : ReplayLog P) (k : Text) (n : ℕ)
      → Settled (domain_or_new k log)
      → reserve_seq log k ≡ (log', ok n)
      → ((rollback_seq log' k n).1 ≡ true)
        × ((j : Text) → domain_or_new j (rollback_seq log' k n).0 ≡ domain_or_new j log)
  rollback-reserve log log' k n settled e = (ap (λ (x : ReplayLog P × Bool). x.1) hit, restored)
    where
      s : DomainState P
      s = domain_or_new k log

      r : Reserved log log' k n
      r = reserved log log' k n e

      t : DomainState P
      t = record s { next_seq = s.next_seq + 1 }

      hit :
          rollback_seq log' k n
          ≡ (put_domain k (record t { next_seq = n }) (put_domain k t log), true)
      hit =
          ap (λ l. rollback_seq l k n) r.after
          ∙ rollback_hit (put_domain k t log) k n t (lookup-assign_self text_dec k t log.domains)
              (omega (arith, r.seq)) (omega (arith, r.seq))

      back :
          (j : Text)
          → domain_or_new j (put_domain k (record t { next_seq = n }) (put_domain k t log))
            ≡ domain_or_new j log
      back j = elim (text_dec j k) [
        | yes p ↦
            ap
              (λ x.
                state_in x
                  (assign text_dec k (record t { next_seq = n }) (assign text_dec k t log.domains)))
              p
            ∙ state_in-assign k (record t { next_seq = n }) (assign text_dec k t log.domains)
            ∙ ap (λ (m : ℕ). record s { next_seq = m }) r.seq
            ∙ ap (λ x. state_in x log.domains) (sym p)
        | no ne ↦
            state_in-assign_ne j k (record t { next_seq = n }) (assign text_dec k t log.domains) ne
            ∙ state_in-assign_ne j k t log.domains ne
      ]

      restored : (j : Text) → domain_or_new j (rollback_seq log' k n).0 ≡ domain_or_new j log
      restored j = ap (λ (x : ReplayLog P × Bool). domain_or_new j x.0) hit ∙ back j

  append_live :
      (now : ℕ) (size_of : P → Option ℕ) (log : ReplayLog P) (k : Text) (payload : P)
      (kind : FrameKind) (seq : Option ℕ)
      → k ≢ []
      → log.closed ≡ false
      → append now size_of log k payload kind seq
        ≡ append_open now size_of
            (touched now size_of log k)
            k
            (touch now size_of log k).state
            payload
            kind
            seq
  append_live now size_of log [] payload kind seq ne live = absurd (ne refl)
  append_live now size_of log (c ∷ cs) payload kind seq ne live =
      unfold append in
      elim (if_cases log.closed (log, raise runtime_error)
        (append_open now size_of (touched now size_of log (c ∷ cs)) (c ∷ cs)
          (touch now size_of log (c ∷ cs)).state payload kind seq)) [
            | inl (shut, _) ↦ absurd (impossible (sym live ∙ shut))
            | inr (_, q) ↦ q
          ]
    where
      impossible : false ≡ true → ⊥
      impossible e = cc

  append_open_ok :
      (now : ℕ) (size_of : P → Option ℕ) (log : ReplayLog P) (k : Text) (s : DomainState P)
      (payload : P) (kind : FrameKind) (seq : Option ℕ) (size n next : ℕ)
      → size_of payload ≡ some size
      → choose_seq s seq ≡ some (n, next)
      → (append_open now size_of log k s payload kind seq).1
        ≡ ok (new_entry now size_of log k payload kind n size)
  append_open_ok now size_of log k s payload kind seq size n next sized chosen =
      unfold append_open in rw (sized, append_open) (rw (chosen, append_open))

  choose_reserved :
      (s : DomainState P) (n : ℕ)
      → s.next_seq ≡ n + 1
      → s.last_seq < n
      → choose_seq s (some n) ≡ some (n, s.next_seq)
  unfolding choose_seq
  choose_reserved s n h l = ground arith

  -- In a domain with no reservation outstanding, and for a payload whose size can be taken, the seq
  -- that was reserved is the seq that the confirming `append` gives to the frame.
  pub append-reserve :
      (now : ℕ) (size_of : P → Option ℕ) (log log' : ReplayLog P) (k : Text) (payload : P)
      (kind : FrameKind) (n size : ℕ)
      → Settled (domain_or_new k log)
      → reserve_seq log k ≡ (log', ok n)
      → size_of payload ≡ some size
      → (e : ReplayEntry P) × ((append now size_of log' k payload kind (some n)).1 ≡ ok e)
        × (e.seq ≡ n)
        × (e.size ≡ size)
  append-reserve now size_of log log' k payload kind n size settled e sized = (
    new_entry now size_of (touched now size_of log' k) k payload kind n size,
    ap (λ (x : ReplayLog P × Result (ReplayEntry P)). x.1)
          (append_live now size_of log' k payload kind (some n) r.named live)
        ∙ append_open_ok now size_of _ k (touch now size_of log' k).state payload kind (some n) size
            n (touch now size_of log' k).state.next_seq sized chosen,
    refl,
    refl,
  )
    where
      s : DomainState P
      s = domain_or_new k log

      r : Reserved log log' k n
      r = reserved log log' k n e

      live : log'.closed ≡ false
      live = ap (λ (l : ReplayLog P). l.closed) r.after ∙ r.open_log

      here : domain_or_new k log' ≡ record s { next_seq = s.next_seq + 1 }
      here = ap (λ l. domain_or_new k l) r.after ∙ state_in-assign k _ log.domains

      chosen :
          choose_seq (touch now size_of log' k).state (some n)
          ≡ some (n, (touch now size_of log' k).state.next_seq)
      chosen =
          let (a, b) =
            shed_while_seqs (expired log'.ttl_s now) (domain_or_new k log').entries
              (record { state = domain_or_new k log'; total = log'.total_bytes; evicted = 0 }) in
          let h = ap (λ (t : DomainState P). t.next_seq) here in
          let l = ap (λ (t : DomainState P). t.last_seq) here in
          choose_reserved _ n (omega (arith, r.seq)) (omega (arith, r.seq))
