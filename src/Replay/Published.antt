-- ===== src/Replay/Published.antt =====
-- `append` (sse/replay_log.py): the theorems about a frame that it publishes.
use mathlib.Core.Path.{subst₂}
use oc_slimapi.Prelude.{
  ℕ, ◌<◌, ◌≡◌, refl, ◌∙◌, sym, ap, if_cases, if◌then◌else◌, Option, none, some, [], ◌∷◌, arith, ◌⊎◌,
  inl, inr, Text, text_dec, lookup,
}
use oc_slimapi.Replay.Types.{
  new_domain, runtime_error, value_error, ReplayEntry, FrameKind, DomainState, ReplayLog, Result,
  ok, raise, ReplayError,
}
use oc_slimapi.Replay.Write.{
  domain_or_new, choose_seq, publish, append_open, append, touch, touched, new_entry,
}
use oc_slimapi.Replay.Read.{last_seq}
use oc_slimapi.Replay.Invariant.{LogOk}
use oc_slimapi.Replay.Heads.{Newest}
use oc_slimapi.Replay.Append.{
  choose_seq-fresh, append_open_cases, publish-touched, publish-LogOk, touched-LogOk, touch-Sheds,
  touch-DomainOk,
}

module _ {P : Type 0} where
  -- What a frame that `append` returned is: it is addressed to its domain, its seq is past every
  -- seq published there before, and it ends that domain's window, the newest frame of the log.
  pub record Published (log log' : ReplayLog P) (domain : Text) (e : ReplayEntry P) : Type 0 where
    pub addressed : e.domain ≡ domain
    pub later : last_seq log domain < e.seq
    pub kept : Newest domain e log'.domains

  pub last_seq_or_new :
      (log : ReplayLog P) (k : Text) → last_seq log k ≡ (domain_or_new k log).last_seq
  last_seq_or_new log k = of_option (lookup text_dec k log.domains)
    where
      of_option :
          (o : Option (DomainState P))
          → (elim o [ none ↦ 0 | some s ↦ s.last_seq ])
            ≡ (let s : DomainState P = elim o [ none ↦ new_domain | some s ↦ s ] in s.last_seq)
      of_option none = refl
      of_option (some s) = refl

  module _ (now : ℕ) (size_of : P → Option ℕ) where
    -- How `append` ends: an exception that changes nothing, one after the expired head of the domain
    -- was dropped, or a published frame.
    abbrev pub Unchanged : ReplayLog P → ReplayLog P × Result (ReplayEntry P) → Type 0
    Unchanged log r = (err : ReplayError) × (r ≡ (log, raise err))

    abbrev pub Accepted :
        ReplayLog P
        → Text
        → P
        → FrameKind
        → Option ℕ
        → ReplayLog P × Result (ReplayEntry P)
        → Type 0
    Accepted log k payload kind seq r =
        (size n next : ℕ) × (choose_seq (touch now size_of log k).state seq ≡ some (n, next))
        × (r ≡ (
          publish (touched now size_of log k) (touch now size_of log k).state
              (new_entry now size_of (touched now size_of log k) k payload kind n size) next,
          ok (new_entry now size_of (touched now size_of log k) k payload kind n size),
        ))

    pub append_cases :
        (log : ReplayLog P) (k : Text) (payload : P) (kind : FrameKind) (seq : Option ℕ)
        → let r = append now size_of log k payload kind seq in
          Unchanged log r
          ⊎ Unchanged (touched now size_of log k) r
          ⊎ Accepted log k payload kind seq r
    append_cases log [] payload kind seq =
        inl (if log.closed then runtime_error else value_error, unfold append in refl)
    append_cases log (c ∷ cs) payload kind seq =
        elim (if_cases log.closed (log, raise runtime_error)
          (append_open now size_of (touched now size_of log (c ∷ cs)) (c ∷ cs)
            (touch now size_of log (c ∷ cs)).state payload kind seq)) [
              | inl (_, e) ↦ inl (runtime_error, unfold append in e)
              | inr (_, e) ↦
                  elim (append_open_cases now size_of (touched now size_of log (c ∷ cs)) (c ∷ cs)
                    (touch now size_of log (c ∷ cs)).state payload kind seq) [
                      | inl (err, q) ↦ inr (inl (err, unfold append in (e ∙ q)))
                      | inr (size, n, next, chosen, q) ↦
                          inr (inr (size, n, next, chosen, unfold append in (e ∙ q)))
                    ]
            ]

    -- On a well-formed log `append` keeps the invariant on every branch, the exceptions included:
    -- windows rise, byte counts add up, no domain holds more than `max_count` frames, and all of
    -- them hold at most `max_bytes` bytes or a single frame.
    pub append-LogOk :
        (log : ReplayLog P) (k : Text) (payload : P) (kind : FrameKind) (seq : Option ℕ)
        → LogOk log
        → LogOk (append now size_of log k payload kind seq).0
    append-LogOk log k payload kind seq h = elim (append_cases log k payload kind seq) [
      | inl (err, q) ↦ rw q h
      | inr (inl (err, q)) ↦ rw q (touched-LogOk now size_of log k h)
      | inr (inr (size, n, next, chosen, q)) ↦ rw q (
          publish-LogOk now size_of _ _ _ next h.positive
            (publish-touched now size_of log k payload kind size n next seq h chosen))
    ]

    -- On a well-formed log, a frame that `append` returned is addressed to its domain, its seq is
    -- past every seq published there before, and it ends that domain's window as the newest frame
    -- of the whole log.
    pub append-Published :
        (log log' : ReplayLog P) (k : Text) (payload : P) (kind : FrameKind) (seq : Option ℕ)
        (e : ReplayEntry P)
        → LogOk log
        → append now size_of log k payload kind seq ≡ (log', ok e)
        → Published log log' k e
    append-Published log log' k payload kind seq e h a =
        elim (append_cases log k payload kind seq) [
          | inl (err, q) ↦ absurd (impossible log err (sym q ∙ a))
          | inr (inl (err, q)) ↦ absurd (impossible _ err (sym q ∙ a))
          | inr (inr (size, n, next, chosen, q)) ↦
              let both = sym q ∙ a in
              let same : e_of log size n ≡ e =
                ok_inj (ap (λ (x : ReplayLog P × Result (ReplayEntry P)). x.1) both) in
              subst₂ (λ l x. Published log l k x)
                (ap (λ (x : ReplayLog P × Result (ReplayEntry P)). x.0) both) same
                (record {
                  addressed = refl;
                  later =
                      let d = touch-DomainOk now size_of log k h in
                      let f = choose_seq-fresh _ seq n next d.fresh chosen in
                      let t = touch-Sheds now size_of log k h in
                      omega (arith, f.0, t.same_last, last_seq_or_new log k);
                  kept =
                      (publish-touched now size_of log k payload kind size n next seq h
                        chosen).newest;
                })
        ]
      where
        e_of : ReplayLog P → ℕ → ℕ → ReplayEntry P
        e_of l size n = new_entry now size_of (touched now size_of l k) k payload kind n size

        ok_inj : {x y : ReplayEntry P} → Result.ok x ≡ Result.ok y → x ≡ y
        ok_inj p = cc

        impossible :
            (l : ReplayLog P) (err : ReplayError)
            → ◌≡◌ {A = ReplayLog P × Result (ReplayEntry P)} (l, raise err) (log', ok e)
            → ⊥
        impossible l err p = let q = ap (λ (x : ReplayLog P × Result (ReplayEntry P)). x.1) p in cc
