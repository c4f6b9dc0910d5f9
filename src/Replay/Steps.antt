-- ===== src/Replay/Steps.antt =====
-- The operations of `ReplayLog` (sse/replay_log.py) as steps of a log, and how a step moves each
-- domain.
use mathlib.Core.Path.{sym, subst}
use oc_slimapi.Prelude.{
  ℕ, suc, zero, ◌+◌, ◌≡◌, refl, Bool, Option, none, some, List, [], ◌∷◌, arith, inl, inr, Text,
  text_dec, lookup, if_both, Bool-cases, Option-cases, ltb, length,
}
use oc_slimapi.Prelude.Dict.{assign}
use oc_slimapi.Replay.Types.{ReplayEntry, FrameKind, DomainState, ReplayLog, frame_count}
use oc_slimapi.Replay.Evict.{
  Shed, shed_while, drop_head, evict_for_count, drop_head_of, byte_loop, evict_for_bytes, expired,
}
use oc_slimapi.Replay.Write.{domain_or_new, choose_seq, publish, append, touch, touched, push_entry}
use oc_slimapi.Replay.Victim.{victim_least}
use oc_slimapi.Replay.Heads.{drop_head_of_lem, drop_head_of_absent, drop_head_of_empty}
use oc_slimapi.Replay.Budget.{
  byte_loop_few, byte_loop_one, byte_loop-none, byte_loop_stop, byte_loop_next,
}
use oc_slimapi.Replay.Published.{append_cases}
use oc_slimapi.Replay.Moves.{
  Permitted, Move, Moves, Moves-trans, Moves-once, shed-Moves, state_in-assign, Evolved,
  assign-Evolved, state_in_found,
}

module _ {P : Type 0} where
  pub unmoved : (ds : List (Text × DomainState P)) → Evolved ds ds
  unmoved ds k = Moves.still

  drop_head_of-Evolved :
      (k : Text) (ds : List (Text × DomainState P)) (total : ℕ)
      → Evolved ds (drop_head_of k ds total).0
  drop_head_of-Evolved k ds total = elim (Option-cases (lookup text_dec k ds)) [
    | inl absent ↦ rw (drop_head_of_absent k ds total absent) (unmoved ds)
    | inr (s, found) ↦ of_entries s found s.entries refl
  ]
    where
      of_entries :
          (s : DomainState P)
          → lookup text_dec k ds ≡ some s
          → (es : List (ReplayEntry P)) → s.entries ≡ es
          → Evolved ds (drop_head_of k ds total).0
      of_entries s found [] q = rw (drop_head_of_empty k ds s total found q) (unmoved ds)
      of_entries s found (e ∷ es) q = rw (drop_head_of_lem (k, 0) ds s e es found q total) (
          assign-Evolved k (drop_head e es s) ds (
            subst (λ t. Moves t (drop_head e es s)) (sym (state_in_found k ds found))
              (Moves-once (Move.drop e es q))))

  byte_loop-Evolved :
      (max_bytes frames : ℕ) (ds : List (Text × DomainState P)) (total : ℕ)
      → Evolved ds (byte_loop frames max_bytes ds total).0
  byte_loop-Evolved max_bytes zero ds total = rw byte_loop_few (unmoved ds)
  byte_loop-Evolved max_bytes (suc zero) ds total = rw byte_loop_one (unmoved ds)
  byte_loop-Evolved max_bytes (suc (suc frames)) ds total =
      elim (Bool-cases (ltb max_bytes total)) [
        | inr t ↦ rw (byte_loop_stop, t) (unmoved ds)
        | inl t ↦ elim (victim_least ds) [
          | inr (e, _) ↦ rw (byte_loop-none frames max_bytes ds total t e) (unmoved ds)
          | inl (v, found, above) ↦ rw (byte_loop_next frames max_bytes ds total v t found) (λ k.
              Moves-trans (drop_head_of-Evolved v.0 ds total k)
                (byte_loop-Evolved max_bytes (suc frames) _ _ k))
        ]
      ]

  publish-Evolved :
      (log : ReplayLog P) (s : DomainState P) (e : ReplayEntry P) (seq : Option ℕ) (next : ℕ)
      → Moves (domain_or_new e.domain log) s
      → Permitted s seq
      → choose_seq s seq ≡ some (e.seq, next)
      → Evolved log.domains (publish log s e next).domains
  unfolding publish evict_for_bytes
  publish-Evolved log s e seq next m may chosen k =
      let p = push_entry s e next in
      let c = evict_for_count log.max_count p (log.total_bytes + e.size) in
      let ds = assign text_dec e.domain c.state log.domains in
      Moves-trans
        (assign-Evolved e.domain c.state log.domains
          (Moves-trans (Moves-trans m (Moves-once (Move.push e seq next may chosen)))
            (shed-Moves (λ es. ltb log.max_count (length es)) p (log.total_bytes + e.size)))
          k)
        (byte_loop-Evolved log.max_bytes (frame_count ds) ds c.total k)

  -- The eviction loops leave the counters of a domain alone.
  pub shed_while_seqs :
      (test : List (ReplayEntry P) → Bool) (es : List (ReplayEntry P)) (a : Shed P)
      → ((shed_while test es a).state.next_seq ≡ a.state.next_seq)
        × ((shed_while test es a).state.last_seq ≡ a.state.last_seq)
  unfolding shed_while
  shed_while_seqs test [] a = (refl, refl)
  shed_while_seqs test (e ∷ es) a =
      if_both
        (λ (b : Shed P).
          (b.state.next_seq ≡ a.state.next_seq) × (b.state.last_seq ≡ a.state.last_seq))
        (test (e ∷ es)) _ _ (λ _. shed_while_seqs test es _) (λ _. (refl, refl))

  Permitted-touched :
      (now : ℕ) (size_of : P → Option ℕ) (log : ReplayLog P) (k : Text) (seq : Option ℕ)
      → Permitted (domain_or_new k log) seq
      → Permitted (touch now size_of log k).state seq
  Permitted-touched now size_of log k none may =
      let (n, l) =
        shed_while_seqs (expired log.ttl_s now) (domain_or_new k log).entries
          (record { state = domain_or_new k log; total = log.total_bytes; evicted = 0 }) in
      omega arith
  Permitted-touched now size_of log k (some seq) may = tt

  touched-Evolved :
      (now : ℕ) (size_of : P → Option ℕ) (log : ReplayLog P) (k : Text)
      → Evolved log.domains (touched now size_of log k).domains
  touched-Evolved now size_of log k =
      assign-Evolved k (touch now size_of log k).state log.domains
        (shed-Moves (expired log.ttl_s now) (domain_or_new k log) log.total_bytes)

  pub append-Evolved :
      (now : ℕ) (size_of : P → Option ℕ) (log : ReplayLog P) (k : Text) (payload : P)
      (kind : FrameKind) (seq : Option ℕ)
      → Permitted (domain_or_new k log) seq
      → Evolved log.domains (append now size_of log k payload kind seq).0.domains
  append-Evolved now size_of log k payload kind seq may =
      elim (append_cases now size_of log k payload kind seq) [
        | inl (err, q) ↦ rw q (unmoved log.domains)
        | inr (inl (err, q)) ↦ rw q (touched-Evolved now size_of log k)
        | inr (inr (size, n, next, chosen, q)) ↦ rw q (λ j.
            Moves-trans (touched-Evolved now size_of log k j) (
              publish-Evolved (touched now size_of log k) (touch now size_of log k).state _ seq next
                (subst (λ t. Moves t (touch now size_of log k).state)
                  (sym (state_in-assign k (touch now size_of log k).state log.domains)) Moves.still)
                (Permitted-touched now size_of log k seq may) chosen j))
      ]
