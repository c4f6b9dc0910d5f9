-- ===== src/Replay/Moves.antt =====
-- What can happen to one domain of `ReplayLog` (sse/replay_log.py), move by move, when publishers
-- keep to the synchronous-scope contract of `reserve_seq`: no append without a reserved seq, and no
-- second reservation, while one is outstanding.
use mathlib.Core.Path.{sym, ap, subst, subst₂}
use oc_slimapi.Prelude.{
  ℕ, ◌+◌, ◌<◌, ◌≡◌, refl, ◌∙◌, ◌≢◌, Bool, true, Option, none, some, List, [], ◌∷◌, Text, text_dec,
  lookup, if_both,
}
use oc_slimapi.Prelude.Dict.{assign}
use oc_slimapi.Prelude.Dict.Laws.{lookup-assign_self, lookup-assign_ne}
use oc_slimapi.Replay.Types.{ReplayEntry, DomainState, new_domain}
use oc_slimapi.Replay.Evict.{Shed, drop_head, shed_while, shed}
use oc_slimapi.Replay.Write.{state_in, choose_seq, push_entry, raise_barrier, collect_barrier}

module _ {P : Type 0} where
  -- No reservation is outstanding.
  abbrev pub Settled : DomainState P → Type 0
  Settled s = s.next_seq ≡ s.last_seq + 1

  -- An append without a reserved seq finds the domain settled.
  abbrev pub Permitted : DomainState P → Option ℕ → Type 0
  Permitted s none = Settled s
  Permitted s (some seq) = Unit

  pub data Move (s : DomainState P) : DomainState P → Type 0 where
    drop :
        (e : ReplayEntry P) (es : List (ReplayEntry P))
        → s.entries ≡ e ∷ es
        → Move s (drop_head e es s)
    push :
        (e : ReplayEntry P) (seq : Option ℕ) (next : ℕ)
        → Permitted s seq
        → choose_seq s seq ≡ some (e.seq, next)
        → Move s (push_entry s e next)
    reserve : Settled s → Move s (record s { next_seq = s.next_seq + 1 })
    rollback :
        (seq : ℕ) → s.next_seq ≡ seq + 1 → s.last_seq < seq → Move s (record s { next_seq = seq })
    barrier : Move s (raise_barrier s)
    collect :
        Move s (record s { barrier_watermark = collect_barrier s.entries s.barrier_watermark })
    mark : Move s (record s { invalidated = true })

  pub data Moves (s : DomainState P) : DomainState P → Type 0 where
    still : Moves s s
    move : {t u : DomainState P} → Moves s t → Move t u → Moves s u

  pub Moves-trans : {s t u : DomainState P} → Moves s t → Moves t u → Moves s u
  Moves-trans m Moves.still = m
  Moves-trans m (Moves.move n x) = Moves.move (Moves-trans m n) x

  pub Moves-once : {s t : DomainState P} → Move s t → Moves s t
  Moves-once x = Moves.move Moves.still x

  -- A property that every move keeps is kept by all moves.
  pub Moves-keep {κ} :
      (Q : DomainState P → Type κ)
      → ((s t : DomainState P) → Move s t → Q s → Q t)
      → (s t : DomainState P) → Moves s t
      → Q s
      → Q t
  Moves-keep Q keep s _ Moves.still q = q
  Moves-keep Q keep s u (Moves.move {t = t} m x) q = keep t u x (Moves-keep Q keep s t m q)

  -- The eviction loops are drops.
  pub shed_while-Moves :
      (test : List (ReplayEntry P) → Bool) (es : List (ReplayEntry P)) (a : Shed P)
      → a.state.entries ≡ es
      → Moves a.state (shed_while test es a).state
  unfolding shed_while
  shed_while-Moves test [] a q = Moves.still
  shed_while-Moves test (e ∷ es) a q =
      if_both (λ (b : Shed P). Moves a.state b.state) (test (e ∷ es)) _ _
        (λ _. Moves-trans (Moves-once (Move.drop e es q)) (shed_while-Moves test es _ refl))
        (λ _. Moves.still)

  pub shed-Moves :
      (test : List (ReplayEntry P) → Bool) (s : DomainState P) (total : ℕ)
      → Moves s (shed test s total).state
  shed-Moves test s total =
      shed_while-Moves test s.entries (record { state = s; total = total; evicted = 0 }) refl

  -- Every domain moves on; a domain that is not there yet counts as a fresh one.
  abbrev pub Evolved : List (Text × DomainState P) → List (Text × DomainState P) → Type 0
  Evolved ds ds' = (k : Text) → Moves (state_in k ds) (state_in k ds')

  pub Evolved-trans :
      (ds ds' ds'' : List (Text × DomainState P))
      → Evolved ds ds'
      → Evolved ds' ds''
      → Evolved ds ds''
  Evolved-trans ds ds' ds'' e f k = Moves-trans (e k) (f k)

  pub state_in_found :
      (k : Text) (ds : List (Text × DomainState P)) {s : DomainState P}
      → lookup text_dec k ds ≡ some s
      → state_in k ds ≡ s
  state_in_found k ds found = rw (found, state_in)

  -- To store a moved domain is to evolve the log.
  pub assign-Evolved :
      (k : Text) (s : DomainState P) (ds : List (Text × DomainState P))
      → Moves (state_in k ds) s
      → Evolved ds (assign text_dec k s ds)
  assign-Evolved k s ds m j = elim (text_dec j k) [
    | yes p ↦
        subst₂ Moves (ap (λ x. state_in x ds) (sym p))
          (sym (
            ap (λ x. state_in x (assign text_dec k s ds)) p
            ∙ state_in_found k _ (lookup-assign_self text_dec k s ds)))
          m
    | no n ↦
        subst (Moves (state_in j ds)) (ap or_new (sym (lookup-assign_ne text_dec j k s ds n)))
          Moves.still
  ]
    where
      or_new : Option (DomainState P) → DomainState P
      or_new o = elim o [ none ↦ new_domain | some t ↦ t ]

  -- A domain that was just stored is the one at hand.
  pub state_in-assign :
      (k : Text) (s : DomainState P) (ds : List (Text × DomainState P))
      → state_in k (assign text_dec k s ds) ≡ s
  state_in-assign k s ds =
      state_in_found k (assign text_dec k s ds) (lookup-assign_self text_dec k s ds)

  pub state_in-assign_ne :
      (j k : Text) (s : DomainState P) (ds : List (Text × DomainState P))
      → j ≢ k
      → state_in j (assign text_dec k s ds) ≡ state_in j ds
  state_in-assign_ne j k s ds n = ap or_new (lookup-assign_ne text_dec j k s ds n)
    where
      or_new : Option (DomainState P) → DomainState P
      or_new o = elim o [ none ↦ new_domain | some t ↦ t ]
