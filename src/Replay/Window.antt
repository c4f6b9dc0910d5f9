-- ===== src/Replay/Window.antt =====
-- The shape of a domain's ring window, sse/replay_log.py `_DomainState.entries`, and what the
-- eviction loops keep of it.
use oc_slimapi.Prelude.{
  ℕ, suc, ◌+◌, ◌-◌, ◌≤◌, ◌<◌, ◌≡◌, refl, Bool, false, List, [], ◌∷◌, ◌++◌, arith, length,
  length-append, All, Bool-cases, inl, inr,
}
use oc_slimapi.Replay.Types.{ReplayEntry, DomainState, size_sum}
use oc_slimapi.Replay.Evict.{Shed, shed_while, shed, drop_head}

module _ {P : Type 0} where
  -- The seqs rise strictly from above `lo`, and `hi` bounds them.
  abbrev pub Rising : ℕ → List (ReplayEntry P) → ℕ → Type 0
  Rising lo [] hi = lo ≤ hi
  Rising lo (e ∷ es) hi = (lo < e.seq) × Rising e.seq es hi

  -- The seqs are consecutive and end at `hi`.
  abbrev pub Run : List (ReplayEntry P) → ℕ → Type 0
  Run [] hi = Unit
  Run (e ∷ es) hi = (e.seq + length es ≡ hi) × Run es hi

  -- Appended in order, by the process-wide counter, the last of them at most `hi`.
  abbrev pub Ordered : List (ReplayEntry P) → ℕ → Type 0
  Ordered es hi = All (λ e. e.order ≤ hi) es

  pub data Suffix (es : List (ReplayEntry P)) : List (ReplayEntry P) → Type 0 where
    here : Suffix es es
    there : {fs : List (ReplayEntry P)} (f : ReplayEntry P) → Suffix es fs → Suffix es (f ∷ fs)

  pub Rising-widen :
      (lo lo' hi : ℕ) (es : List (ReplayEntry P)) → lo' ≤ lo → Rising lo es hi → Rising lo' es hi
  Rising-widen lo lo' hi [] h r = omega arith
  Rising-widen lo lo' hi (e ∷ es) h r = (omega arith, r.1)

  pub Suffix-Rising :
      (lo hi : ℕ) (es fs : List (ReplayEntry P)) → Suffix es fs → Rising lo fs hi → Rising lo es hi
  Suffix-Rising lo hi es _ here r = r
  Suffix-Rising lo hi es _ (there {fs = fs} f s) r =
      Suffix-Rising lo hi es fs s (Rising-widen f.seq lo hi fs (omega arith) r.1)

  pub Suffix-Run : (hi : ℕ) (es fs : List (ReplayEntry P)) → Suffix es fs → Run fs hi → Run es hi
  Suffix-Run hi es _ here r = r
  Suffix-Run hi es _ (there {fs = fs} f s) r = Suffix-Run hi es fs s r.1

  pub Suffix-Ordered :
      (hi : ℕ) (es fs : List (ReplayEntry P)) → Suffix es fs → Ordered fs hi → Ordered es hi
  Suffix-Ordered hi es _ here r = r
  Suffix-Ordered hi es _ (there {fs = fs} f s) r = Suffix-Ordered hi es fs s r.1

  pub Rising-append :
      (lo hi : ℕ) (es : List (ReplayEntry P)) (e : ReplayEntry P)
      → hi < e.seq
      → Rising lo es hi
      → Rising lo (es ++ (e ∷ [])) e.seq
  Rising-append lo hi [] e h r = omega arith
  Rising-append lo hi (f ∷ es) e h r = (r.0, Rising-append f.seq hi es e h r.1)

  pub Run-append :
      (hi : ℕ) (es : List (ReplayEntry P)) (e : ReplayEntry P)
      → e.seq ≡ hi + 1
      → Run es hi
      → Run (es ++ (e ∷ [])) e.seq
  Run-append hi [] e h r = omega arith
  Run-append hi (f ∷ es) e h r =
      (omega (arith, length-append es (e ∷ [])), Run-append hi es e h r.1)

  pub Ordered-widen :
      (hi hi' : ℕ) (es : List (ReplayEntry P)) → hi ≤ hi' → Ordered es hi → Ordered es hi'
  Ordered-widen hi hi' [] h r = tt
  Ordered-widen hi hi' (e ∷ es) h r = (omega arith, Ordered-widen hi hi' es h r.1)

  pub Ordered-append :
      (hi : ℕ) (es : List (ReplayEntry P)) (e : ReplayEntry P)
      → e.order ≤ hi
      → Ordered es hi
      → Ordered (es ++ (e ∷ [])) hi
  Ordered-append hi [] e h r = (h, tt)
  Ordered-append hi (f ∷ es) e h r = (r.0, Ordered-append hi es e h r.1)

  -- What an eviction loop does to a domain and to the byte total of the log.
  pub record Sheds (s : DomainState P) (total n : ℕ) (a : Shed P) : Type 0 where
    pub suffix : Suffix a.state.entries s.entries
    pub same_next : a.state.next_seq ≡ s.next_seq
    pub same_last : a.state.last_seq ≡ s.last_seq
    pub same_barrier : a.state.barrier_watermark ≡ s.barrier_watermark
    pub same_flag : a.state.invalidated ≡ s.invalidated
    pub sized : a.state.bytes ≡ size_sum a.state.entries
    pub balanced : a.total + s.bytes ≡ total + a.state.bytes
    pub counted : a.evicted + length a.state.entries ≡ n + length s.entries

  unshed :
      (s : DomainState P) (total n : ℕ)
      → s.bytes ≡ size_sum s.entries
      → Sheds s total n (record { state = s; total = total; evicted = n })
  unshed s total n b = record {
    suffix = here;
    same_next = refl;
    same_last = refl;
    same_barrier = refl;
    same_flag = refl;
    sized = b;
    balanced = refl;
    counted = refl;
  }

  pub shed_while-Sheds :
      (test : List (ReplayEntry P) → Bool) (es : List (ReplayEntry P)) (s : DomainState P)
      (total n : ℕ)
      → s.entries ≡ es
      → s.bytes ≡ size_sum es
      → s.bytes ≤ total
      → Sheds s total n (shed_while test es (record { state = s; total = total; evicted = n }))
  unfolding shed_while
  shed_while-Sheds test [] s total n e b t = unshed s total n (rw e b)
  shed_while-Sheds test (x ∷ es) s total n e b t = elim (Bool-cases (test (x ∷ es))) [
    | inl p ↦
        let ih =
          shed_while-Sheds test es (drop_head x es s) (total - x.size) (suc n) refl (omega arith)
            (omega arith) in
        rw p (record {
          suffix = rw e (there x ih.suffix);
          same_next = ih.same_next;
          same_last = ih.same_last;
          same_barrier = ih.same_barrier;
          same_flag = ih.same_flag;
          sized = ih.sized;
          balanced = omega (arith, ih.balanced);
          counted = rw e (omega (arith, ih.counted));
        })
    | inr p ↦ rw p (unshed s total n (rw e b))
  ]

  pub shed-Sheds :
      (test : List (ReplayEntry P) → Bool) (s : DomainState P) (total : ℕ)
      → s.bytes ≡ size_sum s.entries
      → s.bytes ≤ total
      → Sheds s total 0 (shed test s total)
  shed-Sheds test s total b t = shed_while-Sheds test s.entries s total 0 refl b t

  -- Where the loop stops its test fails, or nothing is left.
  pub shed_while_stops :
      (test : List (ReplayEntry P) → Bool) (es : List (ReplayEntry P)) (a : Shed P)
      → a.state.entries ≡ es
      → test [] ≡ false
      → test (shed_while test es a).state.entries ≡ false
  unfolding shed_while
  shed_while_stops test [] a e h = rw e h
  shed_while_stops test (x ∷ es) a e h = elim (Bool-cases (test (x ∷ es))) [
    | inl p ↦ rw p (shed_while_stops test es _ refl h)
    | inr p ↦ rw (p, e) p
  ]
