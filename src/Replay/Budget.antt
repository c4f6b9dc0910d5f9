-- ===== src/Replay/Budget.antt =====
-- The loop of `_evict_for_bytes` (sse/replay_log.py): where it ends and what it never drops.
use mathlib.Core.Path.{subst}
use oc_slimapi.Prelude.{
  ℕ, zero, suc, ◌-◌, ◌≡◌, refl, true, false, none, some, List, [], ◌∷◌, arith, All, Bool-cases,
  Option-cases, inl, inr, Text, text_dec, lookup, ltb,
}
use oc_slimapi.Prelude.Dict.{assign}
use oc_slimapi.Prelude.Dict.Laws.{All-assign, All-lookup}
use oc_slimapi.Replay.Types.{ReplayEntry, DomainState, frame_count}
use oc_slimapi.Replay.Evict.{drop_head, victim, drop_head_of, byte_loop}
use oc_slimapi.Replay.Invariant.{Stored, WithinBudget}
use oc_slimapi.Replay.Victim.{Points, victim_found, victim_least}
use oc_slimapi.Replay.Heads.{
  drop_head_of_lem, drop-frame_count, drop-Stored, Newest, drop_head_of_absent, drop_head_of_empty,
  drop-Newest,
}

module _ {P : Type 0} where
  pub byte_loop_few :
      (max_bytes : ℕ) (ds : List (Text × DomainState P)) (total : ℕ)
      → byte_loop zero max_bytes ds total ≡ (ds, total)
  unfolding byte_loop
  byte_loop_few max_bytes ds total = refl

  pub byte_loop_one :
      (max_bytes : ℕ) (ds : List (Text × DomainState P)) (total : ℕ)
      → byte_loop (suc zero) max_bytes ds total ≡ (ds, total)
  unfolding byte_loop
  byte_loop_one max_bytes ds total = refl

  pub byte_loop_stop :
      (frames max_bytes : ℕ) (ds : List (Text × DomainState P)) (total : ℕ)
      → ltb max_bytes total ≡ false
      → byte_loop (suc (suc frames)) max_bytes ds total ≡ (ds, total)
  unfolding byte_loop
  byte_loop_stop frames max_bytes ds total t = ground arith

  pub byte_loop_next :
      (frames max_bytes : ℕ) (ds : List (Text × DomainState P)) (total : ℕ) (v : Text × ℕ)
      → ltb max_bytes total ≡ true
      → victim none ds ≡ some v
      → byte_loop (suc (suc frames)) max_bytes ds total
        ≡ byte_loop
            (suc frames)
            max_bytes
            (drop_head_of v.0 ds total).0
            (drop_head_of v.0 ds total).1
  unfolding byte_loop
  byte_loop_next frames max_bytes ds total v t e = rw (t, byte_loop) (rw (e, byte_loop))

  pub byte_loop-none :
      (frames max_bytes : ℕ) (ds : List (Text × DomainState P)) (total : ℕ)
      → ltb max_bytes total ≡ true
      → victim none ds ≡ none
      → byte_loop (suc (suc frames)) max_bytes ds total ≡ (ds, total)
  unfolding byte_loop
  byte_loop-none frames max_bytes ds total t e = rw (t, byte_loop) (rw (e, byte_loop))

  drop_head_of-All {κ} :
      (Q : DomainState P → Type κ)
      → ((s : DomainState P) (e : ReplayEntry P) (es : List (ReplayEntry P))
          → s.entries ≡ e ∷ es
          → Q s
          → Q (drop_head e es s))
      → (k : Text) (ds : List (Text × DomainState P)) (total : ℕ) → All (λ d. Q d.1) ds
      → All (λ d. Q d.1) (drop_head_of k ds total).0
  drop_head_of-All Q keep k ds total h = elim (Option-cases (lookup text_dec k ds)) [
    | inl absent ↦ rw (drop_head_of_absent k ds total absent) h
    | inr (s, found) ↦ of_entries s found s.entries refl
  ]
    where
      of_entries :
          (s : DomainState P)
          → lookup text_dec k ds ≡ some s
          → (es : List (ReplayEntry P)) → s.entries ≡ es
          → All (λ d. Q d.1) (drop_head_of k ds total).0
      of_entries s found [] q = rw (drop_head_of_empty k ds s total found q) h
      of_entries s found (e ∷ es) q = rw (drop_head_of_lem (k, 0) ds s e es found q total) (
          All-assign text_dec Q k (drop_head e es s) ds
            (keep s e es q (All-lookup text_dec Q k ds h found)) h)

  -- What the loop leaves, started with its counter at the number of frames.
  pub record Evicted (m o max_bytes : ℕ) (k : Text) (new : ReplayEntry P)
      (r : List (Text × DomainState P) × ℕ) : Type 0 where
    pub stored : Stored m o r.0 r.1
    pub budget : WithinBudget max_bytes r.0 r.1
    pub newest : Newest k new r.0

  pub byte_loop-Evicted :
      (m o max_bytes : ℕ) (k : Text) (new : ReplayEntry P) (frames : ℕ)
      (ds : List (Text × DomainState P)) (total : ℕ)
      → frames ≡ frame_count ds
      → Stored m o ds total
      → Newest k new ds
      → Evicted m o max_bytes k new (byte_loop frames max_bytes ds total)
  byte_loop-Evicted m o max_bytes k new zero ds total f h w =
      rw byte_loop_few (record { stored = h; budget = inr (omega arith); newest = w })
  byte_loop-Evicted m o max_bytes k new (suc zero) ds total f h w =
      rw byte_loop_one (record { stored = h; budget = inr (omega arith); newest = w })
  byte_loop-Evicted m o max_bytes k new (suc (suc frames)) ds total f h w =
      elim (Bool-cases (ltb max_bytes total)) [
        | inr t ↦
            rw (byte_loop_stop, t) (record { stored = h; budget = inl (ground arith); newest = w })
        | inl t ↦ elim (victim_least ds) [
          | inr (_, z) ↦ absurd (omega arith)
          | inl (v, found, above) ↦
              let (s, e, es, at, q, ord) = subst (Points ds) found (victim_found ds h.distinct) in
              rw
                (
                  byte_loop_next frames max_bytes ds total v t found,
                  drop_head_of_lem v ds s e es at q total,
                )
                (byte_loop-Evicted m o max_bytes k new (suc frames)
                  (assign text_dec v.0 (drop_head e es s) ds) (total - e.size)
                  (omega (arith, drop-frame_count v ds s e es at q))
                  (drop-Stored v ds s e es at q h)
                  (drop-Newest k new v ds s e es at q ord above (omega arith) w))
        ]
      ]

  -- What a dropped head keeps of a domain, the loop keeps of every domain.
  pub byte_loop-All {κ} :
      (Q : DomainState P → Type κ)
      → ((s : DomainState P) (e : ReplayEntry P) (es : List (ReplayEntry P))
          → s.entries ≡ e ∷ es
          → Q s
          → Q (drop_head e es s))
      → (max_bytes frames : ℕ) (ds : List (Text × DomainState P)) (total : ℕ) → All (λ d. Q d.1) ds
      → All (λ d. Q d.1) (byte_loop frames max_bytes ds total).0
  byte_loop-All Q keep max_bytes zero ds total h = rw byte_loop_few h
  byte_loop-All Q keep max_bytes (suc zero) ds total h = rw byte_loop_one h
  byte_loop-All Q keep max_bytes (suc (suc frames)) ds total h =
      elim (Bool-cases (ltb max_bytes total)) [
        | inr t ↦ rw (byte_loop_stop, t) h
        | inl t ↦ elim (victim_least ds) [
          | inr (e, _) ↦ rw (byte_loop-none frames max_bytes ds total t e) h
          | inl (v, found, above) ↦ rw (byte_loop_next frames max_bytes ds total v t found) (
              byte_loop-All Q keep max_bytes (suc frames) _ _
                (drop_head_of-All Q keep v.0 ds total h))
        ]
      ]
