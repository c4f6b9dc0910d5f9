-- ===== src/Replay/Victim.antt =====
-- The scan of `_evict_for_bytes` (sse/replay_log.py) finds a head of least append order.
use mathlib.Core.Path.{subst, sym}
use oc_slimapi.Prelude.{
  ℕ, ◌≤◌, ◌≡◌, refl, Option, none, some, List, [], ◌∷◌, arith, All, Bool-cases, ◌⊎◌, inl, inr, Text,
  text_dec, lookup, ltb,
}
use oc_slimapi.Prelude.Dict.Keys.{Found, Distinct-Found}
use oc_slimapi.Prelude.Dict.{Distinct}
use oc_slimapi.Replay.Types.{ReplayEntry, DomainState, frame_count}
use oc_slimapi.Replay.Evict.{better, victim}

module _ {P : Type 0} where
  abbrev pub HeadAbove : ℕ → List (ReplayEntry P) → Type 0
  HeadAbove m [] = Unit
  HeadAbove m (e ∷ _) = m ≤ e.order

  -- No domain has a head that was appended before `m`.
  abbrev pub HeadsAbove : ℕ → List (Text × DomainState P) → Type 0
  HeadsAbove m = All (λ d. HeadAbove m d.1.entries)

  -- The candidate names a domain of the log and the order of its head.
  abbrev pub Points : List (Text × DomainState P) → Option (Text × ℕ) → Type 0
  Points ds none = Unit
  Points ds (some v) =
      (s : DomainState P) × (e : ReplayEntry P) × (es : List (ReplayEntry P)) × (lookup text_dec v.0
          ds
        ≡ some s)
      × (s.entries ≡ e ∷ es)
      × (e.order ≡ v.1)

  better-Points :
      (ds : List (Text × DomainState P)) (best : Option (Text × ℕ)) (k : Text) (s : DomainState P)
      (es : List (ReplayEntry P))
      → s.entries ≡ es
      → lookup text_dec k ds ≡ some s
      → Points ds best
      → Points ds (better best k es)
  unfolding better
  better-Points ds none k s [] q f p = tt
  better-Points ds none k s (e ∷ es) q f p = (s, e, es, f, q, refl)
  better-Points ds (some b) k s [] q f p = p
  better-Points ds (some b) k s (e ∷ es) q f p = elim (Bool-cases (ltb e.order b.1)) [
    | inl t ↦ rw t (s, e, es, f, q, refl)
    | inr t ↦ rw t p
  ]

  victim-Points :
      (ds cs : List (Text × DomainState P)) (best : Option (Text × ℕ))
      → Found text_dec cs ds
      → Points ds best
      → Points ds (victim best cs)
  unfolding victim
  victim-Points ds [] best f p = p
  victim-Points ds (c ∷ cs) best f p =
      victim-Points ds cs (better best c.0 c.1.entries) f.1
        (better-Points ds best c.0 c.1 c.1.entries refl f.0 p)

  -- The victim is a domain of the log that has a head.
  pub victim_found :
      (ds : List (Text × DomainState P)) → Distinct text_dec ds → Points ds (victim none ds)
  victim_found ds h = victim-Points ds ds none (Distinct-Found text_dec ds h) tt

  HeadAbove-le : (m n : ℕ) (es : List (ReplayEntry P)) → m ≤ n → HeadAbove n es → HeadAbove m es
  HeadAbove-le m n [] h k = tt
  HeadAbove-le m n (e ∷ es) h k = omega arith

  -- The candidate after a round is no later than before it, nor than the head just seen.
  better_least :
      (best : Option (Text × ℕ)) (k : Text) (es : List (ReplayEntry P)) {b : Text × ℕ}
      → best ≡ some b
      → (b' : Text × ℕ) × (better best k es ≡ some b') × (b'.1 ≤ b.1) × HeadAbove b'.1 es
  unfolding better
  better_least none k es {b} h = cc
  better_least (some c) k [] {b} h = (c, refl, ground arith, tt)
  better_least (some c) k (e ∷ es) {b} h = elim (Bool-cases (ltb e.order c.1)) [
    | inl t ↦ rw t ((k, e.order), refl, ground arith, omega arith)
    | inr t ↦ rw t (c, refl, ground arith, ground arith)
  ]

  victim_keeps :
      (cs : List (Text × DomainState P)) (b : Text × ℕ)
      → (v : Text × ℕ) × (victim (some b) cs ≡ some v) × (v.1 ≤ b.1) × HeadsAbove v.1 cs
  unfolding victim
  victim_keeps [] b = (b, refl, omega arith, tt)
  victim_keeps (c ∷ cs) b =
      let (b', e', le', above') = better_least (some b) c.0 c.1.entries refl in
      let (v, e, le, above) = victim_keeps cs b' in
      rw e' (v, e, omega arith, (HeadAbove-le v.1 b'.1 c.1.entries le above', above))

  better_first :
      (k : Text) (es : List (ReplayEntry P))
      → ((b : Text × ℕ) × (better none k es ≡ some b) × HeadAbove b.1 es)
        ⊎ ((better none k es ≡ none) × (es ≡ []))
  unfolding better
  better_first k [] = inr (refl, refl)
  better_first k (e ∷ es) = inl ((k, e.order), refl, omega arith)

  -- No head is older than the victim's; and where there is no victim there is no frame.
  pub victim_least :
      (cs : List (Text × DomainState P))
      → ((v : Text × ℕ) × (victim none cs ≡ some v) × HeadsAbove v.1 cs)
        ⊎ ((victim none cs ≡ none) × (frame_count cs ≡ 0))
  unfolding victim
  victim_least [] = inr (refl, refl)
  victim_least (c ∷ cs) = elim (better_first c.0 c.1.entries) [
    | inl (b, e, above) ↦
        let (v, found, le, rest) = victim_keeps cs b in
        rw e (inl (v, found, (HeadAbove-le v.1 b.1 c.1.entries le above, rest)))
    | inr (e, empty) ↦ elim (victim_least cs) [
      | inl (v, found, rest) ↦ rw e (inl (v, found, (subst (HeadAbove v.1) (sym empty) tt, rest)))
      | inr (found, zero_frames) ↦ rw e (inr (found, ground arith))
    ]
  ]
