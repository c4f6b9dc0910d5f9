-- ===== src/Replay/Classify.antt =====
-- `replay` (sse/replay_log.py) against a description of its outcome that counts frames.
use mathlib.Core.Path.{subst, sym}
use oc_slimapi.Prelude.{
  ℕ, suc, zero, ◌+◌, ◌-◌, ◌≤◌, ◌<◌, ◌≡◌, refl, true, false, Option, none, some, List, [], ◌∷◌,
  arith, inl, inr, length, ltb, leb, if◌then◌else◌, drop, Bool-cases,
}
use oc_slimapi.Replay.Types.{
  ReplayEntry, DomainState, ReplayOutcome, frames, resync, ignore_reset, reconnect_no_replay,
  replay_expired, ResyncReason,
}
use oc_slimapi.Replay.Read.{newer, adjacent, classify_window, intercepts, classify}
use oc_slimapi.Replay.Window.{Run}
use oc_slimapi.Replay.Paced.{Paced, Covers, Blocked}

module _ {P : Type 0} where
  -- What a cursor is owed: the frames published after it are `last_seq - after` many, and they are
  -- served exactly when the window still holds that many.
  abbrev pub owed : ℕ → DomainState P → ReplayOutcome P
  owed after s =
      if intercepts s.barrier_watermark after
      then resync reconnect_no_replay
      else if ltb s.last_seq after
      then ignore_reset after
      else if leb (s.last_seq - after) (length s.entries)
      then frames (drop (length s.entries - (s.last_seq - after)) s.entries)
      else resync replay_expired

  drop-nil : (n : ℕ) → drop {A = ReplayEntry P} n [] ≡ []
  drop-nil zero = refl
  drop-nil (suc n) = refl

  newer-drop :
      (after last : ℕ) (es : List (ReplayEntry P))
      → Run es last
      → newer after es ≡ drop (length es - (last - after)) es
  unfolding newer
  newer-drop after last [] r = sym (drop-nil (0 - (last - after)))
  newer-drop after last (e ∷ es) r = elim (Bool-cases (ltb after e.seq)) [
    | inl t ↦
        let z : length es - (last - after) ≡ 0 = ground arith in
        let z' : suc (length es) - (last - after) ≡ 0 = ground arith in
        rw (t, newer-drop after last es r.1, z, z')
    | inr t ↦
        let z : suc (length es) - (last - after) ≡ suc (length es - (last - after)) =
          ground arith in
        rw (t, z) (newer-drop after last es r.1)
  ]

  adjacent-Run :
      (last : ℕ) (e : ReplayEntry P) (es : List (ReplayEntry P))
      → Run (e ∷ es) last
      → adjacent e es ≡ true
  unfolding adjacent
  adjacent-Run last e [] r = refl
  adjacent-Run last e (f ∷ es) r = ground (arith, adjacent-Run last f es r.1)

  drop-Run : (last n : ℕ) (es : List (ReplayEntry P)) → Run es last → Run (drop n es) last
  drop-Run last zero es r = r
  drop-Run last (suc n) [] r = tt
  drop-Run last (suc n) (e ∷ es) r = drop-Run last n es r.1

  length-drop : (n : ℕ) (es : List (ReplayEntry P)) → length (drop n es) ≡ length es - n
  length-drop zero es = omega arith
  length-drop (suc n) [] = omega arith
  length-drop (suc n) (e ∷ es) = omega (arith, length-drop n es)

  -- The tail of the classification on a run that ends at the last published seq.
  classify_window_held :
      (after last : ℕ) (es : List (ReplayEntry P))
      → Run es last
      → after + length es ≡ last
      → (classify_window after last es).0 ≡ frames es
  unfolding classify_window
  classify_window_held after last [] r h = ground arith
  classify_window_held after last (e ∷ es) r h = ground (arith, adjacent-Run last e es r)

  classify_window_lost :
      (after last : ℕ) (es : List (ReplayEntry P))
      → Run es last
      → after + length es < last
      → (classify_window after last es).0 ≡ resync replay_expired
  unfolding classify_window
  classify_window_lost after last [] r h = ground arith
  classify_window_lost after last (e ∷ es) r h = ground arith

  -- The outcome for a cursor is the one that it is owed; in particular never `replay_gap`.
  pub classify-owed :
      (after : ℕ) (s : DomainState P) → Paced s → (classify after s).0 ≡ owed after s
  unfolding classify
  classify-owed after s p = elim (Bool-cases (intercepts s.barrier_watermark after)) [
    | inl b ↦ rw b
    | inr b ↦ elim (Bool-cases (ltb s.last_seq after)) [
      | inl f ↦ rw (b, f)
      | inr f ↦ elim (Bool-cases (leb (s.last_seq - after) (length s.entries))) [
        | inl c ↦
            let le : s.last_seq - after ≤ length s.entries = ground arith in
            let le' : after ≤ s.last_seq = ground arith in
            let n = length s.entries - (s.last_seq - after) in
            rw (b, f, c, newer-drop after s.last_seq s.entries p.run)
              (classify_window_held after s.last_seq (drop n s.entries)
                (drop-Run s.last_seq n s.entries p.run) (omega (arith, length-drop n s.entries)))
        | inr c ↦
            let lt : length s.entries < s.last_seq - after = ground arith in
            let z : length s.entries - (s.last_seq - after) ≡ 0 = omega arith in
            rw (b, f, c, newer-drop after s.last_seq s.entries p.run, z)
              (classify_window_lost after s.last_seq s.entries p.run (omega arith))
      ]
    ]
  ]

  -- A cursor that is blocked is told to resync.
  pub owed-Blocked :
      (after w : ℕ) (s : DomainState P)
      → Blocked w s
      → after ≤ w
      → (reason : ResyncReason) × (owed after s ≡ resync reason)
  owed-Blocked after w s b le = elim (Bool-cases (intercepts s.barrier_watermark after)) [
    | inl t ↦ (reconnect_no_replay, rw t)
    | inr t ↦ elim b.shut [
      | inl c ↦ absurd (not_covered s.barrier_watermark c t)
      | inr l ↦
          let f : ltb s.last_seq after ≡ false = ground arith in
          let g : leb (s.last_seq - after) (length s.entries) ≡ false = ground arith in
          (replay_expired, rw (t, f, g))
    ]
  ]
    where
      not_covered : (o : Option ℕ) → Covers o w → intercepts o after ≡ false → ⊥
      not_covered none c t = c
      not_covered (some b) c t = ground arith

  -- Frames that are owed run from right after the cursor to the last published one.
  pub owed_frames :
      (after : ℕ) (s : DomainState P) (es : List (ReplayEntry P))
      → Paced s
      → owed after s ≡ frames es
      → Run es s.last_seq × (after + length es ≡ s.last_seq)
  owed_frames after s es p e = elim (Bool-cases (intercepts s.barrier_watermark after)) [
    | inl b ↦ let e' = rw b at e in absurd (cc e')
    | inr b ↦ elim (Bool-cases (ltb s.last_seq after)) [
      | inl f ↦ let e' = rw (b, f) at e in absurd (cc e')
      | inr f ↦ elim (Bool-cases (leb (s.last_seq - after) (length s.entries))) [
        | inr c ↦ let e' = rw (b, f, c) at e in absurd (cc e')
        | inl c ↦
            let n = length s.entries - (s.last_seq - after) in
            let e' = rw (b, f, c) at e in
            let q : drop n s.entries ≡ es = cc e' in
            let le : s.last_seq - after ≤ length s.entries = ground arith in
            let le' : after ≤ s.last_seq = ground arith in
            subst (λ xs. Run xs s.last_seq × (after + length xs ≡ s.last_seq)) q
              (drop-Run s.last_seq n s.entries p.run, omega (arith, length-drop n s.entries))
      ]
    ]
  ]
