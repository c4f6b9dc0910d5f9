-- ===== src/Turns/Restarts.antt =====
-- turn_registry.py `IncarnationStore`: restarts on the same files.
use mathlib.Core.Path.{subst}
use oc_slimapi.Prelude.{
  ℕ, ◌+◌, ◌<◌, ◌≡◌, refl, sym, ap, ◌∙◌, Bool, true, false, none, some, List, [], ◌∷◌, arith,
  Option-cases, inl, inr, ◌⊎◌,
}
use oc_slimapi.Turns.{IncarnationValue}
use oc_slimapi.Turns.Incarnation.{
  holds, Files, base_of, line_of, write_attempts, Attempts, outcomes, load_or_bump, life,
}
use oc_slimapi.Turns.Reading.{base_of-bumped}

-- The writes leave the files with the number and say so, or leave them alone and say that.
write_attempts_lem :
    (inc : ℕ) (oks : List Bool) (f : Files)
    → (write_attempts inc oks f ≡ (record f { primary = holds (line_of inc) }, true))
      ⊎ (write_attempts inc oks f ≡ (f, false))
unfolding write_attempts
write_attempts_lem inc [] f = inr refl
write_attempts_lem inc (true ∷ oks) f = inl refl
write_attempts_lem inc (false ∷ oks) f = write_attempts_lem inc oks f

-- The outcome of a startup: what it read, and the files and the number that it leaves.
pub record Bumped (f f' : Files) (v : IncarnationValue) : Type 0 where
  pub base : ℕ
  pub based : base_of f ≡ some base
  pub above : base < v.value
  pub kept :
      (v.durable ≡ true × (v.value ≡ base + 1) × (base_of f' ≡ some v.value))
      ⊎ (v.durable ≡ false × (f' ≡ f))

life-Bumped :
    (now base : ℕ) (oks : List Bool) (f : Files)
    → base_of f ≡ some base
    → Bumped f
        (life now base (write_attempts (base + 1) oks f)).0
        (life now base (write_attempts (base + 1) oks f)).1
life-Bumped now base oks f e = elim (write_attempts_lem (base + 1) oks f) [
  | inl w ↦
      subst (λ (w : Files × Bool). Bumped f (life now base w).0 (life now base w).1) (sym w)
        (record {
          base = base;
          based = e;
          above = omega arith;
          kept = inl (refl, refl, base_of-bumped f base e);
        })
  | inr w ↦
      subst (λ (w : Files × Bool). Bumped f (life now base w).0 (life now base w).1) (sym w)
        (record { base = base; based = e; above = omega arith; kept = inr (refl, refl) })
]

pub load_based :
    (now : ℕ) (a : Attempts) (f : Files) (base : ℕ)
    → base_of f ≡ some base
    → load_or_bump now a f ≡ some (life now base (write_attempts (base + 1) (outcomes a) f))
unfolding load_or_bump
load_based now a f base e = rw (e, load_or_bump)

pub load_unbased :
    (now : ℕ) (a : Attempts) (f : Files) → base_of f ≡ none → load_or_bump now a f ≡ none
unfolding load_or_bump
load_unbased now a f e = rw (e, load_or_bump)

pub load_or_bump-Bumped :
    (now : ℕ) (a : Attempts) (f f' : Files) (v : IncarnationValue)
    → load_or_bump now a f ≡ some (f', v)
    → Bumped f f' v
load_or_bump-Bumped now a f f' v e = elim (Option-cases (base_of f)) [
  | inl n ↦ let q = sym (load_unbased now a f n) ∙ e in absurd (cc q)
  | inr (base, b) ↦
      let q = sym (load_based now a f base b) ∙ e in
      let p : life now base (write_attempts (base + 1) (outcomes a) f) ≡ (f', v) = cc q in
      subst (λ (r : Files × IncarnationValue). Bumped f r.0 r.1) p
        (life-Bumped now base (outcomes a) f b)
]

-- Restarts of the process on the same files, with the numbers that their turn fences publish.
pub data Restarts : Files → List ℕ → Type 0 where
  stop : {f : Files} → Restarts f []
  publishes :
      {f : Files} (now : ℕ) (a : Attempts) (f' : Files) (v : IncarnationValue) (ps : List ℕ)
      → load_or_bump now a f ≡ some (f', v)
      → v.durable ≡ true
      → Restarts f' ps
      → Restarts f (v.value ∷ ps)
  withholds :
      {f : Files} (now : ℕ) (a : Attempts) (f' : Files) (v : IncarnationValue) (ps : List ℕ)
      → load_or_bump now a f ≡ some (f', v)
      → v.durable ≡ false
      → Restarts f' ps
      → Restarts f ps

-- Each number is above the one before it, and the first above the bound.
abbrev pub Rises : ℕ → List ℕ → Type 0
Rises b [] = Unit
Rises b (p ∷ ps) = (b < p) × Rises p ps

injected : {m n : ℕ} → some m ≡ some n → m ≡ n
injected e = cc e

impossible : true ≡ false → ⊥
impossible e = cc

-- From files that can be read, over any restarts, with writes that are confirmed or not, the
-- published numbers rise strictly from what the files held at first.
pub Restarts-Rises :
    {f : Files} {ps : List ℕ} (base : ℕ) → base_of f ≡ some base → Restarts f ps → Rises base ps
Restarts-Rises base e Restarts.stop = tt
Restarts-Rises {f} base e (Restarts.publishes now a f' v qs l d r) =
    let b = load_or_bump-Bumped now a f f' v l in
    let same : b.base ≡ base = injected (sym b.based ∙ e) in
    elim (b.kept) [
      | inr (n, _) ↦ absurd (impossible (sym d ∙ n))
      | inl (_, _, kept) ↦ (omega (arith, same, b.above), Restarts-Rises v.value kept r)
    ]
Restarts-Rises {f} base e (Restarts.withholds now a f' v qs l d r) =
    let b = load_or_bump-Bumped now a f f' v l in
    elim (b.kept) [
      | inl (n, _, _) ↦ absurd (impossible (sym n ∙ d))
      | inr (_, same) ↦ Restarts-Rises base (ap base_of same ∙ e) r
    ]
