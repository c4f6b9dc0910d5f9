-- ===== src/Prelude/Split.antt =====
-- `s.split(sep)` and `sep.join(parts)` for a separator of one character.
use Prim.Native.Nat.{ℕ}
use mathlib.Core.Path.{◌≡◌, refl}
use mathlib.Core.List.{List, [], ◌∷◌, ◌++◌}
use mathlib.Core.Bool.{Bool, true, false}
use mathlib.Core.Logic.{inl, inr}
use native.Mathlib.Omega.{arith}
use oc_slimapi.Prelude.Tests.{◌==◌, if◌then◌else◌, Bool-cases}
use oc_slimapi.Prelude.Strings.{Text}

-- A character in front of the first part.
unfoldable pub push_front : ℕ → List Text → List Text
push_front c [] = (c ∷ []) ∷ []
push_front c (p ∷ ps) = (c ∷ p) ∷ ps

unfoldable pub split : ℕ → Text → List Text
unfolding push_front
split sep [] = [] ∷ []
split sep (c ∷ cs) = let rest = split sep cs in if c == sep then [] ∷ rest else push_front c rest

unfoldable pub join : ℕ → List Text → Text
join sep [] = []
join sep (p ∷ []) = p
join sep (p ∷ q ∷ ps) = p ++ (sep ∷ join sep (q ∷ ps))

-- The separator does not stand in the text.
unfoldable pub free_of : ℕ → Text → Bool
free_of sep [] = true
free_of sep (c ∷ cs) = if c == sep then false else free_of sep cs

split-cons : (sep : ℕ) (s : Text) → (p : Text) × (ps : List Text) × (split sep s ≡ p ∷ ps)
unfolding split
split-cons sep [] = ([], [], refl)
split-cons sep (c ∷ cs) =
    let (p, ps, e) = split-cons sep cs in
    elim (Bool-cases (c == sep)) [
      | inl t ↦ ([], split sep cs, rw t)
      | inr t ↦ (c ∷ p, ps, rw (t, e))
    ]

pub split_free : (sep : ℕ) (s : Text) → free_of sep s ≡ true → split sep s ≡ s ∷ []
unfolding split free_of
split_free sep [] h = refl
split_free sep (c ∷ cs) h = ground (arith, split_free sep cs)

-- A part without the separator, at the end.
pub split-append :
    (sep : ℕ) (s t : Text)
    → free_of sep t ≡ true
    → split sep (s ++ (sep ∷ t)) ≡ split sep s ++ (t ∷ [])
unfolding split
split-append sep [] t h = ground (arith, split_free sep t h)
split-append sep (c ∷ cs) t h =
    let (p, ps, e) = split-cons sep cs in ground (arith, split-append sep cs t h)

join-push_front : (sep c : ℕ) (ps : List Text) → join sep (push_front c ps) ≡ c ∷ join sep ps
unfolding join push_front
join-push_front sep c [] = refl
join-push_front sep c (p ∷ []) = refl
join-push_front sep c (p ∷ q ∷ ps) = refl

-- Joining undoes splitting.
pub join-split : (sep : ℕ) (s : Text) → join sep (split sep s) ≡ s
unfolding split join
join-split sep [] = refl
join-split sep (c ∷ cs) =
    let (p, ps, e) = split-cons sep cs in
    ground (arith, join-split sep cs, join-push_front sep c (split sep cs))
