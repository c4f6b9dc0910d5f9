-- ===== src/Prelude/Strings.antt =====
-- Python's `str` as its list of code points, with a decidable equality.
use Prim.Native.Char.{code}
use Prim.Native.String.{String}
use Prim.Native.Nat.{ℕ}
use mathlib.Core.Path.{◌≡◌, refl, ap₂}
use mathlib.Core.Bool.{Bool, true, false}
use mathlib.Core.List.{List, [], ◌∷◌}
use native.Mathlib.Decide.{ℕ_discrete}

abbrev pub Text : Type 0
Text = List ℕ

-- The code points of a literal.
abbrev pub text : String → Text
text String.[] = []
text (String.◌∷◌ c s) = code c ∷ text s

unfoldable pub text_dec : Discrete Text
unfolding ℕ_discrete
text_dec [] [] = yes refl
text_dec [] (y ∷ ys) = no (λ p. cc)
text_dec (x ∷ xs) [] = no (λ p. cc)
text_dec (x ∷ xs) (y ∷ ys) = elim (ℕ_discrete x y) [
  | yes p ↦ elim (text_dec xs ys) [ yes q ↦ yes (ap₂ ◌∷◌ p q) | no n ↦ no (λ r. n (cc)) ]
  | no n ↦ no (λ r. n (cc))
]

-- `s == t` of two texts.
abbrev pub is_text : Text → Text → Bool
is_text s t = elim (text_dec s t) [ yes _ ↦ true | no _ ↦ false ]

pub is_text-same : (s t : Text) → is_text s t ≡ true → s ≡ t
is_text-same s t h = go (text_dec s t) h
  where
    go : (d : Dec (s ≡ t)) → (elim d [ yes _ ↦ true | no _ ↦ false ]) ≡ true → s ≡ t
    go (yes p) h = p
    go (no n) h = absurd (cc h)

pub is_text_refl : (s : Text) → is_text s s ≡ true
is_text_refl s = go (text_dec s s)
  where
    go : (d : Dec (s ≡ s)) → (elim d [ yes _ ↦ true | no _ ↦ false ]) ≡ true
    go (yes p) = refl
    go (no n) = absurd (n refl)
