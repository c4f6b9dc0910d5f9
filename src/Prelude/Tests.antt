-- ===== src/Prelude/Tests.antt =====
-- Boolean tests on the native numbers, and the conditional.
use Prim.Native.Nat.{ℕ, ◌≤◌, ◌<◌, compare, Ordering}
use mathlib.Core.Path.{◌≡◌, refl}
use mathlib.Core.Logic.{◌↔◌, ◌⊎◌, inl, inr}
use mathlib.Core.Bool.{Bool, true, false}
use mathlib.Core.Option.{Option, none, some}
use native.Mathlib.Omega.{arith}

-- These compute to `compare`, which `ground` and `grind` read with no lemma listed.
abbrev pub ltb : ℕ → ℕ → Bool
ltb a b = elim (compare a b) [ Ordering.lt ↦ true | _ ↦ false ]

abbrev pub leb : ℕ → ℕ → Bool
leb a b = elim (compare a b) [ Ordering.gt ↦ false | _ ↦ true ]

infix 50 ◌==◌
abbrev pub ◌==◌ : ℕ → ℕ → Bool
a == b = elim (compare a b) [ Ordering.eq ↦ true | _ ↦ false ]

infix 1 if◌then◌else◌
abbrev pub if◌then◌else◌ {ℓ} : {A : Type ℓ} → Bool → A → A → A
if true then x else y = x
if false then x else y = y

-- `omega` reads a test through such lemmas.
pub ltb→lt : (a b : ℕ) → ltb a b ≡ true → a < b
ltb→lt a b h = ground arith

pub lt→ltb : (a b : ℕ) → a < b → ltb a b ≡ true
lt→ltb a b h = ground arith

pub leb→le : (a b : ℕ) → leb a b ≡ true → a ≤ b
leb→le a b h = ground arith

pub ==_iff : (a b : ℕ) → ((a == b) ≡ true) ↔ (a ≡ b)
==_iff a b = ground arith

pub ==_self : (a : ℕ) → (a == a) ≡ true
==_self a = ground arith

pub ruleset tests = (arith, ltb→lt, lt→ltb, leb→le)

-- To split on a computed value and keep the equation.
pub Bool-cases : (b : Bool) → (b ≡ true) ⊎ (b ≡ false)
Bool-cases true = inl refl
Bool-cases false = inr refl

pub Option-cases {ℓ} : {A : Type ℓ} (o : Option A) → (o ≡ none) ⊎ ((a : A) × (o ≡ some a))
Option-cases none = inl refl
Option-cases (some a) = inr (a, refl)

-- Which branch a conditional takes, as an equation for the whole conditional.
pub if_cases {ℓ} :
    {A : Type ℓ} (b : Bool) (x y : A)
    → ((b ≡ true) × ((if b then x else y) ≡ x)) ⊎ ((b ≡ false) × ((if b then x else y) ≡ y))
if_cases true x y = inl (refl, refl)
if_cases false x y = inr (refl, refl)

-- What holds of both branches holds of the conditional, and so for a match on an option.
pub if_both {ℓ κ} :
    {A : Type ℓ} (Q : A → Type κ) (b : Bool) (x y : A)
    → (b ≡ true → Q x)
    → (b ≡ false → Q y)
    → Q (if b then x else y)
if_both Q true x y h k = h refl
if_both Q false x y h k = k refl

pub Option_both {ℓ κ ℓ'} :
    {A : Type ℓ} {B : Type κ} (Q : B → Type ℓ') (o : Option A) (x : B) (f : A → B)
    → (o ≡ none → Q x)
    → ((a : A) → o ≡ some a → Q (f a))
    → Q (elim o [ none ↦ x | some a ↦ f a ])
Option_both Q none x f h k = h refl
Option_both Q (some a) x f h k = k a refl

pub Dec_both {ℓ κ ℓ'} :
    {A : Type ℓ} {B : Type κ} (Q : B → Type ℓ') (d : Dec A) (x y : B)
    → ((¬ A) → Q x)
    → (A → Q y)
    → Q (elim d [ no _ ↦ x | yes _ ↦ y ])
Dec_both Q (no n) x y h k = h n
Dec_both Q (yes a) x y h k = k a

pub le→ltb-false : (a b : ℕ) → b ≤ a → ltb a b ≡ false
le→ltb-false a b h = ground arith

-- Pairs are compared part by part.
abbrev pub pair_dec {ℓ κ} : {A : Type ℓ} {B : Type κ} → Discrete A → Discrete B → Discrete (A × B)
pair_dec da db p q = elim (da p.0 q.0) [
  | yes a ↦ elim (db p.1 q.1) [ yes b ↦ yes (λ i. (a i, b i)) | no n ↦ no (λ r. n (λ i. (r i).1)) ]
  | no n ↦ no (λ r. n (λ i. (r i).0))
]
