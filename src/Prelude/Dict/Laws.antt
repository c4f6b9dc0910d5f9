-- ===== src/Prelude/Dict/Laws.antt =====
-- What the dictionary operations do to lookups, to sums over the values and to their predicates.
use Prim.Native.Nat.{ℕ, ◌+◌}
use mathlib.Core.Path.{◌≡◌, refl, subst}
use mathlib.Core.Logic.{if_pos, if_neg, ◌≢◌}
use mathlib.Core.List.{List, [], ◌∷◌, ◌++◌, lookup}
use mathlib.Core.Option.{Option, none, some}
use native.Mathlib.Omega.{arith}
use oc_slimapi.Prelude.Lists.{sum_by, All}
use oc_slimapi.Prelude.Dict.{assign, remove, Distinct}

-- The measure of an optional value: nothing weighs nothing.
abbrev pub weigh {ℓ} : {V : Type ℓ} → (V → ℕ) → Option V → ℕ
weigh f none = 0
weigh f (some v) = f v

module _ {ℓ} {K V : Type ℓ} (dec : Discrete K) where
  pub lookup-assign_self :
      (k : K) (v : V) (d : List (K × V)) → lookup dec k (assign dec k v d) ≡ some v
  unfolding lookup assign
  lookup-assign_self k v [] = ground arith
  lookup-assign_self k v (e ∷ d) = ground (arith, lookup-assign_self k v d)

  pub lookup-assign_ne :
      (j k : K) (v : V) (d : List (K × V))
      → j ≢ k
      → lookup dec j (assign dec k v d) ≡ lookup dec j d
  unfolding lookup assign
  lookup-assign_ne j k v [] h = ground arith
  lookup-assign_ne j k v (e ∷ d) h = ground (arith, lookup-assign_ne j k v d)

  pub sum_by-assign :
      (f : V → ℕ) (k : K) (v : V) (d : List (K × V))
      → sum_by (λ e. f e.1) (assign dec k v d) + weigh f (lookup dec k d)
        ≡ sum_by (λ e. f e.1) d + f v
  unfolding lookup assign
  sum_by-assign f k v [] = omega arith
  sum_by-assign f k v (e ∷ d) = ground (arith, sum_by-assign f k v d)

  pub sum_by-remove :
      (f : V → ℕ) (k : K) (d : List (K × V))
      → sum_by (λ e. f e.1) (remove dec k d) + weigh f (lookup dec k d) ≡ sum_by (λ e. f e.1) d
  unfolding lookup remove
  sum_by-remove f k [] = refl
  sum_by-remove f k (e ∷ d) = ground (arith, sum_by-remove f k d)

  pub lookup-remove_ne :
      (j k : K) (d : List (K × V)) → j ≢ k → lookup dec j (remove dec k d) ≡ lookup dec j d
  unfolding lookup remove
  lookup-remove_ne j k [] h = refl
  lookup-remove_ne j k (e ∷ d) h = ground (arith, lookup-remove_ne j k d)

  pub lookup-remove-none :
      (j k : K) (d : List (K × V)) → lookup dec j d ≡ none → lookup dec j (remove dec k d) ≡ none
  unfolding lookup remove
  lookup-remove-none j k [] h = refl
  lookup-remove-none j k (e ∷ d) h = ground (arith, lookup-remove-none j k d)

  pub lookup-remove_self :
      (k : K) (d : List (K × V)) → Distinct dec d → lookup dec k (remove dec k d) ≡ none
  unfolding lookup remove
  lookup-remove_self k [] h = refl
  lookup-remove_self k (e ∷ d) h = ground (arith, lookup-remove_self k d h.1)

  pub remove-Distinct : (k : K) (d : List (K × V)) → Distinct dec d → Distinct dec (remove dec k d)
  unfolding remove
  remove-Distinct k [] h = tt
  remove-Distinct k (e ∷ d) h =
      grind (arith, remove-Distinct k d h.1, lookup-remove-none e.0 k d h.0)

  pub lookup-append_some :
      (j : K) (c d : List (K × V)) (v : V)
      → lookup dec j c ≡ some v
      → lookup dec j (c ++ d) ≡ some v
  unfolding lookup
  lookup-append_some j [] d v h = cc
  lookup-append_some j (e ∷ c) d v h = ground (arith, lookup-append_some j c d v)

  pub lookup-append_none :
      (j : K) (c d : List (K × V)) → lookup dec j c ≡ none → lookup dec j (c ++ d) ≡ lookup dec j d
  unfolding lookup
  lookup-append_none j [] d h = refl
  lookup-append_none j (e ∷ c) d h = ground (arith, lookup-append_none j c d)

  pub append-Distinct :
      (k : K) (v : V) (d : List (K × V))
      → lookup dec k d ≡ none
      → Distinct dec d
      → Distinct dec (d ++ ((k, v) ∷ []))
  unfolding lookup
  append-Distinct k v [] h g = (refl, tt)
  append-Distinct k v (e ∷ d) h g =
      ground (arith, append-Distinct k v d, lookup-append_none e.0 d ((k, v) ∷ []))

  pub All-assign {κ} :
      (Q : V → Type κ) (k : K) (v : V) (d : List (K × V))
      → Q v
      → All (λ e. Q e.1) d
      → All (λ e. Q e.1) (assign dec k v d)
  unfolding assign
  All-assign Q k v [] q h = (q, tt)
  All-assign Q k v (e ∷ d) q h = elim (dec k e.0) [
    | yes p ↦ rw (if_pos _ p) (q, h.1)
    | no p ↦ rw (if_neg _ p) (h.0, All-assign Q k v d q h.1)
  ]

  pub All-lookup {κ} :
      (Q : V → Type κ) (k : K) {v : V} (d : List (K × V))
      → All (λ e. Q e.1) d
      → lookup dec k d ≡ some v
      → Q v
  unfolding lookup
  All-lookup Q k [] h e = cc
  All-lookup Q k {v} (x ∷ d) h e = elim (dec k x.0) [
    | yes p ↦ let q : some x.1 ≡ some v = rw (if_pos _ p) at e in subst Q (cc q) h.0
    | no p ↦ All-lookup Q k d h.1 (rw (if_neg _ p) at e)
  ]
