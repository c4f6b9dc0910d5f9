-- ===== src/Prelude/Dict/Keys.antt =====
-- Dictionaries whose keys are distinct: which entries a lookup finds, and how a removal and an
-- assignment meet.
use mathlib.Core.Path.{◌≡◌, refl, sym, ◌∙◌}
use mathlib.Core.Logic.{if_pos, if_neg, ◌≢◌}
use mathlib.Core.List.{List, [], ◌∷◌, ◌++◌, lookup}
use mathlib.Core.Option.{none, some}
use native.Mathlib.Omega.{arith}
use oc_slimapi.Prelude.Lists.{All}
use oc_slimapi.Prelude.Dict.{assign, remove, move_to_end, Distinct}
use oc_slimapi.Prelude.Dict.Laws.{lookup-assign_ne}

-- `list(d)`.
abbrev pub keys {ℓ} : {K V : Type ℓ} → List (K × V) → List K
keys [] = []
keys (e ∷ d) = e.0 ∷ keys d

module _ {ℓ} {K V : Type ℓ} (dec : Discrete K) where
  pub assign-Distinct :
      (k : K) (v : V) (d : List (K × V)) → Distinct dec d → Distinct dec (assign dec k v d)
  unfolding lookup assign
  assign-Distinct k v [] h = (refl, tt)
  assign-Distinct k v (e ∷ d) h = elim (dec k e.0) [
    | yes p ↦ rw (if_pos _ p) (rw p h.0, h.1)
    | no p ↦
        rw (if_neg _ p)
          (lookup-assign_ne dec e.0 k v d (λ q. p (sym q)) ∙ h.0, assign-Distinct k v d h.1)
  ]

  pub remove-assign_self :
      (k : K) (v : V) (d : List (K × V)) → remove dec k (assign dec k v d) ≡ remove dec k d
  unfolding remove assign
  remove-assign_self k v [] = ground arith
  remove-assign_self k v (e ∷ d) = ground (arith, remove-assign_self k v d)

  pub move_to_end_found :
      (k : K) (v : V) (d : List (K × V))
      → lookup dec k d ≡ some v
      → move_to_end dec k d ≡ remove dec k d ++ ((k, v) ∷ [])
  unfolding move_to_end
  move_to_end_found k v d h = rw (h, move_to_end)

  pub remove-assign_ne :
      (j k : K) (v : V) (d : List (K × V))
      → j ≢ k
      → remove dec k (assign dec j v d) ≡ assign dec j v (remove dec k d)
  unfolding remove assign
  remove-assign_ne j k v [] h = ground arith
  remove-assign_ne j k v (e ∷ d) h = ground (arith, remove-assign_ne j k v d)

  pub All-remove {κ} :
      (Q : K × V → Type κ) (k : K) (d : List (K × V)) → All Q d → All Q (remove dec k d)
  unfolding remove
  All-remove Q k [] h = h
  All-remove Q k (e ∷ d) h = elim (dec k e.0) [
    | yes p ↦ rw (if_pos _ p) h.1
    | no p ↦ rw (if_neg _ p) (h.0, All-remove Q k d h.1)
  ]

  -- Every entry of `c` is what a lookup of its key in `d` finds.
  abbrev pub Found : List (K × V) → List (K × V) → Type ℓ
  Found c d = All (λ e. lookup dec e.0 d ≡ some e.1) c

  Found-cons :
      (e : K × V) (c d : List (K × V)) → lookup dec e.0 d ≡ none → Found c d → Found c (e ∷ d)
  unfolding lookup
  Found-cons e [] d h f = tt
  Found-cons e (x ∷ c) d h f = (ground arith, Found-cons e c d h f.1)

  pub Distinct-Found : (d : List (K × V)) → Distinct dec d → Found d d
  unfolding lookup
  Distinct-Found [] h = tt
  Distinct-Found (e ∷ d) h =
      (if_pos (dec e.0 e.0) refl _ _, Found-cons e d d h.0 (Distinct-Found d h.1))

  pub lookup-none-keys :
      (k : K) (c d : List (K × V)) → keys c ≡ keys d → lookup dec k c ≡ none → lookup dec k d ≡ none
  unfolding lookup
  lookup-none-keys k c [] q h = refl
  lookup-none-keys k [] (e ∷ d) q h = cc
  lookup-none-keys k (x ∷ c) (e ∷ d) q h =
      let t : keys c ≡ keys d = cc in
      let f : x.0 ≡ e.0 = cc in ground (arith, lookup-none-keys k c d t)

  -- Only the keys decide whether they are distinct.
  pub Distinct-keys : (c d : List (K × V)) → keys c ≡ keys d → Distinct dec c → Distinct dec d
  Distinct-keys c [] q h = tt
  Distinct-keys [] (e ∷ d) q h = cc
  Distinct-keys (x ∷ c) (e ∷ d) q h =
      let t : keys c ≡ keys d = cc in
      let f : x.0 ≡ e.0 = cc in (lookup-none-keys e.0 c d t (rw (← f) h.0), Distinct-keys c d t h.1)
