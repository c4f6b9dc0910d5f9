-- ===== src/Prelude/Dict.antt =====
-- Python dictionaries are below.
pub mod Laws
pub mod Keys
-- Python's insertion-ordered `dict` and `OrderedDict` as association lists: the first entry of a
-- key is its entry, an assignment keeps the place of a key that is there, and a new key goes last.
use Prim.Native.Nat.{ℕ, suc, ◌+◌, ◌-◌, ◌≤◌}
use mathlib.Core.Path.{◌≡◌, refl}
use mathlib.Core.Logic.{ite, ◌≢◌}
use mathlib.Core.List.{List, [], ◌∷◌, ◌++◌, lookup}
use mathlib.Core.Option.{Option, none, some}
use native.Mathlib.Omega.{arith}
use oc_slimapi.Prelude.Lists.{length, sum_by, All}

module _ {ℓ} {K V : Type ℓ} (dec : Discrete K) where
  -- `d[k] = v`
  unfoldable pub assign : K → V → List (K × V) → List (K × V)
  assign k v [] = (k, v) ∷ []
  assign k v (e ∷ d) = ite (dec k e.0) ((k, v) ∷ d) (e ∷ assign k v d)

  -- `d.pop(k, None)`, the dictionary that is left
  unfoldable pub remove : K → List (K × V) → List (K × V)
  remove k [] = []
  remove k (e ∷ d) = ite (dec k e.0) d (e ∷ remove k d)

  -- `d.move_to_end(k)` for a key that is there
  unfoldable pub move_to_end : K → List (K × V) → List (K × V)
  move_to_end k d = elim (lookup dec k d) [ none ↦ d | some v ↦ remove k d ++ ((k, v) ∷ []) ]

  -- No key stands twice, as in every Python dictionary.
  abbrev pub Distinct : List (K × V) → Type ℓ
  Distinct [] = Unit
  Distinct (e ∷ d) = (lookup dec e.0 d ≡ none) × Distinct d
