-- ===== src/Turns.antt =====
-- turn_registry.py: the turn counters of `TurnRegistry`.
pub mod Bump
pub mod Counts
pub mod Incarnation
pub mod Reading
pub mod Restarts
pub mod Raises
pub mod Paths
mod Tests
use oc_slimapi.Prelude.{
  ℕ, suc, ◌+◌, Bool, true, false, Option, none, some, List, [], ◌∷◌, lookup, Text, text_dec, ltb,
  if◌then◌else◌, length,
}
use oc_slimapi.Prelude.Dict.{assign, remove, move_to_end}

-- `IncarnationValue`: the number and whether the disk confirmed it.
pub record IncarnationValue : Type 0 where
  pub value : ℕ
  pub durable : Bool

pub record TurnRegistry : Type 0 where
  pub incarnation : ℕ
  pub durable : Bool
  pub turns : List (Text × ℕ)

-- `TurnRegistry.__init__`.
abbrev pub new_registry : IncarnationValue → TurnRegistry
new_registry i = record { incarnation = i.value; durable = i.durable; turns = [] }

-- `_TURNS_MAX`.
abbrev pub turns_max : ℕ
turns_max = 10000

-- `self._turns.get(sid, 0)`.
abbrev pub turn_of : Text → List (Text × ℕ) → ℕ
turn_of sid turns = elim (lookup text_dec sid turns) [ none ↦ 0 | some n ↦ n ]

-- `while len(self._turns) > limit: self._turns.popitem(last=False)`.
unfoldable pub evict_over : ℕ → List (Text × ℕ) → List (Text × ℕ)
evict_over limit [] = []
evict_over limit (t ∷ ts) =
    let rest = evict_over limit ts in if ltb limit (length (t ∷ ts)) then rest else t ∷ ts

-- The counters that a bump leaves.
unfoldable pub bumped : ℕ → Text → List (Text × ℕ) → List (Text × ℕ)
unfolding evict_over lookup text_dec assign remove move_to_end
bumped limit sid turns =
    evict_over limit (move_to_end text_dec sid (assign text_dec sid (turn_of sid turns + 1) turns))

-- `bump_turn`; `none` would be a `KeyError` of its last line.
unfoldable pub bump_turn : TurnRegistry → Text → TurnRegistry × Option ℕ
unfolding bumped
bump_turn r sid =
    let turns = bumped turns_max sid r.turns in
    (record r { turns = turns }, lookup text_dec sid turns)

unfoldable pub snapshot : TurnRegistry → Text → Option ℕ × Option ℕ
unfolding lookup text_dec
snapshot r sid =
    if r.durable then (some r.incarnation, some (turn_of sid r.turns)) else (none, none)
