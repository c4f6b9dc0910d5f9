-- ===== src/Turns/Tests.antt =====
-- Runs of turn_registry.py on small inputs, and its theorems at them.
use oc_slimapi.Prelude.{
  ◌+◌, ◌≡◌, ◌≤◌, refl, true, false, none, some, List, [], ◌∷◌, ◌++◌, lookup, Text, text, text_dec,
  arith, ◌⊎◌,
}
use oc_slimapi.Prelude.Decimal.{decimal}
use oc_slimapi.Prelude.Dict.{assign, remove, move_to_end}
use oc_slimapi.Prelude.Split.{free_of}
use oc_slimapi.Turns.{
  IncarnationValue, TurnRegistry, new_registry, turn_of, turns_max, bumped, bump_turn, snapshot,
}
use oc_slimapi.Turns.Bump.{RegistryOk, published, bump_turn-RegistryOk}
use oc_slimapi.Turns.Counts.{after, count, sids, turn-count}
use oc_slimapi.Prelude.Strip.{strip_prefix}
use oc_slimapi.Turns.Incarnation.{
  holds, read, read_path, Files, base_of, line_of, Attempts, load_or_bump,
}
use oc_slimapi.Turns.Reading.{read_path-line_of}
use oc_slimapi.Turns.Restarts.{Restarts, Rises, Restarts-Rises}
use oc_slimapi.Turns.Paths.{
  slash, segment, extract_sid_from_path, ends_after, bumping_suffix, is_turn_bumping_path,
  session_path, bumping_path-sid,
}

program : Unit {0}
unfolding bump_turn bumped snapshot after count sids lookup text_dec assign remove move_to_end
    read_path base_of load_or_bump line_of decimal strip_prefix segment extract_sid_from_path
    ends_after is_turn_bumping_path free_of
program = tt

abbrev first_life : IncarnationValue
first_life = record { value = 7; durable = true }

abbrev registry : TurnRegistry
registry = new_registry first_life

-- With room for two, the third sid pushes the least recently bumped one out.
evicted :
    bumped 2 (text "c") (bumped 2 (text "a") (bumped 2 (text "b") (bumped 2 (text "a") [])))
    ≡ (text "a", 2) ∷ (text "c", 1) ∷ []
unfolding program
evicted = refl

registry-RegistryOk : RegistryOk registry
registry-RegistryOk = record { distinct = tt; capped = omega arith }

bump_turn-RegistryOk_run :
    RegistryOk (bump_turn registry (text "a")).0
    × ((bump_turn registry (text "a")).1 ≡ some (turn_of (text "a") registry.turns + 1))
    × (snapshot (bump_turn registry (text "a")).0 (text "a")
        ≡ published registry (turn_of (text "a") registry.turns + 1))
    × ((lookup text_dec (text "ab") (bump_turn registry (text "a")).0.turns
          ≡ lookup text_dec (text "ab") registry.turns)
        ⊎ (lookup text_dec (text "ab") (bump_turn registry (text "a")).0.turns ≡ none))
bump_turn-RegistryOk_run =
    bump_turn-RegistryOk registry (text "a") (text "ab") registry-RegistryOk (λ p. cc p)

abbrev history : List Text
history = text "a" ∷ text "b" ∷ text "a" ∷ []

turn-count_example :
    snapshot (after (new_registry first_life) history) (text "a")
    ≡ published (after (new_registry first_life) history) (count (text "a") history)
turn-count_example = turn-count first_life history (text "a") few
  where
    few : sids history ≤ turns_max
    few = unfold sids in unfold count in unfold text_dec in omega arith

signed : read_path (holds (text " -0 ")) ≡ read (some 0)
unfolding program
signed = refl

underscored : read_path (holds (text "+1_000")) ≡ read (some 1000)
unfolding program
underscored = refl

corrupt : read_path (holds (text "12x")) ≡ read none
unfolding program
corrupt = refl

read_path-line_of_run : read_path (holds (line_of 41)) ≡ read (some 41)
read_path-line_of_run = read_path-line_of 41

-- The primary file is corrupt; the number goes on from the legacy one.
abbrev files : Files
files = record { primary = holds (text "12x"); legacy = some (holds (text "40")) }

abbrev second_try : Attempts
second_try = record { first = false; second = true; third = false }

abbrev refused : Attempts
refused = record { first = false; second = false; third = false }

abbrev kept : Files
kept = record { primary = holds (text "41" ++ (10 ∷ [])); legacy = some (holds (text "40")) }

abbrev life_41 : IncarnationValue
life_41 = record { value = 41; durable = true }

Restarts-Rises_example : Rises 40 (41 ∷ 42 ∷ [])
unfolding program
Restarts-Rises_example = Restarts-Rises {f = files} 40 refl (
    Restarts.publishes 100 second_try kept life_41 (42 ∷ []) refl refl (
      Restarts.withholds 100 refused kept (record { value = 101; durable = false }) (42 ∷ []) refl
        refl
        (Restarts.publishes 102 second_try
          (record kept { primary = holds (text "42" ++ (10 ∷ [])) })
          (record { value = 42; durable = true }) [] refl refl Restarts.stop)))

not_a_turn : is_turn_bumping_path (text "/session/01HQ/prompt") ≡ false
unfolding program
not_a_turn = refl

session_path_run :
    (extract_sid_from_path (text "/session/" ++ (text "01HQ" ++ (slash ∷ text "abort/")))
      ≡ some (text "01HQ"))
    × (is_turn_bumping_path (text "/session/" ++ (text "01HQ" ++ (slash ∷ text "abort/")))
        ≡ bumping_suffix (slash ∷ text "abort/"))
unfolding free_of
session_path_run = session_path b'0' (text "1HQ") (text "abort/") refl

bumping_path-sid_run :
    (sid : Text) × (extract_sid_from_path (text "/session/01HQ/prompt_async") ≡ some sid)
unfolding program
bumping_path-sid_run = bumping_path-sid (text "/session/01HQ/prompt_async") refl
