-- ===== src/Turns/Counts.antt =====
-- turn_registry.py: the turns after a history of bumps.
use mathlib.Core.Path.{subst}
use oc_slimapi.Prelude.{
  ℕ, suc, ◌+◌, ◌≤◌, ◌≡◌, ◌≢◌, refl, sym, ap, ◌∙◌, Option, none, some, List, [], ◌∷◌, lookup, Text,
  text_dec, ◌==◌, if◌then◌else◌, length, length-append, arith, Bool-cases, inl, inr, if_pos, if_neg,
  ite,
}
use oc_slimapi.Prelude.Dict.{remove, Distinct}
use oc_slimapi.Prelude.Dict.Laws.{lookup-remove_ne}
use oc_slimapi.Turns.{
  TurnRegistry, new_registry, IncarnationValue, turns_max, turn_of, evict_over, bumped, bump_turn,
  snapshot,
}
use oc_slimapi.Turns.Bump.{
  evict_over-few, bumped-push, length-remove, lookup-bumped_self, bumped-Distinct, lookup-pushed,
  published, turn_of_found, turn_of_absent,
}

-- A history of bumps, the latest first, and the registry that it makes.
unfoldable pub after : TurnRegistry → List Text → TurnRegistry
unfolding bump_turn
after r [] = r
after r (sid ∷ h) = (bump_turn (after r h) sid).0

unfoldable pub count : Text → List Text → ℕ
count sid [] = 0
count sid (s ∷ h) = ite (text_dec sid s) (count sid h + 1) (count sid h)

-- How many sids a history names.
unfoldable pub sids : List Text → ℕ
unfolding count
sids [] = 0
sids (s ∷ h) = if count s h == 0 then sids h + 1 else sids h

-- The counters stand for the history.
record Counting (ts : List (Text × ℕ)) (h : List Text) : Type 0 where
  distinct : Distinct text_dec ts
  size : length ts ≡ sids h
  counts : (j : Text) → lookup text_dec j ts ≡ (if count j h == 0 then none else some (count j h))

turn_of_counted :
    (j : Text) (ts : List (Text × ℕ)) (n : ℕ)
    → lookup text_dec j ts ≡ (if n == 0 then none else some n)
    → turn_of j ts ≡ n
turn_of_counted j ts n e = elim (Bool-cases (n == 0)) [
  | inl t ↦ let z : n ≡ 0 = ground arith in turn_of_absent j ts (rw t at e) ∙ sym z
  | inr t ↦ turn_of_found j ts n (rw t at e)
]

-- One bump of a registry that counts a history and has room for another sid.
module _ (m : ℕ) (sid : Text) (ts : List (Text × ℕ)) (h : List Text) where
  counted_ne :
      Counting ts h
      → length (remove text_dec sid ts) ≤ m
      → (j : Text) → j ≢ sid
      → lookup text_dec j (bumped (suc m) sid ts) ≡ lookup text_dec j ts
  counted_ne c room j ne =
      lookup-pushed m sid ts c.distinct j ne
      ∙ ap (lookup text_dec j) (evict_over-few m (remove text_dec sid ts) room)
      ∙ lookup-remove_ne text_dec j sid ts ne

  size_after :
      Counting ts h
      → length (remove text_dec sid ts) ≤ m
      → length (bumped (suc m) sid ts) ≡ sids (sid ∷ h)
  unfolding sids
  size_after c room =
      let e = ap (λ xs. length xs) (bumped-push m sid ts) in
      let f = ap (λ xs. length xs) (evict_over-few m (remove text_dec sid ts) room) in
      let g =
        length-append (evict_over m (remove text_dec sid ts)) ((sid, turn_of sid ts + 1) ∷ []) in
      elim (Bool-cases (count sid h == 0)) [
        | inl t ↦
            let a = rw (rw t at (c.counts sid)) at (length-remove sid ts) in
            rw t (omega (arith, e, f, g, a, c.size))
        | inr t ↦
            let a = rw (rw t at (c.counts sid)) at (length-remove sid ts) in
            rw t (omega (arith, e, f, g, a, c.size))
      ]

  bumped-Counting :
      Counting ts h
      → length (remove text_dec sid ts) ≤ m
      → Counting (bumped (suc m) sid ts) (sid ∷ h)
  bumped-Counting c room = record {
    distinct = bumped-Distinct m sid ts c.distinct;
    size = size_after c room;
    counts = λ j. elim (text_dec j sid) [
      | yes p ↦
          subst (λ x. lookup text_dec x (bumped (suc m) sid ts) ≡ stored (count x (sid ∷ h)))
            (sym p) own
      | no n ↦ counted_ne c room j n ∙ c.counts j ∙ ap stored (sym (count_ne j n))
    ];
  }
    where
      positive : (n : ℕ) → some (n + 1) ≡ (if n + 1 == 0 then none else some (n + 1))
      positive n = ground arith

      count_self : count sid (sid ∷ h) ≡ count sid h + 1
      count_self = unfold count in if_pos (text_dec sid sid) refl (count sid h + 1) (count sid h)

      count_ne : (j : Text) → j ≢ sid → count j (sid ∷ h) ≡ count j h
      count_ne j n = unfold count in if_neg (text_dec j sid) n (count j h + 1) (count j h)

      stored : ℕ → Option ℕ
      stored n = if n == 0 then none else some n

      own : lookup text_dec sid (bumped (suc m) sid ts) ≡ stored (count sid (sid ∷ h))
      own =
          lookup-bumped_self m sid ts c.distinct
          ∙ ap (λ n. some (n + 1)) (turn_of_counted sid ts (count sid h) (c.counts sid))
          ∙ positive (count sid h)
          ∙ ap stored (sym count_self)

length-remove_le : (k : Text) (ts : List (Text × ℕ)) → length (remove text_dec k ts) ≤ length ts
length-remove_le k ts = omega (arith, length-remove k ts)

sids_le : (sid : Text) (h : List Text) → sids h ≤ sids (sid ∷ h)
unfolding sids
sids_le sid h = ground arith

after-Counting :
    (r : TurnRegistry) (h : List Text)
    → r.turns ≡ []
    → sids h ≤ turns_max
    → Counting (after r h).turns h
unfolding after bump_turn sids count lookup
after-Counting r [] e few = record {
  distinct = subst (Distinct text_dec) (sym e) tt;
  size = ap (λ xs. length xs) e;
  counts = λ j. ap (lookup text_dec j) e;
}
after-Counting r (sid ∷ h) e few =
    let le = sids_le sid h in
    let ih = after-Counting r h e (omega (arith, le)) in
    bumped-Counting 9999 sid (after r h).turns h ih (room ih)
  where
    room : Counting (after r h).turns h → length (remove text_dec sid (after r h).turns) ≤ 9999
    room c = elim (Bool-cases (count sid h == 0)) [
      | inl t ↦
          let f : sids h + 1 ≤ turns_max = rw t at few in
          omega (arith, length-remove_le sid (after r h).turns, c.size)
      | inr t ↦
          let f : sids h ≤ turns_max = rw t at few in
          let a = rw (rw t at (c.counts sid)) at (length-remove sid (after r h).turns) in
          omega (arith, a, c.size)
    ]

-- After any history of bumps that names no more sids than the cap, a snapshot of a durable registry
-- shows as the turn of any sid the number of its bumps in the history; of one that is not durable
-- it shows nothing.
pub turn-count :
    (i : IncarnationValue) (h : List Text) (sid : Text)
    → sids h ≤ turns_max
    → snapshot (after (new_registry i) h) sid ≡ published (after (new_registry i) h) (count sid h)
unfolding snapshot
turn-count i h sid few = ap (published (after (new_registry i) h)) (
    turn_of_counted sid (after (new_registry i) h).turns (count sid h)
      ((after-Counting (new_registry i) h refl few).counts sid))
