-- ===== src/Turns/Bump.antt =====
-- turn_registry.py `bump_turn` and `snapshot`: one bump.
use mathlib.Core.Path.{subst}
use oc_slimapi.Prelude.{
  ℕ, suc, ◌+◌, ◌≤◌, ◌≡◌, ◌≢◌, refl, sym, ap, ◌∙◌, Option, none, some, List, [], ◌∷◌, ◌++◌, lookup,
  Text, text_dec, ltb, if◌then◌else◌, length, length-append, arith, Bool-cases, Option-cases, inl,
  inr, ◌⊎◌, if_pos, if_neg,
}
use oc_slimapi.Prelude.Dict.{assign, remove, Distinct}
use oc_slimapi.Prelude.Dict.Laws.{
  lookup-assign_self, lookup-remove_self, lookup-remove_ne, remove-Distinct, append-Distinct,
  lookup-append_none, lookup-append_some,
}
use oc_slimapi.Prelude.Dict.Keys.{remove-assign_self, move_to_end_found}
use oc_slimapi.Turns.{TurnRegistry, turns_max, turn_of, evict_over, bumped, bump_turn, snapshot}

pub length-evict_over : (m : ℕ) (ts : List (Text × ℕ)) → length (evict_over m ts) ≤ m
unfolding evict_over
length-evict_over m [] = omega arith
length-evict_over m (t ∷ ts) = ground (arith, length-evict_over m ts)

pub evict_over-few : (m : ℕ) (ts : List (Text × ℕ)) → length ts ≤ m → evict_over m ts ≡ ts
unfolding evict_over
evict_over-few m [] h = refl
evict_over-few m (t ∷ ts) h = ground arith

-- The newest entry stays.
pub evict_over-append :
    (m : ℕ) (ts : List (Text × ℕ)) (t : Text × ℕ)
    → evict_over (suc m) (ts ++ (t ∷ [])) ≡ evict_over m ts ++ (t ∷ [])
unfolding evict_over
evict_over-append m [] t = ground arith
evict_over-append m (s ∷ ts) t = ground (arith, evict_over-append m ts t, length-append ts (t ∷ []))

pub lookup-evict_over-none :
    (m : ℕ) (k : Text) (ts : List (Text × ℕ))
    → lookup text_dec k ts ≡ none
    → lookup text_dec k (evict_over m ts) ≡ none
unfolding evict_over lookup
lookup-evict_over-none m k [] h = refl
lookup-evict_over-none m k (t ∷ ts) h = ground (arith, lookup-evict_over-none m k ts)

pub evict_over-Distinct :
    (m : ℕ) (ts : List (Text × ℕ)) → Distinct text_dec ts → Distinct text_dec (evict_over m ts)
unfolding evict_over
evict_over-Distinct m [] h = tt
evict_over-Distinct m (t ∷ ts) h = elim (Bool-cases (ltb m (length (t ∷ ts)))) [
  | inl b ↦ rw b (evict_over-Distinct m ts h.1)
  | inr b ↦ rw b h
]

-- What the eviction leaves of a key is its value or nothing.
pub lookup-evict_over :
    (m : ℕ) (k : Text) (ts : List (Text × ℕ))
    → Distinct text_dec ts
    → (lookup text_dec k (evict_over m ts) ≡ lookup text_dec k ts)
      ⊎ (lookup text_dec k (evict_over m ts) ≡ none)
unfolding evict_over lookup
lookup-evict_over m k [] h = inl refl
lookup-evict_over m k (t ∷ ts) h = elim (Bool-cases (ltb m (length (t ∷ ts)))) [
  | inr b ↦ inl (rw b)
  | inl b ↦ elim (text_dec k t.0) [
    | yes p ↦ inr (rw (b, p) (lookup-evict_over-none m t.0 ts h.0))
    | no n ↦ elim (lookup-evict_over m k ts h.1) [
      | inl e ↦ inl (rw (b, if_neg _ n) e)
      | inr e ↦ inr (rw b e)
    ]
  ]
]

-- The counters after a bump, as an eviction and a push.
pub bumped-push :
    (m : ℕ) (sid : Text) (ts : List (Text × ℕ))
    → bumped (suc m) sid ts
      ≡ evict_over m (remove text_dec sid ts) ++ ((sid, turn_of sid ts + 1) ∷ [])
unfolding bumped
bumped-push m sid ts =
    let v = turn_of sid ts + 1 in
    ap (evict_over (suc m)) (
      move_to_end_found text_dec sid v (assign text_dec sid v ts)
        (lookup-assign_self text_dec sid v ts)
      ∙ ap (λ d. d ++ ((sid, v) ∷ [])) (remove-assign_self text_dec sid v ts))
    ∙ evict_over-append m (remove text_dec sid ts) (sid, v)

-- Every sid once, and no more of them than the cap.
pub record RegistryOk (r : TurnRegistry) : Type 0 where
  pub distinct : Distinct text_dec r.turns
  pub capped : length r.turns ≤ turns_max

pub length-remove :
    (k : Text) (ts : List (Text × ℕ))
    → length (remove text_dec k ts) + (elim (lookup text_dec k ts) [ none ↦ 0 | some _ ↦ 1 ])
      ≡ length ts
unfolding remove lookup
length-remove k [] = refl
length-remove k (t ∷ ts) = ground (arith, length-remove k ts)

module _ (m : ℕ) (sid : Text) (ts : List (Text × ℕ)) (h : Distinct text_dec ts) where
  pub absent_before : lookup text_dec sid (evict_over m (remove text_dec sid ts)) ≡ none
  absent_before =
      lookup-evict_over-none m sid (remove text_dec sid ts) (lookup-remove_self text_dec sid ts h)

  pub lookup-bumped_self : lookup text_dec sid (bumped (suc m) sid ts) ≡ some (turn_of sid ts + 1)
  lookup-bumped_self =
      ap (lookup text_dec sid) (bumped-push m sid ts)
      ∙ lookup-append_none text_dec sid (evict_over m (remove text_dec sid ts)) _ absent_before
      ∙ own
    where
      own : lookup text_dec sid ((sid, turn_of sid ts + 1) ∷ []) ≡ some (turn_of sid ts + 1)
      own = unfold lookup in if_pos (text_dec sid sid) refl _ _

  pub bumped-Distinct : Distinct text_dec (bumped (suc m) sid ts)
  bumped-Distinct = subst (Distinct text_dec) (sym (bumped-push m sid ts)) (
      append-Distinct text_dec sid (turn_of sid ts + 1) (evict_over m (remove text_dec sid ts))
        absent_before
        (evict_over-Distinct m (remove text_dec sid ts) (remove-Distinct text_dec sid ts h)))

  pub length-bumped : length (bumped (suc m) sid ts) ≤ suc m
  length-bumped =
      let e = ap (λ xs. length xs) (bumped-push m sid ts) in
      omega (
        arith,
        e,
        length-append (evict_over m (remove text_dec sid ts)) ((sid, turn_of sid ts + 1) ∷ []),
        length-evict_over m (remove text_dec sid ts),
      )

  pub lookup-pushed :
      (j : Text)
      → j ≢ sid
      → lookup text_dec j (bumped (suc m) sid ts)
        ≡ lookup text_dec j (evict_over m (remove text_dec sid ts))
  lookup-pushed j ne =
      ap (lookup text_dec j) (bumped-push m sid ts)
      ∙ (elim (Option-cases (lookup text_dec j (evict_over m (remove text_dec sid ts)))) [
        | inl e ↦
            lookup-append_none text_dec j (evict_over m (remove text_dec sid ts)) _ e
            ∙ unmatched
            ∙ sym e
        | inr (v, e) ↦
            lookup-append_some text_dec j (evict_over m (remove text_dec sid ts)) _ v e ∙ sym e
      ])
    where
      unmatched : lookup text_dec j ((sid, turn_of sid ts + 1) ∷ []) ≡ none
      unmatched = unfold lookup in if_neg (text_dec j sid) ne _ _

  pub lookup-bumped_ne :
      (j : Text)
      → j ≢ sid
      → (lookup text_dec j (bumped (suc m) sid ts) ≡ lookup text_dec j ts)
        ⊎ (lookup text_dec j (bumped (suc m) sid ts) ≡ none)
  lookup-bumped_ne j ne =
      elim (lookup-evict_over m j (remove text_dec sid ts) (remove-Distinct text_dec sid ts h)) [
        | inl e ↦ inl (lookup-pushed j ne ∙ e ∙ lookup-remove_ne text_dec j sid ts ne)
        | inr e ↦ inr (lookup-pushed j ne ∙ e)
      ]

-- What a snapshot says of a turn.
abbrev pub published : TurnRegistry → ℕ → Option ℕ × Option ℕ
published r n = if r.durable then (some r.incarnation, some n) else (none, none)

pub turn_of_found :
    (sid : Text) (ts : List (Text × ℕ)) (n : ℕ)
    → lookup text_dec sid ts ≡ some n
    → turn_of sid ts ≡ n
turn_of_found sid ts n h = rw (h, turn_of)

pub turn_of_absent :
    (sid : Text) (ts : List (Text × ℕ)) → lookup text_dec sid ts ≡ none → turn_of sid ts ≡ 0
turn_of_absent sid ts h = rw (h, turn_of)

pub snapshot_turn :
    (r : TurnRegistry) (sid : Text) (ts : List (Text × ℕ)) (n : ℕ)
    → lookup text_dec sid ts ≡ some n
    → snapshot (record r { turns = ts }) sid ≡ published r n
unfolding snapshot
snapshot_turn r sid ts n h = ap (published r) (turn_of_found sid ts n h)

-- On a registry that is well formed, a bump of any sid returns the next turn of that sid, which a
-- snapshot then shows if the incarnation is durable; it keeps the registry well formed; and any other
-- sid has the turn it had, or is evicted.
pub bump_turn-RegistryOk :
    (r : TurnRegistry) (sid j : Text)
    → RegistryOk r
    → j ≢ sid
    → RegistryOk (bump_turn r sid).0
      × ((bump_turn r sid).1 ≡ some (turn_of sid r.turns + 1))
      × (snapshot (bump_turn r sid).0 sid ≡ published r (turn_of sid r.turns + 1))
      × ((lookup text_dec j (bump_turn r sid).0.turns ≡ lookup text_dec j r.turns)
          ⊎ (lookup text_dec j (bump_turn r sid).0.turns ≡ none))
unfolding bump_turn
bump_turn-RegistryOk r sid j h ne =
    let l = lookup-bumped_self 9999 sid r.turns h.distinct in
    (
      record {
        distinct = bumped-Distinct 9999 sid r.turns h.distinct;
        capped = length-bumped 9999 sid r.turns h.distinct;
      },
      l,
      snapshot_turn r sid (bumped turns_max sid r.turns) (turn_of sid r.turns + 1) l,
      lookup-bumped_ne 9999 sid r.turns h.distinct j ne,
    )
