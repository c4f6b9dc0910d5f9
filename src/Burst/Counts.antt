-- ===== src/Burst/Counts.antt =====
-- burst_watch.py: what the counters of a warning say.
use oc_slimapi.Prelude.{
  All-map, if_both, is_text-same, is_text_refl, ℕ, ◌+◌, ◌≤◌, ◌≡◌, refl, sym, ap, ◌∙◌, Option, none,
  some, List, [], ◌∷◌, Text, lookup, text_dec, is_text, if◌then◌else◌, leb, length, take, All,
  arith, Bool-cases, inl, inr, zero, suc,
}
use oc_slimapi.Prelude.Decimal.{decimal}
use oc_slimapi.Prelude.Dict.{Distinct}
use oc_slimapi.Prelude.Dict.Laws.{weigh, lookup-assign_self, lookup-assign_ne}
use oc_slimapi.Prelude.Dict.Keys.{assign-Distinct, Distinct-Found}
use oc_slimapi.Replay.Read.{increment}
use oc_slimapi.Burst.{Event, counter, insert_common, sort_common}

abbrev pub printed : Event → Text
printed e = decimal e.status

abbrev pub path_of : Event → Text
path_of e = e.path

-- How many of the events have this key.
unfoldable pub occurrences : (Event → Text) → Text → List Event → ℕ
occurrences key k [] = 0
occurrences key k (e ∷ es) =
    if is_text k (key e) then occurrences key k es + 1 else occurrences key k es

abbrev seen : Text → List (Text × ℕ) → ℕ
seen k c = weigh (λ n. n) (lookup text_dec k c)

weigh-increment :
    (o : Option ℕ) → (elim o [ none ↦ 1 | some n ↦ n + 1 ]) ≡ weigh (λ (n : ℕ). n) o + 1
weigh-increment none = refl
weigh-increment (some n) = refl

seen-increment_self : (k : Text) (c : List (Text × ℕ)) → seen k (increment k c) ≡ seen k c + 1
unfolding increment
seen-increment_self k c =
    ap (weigh (λ n. n)) (lookup-assign_self text_dec k _ c) ∙ weigh-increment (lookup text_dec k c)

seen-increment_ne :
    (k j : Text) (c : List (Text × ℕ)) → (¬ (k ≡ j)) → seen k (increment j c) ≡ seen k c
unfolding increment
seen-increment_ne k j c n = ap (weigh (λ n. n)) (lookup-assign_ne text_dec k j _ c n)

counter-occurrences :
    (key : Event → Text) (k : Text) (es : List Event) (c : List (Text × ℕ))
    → weigh (λ n. n) (lookup text_dec k (counter key es c))
      ≡ weigh (λ n. n) (lookup text_dec k c) + occurrences key k es
unfolding counter occurrences
counter-occurrences key k [] c = omega arith
counter-occurrences key k (e ∷ es) c =
    let rest = counter-occurrences key k es (increment (key e) c) in
    elim (Bool-cases (is_text k (key e))) [
      | inl t ↦
          let one : seen k (increment (key e) c) ≡ seen k c + 1 =
            ap (λ j. seen k (increment j c)) (sym (is_text-same k (key e) t))
            ∙ seen-increment_self k c in
          rw t (omega (arith, rest, one))
      | inr f ↦
          let none =
            seen-increment_ne k (key e) c
              (λ p. cc (sym f ∙ ap (is_text k) (sym p) ∙ is_text_refl k)) in
          rw f (omega (arith, rest, none))
    ]

-- A counter of the events counts them.
pub counts :
    (key : Event → Text) (k : Text) (es : List Event)
    → weigh (λ n. n) (lookup text_dec k (counter key es [])) ≡ occurrences key k es
counts key k es =
    let all = counter-occurrences key k es [] in
    let empty : seen k [] ≡ 0 = unfold lookup in refl in omega (arith, all, empty)

counter-Distinct :
    (key : Event → Text) (es : List Event) (c : List (Text × ℕ))
    → Distinct text_dec c
    → Distinct text_dec (counter key es c)
unfolding counter increment
counter-Distinct key [] c h = h
counter-Distinct key (e ∷ es) c h =
    counter-Distinct key es (increment (key e) c) (assign-Distinct text_dec (key e) _ c h)

abbrev Counted : (Event → Text) → List Event → Text × ℕ → Type 0
Counted key es p = p.1 ≡ occurrences key p.0 es

counter-Counted : (key : Event → Text) (es : List Event) → All (Counted key es) (counter key es [])
counter-Counted key es =
    All-map (λ (p : Text × ℕ). lookup text_dec p.0 (counter key es []) ≡ some p.1) (Counted key es)
      (λ p q. ap (weigh (λ n. n)) (sym q) ∙ counts key p.0 es) (counter key es [])
      (Distinct-Found text_dec (counter key es []) (counter-Distinct key es [] tt))

module _ (P : Text × ℕ → Type 0) where
  All-insert_common :
      (p : Text × ℕ) (ps : List (Text × ℕ)) → P p → All P ps → All P (insert_common p ps)
  unfolding insert_common
  All-insert_common p [] a h = (a, tt)
  All-insert_common p (q ∷ qs) a h =
      if_both (All P) (leb q.1 p.1) _ _ (λ _. (a, h)) (λ _. (h.0, All-insert_common p qs a h.1))

  All-sort_common : (ps : List (Text × ℕ)) → All P ps → All P (sort_common ps)
  unfolding sort_common
  All-sort_common [] h = tt
  All-sort_common (p ∷ ps) h = All-insert_common p (sort_common ps) h.0 (All-sort_common ps h.1)

  pub All-take : (n : ℕ) (ps : List (Text × ℕ)) → All P ps → All P (take n ps)
  All-take zero ps h = tt
  All-take (suc n) [] h = tt
  All-take (suc n) (p ∷ ps) h = (h.0, All-take n ps h.1)

pub sort_common-counted :
    (key : Event → Text) (es : List Event)
    → All (λ (p : Text × ℕ). p.1 ≡ occurrences key p.0 es) (sort_common (counter key es []))
sort_common-counted key es =
    All-sort_common (Counted key es) (counter key es []) (counter-Counted key es)

pub take-most : (n : ℕ) (ps : List (Text × ℕ)) → length (take n ps) ≤ n
take-most zero ps = omega arith
take-most (suc n) [] = omega arith
take-most (suc n) (p ∷ ps) = omega (arith, take-most n ps)
