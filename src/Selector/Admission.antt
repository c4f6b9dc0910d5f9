-- ===== src/Selector/Admission.antt =====
-- selector.py: which version values are admitted.
use mathlib.Core.Path.{subst}
use oc_slimapi.Prelude.{
  is_text_refl, is_text-same, is_text, ℕ, ◌+◌, ◌-◌, ◌*◌, ◌≤◌, ◌≡◌, refl, sym, ap, ◌∙◌, true, false,
  ◌&&◌, not, List, [], ◌∷◌, Text, text, ◌==◌, arith, Bool-cases, inl, inr,
}
use oc_slimapi.Prelude.Decimal.{all_digits, value_from}
use oc_slimapi.Selector.Request.{
  is_lexical, all_lexical, every_is, judge_version, has_value, is_some,
}

value_from-grows : (acc : ℕ) (s : Text) → acc ≤ value_from acc s
unfolding value_from
value_from-grows acc [] = omega arith
value_from-grows acc (c ∷ s) = omega (arith, value_from-grows (acc * 10 + (c - 48)) s)

-- The one lexical text whose value is 4.
only_four : (v : Text) → is_lexical v ≡ true → value_from 0 v ≡ 4 → v ≡ text "4"
unfolding is_lexical all_digits value_from
only_four [] l e = absurd (cc l)
only_four (c ∷ []) l e = let same : c ≡ 52 = ground arith in ap (λ x. x ∷ []) same
only_four (c ∷ d ∷ s) l e =
    let grows = value_from-grows ((0 * 10 + (c - 48)) * 10 + (d - 48)) s in ground (arith, grows)

all_four-lexical : (vs : List Text) → every_is (text "4") vs ≡ true → all_lexical vs ≡ true
unfolding every_is all_lexical
all_four-lexical [] h = refl
all_four-lexical (v ∷ vs) h =
    let a : is_text v (text "4") ≡ true = ground arith in
    let rest = all_four-lexical vs (ground arith) in
    let l : is_lexical v ≡ true =
      subst (λ x. is_lexical x ≡ true) (sym (is_text-same v (text "4") a))
        (unfold is_lexical all_digits in refl) in
    rw (l, rest) refl

judge-four :
    (vs : List Text) → is_some (judge_version (text "4" ∷ vs)) ≡ not (every_is (text "4") vs)
unfolding judge_version is_lexical all_digits value_from all_lexical
judge-four vs = elim (Bool-cases (every_is (text "4") vs)) [
  | inl t ↦ rw (t, all_four-lexical vs t) refl
  | inr n ↦ rw n (ground arith)
]

judge_other :
    (v : Text) (vs : List Text)
    → is_text v (text "4") ≡ false
    → is_some (judge_version (v ∷ vs)) ≡ true
unfolding judge_version all_lexical
judge_other v vs n = elim (Bool-cases (is_lexical v)) [
  | inr l ↦ rw l refl
  | inl l ↦ elim (Bool-cases (value_from 0 v == 4)) [
    | inr e ↦ rw e (ground arith)
    | inl e ↦
        let same : v ≡ text "4" = only_four v l (ground arith) in
        absurd (cc (n, ap (λ x. is_text x (text "4")) same, is_text_refl (text "4")))
  ]
]

-- A request is admitted exactly when it has a version value and each of its values is the text `4`.
pub judge_version-four :
    (vs : List Text) → is_some (judge_version vs) ≡ not (has_value vs && every_is (text "4") vs)
unfolding every_is
judge_version-four [] = unfold judge_version in refl
judge_version-four (v ∷ vs) = elim (Bool-cases (is_text v (text "4"))) [
  | inl t ↦
      let same = is_text-same v (text "4") t in
      rw t (ap (λ x. is_some (judge_version (x ∷ vs))) same ∙ judge-four vs)
  | inr n ↦ rw n (judge_other v vs n)
]
