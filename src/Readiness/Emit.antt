-- ===== src/Readiness/Emit.antt =====
-- readiness.py `readiness_payload`: what an announced object says.
use mathlib.Core.Path.{subst}
use oc_slimapi.Prelude.{
  is_text-same, ◌≡◌, refl, ap, ◌∙◌, true, false, ◌&&◌, some, List, [], ◌∷◌, Text, text, text_dec,
  is_text, arith, Bool-cases, inl, inr,
}
use oc_slimapi.Selector.Paths.{member}
use oc_slimapi.Selector.Dispatch.{boundary_live}
use oc_slimapi.Readiness.{
  required_features, text_lt, place, normalize, within, breaks_dependency, ready, Payload,
  readiness_payload,
}
use oc_slimapi.Readiness.Normal.{ascending, member-cons, normalize-normal}

within-place :
    (x : Text) (ys zs : List Text) → within (place x ys) zs ≡ (member x zs && within ys zs)
unfolding within place
within-place x [] zs = refl
within-place x (y ∷ ys) zs = elim (Bool-cases (is_text x y)) [
  | inl e ↦ rw e (ground (arith, ap (λ t. member t zs) (is_text-same x y e)))
  | inr n ↦ elim (Bool-cases (text_lt x y)) [
    | inl b ↦ rw (n, b) refl
    | inr b ↦ rw (n, b) (ground (arith, within-place x ys zs))
  ]
]

within-normalize_left : (xs zs : List Text) → within (normalize xs) zs ≡ within xs zs
unfolding within normalize
within-normalize_left [] zs = refl
within-normalize_left (x ∷ xs) zs =
    within-place x (normalize xs) zs ∙ ap (λ b. member x zs && b) (within-normalize_left xs zs)

within-normalize_right : (xs zs : List Text) → within xs (normalize zs) ≡ within xs zs
unfolding within
within-normalize_right [] zs = refl
within-normalize_right (x ∷ xs) zs =
    ground (arith, (normalize-normal zs x).1, within-normalize_right xs zs)

within-member :
    (x : Text) (xs ys : List Text) → within xs ys ≡ true → member x xs ≡ true → member x ys ≡ true
unfolding within
within-member x [] ys w m = unfold member in absurd (cc m)
within-member x (z ∷ xs) ys w m = elim (Bool-cases (is_text x z)) [
  | inl e ↦ ground (arith, w, ap (λ t. member t ys) (is_text-same x z e))
  | inr n ↦ within-member x xs ys (ground (arith, w)) (ground (arith, member-cons x z xs, m, n))
]

-- What an announced object says: its two lists are those of the required and of the satisfied features,
-- each once and in the order of the texts; the satisfied ones are known, and the dependency of the post
-- actions holds of them.
pub record Announced (satisfied : List Text) (p : Payload) : Type 0 where
  pub known : within satisfied required_features ≡ true
  pub up : (ascending p.required ≡ true) × (ascending p.satisfied ≡ true)
  pub lists : (z : Text) → member z p.required ≡ member z required_features
  pub same : (z : Text) → member z p.satisfied ≡ member z satisfied
  pub depends : breaks_dependency satisfied ≡ false
  pub agrees : p.is_ready ≡ within required_features satisfied
  pub face : (boundary_live satisfied && p.is_ready) ≡ false

not_live-ready :
    (satisfied : List Text)
    → (boundary_live satisfied && within required_features satisfied) ≡ false
unfolding boundary_live
not_live-ready satisfied = elim (Bool-cases (within required_features satisfied)) [
  | inr n ↦ rw n (ground arith)
  | inl w ↦
      let post =
        within-member (text "session.post-actions.v4") required_features satisfied w
          (unfold required_features member text_dec in refl) in
      rw (w, post) (ground arith)
]

-- The object that is announced when nothing is raised.
abbrev announced : List Text → Payload
announced satisfied = record {
  is_ready = ready required_features satisfied;
  required = normalize required_features;
  satisfied = normalize satisfied;
}

ready-within :
    (satisfied : List Text) → ready required_features satisfied ≡ within required_features satisfied
unfolding ready
ready-within satisfied =
    within-normalize_left required_features (normalize satisfied)
    ∙ within-normalize_right required_features satisfied

announced-Announced :
    (satisfied : List Text)
    → within satisfied required_features ≡ true
    → breaks_dependency satisfied ≡ false
    → Announced satisfied (announced satisfied)
announced-Announced satisfied w b = record {
  known = w;
  up = ((normalize-normal required_features []).0, (normalize-normal satisfied []).0);
  lists = λ z. (normalize-normal required_features z).1;
  same = λ z. (normalize-normal satisfied z).1;
  depends = b;
  agrees = ready-within satisfied;
  face = ap (λ r. boundary_live satisfied && r) (ready-within satisfied) ∙ not_live-ready satisfied;
}

-- An object is announced only of known features whose dependency holds. Its required list has exactly the
-- features of the version and its satisfied list exactly those that were given, each of them once and in
-- order; it says ready exactly when every required feature is satisfied, which is never so while the
-- selector answers the deferred methods itself.
pub readiness_payload-Announced :
    (satisfied : List Text) (p : Payload)
    → readiness_payload satisfied ≡ some p
    → Announced satisfied p
unfolding readiness_payload
readiness_payload-Announced satisfied p e = elim (Bool-cases (within satisfied required_features)) [
  | inr n ↦ let x = rw n at e in absurd (cc x)
  | inl w ↦ elim (Bool-cases (breaks_dependency satisfied)) [
    | inl b ↦ let x = rw (w, b) at e in absurd (cc x)
    | inr b ↦
        let x : some (announced satisfied) ≡ some p = rw (w, b) at e in
        let same : announced satisfied ≡ p = cc x in
        subst (Announced satisfied) same (announced-Announced satisfied w b)
  ]
]
