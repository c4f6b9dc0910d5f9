-- ===== src/Selector/Strip.antt =====
-- selector.py: what is left of a query after keys are stripped from it.
use oc_slimapi.Prelude.{
  is_text-same, is_text, ℕ, ◌≡◌, refl, sym, ap, ◌∙◌, Bool, true, false, ◌&&◌, List, [], ◌∷◌, ◌++◌,
  Text, ◌==◌, if◌then◌else◌, arith, Bool-cases, inl, inr,
}
use oc_slimapi.Prelude.Split.{split, push_front, join, free_of, split_free}
use oc_slimapi.Selector.Paths.{member}
use oc_slimapi.Selector.Query.{
  name_of, value_of, segment_values, query_values, segment_key_in, kept_segments, strip_query_keys,
}

unfoldable all_free : ℕ → List Text → Bool
unfolding free_of
all_free sep [] = true
all_free sep (p ∷ ps) = free_of sep p && all_free sep ps

all_free-push_front :
    (sep c : ℕ) (ps : List Text)
    → (c == sep) ≡ false
    → all_free sep ps ≡ true
    → all_free sep (push_front c ps) ≡ true
unfolding all_free free_of push_front
all_free-push_front sep c [] n h = ground arith
all_free-push_front sep c (p ∷ ps) n h = ground arith

all_free-split : (sep : ℕ) (s : Text) → all_free sep (split sep s) ≡ true
unfolding all_free free_of split
all_free-split sep [] = refl
all_free-split sep (c ∷ cs) = elim (Bool-cases (c == sep)) [
  | inl t ↦ rw t (all_free-split sep cs)
  | inr n ↦ rw n (all_free-push_front sep c (split sep cs) n (all_free-split sep cs))
]

split_first :
    (sep : ℕ) (p t : Text) → free_of sep p ≡ true → split sep (p ++ (sep ∷ t)) ≡ p ∷ split sep t
unfolding split free_of push_front
split_first sep [] t h = ground arith
split_first sep (c ∷ p) t h = ground (arith, split_first sep p t)

free_parts :
    (sep : ℕ) (p : Text) (ps : List Text)
    → all_free sep (p ∷ ps) ≡ true
    → (free_of sep p ≡ true) × (all_free sep ps ≡ true)
unfolding all_free
free_parts sep p ps h = (ground arith, ground arith)

split-join :
    (sep : ℕ) (p : Text) (ps : List Text)
    → all_free sep (p ∷ ps) ≡ true
    → split sep (join sep (p ∷ ps)) ≡ p ∷ ps
unfolding join
split-join sep p [] h = split_free sep p (free_parts sep p [] h).0
split-join sep p (q ∷ ps) h =
    let (f, r) = free_parts sep p (q ∷ ps) h in
    split_first sep p (join sep (q ∷ ps)) f ∙ ap (λ x. p ∷ x) (split-join sep q ps r)

module _ (unquote : Text → Text) where
  all_free-kept_segments :
      (sep : ℕ) (keys ps : List Text)
      → all_free sep ps ≡ true
      → all_free sep (kept_segments unquote keys ps) ≡ true
  unfolding all_free kept_segments
  all_free-kept_segments sep keys [] h = refl
  all_free-kept_segments sep keys (p ∷ ps) h =
      let (f, r) = free_parts sep p ps h in
      let rest = all_free-kept_segments sep keys ps r in
      elim (Bool-cases (segment_key_in unquote keys p)) [
        | inl t ↦ rw t rest
        | inr n ↦ rw (n, f) rest
      ]

  values-rejoined :
      (key : Text) (ps : List Text)
      → all_free b'&' ps ≡ true
      → query_values unquote key (join b'&' ps) ≡ segment_values unquote key ps
  unfolding query_values
  values-rejoined key [] h = unfold join split segment_values in refl
  values-rejoined key (p ∷ ps) h = ap (segment_values unquote key) (split-join b'&' p ps h)

  values-kept_segments :
      (keys : List Text) (key : Text) (ps : List Text)
      → segment_values unquote key (kept_segments unquote keys ps)
        ≡ (if member key keys then [] else segment_values unquote key ps)
  unfolding segment_values kept_segments
  values-kept_segments keys key [] = ground arith
  values-kept_segments keys key ([] ∷ ps) = elim (Bool-cases (segment_key_in unquote keys [])) [
    | inl t ↦ rw t (values-kept_segments keys key ps)
    | inr n ↦ rw n (values-kept_segments keys key ps)
  ]
  values-kept_segments keys key ((c ∷ s) ∷ ps) =
      let name = unquote (name_of (c ∷ s)) in
      let rest = values-kept_segments keys key ps in
      let one =
        λ (e : is_text name key ≡ true). ap (λ k. member k keys) (is_text-same name key e) in
      elim (Bool-cases (is_text name key)) [
        | inl e ↦ elim (Bool-cases (member name keys)) [
          | inl m ↦ let k = sym (one e) ∙ m in rw (m, e, k) (rw k at rest)
          | inr m ↦
              let k = sym (one e) ∙ m in
              rw (m, e, k) (ap (λ x. unquote (value_of (c ∷ s)) ∷ x) (rw k at rest))
        ]
        | inr e ↦ elim (Bool-cases (member name keys)) [
          | inl m ↦ rw (m, e) rest
          | inr m ↦ rw (m, e) rest
        ]
      ]

  -- After keys are stripped, a stripped key has no value and every other key has the values that it had,
  -- in their order.
  pub strip-values :
      (keys : List Text) (key q : Text)
      → query_values unquote key (strip_query_keys unquote keys q)
        ≡ (if member key keys then [] else query_values unquote key q)
  unfolding strip_query_keys query_values
  strip-values keys key [] = ground arith
  strip-values keys key (c ∷ s) =
      values-rejoined key (kept_segments unquote keys (split b'&' (c ∷ s)))
        (all_free-kept_segments b'&' keys (split b'&' (c ∷ s)) (all_free-split b'&' (c ∷ s)))
      ∙ values-kept_segments keys key (split b'&' (c ∷ s))
