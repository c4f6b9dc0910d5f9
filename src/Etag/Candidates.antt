-- ===== src/Etag/Candidates.antt =====
-- etag.py: how the parser of `If-None-Match` meets one tag.
use oc_slimapi.Prelude.{
  ℕ, ◌+◌, ◌-◌, ◌<◌, ◌≡◌, refl, sym, ap, ◌∙◌, true, false, ◌&&◌, ◌||◌, not, Option, none, some, List,
  [], ◌∷◌, ◌++◌, Text, ltb, length, length-append, take, take-append, last?, arith, if_both,
}
use mathlib.Core.List.{append_assoc}
use oc_slimapi.Prelude.Split.{push_front, free_of}
use oc_slimapi.Prelude.Strip.{strip_prefix}
use oc_slimapi.Etag.{
  quote, Coding, identity, gzip, tag_of, candidates, without_weak, is_quote, head?, inner_of,
  opaque_inner, quoted, opaque_tag,
}

-- What a tag may hold.
abbrev pub Opaque : Text → Type 0
Opaque d = (free_of quote d ≡ true) × (0 < length d)

-- Characters in front of the first candidate.
abbrev pub prepend : Text → List Text → List Text
prepend [] ps = ps
prepend (c ∷ s) ps = push_front c (prepend s ps)

pub prepend-cons : (s p : Text) (ps : List Text) → prepend s (p ∷ ps) ≡ (s ++ p) ∷ ps
unfolding push_front
prepend-cons [] p ps = refl
prepend-cons (c ∷ s) p ps = ap (push_front c) (prepend-cons s p ps)

pub candidates-quoted :
    (d s : Text)
    → free_of quote d ≡ true
    → candidates true (d ++ (quote ∷ s)) ≡ prepend d (push_front quote (candidates false s))
unfolding candidates free_of
candidates-quoted [] s h = refl
candidates-quoted (c ∷ d) s h = ground (arith, candidates-quoted d s)

-- A tag in front of the rest of a value.
pub candidates-tag :
    (k : Coding) (d s p : Text) (ps : List Text)
    → free_of quote d ≡ true
    → candidates false s ≡ p ∷ ps
    → candidates false (tag_of k d ++ s) ≡ (tag_of k d ++ p) ∷ ps
unfolding candidates push_front
candidates-tag identity d s p ps h e =
    ap (λ x. candidates false (quote ∷ x)) (append_assoc d (quote ∷ []) s)
    ∙ ap (push_front quote) (
        candidates-quoted d s h
        ∙ ap (λ c. prepend d (push_front quote c)) e
        ∙ prepend-cons d (quote ∷ p) ps)
    ∙ ap (λ x. (quote ∷ x) ∷ ps) (sym (append_assoc d (quote ∷ []) p))
candidates-tag gzip d s p ps h e =
    ap (λ x. candidates false (b'W' ∷ b'/' ∷ quote ∷ x)) (append_assoc d (quote ∷ []) s)
    ∙ ap (λ x. push_front b'W' (push_front b'/' (push_front quote x)))
        (candidates-quoted d s h
          ∙ ap (λ c. prepend d (push_front quote c)) e
          ∙ prepend-cons d (quote ∷ p) ps)
    ∙ ap (λ x. (b'W' ∷ b'/' ∷ quote ∷ x) ∷ ps) (sym (append_assoc d (quote ∷ []) p))

pub last?-append : (x : Text) (c : ℕ) → last? (x ++ (c ∷ [])) ≡ some c
last?-append [] c = refl
last?-append (a ∷ []) c = refl
last?-append (a ∷ b ∷ x) c = last?-append (b ∷ x) c

pub opaque_inner-Opaque : (d : Text) → Opaque d → opaque_inner d ≡ some d
opaque_inner-Opaque [] h = let p = h.1 in absurd (omega arith)
opaque_inner-Opaque (c ∷ s) h = rw (h.0)

pub quoted-Opaque : (d : Text) → Opaque d → quoted (quote ∷ (d ++ (quote ∷ []))) ≡ some d
quoted-Opaque d h =
    if_both (λ (r : Option Text). r ≡ some d)
      (ltb (length tag) 2 || not (is_quote (head? tag) && is_quote (last? tag))) none
      (opaque_inner (inner_of tag)) (λ t. absurd (shape t))
      (λ _. ap opaque_inner inner ∙ opaque_inner-Opaque d h)
  where
    tag : Text
    tag = quote ∷ (d ++ (quote ∷ []))

    size : length (d ++ (quote ∷ [])) ≡ length d + 1
    size = length-append d (quote ∷ [])

    shape : (ltb (length tag) 2 || not (is_quote (head? tag) && is_quote (last? tag))) ≡ true → ⊥
    shape t =
        let s = size in
        let l : is_quote (last? tag) ≡ true = ap is_quote (last?-append (quote ∷ d) quote) in
        ground arith

    inner : inner_of tag ≡ d
    inner =
        ap (λ n. take n (d ++ (quote ∷ []))) {x = length tag - 2} {y = length d}
          (omega (arith, size))
        ∙ take-append d (quote ∷ [])

pub opaque_tag-tag_of : (k : Coding) (d : Text) → Opaque d → opaque_tag (tag_of k d) ≡ some d
unfolding opaque_tag strip_prefix
opaque_tag-tag_of identity d h =
    if_both (λ (r : Option Text). r ≡ some d) (ltb (length (tag_of identity d)) 2) none
      (quoted (without_weak (tag_of identity d)))
      (λ t. let s = length-append d (quote ∷ []) in absurd (ground arith)) (λ _. quoted-Opaque d h)
opaque_tag-tag_of gzip d h =
    if_both (λ (r : Option Text). r ≡ some d) (ltb (length (tag_of gzip d)) 2) none
      (quoted (without_weak (tag_of gzip d))) (λ t. absurd (ground arith)) (λ _. quoted-Opaque d h)
