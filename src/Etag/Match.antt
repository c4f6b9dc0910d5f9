-- ===== src/Etag/Match.antt =====
-- etag.py `if_none_match_matches`, against membership in the list of tags that a header was built from.
use oc_slimapi.Prelude.{
  is_text, ℕ, ◌<◌, ◌≡◌, refl, sym, ap, ◌∙◌, Bool, true, false, some, List, [], ◌∷◌, ◌++◌, Text,
  text, text_dec, if◌then◌else◌, length, last?, arith, All, Dec_both,
}
use mathlib.Core.List.{append_assoc, append-nil}
use oc_slimapi.Prelude.Split.{push_front}
use oc_slimapi.Prelude.Strip.{is_space, lstrip, rstrip, push_unless_blank, strip}
use oc_slimapi.Etag.{
  quote, Coding, identity, gzip, tag_of, candidates, is_quote, opaque_tag, same_tag, any_match,
  value_matches, if_none_match_matches,
}
use oc_slimapi.Etag.Candidates.{Opaque, candidates-tag, last?-append, opaque_tag-tag_of}

-- A text that begins and ends with no blank is not stripped.
push-nonempty :
    (c : ℕ) (x : Text) (e : ℕ) → push_unless_blank c (x ++ (e ∷ [])) ≡ c ∷ (x ++ (e ∷ []))
push-nonempty c [] e = refl
push-nonempty c (a ∷ x) e = refl

rstrip-quote : (x : Text) → rstrip (x ++ (quote ∷ [])) ≡ x ++ (quote ∷ [])
unfolding rstrip
rstrip-quote [] = refl
rstrip-quote (c ∷ x) = ap (push_unless_blank c) (rstrip-quote x) ∙ push-nonempty c x quote

lstrip-solid : (c : ℕ) (s : Text) → is_space c ≡ false → lstrip (c ∷ s) ≡ c ∷ s
unfolding lstrip
lstrip-solid c s h = rw h

-- Values that end with a tag, and begin with one.
abbrev EndsQuoted : Text → Type 0
EndsQuoted v = (x : Text) × (v ≡ x ++ (quote ∷ []))

abbrev BeginsSolid : Text → Type 0
BeginsSolid v = (c : ℕ) × (s : Text) × (v ≡ c ∷ s) × (is_space c ≡ false)

strip-solid : (v : Text) → BeginsSolid v → EndsQuoted v → strip v ≡ v
strip-solid v (c, s, b, h) (x, e) =
    ap lstrip (ap rstrip e ∙ rstrip-quote x ∙ sym e) ∙ ap lstrip b ∙ lstrip-solid c s h ∙ sym b

strip-spaced : (v : Text) → BeginsSolid v → EndsQuoted v → strip (b' ' ∷ v) ≡ v
unfolding lstrip
strip-spaced v (c, s, b, h) (x, e) =
    ap lstrip (ap (λ w. rstrip (b' ' ∷ w)) e ∙ rstrip-quote (b' ' ∷ x) ∙ ap (λ w. b' ' ∷ w) (sym e))
    ∙ ap lstrip b
    ∙ lstrip-solid c s h
    ∙ sym b

tag-BeginsSolid : (k : Coding) (d s : Text) → BeginsSolid (tag_of k d ++ s)
tag-BeginsSolid identity d s = (quote, (d ++ (quote ∷ [])) ++ s, refl, refl)
tag-BeginsSolid gzip d s = (b'W', b'/' ∷ quote ∷ ((d ++ (quote ∷ [])) ++ s), refl, refl)

tag-EndsQuoted : (k : Coding) (d : Text) → EndsQuoted (tag_of k d)
tag-EndsQuoted identity d = (quote ∷ d, refl)
tag-EndsQuoted gzip d = (b'W' ∷ b'/' ∷ quote ∷ d, refl)

tag-nil : (k : Coding) (d : Text) → tag_of k d ++ [] ≡ tag_of k d
tag-nil k d = append-nil (tag_of k d)

-- A header that lists some tags.
abbrev pub header_of : Coding × Text → List (Coding × Text) → Text
header_of t [] = tag_of t.0 t.1
header_of t (u ∷ us) = tag_of t.0 t.1 ++ (b',' ∷ b' ' ∷ header_of u us)

header-EndsQuoted : (t : Coding × Text) (us : List (Coding × Text)) → EndsQuoted (header_of t us)
header-EndsQuoted t [] = tag-EndsQuoted t.0 t.1
header-EndsQuoted t (u ∷ us) =
    let (x, e) = header-EndsQuoted u us in
    (
      tag_of t.0 t.1 ++ (b',' ∷ b' ' ∷ x),
      ap (λ v. tag_of t.0 t.1 ++ (b',' ∷ b' ' ∷ v)) e
          ∙ sym (append_assoc (tag_of t.0 t.1) (b',' ∷ b' ' ∷ x) (quote ∷ [])),
    )

header-BeginsSolid : (t : Coding × Text) (us : List (Coding × Text)) → BeginsSolid (header_of t us)
header-BeginsSolid t [] =
    let (c, s, b, h) = tag-BeginsSolid t.0 t.1 [] in (c, s, sym (tag-nil t.0 t.1) ∙ b, h)
header-BeginsSolid t (u ∷ us) = tag-BeginsSolid t.0 t.1 (b',' ∷ b' ' ∷ header_of u us)

-- The tags after the first one, as the parser leaves them.
abbrev spaced : List (Coding × Text) → List Text
spaced [] = []
spaced (u ∷ us) = (b' ' ∷ tag_of u.0 u.1) ∷ spaced us

candidates-header :
    (t : Coding × Text) (us : List (Coding × Text))
    → Opaque t.1
    → All (λ u. Opaque u.1) us
    → candidates false (header_of t us) ≡ tag_of t.0 t.1 ∷ spaced us
candidates-header t [] h hs =
    ap (candidates false) (sym (tag-nil t.0 t.1))
    ∙ candidates-tag t.0 t.1 [] [] [] h.0 (unfold candidates in refl)
    ∙ ap (λ x. x ∷ []) (tag-nil t.0 t.1)
candidates-header t (u ∷ us) h hs =
    candidates-tag t.0 t.1 (b',' ∷ b' ' ∷ header_of u us) [] (spaced (u ∷ us)) h.0
      (separated ∙ ap (λ ps. [] ∷ push_front b' ' ps) (candidates-header u us hs.0 hs.1) ∙ fronted)
    ∙ ap (λ x. x ∷ spaced (u ∷ us)) (tag-nil t.0 t.1)
  where
    separated :
        candidates false (b',' ∷ b' ' ∷ header_of u us)
        ≡ [] ∷ push_front b' ' (candidates false (header_of u us))
    separated = unfold candidates in refl

    fronted : [] ∷ push_front b' ' (tag_of u.0 u.1 ∷ spaced us) ≡ [] ∷ spaced (u ∷ us)
    fronted = unfold push_front in refl

-- Whether a tag is among some, weak or not.
abbrev pub among : Text → List (Coding × Text) → Bool
among d [] = false
among d (t ∷ ts) = if is_text t.1 d then true else among d ts

same_tag-Opaque : (o d : Text) → Opaque o → same_tag (some o) (some d) ≡ is_text o d
same_tag-Opaque [] d h = let p = h.1 in absurd (omega arith)
same_tag-Opaque (c ∷ o) d h = refl

any_match-cons :
    (d raw : Text) (u : Coding × Text) (raws : List Text) (us : List (Coding × Text))
    → Opaque u.1
    → strip raw ≡ tag_of u.0 u.1
    → any_match (some d) raws ≡ among d us
    → any_match (some d) (raw ∷ raws) ≡ among d (u ∷ us)
unfolding any_match
any_match-cons d raw u raws us h s e =
    ap (λ b. if b then true else any_match (some d) raws)
      (ap (λ r. same_tag (opaque_tag r) (some d)) s
        ∙ ap (λ o. same_tag o (some d)) (opaque_tag-tag_of u.0 u.1 h)
        ∙ same_tag-Opaque u.1 d h)
    ∙ ap (λ b. if is_text u.1 d then true else b) e

any_match-spaced :
    (d : Text) (us : List (Coding × Text))
    → All (λ u. Opaque u.1) us
    → any_match (some d) (spaced us) ≡ among d us
any_match-spaced d [] h = unfold any_match in refl
any_match-spaced d (u ∷ us) h =
    any_match-cons d (b' ' ∷ tag_of u.0 u.1) u (spaced us) us h.0
      (strip-spaced (tag_of u.0 u.1) (header-BeginsSolid u []) (tag-EndsQuoted u.0 u.1))
      (any_match-spaced d us h.1)

star_ends : (x : Text) → text "*" ≡ x ++ (quote ∷ []) → ⊥
star_ends x e =
    let f : false ≡ true = ap (λ v. is_quote (last? v)) e ∙ ap is_quote (last?-append x quote) in
    cc f

not_star : (v : Text) → EndsQuoted v → is_text v (text "*") ≡ false
not_star v (x, e) =
    Dec_both (λ b. b ≡ false) (text_dec v (text "*")) false true (λ _. refl)
      (λ p. absurd (star_ends x (sym p ∙ e)))

solid_nonempty : (v : Text) → BeginsSolid v → 0 < length v
solid_nonempty v (c, s, b, h) = omega (arith, ap (λ x. length x) b)

pub header_strip :
    (t : Coding × Text) (us : List (Coding × Text)) → strip (header_of t us) ≡ header_of t us
header_strip t us = strip-solid (header_of t us) (header-BeginsSolid t us) (header-EndsQuoted t us)

pub header_star :
    (t : Coding × Text) (us : List (Coding × Text)) → is_text (header_of t us) (text "*") ≡ false
header_star t us = not_star (header_of t us) (header-EndsQuoted t us)

pub header_nonempty : (t : Coding × Text) (us : List (Coding × Text)) → 0 < length (header_of t us)
header_nonempty t us = solid_nonempty (header_of t us) (header-BeginsSolid t us)

value_matches-other :
    (v etag : Text)
    → 0 < length v
    → is_text v (text "*") ≡ false
    → value_matches v etag ≡ any_match (opaque_tag etag) (candidates false v)
value_matches-other [] etag p h = absurd (omega arith)
value_matches-other (c ∷ s) etag p h = rw h

-- A header that lists some tags, separated by a comma and a space, matches a tag exactly when its
-- opaque text is among theirs; the weakness marker on either side does not count. The opaque texts
-- are not empty and hold no quote.
pub matches-among :
    (t : Coding × Text) (us : List (Coding × Text)) (k : Coding) (d : Text)
    → Opaque t.1
    → All (λ u. Opaque u.1) us
    → Opaque d
    → if_none_match_matches (some (header_of t us)) (tag_of k d) ≡ among d (t ∷ us)
matches-among t us k d h hs o =
    opened
    ∙ ap (λ v. value_matches v (tag_of k d)) (header_strip t us)
    ∙ value_matches-other (header_of t us) (tag_of k d) (header_nonempty t us) (header_star t us)
    ∙ ap (λ x. any_match x (candidates false (header_of t us))) (opaque_tag-tag_of k d o)
    ∙ ap (any_match (some d)) (candidates-header t us h hs)
    ∙ any_match-cons d (tag_of t.0 t.1) t (spaced us) us h
        (strip-solid (tag_of t.0 t.1) (header-BeginsSolid t []) (tag-EndsQuoted t.0 t.1))
        (any_match-spaced d us hs)
  where
    opened :
        if_none_match_matches (some (header_of t us)) (tag_of k d)
        ≡ value_matches (strip (header_of t us)) (tag_of k d)
    opened = unfold if_none_match_matches in refl
