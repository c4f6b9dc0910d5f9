-- ===== src/Etag/Verdict.antt =====
-- etag.py `judge_conditional`: which requests are answered with 304.
use oc_slimapi.Prelude.{
  is_text, ℕ, ◌≤◌, ◌<◌, ◌≡◌, ◌≢◌, refl, sym, ap, ◌∙◌, Bool, true, false, ◌&&◌, Option, none, some,
  List, [], ◌∷◌, ◌++◌, Text, text, text_dec, ltb, leb, if◌then◌else◌, length, arith, All, Dec_both,
}
use oc_slimapi.Prelude.Strip.{strip}
use oc_slimapi.Gzip.{min_gzip_bytes, compress_if_beneficial}
use oc_slimapi.Etag.{
  Coding, identity, gzip, tag_of, hash_input, compute_etag, hit, judge_value, judge_conditional,
}
use oc_slimapi.Etag.Candidates.{Opaque}
use oc_slimapi.Etag.Match.{
  header_of, header_strip, header_star, header_nonempty, among, matches-among,
}

-- A response is compressed exactly when gzip is accepted, the body is not short and gzip makes it
-- shorter; it is never longer than the body.
pub compress-shorter :
    (compress : Text → Text) (accepted : Bool) (body : Text)
    → (length (compress_if_beneficial compress accepted body).0 ≤ length body)
      × ((compress_if_beneficial compress accepted body).1 ≡ (
          accepted
          && leb min_gzip_bytes (length body)
          && ltb (length (compress body)) (length body)))
unfolding compress_if_beneficial
compress-shorter compress accepted body = ground arith

-- The coding that a body is judged as.
abbrev pub judged_as : Bool → Text → Coding
judged_as accepted body = if accepted && leb min_gzip_bytes (length body) then gzip else identity

module _ (digest : Text → Text) where
  pub judge_nonempty :
      (accepted : Bool) (body rep_version v : Text) (header : Option Text)
      → 0 < length v
      → is_text v (text "*") ≡ false
      → judge_value digest accepted body rep_version header v
        ≡ hit digest header (compute_etag digest body (judged_as accepted body) rep_version)
  judge_nonempty accepted body rep_version [] header p h = absurd (omega arith)
  judge_nonempty accepted body rep_version (c ∷ s) header p h = ground arith

  -- A header that lists tags hits exactly when the tag of the coding that the body is judged as is
  -- among them, and then that tag is echoed. The opaque texts are not empty and hold no quote.
  pub judge-among :
      (accepted : Bool) (body rep_version : Text) (t : Coding × Text) (us : List (Coding × Text))
      → Opaque t.1
      → All (λ u. Opaque u.1) us
      → Opaque (digest (hash_input body (judged_as accepted body) rep_version))
      → judge_conditional digest accepted body (some (header_of t us)) rep_version ≡ (
          if among (digest (hash_input body (judged_as accepted body) rep_version)) (t ∷ us)
          then some (compute_etag digest body (judged_as accepted body) rep_version)
          else none)
  judge-among accepted body rep_version t us h hs o =
      opened
      ∙ ap (judge_value digest accepted body rep_version (some (header_of t us)))
          (header_strip t us)
      ∙ judge_nonempty accepted body rep_version (header_of t us) (some (header_of t us))
          (header_nonempty t us) (header_star t us)
      ∙ ap (λ b. if b then some tag else none)
          (matches-among t us (judged_as accepted body)
            (digest (hash_input body (judged_as accepted body) rep_version)) h hs o)
    where
      tag : Text
      tag = compute_etag digest body (judged_as accepted body) rep_version

      opened :
          judge_conditional digest accepted body (some (header_of t us)) rep_version
          ≡ judge_value digest accepted body rep_version
              (some (header_of t us))
              (strip (header_of t us))
      opened = unfold judge_conditional in refl

  pub append-cancel : (s t u : Text) → s ++ t ≡ s ++ u → t ≡ u
  append-cancel [] t u e = e
  append-cancel (c ∷ s) t u e = append-cancel s t u (cc e)

  pub other_coding :
      (body body' : Text) → text "identity" ++ (0 ∷ body) ≡ text "gzip" ++ (0 ∷ body') → ⊥
  other_coding body body' e = let f : ◌≡◌ {A = ℕ} 105 103 = ap first e in omega (arith, f)
    where
      first : Text → ℕ
      first [] = 0
      first (c ∷ s) = c

  -- What is hashed tells the body and the coding.
  pub hash_input_same :
      (body body' rep_version : Text) (k k' : Coding)
      → hash_input body k rep_version ≡ hash_input body' k' rep_version
      → (body ≡ body') × (k ≡ k')
  hash_input_same body body' rep_version identity identity e = (
    append-cancel (0 ∷ (text "identity" ++ (0 ∷ []))) body body' (append-cancel rep_version _ _ e),
    refl,
  )
  hash_input_same body body' rep_version gzip gzip e = (
    append-cancel (0 ∷ (text "gzip" ++ (0 ∷ []))) body body' (append-cancel rep_version _ _ e),
    refl,
  )
  hash_input_same body body' rep_version identity gzip e =
      absurd
        (other_coding body body' (append-cancel (0 ∷ []) _ _ (append-cancel rep_version _ _ e)))
  hash_input_same body body' rep_version gzip identity e =
      absurd (
        other_coding body' body
          (sym (append-cancel (0 ∷ []) _ _ (append-cancel rep_version _ _ e))))

  pub judge_one :
      (accepted : Bool) (body opaque rep_version : Text) (k : Coding)
      → Opaque opaque
      → Opaque (digest (hash_input body (judged_as accepted body) rep_version))
      → judge_conditional digest accepted body (some (tag_of k opaque)) rep_version ≡ (
          if is_text opaque (digest (hash_input body (judged_as accepted body) rep_version))
          then some (compute_etag digest body (judged_as accepted body) rep_version)
          else none)
  judge_one accepted body opaque rep_version k h o =
      judge-among accepted body rep_version (k, opaque) [] h tt o
      ∙ ap
          (λ b.
            if b
            then some (compute_etag digest body (judged_as accepted body) rep_version)
            else none)
          (flat (is_text opaque (digest (hash_input body (judged_as accepted body) rep_version))))
    where
      flat : (b : Bool) → (if b then true else false) ≡ b
      flat true = refl
      flat false = refl

  -- No false 304: a validator of the same representation version hits only if it was computed for
  -- this very body in the coding that it is judged as, provided the digests are texts without
  -- quotes, not empty, and the digest does not collide on the two.
  pub judge-same_body :
      (accepted : Bool) (body body' rep_version verdict : Text) (k : Coding)
      → Opaque (digest (hash_input body' k rep_version))
      → Opaque (digest (hash_input body (judged_as accepted body) rep_version))
      → (digest (hash_input body' k rep_version)
            ≡ digest (hash_input body (judged_as accepted body) rep_version)
          → hash_input body' k rep_version ≡ hash_input body (judged_as accepted body) rep_version)
      → judge_conditional digest accepted body
          (some (compute_etag digest body' k rep_version))
          rep_version
        ≡ some verdict
      → (body' ≡ body) × (k ≡ judged_as accepted body)
  judge-same_body accepted body body' rep_version verdict k h o inj e =
      elim (text_dec theirs ours) [
        | yes p ↦ hash_input_same body' body rep_version k (judged_as accepted body) (inj p)
        | no n ↦ absurd (missed (sym (judged ∙ refused n) ∙ e))
      ]
    where
      theirs : Text
      theirs = digest (hash_input body' k rep_version)

      ours : Text
      ours = digest (hash_input body (judged_as accepted body) rep_version)

      answer : Bool → Option Text
      answer b =
          if b then some (compute_etag digest body (judged_as accepted body) rep_version) else none

      judged :
          judge_conditional digest accepted body
            (some (compute_etag digest body' k rep_version))
            rep_version
          ≡ answer (is_text theirs ours)
      judged = judge_one accepted body theirs rep_version k h o

      refused : theirs ≢ ours → answer (is_text theirs ours) ≡ none
      refused n = ap answer (
          Dec_both (λ b. b ≡ false) (text_dec theirs ours) false true (λ _. refl)
            (λ p. absurd (n p)))

      missed : none ≡ some verdict → ⊥
      missed q = cc q

  pub judge_own :
      (accepted : Bool) (body rep_version : Text)
      → Opaque (digest (hash_input body (judged_as accepted body) rep_version))
      → judge_conditional digest accepted body
          (some (compute_etag digest body (judged_as accepted body) rep_version))
          rep_version
        ≡ some (compute_etag digest body (judged_as accepted body) rep_version)
  judge_own accepted body rep_version o =
      judge_one accepted body ours rep_version (judged_as accepted body) o o
      ∙ ap
          (λ b.
            if b
            then some (compute_etag digest body (judged_as accepted body) rep_version)
            else none)
          (Dec_both (λ b. b ≡ true) (text_dec ours ours) false true (λ n. absurd (n refl))
            (λ _. refl))
    where
      ours : Text
      ours = digest (hash_input body (judged_as accepted body) rep_version)
