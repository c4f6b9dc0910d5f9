-- ===== src/Etag/Revalidate.antt =====
-- etag.py `encode_conditional_tail`: a request with the validator of an earlier response.
use oc_slimapi.Prelude.{
  Option, ◌⊎◌, inl, inr, refl, ◌<◌, ◌∷◌, length, arith, is_text, ◌≡◌, ap, ◌∙◌, Bool, true, false,
  none, some, [], Text, text, if◌then◌else◌,
}
use oc_slimapi.Gzip.{compress_if_beneficial}
use oc_slimapi.Etag.{
  Coding, tag_of, hash_input, compute_etag, judge_conditional, Tail, actual, eligible, bare_tail,
  judged_tail, encode_conditional_tail,
}
use oc_slimapi.Etag.Candidates.{Opaque}
use oc_slimapi.Etag.Match.{header_star}
use oc_slimapi.Etag.Verdict.{judged_as, judge_own}

-- The 304 that echoes a tag: no body, no coding.
abbrev pub not_modified : Text → Tail
not_modified tag = record { verdict = some tag; encoded = []; coded = false; etag_value = some tag }

-- An empty body is judged where the caller asks for it, and every other body is.
eligible-judged :
    (rep_version : Text) (judge_empty : Bool) (body : Text)
    → (judge_empty ≡ true) ⊎ (0 < length body)
    → eligible (some rep_version) judge_empty body ≡ some rep_version
eligible-judged rep_version true body h = refl
eligible-judged rep_version false (c ∷ s) h = refl
eligible-judged rep_version false [] (inl e) = absurd (cc e)
eligible-judged rep_version false [] (inr l) = absurd (omega (arith, l))

-- If the coding that a response is sent in is the one that its body is judged as, and the digest is
-- a text without quotes, not empty, and the body is not empty or empty bodies are judged: the 200 tail
-- of a request without a header carries the tag of that coding, and a later request for the same body
-- with that tag is answered with 304 and that tag, without a body.
pub tail_revalidates :
    (digest compress : Text → Text) (accepted judge_empty : Bool) (body rep_version : Text)
    → Opaque (digest (hash_input body (judged_as accepted body) rep_version))
    → actual (compress_if_beneficial compress accepted body).1 ≡ judged_as accepted body
    → (judge_empty ≡ true) ⊎ (0 < length body)
    → ((encode_conditional_tail digest compress accepted body none
          (some rep_version)
          judge_empty).etag_value
        ≡ some (compute_etag digest body (judged_as accepted body) rep_version))
      × (encode_conditional_tail digest compress accepted body
            (some (compute_etag digest body (judged_as accepted body) rep_version))
            (some rep_version)
            judge_empty
          ≡ not_modified (compute_etag digest body (judged_as accepted body) rep_version))
tail_revalidates digest compress accepted judge_empty body rep_version o same full = (sent, again)
  where
    tag : Text
    tag = compute_etag digest body (judged_as accepted body) rep_version

    judged :
        (header : Option Text)
        → encode_conditional_tail digest compress accepted body header
            (some rep_version)
            judge_empty
          ≡ judged_tail digest compress accepted body rep_version
              (judge_conditional digest accepted body header rep_version)
    judged header =
        unfold encode_conditional_tail in
        ap
          (λ (o : Option Text). elim o [
            | none ↦ bare_tail digest compress accepted body
            | some v ↦
                judged_tail digest compress accepted body v
                  (judge_conditional digest accepted body header v)
          ])
          (eligible-judged rep_version judge_empty body full)

    sent :
        (encode_conditional_tail digest compress accepted body none
          (some rep_version)
          judge_empty).etag_value
        ≡ some tag
    sent =
        ap (λ (t : Tail). t.etag_value) (judged none)
        ∙ (unfold judged_tail judge_conditional in
            ap (λ k. some (compute_etag digest body k rep_version)) same)

    plain : (k : Coding) (d : Text) → is_text (tag_of k d) (text "*") ≡ false
    plain k d = header_star (k, d) []

    echoed : judged_tail digest compress accepted body rep_version (some tag) ≡ not_modified tag
    echoed =
        unfold judged_tail in
        ap (tailed ((compress_if_beneficial compress accepted body).1))
          (plain (judged_as accepted body) _)
      where
        tailed : Bool → Bool → Tail
        tailed coded b = record {
          verdict = some tag;
          encoded = [];
          coded = false;
          etag_value =
              some (if b then compute_etag digest body (actual coded) rep_version else tag);
        }

    again :
        encode_conditional_tail digest compress accepted body
          (some tag)
          (some rep_version)
          judge_empty
        ≡ not_modified tag
    again =
        judged (some tag)
        ∙ ap (judged_tail digest compress accepted body rep_version)
            (judge_own digest accepted body rep_version o)
        ∙ echoed
