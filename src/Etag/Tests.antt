-- ===== src/Etag/Tests.antt =====
-- Runs of etag.py and gzip_util.py on small inputs, and its theorems at them.
use oc_slimapi.Prelude.{
  inr, ◌+◌, ◌≤◌, ◌≡◌, refl, Bool, true, false, ◌&&◌, Option, none, some, [], ◌∷◌, ◌++◌, Text, text,
  text_dec, arith, map, take, ltb, leb, length, if◌then◌else◌,
}
use oc_slimapi.Prelude.Decimal.{decimal}
use oc_slimapi.Prelude.Split.{split, join, free_of}
use oc_slimapi.Prelude.Strip.{lstrip, rstrip, strip_prefix}
use oc_slimapi.Gzip.{min_gzip_bytes, q_of, negotiate, accepts_gzip, compress_if_beneficial}
use oc_slimapi.Etag.{
  identity, gzip, tag_of, hash_input, representation_version, candidates, opaque_tag, any_match,
  if_none_match_matches, compute_etag, judge_conditional, judged_tail, encode_conditional_tail,
}
use oc_slimapi.Etag.Candidates.{Opaque}
use oc_slimapi.Etag.Match.{header_of, among, matches-among}
use oc_slimapi.Etag.Verdict.{compress-shorter, judged_as, judge-among, judge-same_body}
use oc_slimapi.Etag.Revalidate.{not_modified, tail_revalidates}

program : Unit {0}
unfolding q_of negotiate accepts_gzip compress_if_beneficial candidates opaque_tag any_match
    if_none_match_matches judge_conditional judged_tail encode_conditional_tail
    representation_version lstrip rstrip strip_prefix split join free_of text_dec decimal
program = tt

-- `float` on the two texts that the runs need.
abbrev floats : Text → Option Bool
floats s = elim (text_dec s (text "0")) [
  | yes _ ↦ some false
  | no _ ↦ elim (text_dec s (text "1")) [ yes _ ↦ some true | no _ ↦ none ]
]

refused : accepts_gzip floats (some (text "br, GZIP;q=0, *;q=1")) ≡ false
unfolding program
refused = refl

wildcard : accepts_gzip floats (some (text "br;q=x, *")) ≡ true
unfolding program
wildcard = refl

-- A digest for the runs: it shifts every code, so it holds no quote and collides nowhere.
abbrev shifted : Text → Text
shifted s = b'x' ∷ map (λ c. c + 40) s

abbrev shorten : Text → Text
shorten s = take 10 s

abbrev body : Text
body = text "0123456789012345678901234567890123456789012345678901234567890123456789"

abbrev version : Text
version = text "v1"

version_text :
    representation_version 10 200 true 4
    ≡ join 0 (
        text "etag-v1"
        ∷ text "skeleton-v3"
        ∷ text "10"
        ∷ text "200"
        ∷ text "fingerprint=on"
        ∷ text "wire=v4"
        ∷ [])
unfolding program
version_text = refl

lowercase_weak :
    if_none_match_matches (some (text "w/" ++ tag_of identity (text "a"))) (tag_of gzip (text "a"))
    ≡ false
unfolding program
lowercase_weak = refl

compress-shorter_run :
    (length (compress_if_beneficial shorten true body).0 ≤ length body)
    × ((compress_if_beneficial shorten true body).1
        ≡ (true && leb min_gzip_bytes (length body) && ltb (length (shorten body)) (length body)))
compress-shorter_run = compress-shorter shorten true body

a-Opaque : Opaque (text "a")
unfolding free_of
a-Opaque = (refl, omega arith)

b-Opaque : Opaque (text "b,c")
unfolding free_of
b-Opaque = (refl, omega arith)

matches-among_example :
    if_none_match_matches
      (some (header_of (identity, text "a") ((gzip, text "b,c") ∷ [])))
      (tag_of identity (text "b,c"))
    ≡ among (text "b,c") ((identity, text "a") ∷ (gzip, text "b,c") ∷ [])
matches-among_example =
    matches-among (identity, text "a") ((gzip, text "b,c") ∷ []) identity (text "b,c") a-Opaque
      (b-Opaque, tt) b-Opaque

digest-Opaque : Opaque (shifted (hash_input body (judged_as true body) version))
unfolding free_of
digest-Opaque = (refl, omega arith)

judge-among_run :
    judge_conditional shifted true body (some (header_of (identity, text "a") [])) version ≡ (
      if among (shifted (hash_input body (judged_as true body) version)) ((identity, text "a") ∷ [])
      then some (compute_etag shifted body (judged_as true body) version)
      else none)
judge-among_run =
    judge-among shifted true body version (identity, text "a") [] a-Opaque tt digest-Opaque

judge-same_body_example : (body ≡ body) × (judged_as true body ≡ judged_as true body)
unfolding program
judge-same_body_example =
    judge-same_body shifted true body body version
      (compute_etag shifted body (judged_as true body) version) (judged_as true body) digest-Opaque
      digest-Opaque (λ _. refl) refl

tail_revalidates_example :
    ((encode_conditional_tail shifted shorten true body none (some version) false).etag_value
      ≡ some (compute_etag shifted body (judged_as true body) version))
    × (encode_conditional_tail shifted shorten true body
          (some (compute_etag shifted body (judged_as true body) version))
          (some version)
          false
        ≡ not_modified (compute_etag shifted body (judged_as true body) version))
unfolding compress_if_beneficial
tail_revalidates_example =
    tail_revalidates shifted shorten true false body version digest-Opaque refl (inr (omega arith))
