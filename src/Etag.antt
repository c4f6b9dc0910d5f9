-- ===== src/Etag.antt =====
-- etag.py: validators, conditional requests and the tail of a response.
pub mod Candidates
pub mod Match
pub mod Verdict
pub mod Revalidate
mod Tests
use oc_slimapi.Prelude.{
  is_text, ℕ, ◌+◌, ◌-◌, Bool, true, false, ◌&&◌, ◌||◌, not, Option, none, some, List, [], ◌∷◌, ◌++◌,
  Text, text, text_dec, ltb, leb, ◌==◌, if◌then◌else◌, length, take, drop, last?,
}
use oc_slimapi.Prelude.Decimal.{decimal}
use oc_slimapi.Prelude.Split.{push_front, split, join, free_of}
use oc_slimapi.Prelude.Strip.{lstrip, rstrip, strip, strip_prefix, lower}
use oc_slimapi.Gzip.{min_gzip_bytes, accepts_gzip, compress_if_beneficial}

abbrev pub quote : ℕ
quote = b'"'

-- The two codings of a response.
pub data Coding : Type 0 where
  identity gzip : Coding

abbrev pub coding_name : Coding → Text
coding_name identity = text "identity"
coding_name gzip = text "gzip"

-- `"…"`, or `W/"…"` for gzip.
abbrev pub tag_of : Coding → Text → Text
tag_of identity opaque = quote ∷ (opaque ++ (quote ∷ []))
tag_of gzip opaque = b'W' ∷ b'/' ∷ quote ∷ (opaque ++ (quote ∷ []))

-- What `compute_etag` hashes.
abbrev pub hash_input : Text → Coding → Text → Text
hash_input body coding rep_version = rep_version ++ (0 ∷ (coding_name coding ++ (0 ∷ body)))

-- `representation_version`, of the two limits, the fingerprint switch and the view.
unfoldable pub representation_version : ℕ → ℕ → Bool → ℕ → Text
unfolding join decimal
representation_version inline_max message_max fingerprints wire_view = join 0 (
    text "etag-v1"
    ∷ text "skeleton-v3"
    ∷ decimal inline_max
    ∷ decimal message_max
    ∷ (if fingerprints then text "fingerprint=on" else text "fingerprint=off")
    ∷ (text "wire=v" ++ decimal wire_view)
    ∷ [])

-- The candidates of an `If-None-Match` value; the one that is being read is the first of the list.
unfoldable pub candidates : Bool → Text → List Text
unfolding push_front
candidates in_quotes [] = [] ∷ []
candidates in_quotes (c ∷ s) =
    let toggled = candidates (not in_quotes) s in
    let same = candidates in_quotes s in
    if c == quote
    then push_front c toggled
    else if (c == b',') && not in_quotes
    then [] ∷ same
    else push_front c same

abbrev pub without_weak : Text → Text
without_weak c = elim (strip_prefix (text "W/") c) [ none ↦ c | some rest ↦ rest ]

abbrev pub is_quote : Option ℕ → Bool
is_quote none = false
is_quote (some c) = c == quote

abbrev pub head? : Text → Option ℕ
head? [] = none
head? (c ∷ s) = some c

-- `candidate[1:-1]`.
abbrev pub inner_of : Text → Text
inner_of c = take (length c - 2) (drop 1 c)

abbrev pub opaque_inner : Text → Option Text
opaque_inner [] = none
opaque_inner (c ∷ s) = if free_of quote (c ∷ s) then some (c ∷ s) else none

abbrev pub quoted : Text → Option Text
quoted c =
    if ltb (length c) 2 || not (is_quote (head? c) && is_quote (last? c))
    then none
    else opaque_inner (inner_of c)

unfoldable pub opaque_tag : Text → Option Text
unfolding strip_prefix free_of
opaque_tag c = if ltb (length c) 2 then none else quoted (without_weak c)

-- `opaque and opaque == target`.
abbrev pub same_tag : Option Text → Option Text → Bool
same_tag (some (c ∷ s)) (some t) = is_text (c ∷ s) t
same_tag _ _ = false

unfoldable pub any_match : Option Text → List Text → Bool
unfolding opaque_tag lstrip rstrip text_dec
any_match target [] = false
any_match target (raw ∷ raws) =
    let rest = any_match target raws in
    if same_tag (opaque_tag (strip raw)) target then true else rest

abbrev pub value_matches : Text → Text → Bool
value_matches [] etag = false
value_matches (c ∷ s) etag =
    if is_text (c ∷ s) (text "*")
    then true
    else any_match (opaque_tag etag) (candidates false (c ∷ s))

unfoldable pub if_none_match_matches : Option Text → Text → Bool
unfolding any_match candidates lstrip rstrip text_dec opaque_tag
if_none_match_matches none etag = false
if_none_match_matches (some header) etag = value_matches (strip header) etag

-- `sha256(…).hexdigest()` is an argument.
module _ (digest : Text → Text) where
  abbrev pub compute_etag : Text → Coding → Text → Text
  compute_etag body coding rep_version = tag_of coding (digest (hash_input body coding rep_version))

  -- The tag if the header matches it.
  abbrev pub hit : Option Text → Text → Option Text
  hit header tag = if if_none_match_matches header tag then some tag else none

  abbrev pub judge_value : Bool → Text → Text → Option Text → Text → Option Text
  judge_value accepted body rep_version header [] = none
  judge_value accepted body rep_version header (c ∷ s) =
      if is_text (c ∷ s) (text "*")
      then some (text "*")
      else if not (accepted && leb min_gzip_bytes (length body))
      then hit header (compute_etag body identity rep_version)
      else hit header (compute_etag body gzip rep_version)

  -- `judge_conditional`; `accepted` is the answer of `accepts_gzip`.
  unfoldable pub judge_conditional : Bool → Text → Option Text → Text → Option Text
  unfolding if_none_match_matches lstrip rstrip text_dec
  judge_conditional accepted body none rep_version = none
  judge_conditional accepted body (some header) rep_version =
      judge_value accepted body rep_version (some header) (strip header)

-- The four parts of `encode_conditional_tail`; `coded` is `Content-Encoding: gzip`.
pub record Tail : Type 0 where
  pub verdict : Option Text
  pub encoded : Text
  pub coded : Bool
  pub etag_value : Option Text

abbrev pub actual : Bool → Coding
actual true = gzip
actual false = identity

-- `rep_version is not None and (judge_empty_body or bool(body))`, as the version to use.
abbrev pub eligible : Option Text → Bool → Text → Option Text
eligible none judge_empty body = none
eligible (some v) true body = some v
eligible (some v) false [] = none
eligible (some v) false (c ∷ s) = some v

module _ (digest compress : Text → Text) where
  -- The answer for an eligible body once it is judged.
  unfoldable pub judged_tail : Bool → Text → Text → Option Text → Tail
  unfolding compress_if_beneficial text_dec
  judged_tail accepted body rep_version none =
      let (encoded, coded) = compress_if_beneficial compress accepted body in
      record {
        verdict = none;
        encoded = encoded;
        coded = coded;
        etag_value = some (compute_etag digest body (actual coded) rep_version);
      }
  judged_tail accepted body rep_version (some verdict) =
      let coded = (compress_if_beneficial compress accepted body).1 in
      record {
        verdict = some verdict;
        encoded = [];
        coded = false;
        etag_value = some (
            if is_text verdict (text "*")
            then compute_etag digest body (actual coded) rep_version
            else verdict);
      }

  abbrev pub bare_tail : Bool → Text → Tail
  bare_tail accepted body =
      let (encoded, coded) = compress_if_beneficial compress accepted body in
      record { verdict = none; encoded = encoded; coded = coded; etag_value = none }

  -- `encode_conditional_tail`.
  unfoldable pub encode_conditional_tail : Bool → Text → Option Text → Option Text → Bool → Tail
  unfolding judged_tail judge_conditional
  encode_conditional_tail accepted body header rep_version judge_empty =
      elim (eligible rep_version judge_empty body) [
        | none ↦ bare_tail accepted body
        | some v ↦ judged_tail accepted body v (judge_conditional digest accepted body header v)
      ]
