-- ===== src/Gzip.antt =====
-- gzip_util.py: the negotiation of gzip and the gate of a compressed response.
use oc_slimapi.Prelude.{
  is_text, ℕ, Bool, true, false, ◌||◌, not, Option, none, some, List, [], ◌∷◌, Text, text, text_dec,
  ltb, leb, if◌then◌else◌, length, take, drop,
}
use oc_slimapi.Prelude.Split.{split}
use oc_slimapi.Prelude.Strip.{lstrip, rstrip, strip, lower}

-- What the loop of `accepts_gzip` has seen: the last q of gzip and of the wildcard, as whether it is
-- positive.
pub record Quality : Type 0 where
  pub gzip_q : Option Bool
  pub star_q : Option Bool

-- `MIN_GZIP_BYTES`.
abbrev pub min_gzip_bytes : ℕ
min_gzip_bytes = 64

abbrev pub verdict_of : Quality → Bool
verdict_of q = elim (q.gzip_q) [ some b ↦ b | none ↦ elim (q.star_q) [ some b ↦ b | none ↦ false ] ]

-- `float_positive` is `float` of a text, as whether the number is positive; `none` is `ValueError`.
module _ (float_positive : Text → Option Bool) where
  -- The `q=` parameters of one coding, from the q so far.
  unfoldable pub q_of : Bool → List Text → Bool
  unfolding lstrip rstrip text_dec
  q_of q [] = q
  q_of q (param ∷ params) =
      let p = strip param in
      let parsed : Bool = elim (float_positive (drop 2 p)) [ some b ↦ b | none ↦ q ] in
      q_of (if is_text (lower (take 2 p)) (text "q=") then parsed else q) params

  abbrev pub note_coding : Text → Bool → Quality → Quality
  note_coding coding q seen =
      if is_text coding (text "gzip") || is_text coding (text "x-gzip")
      then record seen { gzip_q = some q }
      else if is_text coding (text "*")
      then record seen { star_q = some q }
      else seen

  abbrev pub note_tokens : List Text → Quality → Quality
  note_tokens [] seen = seen
  note_tokens (token ∷ params) seen = note_coding (lower (strip token)) (q_of true params) seen

  abbrev pub note_part : Text → Quality → Quality
  note_part [] seen = seen
  note_part (c ∷ s) seen = note_tokens (split b';' (c ∷ s)) seen

  unfoldable pub negotiate : List Text → Quality → Quality
  unfolding q_of split lstrip rstrip text_dec
  negotiate [] seen = seen
  negotiate (part ∷ parts) seen = negotiate parts (note_part (strip part) seen)

  unfoldable pub accepts_gzip : Option Text → Bool
  unfolding negotiate split
  accepts_gzip none = false
  accepts_gzip (some []) = false
  accepts_gzip (some (c ∷ s)) =
      verdict_of (negotiate (split b',' (c ∷ s)) (record { gzip_q = none; star_q = none }))

-- `gzip.compress(body, compresslevel=6)` is an argument; `true` is `Content-Encoding: gzip`.
module _ (compress : Text → Text) where
  unfoldable pub compress_if_beneficial : Bool → Text → Text × Bool
  compress_if_beneficial accepted body =
      if not accepted
      then (body, false)
      else if ltb (length body) min_gzip_bytes
      then (body, false)
      else if leb (length body) (length (compress body))
      then (body, false)
      else (compress body, true)
