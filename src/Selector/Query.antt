-- ===== src/Selector/Query.antt =====
-- selector.py: the query string as `&`-separated segments. `unquote` is `unquote_plus`.
use oc_slimapi.Prelude.{is_text, Bool, List, [], ◌∷◌, Text, text_dec, ◌==◌, if◌then◌else◌}
use oc_slimapi.Prelude.Split.{split, join}
use oc_slimapi.Selector.Paths.{member}

-- What stands before the first `=`.
unfoldable pub name_of : Text → Text
name_of [] = []
name_of (c ∷ s) = let rest = name_of s in if c == b'=' then [] else c ∷ rest

-- What stands after the first `=`; blank when there is none.
unfoldable pub value_of : Text → Text
value_of [] = []
value_of (c ∷ s) = let rest = value_of s in if c == b'=' then s else rest

module _ (unquote : Text → Text) where
  -- The values of a key among the segments, as `parse_qsl` reads them with `keep_blank_values`: an
  -- empty segment is no pair.
  unfoldable pub segment_values : Text → List Text → List Text
  unfolding name_of value_of text_dec
  segment_values key [] = []
  segment_values key ([] ∷ rest) = segment_values key rest
  segment_values key ((c ∷ s) ∷ rest) =
      let more = segment_values key rest in
      if is_text (unquote (name_of (c ∷ s))) key then unquote (value_of (c ∷ s)) ∷ more else more

  -- `_collect_v_values` and `_collect_directory_values`.
  unfoldable pub query_values : Text → Text → List Text
  unfolding segment_values split
  query_values key query = segment_values key (split b'&' query)

  -- `_segment_key_in`.
  abbrev pub segment_key_in : List Text → Text → Bool
  segment_key_in keys segment = member (unquote (name_of segment)) keys

  -- The segments that `_strip_query_keys` keeps.
  unfoldable pub kept_segments : List Text → List Text → List Text
  unfolding member name_of
  kept_segments keys [] = []
  kept_segments keys (segment ∷ segments) =
      let rest = kept_segments keys segments in
      if segment_key_in keys segment then rest else segment ∷ rest

  unfoldable pub strip_query_keys : List Text → Text → Text
  unfolding kept_segments join split
  strip_query_keys keys [] = []
  strip_query_keys keys (c ∷ s) = join b'&' (kept_segments keys (split b'&' (c ∷ s)))
