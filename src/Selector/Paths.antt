-- ===== src/Selector/Paths.antt =====
-- selector.py and versioning.py: what a path is taken for. Paths are matched segment by segment.
use Prim.Native.String.{String}
use oc_slimapi.Prelude.{
  is_text, ℕ, Bool, true, false, ◌&&◌, ◌||◌, not, Option, none, some, List, [], ◌∷◌, ◌++◌, Text,
  text, text_dec, ◌==◌, if◌then◌else◌, map,
}
use oc_slimapi.Prelude.Split.{split}
use oc_slimapi.Prelude.Strip.{strip_prefix}

unfoldable pub member : Text → List Text → Bool
unfolding text_dec
member s [] = false
member s (t ∷ ts) = let rest = member s ts in elim (text_dec s t) [ yes _ ↦ true | no _ ↦ rest ]

-- `_normalize_path`: a run of slashes is one slash.
abbrev pub push_slash : ℕ → Text → Text
push_slash c [] = c ∷ []
push_slash c (d ∷ s) = if (c == b'/') && (d == b'/') then d ∷ s else c ∷ d ∷ s

unfoldable pub normalize_path : Text → Text
normalize_path [] = []
normalize_path (c ∷ s) = push_slash c (normalize_path s)

-- One segment of a path pattern: fixed text, `[^/]+`, or a choice of texts.
pub data Piece : Type 0 where
  literal : Text → Piece
  any : Piece
  among : List Text → Piece

-- `$` also stands before a line feed that ends the text.
abbrev pub line_end : Bool → Text → Text
line_end last t = if last then t ++ (10 ∷ []) else t

abbrev pub piece_matches : Bool → Piece → Text → Bool
piece_matches last (literal t) s = is_text s t || is_text s (line_end last t)
piece_matches last any [] = false
piece_matches last any (c ∷ s) = true
piece_matches last (among ts) s = member s ts || member s (map (line_end last) ts)

abbrev pub is_last : List Text → Bool
is_last [] = true
is_last (s ∷ ss) = false

unfoldable pub pieces_match : List Piece → List Text → Bool
unfolding text_dec member
pieces_match [] [] = true
pieces_match [] (s ∷ ss) = false
pieces_match (p ∷ ps) [] = false
pieces_match (p ∷ ps) (s ∷ ss) =
    let rest = pieces_match ps ss in piece_matches (is_last ss) p s && rest

unfoldable pub any_pattern : List (List Piece) → List Text → Bool
unfolding pieces_match
any_pattern [] segments = false
any_pattern (p ∷ ps) segments = pieces_match p segments || any_pattern ps segments

-- A pattern as it is written, with `*` for `[^/]+`.
abbrev pub piece_of : Text → Piece
piece_of s = if is_text s (text "*") then any else literal s

unfoldable pub pattern_of : String → List Piece
unfolding split text_dec
pattern_of s = map piece_of (split b'/' (text s))

-- `_DIRECTORY_CONSUMING_PATTERNS`.
unfoldable pub consuming_patterns : List (List Piece)
unfolding pattern_of
consuming_patterns =
    pattern_of "/slimapi/messages/*"
    ∷ pattern_of "/slimapi/messages/*/full/*"
    ∷ pattern_of "/slimapi/messages/*/expand/*/*"
    ∷ pattern_of "/slimapi/messages/*/expand/*/*/*"
    ∷ pattern_of "/slimapi/sessions"
    ∷ pattern_of "/slimapi/sessions/status"
    ∷ pattern_of "/slimapi/sessions/*/todo"
    ∷ pattern_of "/slimapi/sessions/*/children"
    ∷ pattern_of "/slimapi/sessions/*/diff"
    ∷ pattern_of "/slimapi/sessions/*/stream"
    ∷ pattern_of "/slimapi/agent"
    ∷ pattern_of "/slimapi/command"
    ∷ pattern_of "/slimapi/file"
    ∷ pattern_of "/slimapi/file/content"
    ∷ pattern_of "/slimapi/file/status"
    ∷ pattern_of "/slimapi/file/raw"
    ∷ pattern_of "/slimapi/vcs"
    ∷ pattern_of "/slimapi/vcs/status"
    ∷ pattern_of "/slimapi/vcs/diff"
    ∷ pattern_of "/slimapi/find/file"
    ∷ pattern_of "/slimapi/config/providers"
    ∷ pattern_of "/slimapi/session/*"
    ∷ pattern_of "/slimapi/session"
    ∷ (pattern_of "/slimapi/session/*" ++ (among session_actions ∷ []))
    ∷ pattern_of "/slimapi/session/*/permissions/*"
    ∷ (pattern_of "/slimapi/question/*" ++ (among (text "reply" ∷ text "reject" ∷ []) ∷ []))
    ∷ []
  where
    session_actions : List Text
    session_actions =
        text "prompt_async"
        ∷ text "abort"
        ∷ text "summarize"
        ∷ text "fork"
        ∷ text "revert"
        ∷ text "command"
        ∷ []

-- `_is_v4_directory_retired`.
unfoldable pub is_retired : Text → Bool
unfolding pattern_of any_pattern split
is_retired path = any_pattern (pattern_of "/slimapi/sessions" ∷ []) (split b'/' path)

-- `_is_directory_consuming`.
unfoldable pub is_consuming : Text → Bool
unfolding consuming_patterns any_pattern split
is_consuming path = any_pattern consuming_patterns (split b'/' path)

-- `_directory_consuming_for`.
unfoldable pub consuming_for : Text → Bool
unfolding is_retired is_consuming
consuming_for path = if is_retired path then false else is_consuming path

-- `_METHOD_BOUNDARY_POST_PATTERNS` with `_method_boundary_allow`.
unfoldable pub boundary_allow : Text → Text → Option (List Text)
unfolding pattern_of pieces_match split
boundary_allow path method =
    let segments = split b'/' path in
    if not (is_text method (text "POST"))
    then none
    else if pieces_match (pattern_of "/slimapi/session/*") segments
    then some (text "GET" ∷ text "PATCH" ∷ text "DELETE" ∷ [])
    else if pieces_match (pattern_of "/slimapi/session/*/archive") segments
    then some []
    else if pieces_match (pattern_of "/slimapi/session/*/delete") segments
    then some []
    else none

abbrev pub starts_with : Text → Text → Bool
starts_with p s = elim (strip_prefix p s) [ none ↦ false | some _ ↦ true ]

-- `_is_slimapi_path`.
unfoldable pub is_slimapi_path : Text → Bool
unfolding normalize_path strip_prefix text_dec
is_slimapi_path path =
    is_text (normalize_path path) (text "/slimapi")
    || starts_with (text "/slimapi/") (normalize_path path)

-- `_is_stream_path`.
unfoldable pub is_stream_path : Text → Bool
unfolding text_dec
is_stream_path [] = false
is_stream_path (c ∷ s) = let rest = is_stream_path s in is_text (c ∷ s) (text "/stream") || rest
