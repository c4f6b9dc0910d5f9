-- ===== src/Selector/Request.antt =====
-- selector.py: the request and the answers, the judgment of the version values, and the readings of the
-- directory.
use oc_slimapi.Prelude.{
  is_text, ◌-◌, Bool, true, false, ◌&&◌, ◌||◌, not, Option, none, some, List, [], ◌∷◌, Text, text,
  text_dec, length, ltb, leb, ◌==◌, if◌then◌else◌, map,
}
use oc_slimapi.Prelude.Decimal.{is_digit, all_digits, value_from}
use oc_slimapi.Prelude.Strip.{lower}
use oc_slimapi.Directory.{normalize_directory}

-- `directoryForm`.
pub data Form : Type 0 where
  query : Form
  header : Form
  both : Form
  absent : Form

-- `selectorResult`.
pub data SelectorResult : Type 0 where
  v4 : SelectorResult
  rejected : SelectorResult
  exempt : SelectorResult
  not_applicable : SelectorResult

-- An ASGI scope; the last three fields are keys of its `state`, `none` when the key is not there.
pub record Scope : Type 0 where
  pub is_http : Bool
  pub path : Text
  pub method : Text
  pub query_string : Text
  pub headers : List (Text × Text)
  pub directory_form : Option (Option Form)
  pub selector : Option (SelectorResult × Option Text)
  pub directory : Option Text

-- The bodies of a refused directory.
pub data DirectoryError : Type 0 where
  directory_retired_in_v4 : DirectoryError
  invalid_directory_selector : DirectoryError
  invalid_directory : DirectoryError
  directory_conflict : Text → Text → DirectoryError
  directory_header_retired : DirectoryError

-- The answers that the selector gives itself.
pub data Answer : Type 0 where
  method_not_allowed : Answer
  unsupported_version : Answer
  invalid_version_selector : Answer
  method_not_applicable : Text → List Text → Answer
  refused : DirectoryError → Answer

-- `_SELECTOR_LEXICAL_RE.fullmatch`.
unfoldable pub is_lexical : Text → Bool
unfolding all_digits
is_lexical [] = false
is_lexical (c ∷ s) = is_digit c && not (c == b'0') && all_digits s

unfoldable pub all_lexical : List Text → Bool
unfolding is_lexical
all_lexical [] = true
all_lexical (v ∷ vs) = is_lexical v && all_lexical vs

unfoldable pub every_is : Text → List Text → Bool
unfolding text_dec
every_is t [] = true
every_is t (v ∷ vs) = is_text v t && every_is t vs

-- `none` is an admitted version: `SUPPORTED_WIRE_VERSIONS` has 4 only.
unfoldable pub judge_version : List Text → Option Answer
unfolding all_lexical every_is value_from
judge_version [] = some unsupported_version
judge_version (v ∷ vs) =
    if not (all_lexical (v ∷ vs)) || not (every_is v vs)
    then some invalid_version_selector
    else if ltb 19 (length v)
    then some unsupported_version
    else if value_from 0 v == 4
    then none
    else some unsupported_version

-- `_directory_header_value`: the first such header, as it was sent.
unfoldable pub directory_header : List (Text × Text) → Option Text
unfolding text_dec
directory_header [] = none
directory_header (h ∷ hs) =
    let rest = directory_header hs in
    if is_text (lower h.0) (text "x-opencode-directory") then some h.1 else rest

abbrev pub is_some {ℓ} : {A : Type ℓ} → Option A → Bool
is_some none = false
is_some (some x) = true

abbrev pub has_value : List Text → Bool
has_value [] = false
has_value (v ∷ vs) = true

-- `_has_query_key`: some value that is not blank.
unfoldable pub any_nonblank : List Text → Bool
any_nonblank [] = false
any_nonblank (v ∷ vs) = nonempty_text v || any_nonblank vs
  where
    nonempty_text : Text → Bool
    nonempty_text [] = false
    nonempty_text (c ∷ s) = true

-- The normalized values are one value.
unfoldable pub one_directory : List Text → Bool
unfolding every_is normalize_directory
one_directory [] = true
one_directory (v ∷ vs) = every_is (normalize_directory v) (map normalize_directory vs)

-- `str.upper` of a method, which is ASCII.
abbrev pub upper : Text → Text
upper s = map (λ c. if leb b'a' c && leb c b'z' then c - 32 else c) s
