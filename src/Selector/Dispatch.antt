-- ===== src/Selector/Dispatch.antt =====
-- selector.py: the consumption of the directory, and the middleware.
use oc_slimapi.Prelude.{
  is_text, Bool, ◌&&◌, ◌||◌, not, Option, none, some, List, [], ◌∷◌, Text, text, text_dec,
  if◌then◌else◌,
}
use oc_slimapi.Directory.{normalize_directory, validate_directory}
use oc_slimapi.Selector.Paths.{
  member, normalize_path, is_retired, is_consuming, consuming_for, boundary_allow, is_slimapi_path,
  is_stream_path,
}
use oc_slimapi.Selector.Request.{
  Form, SelectorResult, Scope, DirectoryError, Answer, judge_version, directory_header, is_some,
  has_value, any_nonblank, one_directory, upper, query, header, both, absent, v4, rejected, exempt,
  not_applicable, directory_retired_in_v4, invalid_directory_selector, invalid_directory,
  directory_conflict, directory_header_retired, method_not_allowed, method_not_applicable, refused,
}
use oc_slimapi.Selector.Query.{query_values, strip_query_keys}

abbrev pub stash : SelectorResult → Option Text → Scope → Scope
stash result wire s = record s { selector = some (result, wire) }

abbrev pub wire_of : List Text → Option Text
wire_of [] = none
wire_of (v ∷ vs) = some v

abbrev pub form_kept : Scope → Scope
form_kept s = elim (s.directory_form) [
  | none ↦ record s { directory_form = some none }
  | some f ↦ s
]

-- `_v4_method_boundary_405_live`.
unfoldable pub boundary_live : List Text → Bool
unfolding member
boundary_live satisfied =
    member (text "method.boundary.v4") satisfied
    && not (member (text "session.post-actions.v4") satisfied)

-- A method that is deferred is answered here, whatever else would follow.
unfoldable pub deferred : Option (List Text) → Scope → Scope × Option Answer → Scope × Option Answer
deferred none s on = on
deferred (some allow) s on = (s, some (method_not_applicable (upper s.method) allow))

module _ (unquote : Text → Text) where
  -- `_directory_form`.
  unfoldable pub form_of : Scope → Option Form
  unfolding is_consuming normalize_path any_nonblank query_values directory_header
  form_of s =
      let has_query = any_nonblank (query_values unquote (text "directory") s.query_string) in
      let has_header = is_some (directory_header s.headers) in
      if not (is_consuming (normalize_path s.path))
      then none
      else if has_query && has_header
      then some both
      else if has_query
      then some query
      else if has_header
      then some header
      else some absent

  -- The single value is stashed for the route and stripped from the query.
  abbrev pub consumed : Text → Scope → Scope
  consumed resolved s = record s {
    directory = some resolved;
    query_string = strip_query_keys unquote (text "directory" ∷ []) s.query_string;
  }

  -- The ladder after the values were found to be one: the validated value, then the header.
  unfoldable pub ladder_one :
      Bool → Text → Option Text → Option Text → Scope → Scope × Option DirectoryError
  unfolding normalize_directory text_dec
  ladder_one is_stream raw none header_dir s = (s, some invalid_directory)
  ladder_one is_stream raw (some resolved) (some h) s =
      if is_text (normalize_directory h) resolved
      then (s, some directory_header_retired)
      else (s, some (directory_conflict raw h))
  ladder_one is_stream raw (some resolved) none s =
      if is_stream then (s, none) else (consumed resolved s, none)

  -- The ladder on the values of the query and the header.
  unfoldable pub ladder : Bool → List Text → Option Text → Scope → Scope × Option DirectoryError
  unfolding one_directory validate_directory ladder_one
  ladder is_stream [] none s = (s, none)
  ladder is_stream [] (some h) s = (s, some directory_header_retired)
  ladder is_stream (raw ∷ more) header_dir s =
      if not (one_directory (raw ∷ more))
      then (s, some invalid_directory_selector)
      else ladder_one is_stream raw (validate_directory raw) header_dir s

  -- `_consume_directory`.
  unfoldable pub consume_directory : Text → Scope → Scope × Option DirectoryError
  consume_directory path s =
      let values = query_values unquote (text "directory") s.query_string in
      if is_retired path
      then (
        s,
        if has_value values || is_some (directory_header s.headers)
            then some directory_retired_in_v4
            else none,
      )
      else if not (consuming_for path)
      then (s, none)
      else ladder (is_stream_path path) values (directory_header s.headers) s

  -- `_forward`.
  unfoldable pub forwarded : Scope → Scope
  unfolding strip_query_keys
  forwarded s = record s { query_string = strip_query_keys unquote (text "v" ∷ []) s.query_string }

  -- The end of the call: the refused directory, or the application.
  unfoldable pub finished : Scope → Option DirectoryError → Scope × Option Answer
  unfolding forwarded
  finished s none = (forwarded s, none)
  finished s (some e) = (stash rejected none s, some (refused e))

  -- What follows the admission: the deferred methods, then the directory.
  unfoldable pub admitted : List Text → Text → Scope → Scope × Option Answer
  unfolding boundary_allow boundary_live consume_directory deferred finished
  admitted satisfied path s =
      let c = consume_directory path s in
      let allow = if boundary_live satisfied then boundary_allow path (upper s.method) else none in
      deferred allow s (finished c.0 c.1)

  -- The verdict on the version values, in front of what follows.
  unfoldable pub after_verdict : List Text → Text → Option Answer → Scope → Scope × Option Answer
  unfolding admitted query_values
  after_verdict satisfied path (some a) s = (stash rejected none s, some a)
  after_verdict satisfied path none s =
      admitted satisfied path
        (stash v4 (wire_of (query_values unquote (text "v") s.query_string)) s)

  -- A `/slimapi` request, with its normalized path and the form of its directory recorded.
  unfoldable pub judged : List Text → Text → Scope → Scope × Option Answer
  unfolding judge_version after_verdict query_values text_dec forwarded
  judged satisfied path s =
      if is_text path (text "/slimapi/versions")
      then (if is_text (upper s.method) (text "GET")
          then (forwarded (stash exempt none s), none)
          else (stash rejected none s, some method_not_allowed))
      else after_verdict satisfied path
          (judge_version (query_values unquote (text "v") s.query_string)) s

  -- `SlimapiSelectorMiddleware.__call__`: the scope it leaves, and its own answer; without one the
  -- application is called with that scope. `satisfied` are the features that readiness.py counts.
  unfoldable pub call : List Text → Scope → Scope × Option Answer
  unfolding is_slimapi_path normalize_path form_of judged
  call satisfied s =
      if not s.is_http
      then (s, none)
      else if not (is_slimapi_path s.path)
      then (form_kept (stash not_applicable none s), none)
      else judged satisfied (normalize_path s.path) (record s { directory_form = some (form_of s) })

-- `resolve_route_directory`.
abbrev pub resolve_route_directory : Scope → Option Text → Option Text
resolve_route_directory s query_value = elim (s.directory) [ none ↦ query_value | some d ↦ some d ]
