-- ===== src/Selector/Forward.antt =====
-- selector.py: what a request that reaches the application looks like.
use mathlib.Core.Path.{subst}
use oc_slimapi.Prelude.{
  is_text, ◌≡◌, refl, sym, ◌∙◌, true, false, ◌&&◌, ◌||◌, Option, none, some, List, [], ◌∷◌, Text,
  text, text_dec,
}
use oc_slimapi.Selector.Paths.{
  member, normalize_path, is_slimapi_path, consuming_for, is_stream_path,
}
use oc_slimapi.Selector.Query.{query_values}
use oc_slimapi.Directory.{normalize_directory}
use oc_slimapi.Directory.Valid.{Safe}
use oc_slimapi.Selector.Request.{Scope, v4, directory_header, every_is, one_directory, has_value}
use oc_slimapi.Selector.Dispatch.{
  consumed, resolve_route_directory, stash, wire_of, form_of, forwarded, call,
}
use oc_slimapi.Selector.Strip.{strip-values}
use oc_slimapi.Selector.Ladder.{consume_directory-Clean}
use oc_slimapi.Selector.Passed.{
  Passed, exempted, passed, call-Passed, Passed-admitted, Passed-version, Passed-keeps,
  forwarded-keeps,
}

module _ (unquote : Text → Text) where
  -- An HTTP request under `/slimapi` that reaches the application asked for the versions, or has a version
  -- value and each of them is `4`; the application sees no version value, and of every key but `v` and
  -- `directory` the values that were sent.
  pub call-forwards :
      (satisfied : List Text) (s t : Scope) (key : Text)
      → s.is_http ≡ true
      → is_slimapi_path s.path ≡ true
      → call unquote satisfied s ≡ (t, none)
      → member key (text "v" ∷ []) ≡ false
      → member key (text "directory" ∷ []) ≡ false
      → ((is_text (normalize_path s.path) (text "/slimapi/versions")
            || (has_value (query_values unquote (text "v") s.query_string)
                && every_is (text "4") (query_values unquote (text "v") s.query_string)))
          ≡ true)
        × (query_values unquote (text "v") t.query_string ≡ [])
        × (query_values unquote key t.query_string ≡ query_values unquote key s.query_string)
  call-forwards satisfied s t key http slim e k d =
      let on = record s { directory_form = some (form_of unquote s) } in
      let p = call-Passed unquote satisfied s t http slim e in
      (
        Passed-admitted unquote (normalize_path s.path) on t p,
        Passed-version unquote (normalize_path s.path) on t p,
        Passed-keeps unquote key (normalize_path s.path) on t k d p,
      )

  -- What the application sees of a directory that was consumed.
  pub record Resolved (raw : Text) (more : List Text) (s t : Scope) : Type 0 where
    pub no_header : directory_header s.headers ≡ none
    pub one : one_directory (raw ∷ more) ≡ true
    pub safe : Safe (normalize_directory raw)
    pub route : (q : Option Text) → resolve_route_directory t q ≡ some (normalize_directory raw)
    pub taken : query_values unquote (text "directory") t.query_string ≡ []

  Passed-Resolved :
      (path raw : Text) (more : List Text) (s t : Scope)
      → is_text path (text "/slimapi/versions") ≡ false
      → consuming_for path ≡ true
      → is_stream_path path ≡ false
      → query_values unquote (text "directory") s.query_string ≡ raw ∷ more
      → Passed unquote path s t
      → Resolved raw more s t
  unfolding member
  Passed-Resolved path raw more s t n c live v (exempted y) = absurd (cc (n, y))
  Passed-Resolved path raw more s t n c live v (passed {u} m j e) =
      let on = stash v4 (wire_of (query_values unquote (text "v") s.query_string)) s in
      let clean = consume_directory-Clean unquote path raw more on u c v e in
      let same = rw live at clean.after in
      subst (λ w. Resolved raw more s (forwarded unquote w)) (sym same)
        (record {
          no_header = clean.no_header;
          one = clean.one;
          safe = clean.safe;
          route = λ q. unfold forwarded in refl;
          taken =
              forwarded-keeps unquote (text "directory")
                (consumed unquote (normalize_directory raw) on) (unfold member text_dec in refl)
              ∙ strip-values unquote (text "directory" ∷ []) (text "directory") s.query_string;
        })

  -- An HTTP request under `/slimapi`, on a route that consumes directories, not the stream, which names
  -- a directory in its query and reaches the application: it had no directory header, its directory
  -- values normalize to one, which is a safe directory; the route resolves to that one, and the query
  -- that the application sees has no directory value.
  pub call-Resolved :
      (satisfied : List Text) (s t : Scope) (raw : Text) (more : List Text)
      → s.is_http ≡ true
      → is_slimapi_path s.path ≡ true
      → is_text (normalize_path s.path) (text "/slimapi/versions") ≡ false
      → consuming_for (normalize_path s.path) ≡ true
      → is_stream_path (normalize_path s.path) ≡ false
      → query_values unquote (text "directory") s.query_string ≡ raw ∷ more
      → call unquote satisfied s ≡ (t, none)
      → Resolved raw more s t
  call-Resolved satisfied s t raw more http slim n c live v e =
      let on = record s { directory_form = some (form_of unquote s) } in
      let r =
        Passed-Resolved (normalize_path s.path) raw more on t n c live v
          (call-Passed unquote satisfied s t http slim e) in
      record {
        no_header = r.no_header;
        one = r.one;
        safe = r.safe;
        route = r.route;
        taken = r.taken;
      }
