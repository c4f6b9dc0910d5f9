-- ===== src/Selector/Tests.antt =====
-- Runs of selector.py on small requests, and its theorems at them.
use oc_slimapi.Prelude.{
  is_text, ◌≡◌, refl, true, ◌&&◌, ◌||◌, not, Option, none, some, List, [], ◌∷◌, Text, text,
  text_dec,
}
use oc_slimapi.Prelude.Split.{split, push_front, join}
use oc_slimapi.Prelude.Decimal.{all_digits, value_from}
use oc_slimapi.Prelude.Strip.{strip_prefix}
use oc_slimapi.Directory.{
  rstrip_slash, normalize_directory, has_segment, has_control, has_null, checked_directory,
  validate_directory,
}
use oc_slimapi.Selector.Paths.{
  member, normalize_path, pieces_match, any_pattern, pattern_of, consuming_patterns, is_retired,
  is_consuming, consuming_for, boundary_allow, is_slimapi_path, is_stream_path,
}
use oc_slimapi.Selector.Query.{
  name_of, value_of, segment_values, query_values, kept_segments, strip_query_keys,
}
use oc_slimapi.Selector.Request.{
  Scope, Answer, v4, query, is_lexical, all_lexical, every_is, judge_version, directory_header,
  any_nonblank, one_directory, has_value, is_some, refused, directory_retired_in_v4,
  directory_header_retired, invalid_directory_selector, method_not_applicable, method_not_allowed,
  unsupported_version, invalid_version_selector,
}
use oc_slimapi.Selector.Dispatch.{
  form_of, ladder_one, ladder, consume_directory, forwarded, boundary_live, deferred, finished,
  admitted, after_verdict, judged, call,
}
use oc_slimapi.Selector.Admission.{judge_version-four}
use oc_slimapi.Selector.Forward.{call-forwards, Resolved, call-Resolved}

program : Unit {0}
unfolding member normalize_path pieces_match any_pattern pattern_of consuming_patterns is_retired
    is_consuming consuming_for boundary_allow is_slimapi_path is_stream_path name_of value_of
    segment_values query_values kept_segments strip_query_keys is_lexical all_lexical every_is
    judge_version directory_header any_nonblank one_directory form_of ladder_one ladder
    consume_directory forwarded boundary_live deferred finished admitted after_verdict judged call
    rstrip_slash normalize_directory has_segment has_control has_null checked_directory
    validate_directory split push_front join all_digits value_from strip_prefix text_dec
program = tt

-- Texts without escapes are their own decoding.
abbrev plain : Text → Text
plain s = s

abbrev request : Text → Text → Text → List (Text × Text) → Scope
request path method q headers = record {
  is_http = true;
  path = path;
  method = method;
  query_string = q;
  headers = headers;
  directory_form = none;
  selector = none;
  directory = none;
}

abbrev agents : Scope
agents = request (text "/slimapi//agent") (text "GET") (text "a=1&v=4&&directory=/w/") []

abbrev agents_seen : Scope
agents_seen = record agents {
  query_string = text "a=1&";
  directory_form = some (some query);
  selector = some (v4, some (text "4"));
  directory = some (text "/w");
}

passes : call plain [] agents ≡ (agents_seen, none)
unfolding program
passes = refl

abbrev answer_of : Text → Text → Text → List (Text × Text) → Option Answer
answer_of path method q headers =
    (call plain (text "method.boundary.v4" ∷ []) (request path method q headers)).1

abbrev old_header : List (Text × Text)
old_header = (text "X-Opencode-Directory", text "/w") ∷ []

no_version : answer_of (text "/slimapi/agent") (text "GET") [] [] ≡ some unsupported_version
unfolding program
no_version = refl

conflicting :
    answer_of (text "/slimapi/agent") (text "GET") (text "v=4&v=3") []
    ≡ some invalid_version_selector
unfolding program
conflicting = refl

versions : answer_of (text "/slimapi/versions") (text "POST") [] [] ≡ some method_not_allowed
unfolding program
versions = refl

retired_route :
    answer_of (text "/slimapi/sessions") (text "GET") (text "v=4&directory=") []
    ≡ some (refused directory_retired_in_v4)
unfolding program
retired_route = refl

two_directories :
    answer_of (text "/slimapi/vcs") (text "GET") (text "v=4&directory=/a&directory=/b") []
    ≡ some (refused invalid_directory_selector)
unfolding program
two_directories = refl

retired_header :
    answer_of (text "/slimapi/vcs") (text "GET") (text "v=4&directory=/w") old_header
    ≡ some (refused directory_header_retired)
unfolding program
retired_header = refl

deferred_post :
    answer_of (text "/slimapi/session/s/archive") (text "post") (text "v=4") old_header
    ≡ some (method_not_applicable (text "POST") [])
unfolding program
deferred_post = refl

judge_version-four_example :
    is_some (judge_version (text "4" ∷ text "04" ∷ []))
    ≡ not (has_value (text "4" ∷ text "04" ∷ []) && every_is (text "4") (text "4" ∷ text "04" ∷ []))
judge_version-four_example = judge_version-four (text "4" ∷ text "04" ∷ [])

call-forwards_example :
    ((is_text (normalize_path agents.path) (text "/slimapi/versions")
        || (has_value (query_values plain (text "v") agents.query_string)
            && every_is (text "4") (query_values plain (text "v") agents.query_string)))
      ≡ true)
    × (query_values plain (text "v") agents_seen.query_string ≡ [])
    × (query_values plain (text "a") agents_seen.query_string
        ≡ query_values plain (text "a") agents.query_string)
unfolding program
call-forwards_example =
    call-forwards plain [] agents agents_seen (text "a") refl refl passes refl refl

call-Resolved_example : Resolved plain (text "/w/") [] agents agents_seen
unfolding program
call-Resolved_example =
    call-Resolved plain [] agents agents_seen (text "/w/") [] refl refl refl refl refl refl passes
