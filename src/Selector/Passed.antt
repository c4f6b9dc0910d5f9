-- ===== src/Selector/Passed.antt =====
-- selector.py: the steps that a request takes to the application.
use mathlib.Core.Path.{subst}
use oc_slimapi.Prelude.{
  is_text, ◌≡◌, refl, sym, ap, ◌∙◌, Bool, true, false, ◌&&◌, ◌||◌, not, Option, none, some, List,
  [], ◌∷◌, Text, text, if◌then◌else◌, Bool-cases, inl, inr,
}
use oc_slimapi.Selector.Paths.{member, normalize_path, is_slimapi_path, boundary_allow}
use oc_slimapi.Selector.Query.{query_values}
use oc_slimapi.Selector.Request.{
  Scope, DirectoryError, Answer, v4, exempt, not_applicable, every_is, has_value, upper,
  judge_version,
}
use oc_slimapi.Selector.Dispatch.{
  form_kept, deferred, boundary_live, finished, after_verdict, stash, wire_of, form_of,
  consume_directory, forwarded, admitted, judged, call,
}
use oc_slimapi.Selector.Strip.{strip-values}
use oc_slimapi.Selector.Ladder.{consume_directory-keeps}
use oc_slimapi.Selector.Admission.{judge_version-four}

-- How `t` follows from the judged `s`: by the exemption, or by the admission and the directory.
pub data Passed (unquote : Text → Text) (path : Text) (s : Scope) : Scope → Type 0 where
  exempted :
      is_text path (text "/slimapi/versions") ≡ true
      → Passed unquote path s (forwarded unquote (stash exempt none s))
  passed :
      {u : Scope}
      → is_text path (text "/slimapi/versions") ≡ false
      → judge_version (query_values unquote (text "v") s.query_string) ≡ none
      → consume_directory unquote path
          (stash v4 (wire_of (query_values unquote (text "v") s.query_string)) s)
        ≡ (u, none)
      → Passed unquote path s (forwarded unquote u)

past_guards :
    (b d : Bool) (x y z w : Scope × Option Answer)
    → b ≡ true
    → d ≡ true
    → (if not b then x else if not d then y else z) ≡ w
    → z ≡ w
past_guards true true x y z w p q e = e
past_guards true false x y z w p q e = absurd (cc q)
past_guards false d x y z w p q e = absurd (cc p)

unpacked : {a : Bool} (b : Bool) → a ≡ false → false ≡ not b → (a || b) ≡ true
unpacked true n e = rw n refl
unpacked false n e = absurd (cc e)

module _ (unquote : Text → Text) where
  finished-on :
      (s t : Scope) (c : Scope × Option DirectoryError)
      → finished unquote c.0 c.1 ≡ (t, none)
      → (u : Scope) × (c ≡ (u, none)) × (t ≡ forwarded unquote u)
  unfolding finished
  finished-on s t (u, none) e = (u, refl, ap (λ (p : Scope × Option Answer). p.0) (sym e))
  finished-on s t (u, some r) e = absurd (cc e)

  deferred-on :
      (allow : Option (List Text)) (s t : Scope) (on : Scope × Option Answer)
      → deferred allow s on ≡ (t, none)
      → on ≡ (t, none)
  unfolding deferred
  deferred-on none s t on e = e
  deferred-on (some allow) s t on e = absurd (cc e)

  admitted_on :
      (satisfied : List Text) (path : Text) (s t : Scope)
      → admitted unquote satisfied path s ≡ (t, none)
      → (u : Scope) × (consume_directory unquote path s ≡ (u, none)) × (t ≡ forwarded unquote u)
  unfolding admitted
  admitted_on satisfied path s t e =
      let c = consume_directory unquote path s in
      finished-on s t c (
        deferred-on (if boundary_live satisfied then boundary_allow path (upper s.method) else none)
          s t (finished unquote c.0 c.1) e)

  verdict-Passed :
      (satisfied : List Text) (path : Text) (s t : Scope) (a : Option Answer)
      → judge_version (query_values unquote (text "v") s.query_string) ≡ a
      → is_text path (text "/slimapi/versions") ≡ false
      → after_verdict unquote satisfied path a s ≡ (t, none)
      → Passed unquote path s t
  unfolding after_verdict
  verdict-Passed satisfied path s t (some a) j n e = absurd (cc e)
  verdict-Passed satisfied path s t none j n e =
      let on = stash v4 (wire_of (query_values unquote (text "v") s.query_string)) s in
      let (u, c, q) = admitted_on satisfied path on t e in
      subst (Passed unquote path s) (sym q) (passed n j c)

  judged-Passed :
      (satisfied : List Text) (path : Text) (s t : Scope)
      → judged unquote satisfied path s ≡ (t, none)
      → Passed unquote path s t
  unfolding judged
  judged-Passed satisfied path s t e = elim (Bool-cases (is_text path (text "/slimapi/versions"))) [
    | inr n ↦
        verdict-Passed satisfied path s t
          (judge_version (query_values unquote (text "v") s.query_string)) refl n (rw n at e)
    | inl y ↦ elim (Bool-cases (is_text (upper s.method) (text "GET"))) [
      | inl g ↦
          let x = rw (y, g) at e in
          subst (Passed unquote path s) (ap (λ (p : Scope × Option Answer). p.0) x) (exempted y)
      | inr g ↦ let x = rw (y, g) at e in absurd (cc x)
    ]
  ]

  pub call-Passed :
      (satisfied : List Text) (s t : Scope)
      → s.is_http ≡ true
      → is_slimapi_path s.path ≡ true
      → call unquote satisfied s ≡ (t, none)
      → Passed unquote
          (normalize_path s.path)
          (record s { directory_form = some (form_of unquote s) })
          t
  unfolding call
  call-Passed satisfied s t http slim e =
      let on = record s { directory_form = some (form_of unquote s) } in
      judged-Passed satisfied (normalize_path s.path) on t (
        past_guards s.is_http (is_slimapi_path s.path) (s, none)
          (form_kept (stash not_applicable none s), none)
          (judged unquote satisfied (normalize_path s.path) on) (t, none) http slim e)

  pub forwarded-keeps :
      (key : Text) (u : Scope)
      → member key (text "v" ∷ []) ≡ false
      → query_values unquote key (forwarded unquote u).query_string
        ≡ query_values unquote key u.query_string
  unfolding forwarded
  forwarded-keeps key u k =
      let stripped = strip-values unquote (text "v" ∷ []) key u.query_string in rw k at stripped

  forwarded_version :
      (u : Scope) → query_values unquote (text "v") (forwarded unquote u).query_string ≡ []
  unfolding forwarded
  forwarded_version u = strip-values unquote (text "v" ∷ []) (text "v") u.query_string

  pub Passed-admitted :
      (path : Text) (s t : Scope)
      → Passed unquote path s t
      → (is_text path (text "/slimapi/versions")
          || (has_value (query_values unquote (text "v") s.query_string)
              && every_is (text "4") (query_values unquote (text "v") s.query_string)))
        ≡ true
  Passed-admitted path s t (exempted y) = rw y refl
  Passed-admitted path s t (passed n j c) =
      let four = judge_version-four (query_values unquote (text "v") s.query_string) in
      unpacked
        (has_value (query_values unquote (text "v") s.query_string)
          && every_is (text "4") (query_values unquote (text "v") s.query_string))
        n (rw j at four)

  pub Passed-version :
      (path : Text) (s t : Scope)
      → Passed unquote path s t
      → query_values unquote (text "v") t.query_string ≡ []
  Passed-version path s t (exempted y) = forwarded_version (stash exempt none s)
  Passed-version path s t (passed {u} n j c) = forwarded_version u

  pub Passed-keeps :
      (key path : Text) (s t : Scope)
      → member key (text "v" ∷ []) ≡ false
      → member key (text "directory" ∷ []) ≡ false
      → Passed unquote path s t
      → query_values unquote key t.query_string ≡ query_values unquote key s.query_string
  Passed-keeps key path s t k d (exempted y) = forwarded-keeps key (stash exempt none s) k
  Passed-keeps key path s t k d (passed {u} n j c) =
      forwarded-keeps key u k
      ∙ ap (λ (p : Scope × Option DirectoryError). query_values unquote key p.0.query_string)
          (sym c)
      ∙ consume_directory-keeps unquote key d path
          (stash v4 (wire_of (query_values unquote (text "v") s.query_string)) s)
