-- ===== src/Selector/Ladder.antt =====
-- selector.py: what a request that is let through looks like.
use mathlib.Core.Path.{subst}
use oc_slimapi.Prelude.{
  is_text, ◌≡◌, refl, sym, ap, ◌∙◌, Bool, true, false, Option, none, some, List, [], ◌∷◌, Text,
  text, if◌then◌else◌, Bool-cases, inl, inr,
}
use oc_slimapi.Directory.{normalize_directory, validate_directory}
use oc_slimapi.Directory.Valid.{Safe, validate-Safe}
use oc_slimapi.Selector.Paths.{member, is_retired, consuming_for, is_stream_path}
use oc_slimapi.Selector.Query.{query_values}
use oc_slimapi.Selector.Request.{Scope, DirectoryError, directory_header, one_directory}
use oc_slimapi.Selector.Dispatch.{ladder_one, consumed, ladder, consume_directory}
use oc_slimapi.Selector.Strip.{strip-values}

-- What the ladder has found of a request that it lets through: no header, one normalized value, which
-- is a safe directory, and the value taken out of the query unless the route is the stream.
pub record Clean (unquote : Text → Text) (is_stream : Bool) (raw : Text) (more : List Text)
    (header : Option Text) (s t : Scope) : Type 0 where
  pub no_header : header ≡ none
  pub one : one_directory (raw ∷ more) ≡ true
  pub safe : Safe (normalize_directory raw)
  pub after : t ≡ (if is_stream then s else consumed unquote (normalize_directory raw) s)

either_scope :
    (b : Bool) (s u t : Scope)
    → ◌≡◌ {A = Scope × Option DirectoryError} (if b then (s, none) else (u, none)) (t, none)
    → t ≡ (if b then s else u)
either_scope true s u t e = ap (λ (p : Scope × Option DirectoryError). p.0) (sym e)
either_scope false s u t e = ap (λ (p : Scope × Option DirectoryError). p.0) (sym e)

consuming-not_retired : (path : Text) → consuming_for path ≡ true → is_retired path ≡ false
unfolding consuming_for
consuming-not_retired path c = elim (Bool-cases (is_retired path)) [
  | inl r ↦ let x = rw r at c in absurd (cc x)
  | inr r ↦ r
]

module _ (unquote : Text → Text) where
  ladder-Clean :
      (is_stream : Bool) (raw : Text) (more : List Text) (header : Option Text) (s t : Scope)
      → ladder unquote is_stream (raw ∷ more) header s ≡ (t, none)
      → Clean unquote is_stream raw more header s t
  unfolding ladder ladder_one
  ladder-Clean is_stream raw more header s t e = elim (Bool-cases (one_directory (raw ∷ more))) [
    | inr n ↦ let x = rw n at e in absurd (cc x)
    | inl o ↦ go o (validate_directory raw) refl header (rw o at e)
  ]
    where
      go :
          one_directory (raw ∷ more) ≡ true
          → (v : Option Text) → validate_directory raw ≡ v
          → (h : Option Text) → ladder_one unquote is_stream raw v h s ≡ (t, none)
          → Clean unquote is_stream raw more h s t
      go o none w h f = absurd (cc f)
      go o (some r) w (some h) f = elim (Bool-cases (is_text (normalize_directory h) r)) [
        | inl y ↦ let x = rw y at f in absurd (cc x)
        | inr y ↦ let x = rw y at f in absurd (cc x)
      ]
      go o (some r) w none f =
          let (q, safe_r, again) = validate-Safe raw r w in
          record {
            no_header = refl;
            one = o;
            safe = subst Safe q safe_r;
            after =
                either_scope is_stream s (consumed unquote r s) t f
                ∙ ap (λ d. if is_stream then s else consumed unquote d s) q;
          }

  ladder_one-keeps :
      (key : Text)
      → member key (text "directory" ∷ []) ≡ false
      → (is_stream : Bool) (raw : Text) (v header : Option Text) (s : Scope)
      → query_values unquote key (ladder_one unquote is_stream raw v header s).0.query_string
        ≡ query_values unquote key s.query_string
  unfolding ladder_one
  ladder_one-keeps key k is_stream raw none header s = refl
  ladder_one-keeps key k is_stream raw (some r) (some h) s =
      elim (Bool-cases (is_text (normalize_directory h) r)) [
        | inl y ↦ rw y refl
        | inr y ↦ rw y refl
      ]
  ladder_one-keeps key k true raw (some r) none s = refl
  ladder_one-keeps key k false raw (some r) none s =
      let stripped = strip-values unquote (text "directory" ∷ []) key s.query_string in
      rw k at stripped

  ladder-keeps :
      (key : Text)
      → member key (text "directory" ∷ []) ≡ false
      → (is_stream : Bool) (values : List Text) (header : Option Text) (s : Scope)
      → query_values unquote key (ladder unquote is_stream values header s).0.query_string
        ≡ query_values unquote key s.query_string
  unfolding ladder
  ladder-keeps key k is_stream [] none s = refl
  ladder-keeps key k is_stream [] (some h) s = refl
  ladder-keeps key k is_stream (raw ∷ more) header s =
      elim (Bool-cases (one_directory (raw ∷ more))) [
        | inl o ↦ rw o (ladder_one-keeps key k is_stream raw (validate_directory raw) header s)
        | inr o ↦ rw o refl
      ]

  -- Consuming the directory leaves the values of every other key.
  pub consume_directory-keeps :
      (key : Text)
      → member key (text "directory" ∷ []) ≡ false
      → (path : Text) (s : Scope)
      → query_values unquote key (consume_directory unquote path s).0.query_string
        ≡ query_values unquote key s.query_string
  unfolding consume_directory
  consume_directory-keeps key k path s = elim (Bool-cases (is_retired path)) [
    | inl r ↦ rw r refl
    | inr r ↦ elim (Bool-cases (consuming_for path)) [
      | inr c ↦ rw (r, c) refl
      | inl c ↦
          rw (r, c)
            (ladder-keeps key k (is_stream_path path)
              (query_values unquote (text "directory") s.query_string) (directory_header s.headers)
              s)
    ]
  ]

  -- On a consuming route the ladder is run.
  pub consume_directory-Clean :
      (path raw : Text) (more : List Text) (s u : Scope)
      → consuming_for path ≡ true
      → query_values unquote (text "directory") s.query_string ≡ raw ∷ more
      → consume_directory unquote path s ≡ (u, none)
      → Clean unquote (is_stream_path path) raw more (directory_header s.headers) s u
  unfolding consume_directory
  consume_directory-Clean path raw more s u c v e =
      ladder-Clean (is_stream_path path) raw more (directory_header s.headers) s u
        (rw (consuming-not_retired path c, c, v) at e)
