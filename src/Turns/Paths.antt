-- ===== src/Turns/Paths.antt =====
-- turn_registry.py: the classifiers of request paths.
use oc_slimapi.Prelude.{
  ℕ, ◌≡◌, ap, ◌∙◌, Bool, true, false, ◌&&◌, ◌||◌, Option, none, some, [], ◌∷◌, ◌++◌, Text, text,
  ◌==◌, if◌then◌else◌, arith, inl, inr, sym, Option-cases,
}
use oc_slimapi.Prelude.Split.{free_of}
use oc_slimapi.Prelude.Strip.{strip_prefix, strip_prefix-append}
use oc_slimapi.Replay.Epoch.{at_end}

abbrev pub slash : ℕ
slash = b'/'

-- `[^/]*`, as far as it goes, and the rest.
unfoldable pub segment : Text → Text × Text
segment [] = ([], [])
segment (c ∷ s) = let rest = segment s in if c == slash then ([], c ∷ s) else (c ∷ rest.0, rest.1)

abbrev pub nonempty : Text → Option Text
nonempty [] = none
nonempty (c ∷ s) = some (c ∷ s)

-- `extract_sid_from_path`.
unfoldable pub extract_sid_from_path : Text → Option Text
unfolding strip_prefix segment
extract_sid_from_path path = elim (strip_prefix (text "/session/") path) [
  | none ↦ none
  | some rest ↦ nonempty (segment rest).0
]

-- `/?$`.
abbrev pub slash_end : Text → Bool
slash_end [] = true
slash_end (c ∷ s) = at_end (c ∷ s) || (c == slash && at_end s)

unfoldable pub ends_after : Text → Text → Bool
unfolding strip_prefix
ends_after word s = elim (strip_prefix word s) [ none ↦ false | some rest ↦ slash_end rest ]

-- `/(prompt_async|abort)/?$`.
abbrev pub bumping_suffix : Text → Bool
bumping_suffix s = ends_after (text "/prompt_async") s || ends_after (text "/abort") s

-- `is_turn_bumping_path`.
unfoldable pub is_turn_bumping_path : Text → Bool
unfolding strip_prefix segment ends_after
is_turn_bumping_path path = elim (strip_prefix (text "/session/") path) [
  | none ↦ false
  | some rest ↦ elim (nonempty (segment rest).0) [
    | none ↦ false
    | some sid ↦ bumping_suffix (segment rest).1
  ]
]

segment-append : (s t : Text) → free_of slash s ≡ true → segment (s ++ (slash ∷ t)) ≡ (s, slash ∷ t)
unfolding segment free_of
segment-append [] t h = ground arith
segment-append (c ∷ s) t h = ground (arith, segment-append s t)

extract_rest :
    (path rest : Text)
    → strip_prefix (text "/session/") path ≡ some rest
    → extract_sid_from_path path ≡ nonempty (segment rest).0
unfolding extract_sid_from_path
extract_rest path rest e = rw (e, extract_sid_from_path)

bumping_rest :
    (path rest sid : Text)
    → strip_prefix (text "/session/") path ≡ some rest
    → nonempty (segment rest).0 ≡ some sid
    → is_turn_bumping_path path ≡ bumping_suffix (segment rest).1
unfolding is_turn_bumping_path
bumping_rest path rest sid e f = rw (e, is_turn_bumping_path) (rw (f, is_turn_bumping_path))

-- On a session path with a non-empty sid that holds no slash, and something after it: the sid is
-- extracted, and the path bumps the turn exactly if what follows is `/prompt_async` or `/abort`,
-- perhaps with one more slash.
pub session_path :
    (c : ℕ) (s t : Text)
    → free_of slash (c ∷ s) ≡ true
    → (extract_sid_from_path (text "/session/" ++ ((c ∷ s) ++ (slash ∷ t))) ≡ some (c ∷ s))
      × (is_turn_bumping_path (text "/session/" ++ ((c ∷ s) ++ (slash ∷ t)))
          ≡ bumping_suffix (slash ∷ t))
session_path c s t h = (
  extract_rest path rest stripped ∙ named,
  bumping_rest path rest (c ∷ s) stripped named ∙ ap (λ (r : Text × Text). bumping_suffix r.1) cut,
)
  where
    rest : Text
    rest = (c ∷ s) ++ (slash ∷ t)

    path : Text
    path = text "/session/" ++ rest

    stripped : strip_prefix (text "/session/") path ≡ some rest
    stripped = strip_prefix-append (text "/session/") rest

    cut : segment rest ≡ (c ∷ s, slash ∷ t)
    cut = segment-append (c ∷ s) t h

    named : nonempty (segment rest).0 ≡ some (c ∷ s)
    named = ap (λ (r : Text × Text). nonempty r.0) cut

-- A path that bumps the turn names a sid, so the bump has a counter.
pub bumping_path-sid :
    (path : Text)
    → is_turn_bumping_path path ≡ true
    → (sid : Text) × (extract_sid_from_path path ≡ some sid)
unfolding is_turn_bumping_path
bumping_path-sid path h = elim (Option-cases (strip_prefix (text "/session/") path)) [
  | inl e ↦ absurd (impossible (sym (unprefixed e) ∙ h))
  | inr (rest, e) ↦ elim (Option-cases (nonempty (segment rest).0)) [
    | inl f ↦ absurd (impossible (sym (unnamed rest e f) ∙ h))
    | inr (sid, f) ↦ (sid, extract_rest path rest e ∙ f)
  ]
]
  where
    impossible : false ≡ true → ⊥
    impossible e = cc

    unprefixed : strip_prefix (text "/session/") path ≡ none → is_turn_bumping_path path ≡ false
    unprefixed e = rw (e, is_turn_bumping_path)

    unnamed :
        (rest : Text)
        → strip_prefix (text "/session/") path ≡ some rest
        → nonempty (segment rest).0 ≡ none
        → is_turn_bumping_path path ≡ false
    unnamed rest e f = rw (e, is_turn_bumping_path) (rw (f, is_turn_bumping_path))
