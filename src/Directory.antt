-- ===== src/Directory.antt =====
-- directory.py: the directory that a caller names.
pub mod Valid
mod Tests
use oc_slimapi.Prelude.{
  ℕ, Bool, true, false, ◌||◌, not, Option, none, some, List, [], ◌∷◌, Text, text, text_dec, ltb,
  ◌==◌, if◌then◌else◌, length,
}
use oc_slimapi.Prelude.Split.{split}

-- `directory.rstrip("/")`.
abbrev pub push_unless_slash : ℕ → Text → Text
push_unless_slash c [] = if c == b'/' then [] else c ∷ []
push_unless_slash c (d ∷ s) = c ∷ d ∷ s

unfoldable pub rstrip_slash : Text → Text
rstrip_slash [] = []
rstrip_slash (c ∷ s) = push_unless_slash c (rstrip_slash s)

abbrev pub or_root : Text → Text
or_root [] = text "/"
or_root (c ∷ s) = c ∷ s

unfoldable pub normalize_directory : Text → Text
unfolding rstrip_slash
normalize_directory directory = or_root (rstrip_slash directory)

-- `name in parts`.
unfoldable pub has_segment : Text → List Text → Bool
unfolding text_dec
has_segment name [] = false
has_segment name (p ∷ ps) =
    let rest = has_segment name ps in elim (text_dec name p) [ yes _ ↦ true | no _ ↦ rest ]

-- The loop over the characters, and `"\0" in norm`.
unfoldable pub has_control : Text → Bool
has_control [] = false
has_control (c ∷ s) = if ltb c 32 || (c == 127) then true else has_control s

unfoldable pub has_null : Text → Bool
has_null [] = false
has_null (c ∷ s) = if c == 0 then true else has_null s

-- The checks on the normalized directory; `none` is the 400 `invalid_directory`.
unfoldable pub checked_directory : Text → Option Text
unfolding has_segment has_control has_null split
checked_directory norm =
    if has_segment (text "..") (split b'/' norm) || has_segment (text ".") (split b'/' norm)
    then none
    else if has_null norm
    then none
    else if has_control norm
    then none
    else if ltb 4096 (length norm)
    then none
    else some norm

unfoldable pub validate_directory : Text → Option Text
unfolding normalize_directory checked_directory
validate_directory directory = checked_directory (normalize_directory directory)
