-- ===== src/Directory/Tests.antt =====
-- Runs of directory.py, and its theorems at them.
use oc_slimapi.Prelude.{◌≡◌, refl, none, some, text, text_dec}
use oc_slimapi.Prelude.Split.{split, push_front}
use oc_slimapi.Directory.{
  rstrip_slash, normalize_directory, has_segment, has_control, has_null, checked_directory,
  validate_directory,
}
use oc_slimapi.Directory.Valid.{normalize-twice, Safe, validate-Safe}

program : Unit {0}
unfolding validate_directory checked_directory normalize_directory rstrip_slash has_segment
    has_control has_null split push_front text_dec
program = tt

root : validate_directory (text "///") ≡ some (text "/")
unfolding program
root = refl

traversal : validate_directory (text "/a/../b") ≡ none
unfolding program
traversal = refl

normalize-twice_example :
    normalize_directory (normalize_directory (text "/a//")) ≡ normalize_directory (text "/a//")
normalize-twice_example = normalize-twice (text "/a//")

validate-Safe_example :
    (text "/a" ≡ normalize_directory (text "/a//"))
    × Safe (text "/a")
    × (validate_directory (text "/a") ≡ some (text "/a"))
unfolding program
validate-Safe_example = validate-Safe (text "/a//") (text "/a") refl
