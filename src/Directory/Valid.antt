-- ===== src/Directory/Valid.antt =====
-- directory.py: what a validated directory is.
use mathlib.Core.Path.{subst}
use oc_slimapi.Prelude.{
  ℕ, ◌≤◌, ◌≡◌, refl, sym, ap, ◌∙◌, false, some, [], ◌∷◌, Text, text, ltb, length, arith, Bool-cases,
  inl, inr,
}
use oc_slimapi.Prelude.Split.{split}
use oc_slimapi.Directory.{
  push_unless_slash, rstrip_slash, or_root, normalize_directory, has_segment, has_control, has_null,
  checked_directory, validate_directory,
}

push_twice :
    (c : ℕ) (s : Text)
    → rstrip_slash s ≡ s
    → rstrip_slash (push_unless_slash c s) ≡ push_unless_slash c s
unfolding rstrip_slash
push_twice c [] h = ground arith
push_twice c (d ∷ s) h = ap (push_unless_slash c) h

rstrip_slash-twice : (s : Text) → rstrip_slash (rstrip_slash s) ≡ rstrip_slash s
unfolding rstrip_slash
rstrip_slash-twice [] = refl
rstrip_slash-twice (c ∷ s) = push_twice c (rstrip_slash s) (rstrip_slash-twice s)

or_root-fixed : (s : Text) → rstrip_slash s ≡ s → normalize_directory (or_root s) ≡ or_root s
unfolding normalize_directory rstrip_slash
or_root-fixed [] h = refl
or_root-fixed (c ∷ s) h = ap or_root h

-- Normalizing twice is normalizing once.
pub normalize-twice :
    (d : Text) → normalize_directory (normalize_directory d) ≡ normalize_directory d
normalize-twice d =
    ap normalize_directory same ∙ or_root-fixed (rstrip_slash d) (rstrip_slash-twice d) ∙ sym same
  where
    same : normalize_directory d ≡ or_root (rstrip_slash d)
    same = unfold normalize_directory in refl

-- What an accepted directory satisfies.
pub record Safe (n : Text) : Type 0 where
  pub no_parent : has_segment (text "..") (split b'/' n) ≡ false
  pub no_current : has_segment (text ".") (split b'/' n) ≡ false
  pub no_control : has_control n ≡ false
  pub short : length n ≤ 4096

checked-Safe : (norm n : Text) → checked_directory norm ≡ some n → (n ≡ norm) × Safe norm
unfolding checked_directory
checked-Safe norm n e = elim (Bool-cases (has_segment (text "..") (split b'/' norm))) [
  | inl a ↦ let x = rw a at e in absurd (cc x)
  | inr a ↦ elim (Bool-cases (has_segment (text ".") (split b'/' norm))) [
    | inl b ↦ let x = rw (a, b) at e in absurd (cc x)
    | inr b ↦ elim (Bool-cases (has_null norm)) [
      | inl c ↦ let x = rw (a, b, c) at e in absurd (cc x)
      | inr c ↦ elim (Bool-cases (has_control norm)) [
        | inl f ↦ let x = rw (a, b, c, f) at e in absurd (cc x)
        | inr f ↦ elim (Bool-cases (ltb 4096 (length norm))) [
          | inl g ↦ let x = rw (a, b, c, f, g) at e in absurd (cc x)
          | inr g ↦
              let x = rw (a, b, c, f, g) at e in
              (cc x, record { no_parent = a; no_current = b; no_control = f; short = ground arith })
        ]
      ]
    ]
  ]
]

-- An accepted directory is the normalized one; it has no `.` or `..` segment, no control character, at
-- most 4096 characters, and is accepted again as it is.
pub validate-Safe :
    (d n : Text)
    → validate_directory d ≡ some n
    → (n ≡ normalize_directory d) × Safe n × (validate_directory n ≡ some n)
unfolding validate_directory
validate-Safe d n e =
    let (q, safe) = checked-Safe (normalize_directory d) n e in
    (
      q,
      subst Safe (sym q) safe,
      ap (λ x. checked_directory (normalize_directory x)) q
          ∙ ap checked_directory (normalize-twice d)
          ∙ e,
    )
