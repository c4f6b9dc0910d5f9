-- ===== src/Turns/Reading.antt =====
-- turn_registry.py `IncarnationStore`: reading the files.
use oc_slimapi.Prelude.{
  ℕ, ◌+◌, ◌-◌, ◌*◌, ◌<◌, ◌≡◌, refl, sym, ap, ◌∙◌, true, false, Option, none, some, [], ◌∷◌, ◌++◌,
  Text, ◌==◌, max, arith, Bool-cases, inl, inr, length,
}
use oc_slimapi.Prelude.Decimal.{
  is_digit, all_digits, decimal, value_from, value-decimal, all_digits-decimal, decimal-pos,
}
use oc_slimapi.Prelude.Strip.{lstrip, rstrip, push_unless_blank}
use oc_slimapi.Turns.Incarnation.{
  Content, holds, digits_from, unsigned, int_of, usable, Reading, raises, read, read_path, Files,
  or_zero, base_of, line_of,
}

pub push_digit : (c : ℕ) (s : Text) → is_digit c ≡ true → push_unless_blank c s ≡ c ∷ s
push_digit c [] h = ground arith
push_digit c (d ∷ s) h = refl

pub rstrip_line : (s : Text) → all_digits s ≡ true → rstrip (s ++ (10 ∷ [])) ≡ s
unfolding rstrip all_digits
rstrip_line [] h = refl
rstrip_line (c ∷ s) h = elim (Bool-cases (is_digit c)) [
  | inl t ↦ ap (push_unless_blank c) (rstrip_line s (rw t at h)) ∙ push_digit c s t
  | inr t ↦ let f = rw t at h in absurd (cc f)
]

pub lstrip_digits : (s : Text) → all_digits s ≡ true → lstrip s ≡ s
unfolding lstrip all_digits
lstrip_digits [] h = refl
lstrip_digits (c ∷ s) h = ground arith

pub digits_from-value :
    (acc : ℕ) (s : Text) → all_digits s ≡ true → digits_from acc s ≡ some (value_from acc s)
unfolding digits_from all_digits value_from
digits_from-value acc [] h = refl
digits_from-value acc (c ∷ []) h = ground arith
digits_from-value acc (c ∷ d ∷ s) h =
    ground (arith, digits_from-value (acc * 10 + (c - 48)) (d ∷ s))

pub unsigned_digits :
    (s : Text) → 0 < length s → all_digits s ≡ true → unsigned s ≡ some (value_from 0 s)
unfolding all_digits
unsigned_digits [] p h = absurd (omega arith)
unsigned_digits (c ∷ s) p h = ground (arith, digits_from-value 0 (c ∷ s) h)

pub int_of_digits :
    (s : Text) → 0 < length s → all_digits s ≡ true → int_of s ≡ some (false, value_from 0 s)
unfolding int_of all_digits
int_of_digits [] p h = absurd (omega arith)
int_of_digits (c ∷ s) p h =
    let minus : (c == b'-') ≡ false = ground arith in
    let plus : (c == b'+') ≡ false = ground arith in rw (minus, plus, unsigned_digits (c ∷ s) p h)

-- The line that a process writes is read back as its number.
pub read_path-line_of : (n : ℕ) → read_path (holds (line_of n)) ≡ read (some n)
unfolding read_path line_of
read_path-line_of n =
    let d = all_digits-decimal n in
    let e = ap lstrip (rstrip_line (decimal n) d) ∙ lstrip_digits (decimal n) d in
    ap (λ s. read (usable (int_of s))) e
    ∙ ap (λ i. read (usable i)) (int_of_digits (decimal n) (decimal-pos n) d)
    ∙ ap (λ v. read (some v)) (value-decimal n)

-- The base out of the two readings.
abbrev pub combine : Reading → Option Reading → Option ℕ
combine (raises e) l = none
combine (read a) none = some (or_zero a)
combine (read a) (some (raises e)) = none
combine (read a) (some (read b)) = some (max (or_zero a) (or_zero b))

abbrev pub legacy_reading : Option Content → Option Reading
legacy_reading none = none
legacy_reading (some l) = some (read_path l)

pub base_of-combine :
    (p : Content) (l : Option Content)
    → base_of (record { primary = p; legacy = l }) ≡ combine (read_path p) (legacy_reading l)
unfolding base_of
base_of-combine p none = combined (read_path p)
  where
    combined :
        (r : Reading) → (elim r [ raises _ ↦ none | read a ↦ some (or_zero a) ]) ≡ combine r none
    combined (raises e) = refl
    combined (read a) = refl
base_of-combine p (some l) = combined (read_path p) (read_path l)
  where
    combined :
        (r s : Reading)
        → (elim r [
          | raises _ ↦ none
          | read a ↦ elim s [ raises _ ↦ none | read b ↦ some (max (or_zero a) (or_zero b)) ]
        ])
          ≡ combine r (some s)
    combined (raises e) s = refl
    combined (read a) (raises e) = refl
    combined (read a) (read b) = refl

pub combine_bumped :
    (r : Reading) (l : Option Reading) (base : ℕ)
    → combine r l ≡ some base
    → combine (read (some (base + 1))) l ≡ some (base + 1)
combine_bumped (raises r) l base e = cc
combine_bumped (read a) none base e = refl
combine_bumped (read a) (some (raises r)) base e = cc
combine_bumped (read a) (some (read b)) base e =
    let q : max (or_zero a) (or_zero b) ≡ base = cc in ap some (omega (arith, q))

-- The primary file after a bump reads as the new number, and the legacy one does not exceed it.
pub base_of-bumped :
    (f : Files) (base : ℕ)
    → base_of f ≡ some base
    → base_of (record f { primary = holds (line_of (base + 1)) }) ≡ some (base + 1)
base_of-bumped f base e =
    base_of-combine (holds (line_of (base + 1))) f.legacy
    ∙ ap (λ r. combine r (legacy_reading f.legacy)) (read_path-line_of (base + 1))
    ∙ combine_bumped (read_path f.primary) (legacy_reading f.legacy) base
        (sym (base_of-combine f.primary f.legacy) ∙ e)
