-- ===== src/Turns/Incarnation.antt =====
-- turn_registry.py `IncarnationStore`: the number of a process life, kept in a file.
use oc_slimapi.Prelude.{
  ℕ, ◌+◌, ◌-◌, ◌*◌, Bool, true, false, ◌&&◌, Option, none, some, List, [], ◌∷◌, ◌++◌, Text, ◌==◌,
  if◌then◌else◌, max,
}
use oc_slimapi.Prelude.Decimal.{is_digit, decimal}
use oc_slimapi.Prelude.Strip.{lstrip, rstrip, strip}
use oc_slimapi.Turns.{IncarnationValue}

-- What is found at a path: no file, a directory that may not be searched, so that `path.exists()`
-- raises `PermissionError`, a file that raises `OSError` when it is read, one that is not UTF-8, or a
-- text.
pub data Content : Type 0 where
  absent : Content
  unsearchable : Content
  unreadable : Content
  not_utf8 : Content
  holds : Text → Content

-- The digits of an `int` literal, a single underscore allowed between two of them.
unfoldable pub digits_from : ℕ → Text → Option ℕ
digits_from acc [] = some acc
digits_from acc (c ∷ []) = if is_digit c then some (acc * 10 + (c - b'0')) else none
digits_from acc (c ∷ d ∷ s) =
    let next = digits_from (acc * 10 + (c - b'0')) (d ∷ s) in
    let skipped = digits_from acc (d ∷ s) in
    if is_digit c then next else if c == b'_' && is_digit d then skipped else none

-- A literal begins with a digit.
abbrev pub unsigned : Text → Option ℕ
unsigned [] = none
unsigned (c ∷ s) = if is_digit c then digits_from 0 (c ∷ s) else none

-- `int(text)`, as the sign and the size; digits outside ASCII and the interpreter's limit on the
-- number of digits are left out.
unfoldable pub int_of : Text → Option (Bool × ℕ)
unfolding digits_from
int_of [] = none
int_of (c ∷ s) =
    if c == b'-'
    then elim (unsigned s) [ none ↦ none | some n ↦ some (true, n) ]
    else elim (unsigned (if c == b'+' then s else c ∷ s)) [ none ↦ none | some n ↦ some (false, n) ]

-- The checks of `_read_path` on the number; `-0` is 0.
abbrev pub usable : Option (Bool × ℕ) → Option ℕ
usable none = none
usable (some (false, n)) = some n
usable (some (true, n)) = if n == 0 then some 0 else none

-- What `_read_path` does not catch: `UnicodeDecodeError` and the `PermissionError` of `path.exists()`.
pub data ReadError : Type 0 where
  decode_error : ReadError
  permission_error : ReadError

-- The outcome of `_read_path`: it raises, or there is no usable number, or there is one.
pub data Reading : Type 0 where
  raises : ReadError → Reading
  read : Option ℕ → Reading

unfoldable pub read_path : Content → Reading
unfolding lstrip rstrip int_of
read_path absent = read none
read_path unsearchable = raises permission_error
read_path unreadable = read none
read_path not_utf8 = raises decode_error
read_path (holds t) = read (usable (int_of (strip t)))

-- The two files: `_path`, and `_legacy_path` where one is configured.
pub record Files : Type 0 where
  pub primary : Content
  pub legacy : Option Content

-- `max` over the values that are valid, 0 if there is none.
abbrev pub or_zero : Option ℕ → ℕ
or_zero none = 0
or_zero (some n) = n

unfoldable pub base_of : Files → Option ℕ
unfolding read_path
base_of f = elim (read_path f.primary) [
  | raises _ ↦ none
  | read a ↦ elim (f.legacy) [
    | none ↦ some (or_zero a)
    | some l ↦ elim (read_path l) [ raises _ ↦ none | read b ↦ some (max (or_zero a) (or_zero b)) ]
  ]
]

-- What `_write_persisted` writes.
unfoldable pub line_of : ℕ → Text
unfolding decimal
line_of inc = decimal inc ++ (10 ∷ [])

-- The loop of write attempts: each one replaces the file and is confirmed, or fails and leaves it.
unfoldable pub write_attempts : ℕ → List Bool → Files → Files × Bool
unfolding line_of
write_attempts inc [] f = (f, false)
write_attempts inc (ok ∷ more) f =
    let rest = write_attempts inc more f in
    if ok then (record f { primary = holds (line_of inc) }, true) else rest

-- The three attempts' outcomes, the environment's choice.
pub record Attempts : Type 0 where
  pub first : Bool
  pub second : Bool
  pub third : Bool

abbrev pub outcomes : Attempts → List Bool
outcomes a = a.first ∷ a.second ∷ a.third ∷ []

-- The number of this life, from the base and the outcome of the writes at the wall clock `now`.
abbrev pub life : ℕ → ℕ → Files × Bool → Files × IncarnationValue
life now base (f, true) = (f, record { value = base + 1; durable = true })
life now base (f, false) = (f, record { value = max (base + 1) (now + 1); durable = false })

-- `load_or_bump`; `none` is an error of a reading that passes.
unfoldable pub load_or_bump : ℕ → Attempts → Files → Option (Files × IncarnationValue)
unfolding base_of write_attempts
load_or_bump now a f = elim (base_of f) [
  | none ↦ none
  | some base ↦ some (life now base (write_attempts (base + 1) (outcomes a) f))
]
