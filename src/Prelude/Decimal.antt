-- ===== src/Prelude/Decimal.antt =====
-- `str` and `int` of a natural number, in decimal.
use Prim.Native.Nat.{ℕ, zero, suc, ◌+◌, ◌-◌, ◌*◌, ◌/◌, ◌%◌, ◌^◌, ◌≤◌, ◌<◌}
use mathlib.Core.Path.{◌≡◌, refl}
use mathlib.Core.List.{[], ◌∷◌, ◌++◌}
use mathlib.Core.Bool.{Bool, true, false, ◌&&◌}
use native.Mathlib.Nat.{pow-suc}
use native.Mathlib.Omega.{arith}
use mathlib.Core.Logic.{inl, inr}
use oc_slimapi.Prelude.Tests.{ltb, leb, if◌then◌else◌, Bool-cases}
use oc_slimapi.Prelude.Lists.{length, length-append}
use oc_slimapi.Prelude.Strings.{Text}

abbrev pub is_digit : ℕ → Bool
is_digit c = leb 48 c && leb c 57

unfoldable pub all_digits : Text → Bool
all_digits [] = true
all_digits (c ∷ cs) = if is_digit c then all_digits cs else false

-- `str(n)`, most significant digit first; `fuel > n` is enough.
unfoldable pub digits_of : ℕ → ℕ → Text
digits_of zero n = []
digits_of (suc fuel) n =
    let more = digits_of fuel (n / 10) ++ ((48 + n % 10) ∷ []) in
    if ltb n 10 then (48 + n) ∷ [] else more

unfoldable pub decimal : ℕ → Text
unfolding digits_of
decimal n = digits_of (suc n) n

-- `int(s)` of a text of ASCII digits, from the digits read so far.
unfoldable pub value_from : ℕ → Text → ℕ
value_from acc [] = acc
value_from acc (c ∷ cs) = value_from (acc * 10 + (c - 48)) cs

value_from-append :
    (acc : ℕ) (s t : Text) → value_from acc (s ++ t) ≡ value_from (value_from acc s) t
unfolding value_from
value_from-append acc [] t = refl
value_from-append acc (c ∷ s) t = value_from-append (acc * 10 + (c - 48)) s t

value-digits_of : (fuel n : ℕ) → n < fuel → value_from 0 (digits_of fuel n) ≡ n
unfolding digits_of value_from
value-digits_of zero n h = elim h [ ]
value-digits_of (suc fuel) n h = elim (Bool-cases (ltb n 10)) [
  | inl t ↦ rw t (omega arith)
  | inr t ↦
      let q : 10 ≤ n = ground arith in
      let ih = value-digits_of fuel (n / 10) (omega arith) in
      rw (t, value-append-one (digits_of fuel (n / 10)) (48 + n % 10)) (omega (arith, ih))
]
  where
    value-append-one :
        (s : Text) (c : ℕ) → value_from 0 (s ++ (c ∷ [])) ≡ value_from 0 s * 10 + (c - 48)
    value-append-one s c = value_from-append 0 s (c ∷ [])

-- Printing and reading back.
pub value-decimal : (n : ℕ) → value_from 0 (decimal n) ≡ n
unfolding decimal
value-decimal n = value-digits_of (suc n) n (omega arith)

all_digits-append :
    (s t : Text) → all_digits s ≡ true → all_digits t ≡ true → all_digits (s ++ t) ≡ true
unfolding all_digits
all_digits-append [] t h k = k
all_digits-append (c ∷ s) t h k = ground (arith, all_digits-append s t)

all_digits-digits_of : (fuel n : ℕ) → all_digits (digits_of fuel n) ≡ true
unfolding digits_of all_digits
all_digits-digits_of zero n = refl
all_digits-digits_of (suc fuel) n = elim (Bool-cases (ltb n 10)) [
  | inl t ↦ rw t (ground arith)
  | inr t ↦ rw t (
      all_digits-append (digits_of fuel (n / 10)) ((48 + n % 10) ∷ [])
        (all_digits-digits_of fuel (n / 10)) (ground arith))
]

pub all_digits-decimal : (n : ℕ) → all_digits (decimal n) ≡ true
unfolding decimal
all_digits-decimal n = all_digits-digits_of (suc n) n

-- A number prints at least one digit, and below 10 ^ k at most k of them.
length-digits_of : (fuel n k : ℕ) → n < 10 ^ k → 0 < k → length (digits_of fuel n) ≤ k
unfolding digits_of
length-digits_of zero n k h p = omega arith
length-digits_of (suc fuel) n zero h p = absurd (omega arith)
length-digits_of (suc fuel) n (suc zero) h p = elim (Bool-cases (ltb n 10)) [
  | inl t ↦ rw t (omega arith)
  | inr t ↦ absurd (ground arith)
]
length-digits_of (suc fuel) n (suc (suc k)) h p = elim (Bool-cases (ltb n 10)) [
  | inl t ↦ rw t (omega arith)
  | inr t ↦ rw t (
      omega (
        arith,
        length-append (digits_of fuel (n / 10)) ((48 + n % 10) ∷ []),
        length-digits_of fuel (n / 10) (suc k) (omega (arith, pow-suc 10 (suc k))) (omega arith),
      ))
]

pub length-decimal : (n k : ℕ) → n < 10 ^ k → 0 < k → length (decimal n) ≤ k
unfolding decimal
length-decimal n k h p = length-digits_of (suc n) n k h p

pub decimal-pos : (n : ℕ) → 0 < length (decimal n)
unfolding decimal digits_of
decimal-pos n = elim (Bool-cases (ltb n 10)) [
  | inl t ↦ rw t (omega arith)
  | inr t ↦ rw t (omega (arith, length-append (digits_of n (n / 10)) ((48 + n % 10) ∷ [])))
]
