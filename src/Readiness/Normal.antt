-- ===== src/Readiness/Normal.antt =====
-- readiness.py `normalize`: the normal form is ascending and has the same texts.
use oc_slimapi.Prelude.{
  is_text-same, is_text_refl, ◌≡◌, ◌≢◌, refl, sym, ap, ◌∙◌, Bool, true, false, ◌&&◌, ◌||◌, List, [],
  ◌∷◌, Text, is_text, arith, Bool-cases, inl, inr, ℕ_discrete,
}
use oc_slimapi.Selector.Paths.{member}
use oc_slimapi.Readiness.{text_lt, place, normalize}

text_lt-total : (s t : Text) → s ≢ t → text_lt s t ≡ false → text_lt t s ≡ true
unfolding text_lt
text_lt-total [] [] n h = absurd (n refl)
text_lt-total [] (d ∷ t) n h = absurd (cc h)
text_lt-total (c ∷ s) [] n h = refl
text_lt-total (c ∷ s) (d ∷ t) n h = elim (ℕ_discrete c d) [
  | yes p ↦
      let rest = text_lt-total s t (λ e. n (cc (p, e))) (ground (arith, h, p)) in
      ground (arith, rest, p)
  | no q ↦ ground (arith, h, q)
]

unfoldable pub ascending : List Text → Bool
ascending [] = true
ascending (x ∷ []) = true
ascending (x ∷ y ∷ ys) = text_lt x y && ascending (y ∷ ys)

above : (x y : Text) → is_text x y ≡ false → text_lt x y ≡ false → text_lt y x ≡ true
above x y n h = text_lt-total x y (λ e. cc (sym n ∙ ap (λ z. is_text z y) e ∙ is_text_refl y)) h

place-chain :
    (x y : Text) (ys : List Text)
    → ascending (y ∷ ys) ≡ true
    → text_lt y x ≡ true
    → ascending (y ∷ place x ys) ≡ true
unfolding ascending place
place-chain x y [] h l = rw l refl
place-chain x y (z ∷ zs) h l =
    let tail : ascending (z ∷ zs) ≡ true = ground (arith, h) in
    let first : text_lt y z ≡ true = ground (arith, h) in
    elim (Bool-cases (is_text x z)) [
      | inl e ↦ rw e h
      | inr n ↦ elim (Bool-cases (text_lt x z)) [
        | inl b ↦ rw (n, b) (ground (arith, l, b, tail))
        | inr b ↦ rw (n, b) (ground (arith, first, place-chain x z zs tail (above x z n b)))
      ]
    ]

place-ascending : (x : Text) (ys : List Text) → ascending ys ≡ true → ascending (place x ys) ≡ true
unfolding ascending place
place-ascending x [] h = refl
place-ascending x (y ∷ ys) h = elim (Bool-cases (is_text x y)) [
  | inl e ↦ rw e h
  | inr n ↦ elim (Bool-cases (text_lt x y)) [
    | inl b ↦ rw (n, b) (ground (arith, b, h))
    | inr b ↦ rw (n, b) (place-chain x y ys h (above x y n b))
  ]
]

pub member-cons : (z x : Text) (ys : List Text) → member z (x ∷ ys) ≡ (is_text z x || member z ys)
unfolding member
member-cons z x ys = ground arith

member-place : (z x : Text) (ys : List Text) → member z (place x ys) ≡ (is_text z x || member z ys)
unfolding place
member-place z x [] = member-cons z x []
member-place z x (y ∷ ys) = elim (Bool-cases (is_text x y)) [
  | inl e ↦
      let same = is_text-same x y e in
      rw e (ground (arith, member-cons z y ys, ap (is_text z) same))
  | inr n ↦ elim (Bool-cases (text_lt x y)) [
    | inl b ↦ rw (n, b) (member-cons z x (y ∷ ys))
    | inr b ↦
        rw (n, b)
          (ground (arith, member-cons z y (place x ys), member-cons z y ys, member-place z x ys))
  ]
]

-- The normal form of a list of texts is strictly ascending and has exactly the texts of the list.
pub normalize-normal :
    (xs : List Text) (z : Text)
    → (ascending (normalize xs) ≡ true) × (member z (normalize xs) ≡ member z xs)
unfolding normalize ascending
normalize-normal [] z = (refl, refl)
normalize-normal (x ∷ xs) z =
    let (up, same) = normalize-normal xs z in
    (
      place-ascending x (normalize xs) up,
      member-place z x (normalize xs) ∙ ap (λ b. is_text z x || b) same ∙ sym (member-cons z x xs),
    )
