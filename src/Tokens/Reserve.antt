-- ===== src/Tokens/Reserve.antt =====
-- sse/tokenstream/budgets.py `_reserve` and `_start_part`: what the evictions end with.
use oc_slimapi.Prelude.{
  ℕ, suc, zero, ◌+◌, ◌≤◌, ◌<◌, ◌≡◌, ◌≢◌, refl, sym, ap, ◌∙◌, Bool, true, false, not, none, some,
  List, [], ◌∷◌, lookup, ltb, leb, if_both, Option_both, length, arith,
}
use oc_slimapi.Tokens.{
  PartKey, part_dec, is_yes, LivePart, TokenCaps, TokenHub, drop_part, evict_part, oldest_part,
  other_than, reserve_rounds, reserve, make_room,
}
use oc_slimapi.Tokens.Gauges.{
  HubOk, drop_part-HubOk, evict_part-HubOk, evict_part-length, evict_part-spares, Lower,
  Lower-trans, drop_part-Lower, evict_part-Lower, drop_part-gone, oldest_part-found, length-removed,
}

pub is_yes-other : (k j : PartKey) → other_than k j ≡ true → j ≢ k
is_yes-other k j h p = go (part_dec j k) h
  where
    go : (d : Dec (j ≡ k)) → not (is_yes d) ≡ true → ⊥
    go (yes q) z = cc
    go (no n) z = n p

pub other-is_yes : (k j : PartKey) → j ≢ k → other_than k j ≡ true
other-is_yes k j n = go (part_dec j k)
  where
    go : (d : Dec (j ≡ k)) → not (is_yes d) ≡ true
    go (yes q) = absurd (n q)
    go (no m) = refl

-- What a reserve for the part `k` grants: the bytes fit and the part is untouched; and what its refusal
-- means: the part is gone. Either way the gauges are right.
abbrev pub Granted : TokenCaps → PartKey → LivePart → ℕ → TokenHub → Bool × TokenHub → Type 0
Granted caps k l n h (true, u) =
    HubOk u
    × Lower h u
    × (u.total_live_bytes + n ≤ caps.liveparts_max_bytes)
    × (lookup part_dec k u.live_parts ≡ some l)
Granted caps k l n h (false, u) = HubOk u × Lower h u × (lookup part_dec k u.live_parts ≡ none)

reserve_rounds-Granted :
    (caps : TokenCaps) (now n : ℕ) (k : PartKey) (l : LivePart) (g : TokenHub) (rounds : ℕ)
    (h : TokenHub)
    → HubOk h
    → Lower g h
    → lookup part_dec k h.live_parts ≡ some l
    → length h.live_parts ≤ rounds
    → Granted caps k l n g (reserve_rounds caps now n k rounds h)
unfolding reserve_rounds
reserve_rounds-Granted caps now n k l g zero h o w q b =
    absurd (omega (arith, b, rw q at (length-removed k h.live_parts)))
reserve_rounds-Granted caps now n k l g (suc rounds) h o w q b =
    if_both (Granted caps k l n g) (ltb caps.liveparts_max_bytes (h.total_live_bytes + n)) _ _
      (λ _.
        Option_both (Granted caps k l n g) (oldest_part (other_than k) h.live_parts)
          (false, (drop_part caps now k h).1)
          (λ e. reserve_rounds caps now n k rounds (evict_part caps now e.0 h))
          (λ _. (
            drop_part-HubOk caps now k h o,
            Lower-trans g h (drop_part caps now k h).1 w (drop_part-Lower caps now k h),
            drop_part-gone caps now k h o,
          ))
          (λ e r.
            let (found, t) = oldest_part-found (other_than k) h.live_parts e o.lives r in
            let m = is_yes-other k e.0 t in
            reserve_rounds-Granted caps now n k l g rounds (evict_part caps now e.0 h)
              (evict_part-HubOk caps now e.0 h o)
              (Lower-trans g h (evict_part caps now e.0 h) w (evict_part-Lower caps now e.0 h))
              (evict_part-spares caps now k e.0 h (λ p. m (sym p)) ∙ q)
              (omega (arith, b, evict_part-length caps now e.0 e.1 h found))))
      (λ z. (o, w, ground arith, q))

-- On gauges that are right, a reserve for a live part either fits the budget with the part untouched,
-- or retires the part: never is the part evicted and the reserve granted, and the loop of evictions
-- always ends with one of the two.
pub reserve-Granted :
    (caps : TokenCaps) (now : ℕ) (k : PartKey) (l : LivePart) (n : ℕ) (h : TokenHub)
    → HubOk h
    → lookup part_dec k h.live_parts ≡ some l
    → Granted caps k l n h (reserve caps now k l.byte_count n h)
unfolding reserve
reserve-Granted caps now k l n h o q =
    if_both (Granted caps k l n h) (ltb caps.part_max_bytes (l.byte_count + n)) _ _
      (λ _. (
        drop_part-HubOk caps now k h o,
        drop_part-Lower caps now k h,
        drop_part-gone caps now k h o,
      ))
      (λ _.
        reserve_rounds-Granted caps now n k l h (suc (length h.live_parts)) h o
          (omega arith, omega arith, omega arith) q (omega arith))

no_parts : (d : List (PartKey × LivePart)) → oldest_part (λ _. true) d ≡ none → length d ≡ 0
unfolding oldest_part
no_parts [] h = refl
no_parts (e ∷ d) h = absurd (cc)

-- The count loop of `_start_part` makes room for a part.
pub make_room-Room :
    (caps : TokenCaps) (now : ℕ) (k : PartKey) (g : TokenHub) (rounds : ℕ) (h : TokenHub)
    → HubOk h
    → Lower g h
    → lookup part_dec k h.live_parts ≡ none
    → length h.live_parts ≤ rounds
    → 0 < caps.live_parts_max
    → HubOk (make_room caps now rounds h)
      × Lower g (make_room caps now rounds h)
      × (lookup part_dec k (make_room caps now rounds h).live_parts ≡ none)
      × (length (make_room caps now rounds h).live_parts < caps.live_parts_max)
unfolding make_room
make_room-Room caps now k g zero h o w a b p = (o, w, a, omega (arith, b, p))
make_room-Room caps now k g (suc rounds) h o w a b p =
    if_both Q (leb caps.live_parts_max (length h.live_parts)) _ _
      (λ _.
        Option_both Q (oldest_part (λ _. true) h.live_parts) h
          (λ e. make_room caps now rounds (evict_part caps now e.0 h))
          (λ r. (o, w, a, omega (arith, p, no_parts h.live_parts r)))
          (λ e r.
            let (found, _) = oldest_part-found (λ _. true) h.live_parts e o.lives r in
            let n : k ≢ e.0 =
              λ z. cc (sym (ap (λ x. lookup part_dec x h.live_parts) z) ∙ a, found) in
            make_room-Room caps now k g rounds (evict_part caps now e.0 h)
              (evict_part-HubOk caps now e.0 h o)
              (Lower-trans g h (evict_part caps now e.0 h) w (evict_part-Lower caps now e.0 h))
              (evict_part-spares caps now k e.0 h n ∙ a)
              (omega (arith, b, evict_part-length caps now e.0 e.1 h found)) p))
      (λ z. (o, w, a, ground arith))
  where
    Q : TokenHub → Type 0
    Q u =
        HubOk u
        × Lower g u
        × (lookup part_dec k u.live_parts ≡ none)
        × (length u.live_parts < caps.live_parts_max)
