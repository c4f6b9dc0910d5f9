-- ===== src/Tokens/Tombstones.antt =====
-- sse/tokenstream/budgets.py: the tombstones of dropped parts are bounded, and last over further drops.
use oc_slimapi.Prelude.{
  ℕ, ◌+◌, ◌≤◌, ◌<◌, ◌≡◌, refl, ap, true, false, not, Option, none, some, List, [], ◌∷◌, lookup,
  if_both, length, All, arith,
}
use oc_slimapi.Prelude.Dict.{assign}
use oc_slimapi.Tokens.{
  PartKey, part_dec, TokenCaps, TokenHub, has_key, prune_ttl, remember, drop_part,
}
use oc_slimapi.Tokens.Stands.{
  prune_cap-length, assign-new, Stands, Stands-last, Stands-lookup, Stands-weaken, Stands-append,
  prune_ttl-Stands, prune_cap-Stands,
}

-- The map of tombstones stays within its cap.
remember-length :
    (caps : TokenCaps) (now : ℕ) (k : PartKey) (d : List (PartKey × ℕ))
    → length d ≤ caps.disabled_max
    → length (remember caps k now d) ≤ caps.disabled_max
unfolding remember
remember-length caps now k d h =
    if_both (λ (r : List (PartKey × ℕ)). length r ≤ caps.disabled_max)
      (has_key (lookup part_dec k d)) _ _ (λ _. h)
      (λ _.
        prune_cap-length caps.disabled_max
          (prune_ttl caps.disabled_ttl_ms now (assign part_dec k now d)))

absent_key : (o : Option ℕ) → has_key o ≡ false → o ≡ none
absent_key none z = refl
absent_key (some t) z = absurd (cc)

-- A new tombstone is the newest.
remember_new-Stands :
    (caps : TokenCaps) (now : ℕ) (k : PartKey) (d : List (PartKey × ℕ))
    → 0 < caps.disabled_max
    → has_key (lookup part_dec k d) ≡ false
    → Stands k now 0 (remember caps k now d)
unfolding remember
remember_new-Stands caps now k d p h =
    let none_there = absent_key (lookup part_dec k d) h in
    rw (h, assign-new k now d none_there)
      (prune_cap-Stands k now caps.disabled_max _ p (
        prune_ttl-Stands k now caps.disabled_ttl_ms now _ (omega arith)
          (Stands-last k now d none_there)))

-- Another tombstone leaves it, while it is young and has room.
remember-Stands :
    (caps : TokenCaps) (k : PartKey) (t n now : ℕ) (j : PartKey) (d : List (PartKey × ℕ))
    → n + 1 < caps.disabled_max
    → now ≤ t + caps.disabled_ttl_ms
    → Stands k t n d
    → Stands k t (n + 1) (remember caps j now d)
unfolding remember
remember-Stands caps k t n now j d room young s =
    if_both (Stands k t (n + 1)) (has_key (lookup part_dec j d)) _ _
      (λ _. Stands-weaken k t d (omega arith) s)
      (λ z. rw (assign-new j now d (absent_key (lookup part_dec j d) z)) (
        prune_cap-Stands k t caps.disabled_max _ room
          (prune_ttl-Stands k t caps.disabled_ttl_ms now _ young (Stands-append k t d (j, now) s))))

-- Drops at their times, of any parts.
unfoldable pub drop_all : TokenCaps → List (ℕ × PartKey) → TokenHub → TokenHub
drop_all caps [] h = h
drop_all caps (e ∷ es) h = drop_all caps es (drop_part caps e.0 e.1 h).1

drop_all-Stands :
    (caps : TokenCaps) (k : PartKey) (t n : ℕ) (es : List (ℕ × PartKey)) (h : TokenHub)
    → n + length es < caps.disabled_max
    → All (λ (e : ℕ × PartKey). e.0 ≤ t + caps.disabled_ttl_ms) es
    → Stands k t n h.disabled_parts
    → Stands k t (n + length es) (drop_all caps es h).disabled_parts
unfolding drop_all drop_part
drop_all-Stands caps k t n [] h room young s = Stands-weaken k t h.disabled_parts (omega arith) s
drop_all-Stands caps k t n (e ∷ es) h room young s =
    Stands-weaken k t (drop_all caps es (drop_part caps e.0 e.1 h).1).disabled_parts (omega arith) (
      drop_all-Stands caps k t (n + 1) es (drop_part caps e.0 e.1 h).1 (omega (arith, room)) young.1
        (remember-Stands caps k t n e.0 e.1 h.disabled_parts (omega (arith, room)) young.0 s))

drop_all-length :
    (caps : TokenCaps) (es : List (ℕ × PartKey)) (h : TokenHub)
    → length h.disabled_parts ≤ caps.disabled_max
    → length (drop_all caps es h).disabled_parts ≤ caps.disabled_max
unfolding drop_all drop_part
drop_all-length caps [] h b = b
drop_all-length caps (e ∷ es) h b =
    drop_all-length caps es (drop_part caps e.0 e.1 h).1
      (remember-length caps e.0 e.1 h.disabled_parts b)

-- A part that was retired by a drop is not reported retired again over further drops, of any parts, that
-- are fewer than the tombstones that may be kept and come within their time to live: a drop of the part
-- after them reports that nothing was retired. The tombstones stay within their cap if they were.
pub drop_part-once :
    (caps : TokenCaps) (now later : ℕ) (k : PartKey) (drops : List (ℕ × PartKey)) (h : TokenHub)
    → (drop_part caps now k h).0 ≡ true
    → length drops < caps.disabled_max
    → All (λ (e : ℕ × PartKey). e.0 ≤ now + caps.disabled_ttl_ms) drops
    → length h.disabled_parts ≤ caps.disabled_max
    → ((drop_part caps later k (drop_all caps drops (drop_part caps now k h).1)).0 ≡ false)
      × (length (drop_all caps drops (drop_part caps now k h).1).disabled_parts ≤ caps.disabled_max)
unfolding drop_part
drop_part-once caps now later k drops h first room young b =
    let d = (drop_part caps now k h).1 in
    let fresh : has_key (lookup part_dec k h.disabled_parts) ≡ false = ground (arith, first) in
    let s =
      drop_all-Stands caps k now 0 drops d (omega (arith, room)) young
        (remember_new-Stands caps now k h.disabled_parts (omega (arith, room)) fresh) in
    (
      ap (λ o. not (has_key o)) (Stands-lookup k now (drop_all caps drops d).disabled_parts s),
      drop_all-length caps drops d (remember-length caps now k h.disabled_parts b),
    )
