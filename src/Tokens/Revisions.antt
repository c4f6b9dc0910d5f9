-- ===== src/Tokens/Revisions.antt =====
-- sse/tokenstream/budgets.py `_next_part_revision`: the revisions of a part.
use oc_slimapi.Prelude.{
  ℕ, ◌+◌, ◌≤◌, ◌<◌, ◌≡◌, ◌≢◌, ap, ◌∙◌, List, [], ◌∷◌, ◌++◌, lookup, length, All, arith,
}
use oc_slimapi.Prelude.Dict.{assign, remove, move_to_end, Distinct}
use oc_slimapi.Prelude.Dict.Laws.{lookup-assign_self, lookup-remove_self}
use oc_slimapi.Prelude.Dict.Keys.{move_to_end_found, remove-assign_self}
use oc_slimapi.Tokens.{PartKey, part_dec, TokenCaps, revision_after, next_part_revision}
use oc_slimapi.Tokens.Stands.{
  prune_cap-length, Stands, Stands-last, Stands-lookup, Stands-weaken, Stands-append, remove-Stands,
  prune_cap-Stands,
}

-- The entry of a call goes last.
moved :
    (j : PartKey) (r : ℕ) (d : List (PartKey × ℕ))
    → move_to_end part_dec j (assign part_dec j r d) ≡ remove part_dec j d ++ ((j, r) ∷ [])
moved j r d =
    move_to_end_found part_dec j r (assign part_dec j r d) (lookup-assign_self part_dec j r d)
    ∙ ap (λ x. x ++ ((j, r) ∷ [])) (remove-assign_self part_dec j r d)

own-Stands :
    (caps : TokenCaps) (k : PartKey) (d : List (PartKey × ℕ))
    → Distinct part_dec d
    → 0 < caps.disabled_max
    → Stands k (next_part_revision caps k d).0 0 (next_part_revision caps k d).1
unfolding next_part_revision
own-Stands caps k d h p =
    let rev = revision_after (lookup part_dec k d) in
    rw (moved k rev d) (
      prune_cap-Stands k rev caps.disabled_max _ p
        (Stands-last k rev (remove part_dec k d) (lookup-remove_self part_dec k d h)))

other-Stands :
    (caps : TokenCaps) (k : PartKey) (v n : ℕ) (j : PartKey) (d : List (PartKey × ℕ))
    → j ≢ k
    → n + 1 < caps.disabled_max
    → Stands k v n d
    → Stands k v (n + 1) (next_part_revision caps j d).1
unfolding next_part_revision
other-Stands caps k v n j d ne room s =
    let rev = revision_after (lookup part_dec j d) in
    rw (moved j rev d) (
      prune_cap-Stands k v caps.disabled_max _ room
        (Stands-append k v (remove part_dec j d) (j, rev) (remove-Stands k v j d ne s)))

-- The map after calls for these parts.
unfoldable pub next_all : TokenCaps → List PartKey → List (PartKey × ℕ) → List (PartKey × ℕ)
next_all caps [] d = d
next_all caps (j ∷ js) d = next_all caps js (next_part_revision caps j d).1

next_all-Stands :
    (caps : TokenCaps) (k : PartKey) (v n : ℕ) (js : List PartKey) (d : List (PartKey × ℕ))
    → All (λ j. j ≢ k) js
    → n + length js < caps.disabled_max
    → Stands k v n d
    → Stands k v (n + length js) (next_all caps js d)
unfolding next_all
next_all-Stands caps k v n [] d ne room s = Stands-weaken k v d (omega arith) s
next_all-Stands caps k v n (j ∷ js) d ne room s =
    Stands-weaken k v (next_all caps js (next_part_revision caps j d).1) (omega arith) (
      next_all-Stands caps k v (n + 1) js (next_part_revision caps j d).1 ne.1 (omega (arith, room))
        (other-Stands caps k v n j d ne.0 (omega (arith, room)) s))

-- On a map without double keys: after a call for a part and then only calls for other parts, fewer than
-- the map has room for, the next call for the part hands out the number after the one that it had. A call
-- leaves the map within its cap.
pub next_part_revision-counts :
    (caps : TokenCaps) (k : PartKey) (others : List PartKey) (d : List (PartKey × ℕ))
    → Distinct part_dec d
    → All (λ j. j ≢ k) others
    → length others < caps.disabled_max
    → ((next_part_revision caps k (next_all caps others (next_part_revision caps k d).1)).0
        ≡ (next_part_revision caps k d).0 + 1)
      × (length (next_part_revision caps k d).1 ≤ caps.disabled_max)
unfolding next_part_revision
next_part_revision-counts caps k others d h ne room =
    let rev = (next_part_revision caps k d).0 in
    let after = next_all caps others (next_part_revision caps k d).1 in
    let s =
      next_all-Stands caps k rev 0 others (next_part_revision caps k d).1 ne (omega (arith, room))
        (own-Stands caps k d h (omega (arith, room))) in
    (ap revision_after (Stands-lookup k rev after s), prune_cap-length caps.disabled_max _)
