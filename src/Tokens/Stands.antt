-- ===== src/Tokens/Stands.antt =====
-- sse/tokenstream/budgets.py: where a key stands in a map that loses its oldest entries.
use mathlib.Core.Path.{subst}
use mathlib.Core.List.{append_assoc}
use oc_slimapi.Prelude.{
  ℕ, ◌+◌, ◌≤◌, ◌<◌, ◌≡◌, ◌≢◌, refl, sym, ap, ◌∙◌, none, some, List, [], ◌∷◌, ◌++◌, lookup, ltb,
  if_both, if_pos, if_neg, length, length-append, arith,
}
use oc_slimapi.Prelude.Dict.{assign, remove}
use oc_slimapi.Prelude.Dict.Laws.{lookup-append_none}
use oc_slimapi.Tokens.{PartKey, part_dec, prune_ttl, prune_cap}

pub prune_cap-length : (most : ℕ) (d : List (PartKey × ℕ)) → length (prune_cap most d) ≤ most
unfolding prune_cap
prune_cap-length most [] = omega arith
prune_cap-length most (e ∷ d) =
    if_both (λ (r : List (PartKey × ℕ)). length r ≤ most) (ltb most (length (e ∷ d))) _ _
      (λ _. prune_cap-length most d) (λ z. ground (arith, z))

pub assign-new :
    (k : PartKey) (v : ℕ) (d : List (PartKey × ℕ))
    → lookup part_dec k d ≡ none
    → assign part_dec k v d ≡ d ++ ((k, v) ∷ [])
unfolding assign lookup
assign-new k v [] h = refl
assign-new k v (e ∷ d) h = elim (part_dec k e.0) [
  | yes p ↦ absurd (cc (sym (if_pos (part_dec k e.0) p _ _) ∙ h))
  | no n ↦
      if_neg (part_dec k e.0) n _ _
      ∙ ap (λ x. e ∷ x) (assign-new k v d (sym (if_neg (part_dec k e.0) n _ _) ∙ h))
]

length-removed : (k : PartKey) (d : List (PartKey × ℕ)) → length (remove part_dec k d) ≤ length d
unfolding remove
length-removed k [] = omega arith
length-removed k (x ∷ d) = ground (arith, length-removed k d)

-- The key has this value, and at most so many entries are newer than it.
pub record Stands (k : PartKey) (v n : ℕ) (d : List (PartKey × ℕ)) : Type 0 where
  pub before : List (PartKey × ℕ)
  pub after : List (PartKey × ℕ)
  pub absent : lookup part_dec k before ≡ none
  pub place : d ≡ before ++ ((k, v) ∷ after)
  pub newer : length after ≤ n

module _ (k : PartKey) (v : ℕ) where
  pub Stands-last :
      (d : List (PartKey × ℕ)) → lookup part_dec k d ≡ none → Stands k v 0 (d ++ ((k, v) ∷ []))
  Stands-last d h = record { before = d; after = []; absent = h; place = refl; newer = omega arith }

  pub Stands-lookup :
      {n : ℕ} (d : List (PartKey × ℕ)) → Stands k v n d → lookup part_dec k d ≡ some v
  unfolding lookup
  Stands-lookup d s =
      ap (lookup part_dec k) s.place
      ∙ lookup-append_none part_dec k s.before ((k, v) ∷ s.after) s.absent
      ∙ if_pos (part_dec k k) refl _ _

  pub Stands-weaken : {n m : ℕ} (d : List (PartKey × ℕ)) → n ≤ m → Stands k v n d → Stands k v m d
  Stands-weaken d l s = record {
    before = s.before;
    after = s.after;
    absent = s.absent;
    place = s.place;
    newer = omega (arith, l, s.newer);
  }

  pub Stands-append :
      {n : ℕ} (d : List (PartKey × ℕ)) (e : PartKey × ℕ)
      → Stands k v n d
      → Stands k v (n + 1) (d ++ (e ∷ []))
  Stands-append d e s = record {
    before = s.before;
    after = s.after ++ (e ∷ []);
    absent = s.absent;
    place = ap (λ x. x ++ (e ∷ [])) s.place ∙ append_assoc s.before ((k, v) ∷ s.after) (e ∷ []);
    newer = omega (arith, s.newer, length-append s.after (e ∷ []));
  }

  tail_absent :
      (x : PartKey × ℕ) (a : List (PartKey × ℕ))
      → lookup part_dec k (x ∷ a) ≡ none
      → lookup part_dec k a ≡ none
  unfolding lookup
  tail_absent x a h = elim (part_dec k x.0) [
    | yes q ↦ absurd (cc (sym (if_pos (part_dec k x.0) q _ _) ∙ h))
    | no n ↦ sym (if_neg (part_dec k x.0) n _ _) ∙ h
  ]

  ttl_at :
      (n ttl now : ℕ) (a b : List (PartKey × ℕ))
      → lookup part_dec k a ≡ none
      → length b ≤ n
      → now ≤ v + ttl
      → Stands k v n (prune_ttl ttl now (a ++ ((k, v) ∷ b)))
  unfolding prune_ttl
  ttl_at n ttl now [] b h l t =
      if_both (Stands k v n) (ltb (v + ttl) now) _ _ (λ z. absurd (ground (arith, z, t)))
        (λ _. record { before = []; after = b; absent = h; place = refl; newer = l })
  ttl_at n ttl now (x ∷ a) b h l t =
      if_both (Stands k v n) (ltb (x.1 + ttl) now) _ _
        (λ _. ttl_at n ttl now a b (tail_absent x a h) l t)
        (λ _. record { before = x ∷ a; after = b; absent = h; place = refl; newer = l })

  cap_at :
      (n most : ℕ) (a b : List (PartKey × ℕ))
      → lookup part_dec k a ≡ none
      → length b ≤ n
      → n < most
      → Stands k v n (prune_cap most (a ++ ((k, v) ∷ b)))
  unfolding prune_cap
  cap_at n most [] b h l t =
      if_both (Stands k v n) (ltb most (length ((k, v) ∷ b))) _ _
        (λ z. absurd (ground (arith, z, t, l)))
        (λ _. record { before = []; after = b; absent = h; place = refl; newer = l })
  cap_at n most (x ∷ a) b h l t =
      if_both (Stands k v n) (ltb most (length (x ∷ (a ++ ((k, v) ∷ b))))) _ _
        (λ _. cap_at n most a b (tail_absent x a h) l t)
        (λ _. record { before = x ∷ a; after = b; absent = h; place = refl; newer = l })

  -- An entry that is young enough stays through the first loop, one with few newer ones through the second.
  pub prune_ttl-Stands :
      {n : ℕ} (ttl now : ℕ) (d : List (PartKey × ℕ))
      → now ≤ v + ttl
      → Stands k v n d
      → Stands k v n (prune_ttl ttl now d)
  prune_ttl-Stands {n} ttl now d t s =
      subst (λ x. Stands k v n (prune_ttl ttl now x)) (sym s.place)
        (ttl_at n ttl now s.before s.after s.absent s.newer t)

  pub prune_cap-Stands :
      {n : ℕ} (most : ℕ) (d : List (PartKey × ℕ))
      → n < most
      → Stands k v n d
      → Stands k v n (prune_cap most d)
  prune_cap-Stands {n} most d t s =
      subst (λ x. Stands k v n (prune_cap most x)) (sym s.place)
        (cap_at n most s.before s.after s.absent s.newer t)

  cons-Stands :
      {n : ℕ} (x : PartKey × ℕ) (d : List (PartKey × ℕ))
      → k ≢ x.0
      → Stands k v n d
      → Stands k v n (x ∷ d)
  unfolding lookup
  cons-Stands x d ne s = record {
    before = x ∷ s.before;
    after = s.after;
    absent = if_neg (part_dec k x.0) ne _ _ ∙ s.absent;
    place = ap (λ r. x ∷ r) s.place;
    newer = s.newer;
  }

  head_ne : (x : PartKey × ℕ) (a : List (PartKey × ℕ)) → lookup part_dec k (x ∷ a) ≡ none → k ≢ x.0
  unfolding lookup
  head_ne x a h q = cc (sym (if_pos (part_dec k x.0) q _ _) ∙ h)

  remove_at :
      (n : ℕ) (j : PartKey) (a b : List (PartKey × ℕ))
      → j ≢ k
      → lookup part_dec k a ≡ none
      → length b ≤ n
      → Stands k v n (remove part_dec j (a ++ ((k, v) ∷ b)))
  unfolding remove
  remove_at n j [] b ne h l = subst (Stands k v n) (sym (if_neg (part_dec j k) ne _ _)) (record {
    before = [];
    after = remove part_dec j b;
    absent = h;
    place = refl;
    newer = omega (arith, l, length-removed j b);
  })
  remove_at n j (x ∷ a) b ne h l = elim (part_dec j x.0) [
    | yes q ↦
        subst (Stands k v n) (sym (if_pos (part_dec j x.0) q _ _))
          (record { before = a; after = b; absent = tail_absent x a h; place = refl; newer = l })
    | no q ↦ subst (Stands k v n) (sym (if_neg (part_dec j x.0) q _ _)) (
        cons-Stands x (remove part_dec j (a ++ ((k, v) ∷ b))) (head_ne x a h)
          (remove_at n j a b ne (tail_absent x a h) l))
  ]

  -- Removing another key.
  pub remove-Stands :
      {n : ℕ} (j : PartKey) (d : List (PartKey × ℕ))
      → j ≢ k
      → Stands k v n d
      → Stands k v n (remove part_dec j d)
  remove-Stands {n} j d ne s =
      subst (λ x. Stands k v n (remove part_dec j x)) (sym s.place)
        (remove_at n j s.before s.after ne s.absent s.newer)
