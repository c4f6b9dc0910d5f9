-- ===== src/Tokens/Gauges.antt =====
-- sse/tokenstream/budgets.py: the byte gauges count what the maps hold, through a drop, a flush and an
-- eviction.
use oc_slimapi.Prelude.{
  ℕ, ◌+◌, ◌-◌, ◌≤◌, ◌≡◌, ◌≢◌, ◌⊎◌, refl, sym, ap, ◌∙◌, Bool, true, false, ◌&&◌, Option, none, some,
  inl, inr, List, [], ◌∷◌, lookup, text_dec, leb, if◌then◌else◌, if_both, if_pos, if_neg, length,
  sum_by, arith,
}
use oc_slimapi.Prelude.Dict.{remove, Distinct}
use oc_slimapi.Prelude.Dict.Laws.{
  weigh, sum_by-remove, remove-Distinct, lookup-remove_ne, lookup-remove_self,
}
use oc_slimapi.Tokens.{
  PartKey, part_dec, is_yes, LivePart, DeltaAccumulator, TokenCaps, TokenHub, taken, drop_part,
  drain_where, flush_where, evict_part, older, oldest_part,
}

abbrev pub live_sum : List (PartKey × LivePart) → ℕ
live_sum d = sum_by (λ x. x.1.byte_count) d

abbrev pub window_sum : List (PartKey × DeltaAccumulator) → ℕ
window_sum d = sum_by (λ x. x.1.window_bytes) d

-- The gauges count what the maps hold.
pub record HubOk (h : TokenHub) : Type 0 where
  pub lives : Distinct part_dec h.live_parts
  pub windows : Distinct part_dec h.pending_windows
  pub live_gauge : h.total_live_bytes ≡ live_sum h.live_parts
  pub pending_gauge : h.total_pending_bytes ≡ window_sum h.pending_windows

pub drop_part-HubOk :
    (caps : TokenCaps) (now : ℕ) (k : PartKey) (h : TokenHub)
    → HubOk h
    → HubOk (drop_part caps now k h).1
unfolding drop_part
drop_part-HubOk caps now k h o = record {
  lives = remove-Distinct part_dec k h.live_parts o.lives;
  windows = remove-Distinct part_dec k h.pending_windows o.windows;
  live_gauge =
      omega (
        arith,
        o.live_gauge,
        sum_by-remove part_dec (λ (l : LivePart). l.byte_count) k h.live_parts,
      );
  pending_gauge = omega (
    arith,
    o.pending_gauge,
    sum_by-remove part_dec (λ (a : DeltaAccumulator). a.window_bytes) k h.pending_windows,
  );
}

drain_where-none :
    (test : PartKey → Bool) (k : PartKey) (d : List (PartKey × DeltaAccumulator)) (total : ℕ)
    → lookup part_dec k d ≡ none
    → lookup part_dec k (drain_where test d total).0 ≡ none
unfolding drain_where lookup
drain_where-none test k [] total h = refl
drain_where-none test k (e ∷ d) total h =
    if_both (λ (r : List (PartKey × DeltaAccumulator) × ℕ). lookup part_dec k r.0 ≡ none)
      (test e.0 && taken e.1) _ _
      (λ _. drain_where-none test k d (total - e.1.window_bytes) (ground (arith, h)))
      (λ _. elim (part_dec k e.0) [
        | yes p ↦ absurd (cc (sym (if_pos (part_dec k e.0) p _ _) ∙ h))
        | no n ↦
            if_neg (part_dec k e.0) n _ _
            ∙ drain_where-none test k d total (sym (if_neg (part_dec k e.0) n _ _) ∙ h)
      ])

drain_where-Distinct :
    (test : PartKey → Bool) (d : List (PartKey × DeltaAccumulator)) (total : ℕ)
    → Distinct part_dec d
    → Distinct part_dec (drain_where test d total).0
unfolding drain_where
drain_where-Distinct test [] total h = tt
drain_where-Distinct test (e ∷ d) total h =
    if_both (λ (r : List (PartKey × DeltaAccumulator) × ℕ). Distinct part_dec r.0)
      (test e.0 && taken e.1) _ _ (λ _. drain_where-Distinct test d (total - e.1.window_bytes) h.1)
      (λ _. (drain_where-none test e.0 d total h.0, drain_where-Distinct test d total h.1))

-- A flush lowers the gauge by what it takes away.
drain_where-total :
    (test : PartKey → Bool) (d : List (PartKey × DeltaAccumulator)) (total rest : ℕ)
    → total ≡ window_sum d + rest
    → (drain_where test d total).1 ≡ window_sum (drain_where test d total).0 + rest
unfolding drain_where
drain_where-total test [] total rest h = h
drain_where-total test (e ∷ d) total rest h =
    if_both (λ (r : List (PartKey × DeltaAccumulator) × ℕ). r.1 ≡ window_sum r.0 + rest)
      (test e.0 && taken e.1) _ _
      (λ _. drain_where-total test d (total - e.1.window_bytes) rest (omega (arith, h)))
      (λ _.
        omega (arith, drain_where-total test d total (e.1.window_bytes + rest) (omega (arith, h))))

pub flush_where-HubOk :
    (test : PartKey → Bool) (h : TokenHub) → HubOk h → HubOk (flush_where test h)
flush_where-HubOk test h o = record {
  lives = o.lives;
  windows = drain_where-Distinct test h.pending_windows h.total_pending_bytes o.windows;
  live_gauge = o.live_gauge;
  pending_gauge = omega (
    arith,
    drain_where-total test h.pending_windows h.total_pending_bytes 0
        (omega (arith, o.pending_gauge)),
  );
}

pub evict_part-HubOk :
    (caps : TokenCaps) (now : ℕ) (k : PartKey) (h : TokenHub)
    → HubOk h
    → HubOk (evict_part caps now k h)
unfolding evict_part
evict_part-HubOk caps now k h o =
    let d = drop_part-HubOk caps now k h o in
    if_both HubOk (drop_part caps now k h).0 _ _
      (λ _.
        let f = flush_where-HubOk (λ j. is_yes (text_dec j.0 k.0)) (drop_part caps now k h).1 d in
        record {
          lives = f.lives;
          windows = f.windows;
          live_gauge = f.live_gauge;
          pending_gauge = f.pending_gauge;
        })
      (λ _. d)

-- The live parts after an eviction are those without the part.
pub evict_part-live :
    (caps : TokenCaps) (now : ℕ) (k : PartKey) (h : TokenHub)
    → (evict_part caps now k h).live_parts ≡ remove part_dec k h.live_parts
unfolding evict_part drop_part
evict_part-live caps now k h =
    if_both (λ (u : TokenHub). u.live_parts ≡ remove part_dec k h.live_parts)
      (drop_part caps now k h).0 _ _ (λ _. refl) (λ _. refl)

pub length-removed :
    (k : PartKey) (d : List (PartKey × LivePart))
    → length (remove part_dec k d) + weigh (λ _. 1) (lookup part_dec k d) ≡ length d
unfolding remove lookup
length-removed k [] = refl
length-removed k (x ∷ d) = ground (arith, length-removed k d)

pub evict_part-length :
    (caps : TokenCaps) (now : ℕ) (k : PartKey) (l : LivePart) (h : TokenHub)
    → lookup part_dec k h.live_parts ≡ some l
    → length (evict_part caps now k h).live_parts + 1 ≡ length h.live_parts
evict_part-length caps now k l h q =
    ap (λ d. length d + 1) (evict_part-live caps now k h) ∙ rw q at (length-removed k h.live_parts)

pub evict_part-spares :
    (caps : TokenCaps) (now : ℕ) (j k : PartKey) (h : TokenHub)
    → j ≢ k
    → lookup part_dec j (evict_part caps now k h).live_parts ≡ lookup part_dec j h.live_parts
evict_part-spares caps now j k h n =
    ap (lookup part_dec j) (evict_part-live caps now k h)
    ∙ lookup-remove_ne part_dec j k h.live_parts n

pub drop_part-gone :
    (caps : TokenCaps) (now : ℕ) (k : PartKey) (h : TokenHub)
    → HubOk h
    → lookup part_dec k (drop_part caps now k h).1.live_parts ≡ none
unfolding drop_part
drop_part-gone caps now k h o = lookup-remove_self part_dec k h.live_parts o.lives

drain_where-lower :
    (test : PartKey → Bool) (d : List (PartKey × DeltaAccumulator)) (total : ℕ)
    → (drain_where test d total).1 ≤ total
unfolding drain_where
drain_where-lower test [] total = omega arith
drain_where-lower test (e ∷ d) total =
    if_both (λ (r : List (PartKey × DeltaAccumulator) × ℕ). r.1 ≤ total) (test e.0 && taken e.1) _ _
      (λ _. omega (arith, drain_where-lower test d (total - e.1.window_bytes)))
      (λ _. drain_where-lower test d total)

-- The second hub holds no more than the first.
abbrev pub Lower : TokenHub → TokenHub → Type 0
Lower h u =
    (u.total_live_bytes ≤ h.total_live_bytes)
    × (length u.live_parts ≤ length h.live_parts)
    × (u.total_pending_bytes ≤ h.total_pending_bytes)

pub Lower-trans : (h u v : TokenHub) → Lower h u → Lower u v → Lower h v
Lower-trans h u v a b = (omega (arith, a.0, b.0), omega (arith, a.1, b.1), omega (arith, a.2, b.2))

pub drop_part-Lower :
    (caps : TokenCaps) (now : ℕ) (k : PartKey) (h : TokenHub) → Lower h (drop_part caps now k h).1
unfolding drop_part
drop_part-Lower caps now k h =
    (omega arith, omega (arith, length-removed k h.live_parts), omega arith)

pub flush_where-Lower : (test : PartKey → Bool) (h : TokenHub) → Lower h (flush_where test h)
flush_where-Lower test h =
    (omega arith, omega arith, drain_where-lower test h.pending_windows h.total_pending_bytes)

pub evict_part-Lower :
    (caps : TokenCaps) (now : ℕ) (k : PartKey) (h : TokenHub) → Lower h (evict_part caps now k h)
unfolding evict_part
evict_part-Lower caps now k h =
    if_both (Lower h) (drop_part caps now k h).0 _ _
      (λ _.
        Lower-trans h (drop_part caps now k h).1
          (flush_where (λ j. is_yes (text_dec j.0 k.0)) (drop_part caps now k h).1)
          (drop_part-Lower caps now k h)
          (flush_where-Lower (λ j. is_yes (text_dec j.0 k.0)) (drop_part caps now k h).1))
      (λ _. drop_part-Lower caps now k h)

-- The smaller of two is one of them.
older-cases :
    (b : Bool) (e m : PartKey × LivePart) (r : Option (PartKey × LivePart))
    → (if b then some (older e r) else r) ≡ some m
    → ((e ≡ m) × (b ≡ true)) ⊎ (r ≡ some m)
older-cases false e m r q = inr q
older-cases true e m none q = inl (cc q, refl)
older-cases true e m (some x) q =
    if_both
      (λ (y : PartKey × LivePart). some y ≡ some m → ((e ≡ m) × (true ≡ true)) ⊎ (some x ≡ some m))
      (leb e.1.last_delta_ms x.1.last_delta_ms) e x (λ _ z. inl (cc z, refl)) (λ _ z. inr z) q

-- The oldest part is one of those that the test allows.
pub oldest_part-found :
    (test : PartKey → Bool) (d : List (PartKey × LivePart)) (m : PartKey × LivePart)
    → Distinct part_dec d
    → oldest_part test d ≡ some m
    → (lookup part_dec m.0 d ≡ some m.1) × (test m.0 ≡ true)
unfolding oldest_part lookup
oldest_part-found test [] m h q = absurd (cc)
oldest_part-found test (e ∷ d) m h q = elim (older-cases (test e.0) e m (oldest_part test d) q) [
  | inl (p, t) ↦
      let key : m.0 ≡ e.0 = ap (λ x. x.0) (sym p) in
      (if_pos (part_dec m.0 e.0) key _ _ ∙ ap (λ x. some x.1) p, ap (λ x. test x.0) (sym p) ∙ t)
  | inr r ↦
      let (found, t) = oldest_part-found test d m h.1 r in
      (
        if_neg (part_dec m.0 e.0) (λ p. cc (sym (ap (λ x. lookup part_dec x d) p) ∙ found, h.0)) _ _
            ∙ found,
        t,
      )
]

-- None is found only when no part passes the test.
pub oldest_part-none :
    (test : PartKey → Bool) (d : List (PartKey × LivePart)) (j : PartKey)
    → oldest_part test d ≡ none
    → test j ≡ true
    → lookup part_dec j d ≡ none
unfolding oldest_part lookup
oldest_part-none test [] j h t = refl
oldest_part-none test (e ∷ d) j h t =
    if_both (λ (r : Option (PartKey × LivePart)). r ≡ none → lookup part_dec j (e ∷ d) ≡ none)
      (test e.0) (some (older e (oldest_part test d))) (oldest_part test d) (λ _ q. absurd (cc q))
      (λ f q.
        if_neg (part_dec j e.0) (λ p. cc (sym (ap test p) ∙ t, f)) _ _
        ∙ oldest_part-none test d j q t)
      h
