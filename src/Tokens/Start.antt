-- ===== src/Tokens/Start.antt =====
-- sse/tokenstream/budgets.py `_start_part`: a new part within the budgets.
use oc_slimapi.Prelude.{
  ℕ, suc, zero, ◌+◌, ◌≤◌, ◌<◌, ◌≡◌, refl, sym, ap, ◌∙◌, Bool, false, Option, none, some, List, [],
  ◌∷◌, lookup, Text, ltb, if_both, Option_both, if_pos, length, arith,
}
use oc_slimapi.Prelude.Dict.{assign, Distinct}
use oc_slimapi.Prelude.Dict.Laws.{weigh, lookup-assign_self, sum_by-assign}
use oc_slimapi.Prelude.Dict.Keys.{assign-Distinct}
use oc_slimapi.Tokens.{
  PartKey, part_dec, utf8_bytes, LivePart, TokenCaps, TokenHub, evict_part, older, oldest_part,
  other_than, make_room, shed_others, seeded, unseeded, start_part,
}
use oc_slimapi.Tokens.Gauges.{
  live_sum, HubOk, drop_part-HubOk, evict_part-HubOk, evict_part-length, evict_part-spares, Lower,
  Lower-trans, drop_part-Lower, evict_part-Lower, oldest_part-found, oldest_part-none,
  length-removed,
}
use oc_slimapi.Tokens.Reserve.{is_yes-other, other-is_yes, make_room-Room}

-- A hub within the caps whose gauges are right.
pub record Bounded (caps : TokenCaps) (h : TokenHub) : Type 0 where
  pub ok : HubOk h
  pub live_within : h.total_live_bytes ≤ caps.liveparts_max_bytes
  pub few : length h.live_parts ≤ caps.live_parts_max
  pub pending_within : h.total_pending_bytes ≤ caps.pending_max_bytes

pub Bounded-Lower :
    (caps : TokenCaps) (h u : TokenHub) → Bounded caps h → HubOk u → Lower h u → Bounded caps u
Bounded-Lower caps h u b o w = record {
  ok = o;
  live_within = omega (arith, b.live_within, w.0);
  few = omega (arith, b.few, w.1);
  pending_within = omega (arith, b.pending_within, w.2);
}

pub length-assigned :
    (k : PartKey) (v : LivePart) (d : List (PartKey × LivePart))
    → length (assign part_dec k v d) + weigh (λ _. 1) (lookup part_dec k d) ≡ length d + 1
unfolding assign lookup
length-assigned k v [] = refl
length-assigned k v (e ∷ d) = ground (arith, length-assigned k v d)

-- Where no part but `k` is left and `k` is not there, nothing is.
no_others :
    (k : PartKey) (d : List (PartKey × LivePart))
    → oldest_part (other_than k) d ≡ none
    → lookup part_dec k d ≡ none
    → live_sum d ≡ 0
unfolding lookup
no_others k [] h a = refl
no_others k (e ∷ d) h a = elim (part_dec k e.0) [
  | yes p ↦ absurd (cc (sym (if_pos (part_dec k e.0) p _ _) ∙ a))
  | no n ↦ absurd (
      cc (
        sym (if_pos (part_dec e.0 e.0) refl (some e.1) (lookup part_dec e.0 d))
        ∙ oldest_part-none (other_than k) (e ∷ d) e.0 h (other-is_yes k e.0 (λ p. n (sym p)))))
]

oldest_part-tail :
    (test : PartKey → Bool) (e : PartKey × LivePart) (d : List (PartKey × LivePart))
    → oldest_part test (e ∷ d) ≡ none
    → oldest_part test d ≡ none
unfolding oldest_part
oldest_part-tail test e d h =
    if_both (λ (r : Option (PartKey × LivePart)). r ≡ none → oldest_part test d ≡ none) (test e.0)
      (some (older e (oldest_part test d))) (oldest_part test d) (λ _ q. absurd (cc q)) (λ _ q. q) h

-- A part that is alone is all there is.
only_part :
    (k : PartKey) (l : LivePart) (d : List (PartKey × LivePart))
    → Distinct part_dec d
    → oldest_part (other_than k) d ≡ none
    → lookup part_dec k d ≡ some l
    → live_sum d ≡ l.byte_count
unfolding lookup oldest_part
only_part k l [] h o q = absurd (cc)
only_part k l (e ∷ d) h o q = elim (part_dec k e.0) [
  | yes p ↦
      let same : some e.1 ≡ some l = sym (if_pos (part_dec k e.0) p _ _) ∙ q in
      let same' : e.1 ≡ l = cc same in
      let size : e.1.byte_count ≡ l.byte_count = ap (λ x. x.byte_count) same' in
      omega (
        arith,
        size,
        no_others k d (oldest_part-tail (other_than k) e d o)
            (ap (λ x. lookup part_dec x d) p ∙ h.0),
      )
  | no n ↦ absurd (
      cc (
        sym (if_pos (part_dec e.0 e.0) refl (some e.1) (lookup part_dec e.0 d))
        ∙ oldest_part-none (other_than k) (e ∷ d) e.0 o (other-is_yes k e.0 (λ p. n (sym p)))))
]

-- The byte loop of `_start_part`: it ends within the budget when the part that is admitted fits alone.
pub shed_others-Fits :
    (caps : TokenCaps) (now : ℕ) (k : PartKey) (l : LivePart) (rounds : ℕ) (g h : TokenHub)
    → HubOk h
    → Lower g h
    → lookup part_dec k h.live_parts ≡ some l
    → l.byte_count ≤ caps.liveparts_max_bytes
    → length h.live_parts ≤ rounds
    → HubOk (shed_others caps now k rounds h)
      × Lower g (shed_others caps now k rounds h)
      × (lookup part_dec k (shed_others caps now k rounds h).live_parts ≡ some l)
      × ((shed_others caps now k rounds h).total_live_bytes ≤ caps.liveparts_max_bytes)
unfolding shed_others
shed_others-Fits caps now k l zero g h o w q s b =
    absurd (omega (arith, b, rw q at (length-removed k h.live_parts)))
shed_others-Fits caps now k l (suc rounds) g h o w q s b =
    if_both Q (ltb caps.liveparts_max_bytes h.total_live_bytes) _ _
      (λ _.
        Option_both Q (oldest_part (other_than k) h.live_parts) h
          (λ e. shed_others caps now k rounds (evict_part caps now e.0 h))
          (λ r. (o, w, q, omega (arith, s, o.live_gauge, only_part k l h.live_parts o.lives r q)))
          (λ e r.
            let (found, t) = oldest_part-found (other_than k) h.live_parts e o.lives r in
            let m = is_yes-other k e.0 t in
            shed_others-Fits caps now k l rounds g (evict_part caps now e.0 h)
              (evict_part-HubOk caps now e.0 h o)
              (Lower-trans g h (evict_part caps now e.0 h) w (evict_part-Lower caps now e.0 h))
              (evict_part-spares caps now k e.0 h (λ p. m (sym p)) ∙ q) s
              (omega (arith, b, evict_part-length caps now e.0 e.1 h found))))
      (λ z. (o, w, q, ground arith))
  where
    Q : TokenHub → Type 0
    Q u =
        HubOk u
        × Lower g u
        × (lookup part_dec k u.live_parts ≡ some l)
        × (u.total_live_bytes ≤ caps.liveparts_max_bytes)

abbrev empty_part : ℕ → LivePart
empty_part now = record { chunks = []; byte_count = 0; ended = false; last_delta_ms = now }

-- A part in a place that was free.
abbrev placed : PartKey → LivePart → ℕ → TokenHub → TokenHub
placed k v total h = record h {
  live_parts = assign part_dec k v h.live_parts;
  total_live_bytes = total;
}

placed-HubOk :
    (k : PartKey) (v : LivePart) (total : ℕ) (h : TokenHub)
    → HubOk h
    → lookup part_dec k h.live_parts ≡ none
    → total ≡ h.total_live_bytes + v.byte_count
    → HubOk (placed k v total h)
placed-HubOk k v total h o a t = record {
  lives = assign-Distinct part_dec k v h.live_parts o.lives;
  windows = o.windows;
  live_gauge = omega (
    arith,
    t,
    o.live_gauge,
    rw a at (sum_by-assign part_dec (λ (l : LivePart). l.byte_count) k v h.live_parts),
  );
  pending_gauge = o.pending_gauge;
}

placed-length :
    (k : PartKey) (v : LivePart) (h : TokenHub)
    → lookup part_dec k h.live_parts ≡ none
    → length (assign part_dec k v h.live_parts) ≡ length h.live_parts + 1
placed-length k v h a = omega (arith, rw a at (length-assigned k v h.live_parts))

-- A new part is admitted within the budgets: from a hub within them, for a part that is not live, with
-- room for at least one part and for any part that the size limit allows, both the number of live
-- parts and their bytes stay within their caps, and the gauges stay right.
pub start_part-Bounded :
    (caps : TokenCaps) (now : ℕ) (k : PartKey) (seed : Text) (h : TokenHub)
    → Bounded caps h
    → lookup part_dec k h.live_parts ≡ none
    → 0 < caps.live_parts_max
    → caps.part_max_bytes ≤ caps.liveparts_max_bytes
    → Bounded caps (start_part caps now k seed h)
unfolding start_part
start_part-Bounded caps now k [] h b a p fit =
    let room = make_room caps now (length h.live_parts) h in
    let (o, w, free, few) =
      make_room-Room caps now k h (length h.live_parts) h b.ok
        (omega arith, omega arith, omega arith) a (omega arith) p in
    record {
      ok = placed-HubOk k (empty_part now) room.total_live_bytes room o free (omega arith);
      live_within = omega (arith, b.live_within, w.0);
      few = omega (arith, few, placed-length k (empty_part now) room free);
      pending_within = omega (arith, b.pending_within, w.2);
    }
start_part-Bounded caps now k (c ∷ seed) h b a p fit =
    if_both (Bounded caps) (ltb caps.part_max_bytes size) _ _
      (λ _.
        let o' = placed-HubOk k (empty_part now) room.total_live_bytes room o free (omega arith) in
        let x = drop_part-Lower caps now k (unseeded now k room) in
        record {
          ok = drop_part-HubOk caps now k (unseeded now k room) o';
          live_within = omega (arith, b.live_within, w.0, x.0);
          few = omega (arith, few, x.1, placed-length k (empty_part now) room free);
          pending_within = omega (arith, b.pending_within, w.2, x.2);
        })
      (λ z.
        let full = seeded now k (c ∷ seed) room in
        let s =
          shed_others-Fits caps now k new (suc (length room.live_parts)) full full
            (placed-HubOk k new (room.total_live_bytes + size) room o free refl)
            (omega arith, omega arith, omega arith)
            (lookup-assign_self part_dec k new room.live_parts) (ground (arith, fit))
            (omega (arith, placed-length k new room free)) in
        record {
          ok = s.0;
          live_within = s.3;
          few = omega (arith, few, s.1.1, placed-length k new room free);
          pending_within = omega (arith, b.pending_within, w.2, s.1.2);
        })
  where
    size : ℕ
    size = utf8_bytes (c ∷ seed)

    new : LivePart
    new = record { chunks = (c ∷ seed) ∷ []; byte_count = size; ended = false; last_delta_ms = now }

    room : TokenHub
    room = make_room caps now (length h.live_parts) h

    all_room :
        HubOk room
        × Lower h room
        × (lookup part_dec k room.live_parts ≡ none)
        × (length room.live_parts < caps.live_parts_max)
    all_room =
        make_room-Room caps now k h (length h.live_parts) h b.ok
          (omega arith, omega arith, omega arith) a (omega arith) p

    o : HubOk room
    o = all_room.0

    w : Lower h room
    w = all_room.1

    free : lookup part_dec k room.live_parts ≡ none
    free = all_room.2

    few : length room.live_parts < caps.live_parts_max
    few = all_room.3
