-- ===== src/Tokens/Bounds.antt =====
-- sse/tokenstream/ingest.py: every event keeps the gauges right and the memory within its caps.
use oc_slimapi.Prelude.{
  ℕ, ◌+◌, ◌-◌, ◌≤◌, ◌≡◌, refl, Bool, true, false, ◌||◌, not, Option, none, some, List, [], ◌∷◌,
  ◌++◌, lookup, Text, ltb, leb, if_both, Option_both, length, arith,
}
use oc_slimapi.Prelude.Dict.Laws.{weigh, sum_by-assign, sum_by-remove, remove-Distinct}
use oc_slimapi.Prelude.Dict.Keys.{assign-Distinct}
use oc_slimapi.Tokens.{
  PartKey, part_dec, utf8_bytes, LivePart, DeltaAccumulator, TokenCaps, TokenHub, taken,
  drain_where, flush, evict_part, oldest_part, other_than, check_pending,
}
use oc_slimapi.Tokens.Ingest.{window_with, appended, window_size, pop_window}
use oc_slimapi.Tokens.Gauges.{
  window_sum, HubOk, flush_where-HubOk, evict_part-HubOk, evict_part-Lower,
}
use oc_slimapi.Tokens.Start.{Bounded, Bounded-Lower}

window_with-size :
    (o : Option DeltaAccumulator) (t : Text)
    → (window_with o t).window_bytes ≡ weigh window_size o + utf8_bytes t
window_with-size none t = omega arith
window_with-size (some a) t = refl

-- A delta whose bytes fit keeps the gauges right.
pub appended-HubOk :
    (now : ℕ) (k : PartKey) (l : LivePart) (t : Text) (h : TokenHub)
    → HubOk h
    → lookup part_dec k h.live_parts ≡ some l
    → HubOk (appended now k l t h)
appended-HubOk now k l t h o q = record {
  lives = assign-Distinct part_dec k _ h.live_parts o.lives;
  windows = assign-Distinct part_dec k _ h.pending_windows o.windows;
  live_gauge = omega (
    arith,
    o.live_gauge,
    rw q at (
        sum_by-assign part_dec (λ (x : LivePart). x.byte_count) k
          (record l {
            chunks = l.chunks ++ (t ∷ []);
            byte_count = l.byte_count + utf8_bytes t;
            last_delta_ms = now;
          })
          h.live_parts),
  );
  pending_gauge = omega (
    arith,
    o.pending_gauge,
    window_with-size (lookup part_dec k h.pending_windows) t,
    sum_by-assign part_dec window_size k (window_with (lookup part_dec k h.pending_windows) t)
        h.pending_windows,
  );
}

pub pop_window-HubOk : (k : PartKey) (h : TokenHub) → HubOk h → HubOk (pop_window k h)
pop_window-HubOk k h o = record {
  lives = o.lives;
  windows = remove-Distinct part_dec k h.pending_windows o.windows;
  live_gauge = o.live_gauge;
  pending_gauge =
      omega (arith, o.pending_gauge, sum_by-remove part_dec window_size k h.pending_windows);
}

-- What a flush of everything leaves has no bytes.
drain_where-all :
    (d : List (PartKey × DeltaAccumulator)) (total : ℕ)
    → window_sum (drain_where (λ _. true) d total).0 ≡ 0
unfolding drain_where
drain_where-all [] total = refl
drain_where-all (e ∷ d) total =
    if_both (λ (r : List (PartKey × DeltaAccumulator) × ℕ). window_sum r.0 ≡ 0) (taken e.1) _ _
      (λ _. drain_where-all d (total - e.1.window_bytes))
      (λ f. omega (arith, drain_where-all d total, no_bytes f))
  where
    no_bytes : taken e.1 ≡ false → e.1.window_bytes ≡ 0
    no_bytes f = ground (arith, f)

-- A hub that is within its caps but for the pending bytes.
pub record LiveBounded (caps : TokenCaps) (h : TokenHub) : Type 0 where
  pub ok : HubOk h
  pub live_within : h.total_live_bytes ≤ caps.liveparts_max_bytes
  pub few : length h.live_parts ≤ caps.live_parts_max

pub check_pending-Bounded :
    (caps : TokenCaps) (now : ℕ) (had_subs : Bool) (k : PartKey) (h : TokenHub)
    → LiveBounded caps h
    → Bounded caps (check_pending caps now had_subs k h)
unfolding check_pending
check_pending-Bounded caps now had_subs k h b =
    if_both (Bounded caps) (leb h.total_pending_bytes caps.pending_max_bytes) _ _
      (λ z. record {
        ok = b.ok;
        live_within = b.live_within;
        few = b.few;
        pending_within = ground arith;
      })
      (λ _.
        if_both (Bounded caps)
          (not had_subs || ltb caps.pending_max_bytes (flush h).total_pending_bytes) _ _
          (λ _.
            Option_both (Bounded caps) (oldest_part (other_than k) (flush h).live_parts) (flush h)
              (λ e. evict_part caps now e.0 (flush h)) (λ _. flushed)
              (λ e _.
                Bounded-Lower caps (flush h) (evict_part caps now e.0 (flush h)) flushed
                  (evict_part-HubOk caps now e.0 (flush h) flushed.ok)
                  (evict_part-Lower caps now e.0 (flush h))))
          (λ _. flushed))
  where
    flushed : Bounded caps (flush h)
    flushed =
        let o = flush_where-HubOk (λ _. true) h b.ok in
        record {
          ok = o;
          live_within = b.live_within;
          few = b.few;
          pending_within =
              omega
                (arith, o.pending_gauge, drain_where-all h.pending_windows h.total_pending_bytes);
        }
