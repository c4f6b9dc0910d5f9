-- ===== src/Tokens/Always.antt =====
-- sse/tokenstream: the hub stays within its caps whatever events come.
use oc_slimapi.Prelude.{
  ℕ, suc, ◌+◌, ◌-◌, ◌≤◌, ◌<◌, ◌≡◌, refl, sym, ◌∙◌, Bool, true, false, ◌||◌, Option, none, some,
  List, [], ◌∷◌, ◌++◌, lookup, Text, leb, if_both, if◌then◌else◌, Option_both, if_pos, if_neg,
  length, sum_by, arith,
}
use oc_slimapi.Prelude.Dict.{remove, Distinct}
use oc_slimapi.Prelude.Dict.Laws.{weigh, sum_by-remove, remove-Distinct, lookup-remove_ne}
use oc_slimapi.Prelude.Dict.Keys.{Found, Distinct-Found}
use oc_slimapi.Tokens.{
  new_hub, PartKey, part_dec, utf8_bytes, LivePart, DeltaAccumulator, TokenCaps, TokenHub, has_key,
  drop_part, flush, reserve, check_pending,
}
use oc_slimapi.Tokens.Ingest.{
  appended, window_size, pop_window, early_flush, on_part_delta, finish_part, PartUpdate, not_text,
  text_start, text_end, is_live, on_part_updated, pop_where, TokenEvent, part_updated, part_delta,
  part_removed, message_removed, session_ended, reconnected, ticks, publishes_delta, sweeps,
  stays_live, retire_idle, sweep_parts, token_happens, token_run, retire_where,
}
use oc_slimapi.Tokens.Gauges.{
  drop_part-HubOk, flush_where-HubOk, length-removed, drop_part-Lower, flush_where-Lower,
}
use oc_slimapi.Tokens.Reserve.{Granted, reserve-Granted}
use oc_slimapi.Tokens.Start.{Bounded, Bounded-Lower, length-assigned, start_part-Bounded}
use oc_slimapi.Tokens.Bounds.{appended-HubOk, pop_window-HubOk, LiveBounded, check_pending-Bounded}

early_flush-Bounded :
    (caps : TokenCaps) (k : PartKey) (h : TokenHub)
    → LiveBounded caps h
    → LiveBounded caps (early_flush caps k h)
unfolding early_flush
early_flush-Bounded caps k h b =
    if_both (LiveBounded caps)
      (leb caps.flush_bytes (weigh window_size (lookup part_dec k h.pending_windows))) _ _
      (λ _. record { ok = pop_window-HubOk k h b.ok; live_within = b.live_within; few = b.few })
      (λ _. b)

-- The end of `on_part_delta`, from what the reserve decided.
delta_end-Bounded :
    (caps : TokenCaps) (now : ℕ) (subs : Bool) (k : PartKey) (l : LivePart) (t : Text)
    (h : TokenHub) (r : Bool × TokenHub)
    → Bounded caps h
    → Granted caps k l (utf8_bytes t) h r
    → Bounded caps (
        if r.0
        then check_pending caps now subs k (early_flush caps k (appended now k l t r.1))
        else r.1)
delta_end-Bounded caps now subs k l t h (true, u) b (o, w, fits, q) =
    check_pending-Bounded caps now subs k (early_flush caps k (appended now k l t u)) (
      early_flush-Bounded caps k (appended now k l t u) (record {
        ok = appended-HubOk now k l t u o q;
        live_within = omega (arith, fits);
        few = omega (
          arith,
          b.few,
          w.1,
          rw q at (
              length-assigned k
                (record l {
                  chunks = l.chunks ++ (t ∷ []);
                  byte_count = l.byte_count + utf8_bytes t;
                  last_delta_ms = now;
                })
                u.live_parts),
        );
      }))
delta_end-Bounded caps now subs k l t h (false, u) b (o, w, gone) = Bounded-Lower caps h u b o w

on_part_delta-Bounded :
    (caps : TokenCaps) (now : ℕ) (late subs : Bool) (k : PartKey) (t : Text) (h : TokenHub)
    → Bounded caps h
    → Bounded caps (on_part_delta caps now late subs k t h)
unfolding on_part_delta
on_part_delta-Bounded caps now late subs k [] h b = b
on_part_delta-Bounded caps now late subs k (c ∷ t) h b =
    if_both (Bounded caps)
      (late
        || has_key (lookup part_dec k h.nontext_parts)
        || has_key (lookup part_dec k h.disabled_parts))
      _ _ (λ _. b)
      (λ _.
        Option_both (Bounded caps) (lookup part_dec k h.live_parts) _ _
          (λ _. record {
            ok = record {
              lives = b.ok.lives;
              windows = b.ok.windows;
              live_gauge = b.ok.live_gauge;
              pending_gauge = b.ok.pending_gauge;
            };
            live_within = b.live_within;
            few = b.few;
            pending_within = b.pending_within;
          })
          (λ l q.
            if_both (Bounded caps) l.ended _ _ (λ _. b)
              (λ _.
                delta_end-Bounded caps now subs k l (c ∷ t) h
                  (reserve caps now k l.byte_count (utf8_bytes (c ∷ t)) h) b
                  (reserve-Granted caps now k l (utf8_bytes (c ∷ t)) h b.ok q))))

finish_part-Bounded :
    (caps : TokenCaps) (now : ℕ) (k : PartKey) (h : TokenHub)
    → Bounded caps h
    → Bounded caps (finish_part caps now k h)
unfolding finish_part
finish_part-Bounded caps now k h b =
    let w = drop_part-Lower caps now k (pop_window k h) in
    Bounded-Lower caps h (drop_part caps now k (pop_window k h)).1 b
      (drop_part-HubOk caps now k (pop_window k h) (pop_window-HubOk k h b.ok))
      (omega (arith, w.0), omega (arith, w.1), omega (arith, w.2))

module _ {A : Type 0} (f : A → ℕ) (test : PartKey × A → Bool) where
  pop_where-none :
      (k : PartKey) (d : List (PartKey × A)) (total : ℕ)
      → lookup part_dec k d ≡ none
      → lookup part_dec k (pop_where f test d total).0 ≡ none
  unfolding pop_where lookup
  pop_where-none k [] total h = refl
  pop_where-none k (e ∷ d) total h =
      if_both (λ (r : List (PartKey × A) × ℕ). lookup part_dec k r.0 ≡ none) (test e) _ _
        (λ _. pop_where-none k d (total - f e.1) (ground (arith, h)))
        (λ _. elim (part_dec k e.0) [
          | yes p ↦ absurd (cc (sym (if_pos (part_dec k e.0) p _ _) ∙ h))
          | no n ↦
              if_neg (part_dec k e.0) n _ _
              ∙ pop_where-none k d total (sym (if_neg (part_dec k e.0) n _ _) ∙ h)
        ])

  pop_where-Distinct :
      (d : List (PartKey × A)) (total : ℕ)
      → Distinct part_dec d
      → Distinct part_dec (pop_where f test d total).0
  unfolding pop_where
  pop_where-Distinct [] total h = tt
  pop_where-Distinct (e ∷ d) total h =
      if_both (λ (r : List (PartKey × A) × ℕ). Distinct part_dec r.0) (test e) _ _
        (λ _. pop_where-Distinct d (total - f e.1) h.1)
        (λ _. (pop_where-none e.0 d total h.0, pop_where-Distinct d total h.1))

  pop_where-total :
      (d : List (PartKey × A)) (total rest : ℕ)
      → total ≡ sum_by (λ e. f e.1) d + rest
      → (pop_where f test d total).1 ≡ sum_by (λ e. f e.1) (pop_where f test d total).0 + rest
  unfolding pop_where
  pop_where-total [] total rest h = h
  pop_where-total (e ∷ d) total rest h =
      if_both (λ (r : List (PartKey × A) × ℕ). r.1 ≡ sum_by (λ e. f e.1) r.0 + rest) (test e) _ _
        (λ _. pop_where-total d (total - f e.1) rest (omega (arith, h)))
        (λ _. omega (arith, pop_where-total d total (f e.1 + rest) (omega (arith, h))))

  pop_where-lower :
      (d : List (PartKey × A)) (total : ℕ)
      → ((pop_where f test d total).1 ≤ total) × (length (pop_where f test d total).0 ≤ length d)
  unfolding pop_where
  pop_where-lower [] total = (omega arith, omega arith)
  pop_where-lower (e ∷ d) total =
      if_both (λ (r : List (PartKey × A) × ℕ). (r.1 ≤ total) × (length r.0 ≤ suc (length d)))
        (test e) _ _
        (λ _.
          let (a, b) = pop_where-lower d (total - f e.1) in (omega (arith, a), omega (arith, b)))
        (λ _. let (a, b) = pop_where-lower d total in (a, omega (arith, b)))

retire_where-Bounded :
    (caps : TokenCaps) (test : PartKey → Bool) (h : TokenHub)
    → Bounded caps h
    → Bounded caps (retire_where test h)
unfolding retire_where
retire_where-Bounded caps test h b =
    let size = λ (l : LivePart). l.byte_count in
    let on_live = λ (e : PartKey × LivePart). test e.0 in
    let on_window = λ (e : PartKey × DeltaAccumulator). test e.0 in
    let (a, n) = pop_where-lower size on_live h.live_parts h.total_live_bytes in
    let (c, _) = pop_where-lower window_size on_window h.pending_windows h.total_pending_bytes in
    let s =
      pop_where-total size on_live h.live_parts h.total_live_bytes 0
        (omega (arith, b.ok.live_gauge)) in
    let t =
      pop_where-total window_size on_window h.pending_windows h.total_pending_bytes 0
        (omega (arith, b.ok.pending_gauge)) in
    record {
      ok = record {
        lives = pop_where-Distinct size on_live h.live_parts h.total_live_bytes b.ok.lives;
        windows =
            pop_where-Distinct window_size on_window h.pending_windows h.total_pending_bytes
              b.ok.windows;
        live_gauge = omega (arith, s);
        pending_gauge = omega (arith, t);
      };
      live_within = omega (arith, a, b.live_within);
      few = omega (arith, n, b.few);
      pending_within = omega (arith, c, b.pending_within);
    }

-- A part that is dropped leaves the others where they were.
Found-removed :
    (k : PartKey) (c d : List (PartKey × LivePart))
    → lookup part_dec k c ≡ none
    → Found part_dec c d
    → Found part_dec c (remove part_dec k d)
unfolding lookup
Found-removed k [] d a h = tt
Found-removed k (e ∷ c) d a h = elim (part_dec k e.0) [
  | yes p ↦ absurd (cc (sym (if_pos (part_dec k e.0) p _ _) ∙ a))
  | no n ↦ (
    lookup-remove_ne part_dec e.0 k d (λ p. n (sym p)) ∙ h.0,
    Found-removed k c d (sym (if_neg (part_dec k e.0) n _ _) ∙ a) h.1,
  )
]

retire_idle-Bounded :
    (caps : TokenCaps) (k : PartKey) (l : LivePart) (h : TokenHub)
    → Bounded caps h
    → lookup part_dec k h.live_parts ≡ some l
    → Bounded caps (retire_idle k l h)
retire_idle-Bounded caps k l h b q =
    let o = pop_window-HubOk k h b.ok in
    let s = rw q at (sum_by-remove part_dec (λ (x : LivePart). x.byte_count) k h.live_parts) in
    record {
      ok = record {
        lives = remove-Distinct part_dec k h.live_parts b.ok.lives;
        windows = o.windows;
        live_gauge = omega (arith, b.ok.live_gauge, s);
        pending_gauge = o.pending_gauge;
      };
      live_within = omega (arith, b.live_within);
      few = omega (arith, b.few, length-removed k h.live_parts);
      pending_within = omega (arith, b.pending_within);
    }

sweep_parts-Bounded :
    (caps : TokenCaps) (idle : Text → Bool) (idle_ms now : ℕ) (d : List (PartKey × LivePart))
    (h : TokenHub)
    → Bounded caps h
    → Distinct part_dec d
    → Found part_dec d h.live_parts
    → Bounded caps (sweep_parts idle idle_ms now d h)
unfolding sweep_parts
sweep_parts-Bounded caps idle idle_ms now [] h b u f = b
sweep_parts-Bounded caps idle idle_ms now (e ∷ d) h b u f =
    if_both (Bounded caps) (stays_live idle idle_ms now e) _ _
      (λ _. sweep_parts-Bounded caps idle idle_ms now d h b u.1 f.1)
      (λ _.
        sweep_parts-Bounded caps idle idle_ms now d (retire_idle e.0 e.1 h)
          (retire_idle-Bounded caps e.0 e.1 h b f.0) u.1 (Found-removed e.0 d h.live_parts u.0 f.1))

on_part_updated-Bounded :
    (caps : TokenCaps) (now : ℕ) (k : PartKey) (u : PartUpdate) (h : TokenHub)
    → Bounded caps h
    → 0 < caps.live_parts_max
    → caps.part_max_bytes ≤ caps.liveparts_max_bytes
    → Bounded caps (on_part_updated caps now k u h)
unfolding on_part_updated
on_part_updated-Bounded caps now k not_text h b p fit = record {
  ok = record {
    lives = b.ok.lives;
    windows = b.ok.windows;
    live_gauge = b.ok.live_gauge;
    pending_gauge = b.ok.pending_gauge;
  };
  live_within = b.live_within;
  few = b.few;
  pending_within = b.pending_within;
}
on_part_updated-Bounded caps now k (text_start seed) h b p fit =
    if_both (Bounded caps)
      (has_key (lookup part_dec k h.disabled_parts) || is_live (lookup part_dec k h.live_parts)) _ _
      (λ _. b)
      (λ z.
        start_part-Bounded caps now k seed h b
          (not_live (has_key (lookup part_dec k h.disabled_parts)) (lookup part_dec k h.live_parts)
            z)
          p fit)
  where
    not_live : (d : Bool) (o : Option LivePart) → (d || is_live o) ≡ false → o ≡ none
    not_live d none z = refl
    not_live true (some l) z = absurd (cc)
    not_live false (some l) z = absurd (cc)
on_part_updated-Bounded caps now k text_end h b p fit =
    if_both (Bounded caps) (has_key (lookup part_dec k h.disabled_parts)) _ _ (λ _. b)
      (λ _. finish_part-Bounded caps now k h b)

token_happens-Bounded :
    (caps : TokenCaps) (e : TokenEvent) (h : TokenHub)
    → Bounded caps h
    → 0 < caps.live_parts_max
    → caps.part_max_bytes ≤ caps.liveparts_max_bytes
    → Bounded caps (token_happens caps e h)
unfolding token_happens
token_happens-Bounded caps (part_updated now k u) h b p fit =
    on_part_updated-Bounded caps now k u h b p fit
token_happens-Bounded caps (part_delta now late subs k t) h b p fit =
    on_part_delta-Bounded caps now late subs k t h b
token_happens-Bounded caps (part_removed now k) h b p fit =
    Bounded-Lower caps h (drop_part caps now k h).1 b (drop_part-HubOk caps now k h b.ok)
      (drop_part-Lower caps now k h)
token_happens-Bounded caps (message_removed sid mid) h b p fit = retire_where-Bounded caps _ h b
token_happens-Bounded caps (session_ended sid) h b p fit = retire_where-Bounded caps _ h b
token_happens-Bounded caps reconnected h b p fit = record {
  ok = record { lives = tt; windows = tt; live_gauge = refl; pending_gauge = refl };
  live_within = omega arith;
  few = omega arith;
  pending_within = omega arith;
}
token_happens-Bounded caps ticks h b p fit =
    Bounded-Lower caps h (flush h) b (flush_where-HubOk (λ _. true) h b.ok)
      (flush_where-Lower (λ _. true) h)
token_happens-Bounded caps (publishes_delta k) h b p fit = record {
  ok = record {
    lives = b.ok.lives;
    windows = b.ok.windows;
    live_gauge = b.ok.live_gauge;
    pending_gauge = b.ok.pending_gauge;
  };
  live_within = b.live_within;
  few = b.few;
  pending_within = b.pending_within;
}
token_happens-Bounded caps (sweeps idle idle_ms now) h b p fit =
    sweep_parts-Bounded caps idle idle_ms now h.live_parts h b b.ok.lives
      (Distinct-Found part_dec h.live_parts b.ok.lives)

run-Bounded :
    (caps : TokenCaps) (es : List TokenEvent) (h : TokenHub)
    → Bounded caps h
    → 0 < caps.live_parts_max
    → caps.part_max_bytes ≤ caps.liveparts_max_bytes
    → Bounded caps (token_run caps es h)
unfolding token_run
run-Bounded caps [] h b p fit = b
run-Bounded caps (e ∷ es) h b p fit =
    run-Bounded caps es (token_happens caps e h) (token_happens-Bounded caps e h b p fit) p fit

-- Whatever part updates, deltas, removals, ends of sessions, reconnects, flushes and sweeps come, and in
-- whatever order, the two byte gauges are the sums of what the live parts and the pending windows
-- hold, and the live bytes, the number of live parts and the pending bytes are within their caps: for
-- caps with room for a part, and for any part that the size limit allows.
pub token_run-Bounded :
    (caps : TokenCaps) (es : List TokenEvent)
    → 0 < caps.live_parts_max
    → caps.part_max_bytes ≤ caps.liveparts_max_bytes
    → Bounded caps (token_run caps es new_hub)
token_run-Bounded caps es p fit =
    run-Bounded caps es new_hub
      (record {
        ok = record { lives = tt; windows = tt; live_gauge = refl; pending_gauge = refl };
        live_within = omega arith;
        few = omega arith;
        pending_within = omega arith;
      })
      p fit
