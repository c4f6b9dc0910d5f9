-- ===== src/Tokens/Ingest.antt =====
-- sse/tokenstream/ingest.py: the events of a part, and the ends of messages and sessions, on the
-- memory of the token stream.
use oc_slimapi.Prelude.{
  ℕ, ◌+◌, ◌-◌, Bool, true, false, ◌&&◌, ◌||◌, not, Option, none, some, List, [], ◌∷◌, ◌++◌, lookup,
  Text, text_dec, leb, if◌then◌else◌,
}
use oc_slimapi.Prelude.Dict.{assign, remove}
use oc_slimapi.Prelude.Dict.Laws.{weigh}
use oc_slimapi.Tokens.{
  PartKey, part_dec, is_yes, utf8_bytes, LivePart, DeltaAccumulator, TokenCaps, TokenHub, has_key,
  remember, next_part_revision, drop_part, consume_revision, drain_where, flush, reserve,
  check_pending, start_part,
}

-- The window of a part with one more delta: `setdefault` and `append`.
abbrev pub window_with : Option DeltaAccumulator → Text → DeltaAccumulator
window_with none t = record { window = t ∷ []; window_bytes = utf8_bytes t }
window_with (some a) t = record {
  window = a.window ++ (t ∷ []);
  window_bytes = a.window_bytes + utf8_bytes t;
}

-- A delta that has its reserve goes to the part and to its window.
abbrev pub appended : ℕ → PartKey → LivePart → Text → TokenHub → TokenHub
appended now k l t h = record h {
  live_parts =
      assign part_dec k
        (record l {
          chunks = l.chunks ++ (t ∷ []);
          byte_count = l.byte_count + utf8_bytes t;
          last_delta_ms = now;
        })
        h.live_parts;
  total_live_bytes = h.total_live_bytes + utf8_bytes t;
  pending_windows =
      assign part_dec k (window_with (lookup part_dec k h.pending_windows) t) h.pending_windows;
  total_pending_bytes = h.total_pending_bytes + utf8_bytes t;
}

abbrev pub window_size : DeltaAccumulator → ℕ
window_size a = a.window_bytes

-- `self._pending.pop(key)` with its bytes, in `on_part_delta` and `finish_part`.
abbrev pub pop_window : PartKey → TokenHub → TokenHub
pop_window k h = record h {
  pending_windows = remove part_dec k h.pending_windows;
  total_pending_bytes =
      h.total_pending_bytes - weigh window_size (lookup part_dec k h.pending_windows);
}

-- The early flush of a window that has grown past the threshold.
unfoldable pub early_flush : TokenCaps → PartKey → TokenHub → TokenHub
unfolding lookup remove
early_flush caps k h =
    if leb caps.flush_bytes (weigh window_size (lookup part_dec k h.pending_windows))
    then pop_window k h
    else h

-- `on_part_delta` for a text delta of a part; `late` says whether the gates of deleted sessions and
-- retired messages stop it, and `had_subs` whether anyone is subscribed.
unfoldable pub on_part_delta : TokenCaps → ℕ → Bool → Bool → PartKey → Text → TokenHub → TokenHub
unfolding lookup reserve check_pending early_flush assign
on_part_delta caps now late had_subs k [] h = h
on_part_delta caps now late had_subs k (c ∷ delta) h =
    let t = c ∷ delta in
    if late
      || has_key (lookup part_dec k h.nontext_parts)
      || has_key (lookup part_dec k h.disabled_parts)
    then h
    else elim (lookup part_dec k h.live_parts) [
      | none ↦ record h { orphan_deltas = h.orphan_deltas + 1 }
      | some l ↦
          let r = reserve caps now k l.byte_count (utf8_bytes t) h in
          if l.ended
          then h
          else if r.0
          then check_pending caps now had_subs k (early_flush caps k (appended now k l t r.1))
          else r.1
    ]

-- `finish_part`.
unfoldable pub finish_part : TokenCaps → ℕ → PartKey → TokenHub → TokenHub
unfolding lookup remove drop_part
finish_part caps now k h = (drop_part caps now k (pop_window k h)).1

-- What `on_part_updated` reads of the part: text of the part, and whether it has ended.
pub data PartUpdate : Type 0 where
  not_text : PartUpdate
  text_start : Text → PartUpdate
  text_end : PartUpdate

abbrev pub is_live : Option LivePart → Bool
is_live none = false
is_live (some l) = true

-- `on_part_updated` past the structural checks and the gates.
unfoldable pub on_part_updated : TokenCaps → ℕ → PartKey → PartUpdate → TokenHub → TokenHub
unfolding lookup remember start_part finish_part
on_part_updated caps now k not_text h = record h {
  nontext_parts = remember caps k now h.nontext_parts;
}
on_part_updated caps now k (text_start seed) h =
    if has_key (lookup part_dec k h.disabled_parts) || is_live (lookup part_dec k h.live_parts)
    then h
    else start_part caps now k seed h
on_part_updated caps now k text_end h =
    if has_key (lookup part_dec k h.disabled_parts) then h else finish_part caps now k h

-- The entries that stay when those of some keys are popped one by one, with what is left of the gauge.
unfoldable pub pop_where :
    {A : Type 0} → (A → ℕ) → (PartKey × A → Bool) → List (PartKey × A) → ℕ → List (PartKey × A) × ℕ
pop_where f test [] total = ([], total)
pop_where f test (e ∷ d) total =
    let gone = pop_where f test d (total - f e.1) in
    let kept = pop_where f test d total in if test e then gone else (e ∷ kept.0, kept.1)

-- `_retire_message` and `_retire_session`: the parts that the test selects are forgotten, their
-- tombstones and revisions too.
unfoldable pub retire_where : (PartKey → Bool) → TokenHub → TokenHub
unfolding pop_where
retire_where test h =
    let live =
      pop_where (λ (l : LivePart). l.byte_count) (λ e. test e.0) h.live_parts h.total_live_bytes in
    let wins = pop_where window_size (λ e. test e.0) h.pending_windows h.total_pending_bytes in
    record h {
      live_parts = live.0;
      total_live_bytes = live.1;
      pending_windows = wins.0;
      total_pending_bytes = wins.1;
      nontext_parts = (pop_where (λ (t : ℕ). 0) (λ e. test e.0) h.nontext_parts 0).0;
      disabled_parts = (pop_where (λ (t : ℕ). 0) (λ e. test e.0) h.disabled_parts 0).0;
      part_revisions = (pop_where (λ (t : ℕ). 0) (λ e. test e.0) h.part_revisions 0).0;
    }

abbrev pub retire_message : Text → Text → TokenHub → TokenHub
retire_message sid mid h =
    retire_where (λ k. is_yes (text_dec k.0 sid) && is_yes (text_dec k.1.0 mid)) h

abbrev pub retire_session : Text → TokenHub → TokenHub
retire_session sid h = retire_where (λ k. is_yes (text_dec k.0 sid)) h

-- `on_upstream_reconnect`, which keeps the revisions.
abbrev pub upstream_reconnect : TokenHub → TokenHub
upstream_reconnect h = record h {
  live_parts = [];
  pending_windows = [];
  total_live_bytes = 0;
  total_pending_bytes = 0;
  nontext_parts = [];
  disabled_parts = [];
}

-- `last_delta_ms >= cutoff`, or a session that is not known to be idle.
abbrev pub stays_live : (Text → Bool) → ℕ → ℕ → PartKey × LivePart → Bool
stays_live idle idle_ms now e = leb now (e.1.last_delta_ms + idle_ms) || not (idle e.0.0)

-- A part that the sweep retires, without a tombstone.
abbrev pub retire_idle : PartKey → LivePart → TokenHub → TokenHub
retire_idle k l h = record (pop_window k h) {
  total_live_bytes = h.total_live_bytes - l.byte_count;
  live_parts = remove part_dec k h.live_parts;
  nontext_parts = remove part_dec k h.nontext_parts;
  part_revisions = remove part_dec k h.part_revisions;
}

-- The loop of `ttl_sweep` over the parts that were live when it began; `idle` reads the session status.
unfoldable pub sweep_parts : (Text → Bool) → ℕ → ℕ → List (PartKey × LivePart) → TokenHub → TokenHub
unfolding lookup remove
sweep_parts idle idle_ms now [] h = h
sweep_parts idle idle_ms now (e ∷ d) h =
    let kept = sweep_parts idle idle_ms now d h in
    let gone = sweep_parts idle idle_ms now d (retire_idle e.0 e.1 h) in
    if stays_live idle idle_ms now e then kept else gone

-- `ttl_sweep`.
abbrev pub ttl_sweep : (Text → Bool) → ℕ → ℕ → TokenHub → TokenHub
ttl_sweep idle idle_ms now h = sweep_parts idle idle_ms now h.live_parts h

-- An event of the hub, with the time and what it is told of the gates and the subscribers. The revision
-- that a published delta takes is an event of its own.
pub data TokenEvent : Type 0 where
  part_updated : ℕ → PartKey → PartUpdate → TokenEvent
  part_delta : ℕ → Bool → Bool → PartKey → Text → TokenEvent
  part_removed : ℕ → PartKey → TokenEvent
  message_removed : Text → Text → TokenEvent
  session_ended : Text → TokenEvent
  reconnected : TokenEvent
  ticks : TokenEvent
  publishes_delta : PartKey → TokenEvent
  sweeps : (Text → Bool) → ℕ → ℕ → TokenEvent

unfoldable pub token_happens : TokenCaps → TokenEvent → TokenHub → TokenHub
unfolding on_part_updated on_part_delta drop_part next_part_revision retire_where drain_where
    sweep_parts
token_happens caps (part_updated now k u) h = on_part_updated caps now k u h
token_happens caps (part_delta now late subs k t) h = on_part_delta caps now late subs k t h
token_happens caps (part_removed now k) h = (drop_part caps now k h).1
token_happens caps (message_removed sid mid) h = retire_message sid mid h
token_happens caps (session_ended sid) h = retire_session sid h
token_happens caps reconnected h = upstream_reconnect h
token_happens caps ticks h = flush h
token_happens caps (publishes_delta k) h = consume_revision caps k h
token_happens caps (sweeps idle idle_ms now) h = ttl_sweep idle idle_ms now h

unfoldable pub token_run : TokenCaps → List TokenEvent → TokenHub → TokenHub
unfolding token_happens
token_run caps [] h = h
token_run caps (e ∷ es) h = token_run caps es (token_happens caps e h)
