-- ===== src/Tokens.antt =====
-- sse/tokenstream: the live parts and the pending windows of the token stream, with the budgets that
-- bound them and the tombstones of parts that are gone.
pub mod Ingest
pub mod Gauges
pub mod Reserve
pub mod Start
pub mod Bounds
pub mod Always
pub mod Stands
pub mod Tombstones
pub mod Revisions
mod Tests
use oc_slimapi.Prelude.{
  pair_dec, ℕ, suc, zero, ◌+◌, ◌-◌, ◌*◌, Bool, true, false, ◌&&◌, ◌||◌, not, Option, none, some,
  List, [], ◌∷◌, ◌++◌, lookup, Text, text_dec, ltb, leb, ◌==◌, if◌then◌else◌, length, sum_by,
}
use oc_slimapi.Prelude.Dict.{assign, remove, move_to_end}
use oc_slimapi.Prelude.Dict.Laws.{weigh}
use oc_slimapi.Since.{utf8_size}

-- `(sessionID, messageID, partID)`.
abbrev pub PartKey : Type 0
PartKey = Text × (Text × Text)

abbrev pub part_dec : Discrete PartKey
part_dec = pair_dec text_dec (pair_dec text_dec text_dec)

abbrev pub is_yes {ℓ} : {A : Type ℓ} → Dec A → Bool
is_yes (yes _) = true
is_yes (no _) = false

-- `len(text.encode("utf-8"))`.
abbrev pub utf8_bytes : Text → ℕ
utf8_bytes t = sum_by utf8_size t

pub record LivePart : Type 0 where
  pub chunks : List Text
  pub byte_count : ℕ
  pub ended : Bool
  pub last_delta_ms : ℕ

pub record DeltaAccumulator : Type 0 where
  pub window : List Text
  pub window_bytes : ℕ

-- The budgets, which debug settings may override.
pub record TokenCaps : Type 0 where
  pub part_max_bytes : ℕ
  pub live_parts_max : ℕ
  pub liveparts_max_bytes : ℕ
  pub pending_max_bytes : ℕ
  pub flush_bytes : ℕ
  pub disabled_max : ℕ
  pub disabled_ttl_ms : ℕ

abbrev pub token_caps : TokenCaps
token_caps = record {
  part_max_bytes = 1024 * 1024;
  live_parts_max = 32;
  liveparts_max_bytes = 4 * 1024 * 1024;
  pending_max_bytes = 4 * 1024 * 1024;
  flush_bytes = 4096;
  disabled_max = 4096;
  disabled_ttl_ms = 300 * 1000;
}

-- The state of `TokenStreamHub` that the budgets are about.
pub record TokenHub : Type 0 where
  pub live_parts : List (PartKey × LivePart)
  pub pending_windows : List (PartKey × DeltaAccumulator)
  pub total_live_bytes : ℕ
  pub total_pending_bytes : ℕ
  pub nontext_parts : List (PartKey × ℕ)
  pub disabled_parts : List (PartKey × ℕ)
  pub part_revisions : List (PartKey × ℕ)
  pub orphan_deltas : ℕ
  pub memory_limit_total : ℕ

abbrev pub new_hub : TokenHub
new_hub = record {
  live_parts = [];
  pending_windows = [];
  total_live_bytes = 0;
  total_pending_bytes = 0;
  nontext_parts = [];
  disabled_parts = [];
  part_revisions = [];
  orphan_deltas = 0;
  memory_limit_total = 0;
}

abbrev pub live_bytes : LivePart → ℕ
live_bytes l = l.byte_count

abbrev pub no_chunks : List Text → Bool
no_chunks [] = true
no_chunks (c ∷ d) = false

-- `key in self._disabled_parts`.
abbrev pub has_key : Option ℕ → Bool
has_key none = false
has_key (some t) = true

-- The first loop of `_prune_bounded`: the oldest entries go while they are past their time to live.
unfoldable pub prune_ttl : ℕ → ℕ → List (PartKey × ℕ) → List (PartKey × ℕ)
prune_ttl ttl now [] = []
prune_ttl ttl now (e ∷ d) =
    let rest = prune_ttl ttl now d in if ltb (e.1 + ttl) now then rest else e ∷ d

-- The second loop: the oldest entries go while there are too many.
unfoldable pub prune_cap : ℕ → List (PartKey × ℕ) → List (PartKey × ℕ)
prune_cap most [] = []
prune_cap most (e ∷ d) =
    let rest = prune_cap most d in if ltb most (length (e ∷ d)) then rest else e ∷ d

-- `_remember_disabled` and `_remember_nontext`, on the map of tombstones.
unfoldable pub remember : TokenCaps → PartKey → ℕ → List (PartKey × ℕ) → List (PartKey × ℕ)
unfolding lookup assign prune_ttl prune_cap
remember caps k now d =
    if has_key (lookup part_dec k d)
    then d
    else prune_cap caps.disabled_max (prune_ttl caps.disabled_ttl_ms now (assign part_dec k now d))

-- `_part_revisions.get(key, -1) + 1`.
abbrev pub revision_after : Option ℕ → ℕ
revision_after none = 0
revision_after (some r) = r + 1

-- `_next_part_revision`, and the map of revisions that it leaves.
unfoldable pub next_part_revision :
    TokenCaps → PartKey → List (PartKey × ℕ) → ℕ × List (PartKey × ℕ)
unfolding lookup assign move_to_end prune_cap
next_part_revision caps k d =
    let rev = revision_after (lookup part_dec k d) in
    (rev, prune_cap caps.disabled_max (move_to_end part_dec k (assign part_dec k rev d)))

-- The revision of a delta that is published, in `_fanout_delta_frame`.
abbrev pub consume_revision : TokenCaps → PartKey → TokenHub → TokenHub
consume_revision caps k h = record h {
  part_revisions = (next_part_revision caps k h.part_revisions).1;
}

-- `drop_part`, and whether the part was not disabled before.
unfoldable pub drop_part : TokenCaps → ℕ → PartKey → TokenHub → Bool × TokenHub
unfolding lookup remove remember
drop_part caps now k h =
    let seen = has_key (lookup part_dec k h.disabled_parts) in
    (
      not seen,
      record h {
        pending_windows = remove part_dec k h.pending_windows;
        total_pending_bytes =
            h.total_pending_bytes
            - weigh (λ (a : DeltaAccumulator). a.window_bytes)
                (lookup part_dec k h.pending_windows);
        live_parts = remove part_dec k h.live_parts;
        total_live_bytes = h.total_live_bytes - weigh live_bytes (lookup part_dec k h.live_parts);
        nontext_parts = remove part_dec k h.nontext_parts;
        part_revisions = remove part_dec k h.part_revisions;
        disabled_parts = remember caps k now h.disabled_parts;
      },
    )

-- A window that a flush takes away: it is drained, or it had no chunks.
abbrev pub taken : DeltaAccumulator → Bool
taken a = not (a.window_bytes == 0) || no_chunks a.window

-- The windows that a flush leaves, and their bytes: those that the test selects are drained and, when
-- they have no chunks left, removed.
unfoldable pub drain_where :
    (PartKey → Bool) → List (PartKey × DeltaAccumulator) → ℕ → List (PartKey × DeltaAccumulator) × ℕ
drain_where test [] total = ([], total)
drain_where test (e ∷ d) total =
    let gone = drain_where test d (total - e.1.window_bytes) in
    let kept = drain_where test d total in
    if test e.0 && taken e.1 then gone else (e ∷ kept.0, kept.1)

-- `flush_sid` and `flush`, on the windows.
abbrev pub flush_where : (PartKey → Bool) → TokenHub → TokenHub
flush_where test h =
    let r = drain_where test h.pending_windows h.total_pending_bytes in
    record h { pending_windows = r.0; total_pending_bytes = r.1 }

abbrev pub flush_sid : Text → TokenHub → TokenHub
flush_sid sid h = flush_where (λ k. is_yes (text_dec k.0 sid)) h

abbrev pub flush : TokenHub → TokenHub
flush h = flush_where (λ k. true) h

-- `_evict_part_for_memory`.
unfoldable pub evict_part : TokenCaps → ℕ → PartKey → TokenHub → TokenHub
unfolding drop_part drain_where text_dec
evict_part caps now k h =
    let r = drop_part caps now k h in
    if r.0
    then (let f = flush_sid k.0 r.1 in record f { memory_limit_total = f.memory_limit_total + 1 })
    else r.1

-- The part with the smallest `last_delta_ms` of two, the first one in case of a tie.
abbrev pub older : PartKey × LivePart → Option (PartKey × LivePart) → PartKey × LivePart
older e none = e
older e (some m) = if leb e.1.last_delta_ms m.1.last_delta_ms then e else m

-- `min(candidates, key=...)` over the live parts that the test allows.
unfoldable pub oldest_part :
    (PartKey → Bool) → List (PartKey × LivePart) → Option (PartKey × LivePart)
oldest_part test [] = none
oldest_part test (e ∷ d) =
    let rest = oldest_part test d in if test e.0 then some (older e rest) else rest

abbrev pub other_than : PartKey → PartKey → Bool
other_than k j = not (is_yes (part_dec j k))

-- The loop of `_reserve`, at most so many rounds: whether the bytes fit beside the other parts.
unfoldable pub reserve_rounds : TokenCaps → ℕ → ℕ → PartKey → ℕ → TokenHub → Bool × TokenHub
unfolding evict_part oldest_part drop_part
reserve_rounds caps now n k zero h =
    (not (ltb caps.liveparts_max_bytes (h.total_live_bytes + n)), h)
reserve_rounds caps now n k (suc rounds) h =
    let rest : Bool × TokenHub = elim (oldest_part (other_than k) h.live_parts) [
      | none ↦ (false, (drop_part caps now k h).1)
      | some e ↦ reserve_rounds caps now n k rounds (evict_part caps now e.0 h)
    ] in
    if ltb caps.liveparts_max_bytes (h.total_live_bytes + n) then rest else (true, h)

-- `_reserve`: a round evicts a part, so that one round more than there are parts is enough.
unfoldable pub reserve : TokenCaps → ℕ → PartKey → ℕ → ℕ → TokenHub → Bool × TokenHub
unfolding reserve_rounds drop_part
reserve caps now k size n h =
    if ltb caps.part_max_bytes (size + n)
    then (false, (drop_part caps now k h).1)
    else reserve_rounds caps now n k (suc (length h.live_parts)) h

-- `_check_pending_budget`, with `subscriber_count > 0`.
unfoldable pub check_pending : TokenCaps → ℕ → Bool → PartKey → TokenHub → TokenHub
unfolding drain_where evict_part oldest_part
check_pending caps now had_subs k h =
    let f = flush h in
    let evicted : TokenHub = elim (oldest_part (other_than k) f.live_parts) [
      | none ↦ f
      | some e ↦ evict_part caps now e.0 f
    ] in
    if leb h.total_pending_bytes caps.pending_max_bytes
    then h
    else if not had_subs || ltb caps.pending_max_bytes f.total_pending_bytes
    then evicted
    else f

-- The count loop of `_start_part`. Where the cap is 0 the code's `min` raises on no parts; the loop here
-- ends.
unfoldable pub make_room : TokenCaps → ℕ → ℕ → TokenHub → TokenHub
unfolding evict_part oldest_part
make_room caps now zero h = h
make_room caps now (suc rounds) h =
    let rest : TokenHub = elim (oldest_part (λ _. true) h.live_parts) [
      | none ↦ h
      | some e ↦ make_room caps now rounds (evict_part caps now e.0 h)
    ] in
    if leb caps.live_parts_max (length h.live_parts) then rest else h

-- The byte loop of `_start_part`, which stops when no other part is left.
unfoldable pub shed_others : TokenCaps → ℕ → PartKey → ℕ → TokenHub → TokenHub
unfolding evict_part oldest_part
shed_others caps now k zero h = h
shed_others caps now k (suc rounds) h =
    let rest : TokenHub = elim (oldest_part (other_than k) h.live_parts) [
      | none ↦ h
      | some e ↦ shed_others caps now k rounds (evict_part caps now e.0 h)
    ] in
    if ltb caps.liveparts_max_bytes h.total_live_bytes then rest else h

-- A new part with its seed, which is counted at once.
abbrev pub seeded : ℕ → PartKey → Text → TokenHub → TokenHub
seeded now k seed h = record h {
  live_parts =
      assign part_dec k
        (record {
          chunks = seed ∷ [];
          byte_count = utf8_bytes seed;
          ended = false;
          last_delta_ms = now;
        })
        h.live_parts;
  total_live_bytes = h.total_live_bytes + utf8_bytes seed;
}

abbrev pub unseeded : ℕ → PartKey → TokenHub → TokenHub
unseeded now k h = record h {
  live_parts =
      assign part_dec k (record { chunks = []; byte_count = 0; ended = false; last_delta_ms = now })
        h.live_parts;
}

-- `_start_part`.
unfoldable pub start_part : TokenCaps → ℕ → PartKey → Text → TokenHub → TokenHub
unfolding make_room shed_others drop_part assign
start_part caps now k [] h = unseeded now k (make_room caps now (length h.live_parts) h)
start_part caps now k (c ∷ seed) h =
    let room = make_room caps now (length h.live_parts) h in
    if ltb caps.part_max_bytes (utf8_bytes (c ∷ seed))
    then (drop_part caps now k (unseeded now k room)).1
    else shed_others caps now k (suc (length room.live_parts)) (seeded now k (c ∷ seed) room)
