-- ===== src/Tokens/Tests.antt =====
-- Runs of the token stream's memory with small caps, and its theorems at them.
use oc_slimapi.Prelude.{
  ◌≢◌, ℕ, ◌+◌, ◌≤◌, ◌≡◌, refl, true, false, List, [], ◌∷◌, lookup, text, text_dec, map, length,
  arith,
}
use oc_slimapi.Prelude.Dict.{assign, remove, move_to_end}
use oc_slimapi.Tokens.{
  part_dec, is_yes, PartKey, LivePart, TokenCaps, TokenHub, new_hub, remember, prune_ttl, prune_cap,
  next_part_revision, drop_part, drain_where, evict_part, oldest_part, reserve_rounds, reserve,
  check_pending, make_room, shed_others, start_part,
}
use oc_slimapi.Tokens.Ingest.{
  early_flush, on_part_delta, finish_part, text_start, on_part_updated, pop_where, retire_where,
  sweep_parts, sweeps, TokenEvent, part_updated, part_delta, session_ended, token_happens,
  token_run,
}
use oc_slimapi.Tokens.Reserve.{Granted, reserve-Granted}
use oc_slimapi.Tokens.Start.{Bounded, start_part-Bounded}
use oc_slimapi.Tokens.Always.{token_run-Bounded}
use oc_slimapi.Tokens.Tombstones.{drop_all, drop_part-once}
use oc_slimapi.Tokens.Revisions.{next_all, next_part_revision-counts}

program : Unit {0}
unfolding token_run token_happens on_part_updated on_part_delta finish_part early_flush retire_where
    pop_where start_part shed_others make_room check_pending reserve reserve_rounds oldest_part
    evict_part drain_where drop_part next_part_revision sweep_parts move_to_end remember prune_ttl
    prune_cap drop_all next_all lookup assign remove text_dec
program = tt

-- Ten bytes in all, eight for a part, two parts.
abbrev caps : TokenCaps
caps = record {
  part_max_bytes = 8;
  live_parts_max = 2;
  liveparts_max_bytes = 10;
  pending_max_bytes = 10;
  flush_bytes = 100;
  disabled_max = 4;
  disabled_ttl_ms = 1000;
}

abbrev one : PartKey
one = (text "s", (text "m", text "1"))

abbrev two : PartKey
two = (text "s", (text "m", text "2"))

abbrev starts : List TokenEvent
starts =
    part_updated 1 one (text_start (text "abcd"))
    ∷ part_updated 2 two (text_start (text "efgh"))
    ∷ []

abbrev hub : TokenHub
hub = token_run caps starts new_hub

abbrev keys_of : TokenHub → List PartKey
keys_of h = map (λ e. e.0) h.live_parts

two_parts : keys_of hub ≡ one ∷ two ∷ []
unfolding program
two_parts = refl

bytes : hub.total_live_bytes ≡ 8
unfolding program
bytes = refl

-- A delta that does not fit evicts the older part, with one resync.
abbrev later_hub : TokenHub
later_hub = token_run caps (part_delta 3 false true two (text "ijk") ∷ []) hub

evicted : keys_of later_hub ≡ two ∷ []
unfolding program
evicted = refl

evicted_bytes : later_hub.total_live_bytes ≡ 7
unfolding program
evicted_bytes = refl

resyncs : later_hub.memory_limit_total ≡ 1
unfolding program
resyncs = refl

-- A part that grows past its own limit is dropped, and stays so.
oversized :
    keys_of (
      token_run caps
        (part_delta 3 false true one (text "ijklm")
          ∷ part_updated 4 one (text_start (text "x"))
          ∷ [])
        hub)
    ≡ two ∷ []
unfolding program
oversized = refl

-- A third part takes the place of the oldest.
third :
    keys_of (
      token_run caps
        (part_updated 3 (text "t", (text "m", text "3")) (text_start (text "x")) ∷ [])
        hub)
    ≡ two ∷ (text "t", (text "m", text "3")) ∷ []
unfolding program
third = refl

session_over : keys_of (token_run caps (session_ended (text "s") ∷ []) hub) ≡ []
unfolding program
session_over = refl

abbrev part_one : LivePart
part_one = record { chunks = text "abcd" ∷ []; byte_count = 4; ended = false; last_delta_ms = 1 }

hub-Bounded : Bounded caps hub
hub-Bounded = token_run-Bounded caps starts (omega arith) (omega arith)

token_run-Bounded_example : Bounded caps hub
token_run-Bounded_example = token_run-Bounded caps starts (omega arith) (omega arith)

reserve-Granted_example : Granted caps one part_one 3 hub (reserve caps 3 one 4 3 hub)
unfolding program
reserve-Granted_example = reserve-Granted caps 3 one part_one 3 hub hub-Bounded.ok refl

start_part-Bounded_run :
    Bounded caps (start_part caps 3 (text "t", (text "m", text "3")) (text "ijkl") hub)
unfolding program
start_part-Bounded_run =
    start_part-Bounded caps 3 (text "t", (text "m", text "3")) (text "ijkl") hub hub-Bounded refl
      (omega arith) (omega arith)

-- Another part is dropped twice in between.
abbrev drops : List (ℕ × PartKey)
drops = (5, two) ∷ (6, two) ∷ []

drop_part-once_example :
    ((drop_part caps 9 one (drop_all caps drops (drop_part caps 3 one hub).1)).0 ≡ false)
    × (length (drop_all caps drops (drop_part caps 3 one hub).1).disabled_parts ≤ caps.disabled_max)
unfolding program
drop_part-once_example =
    drop_part-once caps 3 9 one drops hub refl (omega arith) (omega arith, (omega arith, tt))
      (omega arith)

-- A map of one tombstone forgets the part, which is then reported retired again.
abbrev tight : TokenCaps
tight = record caps { disabled_max = 1 }

forgotten :
    (drop_part tight 9 one (drop_all tight ((5, two) ∷ []) (drop_part tight 3 one hub).1)).0 ≡ true
unfolding program
forgotten = refl

-- The sweep retires what has been quiet in an idle session.
swept : keys_of (token_run caps (sweeps (λ _. true) 5 7 ∷ []) hub) ≡ two ∷ []
unfolding program
swept = refl

two-ne-one : two ≢ one
two-ne-one = unfold program in ne (part_dec two one) refl
  where
    ne : (d : Dec (two ≡ one)) → is_yes d ≡ false → two ≢ one
    ne (yes p) e = absurd (cc e)
    ne (no n) e = n

abbrev revisions : List (PartKey × ℕ)
revisions = (one, 4) ∷ (two, 0) ∷ []

-- A call for another part in between.
next_part_revision-counts_example :
    ((next_part_revision caps one
        (next_all caps (two ∷ []) (next_part_revision caps one revisions).1)).0
      ≡ (next_part_revision caps one revisions).0 + 1)
    × (length (next_part_revision caps one revisions).1 ≤ caps.disabled_max)
unfolding program
next_part_revision-counts_example =
    next_part_revision-counts caps one (two ∷ []) revisions (refl, (refl, tt)) (two-ne-one, tt)
      (omega arith)

-- A dropped part begins at 0 again, and so does one that a tight map has forgotten.
restarted :
    (next_part_revision caps one
      (drop_part caps 3 one (record hub { part_revisions = revisions })).1.part_revisions).0
    ≡ 0
unfolding program
restarted = refl

squeezed :
    (next_part_revision tight one (next_all tight (two ∷ []) (next_part_revision tight one []).1)).0
    ≡ 0
unfolding program
squeezed = refl
