-- ===== src/Wire.antt =====
-- sse/replay_wire.py: the ids of SSE frames, the `Last-Event-ID` header and what a reconnect gets.
pub mod RoundTrip
pub mod Reconnect
mod Tests
use oc_slimapi.Prelude.{
  ℕ, zero, suc, ◌+◌, ◌-◌, Bool, true, false, ◌&&◌, ◌||◌, not, Option, none, some, List, [], ◌∷◌,
  ◌++◌, ◌*◌, Text, text, text_dec, ltb, leb, ◌==◌, if◌then◌else◌, length, get_or, take, lookup,
}
use oc_slimapi.Prelude.Decimal.{is_digit, decimal, value_from}
use oc_slimapi.Prelude.Split.{split, join}
use oc_slimapi.Replay.Types.{ReplayLog, ReplayOutcome, resync, reconnect_no_replay}
use oc_slimapi.Replay.Epoch.{at_end, epoch_matches, hex_run}
use oc_slimapi.Replay.Read.{replay, first_connect_invalidated}

abbrev pub colon : ℕ
colon = b':'

-- `<domain>:<epoch>:<seq>`, the id of a frame.
abbrev pub event_id : Text → Text → ℕ → Text
event_id domain epoch seq = (domain ++ (colon ∷ epoch)) ++ (colon ∷ decimal seq)

-- `.encode("ascii")` raises on a code point above 127.
unfoldable pub is_ascii : Text → Bool
is_ascii [] = true
is_ascii (c ∷ s) = if ltb c 128 then is_ascii s else false

unfoldable pub sse_id_line : Text → Text → ℕ → Option Text
unfolding is_ascii decimal
sse_id_line domain epoch seq =
    let line = (text "id: " ++ event_id domain epoch seq) ++ (10 ∷ []) in
    if is_ascii line then some line else none

unfoldable pub frame_with_id : Text → Text → Text → ℕ → Option Text
unfolding sse_id_line
frame_with_id frame domain epoch seq = elim (sse_id_line domain epoch seq) [
  | none ↦ none
  | some line ↦ some (line ++ frame)
]

-- `_SEQ_RE.match`: digits, at least one, up to the end.
unfoldable pub digits_end : Text → Bool
digits_end [] = true
digits_end (c ∷ s) = if is_digit c then digits_end s else at_end (c ∷ s)

abbrev pub seq_matches : Text → Bool
seq_matches [] = false
seq_matches (c ∷ s) = is_digit c && digits_end s

-- `int` of a text that `_SEQ_RE` matched: the line feed that may end it is blank.
unfoldable pub int_from : ℕ → Text → ℕ
int_from acc [] = acc
int_from acc (c ∷ s) =
    let more = int_from (acc * 10 + (c - b'0')) s in if is_digit c then more else acc

-- The checks on the last two segments.
unfoldable pub parse_tail : Text → Text → Option (Text × ℕ)
unfolding hex_run digits_end int_from
parse_tail epoch seq_text =
    if not (epoch_matches epoch) || not (seq_matches seq_text)
    then none
    else if ltb 19 (length seq_text)
    then none
    else some (epoch, int_from 0 seq_text)

-- `parts[-i]`, for a list that is long enough.
abbrev pub from_end : ℕ → List Text → Text
from_end i parts = get_or parts (length parts - i) []

-- The grammar of the global endpoint: exactly three segments.
unfoldable pub parse_global : List Text → Option (Text × ℕ)
unfolding parse_tail text_dec
parse_global (label ∷ epoch ∷ seq_text ∷ []) = elim (text_dec label (text "g")) [
  | yes _ ↦ parse_tail epoch seq_text
  | no _ ↦ none
]
parse_global _ = none

-- The grammar of a token endpoint: the sid is what stands between the label and the last two.
unfoldable pub parse_token : Text → List Text → Option (Text × ℕ)
unfolding parse_tail text_dec join
parse_token token_sid [] = none
parse_token token_sid (label ∷ rest) =
    if ltb (length rest) 3 then none else (elim (text_dec label (text "t")) [
      | no _ ↦ none
      | yes _ ↦ elim (text_dec (join colon (take (length rest - 2) rest)) token_sid) [
        | no _ ↦ none
        | yes _ ↦ parse_tail (from_end 2 rest) (from_end 1 rest)
      ]
    ])

unfoldable pub parse_last_event_id : Option Text → Option Text → Option (Text × ℕ)
unfolding parse_global parse_token split
parse_last_event_id none token_sid = none
parse_last_event_id (some []) token_sid = none
parse_last_event_id (some (c ∷ cs)) none = parse_global (split colon (c ∷ cs))
parse_last_event_id (some (c ∷ cs)) (some token_sid) = parse_token token_sid (split colon (c ∷ cs))

module _ {P : Type 0} where
  -- A connect with no cursor: the domain may still owe an invalidation signal.
  unfoldable pub no_cursor : ReplayLog P → Text → ReplayLog P × Option (ReplayOutcome P)
  unfolding first_connect_invalidated
  no_cursor log domain =
      let (log', owes) = first_connect_invalidated log domain in
      if owes then (log', some (resync reconnect_no_replay)) else (log', none)

  -- A cursor that the parser may have refused.
  unfoldable pub with_cursor :
      ℕ → ReplayLog P → Text → Option (Text × ℕ) → ReplayLog P × Option (ReplayOutcome P)
  unfolding replay
  with_cursor now log domain none = (log, none)
  with_cursor now log domain (some (epoch, seq)) =
      let (log', outcome) = replay now log domain seq (some epoch) in (log', some outcome)

  unfoldable pub classify_reconnect :
      ℕ → ReplayLog P → Text → Option Text → Option Text → ReplayLog P × Option (ReplayOutcome P)
  unfolding no_cursor with_cursor parse_last_event_id
  classify_reconnect now log domain token_sid none = no_cursor log domain
  classify_reconnect now log domain token_sid (some []) = no_cursor log domain
  classify_reconnect now log domain token_sid (some (c ∷ cs)) =
      with_cursor now log domain (parse_last_event_id (some (c ∷ cs)) token_sid)
