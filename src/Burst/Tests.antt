-- ===== src/Burst/Tests.antt =====
-- Runs of burst_watch.py, and its theorem at one of them.
use oc_slimapi.Prelude.{
  ◌<◌, ◌≡◌, refl, none, some, List, [], ◌∷◌, Text, text, text_dec, lookup, arith, length,
}
use oc_slimapi.Prelude.Dict.{assign}
use oc_slimapi.Prelude.Decimal.{decimal}
use oc_slimapi.Replay.Read.{increment}
use oc_slimapi.Burst.{Event, prune, counter, sort_common, insert_common, settle, record_5xx}
use oc_slimapi.Burst.Window.{recent, event_of, Outcome, record_5xx-Outcome}

program : Unit {0}
unfolding record_5xx settle prune counter sort_common insert_common increment lookup text_dec assign
    decimal recent
program = tt

abbrev p : Text
p = text "/p"

abbrev events : List Event
events = event_of 0 500 p ∷ event_of 10 502 (text "/q") ∷ event_of 20 500 p ∷ event_of 30 503 p ∷ []

-- The first event is a minute old and no longer counts.
aged : (record_5xx 60 500 p events).1 ≡ none
unfolding program
aged = refl

burst : record_5xx 59 500 p events ≡ (
  [],
  some (record {
    count = 5;
    codes = (text "500", 3) ∷ (text "502", 1) ∷ (text "503", 1) ∷ [];
    paths = (p, 4) ∷ (text "/q", 1) ∷ [];
  }),
)
unfolding program
burst = refl

record_5xx-Outcome_example :
    Outcome 59 500 p events (record_5xx 59 500 p events)
    × (length (record_5xx 59 500 p events).0 < 5)
record_5xx-Outcome_example =
    record_5xx-Outcome 59 0 500 p events
      (omega arith, (omega arith, (omega arith, (omega arith, tt)))) (omega arith)
