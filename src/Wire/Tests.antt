-- ===== src/Wire/Tests.antt =====
-- Runs of sse/replay_wire.py on small inputs, and its theorems at them.
use oc_slimapi.Prelude.{
  ℕ, ◌≡◌, refl, true, false, Option, none, some, [], ◌∷◌, ◌++◌, arith, Text, text, text_dec, lookup,
}
use oc_slimapi.Prelude.Dict.{assign}
use oc_slimapi.Prelude.Decimal.{decimal}
use oc_slimapi.Prelude.Split.{split}
use oc_slimapi.Replay.Types.{business, ReplayLog, resync, reconnect_no_replay, new_domain}
use oc_slimapi.Replay.Evict.{shed_while}
use oc_slimapi.Replay.Epoch.{hex_run, token_domain, global_domain}
use oc_slimapi.Replay.Write.{append, mark_invalidated, domain_or_new}
use oc_slimapi.Replay.Paced.{Paced}
use oc_slimapi.Replay.Reach.{Step, Reach}
use oc_slimapi.Replay.Classify.{owed}
use oc_slimapi.Replay.Barrier.{seen}
use oc_slimapi.Wire.{
  event_id, is_ascii, sse_id_line, frame_with_id, digits_end, int_from, parse_last_event_id,
  classify_reconnect,
}
use oc_slimapi.Wire.RoundTrip.{parse-event_id_token, parse-event_id_global}
use oc_slimapi.Wire.Reconnect.{
  reconnect-event_id_token, reconnect-event_id_global, reconnect_foreign, reconnect_invalidated,
  ignored,
}

program : Unit {0}
unfolding parse_last_event_id sse_id_line frame_with_id is_ascii decimal split hex_run digits_end
    int_from append mark_invalidated shed_while text_dec lookup assign
program = tt

abbrev epoch : Text
epoch = text "00000000deadbeef"

id_line : sse_id_line (text "t:a") epoch 12 ≡ some (text "id: t:a:00000000deadbeef:12" ++ (10 ∷ []))
unfolding program
id_line = refl

non_ascii_sid : frame_with_id (text "data") (233 ∷ []) epoch 12 ≡ none
unfolding program
non_ascii_sid = refl

-- The sid may hold colons.
colons :
    parse_last_event_id (some (text "t:a:b:00000000deadbeef:12")) (some (text "a:b"))
    ≡ some (epoch, 12)
unfolding program
colons = refl

-- A line feed at the end passes the pattern `^[0-9]+$`.
line_feed :
    parse_last_event_id (some (text "g:00000000deadbeef:12" ++ (10 ∷ []))) none ≡ some (epoch, 12)
unfolding program
line_feed = refl

not_a_number : parse_last_event_id (some (text "g:00000000deadbeef:-2")) none ≡ none
unfolding program
not_a_number = refl

abbrev sid : Text
sid = text "a:b"

epoch_ok : hex_run 16 epoch ≡ true
unfolding hex_run
epoch_ok = refl

parse-event_id_token_example :
    parse_last_event_id (some (event_id (token_domain sid) epoch 12)) (some sid)
    ≡ (elim (text_dec sid sid) [ no _ ↦ none | yes _ ↦ some (epoch, 12) ])
parse-event_id_token_example = parse-event_id_token sid sid epoch 12 epoch_ok (omega arith)

parse-event_id_global_run :
    parse_last_event_id (some (event_id global_domain epoch 12)) none ≡ some (epoch, 12)
parse-event_id_global_run = parse-event_id_global epoch 12 epoch_ok (omega arith)

abbrev sized : ℕ → Option ℕ
sized n = some n

abbrev fresh : ReplayLog ℕ
fresh = record {
  epoch = epoch;
  max_count = 2;
  max_bytes = 100;
  ttl_s = 10;
  total_bytes = 0;
  replay_outcomes_total = [];
  domains = (token_domain sid, new_domain) ∷ (global_domain, new_domain) ∷ [];
  order = 0;
  closed = false;
}

token-Paced : Paced (domain_or_new (token_domain sid) fresh)
unfolding lookup text_dec
token-Paced = record { run = tt; low = omega arith; high = omega arith }

global-Paced : Paced (domain_or_new global_domain fresh)
unfolding lookup text_dec
global-Paced = record { run = tt; low = omega arith; high = omega arith }

reconnect-event_id_token_example :
    (classify_reconnect 3 fresh
      (token_domain sid)
      (some sid)
      (some (event_id (token_domain sid) epoch 4))).1
    ≡ some (owed 4 (seen 3 fresh (token_domain sid)))
reconnect-event_id_token_example =
    reconnect-event_id_token 3 fresh sid 4 epoch_ok (omega arith) token-Paced

reconnect-event_id_global_run :
    (classify_reconnect 3 fresh global_domain none (some (event_id global_domain epoch 4))).1
    ≡ some (owed 4 (seen 3 fresh global_domain))
reconnect-event_id_global_run =
    reconnect-event_id_global 3 fresh 4 epoch_ok (omega arith) global-Paced

reconnect_foreign_example :
    classify_reconnect 3 fresh
      (token_domain sid)
      (some sid)
      (some (event_id (token_domain (text "c")) epoch 4))
    ≡ ignored fresh
reconnect_foreign_example =
    reconnect_foreign 3 fresh (token_domain sid) sid (text "c") epoch 4 epoch_ok (omega arith)
      (λ p. cc p)

abbrev flagged : ReplayLog ℕ
flagged = (append 6 sized (mark_invalidated fresh global_domain).0 global_domain 30 business none).0

flagged-Reach : Reach sized (mark_invalidated fresh global_domain).0 flagged
unfolding program
flagged-Reach = Reach.next Reach.here (Step.append 6 global_domain 30 business none refl)

reconnect_invalidated_run :
    (classify_reconnect 7 flagged global_domain none none).1 ≡ some (resync reconnect_no_replay)
reconnect_invalidated_run =
    reconnect_invalidated sized fresh flagged global_domain 7 none (λ p. cc p) flagged-Reach
