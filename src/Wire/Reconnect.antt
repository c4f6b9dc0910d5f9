-- ===== src/Wire/Reconnect.antt =====
-- sse/replay_wire.py `classify_reconnect`: what a connect gets for the header it presents.
use oc_slimapi.Prelude.{
  ℕ, ◌^◌, ◌<◌, ◌≡◌, ◌≢◌, refl, ap, ◌∙◌, true, Option, none, some, [], ◌∷◌, ◌++◌, Text, text_dec,
  Dec_both,
}
use oc_slimapi.Prelude.Decimal.{decimal}
use oc_slimapi.Replay.Types.{ReplayLog, ReplayOutcome, resync, reconnect_no_replay}
use oc_slimapi.Replay.Epoch.{epoch_matches, token_domain, global_domain}
use oc_slimapi.Replay.Write.{domain_or_new, mark_invalidated}
use oc_slimapi.Replay.Read.{replay, first_connect_invalidated}
use oc_slimapi.Replay.Paced.{Paced}
use oc_slimapi.Replay.Reach.{Reach}
use oc_slimapi.Replay.Classify.{owed}
use oc_slimapi.Replay.Barrier.{seen, replay-owed, invalidated_sticky}
use oc_slimapi.Wire.{
  colon, event_id, parse_last_event_id, no_cursor, with_cursor, classify_reconnect,
}
use oc_slimapi.Wire.RoundTrip.{parse-event_id_token, parse-event_id_global}

module _ {P : Type 0} where
  -- The log is left as it is, and no outcome is reported.
  abbrev pub ignored : ReplayLog P → ReplayLog P × Option (ReplayOutcome P)
  ignored log = (log, none)

  with_cursor_parsed :
      (now : ℕ) (log : ReplayLog P) (k : Text) (seq : ℕ)
      → (with_cursor now log k (some (log.epoch, seq))).1
        ≡ some (replay now log k seq (some log.epoch)).1
  unfolding with_cursor
  with_cursor_parsed now log k seq = refl

  reconnect_nonempty :
      (now : ℕ) (log : ReplayLog P) (k : Text) (endpoint : Option Text) (c : ℕ) (cs : Text)
      → classify_reconnect now log k endpoint (some (c ∷ cs))
        ≡ with_cursor now log k (parse_last_event_id (some (c ∷ cs)) endpoint)
  unfolding classify_reconnect
  reconnect_nonempty now log k endpoint c cs = refl

  -- A header that parses to a cursor of this epoch is answered as the cursor is owed.
  reconnect_parsed :
      (now : ℕ) (log : ReplayLog P) (k : Text) (endpoint : Option Text) (c : ℕ) (cs : Text)
      (seq : ℕ)
      → parse_last_event_id (some (c ∷ cs)) endpoint ≡ some (log.epoch, seq)
      → Paced (domain_or_new k log)
      → (classify_reconnect now log k endpoint (some (c ∷ cs))).1 ≡ some (owed seq (seen now log k))
  reconnect_parsed now log k endpoint c cs seq parsed p =
      ap (λ (r : ReplayLog P × Option (ReplayOutcome P)). r.1)
        (reconnect_nonempty now log k endpoint c cs ∙ ap (with_cursor now log k) parsed)
      ∙ with_cursor_parsed now log k seq
      ∙ ap some (replay-owed now log k seq p)

  -- A token client that presents the id of a frame of this epoch, with a seq of at most 19 digits,
  -- to a domain whose seqs are paced is answered as its cursor is owed.
  pub reconnect-event_id_token :
      (now : ℕ) (log : ReplayLog P) (sid : Text) (seq : ℕ)
      → epoch_matches log.epoch ≡ true
      → seq < 10 ^ 19
      → Paced (domain_or_new (token_domain sid) log)
      → (classify_reconnect now log
          (token_domain sid)
          (some sid)
          (some (event_id (token_domain sid) log.epoch seq))).1
        ≡ some (owed seq (seen now log (token_domain sid)))
  reconnect-event_id_token now log sid seq e small p =
      reconnect_parsed now log (token_domain sid) (some sid) b't'
        (b':' ∷ ((sid ++ (colon ∷ log.epoch)) ++ (colon ∷ decimal seq))) seq
        (parse-event_id_token sid sid log.epoch seq e small ∙ own) p
    where
      own :
          ◌≡◌ {A = Option (Text × ℕ)}
            (elim (text_dec sid sid) [ no _ ↦ none | yes _ ↦ some (log.epoch, seq) ])
            (some (log.epoch, seq))
      own =
          Dec_both (λ (r : Option (Text × ℕ)). r ≡ some (log.epoch, seq)) (text_dec sid sid) none
            (some (log.epoch, seq)) (λ n. absurd (n refl)) (λ _. refl)

  -- A client of the global stream that presents the id of a frame of this epoch, with a seq of at
  -- most 19 digits, is answered as its cursor is owed, if the seqs of the domain are paced.
  pub reconnect-event_id_global :
      (now : ℕ) (log : ReplayLog P) (seq : ℕ)
      → epoch_matches log.epoch ≡ true
      → seq < 10 ^ 19
      → Paced (domain_or_new global_domain log)
      → (classify_reconnect now log global_domain none
          (some (event_id global_domain log.epoch seq))).1
        ≡ some (owed seq (seen now log global_domain))
  reconnect-event_id_global now log seq e small p =
      reconnect_parsed now log global_domain none b'g'
        ((colon ∷ log.epoch) ++ (colon ∷ decimal seq)) seq
        (parse-event_id_global log.epoch seq e small) p

  -- The id of a frame of another session, of a matching epoch and with a seq of at most 19 digits,
  -- is ignored, and the log is left as it is.
  pub reconnect_foreign :
      (now : ℕ) (log : ReplayLog P) (k sid other epoch : Text) (seq : ℕ)
      → epoch_matches epoch ≡ true
      → seq < 10 ^ 19
      → other ≢ sid
      → classify_reconnect now log k (some sid) (some (event_id (token_domain other) epoch seq))
        ≡ ignored log
  reconnect_foreign now log k sid other epoch seq e small ne =
      reconnect_nonempty now log k (some sid) b't'
        (b':' ∷ ((other ++ (colon ∷ epoch)) ++ (colon ∷ decimal seq)))
      ∙ ap (with_cursor now log k) (parse-event_id_token other sid epoch seq e small ∙ refused)
      ∙ unparsed
    where
      refused :
          ◌≡◌ {A = Option (Text × ℕ)}
            (elim (text_dec other sid) [ no _ ↦ none | yes _ ↦ some (epoch, seq) ])
            none
      refused =
          Dec_both (λ (r : Option (Text × ℕ)). r ≡ none) (text_dec other sid) none
            (some (epoch, seq)) (λ _. refl) (λ p. absurd (ne p))

      unparsed : with_cursor now log k none ≡ ignored log
      unparsed = unfold with_cursor in refl

  no_cursor-owes :
      (log : ReplayLog P) (k : Text)
      → (first_connect_invalidated log k).1 ≡ true
      → (no_cursor log k).1 ≡ some (resync reconnect_no_replay)
  unfolding no_cursor
  no_cursor-owes log k h = rw h

  -- A domain with a non-empty key that was flagged as invalidated tells every later connect without
  -- a header to resync, whatever steps the log makes in between under the contract of
  -- `reserve_seq`.
  pub reconnect_invalidated :
      (size_of : P → Option ℕ) (log log' : ReplayLog P) (k : Text) (now : ℕ)
      (endpoint : Option Text)
      → k ≢ []
      → Reach size_of (mark_invalidated log k).0 log'
      → (classify_reconnect now log' k endpoint none).1 ≡ some (resync reconnect_no_replay)
  reconnect_invalidated size_of log log' k now endpoint ne r =
      ap (λ (x : ReplayLog P × Option (ReplayOutcome P)). x.1) plain
      ∙ no_cursor-owes log' k (invalidated_sticky size_of log log' k ne r)
    where
      plain : classify_reconnect now log' k endpoint none ≡ no_cursor log' k
      plain = unfold classify_reconnect in refl
