-- ===== src/Wire/RoundTrip.antt =====
-- sse/replay_wire.py: the id that a frame carries, as a `Last-Event-ID`.
use mathlib.Core.List.{append_assoc}
use oc_slimapi.Prelude.{
  ℕ, zero, suc, ◌+◌, ◌-◌, ◌*◌, ◌^◌, ◌<◌, ◌≡◌, refl, ap, ◌∙◌, true, Option, none, some, List, [],
  ◌∷◌, ◌++◌, arith, Text, text, text_dec, ltb, length, length-append, get_or, take, take-append,
  get_or-append, Dec_both, if_both, le→ltb-false,
}
use oc_slimapi.Prelude.Decimal.{
  all_digits, decimal, value_from, value-decimal, all_digits-decimal, length-decimal, decimal-pos,
}
use oc_slimapi.Prelude.Split.{push_front, split, join, free_of, split-append, join-split}
use oc_slimapi.Replay.Epoch.{hex_run, epoch_matches, token_domain, global_domain}
use oc_slimapi.Wire.{
  colon, event_id, digits_end, seq_matches, int_from, parse_tail, from_end, parse_global,
  parse_token, parse_last_event_id,
}

hex_run-free : (n : ℕ) (s : Text) → hex_run n s ≡ true → free_of colon s ≡ true
unfolding hex_run free_of
hex_run-free zero [] h = refl
hex_run-free zero (c ∷ []) h = ground arith
hex_run-free zero (c ∷ d ∷ s) h = cc
hex_run-free (suc n) [] h = cc
hex_run-free (suc n) (c ∷ s) h = ground (arith, hex_run-free n s)

all_digits-free : (s : Text) → all_digits s ≡ true → free_of colon s ≡ true
unfolding all_digits free_of
all_digits-free [] h = refl
all_digits-free (c ∷ s) h = ground (arith, all_digits-free s)

all_digits-end : (s : Text) → all_digits s ≡ true → digits_end s ≡ true
unfolding all_digits digits_end
all_digits-end [] h = refl
all_digits-end (c ∷ s) h = ground (arith, all_digits-end s)

seq_matches-decimal : (s : Text) → 0 < length s → all_digits s ≡ true → seq_matches s ≡ true
unfolding all_digits
seq_matches-decimal [] p h = absurd (omega arith)
seq_matches-decimal (c ∷ s) p h = ground (arith, all_digits-end s)

int_from-value : (acc : ℕ) (s : Text) → all_digits s ≡ true → int_from acc s ≡ value_from acc s
unfolding all_digits int_from value_from
int_from-value acc [] h = refl
int_from-value acc (c ∷ s) h = ground (arith, int_from-value (acc * 10 + (c - 48)) s)

-- The last two segments of a frame's id.
parse_tail-decimal :
    (epoch : Text) (seq : ℕ)
    → epoch_matches epoch ≡ true
    → seq < 10 ^ 19
    → parse_tail epoch (decimal seq) ≡ some (epoch, seq)
unfolding parse_tail
parse_tail-decimal epoch seq e small =
    let d = seq_matches-decimal (decimal seq) (decimal-pos seq) (all_digits-decimal seq) in
    let l = le→ltb-false 19 (length (decimal seq)) (length-decimal seq 19 small (omega arith)) in
    let v = int_from-value 0 (decimal seq) (all_digits-decimal seq) ∙ value-decimal seq in
    rw (e, d, l, v)

split_token :
    (sid epoch : Text) (seq : ℕ)
    → epoch_matches epoch ≡ true
    → split colon (event_id (token_domain sid) epoch seq)
      ≡ text "t" ∷ (split colon sid ++ (epoch ∷ decimal seq ∷ []))
split_token sid epoch seq e =
    split-append colon (token_domain sid ++ (colon ∷ epoch)) (decimal seq)
      (all_digits-free (decimal seq) (all_digits-decimal seq))
    ∙ ap (λ ps. ps ++ (decimal seq ∷ []))
        (split-append colon (token_domain sid) epoch (hex_run-free 16 epoch e))
    ∙ append_assoc (split colon (token_domain sid)) (epoch ∷ []) (decimal seq ∷ [])
    ∙ ap (λ ps. ps ++ (epoch ∷ decimal seq ∷ [])) labelled
  where
    labelled : split colon (token_domain sid) ≡ text "t" ∷ split colon sid
    labelled = unfold split push_front in refl

parse_token-parts :
    (sid token_sid epoch seq_text : Text) (ps : List Text)
    → 0 < length ps
    → join colon ps ≡ sid
    → parse_token token_sid (text "t" ∷ (ps ++ (epoch ∷ seq_text ∷ [])))
      ≡ (elim (text_dec sid token_sid) [ no _ ↦ none | yes _ ↦ parse_tail epoch seq_text ])
unfolding parse_token
parse_token-parts sid token_sid epoch seq_text ps pos j =
    if_both (λ r. r ≡ segments sid epoch seq_text) (ltb (length rest) 3) none labelled
      (λ t. absurd (too_short t))
      (λ _.
        Dec_both (λ r. r ≡ segments sid epoch seq_text) (text_dec (text "t") (text "t")) none parsed
          (λ n. absurd (n refl)) (λ _. inner))
  where
    rest : List Text
    rest = ps ++ (epoch ∷ seq_text ∷ [])

    segments : Text → Text → Text → Option (Text × ℕ)
    segments s e q = elim (text_dec s token_sid) [ no _ ↦ none | yes _ ↦ parse_tail e q ]

    parsed : Option (Text × ℕ)
    parsed = segments (join colon (take (length rest - 2) rest)) (from_end 2 rest) (from_end 1 rest)

    labelled : Option (Text × ℕ)
    labelled = elim (text_dec (text "t") (text "t")) [ no _ ↦ none | yes _ ↦ parsed ]

    size : length rest ≡ length ps + 2
    size = length-append ps (epoch ∷ seq_text ∷ [])

    too_short : ltb (length rest) 3 ≡ true → ⊥
    too_short t = let s = size in ground arith

    front : take (length rest - 2) rest ≡ ps
    front =
        ap (λ n. take n rest) {y = length ps} (omega (arith, size))
        ∙ take-append ps (epoch ∷ seq_text ∷ [])

    inner : parsed ≡ segments sid epoch seq_text
    inner =
        ap (λ s. segments s (from_end 2 rest) (from_end 1 rest)) (ap (join colon) front ∙ j)
        ∙ ap (λ e. segments sid e (from_end 1 rest))
            (ap (λ n. get_or rest n []) {y = length ps + 0} (omega (arith, size))
              ∙ get_or-append ps (epoch ∷ seq_text ∷ []) 0 [])
        ∙ ap (λ q. segments sid epoch q)
            (ap (λ n. get_or rest n []) {y = length ps + 1} (omega (arith, size))
              ∙ get_or-append ps (epoch ∷ seq_text ∷ []) 1 [])

length-split : (sep : ℕ) (s : Text) → 0 < length (split sep s)
unfolding split push_front
length-split sep [] = omega arith
length-split sep (c ∷ cs) = grind (arith, length-split sep cs)

parse_nonempty_token :
    (c : ℕ) (cs token_sid : Text)
    → parse_last_event_id (some (c ∷ cs)) (some token_sid)
      ≡ parse_token token_sid (split colon (c ∷ cs))
unfolding parse_last_event_id
parse_nonempty_token c cs token_sid = refl

parse_nonempty_global :
    (c : ℕ) (cs : Text)
    → parse_last_event_id (some (c ∷ cs)) none ≡ parse_global (split colon (c ∷ cs))
unfolding parse_last_event_id
parse_nonempty_global c cs = refl

parse_global-parts :
    (epoch seq_text : Text)
    → parse_global (text "g" ∷ epoch ∷ seq_text ∷ []) ≡ parse_tail epoch seq_text
unfolding parse_global
parse_global-parts epoch seq_text =
    Dec_both (λ r. r ≡ parse_tail epoch seq_text) (text_dec (text "g") (text "g")) none
      (parse_tail epoch seq_text) (λ n. absurd (n refl)) (λ _. refl)

split_global :
    (epoch : Text) (seq : ℕ)
    → epoch_matches epoch ≡ true
    → split colon (event_id global_domain epoch seq) ≡ text "g" ∷ epoch ∷ decimal seq ∷ []
split_global epoch seq e =
    split-append colon (global_domain ++ (colon ∷ epoch)) (decimal seq)
      (all_digits-free (decimal seq) (all_digits-decimal seq))
    ∙ ap (λ ps. ps ++ (decimal seq ∷ []))
        (split-append colon global_domain epoch (hex_run-free 16 epoch e))
    ∙ labelled
  where
    labelled :
        (split colon global_domain ++ (epoch ∷ [])) ++ (decimal seq ∷ [])
        ≡ text "g" ∷ epoch ∷ decimal seq ∷ []
    labelled = unfold split push_front in refl

-- The id of a token frame whose epoch the pattern matches and whose seq has at most 19 digits,
-- presented to the endpoint of some session: it is accepted by the session that the frame belongs
-- to, whose sid may hold colons, and by no other.
pub parse-event_id_token :
    (sid token_sid epoch : Text) (seq : ℕ)
    → epoch_matches epoch ≡ true
    → seq < 10 ^ 19
    → parse_last_event_id (some (event_id (token_domain sid) epoch seq)) (some token_sid)
      ≡ (elim (text_dec sid token_sid) [ no _ ↦ none | yes _ ↦ some (epoch, seq) ])
parse-event_id_token sid token_sid epoch seq e small =
    parse_nonempty_token b't' (b':' ∷ ((sid ++ (colon ∷ epoch)) ++ (colon ∷ decimal seq))) token_sid
    ∙ ap (parse_token token_sid) (split_token sid epoch seq e)
    ∙ parse_token-parts sid token_sid epoch (decimal seq) (split colon sid) (length-split colon sid)
        (join-split colon sid)
    ∙ ap (λ r. elim (text_dec sid token_sid) [ no _ ↦ none | yes _ ↦ r ])
        (parse_tail-decimal epoch seq e small)

-- The id of a frame of the global stream whose epoch the pattern matches and whose seq has at most
-- 19 digits is parsed back by the global endpoint.
pub parse-event_id_global :
    (epoch : Text) (seq : ℕ)
    → epoch_matches epoch ≡ true
    → seq < 10 ^ 19
    → parse_last_event_id (some (event_id global_domain epoch seq)) none ≡ some (epoch, seq)
parse-event_id_global epoch seq e small =
    parse_nonempty_global b'g' ((colon ∷ epoch) ++ (colon ∷ decimal seq))
    ∙ ap parse_global (split_global epoch seq e)
    ∙ parse_global-parts epoch (decimal seq)
    ∙ parse_tail-decimal epoch seq e small
