-- ===== src/Burst/Window.antt =====
-- burst_watch.py: when the warning comes.
use mathlib.Core.Path.{subst}
use oc_slimapi.Prelude.Dict.Laws.{weigh}
use oc_slimapi.Prelude.{
  All, some, lookup, text_dec, length-append, ℕ, ◌+◌, ◌≤◌, ◌<◌, ◌≡◌, refl, sym, ap, true, false,
  ◌&&◌, ◌||◌, not, Option, none, List, [], ◌∷◌, ◌++◌, Text, ltb, leb, if◌then◌else◌, length, arith,
  Bool-cases, inl, inr, if_both,
}
use oc_slimapi.Burst.Counts.{
  occurrences, printed, path_of, counts, sort_common-counted, All-take, take-most,
}
use oc_slimapi.Burst.{
  Event, warning_of, Warning, burst_window_s, burst_threshold, prune, settle, record_5xx,
}

-- The events of the last sixty seconds.
unfoldable pub recent : ℕ → List Event → List Event
recent now [] = []
recent now (e ∷ es) = if ltb now (e.ts + 60) then e ∷ recent now es else recent now es

-- The clock does not run backwards over the events, from a reading on.
abbrev pub Ordered : ℕ → List Event → Type 0
Ordered t [] = Unit
Ordered t (e ∷ es) = (t ≤ e.ts) × Ordered e.ts es

all_recent :
    (now t : ℕ) (es : List Event) → Ordered t es → now < t + burst_window_s → recent now es ≡ es
unfolding recent
all_recent now t [] o h = refl
all_recent now t (e ∷ es) o h = ground (arith, all_recent now e.ts es o.1)

-- On ordered events, dropping from the head leaves exactly the recent ones.
pub prune-recent : (now t : ℕ) (es : List Event) → Ordered t es → prune now es ≡ recent now es
unfolding prune recent
prune-recent now t [] o = refl
prune-recent now t (e ∷ es) o = elim (Bool-cases (leb (e.ts + burst_window_s) now)) [
  | inl b ↦
      let f : ltb now (e.ts + burst_window_s) ≡ false = ground arith in
      rw (b, f) (prune-recent now e.ts es o.1)
  | inr b ↦
      let f : ltb now (e.ts + burst_window_s) ≡ true = ground arith in
      rw (b, f) (ap (λ xs. e ∷ xs) (sym (all_recent now e.ts es o.1 (ground arith))))
]

abbrev pub event_of : ℕ → ℕ → Text → Event
event_of now status path = record { ts = now; status = status; path = path }

-- What a warning over these events has to say: how many they are; of each status, as it is printed, and
-- of each path that it names how often it occurs; and three paths at most.
pub record Reports (es : List Event) (w : Warning) : Type 0 where
  pub counted : w.count ≡ length es
  pub by_code :
      (code : Text) → weigh (λ n. n) (lookup text_dec code w.codes) ≡ occurrences printed code es
  pub by_path : All (λ (p : Text × ℕ). p.1 ≡ occurrences path_of p.0 es) w.paths
  pub few : length w.paths ≤ 3

warning_of-Reports : (es : List Event) → Reports es (warning_of es)
warning_of-Reports es = record {
  counted = refl;
  by_code = λ code. counts printed code es;
  by_path = All-take _ 3 _ (sort_common-counted path_of es);
  few = take-most 3 _;
}

-- The window and the warning as the burst rule has it: a 5xx response joins the recent events, and five
-- of them are a burst, which is reported and empties the window.
pub data Outcome (now status : ℕ) (path : Text) (es : List Event)
    : List Event × Option Warning → Type 0 where
  other : (leb 500 status && ltb status 600) ≡ false → Outcome now status path es (es, none)
  quiet :
      (leb 500 status && ltb status 600) ≡ true
      → length (recent now es) < 4
      → Outcome now status path es (recent now es ++ (event_of now status path ∷ []), none)
  burst :
      {w : Warning}
      → (leb 500 status && ltb status 600) ≡ true
      → 4 ≤ length (recent now es)
      → Reports (recent now es ++ (event_of now status path ∷ [])) w
      → Outcome now status path es ([], some w)

-- On events in the order of the clock, fewer than five of them: a status that is no 5xx changes nothing; a
-- 5xx response joins the events of the last sixty seconds, silently if fewer than four of them stand there,
-- and if there are four or more with a warning that empties the window and says how many they are, how
-- often each status and each path that it names occurs among them, and three paths at most. The window
-- stays below five.
pub record_5xx-Outcome :
    (now t status : ℕ) (path : Text) (es : List Event)
    → Ordered t es
    → length es < 5
    → Outcome now status path es (record_5xx now status path es)
      × (length (record_5xx now status path es).0 < 5)
record_5xx-Outcome now t status path es o small = (outcome, below outcome)
  where
    joined : List Event
    joined = recent now es ++ (event_of now status path ∷ [])

    one_more : length joined ≡ length (recent now es) + 1
    one_more = length-append (recent now es) (event_of now status path ∷ [])

    settled : (leb 500 status && ltb status 600) ≡ true → Outcome now status path es (settle joined)
    settled f =
        unfold settle in
        if_both (Outcome now status path es) (ltb (length joined) burst_threshold) _ _
          (λ b. quiet f (ground (arith, b, one_more)))
          (λ b. burst f (ground (arith, b, one_more)) (warning_of-Reports joined))

    outcome : Outcome now status path es (record_5xx now status path es)
    outcome =
        unfold record_5xx in
        if_both (Outcome now status path es) (not (leb 500 status) || leb 600 status) _ _
          (λ b. other (ground (arith, b)))
          (λ b.
            subst
              (λ xs. Outcome now status path es (settle (xs ++ (event_of now status path ∷ []))))
              (sym (prune-recent now t es o)) (settled (ground (arith, b))))

    below : {r : List Event × Option Warning} → Outcome now status path es r → length r.0 < 5
    below (other f) = small
    below (quiet f n) = omega (arith, n, one_more)
    below (burst f n w) = omega arith
