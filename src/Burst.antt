-- ===== src/Burst.antt =====
-- burst_watch.py: the window of recent 5xx responses and its warning.
pub mod Counts
pub mod Window
mod Tests
use oc_slimapi.Prelude.{
  ℕ, ◌+◌, Bool, true, false, ◌||◌, not, Option, none, some, List, [], ◌∷◌, ◌++◌, Text, ltb, leb,
  if◌then◌else◌, length, take, lookup, text_dec,
}
use oc_slimapi.Prelude.Dict.{assign}
use oc_slimapi.Prelude.Decimal.{decimal}
use oc_slimapi.Replay.Read.{increment}

-- One event: the clock reading, the status and the path.
pub record Event : Type 0 where
  pub ts : ℕ
  pub status : ℕ
  pub path : Text

-- What the warning reports.
pub record Warning : Type 0 where
  pub count : ℕ
  pub codes : List (Text × ℕ)
  pub paths : List (Text × ℕ)

-- `_BURST_WINDOW_S`, `_BURST_THRESHOLD` and `_TOP_PATHS`.
abbrev pub burst_window_s : ℕ
burst_window_s = 60

abbrev pub burst_threshold : ℕ
burst_threshold = 5

abbrev pub top_paths : ℕ
top_paths = 3

-- `while _events and _events[0][0] <= cutoff: _events.popleft()`.
unfoldable pub prune : ℕ → List Event → List Event
prune now [] = []
prune now (e ∷ es) =
    let rest = prune now es in if leb (e.ts + burst_window_s) now then rest else e ∷ es

-- `Counter` over the events, by a key.
unfoldable pub counter : (Event → Text) → List Event → List (Text × ℕ) → List (Text × ℕ)
unfolding increment
counter key [] c = c
counter key (e ∷ es) c = counter key es (increment (key e) c)

-- `most_common`: by falling count, equal counts in the order of the counter.
unfoldable pub insert_common : Text × ℕ → List (Text × ℕ) → List (Text × ℕ)
insert_common p [] = p ∷ []
insert_common p (q ∷ qs) =
    let rest = insert_common p qs in if leb q.1 p.1 then p ∷ q ∷ qs else q ∷ rest

unfoldable pub sort_common : List (Text × ℕ) → List (Text × ℕ)
unfolding insert_common
sort_common [] = []
sort_common (p ∷ ps) = insert_common p (sort_common ps)

abbrev pub warning_of : List Event → Warning
warning_of es = record {
  count = length es;
  codes = counter (λ e. decimal e.status) es [];
  paths = take top_paths (sort_common (counter (λ e. e.path) es []));
}

-- The end of `record_5xx`, on the events of the window.
unfoldable pub settle : List Event → List Event × Option Warning
unfolding counter sort_common decimal
settle es = if ltb (length es) burst_threshold then (es, none) else ([], some (warning_of es))

-- `record_5xx` at the clock reading `now`.
unfoldable pub record_5xx : ℕ → ℕ → Text → List Event → List Event × Option Warning
unfolding prune settle
record_5xx now status path es =
    if not (leb 500 status) || leb 600 status
    then (es, none)
    else settle (prune now es ++ (record { ts = now; status = status; path = path } ∷ []))
