-- ===== src/Replay/Types.antt =====
-- sse/replay_log.py: the retained frames, the state of a domain, the log and what a replay answers.
-- Times are whole clock ticks; a payload is any type, since the log never looks into one.
use oc_slimapi.Prelude.{ℕ, Bool, false, Option, none, List, [], Text, length, sum_by}

-- `FRAME_KIND_BUSINESS` and `FRAME_KIND_TOMBSTONE`.
pub data FrameKind : Type 0 where
  business tombstone : FrameKind

pub record ReplayEntry (P : Type 0) : Type 0 where
  pub domain : Text
  pub seq : ℕ
  pub payload : P
  pub kind : FrameKind
  pub appended_at : ℕ
  pub size : ℕ
  pub order : ℕ

-- The `RESYNC_…` reasons that the log layer can decide.
pub data ResyncReason : Type 0 where
  epoch_changed replay_expired replay_gap reconnect_no_replay : ResyncReason

-- `ReplayOutcome`, the union of the three result classes.
pub data ReplayOutcome (P : Type 0) : Type 0 where
  frames : List (ReplayEntry P) → ReplayOutcome P
  resync : ResyncReason → ReplayOutcome P
  ignore_reset : ℕ → ReplayOutcome P

-- `_DomainState`; the deque of entries has its head first.
pub record DomainState (P : Type 0) : Type 0 where
  pub entries : List (ReplayEntry P)
  pub next_seq : ℕ
  pub last_seq : ℕ
  pub bytes : ℕ
  pub barrier_watermark : Option ℕ
  pub invalidated : Bool

-- `_DomainState.__init__`.
abbrev pub new_domain : {P : Type 0} → DomainState P
new_domain = record {
  entries = [];
  next_seq = 1;
  last_seq = 0;
  bytes = 0;
  barrier_watermark = none;
  invalidated = false;
}

-- `ReplayLog`: its settings, the byte total, the outcome counter, the domains in creation order,
-- the append counter and the closed flag.
pub record ReplayLog (P : Type 0) : Type 0 where
  pub epoch : Text
  pub max_count : ℕ
  pub max_bytes : ℕ
  pub ttl_s : ℕ
  pub total_bytes : ℕ
  pub replay_outcomes_total : List (Text × ℕ)
  pub domains : List (Text × DomainState P)
  pub order : ℕ
  pub closed : Bool

-- The exceptions: a closed log, a bad argument, and what `size_of` itself raises.
pub data ReplayError : Type 0 where
  runtime_error value_error size_error : ReplayError

pub data Result (A : Type 0) : Type 0 where
  ok : A → Result A
  raise : ReplayError → Result A

abbrev pub size_sum : {P : Type 0} → List (ReplayEntry P) → ℕ
size_sum = sum_by (λ e. e.size)

-- `frame_count`.
abbrev pub frame_count : {P : Type 0} → List (Text × DomainState P) → ℕ
frame_count = sum_by (λ d. length d.1.entries)
