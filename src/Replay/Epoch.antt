-- ===== src/Replay/Epoch.antt =====
-- sse/replay_log.py: the epoch nonce, the domain keys and the constructor of `ReplayLog`.
use mathlib.Core.Path.{subst₂, sym}
use oc_slimapi.Prelude.{
  ℕ, zero, suc, ◌<◌, ◌≡◌, refl, Bool, true, false, ◌&&◌, ◌||◌, Option, none, some, [], ◌∷◌, ◌++◌,
  arith, inl, inr, Text, text, ltb, leb, ◌==◌, if◌then◌else◌, Bool-cases,
}
use oc_slimapi.Replay.Types.{ReplayLog, Result, ok, raise, value_error}
use oc_slimapi.Replay.Invariant.{LogOk, Stored}

-- `[0-9a-f]`.
abbrev pub is_hex : ℕ → Bool
is_hex c = (leb b'0' c && leb c b'9') || (leb b'a' c && leb c b'f')

-- The end of a `^…$` pattern under `re.match`: nothing, or one line feed.
abbrev pub at_end : Text → Bool
at_end [] = true
at_end (c ∷ []) = c == 10
at_end (c ∷ d ∷ s) = false

-- So many hexadecimal digits, and then the end.
unfoldable pub hex_run : ℕ → Text → Bool
hex_run zero s = at_end s
hex_run (suc n) [] = false
hex_run (suc n) (c ∷ s) = if is_hex c then hex_run n s else false

-- `_EPOCH_RE.match`.
abbrev pub epoch_matches : Text → Bool
epoch_matches = hex_run 16

-- `token_domain`, and `GLOBAL_DOMAIN`.
abbrev pub token_domain : Text → Text
token_domain sid = text "t:" ++ sid

abbrev pub global_domain : Text
global_domain = text "g"

-- A float argument: a number of ticks, something below zero, or a NaN or an infinity.
pub data Seconds : Type 0 where
  ticks : ℕ → Seconds
  negative not_finite : Seconds

-- `ttl_s <= 0 or not math.isfinite(ttl_s)` is refused.
unfoldable pub usable_ttl : Seconds → Option ℕ
usable_ttl (ticks zero) = none
usable_ttl (ticks (suc n)) = some (suc n)
usable_ttl negative = none
usable_ttl not_finite = none

module _ {P : Type 0} where
  abbrev pub empty_log : Text → ℕ → ℕ → ℕ → ReplayLog P
  empty_log epoch max_count max_bytes ttl = record {
    epoch = epoch;
    max_count = max_count;
    max_bytes = max_bytes;
    ttl_s = ttl;
    total_bytes = 0;
    replay_outcomes_total = [];
    domains = [];
    order = 0;
    closed = false;
  }

  -- The checks of `__init__` after the one on the epoch.
  unfoldable pub checked : Text → ℕ → ℕ → Seconds → Result (ReplayLog P)
  unfolding usable_ttl
  checked epoch max_count max_bytes ttl_s =
      if ltb max_count 1
      then raise value_error
      else if ltb max_bytes 1
      then raise value_error
      else (elim (usable_ttl ttl_s) [
        | none ↦ raise value_error
        | some ttl ↦ ok (empty_log epoch max_count max_bytes ttl)
      ])

  -- `__init__`; `nonce` is what `new_epoch` draws where no epoch is given.
  unfoldable pub init : Option Text → Text → ℕ → ℕ → Seconds → Result (ReplayLog P)
  unfolding checked hex_run
  init none nonce max_count max_bytes ttl_s = checked nonce max_count max_bytes ttl_s
  init (some epoch) nonce max_count max_bytes ttl_s =
      if epoch_matches epoch then checked epoch max_count max_bytes ttl_s else raise value_error

  checked-LogOk :
      (epoch : Text) (max_count max_bytes : ℕ) (ttl_s : Seconds) (log : ReplayLog P)
      → checked epoch max_count max_bytes ttl_s ≡ ok log
      → (log.epoch ≡ epoch)
        × (log.max_count ≡ max_count)
        × (0 < log.max_count)
        × (0 < log.max_bytes)
        × (0 < log.ttl_s)
        × (log.domains ≡ [])
        × (log.total_bytes ≡ 0)
        × (log.closed ≡ false)
  unfolding checked usable_ttl
  checked-LogOk epoch max_count max_bytes ttl_s log e = ground arith

  checked_ttl :
      (epoch : Text) (max_count max_bytes : ℕ) (ttl_s : Seconds) (log : ReplayLog P)
      → checked epoch max_count max_bytes ttl_s ≡ ok log
      → ttl_s ≡ ticks log.ttl_s
  unfolding checked usable_ttl
  checked_ttl epoch max_count max_bytes ttl_s log e = ground arith

  init-checked :
      (epoch nonce : Text) (max_count max_bytes : ℕ) (ttl_s : Seconds) (log : ReplayLog P)
      → init (some epoch) nonce max_count max_bytes ttl_s ≡ ok log
      → (epoch_matches epoch ≡ true) × (checked epoch max_count max_bytes ttl_s ≡ ok log)
  unfolding init
  init-checked epoch nonce max_count max_bytes ttl_s log e =
      elim (Bool-cases (epoch_matches epoch)) [
        | inl t ↦ (t, rw t at e)
        | inr t ↦ let f = rw t at e in absurd (cc f)
      ]

  empty-LogOk :
      (log : ReplayLog P) → 0 < log.max_count → log.domains ≡ [] → log.total_bytes ≡ 0 → LogOk log
  empty-LogOk log pos d t = record {
    positive = pos;
    stored =
        subst₂ (Stored log.max_count log.order) (sym d) (sym t)
          (record { each = tt; sums = refl; distinct = tt });
    budget = inl (omega arith);
  }

  -- What the constructor accepts is well formed and empty, has the given bounds, a positive ttl that
  -- is a number, and the given epoch, which the pattern matched.
  pub init-LogOk :
      (epoch nonce : Text) (max_count max_bytes : ℕ) (ttl_s : Seconds) (log : ReplayLog P)
      → init (some epoch) nonce max_count max_bytes ttl_s ≡ ok log
      → LogOk log
        × (log.epoch ≡ epoch)
        × (epoch_matches epoch ≡ true)
        × (0 < log.max_bytes)
        × (ttl_s ≡ ticks log.ttl_s)
        × (0 < log.ttl_s)
  init-LogOk epoch nonce max_count max_bytes ttl_s log e =
      let (m, c) = init-checked epoch nonce max_count max_bytes ttl_s log e in
      let (q, _, pos, b, t, d, z, _) = checked-LogOk epoch max_count max_bytes ttl_s log c in
      (empty-LogOk log pos d z, q, m, b, checked_ttl epoch max_count max_bytes ttl_s log c, t)
