-- ===== src/Flight.antt =====
-- singleflight.py, the leased profile: one upstream request for several callers, under a budget of
-- bytes. A method of the source that changes an entry takes the registry and the entry and returns
-- both; `Flight.Calls` keeps the entries as objects and composes the methods.
pub mod Calls
pub mod Events
pub mod Keeps
pub mod Convert
pub mod Methods
pub mod Stop
pub mod Ledger
pub mod Index
pub mod Moves
pub mod Admit
pub mod Reach
pub mod Shutdown
pub mod Steps
pub mod Shared
pub mod Plain
mod Tests
use oc_slimapi.Prelude.{
  pair_dec, ℕ, ◌+◌, ◌-◌, Bool, true, false, ◌&&◌, not, Option, none, some, List, [], lookup, leb,
  ltb, ◌==◌, if◌then◌else◌, ℕ_discrete,
}
use oc_slimapi.Prelude.Dict.{assign, remove}

-- Ownership states and registry layers.
pub data Ownership : Type 0 where
  in_flight grace retained_body failed : Ownership

pub data Layer : Type 0 where
  active retired : Layer

-- The shared future: `FetchFailed` is a result, a leader's cancellation cancels it.
pub data Future (V X : Type 0) : Type 0 where
  pending cancelled : Future V X
  fetched : V → Future V X
  fetch_failed : X → Future V X

-- `_Entry`; `timer` says whether a grace timer is armed.
pub record FlightEntry (K V X : Type 0) : Type 0 where
  pub key : K
  pub seq : ℕ
  pub future : Future V X
  pub caller_refs : ℕ
  pub state : Ownership
  pub layer : Layer
  pub reserve_bytes : ℕ
  pub accounted : Bool
  pub expires_at : Option ℕ
  pub timer : Bool

-- `SingleFlight` with `max_bytes`: the two layers name entries by their generation, which is what
-- the source's identity tests compare.
pub record SingleFlight (K : Type 0) : Type 0 where
  pub entries : List (K × ℕ)
  pub retired_layer : List ((K × ℕ) × ℕ)
  pub leased_bytes : ℕ
  pub flight_seq : ℕ
  pub max_bytes : ℕ
  pub grace_time : ℕ

abbrev pub leased_registry : {K : Type 0} → ℕ → ℕ → SingleFlight K
leased_registry max_bytes grace_time = record {
  entries = [];
  retired_layer = [];
  leased_bytes = 0;
  flight_seq = 0;
  max_bytes = max_bytes;
  grace_time = grace_time;
}

module _ {V X : Type 0} where
  -- `future.done()`.
  abbrev pub done : Future V X → Bool
  done pending = false
  done cancelled = true
  done (fetched v) = true
  done (fetch_failed x) = true

  -- `_fail_future`: what the future is afterwards.
  abbrev pub fail_future : Option X → Future V X → Future V X
  fail_future none pending = cancelled
  fail_future (some x) pending = fetch_failed x
  fail_future exc cancelled = cancelled
  fail_future exc (fetched v) = fetched v
  fail_future exc (fetch_failed x) = fetch_failed x

  -- `if not entry.future.done(): entry.future.set_result(result)`.
  abbrev pub set_result : V → Future V X → Future V X
  set_result v pending = fetched v
  set_result v cancelled = cancelled
  set_result v (fetched w) = fetched w
  set_result v (fetch_failed x) = fetch_failed x

-- A method's receiver and the entry it works on.
abbrev pub Touched : Type 0 → Type 0 → Type 0 → Type 0
Touched K V X = SingleFlight K × FlightEntry K V X

-- `self._entries.get(key) is entry`, for the entry of a generation.
abbrev pub is_entry : Option ℕ → ℕ → Bool
is_entry none seq = false
is_entry (some i) seq = i == seq

-- `if self._entries.get(key) is entry: del self._entries[key]`.
unfoldable pub detach_key : {K : Type 0} → Discrete K → K → ℕ → List (K × ℕ) → List (K × ℕ)
unfolding lookup remove
detach_key dec k seq d = if is_entry (lookup dec k d) seq then remove dec k d else d

module _ {K V X : Type 0} where
  -- `_refund`, whose test is the entry's `accounted`.
  abbrev pub refund_if : Bool → Touched K V X → Touched K V X
  refund_if false t = t
  refund_if true (r, e) =
      (record r { leased_bytes = r.leased_bytes - e.reserve_bytes }, record e { accounted = false })

  abbrev pub refund : Touched K V X → Touched K V X
  refund (r, e) = refund_if e.accounted (r, e)

  -- `_convert_success` after the future has its result.
  abbrev pub converted : ℕ → Ownership → Layer → Touched K V X → Touched K V X
  converted now in_flight active (r, e) =
      (r, record e { state = grace; expires_at = some (now + r.grace_time); timer = true })
  converted now in_flight retired (r, e) = (r, record e { state = retained_body })
  converted now grace l t = t
  converted now retained_body l t = t
  converted now failed l t = t

  -- The end of `_lead` when the factory returned `v`.
  abbrev pub succeed : ℕ → V → Touched K V X → Touched K V X
  succeed now v (r, e) =
      converted now e.state e.layer (r, record e { future = set_result v e.future })

  -- `_new_entry` with the leader's reference.
  abbrev pub new_flight : K → ℕ → SingleFlight K → Touched K V X
  new_flight k needed r = (
    record r { flight_seq = r.flight_seq + 1; leased_bytes = r.leased_bytes + needed },
    record {
      key = k;
      seq = r.flight_seq + 1;
      future = pending;
      caller_refs = 1;
      state = in_flight;
      layer = active;
      reserve_bytes = needed;
      accounted = true;
      expires_at = none;
      timer = false;
    },
  )

module _ {K V X : Type 0} (dec : Discrete K) where
  -- `_detach_from_active`.
  abbrev pub detach_from_active : FlightEntry K V X → SingleFlight K → SingleFlight K
  detach_from_active e r = record r { entries = detach_key dec e.key e.seq r.entries }

  -- `self._retired[(entry.key, entry.seq)] = entry`.
  abbrev pub put_retired : FlightEntry K V X → SingleFlight K → SingleFlight K
  put_retired e r = record r {
    retired_layer = assign (pair_dec dec ℕ_discrete) (e.key, e.seq) e.seq r.retired_layer;
  }

  -- `_reap`.
  abbrev pub reap : Touched K V X → Touched K V X
  reap (r, e) =
      let t : Touched K V X = refund (r, e) in
      (
        record (t.0) {
          retired_layer = remove (pair_dec dec ℕ_discrete) (e.key, e.seq) t.0.retired_layer;
          entries = detach_key dec e.key e.seq t.0.entries;
        },
        t.1,
      )

  -- The fate of an entry whose last caller has gone, by its state.
  abbrev pub last_released : Ownership → Touched K V X → Touched K V X
  last_released in_flight t = t
  last_released grace t = t
  last_released retained_body t = reap t
  last_released failed t = reap t

  -- `_release_caller`.
  abbrev pub release_caller : Touched K V X → Touched K V X
  release_caller (r, e) =
      let e' : FlightEntry K V X = record e { caller_refs = e.caller_refs - 1 } in
      if e'.caller_refs == 0 then last_released e'.state (r, e') else (r, e')

  -- `if entry.caller_refs == 0: self._reap(entry)`.
  abbrev pub reap_childless : Touched K V X → Touched K V X
  reap_childless (r, e) = if e.caller_refs == 0 then reap (r, e) else (r, e)

  -- `_drop_grace`.
  abbrev pub drop_grace : Touched K V X → Touched K V X
  drop_grace (r, e) =
      let e' : FlightEntry K V X = record e { layer = retired; state = retained_body } in
      reap_childless (put_retired e' (detach_from_active e r), e')

  -- `_expire_grace`, whose tests are the entry's state and layer.
  abbrev pub expire_grace_in : Ownership → Layer → Touched K V X → Touched K V X
  expire_grace_in grace active (r, e) = drop_grace (r, record e { timer = false })
  expire_grace_in grace retired t = t
  expire_grace_in in_flight l t = t
  expire_grace_in retained_body l t = t
  expire_grace_in failed l t = t

  abbrev pub expire_grace : Touched K V X → Touched K V X
  expire_grace (r, e) = expire_grace_in e.state e.layer (r, e)

  -- `_expire_grace_entry`: the timer's callback for the entry, which may be stale.
  unfoldable pub expire_grace_entry : Touched K V X → Touched K V X
  unfolding lookup remove detach_key assign
  expire_grace_entry (r, e) =
      if is_entry (lookup dec e.key r.entries) e.seq then expire_grace (r, e) else (r, e)

  -- `_fail` after the leader's reference is released.
  abbrev pub fail_released : Option X → Touched K V X → Touched K V X
  fail_released exc (r, e) =
      let e' : FlightEntry K V X = record e { layer = retired; state = failed } in
      let u : Touched K V X = refund (put_retired e' (detach_from_active e r), e') in
      reap_childless (u.0, record (u.1) { future = fail_future exc e'.future })

  -- `_fail`: the leader was cancelled, or the factory raised `exc`.
  unfoldable pub fail : Option X → Touched K V X → Touched K V X
  unfolding lookup remove detach_key assign
  fail exc t = fail_released exc (release_caller t)

  -- What `shutdown` does to an entry of the active layer, by its state.
  abbrev pub stopped : Ownership → Touched K V X → Touched K V X
  stopped in_flight t = t
  stopped grace (r, e) = reap_childless (r, record e { state = retained_body })
  stopped retained_body t = t
  stopped failed t = t

  -- One round of `shutdown`, after `del self._entries[key]`.
  unfoldable pub shutdown_entry : Touched K V X → Touched K V X
  unfolding lookup remove detach_key assign
  shutdown_entry (r, e) =
      let e' : FlightEntry K V X = record e { timer = false; layer = retired } in
      stopped e.state (put_retired e' r, e')
