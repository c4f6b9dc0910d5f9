-- ===== src/Replay/Settle.antt =====
-- Replacing one domain of the log keeps the invariant, where the domain does not grow: the common
-- part of the maintenance operations of `ReplayLog` (sse/replay_log.py).
use mathlib.Core.Path.{sym}
use oc_slimapi.Prelude.{
  ℕ, ◌+◌, ◌≤◌, ◌≡◌, refl, Bool, Option, none, some, List, arith, length, All, inl, inr, Text,
  text_dec, lookup, sum_by,
}
use oc_slimapi.Prelude.Dict.{assign}
use oc_slimapi.Prelude.Dict.Laws.{weigh, sum_by-assign, All-lookup}
use oc_slimapi.Replay.Types.{ReplayEntry, DomainState, new_domain, ReplayLog, size_sum}
use oc_slimapi.Replay.Evict.{shed}
use oc_slimapi.Replay.Write.{domain_or_new, put_domain}
use oc_slimapi.Replay.Window.{Suffix, shed-Sheds}
use oc_slimapi.Replay.Invariant.{
  DomainOk, new_domain-DomainOk, Sheds-DomainOk, assign-Stored, bytes-le-total, LogOk, WithinBudget,
  length-Suffix,
}

module _ {P : Type 0} where
  -- A state, or a fresh one.
  abbrev or_new : Option (DomainState P) → DomainState P
  or_new o = elim o [ none ↦ new_domain | some s ↦ s ]

  weigh-or_new :
      (f : DomainState P → ℕ) (o : Option (DomainState P))
      → f new_domain ≡ 0
      → weigh f o ≡ f (or_new o)
  weigh-or_new f none z = sym z
  weigh-or_new f (some s) z = refl

  or_new-All {κ} :
      (Q : DomainState P → Type κ) (o : Option (DomainState P))
      → Q new_domain
      → ((s : DomainState P) → o ≡ some s → Q s)
      → Q (or_new o)
  or_new-All Q none q h = q
  or_new-All Q (some s) q h = h s refl

  -- What holds of a fresh domain and of every domain of the log holds of the one at hand.
  pub domain_or_new-All {κ} :
      (Q : DomainState P → Type κ) (k : Text) (log : ReplayLog P)
      → Q new_domain
      → All (λ d. Q d.1) log.domains
      → Q (domain_or_new k log)
  domain_or_new-All Q k log q h =
      or_new-All Q (lookup text_dec k log.domains) q
        (λ s found. All-lookup text_dec Q k log.domains h found)

  pub domain_or_new-DomainOk :
      (k : Text) (log : ReplayLog P)
      → LogOk log
      → DomainOk log.max_count log.order (domain_or_new k log)
  domain_or_new-DomainOk k log h =
      domain_or_new-All (DomainOk log.max_count log.order) k log (new_domain-DomainOk _ _)
        h.stored.each

  pub domain_or_new-bytes :
      (k : Text) (log : ReplayLog P) → LogOk log → (domain_or_new k log).bytes ≤ log.total_bytes
  domain_or_new-bytes k log h =
      let sums = h.stored.sums in
      or_new-All (λ s. s.bytes ≤ log.total_bytes) (lookup text_dec k log.domains) (omega arith)
        (λ s found. omega (arith, bytes-le-total k log.domains found))

  pub settle :
      (k : Text) (log : ReplayLog P) (s : DomainState P) (total : ℕ)
      → LogOk log
      → DomainOk log.max_count log.order s
      → total + (domain_or_new k log).bytes ≡ log.total_bytes + s.bytes
      → total ≤ log.total_bytes
      → length s.entries ≤ length (domain_or_new k log).entries
      → LogOk (put_domain k s (record log { total_bytes = total }))
  settle k log s total h d balance le shorter =
      let o = lookup text_dec k log.domains in
      record {
        positive = h.positive;
        stored =
            assign-Stored k s log.domains log.total_bytes total h.stored (omega arith) d
              (rw (weigh-or_new (λ t. t.bytes) o refl) balance);
        budget =
            let frames =
              sum_by-assign text_dec (λ (t : DomainState P). length t.entries) k s log.domains in
            let old = weigh-or_new (λ t. length t.entries) o refl in within frames old;
      }
    where
      within :
          sum_by (λ d. length d.1.entries) (assign text_dec k s log.domains)
              + weigh (λ t. length t.entries) (lookup text_dec k log.domains)
            ≡ sum_by (λ d. length d.1.entries) log.domains + length s.entries
          → weigh (λ t. length t.entries) (lookup text_dec k log.domains)
            ≡ length (domain_or_new k log).entries
          → WithinBudget log.max_bytes (assign text_dec k s log.domains) total
      within frames old = elim h.budget [ inl b ↦ inl (omega arith) | inr b ↦ inr (omega arith) ]

  pub size_sum-Suffix : (es fs : List (ReplayEntry P)) → Suffix es fs → size_sum es ≤ size_sum fs
  size_sum-Suffix es _ Suffix.here = omega arith
  size_sum-Suffix es _ (Suffix.there {fs = fs} f s) = omega (arith, size_sum-Suffix es fs s)

  -- An eviction loop on one domain, stored back, keeps the invariant.
  pub shed-LogOk :
      (test : List (ReplayEntry P) → Bool) (k : Text) (log : ReplayLog P)
      → LogOk log
      → let a = shed test (domain_or_new k log) log.total_bytes in
        LogOk (put_domain k a.state (record log { total_bytes = a.total }))
  shed-LogOk test k log h =
      let s = domain_or_new k log in
      let d = domain_or_new-DomainOk k log h in
      let a = shed test s log.total_bytes in
      let r = shed-Sheds test s log.total_bytes d.sized (domain_or_new-bytes k log h) in
      settle k log a.state a.total h (Sheds-DomainOk d r) r.balanced
        (omega
          (arith, r.balanced, r.sized, d.sized, size_sum-Suffix a.state.entries s.entries r.suffix))
        (length-Suffix a.state.entries s.entries r.suffix)
