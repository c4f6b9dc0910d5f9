-- ===== src/Replay/Heads.antt =====
-- sse/replay_log.py: dropping the head of a domain, in _evict_for_bytes.
use mathlib.Core.Path.{subst, sym}
use oc_slimapi.Prelude.{
  ℕ, ◌+◌, ◌-◌, ◌<◌, ◌≡◌, refl, ◌∙◌, none, some, List, [], ◌∷◌, arith, length, last?, All, Text,
  text_dec, lookup,
}
use oc_slimapi.Prelude.Dict.{assign, remove}
use oc_slimapi.Prelude.Dict.Keys.{remove-assign_self, remove-assign_ne, All-remove}
use oc_slimapi.Prelude.Dict.Laws.{
  sum_by-assign, sum_by-remove, All-assign, All-lookup, lookup-assign_self, lookup-assign_ne,
  lookup-remove_ne,
}
use oc_slimapi.Replay.Types.{ReplayEntry, DomainState, frame_count}
use oc_slimapi.Replay.Evict.{drop_head, drop_head_of}
use oc_slimapi.Replay.Window.{Suffix}
use oc_slimapi.Replay.Invariant.{DomainOk, Sheds-DomainOk, Stored, assign-Stored, bytes-le-total}
use oc_slimapi.Replay.Victim.{HeadAbove, HeadsAbove}

module _ {P : Type 0} where
  abbrev pub Older : ℕ → List (ReplayEntry P) → Type 0
  Older n = All (λ x. x.order < n)

  -- The domain `k` ends with the frame `e`, and every frame of another domain is older.
  pub record Newest (k : Text) (e : ReplayEntry P) (ds : List (Text × DomainState P)) : Type 0 where
    pub state : DomainState P
    pub found : lookup text_dec k ds ≡ some state
    pub ends : last? state.entries ≡ some e
    pub tip : state.last_seq ≡ e.seq
    pub older : All (λ d. All (λ x. x.order < e.order) d.1.entries) (remove text_dec k ds)

  pub drop_head-DomainOk :
      {m o : ℕ} (s : DomainState P) (e : ReplayEntry P) (es : List (ReplayEntry P))
      → s.entries ≡ e ∷ es
      → DomainOk m o s
      → DomainOk m o (drop_head e es s)
  drop_head-DomainOk s e es q d =
      Sheds-DomainOk {total = s.bytes} {n = 0} {s = s}
        {a = record { state = drop_head e es s; total = s.bytes - e.size; evicted = 1 }} d
        (record {
          suffix = rw q (Suffix.there e Suffix.here);
          same_next = refl;
          same_last = refl;
          same_barrier = refl;
          same_flag = refl;
          sized = let b = d.sized in let b' = rw q at b in omega arith;
          balanced = let b = d.sized in let b' = rw q at b in omega arith;
          counted = rw q (omega arith);
        })

  pub drop_head_of_absent :
      (k : Text) (ds : List (Text × DomainState P)) (total : ℕ)
      → lookup text_dec k ds ≡ none
      → drop_head_of k ds total ≡ (ds, total)
  unfolding drop_head_of
  drop_head_of_absent k ds total found = ground arith

  pub drop_head_of_empty :
      (k : Text) (ds : List (Text × DomainState P)) (s : DomainState P) (total : ℕ)
      → lookup text_dec k ds ≡ some s
      → s.entries ≡ []
      → drop_head_of k ds total ≡ (ds, total)
  unfolding drop_head_of
  drop_head_of_empty k ds s total found q = ground arith

  -- One round of the loop: the victim loses its head.
  module _ (v : Text × ℕ) (ds : List (Text × DomainState P)) (s : DomainState P) (e : ReplayEntry P)
      (es : List (ReplayEntry P)) (found : lookup text_dec v.0 ds ≡ some s)
      (q : s.entries ≡ e ∷ es) where
    pub drop_head_of_lem :
        (total : ℕ)
        → drop_head_of v.0 ds total ≡ (assign text_dec v.0 (drop_head e es s) ds, total - e.size)
    unfolding drop_head_of
    drop_head_of_lem total = ground arith

    pub drop-Stored :
        {m o total : ℕ}
        → Stored m o ds total
        → Stored m o (assign text_dec v.0 (drop_head e es s) ds) (total - e.size)
    drop-Stored {m} {o} {total} h =
        let d = All-lookup text_dec (DomainOk m o) v.0 ds h.each found in
        let b = d.sized in
        let b' = rw q at b in
        assign-Stored v.0 (drop_head e es s) ds total (total - e.size) h (omega arith)
          (drop_head-DomainOk s e es q d)
          (rw found (omega (arith, bytes-le-total v.0 ds found, h.sums)))

    pub drop-frame_count :
        frame_count (assign text_dec v.0 (drop_head e es s) ds) + 1 ≡ frame_count ds
    drop-frame_count =
        let c =
          sum_by-assign text_dec (λ (t : DomainState P). length t.entries) v.0 (drop_head e es s)
            ds in
        let c' = rw (found, q) at c in omega arith

  -- Frames older than `n` whose heads are not: there are none.
  pub no_frames :
      (n : ℕ) (ds : List (Text × DomainState P))
      → All (λ d. All (λ x. x.order < n) d.1.entries) ds
      → HeadsAbove n ds
      → frame_count ds ≡ 0
  no_frames n [] h k = refl
  no_frames n (d ∷ ds) h k = omega (arith, no_frames n ds h.1 k.1, empty d.1.entries h.0 k.0)
    where
      empty :
          (es : List (ReplayEntry P)) → All (λ x. x.order < n) es → HeadAbove n es → length es ≡ 0
      empty [] h k = refl
      empty (e ∷ es) h k = absurd (omega arith)

  -- A round that leaves two frames at least before it does not drop the newest one.
  pub drop-Newest :
      (k : Text) (new : ReplayEntry P) (v : Text × ℕ) (ds : List (Text × DomainState P))
      (s : DomainState P) (e : ReplayEntry P) (es : List (ReplayEntry P))
      → lookup text_dec v.0 ds ≡ some s
      → s.entries ≡ e ∷ es
      → e.order ≡ v.1
      → HeadsAbove v.1 ds
      → 1 < frame_count ds
      → Newest k new ds
      → Newest k new (assign text_dec v.0 (drop_head e es s) ds)
  drop-Newest k new v ds s e es found q ord above many w = elim (text_dec v.0 k) [
    | no n ↦ record {
      state = w.state;
      found = lookup-assign_ne text_dec k v.0 (drop_head e es s) ds (λ p. n (sym p)) ∙ w.found;
      ends = w.ends;
      tip = w.tip;
      older = rw (remove-assign_ne text_dec v.0 k (drop_head e es s) ds n) (
          All-assign text_dec (λ t. All (λ x. x.order < new.order) t.entries) v.0 (drop_head e es s)
            (remove text_dec k ds)
            (let o =
                All-lookup text_dec (λ t. All (λ x. x.order < new.order) t.entries) v.0
                  (remove text_dec k ds) w.older (lookup-remove_ne text_dec v.0 k ds n ∙ found) in
              let o' = rw q at o in o'.1)
            w.older);
    }
    | yes p ↦ at_newest p es q
  ]
    where
      same : v.0 ≡ k → w.state ≡ s
      same p = let f = w.found in cc

      at_newest :
          v.0 ≡ k
          → (es : List (ReplayEntry P)) → s.entries ≡ e ∷ es
          → Newest k new (assign text_dec v.0 (drop_head e es s) ds)
      at_newest p [] q =
          let only = w.ends in
          let only' = rw (same p, q) at only in
          let o : e.order ≡ new.order = cc only' in
          let none_left = no_frames new.order (remove text_dec k ds) w.older (
            All-remove text_dec (λ d. HeadAbove new.order d.1.entries) k ds
              (subst (λ n. HeadsAbove n ds) (sym ord ∙ o) above)) in
          let sum = sum_by-remove text_dec (λ (t : DomainState P). length t.entries) k ds in
          let sum' = rw (w.found, same p, q) at sum in absurd (omega arith)
      at_newest p (x ∷ xs) q =
          let last = w.ends in
          record {
            state = drop_head e (x ∷ xs) s;
            found = rw p (lookup-assign_self text_dec k (drop_head e (x ∷ xs) s) ds);
            ends = rw (same p, q) at last;
            tip = let t = w.tip in rw (same p) at t;
            older = rw p (rw (remove-assign_self text_dec k) w.older);
          }
