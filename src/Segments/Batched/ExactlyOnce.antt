-- ===== src/Segments/Batched/ExactlyOnce.antt =====
-- No segment is lost or handled twice, whatever the order in which the workers run.
use ytarchive_raw_go.Prelude.{
  ℕ, zero, suc, ◌+◌, ◌≡◌, refl, sym, subst, ◌∙◌, ◌≢◌, ℤ, false, List, [], ◌∷◌, some, arith,
  if◌then◌else◌, length, get_elem?, set, replicate, sum_of, sum_of-append, sum_of-set, length-set,
  length-replicate, get_elem?-set_cases, inl, inr, ltb, Bool-cases,
}
use ytarchive_raw_go.Segments.Failed.{Pick, next_segment}
use ytarchive_raw_go.Segments.Count.{is_seg, picked}
use ytarchive_raw_go.Segments.Batched.{BatchRange, try_get_next, try_steal, requeue_failed}
use ytarchive_raw_go.Segments.Batched.Conserve.{
  pending, IsValid, IsEmpty, take_next, take_stolen, next-IsValid, steal-IsValid, drained_next,
  steal-IsEmpty, next-IsEmpty, pending-requeue_failed,
}
use ytarchive_raw_go.Segments.Batched.Partition.{IsPartition, IsValid-AllValid}
use ytarchive_raw_go.Segments.Batched.System.{
  Worker, asking, scanning, holding, finished, System, give_out, asked, Step, ask, skip_own, steal,
  leave, resolve, requeue, initial, Reach, start, later,
}

-- How often a worker holds segment `k`.
abbrev pub held : ℕ → Worker → ℕ
held k (holding seg fails) = is_seg k seg
held k _ = 0

-- The worker has found its own batch empty since it last asked.
abbrev HasDrained : Worker → Type 0
HasDrained asking = ⊥
HasDrained (holding seg fails) = ⊥
HasDrained _ = Unit {0}

-- Where the segment `k` is: in a batch, with a worker, or resolved.
abbrev pub places : ℕ → System → ℕ
places k s = sum_of (pending k) s.batches + sum_of (held k) s.workers + sum_of (is_seg k) s.resolved

pub record Inv (segments : ℕ) (s : System) : Type 0 where
  pub one_each : length s.batches ≡ length s.workers
  pub each_once : (k : ℕ) → places k s ≡ (if ltb k segments then 1 else 0)
  pub valid : (i : ℕ) (b : BatchRange) → get_elem? s.batches i ≡ some b → IsValid b
  pub drained :
      (i : ℕ) (w : Worker) (b : BatchRange)
      → get_elem? s.workers i ≡ some w
      → HasDrained w
      → get_elem? s.batches i ≡ some b
      → IsEmpty b

held-give_out :
    (k now : ℕ) (p : Pick) (next : Worker)
    → held k next ≡ 0
    → held k (give_out now p next) ≡ picked k p
unfolding give_out picked next_segment
held-give_out k now p next e = ground arith

asked-places :
    (k i j now : ℕ) (s : System) (w : Worker) (b : BatchRange) (r : Pick × BatchRange)
    (next : Worker)
    → get_elem? s.workers i ≡ some w
    → get_elem? s.batches j ≡ some b
    → held k w ≡ 0
    → held k next ≡ 0
    → pending k r.1 + picked k r.0 ≡ pending k b
    → places k (asked s i j now r next) ≡ places k s
asked-places k i j now s w b r next ew eb hw hn e = omega (
  arith,
  e,
  sum_of-set (pending k) s.batches j r.1 eb,
  sum_of-set (held k) s.workers i (give_out now r.0 next) ew,
  held-give_out k now r.0 next hn,
)

asked-length :
    (i j now : ℕ) (s : System) (r : Pick × BatchRange) (next : Worker)
    → length s.batches ≡ length s.workers
    → length (asked s i j now r next).batches ≡ length (asked s i j now r next).workers
asked-length i j now s r next e =
    length-set s.batches j r.1 ∙ e ∙ sym (length-set s.workers i (give_out now r.0 next))

set-IsValid :
    (bs : List BatchRange) (j : ℕ) (b' : BatchRange)
    → ((i : ℕ) (b : BatchRange) → get_elem? bs i ≡ some b → IsValid b)
    → IsValid b'
    → (k : ℕ) (b : BatchRange) → get_elem? (set bs j b') k ≡ some b
    → IsValid b
set-IsValid bs j b' v v' k b e = elim (get_elem?-set_cases bs k j b' e) [
  | inl (here, same) ↦ subst IsValid same v'
  | inr (away, old) ↦ v k b old
]

-- What the invariant says of `drained`, alone.
abbrev Drained : System → Type 0
Drained s =
    (i : ℕ) (w : Worker) (b : BatchRange)
    → get_elem? s.workers i ≡ some w
    → HasDrained w
    → get_elem? s.batches i ≡ some b
    → IsEmpty b

give_out-HasDrained :
    (now : ℕ) (p : Pick) (next : Worker) → HasDrained (give_out now p next) → p.found ≡ false
unfolding give_out
give_out-HasDrained now p next h = elim (Bool-cases p.found) [
  | inl found ↦ absurd (rw (found, give_out) at h)
  | inr missed ↦ missed
]

-- The other workers' batches stay empty where they were, and the asker's is empty if it now scans.
asked-Drained :
    (i j now : ℕ) (s : System) (b : BatchRange) (r : Pick × BatchRange) (next : Worker)
    → get_elem? s.batches j ≡ some b
    → Drained s
    → (IsEmpty b → IsEmpty r.1)
    → (r.0.found ≡ false
        → (c : BatchRange) → get_elem? (set s.batches j r.1) i ≡ some c
        → IsEmpty c)
    → Drained (asked s i j now r next)
asked-Drained i j now s b r next eb d keep own k w c ew hw ec =
    elim (get_elem?-set_cases s.workers k i _ ew) [
      | inl (here, same) ↦
          own (give_out-HasDrained now r.0 next (subst HasDrained (sym same) hw)) c
            (subst (λ x. get_elem? (set s.batches j r.1) x ≡ some c) here ec)
      | inr (away, old) ↦ elim (get_elem?-set_cases s.batches k j r.1 ec) [
        | inl (at, fresh) ↦
            subst IsEmpty fresh
              (keep (d k w b old hw (subst (λ x. get_elem? s.batches x ≡ some b) (sym at) eb)))
        | inr (off, before) ↦ d k w c old hw before
      ]
    ]

-- A worker that has asked again knows nothing of its batch; the batches may have changed at `i` only.
asking-Drained :
    (i : ℕ) (s : System) (bs : List BatchRange)
    → ((k : ℕ) (c : BatchRange) → k ≢ i → get_elem? bs k ≡ some c → get_elem? s.batches k ≡ some c)
    → Drained s
    → (k : ℕ) (w : Worker) (c : BatchRange) → get_elem? (set s.workers i asking) k ≡ some w
    → HasDrained w
    → get_elem? bs k ≡ some c
    → IsEmpty c
asking-Drained i s bs same d k w c ew hw ec = elim (get_elem?-set_cases s.workers k i asking ew) [
  | inl (here, e) ↦ absurd (subst HasDrained (sym e) hw)
  | inr (away, old) ↦ d k w c old hw (same k c away ec)
]

-- A worker that goes on from where its batch was empty.
moved-Drained :
    (i : ℕ) (s : System) (v v' : Worker)
    → get_elem? s.workers i ≡ some v
    → HasDrained v
    → Drained s
    → Drained (record s { workers = set s.workers i v' })
moved-Drained i s v v' ev hv d k w c ew hw ec = elim (get_elem?-set_cases s.workers k i v' ew) [
  | inl (here, e) ↦ d k v c (subst (λ x. get_elem? s.workers x ≡ some v) (sym here) ev) hv ec
  | inr (away, old) ↦ d k w c old hw ec
]

set_only :
    (bs : List BatchRange) (i : ℕ) (b c : BatchRange) → get_elem? (set bs i b) i ≡ some c → b ≡ c
set_only bs i b c e = elim (get_elem?-set_cases bs i i b e) [
  | inl (here, same) ↦ same
  | inr (away, old) ↦ absurd (away refl)
]

set_other :
    (bs : List BatchRange) (i : ℕ) (b : BatchRange) (k : ℕ) (c : BatchRange)
    → k ≢ i
    → get_elem? (set bs i b) k ≡ some c
    → get_elem? bs k ≡ some c
set_other bs i b k c n e = elim (get_elem?-set_cases bs k i b e) [
  | inl (here, same) ↦ absurd (n here)
  | inr (away, old) ↦ old
]

requeued-IsValid :
    (now delay : ℕ) (seg : ℤ) (fails : ℕ) (b : BatchRange)
    → IsValid b
    → IsValid (requeue_failed now delay seg fails b)
unfolding requeue_failed
requeued-IsValid now delay seg fails b v = v

-- Every step of every worker keeps the invariant.
Step-Inv :
    {segments delay limit : ℕ} {s t : System}
    → Step delay limit s t
    → Inv segments s
    → Inv segments t
Step-Inv {s} (ask i now {b} ew eb) v = record {
  one_each = asked-length i i now s (try_get_next now b) (scanning 0) v.one_each;
  each_once = λ k.
      asked-places k i i now s asking b (try_get_next now b) (scanning 0) ew eb refl refl
        (take_next k now b (v.valid i b eb))
      ∙ v.each_once k;
  valid = set-IsValid s.batches i _ v.valid (next-IsValid now b (v.valid i b eb));
  drained =
      asked-Drained i i now s b _ (scanning 0) eb v.drained (next-IsEmpty now b)
        λ missed c e. subst IsEmpty (set_only s.batches i _ c e) (drained_next now b missed);
}
Step-Inv {s} (skip_own i ew) v = record {
  one_each = v.one_each ∙ sym (length-set s.workers i (scanning (suc i)));
  each_once =
      λ k. omega (arith, v.each_once k, sum_of-set (held k) s.workers i (scanning (suc i)) ew);
  valid = v.valid;
  drained = moved-Drained i s (scanning i) (scanning (suc i)) ew tt v.drained;
}
Step-Inv {s} (steal i j now {b} ew n eb) v = record {
  one_each = asked-length i j now s (try_steal now b) (scanning (suc j)) v.one_each;
  each_once = λ k.
      asked-places k i j now s (scanning j) b (try_steal now b) (scanning (suc j)) ew eb refl refl
        (take_stolen k now b (v.valid j b eb))
      ∙ v.each_once k;
  valid = set-IsValid s.batches j _ v.valid (steal-IsValid now b (v.valid j b eb));
  drained =
      asked-Drained i j now s b _ (scanning (suc j)) eb v.drained (steal-IsEmpty now b)
        λ missed c e.
          v.drained i (scanning j) c ew tt (set_other s.batches j _ i c (λ p. n (sym p)) e);
}
Step-Inv {s} (leave i j ew past) v = record {
  one_each = v.one_each ∙ sym (length-set s.workers i finished);
  each_once = λ k. omega (arith, v.each_once k, sum_of-set (held k) s.workers i finished ew);
  valid = v.valid;
  drained = moved-Drained i s (scanning j) finished ew tt v.drained;
}
Step-Inv {s} (resolve i seg fails ew) v = record {
  one_each = v.one_each ∙ sym (length-set s.workers i asking);
  each_once = λ k. omega (
    arith,
    v.each_once k,
    sum_of-set (held k) s.workers i asking ew,
    sum_of-append (is_seg k) s.resolved (seg ∷ []),
  );
  valid = v.valid;
  drained = asking-Drained i s s.batches (λ k c n e. e) v.drained;
}
Step-Inv {delay} {s} (requeue i now seg fails {b} ew few eb) v = record {
  one_each = length-set s.batches i _ ∙ v.one_each ∙ sym (length-set s.workers i asking);
  each_once = λ k. omega (
    arith,
    v.each_once k,
    sum_of-set (held k) s.workers i asking ew,
    sum_of-set (pending k) s.batches i (requeue_failed now delay seg (fails + 1) b) eb,
    pending-requeue_failed k now delay seg (fails + 1) b,
  );
  valid =
      set-IsValid s.batches i _ v.valid
        (requeued-IsValid now delay seg (fails + 1) b (v.valid i b eb));
  drained = asking-Drained i s _ (set_other s.batches i _) v.drained;
}

initial-held : (k threads : ℕ) → sum_of (held k) (replicate threads asking) ≡ 0
initial-held k zero = refl
initial-held k (suc n) = omega (arith, initial-held k n)

initial-asking :
    (threads i : ℕ) {w : Worker} → get_elem? (replicate threads asking) i ≡ some w → ¬ HasDrained w
initial-asking zero i e = cc
initial-asking (suc n) zero {w} e = subst (λ x. ¬ HasDrained x) {x = asking} {y = w} (cc) (λ h. h)
initial-asking (suc n) (suc i) e = initial-asking n i e

initial-Inv :
    (segments threads : ℕ) (bs : List BatchRange)
    → IsPartition segments threads bs
    → Inv segments (initial threads bs)
initial-Inv segments threads bs p = record {
  one_each = p.one_each ∙ sym (length-replicate threads asking);
  each_once = λ k. omega (arith, p.each_once k, initial-held k threads);
  valid = λ i b e. IsValid-AllValid bs i p.valid e;
  drained = λ i w b ew hw eb. absurd (initial-asking threads i ew hw);
}

pub Reach-Inv :
    {segments delay limit threads : ℕ} {bs : List BatchRange} {s : System}
    → IsPartition segments threads bs
    → Reach delay limit threads bs s
    → Inv segments s
Reach-Inv {segments} {threads} {bs} p start = initial-Inv segments threads bs p
Reach-Inv p (later r st) = Step-Inv st (Reach-Inv p r)
