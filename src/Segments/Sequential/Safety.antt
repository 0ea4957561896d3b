-- ===== src/Segments/Sequential/Safety.antt =====
-- No segment of the sequential queue is lost or handled twice.
use ytarchive_raw_go.Prelude.{
  ℕ, zero, suc, ◌+◌, ◌≤◌, ◌<◌, ◌≡◌, refl, ◌∙◌, ◌≢◌, ℤ, pos, false, List, [], ◌∷◌, ◌&&◌, some, arith,
  if◌then◌else◌, length, get_elem?, set, replicate, sum_of, sum_of-append, sum_of-set, ltb, leb,
  sum_of-eq-zero, get_elem?-lt-length, get_elem?-set_self, get_elem?-set_ne, length-set,
  length-replicate, le-sum_of,
}
use ytarchive_raw_go.Segments.Failed.{FailedSeg, Pick, next_segment, make_failed_seg}
use ytarchive_raw_go.Segments.Count.{is_seg, failed_count, picked}
use ytarchive_raw_go.Segments.Sequential.{
  SequentialScheduler, make_sequential_scheduler, take_failed, next_internal, requeue_failed,
}
use ytarchive_raw_go.Segments.Sequential.System.{
  Worker, asking, holding, finished, System, give_out, Step, ask, resolve, requeue, Reach, start,
  later,
}

-- How often segment `k` waits in the queue.
abbrev pub pending : ℕ → SequentialScheduler → ℕ
pending k s = (if leb s.next_seg k && ltb k s.max_seg then 1 else 0) + failed_count k s.failed

abbrev pub held : ℕ → Worker → ℕ
held k (holding seg fails) = is_seg k seg
held k _ = 0

abbrev pub places : ℕ → System → ℕ
places k s = pending k s.sched + sum_of (held k) s.workers + sum_of (is_seg k) s.resolved

abbrev AllFinished : System → Type 0
AllFinished s = (i : ℕ) (w : Worker) → get_elem? s.workers i ≡ some w → w ≡ finished

pub record Inv (segments : ℕ) (s : System) : Type 0 where
  pub each_once : (k : ℕ) → places k s ≡ (if ltb k segments then 1 else 0)
  -- The last worker to leave has found nothing.
  pub drained : 0 < length s.workers → AllFinished s → (k : ℕ) → pending k s.sched ≡ 0

take_failed-pending :
    (k : ℕ) (s : SequentialScheduler) (fs : List FailedSeg)
    → s.failed ≡ fs
    → pending k (take_failed s fs).1 + picked k (take_failed s fs).0 ≡ pending k s
unfolding take_failed picked
take_failed-pending k s [] e = ground arith
take_failed-pending k s (f ∷ fs) e = ground arith

-- `nextInternal` takes out one segment, or none.
pub next_internal-pending :
    (k : ℕ) (s : SequentialScheduler)
    → pending k (next_internal s).1 + picked k (next_internal s).0 ≡ pending k s
unfolding next_internal picked
next_internal-pending k s = ground (arith, take_failed-pending k s s.failed refl)

take_failed_none :
    (k : ℕ) (s : SequentialScheduler) (fs : List FailedSeg)
    → s.failed ≡ fs
    → s.max_seg ≤ s.next_seg
    → (take_failed s fs).0.found ≡ false
    → pending k (take_failed s fs).1 ≡ 0
unfolding take_failed
take_failed_none k s [] e le h = ground arith
take_failed_none k s (f ∷ fs) e le h = cc

next_internal_none :
    (k : ℕ) (s : SequentialScheduler)
    → (next_internal s).0.found ≡ false
    → pending k (next_internal s).1 ≡ 0
unfolding next_internal
next_internal_none k s h = ground (arith, take_failed_none k s s.failed refl)

held-give_out : (k now : ℕ) (p : Pick) → held k (give_out now p) ≡ picked k p
unfolding give_out picked next_segment
held-give_out k now p = ground arith

pub pending-requeue_failed :
    (k now : ℕ) (seg : ℤ) (fails : ℕ) (s : SequentialScheduler)
    → pending k (requeue_failed now seg fails s) ≡ pending k s + is_seg k seg
unfolding requeue_failed make_failed_seg
pending-requeue_failed k now seg fails s = ground (
  arith,
  sum_of-append (λ (f : FailedSeg). is_seg k f.seg) s.failed
      (make_failed_seg now seg fails s.requeue_delay ∷ []),
)

give_out-finished : (now : ℕ) (p : Pick) → give_out now p ≡ finished → p.found ≡ false
unfolding give_out
give_out-finished now p e = ground arith

-- The worker at `i` after its place was written.
written :
    (ws : List Worker) (i : ℕ) (v : Worker) {w : Worker}
    → get_elem? ws i ≡ some w
    → get_elem? (set ws i v) i ≡ some v
written ws i v e = get_elem?-set_self ws i v (get_elem?-lt-length ws i e)

Step-Inv : {segments limit : ℕ} {s t : System} → Step limit s t → Inv segments s → Inv segments t
Step-Inv {s} (ask i now ew) v = record {
  each_once = λ k. omega (
    arith,
    v.each_once k,
    next_internal-pending k s.sched,
    sum_of-set (held k) s.workers i (give_out now (next_internal s.sched).0) ew,
    held-give_out k now (next_internal s.sched).0,
  );
  drained = λ some_worker all k.
      next_internal_none k s.sched
        (give_out-finished now (next_internal s.sched).0 (all i _ (written s.workers i _ ew)));
}
Step-Inv {s} (resolve i seg fails ew) v = record {
  each_once = λ k. omega (
    arith,
    v.each_once k,
    sum_of-set (held k) s.workers i asking ew,
    sum_of-append (is_seg k) s.resolved (seg ∷ []),
  );
  drained = λ some_worker all k. absurd (cc (all i asking (written s.workers i asking ew)));
}
Step-Inv {s} (requeue i now seg fails ew few) v = record {
  each_once = λ k. omega (
    arith,
    v.each_once k,
    sum_of-set (held k) s.workers i asking ew,
    pending-requeue_failed k now seg (fails + 1) s.sched,
  );
  drained = λ some_worker all k. absurd (cc (all i asking (written s.workers i asking ew)));
}

initial-held : (k threads : ℕ) → sum_of (held k) (replicate threads asking) ≡ 0
initial-held k zero = refl
initial-held k (suc n) = omega (arith, initial-held k n)

initial_drained :
    (threads : ℕ) {P : Type 0}
    → 0 < length (replicate threads asking)
    → ((i : ℕ) (w : Worker) → get_elem? (replicate threads asking) i ≡ some w → w ≡ finished)
    → P
initial_drained zero h all = absurd (omega arith)
initial_drained (suc n) h all = absurd (cc (all 0 asking refl))

Reach-Inv :
    {limit segments threads delay : ℕ} {s : System}
    → Reach limit segments threads delay s
    → Inv segments s
unfolding make_sequential_scheduler
Reach-Inv {segments} {threads} {delay} start = record {
  each_once = λ k. ground (arith, initial-held k threads);
  drained = λ h all k. initial_drained threads h all;
}
Reach-Inv (later r st) = Step-Inv st (Reach-Inv r)

Reach-length :
    {limit segments threads delay : ℕ} {s : System}
    → Reach limit segments threads delay s
    → length s.workers ≡ threads
Reach-length {threads} start = length-replicate threads asking
Reach-length (later {s} r (ask i now ew)) = length-set s.workers i _ ∙ Reach-length r
Reach-length (later {s} r (resolve i seg fails ew)) = length-set s.workers i _ ∙ Reach-length r
Reach-length (later {s} r (requeue i now seg fails ew few)) =
    length-set s.workers i _ ∙ Reach-length r

module _ (segments threads : ℕ) {limit delay : ℕ} {s : System}
    (r : Reach limit segments threads delay s) where
  -- In every state that at least one worker of the sequential queue can reach, in any order and at
  -- any times: once each worker has left its loop, each of the segments has been handed to
  -- `Downloaded` exactly once, and no other number has.
  pub sequential_exactly_once :
      0 < threads
      → ((i : ℕ) (w : Worker) → get_elem? s.workers i ≡ some w → w ≡ finished)
      → (k : ℕ) → sum_of (is_seg k) s.resolved ≡ (if ltb k segments then 1 else 0)
  sequential_exactly_once some_worker all k = omega (
    arith,
    (Reach-Inv r).each_once k,
    (Reach-Inv r).drained (omega (arith, Reach-length r)) all k,
    sum_of-eq-zero (held k) s.workers (λ i w e. rw (all i w e)),
  )

  -- In every state that the workers of the sequential queue can reach, two workers do not hold the
  -- same segment, and a segment that is held has not been handed to `Downloaded`.
  pub sequential_one_holder :
      (i k fails : ℕ)
      → get_elem? s.workers i ≡ some (holding (pos k) fails)
      → ((j again : ℕ) → i ≢ j → get_elem? s.workers j ≢ some (holding (pos k) again))
        × (sum_of (is_seg k) s.resolved ≡ 0)
  sequential_one_holder i k fails e = (
    λ j again n f. ground (
      arith,
      (Reach-Inv r).each_once k,
      sum_of-set (held k) s.workers i asking e,
      le-sum_of (held k) (set s.workers i asking) j (get_elem?-set_ne s.workers asking n ∙ f),
    ),
    ground (arith, (Reach-Inv r).each_once k, le-sum_of (held k) s.workers i e),
  )
