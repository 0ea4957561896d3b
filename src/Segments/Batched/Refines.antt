-- ===== src/Segments/Batched/Refines.antt =====
-- `QueueOutOfOrder` keeps the promise of a work queue.
use ytarchive_raw_go.Prelude.{
  ℕ, zero, suc, ◌+◌, ◌<◌, ◌≡◌, refl, ap, ◌∙◌, ℤ, List, ◌∷◌, Option, none, some, arith,
  if◌then◌else◌, get_elem?, replicate, map, sum_of, sum_of-set, Bool-cases, inl, inr,
}
use ytarchive_raw_go.Segments.Failed.{Pick, next_segment}
use ytarchive_raw_go.Segments.Count.{picked}
use ytarchive_raw_go.Segments.Pool.{
  Pool, PoolStep, idle, put_back, finish, PoolReach, full, next, map-set, get_elem?-map,
  still_empty, asked-PoolStep,
}
use ytarchive_raw_go.Segments.Batched.{
  BatchRange, make_batched_scheduler, try_get_next, try_steal, requeue_failed,
}
use ytarchive_raw_go.Segments.Batched.Conserve.{
  pending, take_next, take_stolen, pending-requeue_failed,
}
use ytarchive_raw_go.Segments.Batched.Partition.{IsPartition}
use ytarchive_raw_go.Segments.Batched.Safety.{split_evenly}
use ytarchive_raw_go.Segments.Batched.ExactlyOnce.{Inv, Reach-Inv}
use ytarchive_raw_go.Segments.Batched.System.{
  Worker, asking, scanning, holding, finished, System, give_out, asked, Step, ask, skip_own, steal,
  leave, resolve, requeue, Reach, start, later,
}

abbrev pub hand : Worker → Option ℤ
hand (holding seg fails) = some seg
hand _ = none

-- What can be seen of the queue and its workers.
abbrev pub view : System → Pool
view s = record {
  waiting = λ k. sum_of (pending k) s.batches;
  hands = map hand s.workers;
  resolved = s.resolved;
}

hand-give_out :
    (now : ℕ) (r : Pick) (later_on : Worker)
    → hand later_on ≡ none
    → hand (give_out now r later_on) ≡ (if r.found then some (next_segment now r).seg else none)
unfolding give_out
hand-give_out now r later_on e = elim (Bool-cases r.found) [
  | inl found ↦ rw found refl
  | inr missed ↦ rw missed e
]

asked-view :
    (s : System) (i j now : ℕ) (w : Worker) (b : BatchRange) (r : Pick × BatchRange)
    (later_on : Worker)
    → get_elem? s.workers i ≡ some w
    → get_elem? s.batches j ≡ some b
    → hand w ≡ none
    → hand later_on ≡ none
    → ((k : ℕ) → pending k r.1 + picked k r.0 ≡ pending k b)
    → PoolStep (view s) (view (asked s i j now r later_on))
asked-view s i j now w b r later_on ew eb hw hl counts =
    asked-PoolStep (view s) (view (asked s i j now r later_on)) i now r.0
      (hand (give_out now r.0 later_on)) (get_elem?-map hand s.workers i w ew ∙ ap some hw)
      (λ k. omega (arith, counts k, sum_of-set (pending k) s.batches j r.1 eb))
      (hand-give_out now r.0 later_on hl) (map-set hand s.workers i (give_out now r.0 later_on))
      refl

-- Each step of a worker is a step of the pool.
pub Step-view :
    {segments delay limit : ℕ} {s t : System}
    → Inv segments s
    → Step delay limit s t
    → PoolStep (view s) (view t)
Step-view {s} v (ask i now {b} ew eb) =
    asked-view s i i now asking b (try_get_next now b) (scanning 0) ew eb refl refl
      (λ k. take_next k now b (v.valid i b eb))
Step-view {s} v (skip_own i ew) =
    idle (λ k. refl) (still_empty hand s.workers i (scanning i) (scanning (suc i)) ew refl refl)
      refl
Step-view {s} v (steal i j now {b} ew n eb) =
    asked-view s i j now (scanning j) b (try_steal now b) (scanning (suc j)) ew eb refl refl
      (λ k. take_stolen k now b (v.valid j b eb))
Step-view {s} v (leave i j ew past) =
    idle (λ k. refl) (still_empty hand s.workers i (scanning j) finished ew refl refl) refl
Step-view {s} v (resolve i seg fails ew) =
    finish i seg (get_elem?-map hand s.workers i (holding seg fails) ew) (λ k. refl)
      (map-set hand s.workers i asking) refl
Step-view {delay} {s} v (requeue i now seg fails {b} ew few eb) =
    put_back i seg (get_elem?-map hand s.workers i (holding seg fails) ew)
      (λ k. omega (
        arith,
        sum_of-set (pending k) s.batches i (requeue_failed now delay seg (fails + 1) b) eb,
        pending-requeue_failed k now delay seg (fails + 1) b,
      ))
      (map-set hand s.workers i asking) refl

hands_empty : (n : ℕ) → map hand (replicate n asking) ≡ replicate n none
hands_empty zero = refl
hands_empty (suc n) = ap (◌∷◌ none) (hands_empty n)

-- `QueueOutOfOrder` refines the pool: what can be seen in any state that its workers reach from the
-- batches of `makeBatchedScheduler`, in any order and at any times, the pool comes to as well.
pub batched_refines :
    (segments threads : ℕ) {delay limit : ℕ} {bs : List BatchRange} {s : System}
    → 0 < threads
    → make_batched_scheduler segments threads ≡ some bs
    → Reach delay limit threads bs s
    → PoolReach segments threads (view s)
batched_refines segments threads h made r = reached (split_evenly segments threads _ h made) r
  where
    reached :
        {delay limit : ℕ} {bs : List BatchRange} {s : System}
        → IsPartition segments threads bs
        → Reach delay limit threads bs s
        → PoolReach segments threads (view s)
    reached p start = full p.each_once (hands_empty threads) refl
    reached p (later r st) = next (reached p r) (Step-view (Reach-Inv p r) st)
