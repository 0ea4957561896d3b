-- ===== src/Segments/Sequential/Refines.antt =====
-- `QueueSequential` keeps the promise of a work queue.
use ytarchive_raw_go.Prelude.{
  ℕ, zero, suc, ◌+◌, ◌≡◌, refl, ap, ℤ, ◌∷◌, Option, none, some, arith, if◌then◌else◌, replicate,
  map, Bool-cases, inl, inr, ltb,
}
use ytarchive_raw_go.Segments.Failed.{Pick, next_segment}
use ytarchive_raw_go.Segments.Pool.{
  Pool, PoolStep, put_back, finish, PoolReach, full, next, map-set, get_elem?-map, asked-PoolStep,
}
use ytarchive_raw_go.Segments.Sequential.{make_sequential_scheduler, next_internal}
use ytarchive_raw_go.Segments.Sequential.Safety.{
  pending, next_internal-pending, pending-requeue_failed,
}
use ytarchive_raw_go.Segments.Sequential.System.{
  Worker, asking, holding, System, give_out, Step, ask, resolve, requeue, Reach, start, later,
}

abbrev pub hand : Worker → Option ℤ
hand (holding seg fails) = some seg
hand _ = none

-- What can be seen of the queue and its workers.
abbrev pub view : System → Pool
view s = record {
  waiting = λ k. pending k s.sched;
  hands = map hand s.workers;
  resolved = s.resolved;
}

hand-give_out :
    (now : ℕ) (r : Pick)
    → hand (give_out now r) ≡ (if r.found then some (next_segment now r).seg else none)
unfolding give_out
hand-give_out now r = elim (Bool-cases r.found) [
  | inl found ↦ rw found refl
  | inr missed ↦ rw missed refl
]

-- Each step of a worker is a step of the pool.
pub Step-view : {limit : ℕ} {s t : System} → Step limit s t → PoolStep (view s) (view t)
Step-view {s} {t} (ask i now ew) =
    let r = (next_internal s.sched).0 in
    asked-PoolStep (view s) (view t) i now r (hand (give_out now r))
      (get_elem?-map hand s.workers i asking ew) (λ k. next_internal-pending k s.sched)
      (hand-give_out now r) (map-set hand s.workers i (give_out now r)) refl
Step-view {s} (resolve i seg fails ew) =
    finish i seg (get_elem?-map hand s.workers i (holding seg fails) ew) (λ k. refl)
      (map-set hand s.workers i asking) refl
Step-view {s} (requeue i now seg fails ew few) =
    put_back i seg (get_elem?-map hand s.workers i (holding seg fails) ew)
      (λ k. pending-requeue_failed k now seg (fails + 1) s.sched) (map-set hand s.workers i asking)
      refl

hands_empty : (n : ℕ) → map hand (replicate n asking) ≡ replicate n none
hands_empty zero = refl
hands_empty (suc n) = ap (◌∷◌ none) (hands_empty n)

all_waiting :
    (segments delay k : ℕ)
    → pending k (make_sequential_scheduler segments delay) ≡ (if ltb k segments then 1 else 0)
unfolding make_sequential_scheduler
all_waiting segments delay k = ground arith

-- `QueueSequential` refines the pool: what can be seen in any state that its workers reach, in any
-- order and at any times, the pool comes to as well.
pub sequential_refines :
    (segments threads : ℕ) {limit delay : ℕ} {s : System}
    → Reach limit segments threads delay s
    → PoolReach segments threads (view s)
unfolding make_sequential_scheduler
sequential_refines segments threads {delay} start =
    full (all_waiting segments delay) (hands_empty threads) refl
sequential_refines segments threads (later r st) =
    next (sequential_refines segments threads r) (Step-view st)
