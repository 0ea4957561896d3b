-- ===== src/Segments/Batched/System.antt =====
-- The workers of `QueueOutOfOrder`, interleaved: each step holds one lock of
-- download/segments/work_queue.go, and any worker may take the next step, at any time of the clock.
use ytarchive_raw_go.Prelude.{
  ℕ, suc, ◌+◌, ◌≤◌, ◌<◌, ◌≡◌, ◌≢◌, ℤ, List, [], ◌∷◌, ◌++◌, some, if◌then◌else◌, length, get_elem?,
  set, replicate,
}
use ytarchive_raw_go.Segments.Failed.{Pick, next_segment}
use ytarchive_raw_go.Segments.Batched.{BatchRange, try_get_next, try_steal, requeue_failed}

-- Where a worker stands: before `tryGetNext`, at an index of the loop of `nextInternal`, with a
-- segment from `NextSegment` and how often it was requeued, or past its loop.
pub data Worker : Type 0 where
  asking : Worker
  scanning : (j : ℕ) → Worker
  holding : (seg : ℤ) (fails : ℕ) → Worker
  finished : Worker

-- `resolved` lists the calls of `SegmentStatus.Downloaded`, in order.
pub record System : Type 0 where
  pub batches : List BatchRange
  pub workers : List Worker
  pub resolved : List ℤ

-- `NextSegment` on the answer of a part of `nextInternal`; `next` if there was no segment.
unfoldable pub give_out : ℕ → Pick → Worker → Worker
give_out now p next =
    if p.found then holding (next_segment now p).seg (next_segment now p).fails else next

-- Worker `i` has asked batch `j`.
abbrev pub asked : System → ℕ → ℕ → ℕ → Pick × BatchRange → Worker → System
asked s i j now r next = record s {
  batches = set s.batches j r.1;
  workers = set s.workers i (give_out now r.0 next);
}

-- A step with a requeue delay, and a limit on requeues (`requeues < task.RequeueFailed`).
pub data Step (delay limit : ℕ) (s : System) : System → Type 0 where
  ask :
      (i now : ℕ) {b : BatchRange}
      → get_elem? s.workers i ≡ some asking
      → get_elem? s.batches i ≡ some b
      → Step delay limit s (asked s i i now (try_get_next now b) (scanning 0))
  skip_own :
      (i : ℕ)
      → get_elem? s.workers i ≡ some (scanning i)
      → Step delay limit s (record s { workers = set s.workers i (scanning (suc i)) })
  steal :
      (i j now : ℕ) {b : BatchRange}
      → get_elem? s.workers i ≡ some (scanning j)
      → j ≢ i
      → get_elem? s.batches j ≡ some b
      → Step delay limit s (asked s i j now (try_steal now b) (scanning (suc j)))
  leave :
      (i j : ℕ)
      → get_elem? s.workers i ≡ some (scanning j)
      → length s.batches ≤ j
      → Step delay limit s (record s { workers = set s.workers i finished })
  resolve :
      (i : ℕ) (seg : ℤ) (fails : ℕ)
      → get_elem? s.workers i ≡ some (holding seg fails)
      → Step delay limit s
          (record s { workers = set s.workers i asking; resolved = s.resolved ++ (seg ∷ []) })
  requeue :
      (i now : ℕ) (seg : ℤ) (fails : ℕ) {b : BatchRange}
      → get_elem? s.workers i ≡ some (holding seg fails)
      → fails < limit
      → get_elem? s.batches i ≡ some b
      → Step delay limit s (record s {
        batches = set s.batches i (requeue_failed now delay seg (fails + 1) b);
        workers = set s.workers i asking;
      })

-- The worker that takes a step.
unfoldable pub actor : {delay limit : ℕ} {s t : System} → Step delay limit s t → ℕ
actor (ask i now e b) = i
actor (skip_own i e) = i
actor (steal i j now e other b) = i
actor (leave i j e past) = i
actor (resolve i seg fails e) = i
actor (requeue i now seg fails e few b) = i

-- `threads` workers that have just got their queues.
abbrev pub initial : ℕ → List BatchRange → System
initial threads bs = record { batches = bs; workers = replicate threads asking; resolved = [] }

pub data Reach (delay limit threads : ℕ) (bs : List BatchRange) : System → Type 0 where
  start : Reach delay limit threads bs (initial threads bs)
  later :
      {s t : System}
      → Reach delay limit threads bs s
      → Step delay limit s t
      → Reach delay limit threads bs t
