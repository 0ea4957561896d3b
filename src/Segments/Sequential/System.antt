-- ===== src/Segments/Sequential/System.antt =====
-- The workers of `QueueSequential`, interleaved: each step holds the scheduler's lock.
use ytarchive_raw_go.Prelude.{
  ℕ, ◌+◌, ◌<◌, ◌≡◌, ℤ, List, [], ◌∷◌, ◌++◌, some, if◌then◌else◌, get_elem?, set, replicate,
}
use ytarchive_raw_go.Segments.Failed.{Pick, next_segment}
use ytarchive_raw_go.Segments.Sequential.{
  SequentialScheduler, make_sequential_scheduler, next_internal, requeue_failed,
}

-- Where a worker stands: before `NextSegment`, with a segment, or past its loop.
pub data Worker : Type 0 where
  asking : Worker
  holding : (seg : ℤ) (fails : ℕ) → Worker
  finished : Worker

-- `resolved` lists the calls of `SegmentStatus.Downloaded`, in order.
pub record System : Type 0 where
  pub sched : SequentialScheduler
  pub workers : List Worker
  pub resolved : List ℤ

unfoldable pub give_out : ℕ → Pick → Worker
give_out now p =
    if p.found then holding (next_segment now p).seg (next_segment now p).fails else finished

pub data Step (limit : ℕ) (s : System) : System → Type 0 where
  ask :
      (i now : ℕ)
      → get_elem? s.workers i ≡ some asking
      → Step limit s (record s {
        sched = (next_internal s.sched).1;
        workers = set s.workers i (give_out now (next_internal s.sched).0);
      })
  resolve :
      (i : ℕ) (seg : ℤ) (fails : ℕ)
      → get_elem? s.workers i ≡ some (holding seg fails)
      → Step limit s
          (record s { workers = set s.workers i asking; resolved = s.resolved ++ (seg ∷ []) })
  requeue :
      (i now : ℕ) (seg : ℤ) (fails : ℕ)
      → get_elem? s.workers i ≡ some (holding seg fails)
      → fails < limit
      → Step limit s (record s {
        sched = requeue_failed now seg (fails + 1) s.sched;
        workers = set s.workers i asking;
      })

abbrev pub initial : ℕ → ℕ → ℕ → System
initial segments threads delay = record {
  sched = make_sequential_scheduler segments delay;
  workers = replicate threads asking;
  resolved = [];
}

pub data Reach (limit segments threads delay : ℕ) : System → Type 0 where
  start : Reach limit segments threads delay (initial segments threads delay)
  later :
      {s t : System}
      → Reach limit segments threads delay s
      → Step limit s t
      → Reach limit segments threads delay t
