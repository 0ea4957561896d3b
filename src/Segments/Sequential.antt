-- ===== src/Segments/Sequential.antt =====
-- download/segments/work_queue.go: `sequentialScheduler` and `sequentialQueue`. All workers take the
-- next segment from one counter, and then from one list of failed segments.
pub mod System
pub mod Safety
pub mod Refines
use ytarchive_raw_go.Prelude.{ℕ, ◌+◌, ℤ, pos, false, List, [], ◌∷◌, ◌++◌, ltb, if◌then◌else◌}
use ytarchive_raw_go.Segments.Failed.{
  FailedSeg, zero_failed, Pick, fresh_pick, failed_pick, make_failed_seg,
}

-- `sequentialScheduler`, less its lock.
pub record SequentialScheduler : Type 0 where
  pub max_seg : ℕ
  pub next_seg : ℕ
  pub failed : List FailedSeg
  pub requeue_delay : ℕ

unfoldable pub make_sequential_scheduler : ℕ → ℕ → SequentialScheduler
make_sequential_scheduler total_segments requeue_delay = record {
  max_seg = total_segments;
  next_seg = 0;
  failed = [];
  requeue_delay = requeue_delay;
}

-- `failedSeg{}, 0, false`
abbrev pub nothing_left : Pick
nothing_left = record { failed = zero_failed; number = pos 0; found = false }

-- The second half of `nextInternal`, on the value of `failed`.
unfoldable pub take_failed : SequentialScheduler → List FailedSeg → Pick × SequentialScheduler
take_failed s [] = (nothing_left, s)
take_failed s (f ∷ fs) = (failed_pick f, record s { failed = fs })

unfoldable pub next_internal : SequentialScheduler → Pick × SequentialScheduler
unfolding take_failed
next_internal s =
    if ltb s.next_seg s.max_seg
    then (fresh_pick (pos s.next_seg), record s { next_seg = s.next_seg + 1 })
    else take_failed s s.failed

unfoldable pub requeue_failed : ℕ → ℤ → ℕ → SequentialScheduler → SequentialScheduler
requeue_failed now seg fails s = record s {
  failed = s.failed ++ (make_failed_seg now seg fails s.requeue_delay ∷ []);
}
