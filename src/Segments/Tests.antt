-- ===== src/Segments/Tests.antt =====
-- Runs of the queues and of the status at concrete inputs, and the theorems about them applied there.
use ytarchive_raw_go.Prelude.{
  ℕ, zero, suc, ◌+◌, ◌*◌, ◌≡◌, refl, ◌≢◌, ◌+ℤ◌, ◌-ℤ◌, pos, negsuc, true, false, List, [], ◌∷◌, some,
  none, arith, get_elem?, sum_of, length, ◌≤◌, ◌<◌,
}
use ytarchive_raw_go.Prelude.Dict.{lookup}
use ytarchive_raw_go.Segments.Failed.{next_segment}
use ytarchive_raw_go.Segments.Count.{is_seg}
use ytarchive_raw_go.Segments.Worked.{Worked}
use ytarchive_raw_go.Segments.Batched.{
  BatchRange, fresh_range, make_batched_scheduler, try_get_next,
}
use ytarchive_raw_go.Segments.Batched.Partition.{IsPartition, make_batched_scheduler-IsPartition}
use ytarchive_raw_go.Segments.Batched.System
use ytarchive_raw_go.Segments.Batched.Bound.{steps, bounded_run}
use ytarchive_raw_go.Segments.Batched.Refines
use ytarchive_raw_go.Segments.Sequential.Refines as SharedRefines
use ytarchive_raw_go.Segments.Pool.{PoolReach}
use ytarchive_raw_go.Segments.Batched.Safety.{exactly_once, one_holder, no_deadlock}
use ytarchive_raw_go.Segments.Sequential
use ytarchive_raw_go.Segments.Sequential.System as Shared
use ytarchive_raw_go.Segments.Sequential.Safety.{sequential_exactly_once}
use ytarchive_raw_go.Segments.Status
use ytarchive_raw_go.Segments.Status.{SegmentResult, done}
use ytarchive_raw_go.Segments.Status.Order.{Event, download, merge, run, begin, merged_in_order}

-- Ten segments for three workers: 0 to 3, 4 to 7, 8 and 9.
three_batches :
    make_batched_scheduler 10 3
    ≡ some (
        fresh_range (pos 0) (pos 3)
        ∷ fresh_range (pos 4) (pos 7)
        ∷ fresh_range (pos 8) (pos 9)
        ∷ [])
unfolding make_batched_scheduler ◌+ℤ◌ ◌-ℤ◌
three_batches = refl

-- One segment for three workers: the second batch is empty, and the third is a filler.
spare_worker :
    make_batched_scheduler 1 3
    ≡ some (
        fresh_range (pos 0) (pos 0)
        ∷ fresh_range (pos 1) (pos 0)
        ∷ fresh_range (negsuc 0) (negsuc 1)
        ∷ [])
unfolding make_batched_scheduler ◌+ℤ◌ ◌-ℤ◌
spare_worker = refl

make_batched_scheduler-IsPartition_example :
    (bs : List BatchRange) × (make_batched_scheduler 10 3 ≡ some bs) × IsPartition 10 3 bs
make_batched_scheduler-IsPartition_example = make_batched_scheduler-IsPartition 10 3 (omega arith)

abbrev stolen_from : BatchRange
stolen_from = fresh_range (pos 4) (pos 7)

abbrev pub one_batch : List BatchRange
one_batch = fresh_range (pos 0) (pos 0) ∷ []

pub one_batch_made : make_batched_scheduler 1 1 ≡ some one_batch
unfolding make_batched_scheduler ◌+ℤ◌ ◌-ℤ◌
one_batch_made = refl

abbrev given_out : System.System
given_out = record {
  batches = record { start = pos 1; end = pos 0; assigned = false; failed = [] } ∷ [];
  workers = System.holding (pos 0) 0 ∷ [];
  resolved = [];
}

-- One worker takes the only segment.
given_out-Reach : System.Reach 100 1 1 one_batch given_out
unfolding ◌+ℤ◌ try_get_next System.give_out next_segment
given_out-Reach = System.later System.start (System.ask 0 0 refl refl)

abbrev pub all_done : System.System
all_done = record {
  batches = record { start = pos 1; end = pos 0; assigned = false; failed = [] } ∷ [];
  workers = System.finished ∷ [];
  resolved = pos 0 ∷ [];
}

-- It reports the segment, asks again, looks through the batches, and leaves.
pub all_done-Reach : System.Reach 100 1 1 one_batch all_done
unfolding ◌+ℤ◌ try_get_next System.give_out next_segment
all_done-Reach =
    System.later
      (System.later
        (System.later (System.later given_out-Reach (System.resolve 0 (pos 0) 0 refl))
          (System.ask 0 5 refl refl))
        (System.skip_own 0 refl))
      (System.leave 0 1 refl (omega arith))

pub finished_workers :
    (i : ℕ) (w : System.Worker) → get_elem? all_done.workers i ≡ some w → w ≡ System.finished
finished_workers zero w e = cc
finished_workers (suc i) w e = cc

exactly_once_example : sum_of (is_seg 0) all_done.resolved ≡ 1
exactly_once_example =
    exactly_once 1 1 (omega arith) one_batch_made all_done-Reach finished_workers 0

one_holder_example :
    ((j again : ℕ)
      → ◌≢◌ {A = ℕ} 0 j
      → get_elem? given_out.workers j ≢ some (System.holding (pos 0) again))
    × (sum_of (is_seg 0) given_out.resolved ≡ 0)
one_holder_example = one_holder 1 1 (omega arith) one_batch_made given_out-Reach 0 0 0 refl

no_deadlock_example :
    (t : System.System) × (step : System.Step 100 1 given_out t) × (System.actor step ≡ 0)
no_deadlock_example =
    no_deadlock 1 1 (omega arith) one_batch_made given_out-Reach 0 (System.holding (pos 0) 0) refl
      (λ e. cc)

bounded_run_example : steps all_done-Reach ≤ 1 * ((1 + 1) * (1 + 4)) + 1 * (1 + 3)
bounded_run_example = bounded_run 1 1 (omega arith) one_batch_made all_done-Reach

batched_refines_example : PoolReach 1 1 (Refines.view all_done)
batched_refines_example = Refines.batched_refines 1 1 (omega arith) one_batch_made all_done-Reach

abbrev shared_start : Shared.System
shared_start = Shared.initial 1 1 100

abbrev shared_taken : Shared.System
shared_taken = record {
  sched = record { max_seg = 1; next_seg = 1; failed = []; requeue_delay = 100 };
  workers = Shared.holding (pos 0) 0 ∷ [];
  resolved = [];
}

shared_taken-Reach : Shared.Reach 1 1 1 100 shared_taken
unfolding Sequential.next_internal Sequential.make_sequential_scheduler Shared.give_out next_segment
shared_taken-Reach = Shared.later Shared.start (Shared.ask 0 0 refl)

abbrev shared_done : Shared.System
shared_done = record {
  sched = record { max_seg = 1; next_seg = 1; failed = []; requeue_delay = 100 };
  workers = Shared.finished ∷ [];
  resolved = pos 0 ∷ [];
}

shared_done-Reach : Shared.Reach 1 1 1 100 shared_done
unfolding Sequential.next_internal Sequential.make_sequential_scheduler Shared.give_out next_segment
shared_done-Reach =
    Shared.later (Shared.later shared_taken-Reach (Shared.resolve 0 (pos 0) 0 refl))
      (Shared.ask 0 5 refl)

shared_finished :
    (i : ℕ) (w : Shared.Worker) → get_elem? shared_done.workers i ≡ some w → w ≡ Shared.finished
shared_finished zero w e = cc
shared_finished (suc i) w e = cc

sequential_exactly_once_example : sum_of (is_seg 0) shared_done.resolved ≡ 1
sequential_exactly_once_example =
    sequential_exactly_once 1 1 shared_done-Reach (omega arith) shared_finished 0

sequential_refines_example : PoolReach 1 1 (SharedRefines.view shared_done)
sequential_refines_example = SharedRefines.sequential_refines 1 1 shared_done-Reach

abbrev saved : SegmentResult
saved = record { filename = "segment-x_140.0.done"; is_ok = true }

abbrev gone : SegmentResult
gone = record { filename = ""; is_ok = false }

-- Segment 1 is given up before segment 0 is there; the merger asks twice.
abbrev out_of_order : List Event
out_of_order = download 1 gone ∷ merge ∷ download 0 saved ∷ merge ∷ []

out_of_order_runs : (run (begin 2) out_of_order).merged ≡ saved ∷ []
unfolding run Status.create
out_of_order_runs = refl

merged_in_order_example :
    let t = run (begin 2) out_of_order in
    (length t.merged ≡ t.status.merged_count)
    × (t.status.merged_count ≤ t.status.end)
    × ((i : ℕ)
        → i < length t.merged
        → (get_elem? t.merged i ≡ lookup i t.reports) × (lookup i t.reports ≢ none))
unfolding lookup
merged_in_order_example =
    merged_in_order 2 out_of_order (omega arith, refl, (omega arith, refl, tt))

reported_all : (i : ℕ) → i < 2 → lookup i (run (begin 2) out_of_order).reports ≢ none
unfolding run
reported_all zero h = λ e. cc
reported_all (suc zero) h = λ e. cc
reported_all (suc (suc i)) h = absurd (omega arith)

pub one_batch-Worked : Worked 1 1 (pos 0 ∷ [])
one_batch-Worked = Worked.out_of_order one_batch_made all_done-Reach finished_workers refl

pub one_counter-Worked : Worked 1 1 (pos 0 ∷ [])
one_counter-Worked = Worked.sequential shared_done-Reach shared_finished refl
