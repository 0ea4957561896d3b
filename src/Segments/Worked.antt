-- ===== src/Segments/Worked.antt =====
-- download/segments/work_queue.go with download/download.go: a run of the workers of a stream, by either queue, that ends
-- with all of them past their loops.
use ytarchive_raw_go.Prelude.{
  ℕ, ◌<◌, ◌≡◌, sym, ap, ◌∙◌, ℤ, List, some, ltb, if◌then◌else◌, get_elem?, sum_of,
}
use ytarchive_raw_go.Segments.Count.{is_seg}
use ytarchive_raw_go.Segments.Batched.{BatchRange, make_batched_scheduler}
use ytarchive_raw_go.Segments.Batched.System as OutOfOrder
use ytarchive_raw_go.Segments.Batched.Safety.{exactly_once}
use ytarchive_raw_go.Segments.Sequential.System as InOrder
use ytarchive_raw_go.Segments.Sequential.Safety.{sequential_exactly_once}

-- The segments that the workers handed to `Downloaded`, in order.
pub data Worked (segments threads : ℕ) (resolved : List ℤ) : Type 0 where
  out_of_order :
      {delay limit : ℕ} {bs : List BatchRange} {s : OutOfOrder.System}
      → make_batched_scheduler segments threads ≡ some bs
      → OutOfOrder.Reach delay limit threads bs s
      → ((i : ℕ) (w : OutOfOrder.Worker) → get_elem? s.workers i ≡ some w → w ≡ OutOfOrder.finished)
      → s.resolved ≡ resolved
      → Worked segments threads resolved
  sequential :
      {delay limit : ℕ} {s : InOrder.System}
      → InOrder.Reach limit segments threads delay s
      → ((i : ℕ) (w : InOrder.Worker) → get_elem? s.workers i ≡ some w → w ≡ InOrder.finished)
      → s.resolved ≡ resolved
      → Worked segments threads resolved

-- Each of the segments was handed over exactly once, and no other number.
pub worked_once :
    {segments threads : ℕ} {resolved : List ℤ}
    → Worked segments threads resolved
    → 0 < threads
    → (k : ℕ) → sum_of (is_seg k) resolved ≡ (if ltb k segments then 1 else 0)
worked_once {segments} {threads} (out_of_order made r done e) h k =
    ap (sum_of (is_seg k)) (sym e) ∙ exactly_once segments threads h made r done k
worked_once {segments} {threads} (sequential r done e) h k =
    ap (sum_of (is_seg k)) (sym e) ∙ sequential_exactly_once segments threads r h done k
