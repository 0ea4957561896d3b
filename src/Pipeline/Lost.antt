-- ===== src/Pipeline/Lost.antt =====
-- download/download.go: what `run` reports about a stream that its workers have gone through.
use ytarchive_raw_go.Prelude.{
  ℕ, ◌+◌, ◌<◌, ◌≡◌, refl, subst, ℤ, pos, negsuc, false, not, ◌&&◌, List, [], ◌∷◌, Option, some,
  arith, ◌==◌, ltb, if◌then◌else◌, sum_of, sum_of-append,
}
use native.Mathlib.Decide.{ℕ_discrete}
use ytarchive_raw_go.Segments.Count.{is_seg}
use ytarchive_raw_go.Segments.Status.{
  SegmentResult, SegmentStatus, create, downloaded, missed_segments,
}
use ytarchive_raw_go.Segments.Worked.{Worked, worked_once}
use ytarchive_raw_go.Merge.Loop.{receive}
use ytarchive_raw_go.Download.Task.{segment_count}
use ytarchive_raw_go.Download.Run.{run}
use ytarchive_raw_go.Pipeline.{reports_of}

-- 1 for `k`, else 0.
abbrev is_number : ℕ → ℕ → ℕ
is_number k n = if n == k then 1 else 0

-- How often `k` is in the list.
abbrev pub times : ℕ → List ℕ → ℕ
times k = sum_of (is_number k)

times-downloaded :
    (k n : ℕ) (r : SegmentResult) (s : SegmentStatus)
    → times k (downloaded n r s).missed ≡ times k s.missed + (if r.is_ok then 0 else is_number k n)
unfolding downloaded
times-downloaded k n r s = ground (arith, sum_of-append (is_number k) s.missed (n ∷ []))

same_result :
    (k n : ℕ) (results : ℕ → SegmentResult)
    → (if (results n).is_ok then 0 else is_number k n)
      ≡ (if (results k).is_ok then 0 else is_seg k (pos n))
same_result k n results = elim (ℕ_discrete n k) [
  | yes e ↦
      subst
        (λ m.
          (if (results n).is_ok then 0 else is_number m n)
          ≡ (if (results m).is_ok then 0 else is_seg m (pos n)))
        e (ground arith)
  | no other ↦ ground (arith, other)
]

times-receive :
    (k : ℕ) (results : ℕ → SegmentResult) (segs : List ℤ) (s : SegmentStatus)
    → times k (receive (reports_of results segs) s).missed
      ≡ times k s.missed + (if (results k).is_ok then 0 else sum_of (is_seg k) segs)
unfolding receive
times-receive k results [] s = ground arith
times-receive k results (negsuc n ∷ segs) s = ground (arith, times-receive k results segs s)
times-receive k results (pos n ∷ segs) s = ground (
  arith,
  times-receive k results segs (downloaded n (results n) s),
  times-downloaded k n (results n) s,
  same_result k n results,
)

-- For a run of the workers of either queue that ends with all of them past their loops, once the number of segments is known: `run` reports no error and that number, and its lost segments are
-- exactly those whose last result is a failure, each once.
pub run-lost :
    (segments threads : ℕ) {resolved : List ℤ}
    → 0 < threads
    → Worked segments threads resolved
    → (results : ℕ → SegmentResult) (count : ℕ) (get : ℕ → Option ℕ)
    → segment_count count get ≡ some segments
    → let r = run count get (receive (reports_of results resolved)) in
      (r.result.has_error ≡ false)
      × (r.result.total_segments ≡ segments)
      × (r.merging ≡ some (create segments))
      × ((k : ℕ)
          → times k r.result.lost_segments
            ≡ (if ltb k segments && not (results k).is_ok then 1 else 0))
unfolding run missed_segments create
run-lost segments threads {resolved} h worked results count get known =
    rw (known, run)
      (
        refl,
        refl,
        refl,
        λ k.
            ground
              (arith, times-receive k results resolved (create segments), worked_once worked h k),
      )
