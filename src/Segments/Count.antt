-- ===== src/Segments/Count.antt =====
-- How often a segment number stands in the parts of a work queue. Conservation of segments is stated
-- with these counts, for every number.
use ytarchive_raw_go.Prelude.{
  ℕ, ◌≡◌, ℤ, pos, leb_ℤ, eqb_ℤ, List, arith, ◌&&◌, if◌then◌else◌, sum_of,
}
use ytarchive_raw_go.Segments.Failed.{FailedSeg, Pick, next_segment}

-- 1 if `n` is the segment number `k`, else 0.
abbrev pub is_seg : ℕ → ℤ → ℕ
is_seg k n = if eqb_ℤ n (pos k) then 1 else 0

-- 1 if `k` lies between `s` and `e`, both included, else 0.
abbrev pub in_range : ℕ → ℤ → ℤ → ℕ
in_range k s e = if leb_ℤ s (pos k) && leb_ℤ (pos k) e then 1 else 0

abbrev pub failed_count : ℕ → List FailedSeg → ℕ
failed_count k = sum_of (λ f. is_seg k f.seg)

-- 1 if `NextSegment` gives out the segment `k` for this answer of `nextInternal`, else 0.
unfoldable pub picked : ℕ → Pick → ℕ
unfolding next_segment
picked k p = if p.found then is_seg k (next_segment 0 p).seg else 0

-- The time at which the queue is asked does not change which segment it gives out.
pub picked-next_segment :
    (k now : ℕ) (p : Pick)
    → picked k p ≡ (if (next_segment now p).found then is_seg k (next_segment now p).seg else 0)
unfolding picked next_segment
picked-next_segment k now p = ground arith
