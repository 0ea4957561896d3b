-- ===== src/Segments/Status.antt =====
-- download/segments/segments.go: `SegmentStatus`, the meeting point of the download workers, which
-- report results in any order, and of one merger, which takes them in the order of the segments.
pub mod Order
use ytarchive_raw_go.Prelude.{
  ℕ, zero, suc, ◌+◌, ◌≡◌, Bool, true, false, List, [], ◌∷◌, ◌++◌, Option, none, some, ◌==◌,
  if◌then◌else◌,
}
use ytarchive_raw_go.Prelude.Dict.{lookup, delete, assign}
use Prim.Native.String.{String}

-- `SegmentResult`
pub record SegmentResult : Type 0 where
  pub filename : String
  pub is_ok : Bool

-- The zero value of `SegmentResult`.
abbrev pub zero_result : SegmentResult
zero_result = record { filename = ""; is_ok = false }

-- `SegmentStatus`, less its lock and its scheduler.
pub record SegmentStatus : Type 0 where
  pub end : ℕ
  pub merged_count : ℕ
  pub segments : List (ℕ × SegmentResult)  -- `map[int]SegmentResult`
  pub missed : List ℕ

-- `Create`, less the choice of the scheduler.
unfoldable pub create : ℕ → SegmentStatus
create segment_count = record { end = segment_count; merged_count = 0; segments = []; missed = [] }

-- `segment == s.end - 1`, also for `end` 0, where no segment is the last.
unfoldable pub is_last : SegmentStatus → ℕ → Bool
is_last s segment = (segment + 1) == s.end

unfoldable pub missed_segments : SegmentStatus → List ℕ
missed_segments s = s.missed

unfoldable pub total : SegmentStatus → ℕ
total s = s.end

unfoldable pub next_to_merge : SegmentStatus → (SegmentResult × ℕ × Bool) × SegmentStatus
unfolding lookup delete
next_to_merge s = elim (lookup s.merged_count s.segments) [
  | none ↦ ((zero_result, s.merged_count, false), s)
  | some r ↦ (
    (r, s.merged_count, true),
    record s { segments = delete s.merged_count s.segments; merged_count = s.merged_count + 1 },
  )
]

unfoldable pub downloaded : ℕ → SegmentResult → SegmentStatus → SegmentStatus
unfolding assign
downloaded number result s = record s {
  missed = if result.is_ok then s.missed else s.missed ++ (number ∷ []);
  segments = assign number result s.segments;
}

unfoldable pub done : SegmentStatus → Bool
done s = s.merged_count == s.end
