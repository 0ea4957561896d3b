-- ===== src/Merge/Loop.antt =====
-- merge/merge.go: `forEachSegment`, the loop of a merger, while the workers report segments.
pub mod Receive
pub mod Order
use ytarchive_raw_go.Prelude.{
  ℕ, zero, suc, ◌+◌, ◌-◌, ◌≤◌, ◌<◌, ◌≡◌, refl, ◌∙◌, sym, subst, ◌≢◌, Bool, true, false, List, [],
  ◌∷◌, ◌++◌, Option, none, some, arith, ltb, if◌then◌else◌, length, Option-cases, Bool-cases, inl,
  inr, ◌⊎◌, ◌||◌, ◌&&◌,
}
use ytarchive_raw_go.Prelude.Dict.{lookup, lookup-assign}
use ytarchive_raw_go.Segments.Status
use ytarchive_raw_go.Segments.Status.{
  SegmentResult, SegmentStatus, next_to_merge, downloaded, total,
}
use ytarchive_raw_go.Merge.Counters.{MergeProgress, init_total, merged_audio, merged_video}

-- Which stream a `taskCommon` merges.
pub data Which : Type 0 where
  audio : Which
  video : Which

-- `mergedAudio` or `mergedVideo`
unfoldable pub count : Which → MergeProgress → MergeProgress
count audio = merged_audio
count video = merged_video

-- `ignored`, by `IgnoreAudio` and `IgnoreVideo`.
unfoldable pub ignored : Which → Bool → Bool → Bool
ignored audio ignore_audio ignore_video = ignore_audio
ignored video ignore_audio ignore_video = ignore_video

-- The loop, with what `f` has made of the segments so far; `slept` is the seconds slept in all.
pub record Visit {ℓ} (S : Type ℓ) : Type ℓ where
  pub status : SegmentStatus
  pub progress : MergeProgress
  pub out : S
  pub misses : ℕ
  pub slept : ℕ

abbrev pub begin_visit {ℓ} : {S : Type ℓ} → SegmentStatus → MergeProgress → S → Visit S
begin_visit s p out = record { status = s; progress = p; out = out; misses = 0; slept = 0 }

-- Reports of workers, one lock each.
unfoldable pub receive : List (ℕ × SegmentResult) → SegmentStatus → SegmentStatus
receive [] s = s
receive ((n, r) ∷ rs) s = receive rs (downloaded n r s)

module _ {ℓ} {S : Type ℓ} (which : Which) (f : S → SegmentResult → S) where
  -- A segment is there: `f` takes it.
  unfoldable pub take : SegmentResult → SegmentStatus → Visit S → Visit S
  take r s v = record v {
    status = s;
    progress = count which v.progress;
    out = f v.out r;
    misses = 0;
  }

  -- No segment is there: wait, a second longer than the last time and at most ten.
  unfoldable pub miss : Visit S → Visit S
  miss v =
      let misses = if ltb v.misses 10 then v.misses + 1 else v.misses in
      record v { misses = misses; slept = v.slept + misses }

  -- An iteration that is not the last.
  unfoldable pub visit : Visit S → Visit S
  unfolding take miss
  visit v =
      if (next_to_merge v.status).0.2
      then take (next_to_merge v.status).0.0 (next_to_merge v.status).1 v
      else miss v

  -- The iterations, with the reports that come before each. `none`: the merger waits still.
  unfoldable pub visit_all : List (List (ℕ × SegmentResult)) → Visit S → Option (Visit S)
  unfolding visit receive
  visit_all [] v = none
  visit_all (reports ∷ later) v =
      let v' = record v { status = receive reports v.status } in
      let rest = visit_all later (visit v') in if Status.done v'.status then some v' else rest

  -- `forEachSegment`
  unfoldable pub for_each_segment :
      Bool
      → Bool
      → List (List (ℕ × SegmentResult))
      → SegmentStatus
      → MergeProgress
      → S
      → Option (Visit S)
  unfolding visit_all ignored total
  for_each_segment ignore_audio ignore_video schedule s p out =
      let run = visit_all schedule (begin_visit s (init_total (total s) p) out) in
      if ignored which ignore_audio ignore_video
      then some (begin_visit s (init_total 0 p) out)
      else run
