-- ===== src/Merge/Nothing.antt =====
-- merge/merge.go: `MergeNothing` and `deleteSegmentFiles`, and merge/progress.go: what an ignored stream does to the
-- progress that is shown.
use ytarchive_raw_go.Prelude.{
  ℕ, ◌≡◌, refl, Bool, true, false, List, [], ◌∷◌, Option, some, arith, pos, if◌then◌else◌,
}
use Prim.Native.String.{String}
use ytarchive_raw_go.Prelude.Numbers.{Numbers}
use ytarchive_raw_go.Segments.Status.{SegmentResult, create}
use ytarchive_raw_go.Merge.Counters.{
  MergeProgress, new_progress, updated, init_total, merged_audio, merged_video, done,
}
use ytarchive_raw_go.Merge.Loop.{Which, Visit, begin_visit, for_each_segment, ignored}
use ytarchive_raw_go.Merge.Words.{percentage}

-- The merger of a stream that is left out, with a status of no segment.
unfoldable pub merge_nothing {ℓ} :
    {S : Type ℓ}
    → Which
    → (S → SegmentResult → S)
    → Bool
    → Bool
    → List (List (ℕ × SegmentResult))
    → MergeProgress
    → S
    → Option (Visit S)
unfolding for_each_segment
merge_nothing which f ignore_audio ignore_video schedule p out =
    for_each_segment which f ignore_audio ignore_video schedule (create 0) p out

-- `deleteSegmentFiles`: the calls of `os.Remove`, each with whether a warning follows.
unfoldable pub delete_segment_files : (String → Bool) → List String → List (String × Bool)
delete_segment_files removable [] = []
delete_segment_files removable (v ∷ paths) =
    (v, (if removable v then false else true)) ∷ delete_segment_files removable paths

-- The calls of both mergers on the shared progress.
pub data MergeCall : Type 0 where
  total_known : ℕ → MergeCall
  audio_merged video_merged all_done : MergeCall

unfoldable pub count_call : MergeProgress → MergeCall → MergeProgress
unfolding init_total merged_audio merged_video done
count_call m (total_known n) = init_total n m
count_call m audio_merged = merged_audio m
count_call m video_merged = merged_video m
count_call m all_done = done m

unfoldable pub count_calls : MergeProgress → List MergeCall → MergeProgress
unfolding count_call
count_calls m [] = m
count_calls m (c ∷ cs) = count_calls (count_call m c) cs

count_call-ended :
    (m : MergeProgress) (c : MergeCall) → m.ended ≡ true → (count_call m c).ended ≡ true
unfolding count_call updated
count_call-ended m (total_known n) e = ground (arith, e)
count_call-ended m audio_merged e = ground (arith, e)
count_call-ended m video_merged e = ground (arith, e)
count_call-ended m all_done e = ground (arith, e)

count_calls-ended :
    (m : MergeProgress) (cs : List MergeCall) → m.ended ≡ true → (count_calls m cs).ended ≡ true
unfolding count_calls
count_calls-ended m [] e = e
count_calls-ended m (c ∷ cs) e = count_calls-ended (count_call m c) cs (count_call-ended m c e)

-- When the merger of an ignored stream runs first, it is through at once and keeps what it had; but
-- from then on, whatever the other merger counts, the progress shows 100 percent.
pub nothing_shows_100 :
    {F : Type 0} {S : Type 0} (f : Numbers F) (which : Which) (g : S → SegmentResult → S)
    (ignore_audio ignore_video : Bool) (schedule : List (List (ℕ × SegmentResult))) (out : S)
    → ignored which ignore_audio ignore_video ≡ true
    → (v : Visit S) × (merge_nothing which g ignore_audio ignore_video schedule new_progress out
        ≡ some v)
      × (v.out ≡ out)
      × ((cs : List MergeCall) → percentage f (count_calls v.progress cs) ≡ f.of_int (pos 100))
unfolding merge_nothing init_total updated percentage
nothing_shows_100 f which g ia iv schedule out e = (
  begin_visit (create 0) (init_total 0 new_progress) out,
  rw (e, merge_nothing, for_each_segment) refl,
  refl,
  λ cs. rw (count_calls-ended (init_total 0 new_progress) cs refl, percentage) refl,
)
