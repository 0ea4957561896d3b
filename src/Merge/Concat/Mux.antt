-- ===== src/Merge/Concat/Mux.antt =====
-- merge/concat.go: `createConcatTask` and `Mux`, and `deleteSegmentFiles` of merge/merge.go: the files that
-- are removed. What the removals give is only logged. Whether FFmpeg succeeds is an argument.
use ytarchive_raw_go.Prelude.{
  ℕ, zero, suc, ◌<◌, ◌≡◌, refl, ◌∙◌, ap, Bool, true, false, not, ◌&&◌, List, [], ◌∷◌, ◌++◌, Option,
  some, none, arith, length, if◌then◌else◌,
}
use mathlib.Core.List.{append-nil, append_assoc}
use Prim.Native.String.{String}
use ytarchive_raw_go.Segments.Status.{SegmentResult}
use ytarchive_raw_go.Merge.Counters.{MergeProgress}
use ytarchive_raw_go.Merge.Loop.{Which, audio, video, Visit, ignored}
use ytarchive_raw_go.Merge.Loop.Receive.{AllAgree, Reported}
use ytarchive_raw_go.Merge.Loop.Order.{in_order, for_each_segment_lem}
use ytarchive_raw_go.Merge.Concat.{ConcatTask, Copied, merge_segment, merge_to_file}
use ytarchive_raw_go.Merge.Options.{MuxerOptions}

-- What `createConcatTask` comes to.
pub data CreateTask : Type 0 where
  file_exists : CreateTask
  not_deleted : CreateTask
  created : (file_removed delete_segments : Bool) → CreateTask

-- `createConcatTask`: is there something in the merged file, and would its removal succeed?
unfoldable pub create_concat_task : MuxerOptions → Bool → Bool → CreateTask
create_concat_task options not_empty removable =
    if not_empty
    then (if not options.overwrite_temp
        then file_exists
        else if removable
        then created true options.disable_resume
        else not_deleted)
    else created false options.disable_resume

-- `do`, on the files that are removed.
unfoldable pub if_shown : Which → MuxerOptions → List String → List String
unfolding ignored
if_shown which options files =
    if ignored which options.ignore_audio options.ignore_video then [] else files

-- `Mux`, once both mergers are through: the calls of `os.Remove`, in order. `none`: FFmpeg failed.
unfoldable pub mux :
    MuxerOptions → Bool → String → String → ConcatTask → ConcatTask → Option (List String)
unfolding if_shown
mux options ffmpeg_succeeds audio_file video_file audio_task video_task =
    if ffmpeg_succeeds
    then some (
        if_shown audio options (audio_file ∷ [])
        ++ (if_shown video options (video_file ∷ [])
            ++ (if options.delete_segments
                then audio_task.segments ++ video_task.segments
                else [])))
    else none

append_to :
    {x y r : List String} (t p q : List String) → x ≡ y ++ q → y ≡ t ++ p → r ≡ p ++ q → x ≡ t ++ r
append_to t p q e f g = cc (append_assoc t p q, e, f, g)

-- The files if the flag is set, in two parts.
if_append :
    (b : Bool) (x y : List String)
    → ((if b then x ++ y else []) ≡ (if b then x else []) ++ (if b then y else []))
      × ((if b then [] else x ++ y) ≡ (if b then [] else x) ++ (if b then [] else y))
if_append true x y = (refl, refl)
if_append false x y = (refl, refl)

module _ (delete_segments : Bool) (copy : String → Copied) (which : Which)
    (results : ℕ → SegmentResult) where
  -- The file of a segment that is downloaded and copied.
  abbrev pub file_of : SegmentResult → List String
  file_of r = if r.is_ok && (copy r.filename).succeeds then r.filename ∷ [] else []

  -- Those of `k` segments from the `i`-th on.
  abbrev pub files_from : ℕ → ℕ → List String
  files_from zero i = []
  files_from (suc k) i = file_of (results i) ++ files_from k (suc i)

  merge_segment-files :
      (t : ConcatTask) (r : SegmentResult)
      → let t' = merge_segment delete_segments copy t r in
        (t'.removed ≡ t.removed ++ (if delete_segments then file_of r else []))
        × (t'.segments ≡ t.segments ++ (if delete_segments then [] else file_of r))
  unfolding merge_segment
  merge_segment-files t r = ground (arith, append-nil t.removed, append-nil t.segments)

  in_order-files :
      (k i : ℕ) (t : ConcatTask)
      → let t' = in_order which (merge_segment delete_segments copy) results k i t in
        (t'.removed ≡ t.removed ++ (if delete_segments then files_from k i else []))
        × (t'.segments ≡ t.segments ++ (if delete_segments then [] else files_from k i))
  in_order-files zero i t = ground (arith, append-nil t.removed, append-nil t.segments)
  in_order-files (suc k) i t =
      let (gone, kept) = merge_segment-files t (results i) in
      let (later_gone, later_kept) =
        in_order-files k (suc i) (merge_segment delete_segments copy t (results i)) in
      let (both_gone, both_kept) =
        if_append delete_segments (file_of (results i)) (files_from k (suc i)) in
      (
        append_to t.removed _ _ later_gone gone both_gone,
        append_to t.segments _ _ later_kept kept both_kept,
      )

  -- The segments that were downloaded and copied, once the concat merger is through: they are removed
  -- if resuming is disabled, and kept otherwise.
  merge_to_file-files :
      (ignore_audio ignore_video : Bool) (segment_count : ℕ)
      (early late : List (List (ℕ × SegmentResult))) (p : MergeProgress)
      → ignored which ignore_audio ignore_video ≡ false
      → AllAgree results (early ++ late)
      → ((i : ℕ) → i < segment_count → Reported i early)
      → segment_count < length late
      → (v : Visit ConcatTask) × (merge_to_file delete_segments copy which ignore_audio ignore_video
            (early ++ late)
            segment_count
            p
          ≡ some v)
        × (v.out.removed ≡ (if delete_segments then files_from segment_count 0 else []))
        × (v.out.segments ≡ (if delete_segments then [] else files_from segment_count 0))
  unfolding merge_to_file
  merge_to_file-files ia iv n early late p shown agree all enough =
      let empty : ConcatTask = record { target = []; segments = []; removed = [] } in
      let (v, e, out, end) =
        for_each_segment_lem which (merge_segment delete_segments copy) results ia iv n early late p
          empty shown agree all enough in
      let (gone, kept) = in_order-files n 0 empty in
      (
        v,
        e,
        ap (λ (t : ConcatTask). t.removed) out ∙ gone,
        ap (λ (t : ConcatTask). t.segments) out ∙ kept,
      )

kept_files :
    (d m : Bool) (x y : List String)
    → (if m then (if d then [] else x) ++ (if d then [] else y) else [])
      ≡ (if not d && m then x ++ y else [])
kept_files true true x y = refl
kept_files true false x y = refl
kept_files false true x y = refl
kept_files false false x y = refl

-- `Mux` after two mergers that kept their segments, if resuming is not disabled.
mux-both :
    (options : MuxerOptions) (audio_file video_file : String) (a v : ConcatTask) (x y : List String)
    → options.ignore_audio ≡ false
    → options.ignore_video ≡ false
    → a.segments ≡ (if options.disable_resume then [] else x)
    → v.segments ≡ (if options.disable_resume then [] else y)
    → mux options true audio_file video_file a v
      ≡ some (
          audio_file
          ∷ video_file
          ∷ (if not options.disable_resume && options.delete_segments then x ++ y else []))
unfolding mux ignored
mux-both options audio_file video_file a v x y shown_a shown_v a_kept v_kept =
    rw (a_kept, v_kept, shown_a, shown_v)
      (ap (λ l. some (audio_file ∷ video_file ∷ l))
        (kept_files options.disable_resume options.delete_segments x y))

-- With both streams, once every segment of each has been reported, and if FFmpeg succeeds: the merger
-- of a stream removes, in their order, the segments that were downloaded and copied, if resuming is
-- disabled, and none otherwise; then `Mux` removes the merged files and, exactly if resuming is not
-- disabled and segments are to be deleted, those same segments, audio before video.
pub segments_removed :
    (options : MuxerOptions) (copy : String → Copied) (audio_file video_file : String)
    (audio_results video_results : ℕ → SegmentResult) (audio_count video_count : ℕ)
    (early_audio late_audio early_video late_video : List (List (ℕ × SegmentResult)))
    (p q : MergeProgress)
    → options.ignore_audio ≡ false
    → options.ignore_video ≡ false
    → AllAgree audio_results (early_audio ++ late_audio)
    → AllAgree video_results (early_video ++ late_video)
    → ((i : ℕ) → i < audio_count → Reported i early_audio)
    → ((i : ℕ) → i < video_count → Reported i early_video)
    → audio_count < length late_audio
    → video_count < length late_video
    → let audio_files = files_from options.disable_resume copy audio audio_results audio_count 0 in
      let video_files = files_from options.disable_resume copy video video_results video_count 0 in
      (a : Visit ConcatTask) × (v : Visit ConcatTask) × (merge_to_file options.disable_resume copy
          audio options.ignore_audio options.ignore_video
          (early_audio ++ late_audio)
          audio_count
          p
        ≡ some a)
      × (merge_to_file options.disable_resume copy video options.ignore_audio options.ignore_video
            (early_video ++ late_video)
            video_count
            q
          ≡ some v)
      × (a.out.removed ≡ (if options.disable_resume then audio_files else []))
      × (v.out.removed ≡ (if options.disable_resume then video_files else []))
      × (mux options true audio_file video_file a.out v.out
          ≡ some (
              audio_file
              ∷ video_file
              ∷ (if not options.disable_resume && options.delete_segments
                  then audio_files ++ video_files
                  else [])))
unfolding ignored
segments_removed options copy audio_file video_file ra rv n m ea la ev lv p q shown_a shown_v
      agree_a agree_v all_a all_v enough_a enough_v =
    let ia = options.ignore_audio in
    let iv = options.ignore_video in
    let (a, a_runs, a_gone, a_kept) =
      merge_to_file-files options.disable_resume copy audio ra ia iv n ea la p shown_a agree_a all_a
        enough_a in
    let (v, v_runs, v_gone, v_kept) =
      merge_to_file-files options.disable_resume copy video rv ia iv m ev lv q shown_v agree_v all_v
        enough_v in
    (
      a,
      v,
      a_runs,
      v_runs,
      a_gone,
      v_gone,
      mux-both options audio_file video_file a.out v.out
          (files_from options.disable_resume copy audio ra n 0)
          (files_from options.disable_resume copy video rv m 0) shown_a shown_v a_kept v_kept,
    )
