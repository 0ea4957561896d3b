-- ===== src/Merge/Concat.antt =====
-- merge/concat.go: the merger of `concatTask`, which appends the segments to one file.
pub mod Mux
pub mod Create
use ytarchive_raw_go.Prelude.{
  ℕ, zero, suc, ◌<◌, ◌≡◌, ◌∙◌, sym, ap, Bool, false, List, [], ◌∷◌, ◌++◌, Option, some, arith,
  length, if◌then◌else◌,
}
use mathlib.Core.List.{append-nil, append_assoc}
use Prim.Native.String.{String}
use ytarchive_raw_go.Prelude.Text.{Bytes}
use ytarchive_raw_go.Segments.Status.{SegmentResult, create}
use ytarchive_raw_go.Merge.Counters.{MergeProgress}
use ytarchive_raw_go.Merge.Loop.{Which, Visit, for_each_segment, ignored}
use ytarchive_raw_go.Merge.Loop.Receive.{AllAgree, Reported}
use ytarchive_raw_go.Merge.Loop.Order.{in_order, for_each_segment_lem}

-- The merged file, the segments that are kept for later, and the files that were removed.
pub record ConcatTask : Type 0 where
  pub target : Bytes
  pub segments : List String
  pub removed : List String

-- What `copyFile` appends to the merged file, and whether it succeeds.
pub record Copied : Type 0 where
  pub written : Bytes
  pub succeeds : Bool

-- What `Merge` gives to `forEachSegment`.
unfoldable pub merge_segment : Bool → (String → Copied) → ConcatTask → SegmentResult → ConcatTask
merge_segment delete_segments copy t r =
    let t' = record t { target = t.target ++ (copy r.filename).written } in
    if r.is_ok
    then if (copy r.filename).succeeds
      then if delete_segments
        then record t' { removed = t.removed ++ r.filename ∷ [] }
        else record t' { segments = t.segments ++ r.filename ∷ [] }
      else t'
    else t

-- `Merge`, on a merged file that does not exist yet.
unfoldable pub merge_to_file :
    Bool
    → (String → Copied)
    → Which
    → Bool
    → Bool
    → List (List (ℕ × SegmentResult))
    → ℕ
    → MergeProgress
    → Option (Visit ConcatTask)
merge_to_file delete_segments copy which ignore_audio ignore_video schedule segment_count p =
    for_each_segment which (merge_segment delete_segments copy) ignore_audio ignore_video schedule
      (create segment_count) p (record { target = []; segments = []; removed = [] })

module _ (delete_segments : Bool) (copy : String → Copied) (which : Which)
    (results : ℕ → SegmentResult) where
  -- What one segment adds to the merged file.
  abbrev pub text_of : SegmentResult → Bytes
  text_of r = if r.is_ok then (copy r.filename).written else []

  -- What `k` segments add, from the `i`-th on.
  abbrev pub text_from : ℕ → ℕ → Bytes
  text_from zero i = []
  text_from (suc k) i = text_of (results i) ++ text_from k (suc i)

  merge_segment-target :
      (t : ConcatTask) (r : SegmentResult)
      → (merge_segment delete_segments copy t r).target ≡ t.target ++ text_of r
  unfolding merge_segment
  merge_segment-target t r = ground (arith, append-nil t.target)

  in_order-target :
      (k i : ℕ) (t : ConcatTask)
      → (in_order which (merge_segment delete_segments copy) results k i t).target
        ≡ t.target ++ text_from k i
  in_order-target zero i t = sym (append-nil t.target)
  in_order-target (suc k) i t =
      in_order-target k (suc i) (merge_segment delete_segments copy t (results i))
      ∙ (ap (λ x. x ++ text_from k (suc i)) (merge_segment-target t (results i))
          ∙ append_assoc t.target (text_of (results i)) (text_from k (suc i)))

  -- Once each segment has been reported, with one result however often, and the merger has had an
  -- iteration for each and one more, it is through, and the merged file holds what was copied from
  -- the segments that were downloaded, in the order of the segments.
  pub merge_to_file_lem :
      (ignore_audio ignore_video : Bool) (segment_count : ℕ)
      (early late : List (List (ℕ × SegmentResult))) (p : MergeProgress)
      → ignored which ignore_audio ignore_video ≡ false
      → AllAgree results (early ++ late)
      → ((i : ℕ) → i < segment_count → Reported i early)
      → segment_count < length late
      → (v : Visit ConcatTask) × (merge_to_file delete_segments copy which ignore_audio ignore_video
            (early ++ late)
            segment_count
            p
          ≡ some v)
        × (v.out.target ≡ text_from segment_count 0)
  unfolding merge_to_file
  merge_to_file_lem ia iv n early late p shown agree all enough =
      let empty : ConcatTask = record { target = []; segments = []; removed = [] } in
      let (v, e, out, end) =
        for_each_segment_lem which (merge_segment delete_segments copy) results ia iv n early late p
          empty shown agree all enough in
      (v, e, ap (λ (t : ConcatTask). t.target) out ∙ in_order-target n 0 empty)
