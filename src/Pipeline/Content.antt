-- ===== src/Pipeline/Content.antt =====
-- download/download.go with merge/concat.go: what the merged file of a stream holds. The workers fetch into
-- the segment directory, and the merger opens the `.done` file of a segment at some time after the
-- fetch that reported it; fetches of other segments go on meanwhile.
use ytarchive_raw_go.Prelude.{
  ℕ, zero, suc, ◌+◌, ◌<◌, ◌≡◌, refl, ap, sym, subst, ◌∙◌, ◌⊎◌, inl, inr, ℤ, pos, Bool, true, false,
  List, [], ◌∷◌, ◌++◌, some, if◌then◌else◌, replicate, Bool-cases,
}
use Prim.Native.String.{String}
use ytarchive_raw_go.Prelude.Text.{Bytes, occurrences}
use ytarchive_raw_go.Segments.Status.{SegmentResult}
use ytarchive_raw_go.Segments.Worked.{Worked}
use ytarchive_raw_go.Merge.Counters.{MergeProgress}
use ytarchive_raw_go.Merge.Loop.{Which, Visit, ignored}
use ytarchive_raw_go.Merge.Concat.{ConcatTask, Copied, merge_to_file, text_from}
use ytarchive_raw_go.Download.SegmentFile.{Content}
use ytarchive_raw_go.Download.Store.{
  Directory, Fetch, Answered, Removable, files_of, Fresh, fetch_all, Saved, Saved-Answered,
}
use ytarchive_raw_go.Pipeline.{stream_is_merged, joined, reports_of}

-- The fetches before the merger opens the file of a segment are among all fetches.
Answered-before :
    (i s : ℤ) (body : Content) (early late : List Fetch)
    → Answered i s body early
    → Answered i s body (early ++ late)
Answered-before i s body [] late a = absurd a
Answered-before i s body (r ∷ rs) late (inl here) = inl here
Answered-before i s body (r ∷ rs) late (inr a) = inr (Answered-before i s body rs late a)

Removable-before : (early late : List Fetch) → Removable (early ++ late) → Removable early
Removable-before [] late gone = tt
Removable-before (r ∷ rs) late (now, later) = (now, Removable-before rs late later)

-- The bodies of `k` segments from the `i`-th on, in order.
abbrev pub bodies_from : (ℕ → Bytes) → ℕ → ℕ → Bytes
bodies_from body zero i = []
bodies_from body (suc k) i = body i ++ bodies_from body k (suc i)

-- The merger is given each body as it was read, and nothing for a segment that is lost.
abbrev body_when : Bool → Copied → Bytes
body_when ok c = if ok then c.written else []

abbrev body_of : (ℕ → SegmentResult) → (String → Copied) → ℕ → Bytes
body_of results copy n = body_when (results n).is_ok (copy (results n).filename)

text_from-bodies :
    (delete_segments : Bool) (copy : String → Copied) (which : Which) (results : ℕ → SegmentResult)
    (k i : ℕ)
    → text_from delete_segments copy which results k i ≡ bodies_from (body_of results copy) k i
text_from-bodies delete_segments copy which results zero i = refl
text_from-bodies delete_segments copy which results (suc k) i =
    ap (λ rest. body_of results copy i ++ rest)
      (text_from-bodies delete_segments copy which results k (suc i))

module _ (show : ℤ → Bytes) (id : Bytes) (fsync : Bool) (path : ℤ → ℤ → String)
    (dotless : (n : ℤ) → occurrences b'.' (show n) ≡ 0)
    (injective : (m n : ℤ) → show m ≡ show n → m ≡ n) where
  -- What the merger reads of a segment: its `.done` file, after the fetches `seen`.
  abbrev pub Reads : Directory → ℤ → ℕ → List Fetch → Bytes → Type 0
  Reads d itag n seen text =
      (files_of show id (fetch_all show id fsync path d seen) itag (pos n)).done ≡ some text

  Reads-Answered :
      (d : Directory) (itag : ℤ) (n : ℕ) (text : Bytes) (seen late fetches : List Fetch)
      → Fresh show id d
      → Removable fetches
      → fetches ≡ seen ++ late
      → Saved show id fsync path itag (pos n) d seen
      → Reads d itag n seen text
      → Answered itag (pos n) text fetches
  Reads-Answered d itag n text seen late fetches fresh gone all saved reads =
      let (body, e, answer) =
        Saved-Answered show id fsync path dotless injective d fresh seen
          (Removable-before seen late (subst Removable all gone)) itag (pos n) saved in
      let the_same : some body ≡ some text = sym e ∙ reads in
      subst (λ x. Answered itag (pos n) x fetches) (cc the_same)
        (subst (Answered itag (pos n) body) (sym all)
          (Answered-before itag (pos n) body seen late answer))

  -- The merged file of a stream in the end: take a segment directory without files of the video, any
  -- fetches of its segments, in any order, with no removal of an `.incomplete` file that fails, and any
  -- interleaving of the workers of either queue that ends with all of them past their loops. Let the merger read each `.done` file after a fetch of the
  -- segment that returned true. Then, if the stream is not ignored, the merged file is, in the order
  -- of the segments, for each segment that was downloaded a body that the server answered to a fetch
  -- of this segment with the status 200, and nothing for each other segment.
  pub stream_has_answers :
      (d : Directory) (fetches : List Fetch) (itag : ℤ)
      → Fresh show id d
      → Removable fetches
      → (segments threads : ℕ) {resolved : List ℤ} → 0 < threads
      → Worked segments threads resolved
      → (results : ℕ → SegmentResult) (schedule : List (List (ℕ × SegmentResult)))
      → joined schedule ≡ reports_of results resolved
      → (delete_segments : Bool) (copy : String → Copied) (which : Which)
        (ignore_audio ignore_video : Bool) (p : MergeProgress)
      → ignored which ignore_audio ignore_video ≡ false
      → ((n : ℕ)
          → n < segments
          → (results n).is_ok ≡ true
          → (seen : List Fetch) × (late : List Fetch) × (fetches ≡ seen ++ late)
            × Saved show id fsync path itag (pos n) d seen
            × Reads d itag n seen (copy (results n).filename).written)
      → (v : Visit ConcatTask) × (merge_to_file delete_segments copy which ignore_audio ignore_video
            (schedule ++ replicate (segments + 1) [])
            segments
            p
          ≡ some v)
        × (body : ℕ → Bytes) × (v.out.target ≡ bodies_from body segments 0)
        × ((n : ℕ)
            → n < segments
            → (((results n).is_ok ≡ true) × Answered itag (pos n) (body n) fetches)
              ⊎ (((results n).is_ok ≡ false) × (body n ≡ [])))
  stream_has_answers d fetches itag fresh gone segments threads h worked results schedule e
        delete_segments copy which ia iv p shown read =
      let (v, out, target) =
        stream_is_merged segments threads h worked results schedule e delete_segments copy which ia
          iv p shown in
      (
        v,
        out,
        body_of results copy,
        target ∙ text_from-bodies delete_segments copy which results segments 0,
        λ n lt. elim (Bool-cases (results n).is_ok) [
          | inl ok ↦
              let (seen, late, all, saved, reads) = read n lt ok in
              inl (
                ok,
                subst (λ r. Answered itag (pos n) (body_when r (copy (results n).filename)) fetches)
                    (sym ok)
                    (Reads-Answered d itag n (copy (results n).filename).written seen late fetches
                      fresh gone all saved reads),
              )
          | inr lost ↦ inr (lost, ap (λ r. body_when r (copy (results n).filename)) lost)
        ],
      )
