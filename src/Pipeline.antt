-- ===== src/Pipeline.antt =====
-- download/download.go with merge/concat.go: the workers of a stream, its `SegmentStatus` and its merger
-- together. What the workers hand to `Downloaded` is what the merger is given.
mod Later
mod Content
mod Lost
mod Tests
use ytarchive_raw_go.Prelude.{
  ℕ, zero, suc, ◌+◌, ◌<◌, ◌≡◌, refl, sym, subst, ◌∙◌, ◌≢◌, ◌⊎◌, inl, inr, ℤ, pos, negsuc, Bool,
  true, false, List, [], ◌∷◌, ◌++◌, some, none, arith, ltb, if◌then◌else◌, length, get_elem?,
  sum_of, replicate, length-replicate,
}
use Prim.Native.String.{String}
use ytarchive_raw_go.Prelude.Dict.{lookup}
use ytarchive_raw_go.Segments.Count.{is_seg}
use ytarchive_raw_go.Segments.Status.{SegmentResult}
use ytarchive_raw_go.Segments.Worked.{Worked, worked_once}
use ytarchive_raw_go.Merge.Counters.{MergeProgress}
use ytarchive_raw_go.Merge.Loop.{Which, Visit, ignored}
use ytarchive_raw_go.Merge.Loop.Receive.{Agree, AllAgree, Reported}
use ytarchive_raw_go.Merge.Concat.{ConcatTask, Copied, merge_to_file, text_from, merge_to_file_lem}

-- The calls of `Downloaded`, with the result that each segment had in the end.
abbrev pub reports_of : (ℕ → SegmentResult) → List ℤ → List (ℕ × SegmentResult)
reports_of results [] = []
reports_of results (pos n ∷ segs) = (n, results n) ∷ reports_of results segs
reports_of results (negsuc n ∷ segs) = reports_of results segs

-- All reports of a schedule, in order.
abbrev pub joined {ℓ} : {A : Type ℓ} → List (List A) → List A
joined [] = []
joined (b ∷ bs) = b ++ joined bs

reports-Agree :
    (results : ℕ → SegmentResult) (segs : List ℤ) → Agree results (reports_of results segs)
reports-Agree results [] = tt
reports-Agree results (pos n ∷ segs) = (refl, reports-Agree results segs)
reports-Agree results (negsuc n ∷ segs) = reports-Agree results segs

pub Agree-parts :
    (results : ℕ → SegmentResult) (xs ys : List (ℕ × SegmentResult))
    → Agree results (xs ++ ys)
    → Agree results xs × Agree results ys
Agree-parts results [] ys h = (tt, h)
Agree-parts results ((n, r) ∷ xs) ys (e, h) =
    let (a, b) = Agree-parts results xs ys h in ((e, a), b)

pub joined-AllAgree :
    (results : ℕ → SegmentResult) (bs : List (List (ℕ × SegmentResult)))
    → Agree results (joined bs)
    → AllAgree results bs
joined-AllAgree results [] h = tt
joined-AllAgree results (b ∷ bs) h =
    let (a, rest) = Agree-parts results b (joined bs) h in (a, joined-AllAgree results bs rest)

-- Lists of reports in which nothing comes, at the end.
pub quiet-AllAgree :
    (results : ℕ → SegmentResult) (bs late : List (List (ℕ × SegmentResult)))
    → AllAgree results bs
    → AllAgree results late
    → AllAgree results (bs ++ late)
quiet-AllAgree results [] late h q = q
quiet-AllAgree results (b ∷ bs) late (a, h) q = (a, quiet-AllAgree results bs late h q)

report_there :
    (results : ℕ → SegmentResult) (i : ℕ) (segs : List ℤ)
    → 0 < sum_of (is_seg i) segs
    → lookup i (reports_of results segs) ≢ none
unfolding lookup
report_there results i [] h = absurd (omega arith)
report_there results i (pos n ∷ segs) h = λ e. ground (arith, h, e, report_there results i segs)
report_there results i (negsuc n ∷ segs) h = report_there results i segs (ground (arith, h))

lookup-parts :
    (i : ℕ) (xs ys : List (ℕ × SegmentResult))
    → lookup i (xs ++ ys) ≢ none
    → (lookup i xs ≢ none) ⊎ (lookup i ys ≢ none)
unfolding lookup
lookup-parts i [] ys h = inr h
lookup-parts i ((n, r) ∷ xs) ys h = ground (arith, h, lookup-parts i xs ys)

pub joined-Reported :
    (i : ℕ) (bs : List (List (ℕ × SegmentResult))) → lookup i (joined bs) ≢ none → Reported i bs
unfolding lookup
joined-Reported i [] h = absurd (h refl)
joined-Reported i (b ∷ bs) h = elim (lookup-parts i b (joined bs) h) [
  | inl here ↦ inl here
  | inr there ↦ inr (joined-Reported i bs there)
]

pub quiet : (results : ℕ → SegmentResult) (n : ℕ) → AllAgree results (replicate n [])
quiet results zero = tt
quiet results (suc n) = (tt, quiet results n)

-- A stream from its queue to the merged file: take any interleaving of the workers of either queue that
-- ends with all of them past their loops, and any way in which their calls of
-- `Downloaded` fall between the iterations of the concat merger. Then, if the stream is not ignored,
-- the merger is through after one more iteration for each segment and one, and the merged file holds
-- what was copied from the segments that were downloaded, in the order of the segments.
pub stream_is_merged :
    (segments threads : ℕ) {resolved : List ℤ}
    → 0 < threads
    → Worked segments threads resolved
    → (results : ℕ → SegmentResult) (schedule : List (List (ℕ × SegmentResult)))
    → joined schedule ≡ reports_of results resolved
    → (delete_segments : Bool) (copy : String → Copied) (which : Which)
      (ignore_audio ignore_video : Bool) (p : MergeProgress)
    → ignored which ignore_audio ignore_video ≡ false
    → (v : Visit ConcatTask) × (merge_to_file delete_segments copy which ignore_audio ignore_video
          (schedule ++ replicate (segments + 1) [])
          segments
          p
        ≡ some v)
      × (v.out.target ≡ text_from delete_segments copy which results segments 0)
stream_is_merged segments threads {resolved} h worked results schedule e delete_segments copy which
      ia iv p shown =
    let once = worked_once worked h in
    merge_to_file_lem delete_segments copy which results ia iv segments schedule
      (replicate (segments + 1) []) p shown
      (quiet-AllAgree results schedule _
        (joined-AllAgree results schedule
          (subst (Agree results) (sym e) (reports-Agree results resolved)))
        (quiet results (segments + 1)))
      (λ i lt. joined-Reported i schedule (
        subst (λ l. lookup i l ≢ none) (sym e)
          (report_there results i resolved (ground (arith, once i, lt)))))
      (omega (arith, length-replicate {A = List (ℕ × SegmentResult)} (segments + 1) []))
