-- ===== src/Pipeline/Later.antt =====
-- merge/download_only.go with merge/concat.go: a stream that is listed first and merged later.
use ytarchive_raw_go.Prelude.{
  ℕ, zero, suc, ◌+◌, ◌≤◌, ◌<◌, ◌≡◌, refl, sym, subst, ap, ◌∙◌, ◌≢◌, Bool, false, ◌||◌, List, [],
  ◌∷◌, ◌++◌, Option, some, none, arith, length, replicate, length-replicate,
}
use mathlib.Core.List.{append-nil, append_assoc}
use Prim.Native.String.{String}
use ytarchive_raw_go.Prelude.Dict.{lookup}
use ytarchive_raw_go.Segments.Status.{SegmentResult}
use ytarchive_raw_go.Templates.{FregMetadata}
use ytarchive_raw_go.Merge.Counters.{MergeProgress}
use ytarchive_raw_go.Merge.Loop.{Which, audio, video, Visit, ignored}
use ytarchive_raw_go.Merge.Loop.Receive.{Agree, AllAgree, Reported}
use ytarchive_raw_go.Merge.Loop.Order.{in_order, for_each_segment_lem}
use ytarchive_raw_go.Merge.Concat.{ConcatTask, Copied, merge_to_file, text_from, merge_to_file_lem}
use ytarchive_raw_go.Merge.DownloadOnly.{
  DownloadJson, keep_segment, list_segments, write_info, elements, feed_from, feed_merger,
  InfoMerge, merging, merge_download_info_json,
}
use ytarchive_raw_go.Merge.DownloadOnly.Outcome.{
  is_nil, info_options-ignore, Outcome, merge_download_info_json-Outcome,
}
use ytarchive_raw_go.Merge.Options.{MuxerOptions, Ffmpeg}
use ytarchive_raw_go.Pipeline.{joined, joined-AllAgree, quiet-AllAgree, joined-Reported, quiet}

-- The results of `k` segments from the `i`-th on.
abbrev results_from : (ℕ → SegmentResult) → ℕ → ℕ → List SegmentResult
results_from results zero i = []
results_from results (suc k) i = results i ∷ results_from results k (suc i)

length-results_from :
    (results : ℕ → SegmentResult) (k i : ℕ) → length (results_from results k i) ≡ k
length-results_from results zero i = refl
length-results_from results (suc k) i = omega (arith, length-results_from results k (suc i))

keeps_rest :
    (which : Which) (results : ℕ → SegmentResult) (k i : ℕ) (rs : List SegmentResult)
    → in_order which keep_segment results k i (some rs) ≡ some (rs ++ results_from results k i)
unfolding keep_segment
keeps_rest which results zero i rs = ap some (sym (append-nil rs))
keeps_rest which results (suc k) i rs =
    keeps_rest which results k (suc i) (rs ++ results i ∷ [])
    ∙ ap some (append_assoc rs (results i ∷ []) (results_from results k (suc i)))

keeps_all :
    (which : Which) (results : ℕ → SegmentResult) (k i : ℕ)
    → elements (in_order which keep_segment results k i none) ≡ results_from results k i
unfolding keep_segment elements
keeps_all which results zero i = refl
keeps_all which results (suc k) i =
    ap elements (keeps_rest which results k (suc i) (results i ∷ []))

feed_from-Agree :
    (results : ℕ → SegmentResult) (k i : ℕ) → Agree results (feed_from i (results_from results k i))
unfolding feed_from
feed_from-Agree results zero i = tt
feed_from-Agree results (suc k) i = (refl, feed_from-Agree results k (suc i))

feed_from-there :
    (results : ℕ → SegmentResult) (k i j : ℕ)
    → i ≤ j
    → j < i + k
    → lookup j (feed_from i (results_from results k i)) ≢ none
unfolding feed_from lookup
feed_from-there results zero i j lo hi = absurd (omega (arith, lo, hi))
feed_from-there results (suc k) i j lo hi =
    λ e. ground (arith, lo, hi, e, feed_from-there results k (suc i) j)

-- The segments of a stream in the file.
abbrev pub stream_of : Which → DownloadJson → Option (List SegmentResult)
stream_of audio info = info.audio_segments
stream_of video info = info.video_segments

-- What `Mux` writes, with the segments of one stream and of the other.
abbrev pub written {ℓ} :
    {Text : Type ℓ}
    → (DownloadJson → Option Text)
    → FregMetadata
    → Which
    → (this other : Option (List SegmentResult)) → Option Text
written encode freg_data audio this other = write_info encode freg_data this other
written encode freg_data video this other = write_info encode freg_data other this

read_back {ℓ} :
    {Text : Type ℓ} (encode : DownloadJson → Option Text) (decode : Text → Option DownloadJson)
    (freg_data : FregMetadata) (which : Which) (this other : Option (List SegmentResult))
    (text : Text)
    → ((info : DownloadJson) (text : Text) → encode info ≡ some text → decode text ≡ some info)
    → written encode freg_data which this other ≡ some text
    → (info : DownloadJson) × (decode text ≡ some info) × (stream_of which info ≡ this)
unfolding write_info
read_back encode decode freg_data audio this other text back e = (_, back _ text e, refl)
read_back encode decode freg_data video this other text back e = (_, back _ text e, refl)

feed_merger-of :
    (data_ : Option (List SegmentResult)) (rs : List SegmentResult)
    → elements data_ ≡ rs
    → feed_merger data_ ≡ (length rs, feed_from 0 rs)
unfolding feed_merger
feed_merger-of data_ rs e = rw e refl

-- The concat merger of a stream, fed in any way.
merge_fed :
    (which : Which) (results : ℕ → SegmentResult) (n : ℕ) (delete_segments : Bool)
    (copy : String → Copied) (schedule : List (List (ℕ × SegmentResult))) (sa sv : Bool)
    (q : MergeProgress)
    → ignored which sa sv ≡ false
    → joined schedule ≡ feed_from 0 (results_from results n 0)
    → (w : Visit ConcatTask) × (merge_to_file delete_segments copy which sa sv
          (schedule ++ replicate (n + 1) [])
          n
          q
        ≡ some w)
      × (w.out.target ≡ text_from delete_segments copy which results n 0)
merge_fed which results n delete_segments copy schedule sa sv q shown calls =
    merge_to_file_lem delete_segments copy which results sa sv n schedule (replicate (n + 1) []) q
      shown
      (quiet-AllAgree results schedule _
        (joined-AllAgree results schedule
          (subst (Agree results) (sym calls) (feed_from-Agree results n 0)))
        (quiet results (n + 1)))
      (λ i lt. joined-Reported i schedule (
        subst (λ l. lookup i l ≢ none) (sym calls)
          (feed_from-there results n 0 i (omega arith) (omega (arith, lt)))))
      (omega (arith, length-replicate {A = List (ℕ × SegmentResult)} (n + 1) []))

-- The feed of the merger of a stream.
abbrev pub feed_of : Which → InfoMerge → ℕ × List (ℕ × SegmentResult)
feed_of audio m = m.audio_feed
feed_of video m = m.video_feed

-- A stream that main's options do not ignore, and that has a segment, is not ignored later.
still_shown :
    (which : Which) (options o : MuxerOptions) (info : DownloadJson)
    → o.ignore_audio ≡ (options.ignore_audio || is_nil info.audio_segments)
    → o.ignore_video ≡ (options.ignore_video || is_nil info.video_segments)
    → ignored which options.ignore_audio options.ignore_video ≡ false
    → is_nil (stream_of which info) ≡ false
    → ignored which o.ignore_audio o.ignore_video ≡ false
unfolding ignored
still_shown audio options o info ia iv shown there = ground (arith, ia, shown, there)
still_shown video options o info ia iv shown there = ground (arith, iv, shown, there)

some_segments :
    (results : ℕ → SegmentResult) (n : ℕ) (data_ : Option (List SegmentResult))
    → 0 < n
    → elements data_ ≡ results_from results n 0
    → is_nil data_ ≡ false
unfolding elements
some_segments results zero data_ h e = absurd (omega (arith, h))
some_segments results (suc n) none h e = cc
some_segments results (suc n) (some rs) h e = refl

-- What `MergeDownloadInfoJson` makes of a file that holds the segments of a stream.
merging_lem {ℓ} :
    {Text : Type ℓ} (which : Which) (results : ℕ → SegmentResult) (n : ℕ)
    (decode : Text → Option DownloadJson) (f : Ffmpeg) (options : MuxerOptions) (text : Text)
    (info : DownloadJson) (m : InfoMerge)
    → 0 < n
    → decode text ≡ some info
    → elements (stream_of which info) ≡ results_from results n 0
    → ignored which options.ignore_audio options.ignore_video ≡ false
    → Outcome decode f options (some text) (merging m)
    → (ignored which m.options.ignore_audio m.options.ignore_video ≡ false)
      × (feed_of which m ≡ (n, feed_from 0 (results_from results n 0)))
merging_lem which results n decode f options text info m h parsed segments shown
      (text', info', base, read', parsed', same_options, audio_fed, video_fed) =
    let same_text : text ≡ text' = cc read' in
    let same_info : info' ≡ info = cc (parsed, parsed', same_text) in
    let (ignores_audio, ignores_video) = info_options-ignore options info' in
    let segments' : elements (stream_of which info') ≡ results_from results n 0 =
      ap (λ (i : DownloadJson). elements (stream_of which i)) same_info ∙ segments in
    (
      still_shown which options m.options info'
          (ap (λ (o : MuxerOptions). o.ignore_audio) same_options ∙ ignores_audio)
          (ap (λ (o : MuxerOptions). o.ignore_video) same_options ∙ ignores_video) shown
          (some_segments results n (stream_of which info') h segments'),
      the_feed which
          ∙ (feed_merger-of (stream_of which info') (results_from results n 0) segments'
              ∙ ap (λ k. (k, feed_from 0 (results_from results n 0)))
                  (length-results_from results n 0)),
    )
  where
    the_feed : (w : Which) → feed_of w m ≡ feed_merger (stream_of w info')
    the_feed audio = audio_fed
    the_feed video = video_fed

-- A stream of at least one segment that the download-only muxer listed, and that
-- `MergeDownloadInfoJson` merges from the file with the concat merger: if every segment had been reported
-- to the listing merger, JSON reads what it writes, the options for merging do not ignore the stream,
-- a muxer is chosen, and the calls of `feedMerger` for the stream fall in any way between the
-- iterations of the merger, then the merger is through after one more iteration for each segment and
-- one, and its file holds what the segments have in their order.
pub merged_later {ℓ} :
    {Text : Type ℓ} (which : Which) (results : ℕ → SegmentResult) (segment_count : ℕ)
    (early late : List (List (ℕ × SegmentResult))) (ignore_audio ignore_video : Bool)
    (p : MergeProgress) (v : Visit (Option (List SegmentResult)))
    → 0 < segment_count
    → AllAgree results (early ++ late)
    → ((i : ℕ) → i < segment_count → Reported i early)
    → segment_count < length late
    → ignored which ignore_audio ignore_video ≡ false
    → list_segments which ignore_audio ignore_video (early ++ late) segment_count p ≡ some v
    → (encode : DownloadJson → Option Text) (decode : Text → Option DownloadJson)
      (freg_data : FregMetadata) (other : Option (List SegmentResult)) (text : Text)
    → ((i : DownloadJson) (t : Text) → encode i ≡ some t → decode t ≡ some i)
    → written encode freg_data which v.out other ≡ some text
    → (fuel : ℕ) (f : Ffmpeg) (is_locked : Bool) (options : MuxerOptions) (m : InfoMerge)
    → ignored which options.ignore_audio options.ignore_video ≡ false
    → merge_download_info_json fuel decode f is_locked options (some text) ≡ merging m
    → (copy : String → Copied) (schedule : List (List (ℕ × SegmentResult))) (q : MergeProgress)
    → joined schedule ≡ (feed_of which m).1
    → (w : Visit ConcatTask) × (merge_to_file m.options.disable_resume copy which
          m.options.ignore_audio m.options.ignore_video
          (schedule ++ replicate (segment_count + 1) [])
          (feed_of which m).0
          q
        ≡ some w)
      × (w.out.target ≡ text_from m.options.disable_resume copy which results segment_count 0)
unfolding list_segments
merged_later which results n early late ia iv p v h agree all enough shown listed encode decode
      freg_data other text back written_as fuel f is_locked options m shown_later merges copy
      schedule q fed =
    let (v', runs, out, end) =
      for_each_segment_lem which keep_segment results ia iv n early late p none shown agree all
        enough in
    let same_run : v.out ≡ v'.out = cc (listed, runs) in
    let kept : elements v.out ≡ results_from results n 0 =
      ap elements (same_run ∙ out) ∙ keeps_all which results n 0 in
    let (info, parsed, stream) =
      read_back encode decode freg_data which v.out other text back written_as in
    let (shown_now, feed) =
      merging_lem which results n decode f options text info m h parsed (ap elements stream ∙ kept)
        shown_later
        (subst (Outcome decode f options (some text)) merges
          (merge_download_info_json-Outcome decode f options (some text) fuel is_locked)) in
    let count : (feed_of which m).0 ≡ n = ap (λ (x : ℕ × List (ℕ × SegmentResult)). x.0) feed in
    rw count (
      merge_fed which results n m.options.disable_resume copy schedule m.options.ignore_audio
        m.options.ignore_video q shown_now
        (fed ∙ ap (λ (x : ℕ × List (ℕ × SegmentResult)). x.1) feed))
