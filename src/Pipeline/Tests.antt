-- ===== src/Pipeline/Tests.antt =====
-- A stream of one segment, from the queue to the merged file.
use ytarchive_raw_go.Prelude.{
  ◌&&◌, not, ltb, ◌==◌, if◌then◌else◌, ℕ, zero, suc, ◌<◌, ◌⊎◌, ◌≡◌, refl, sym, pos, false, true,
  none, inl, inr, List, [], ◌∷◌, ◌++◌, Option, some, arith, replicate,
}
use Prim.Native.String.{String}
use ytarchive_raw_go.Prelude.Dict.{lookup}
use ytarchive_raw_go.Prelude.Text.{Bytes, codes, to_lower_byte}
use ytarchive_raw_go.Segments.Status.{SegmentResult, create, done, downloaded, next_to_merge}
use ytarchive_raw_go.Segments.Tests.{one_batch-Worked, one_counter-Worked}
use ytarchive_raw_go.Templates.{FregMetadata}
use ytarchive_raw_go.Merge.Counters.{new_progress, merged_audio, init_total}
use ytarchive_raw_go.Merge.Loop.{receive, audio, Visit, ignored, for_each_segment, count}
use ytarchive_raw_go.Merge.Loop.Receive.{Reported}
use ytarchive_raw_go.Merge.Concat.{ConcatTask, Copied, merge_to_file}
use ytarchive_raw_go.Merge.DownloadOnly.{
  DownloadJson, keep_segment, list_segments, write_info, InfoMerge, merging, merge_parsed,
  merge_download_info_json,
}
use ytarchive_raw_go.Merge.Options.{MuxerOptions, Ffmpeg, concat}
use ytarchive_raw_go.Pipeline.{stream_is_merged}
use ytarchive_raw_go.Download.Task.{segment_count}
use ytarchive_raw_go.Download.Run.{run}
use ytarchive_raw_go.Pipeline.Lost.{times, run-lost}
use ytarchive_raw_go.Download.Store.{Fetch, Saved, Answered}
use ytarchive_raw_go.Download.Store.Tests.{
  tally, tally-dotless, tally-injective, one_fetch, any_path, no_files, no_files-Fresh,
  one_fetch-Saved, one_fetch-done,
}
use ytarchive_raw_go.Pipeline.Content.{Reads, bodies_from, stream_has_answers}
use ytarchive_raw_go.Pipeline.Later.{merged_later}

abbrev one_result : ℕ → SegmentResult
one_result n = record { filename = "s0"; is_ok = true }

abbrev two_bytes : String → Copied
two_bytes name = record { written = codes "xy"; succeeds = true }

abbrev arrivals : List (List (ℕ × SegmentResult))
arrivals = [] ∷ ((0, one_result 0) ∷ []) ∷ []

stream_is_merged_example :
    (v : Visit ConcatTask) × (merge_to_file false two_bytes audio false false
        (arrivals ++ replicate 2 [])
        1
        new_progress
      ≡ some v)
    × (v.out.target ≡ codes "xy")
unfolding ignored
stream_is_merged_example =
    stream_is_merged 1 1 (omega arith) one_batch-Worked one_result arrivals refl false two_bytes
      audio false false new_progress refl

abbrev metadata : FregMetadata
metadata = record {
  title = codes "t";
  id = codes "i";
  channel_name = codes "c";
  channel_url = codes "https://www.youtube.com/channel/UC";
  description = [];
  start_date = codes "20220101";
  start_timestamp = codes "2022-01-01T00:00:00Z";
}

abbrev listed : Visit (Option (List SegmentResult))
listed = record {
  status = record { end = 1; merged_count = 1; segments = []; missed = [] };
  progress = record new_progress { total = pos 1; audio = 1 };
  out = some (one_result 0 ∷ []);
  misses = 0;
  slept = 1;
}

listed_there :
    list_segments audio false false (arrivals ++ replicate 2 []) 1 new_progress ≡ some listed
unfolding list_segments create done downloaded next_to_merge for_each_segment count keep_segment
    merged_audio init_total
listed_there = refl

arrivals_have_all : (i : ℕ) → i < 1 → Reported i arrivals
unfolding lookup
arrivals_have_all zero h = inr (inl (λ e. cc))
arrivals_have_all (suc i) h = absurd (omega arith)

abbrev info : DownloadJson
info = record {
  freg_data = metadata;
  audio_segments = some (one_result 0 ∷ []);
  video_segments = none;
}

-- What is merged with, up to the name of the output, which has no keys.
abbrev later_options : MuxerOptions
later_options = record {
  delete_segments = true;
  disable_resume = true;
  final_file_base = codes "out";
  overwrite_temp = false;
  temp_dir = codes "tmp";
  ignore_audio = false;
  ignore_video = false;
  merger = codes "concat";
  merger_arguments = [];
}

abbrev later_merge : InfoMerge
later_merge = record {
  options = record later_options { ignore_video = true };
  freg_data = metadata;
  muxer = concat;
  audio_feed = (1, (0, one_result 0) ∷ []);
  video_feed = (0, []);
}

abbrev ffmpeg_4 : Ffmpeg
ffmpeg_4 = record { runs = true; has_tcp = true; has_file = true }

merges_later :
    merge_download_info_json 1 some ffmpeg_4 false later_options (some info) ≡ merging later_merge
unfolding merge_download_info_json merge_parsed to_lower_byte
merges_later = refl

merged_later_example :
    (w : Visit ConcatTask) × (merge_to_file true two_bytes audio false true
        (arrivals ++ replicate 2 [])
        1
        new_progress
      ≡ some w)
    × (w.out.target ≡ codes "xy")
unfolding ignored write_info
merged_later_example =
    merged_later audio one_result 1 arrivals (replicate 2 []) false false new_progress listed
      (omega arith) (tt, ((refl, tt), (tt, (tt, tt)))) arrivals_have_all (omega arith) refl
      listed_there some some metadata none info (λ i t e. sym e) refl 1 ffmpeg_4 false later_options
      later_merge refl merges_later two_bytes arrivals new_progress refl

-- The one segment is given up.
abbrev given_up : ℕ → SegmentResult
given_up n = record { filename = ""; is_ok = false }

two_tries : segment_count 0 (λ i. if i == 1 then some 1 else none) ≡ some 1
unfolding segment_count
two_tries = refl

run_lost_example :
    let r = run 0 (λ i. if i == 1 then some 1 else none) (receive ((0, given_up 0) ∷ [])) in
    (r.result.has_error ≡ false)
    × (r.result.total_segments ≡ 1)
    × (r.merging ≡ some (create 1))
    × ((k : ℕ)
        → times k r.result.lost_segments ≡ (if ltb k 1 && not (given_up k).is_ok then 1 else 0))
run_lost_example = run-lost 1 1 (omega arith) one_counter-Worked given_up 0 _ two_tries

first_read :
    (n : ℕ)
    → n < 1
    → (one_result n).is_ok ≡ true
    → (seen : List Fetch) × (late : List Fetch) × (◌≡◌ {A = List Fetch} one_fetch (seen ++ late))
      × Saved tally (codes "id") false any_path (pos 2) (pos n) no_files seen
      × Reads tally
          (codes "id")
          false
          any_path
          tally-dotless
          tally-injective
          no_files
          (pos 2)
          n
          seen
          (two_bytes (one_result n).filename).written
first_read zero lt ok = (one_fetch, [], refl, one_fetch-Saved, one_fetch-done)
first_read (suc n) lt ok = absurd (omega (arith, lt))

stream_has_answers_example :
    (v : Visit ConcatTask) × (merge_to_file false two_bytes audio false false
        (arrivals ++ replicate 2 [])
        1
        new_progress
      ≡ some v)
    × (body : ℕ → Bytes) × (v.out.target ≡ bodies_from body 1 0)
    × ((n : ℕ)
        → n < 1
        → (((one_result n).is_ok ≡ true) × Answered (pos 2) (pos n) (body n) one_fetch)
          ⊎ (((one_result n).is_ok ≡ false) × (body n ≡ [])))
unfolding ignored
stream_has_answers_example =
    stream_has_answers tally (codes "id") false any_path tally-dotless tally-injective no_files
      one_fetch (pos 2) no_files-Fresh (refl, tt) 1 1 (omega arith) one_batch-Worked one_result
      arrivals refl false two_bytes audio false false new_progress refl first_read
