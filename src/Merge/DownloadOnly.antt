-- ===== src/Merge/DownloadOnly.antt =====
-- merge/download_only.go: the muxer that only lists the segments, and `MergeDownloadInfoJson`, which merges
-- them later. JSON, with the type of its texts, FFmpeg and reading the file are outside.
pub mod Outcome
use ytarchive_raw_go.Prelude.{
  ℕ, suc, Bool, true, List, [], ◌∷◌, ◌++◌, Option, none, some, if◌then◌else◌, length,
}
use ytarchive_raw_go.Prelude.Text.{codes, same}
use ytarchive_raw_go.Segments.Status.{SegmentResult, create}
use ytarchive_raw_go.Templates.{
  FregMetadata, fill_format_vals, format_template, formatted, unknown_key,
}
use ytarchive_raw_go.Merge.Counters.{MergeProgress}
use ytarchive_raw_go.Merge.Loop.{Which, Visit, for_each_segment}
use ytarchive_raw_go.Merge.Options.{
  MuxerOptions, Muxer, MuxerError, Ffmpeg, chosen, refused, create_best_muxer,
}

-- `downloadJson`; `none` is a slice that is nil.
pub record DownloadJson : Type 0 where
  pub freg_data : FregMetadata
  pub audio_segments : Option (List SegmentResult)
  pub video_segments : Option (List SegmentResult)

-- `append(t.segments, result)`
unfoldable pub keep_segment :
    Option (List SegmentResult) → SegmentResult → Option (List SegmentResult)
keep_segment none r = some (r ∷ [])
keep_segment (some rs) r = some (rs ++ r ∷ [])

-- `downloadOnlyTask.Merge`
unfoldable pub list_segments :
    Which
    → Bool
    → Bool
    → List (List (ℕ × SegmentResult))
    → ℕ
    → MergeProgress
    → Option (Visit (Option (List SegmentResult)))
list_segments which ignore_audio ignore_video schedule segment_count p =
    for_each_segment which keep_segment ignore_audio ignore_video schedule (create segment_count) p
      none

-- `DownloadOnlyMuxer.Mux`, once both mergers are through: what is written.
unfoldable pub write_info {ℓ} :
    {Text : Type ℓ}
    → (DownloadJson → Option Text)
    → FregMetadata
    → Option (List SegmentResult)
    → Option (List SegmentResult)
    → Option Text
write_info encode freg_data audio_segments video_segments = encode (record {
  freg_data = freg_data;
  audio_segments = audio_segments;
  video_segments = video_segments;
})

-- The calls of `Downloaded` in the loop of `feedMerger`, from the `idx`-th on.
unfoldable pub feed_from : ℕ → List SegmentResult → List (ℕ × SegmentResult)
feed_from idx [] = []
feed_from idx (v ∷ data_) = (idx, v) ∷ feed_from (suc idx) data_

-- A nil slice has no elements.
unfoldable pub elements : Option (List SegmentResult) → List SegmentResult
elements none = []
elements (some rs) = rs

-- `feedMerger`: the segments that its status has, and the calls of `Downloaded`.
unfoldable pub feed_merger : Option (List SegmentResult) → ℕ × List (ℕ × SegmentResult)
unfolding elements feed_from
feed_merger data_ = (length (elements data_), feed_from 0 (elements data_))

-- What is merged later.
pub record InfoMerge : Type 0 where
  pub options : MuxerOptions
  pub freg_data : FregMetadata
  pub muxer : Muxer
  pub audio_feed : ℕ × List (ℕ × SegmentResult)
  pub video_feed : ℕ × List (ℕ × SegmentResult)

pub data InfoError : Type 0 where
  not_for_merge : InfoError
  unreadable : InfoError
  not_parsed : InfoError
  bad_channel_url : InfoError
  bad_template : InfoError
  endless_template : InfoError  -- it never ends
  info_output_locked : InfoError  -- another instance writes to the output file
  no_muxer : MuxerError → InfoError

pub data InfoResult : Type 0 where
  failed : InfoError → InfoResult
  merging : InfoMerge → InfoResult

-- A stream without segments is ignored.
unfoldable pub info_options : MuxerOptions → DownloadJson → MuxerOptions
info_options options info = record options {
  ignore_audio = elim info.audio_segments [ none ↦ true | some rs ↦ options.ignore_audio ];
  ignore_video = elim info.video_segments [ none ↦ true | some rs ↦ options.ignore_video ];
}

unfoldable pub start_muxer : Ffmpeg → MuxerOptions → DownloadJson → InfoResult
unfolding create_best_muxer feed_merger
start_muxer f options info = elim (create_best_muxer f options) [
  | refused e ↦ failed (no_muxer e)
  | chosen m ↦ merging (record {
    options = options;
    freg_data = info.freg_data;
    muxer = m;
    audio_feed = feed_merger info.audio_segments;
    video_feed = feed_merger info.video_segments;
  })
]

-- `MergeDownloadInfoJson` once the file is parsed, up to the muxer's `Mux`; with fuel for the template.
-- Is the output locked?
unfoldable pub merge_parsed : ℕ → Ffmpeg → Bool → MuxerOptions → DownloadJson → InfoResult
unfolding fill_format_vals format_template info_options start_muxer
merge_parsed fuel f is_locked options info = elim (fill_format_vals info.freg_data) [
  | none ↦ failed bad_channel_url
  | some vals ↦ elim (format_template fuel vals true options.final_file_base) [
    | none ↦ failed endless_template
    | some (unknown_key key) ↦ failed bad_template
    | some (formatted base) ↦
        if is_locked
        then failed info_output_locked
        else start_muxer f (record (info_options options info) { final_file_base = base }) info
  ]
]

-- `MergeDownloadInfoJson`, up to the muxer's `Mux`.
unfoldable pub merge_download_info_json {ℓ} :
    {Text : Type ℓ}
    → ℕ
    → (Text → Option DownloadJson)
    → Ffmpeg
    → Bool
    → MuxerOptions
    → Option Text
    → InfoResult
unfolding same merge_parsed
merge_download_info_json fuel decode f is_locked options file =
    if same options.merger (codes "download-only") then failed not_for_merge else (elim file [
      | none ↦ failed unreadable
      | some text ↦ elim (decode text) [
        | none ↦ failed not_parsed
        | some info ↦ merge_parsed fuel f is_locked options info
      ]
    ])
