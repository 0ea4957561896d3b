-- ===== src/Merge/DownloadOnly/Outcome.antt =====
-- merge/download_only.go: what `MergeDownloadInfoJson` comes to, in terms of the file that it reads.
use ytarchive_raw_go.Prelude.{
  ℕ, ◌≡◌, refl, Bool, true, false, ◌||◌, List, Option, none, some, if◌then◌else◌, Option-cases, inl,
  inr,
}
use ytarchive_raw_go.Prelude.Text.{Bytes, codes, same}
use ytarchive_raw_go.Segments.Status.{SegmentResult}
use ytarchive_raw_go.Templates.{fill_format_vals, format_template, formatted, unknown_key}
use ytarchive_raw_go.Merge.Options.{
  MuxerOptions, Ffmpeg, Choice, chosen, refused, create_best_muxer,
}
use ytarchive_raw_go.Merge.DownloadOnly.{
  DownloadJson, feed_merger, InfoResult, failed, merging, no_muxer, unreadable, not_parsed,
  info_options, start_muxer, merge_parsed, merge_download_info_json,
}

-- The file has no segments of a stream: the slice is nil.
abbrev pub is_nil : Option (List SegmentResult) → Bool
is_nil none = true
is_nil (some rs) = false

pub info_options-ignore :
    (options : MuxerOptions) (info : DownloadJson)
    → ((info_options options info).ignore_audio
        ≡ (options.ignore_audio || is_nil info.audio_segments))
      × ((info_options options info).ignore_video
          ≡ (options.ignore_video || is_nil info.video_segments))
unfolding info_options
info_options-ignore options info = (
  by_slice options.ignore_audio info.audio_segments,
  by_slice options.ignore_video info.video_segments,
)
  where
    by_slice :
        (b : Bool) (l : Option (List SegmentResult))
        → (elim l [ none ↦ true | some rs ↦ b ]) ≡ (b || is_nil l)
    by_slice true none = refl
    by_slice false none = refl
    by_slice true (some rs) = refl
    by_slice false (some rs) = refl

-- What the result says of the file: it was read and parsed when a muxer is chosen or refused, with
-- the options that the file changes.
abbrev pub Outcome {ℓ} :
    {Text : Type ℓ}
    → (Text → Option DownloadJson)
    → Ffmpeg
    → MuxerOptions
    → Option Text
    → InfoResult
    → Type ℓ
Outcome {Text} decode f options file (failed (no_muxer e)) =
    (text : Text) × (info : DownloadJson) × (base : Bytes) × (file ≡ some text)
    × (decode text ≡ some info)
    × (create_best_muxer f (record (info_options options info) { final_file_base = base })
        ≡ refused e)
Outcome {Text} decode f options file (failed _) = Unit
Outcome {Text} decode f options file (merging m) =
    (text : Text) × (info : DownloadJson) × (base : Bytes) × (file ≡ some text)
    × (decode text ≡ some info)
    × (m.options ≡ record (info_options options info) { final_file_base = base })
    × (m.audio_feed ≡ feed_merger info.audio_segments)
    × (m.video_feed ≡ feed_merger info.video_segments)

module _ {ℓ} {Text : Type ℓ} (decode : Text → Option DownloadJson) (f : Ffmpeg)
    (options : MuxerOptions) (file : Option Text) where
  if-Outcome :
      (b : Bool) (r s : InfoResult)
      → Outcome decode f options file r
      → Outcome decode f options file s
      → Outcome decode f options file (if b then r else s)
  if-Outcome true r s h k = h
  if-Outcome false r s h k = k

  start_muxer-Outcome :
      (text : Text) (info : DownloadJson) (base : Bytes)
      → file ≡ some text
      → decode text ≡ some info
      → Outcome decode f options file
          (start_muxer f (record (info_options options info) { final_file_base = base }) info)
  unfolding start_muxer
  start_muxer-Outcome text info base read parsed =
      by_choice
        (create_best_muxer f (record (info_options options info) { final_file_base = base })) refl
    where
      by_choice :
          (c : Choice)
          → create_best_muxer f (record (info_options options info) { final_file_base = base }) ≡ c
          → Outcome decode f options file (elim c [
            | refused e ↦ failed (no_muxer e)
            | chosen m ↦ merging (record {
              options = record (info_options options info) { final_file_base = base };
              freg_data = info.freg_data;
              muxer = m;
              audio_feed = feed_merger info.audio_segments;
              video_feed = feed_merger info.video_segments;
            })
          ])
      by_choice (refused e) q = (text, info, base, read, parsed, q)
      by_choice (chosen m) q = (text, info, base, read, parsed, refl, refl, refl)

  merge_parsed-Outcome :
      (fuel : ℕ) (is_locked : Bool) (text : Text) (info : DownloadJson)
      → file ≡ some text
      → decode text ≡ some info
      → Outcome decode f options file (merge_parsed fuel f is_locked options info)
  unfolding merge_parsed
  merge_parsed-Outcome fuel is_locked text info read parsed =
      elim (Option-cases (fill_format_vals info.freg_data)) [
        | inl no_vals ↦ rw no_vals tt
        | inr (vals, filled) ↦
            elim (Option-cases (format_template fuel vals true options.final_file_base)) [
              | inl endless ↦ rw (filled, endless) tt
              | inr (unknown_key key, made) ↦ rw (filled, made) tt
              | inr (formatted base, made) ↦
                  rw (filled, made)
                    (if-Outcome is_locked _ _ tt (start_muxer-Outcome text info base read parsed))
            ]
      ]

  pub merge_download_info_json-Outcome :
      (fuel : ℕ) (is_locked : Bool)
      → Outcome decode f options file
          (merge_download_info_json fuel decode f is_locked options file)
  unfolding merge_download_info_json
  merge_download_info_json-Outcome fuel is_locked =
      if-Outcome (same options.merger (codes "download-only")) _ _ tt (by_file file refl)
    where
      by_text :
          (text : Text)
          → file ≡ some text
          → (x : Option DownloadJson) → decode text ≡ x
          → Outcome decode f options file (elim x [
            | none ↦ failed not_parsed
            | some info ↦ merge_parsed fuel f is_locked options info
          ])
      by_text text read none parsed = tt
      by_text text read (some info) parsed =
          merge_parsed-Outcome fuel is_locked text info read parsed

      by_file :
          (x : Option Text)
          → file ≡ x
          → Outcome decode f options file (elim x [
            | none ↦ failed unreadable
            | some text ↦ elim (decode text) [
              | none ↦ failed not_parsed
              | some info ↦ merge_parsed fuel f is_locked options info
            ]
          ])
      by_file none read = tt
      by_file (some text) read = by_text text read (decode text) refl
