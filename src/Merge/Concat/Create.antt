-- ===== src/Merge/Concat/Create.antt =====
-- merge/concat.go and merge/download_only.go: `CreateConcatMuxer` and `CreateDownloadOnlyMuxer`, their tasks and the
-- paths of their results.
use ytarchive_raw_go.Prelude.{
  ◌≡◌, refl, sym, ◌∙◌, Bool-cases, ◌↔◌, ◌⊎◌, inl, inr, Bool, true, false, ◌∷◌, ◌++◌, Option, none,
  some,
}
use ytarchive_raw_go.Prelude.Text.{Bytes, codes}
use ytarchive_raw_go.Merge.Loop.{Which, audio, video}
use ytarchive_raw_go.Merge.Options.{MuxerOptions}
use ytarchive_raw_go.Merge.Concat.Mux.{CreateTask, created, create_concat_task}

-- The name that `createConcatTask` gives to the merged file, in the directory for temporary files.
unfoldable pub merged_name : Bytes → Which → Bytes
merged_name id audio = codes "merged-" ++ (id ++ codes ".audio")
merged_name id video = codes "merged-" ++ (id ++ codes ".video")

-- A task of a muxer: its input of FFmpeg, and whether its merger deletes the segments.
pub record MergeTask : Type 0 where
  pub which : Which
  pub ffmpeg_input : Bytes
  pub delete_segments : Bool

pub record MuxerTasks : Type 0 where
  pub audio_merger : MergeTask
  pub video_merger : MergeTask

-- `CreateConcatMuxer` fails with the error of the first task that does.
pub data CreateConcat : Type 0 where
  failed : Which → CreateTask → CreateConcat
  muxer : MuxerTasks → CreateConcat

-- The merged files in the directory: whether one has text, and whether it can be removed.
pub record MergedFile : Type 0 where
  pub not_empty : Bool
  pub removable : Bool

-- The task, if it is created.
unfoldable pub task_of : MuxerOptions → Bytes → Which → CreateTask → Option MergeTask
unfolding merged_name
task_of options id which (created removed deletes) = some (record {
  which = which;
  ffmpeg_input = options.temp_dir ++ (b'/' ∷ merged_name id which);
  delete_segments = deletes;
})
task_of options id which e = none

unfoldable pub create_concat_muxer : MuxerOptions → Bytes → (Which → MergedFile) → CreateConcat
unfolding create_concat_task task_of
create_concat_muxer options id files =
    let a = create_concat_task options (files audio).not_empty (files audio).removable in
    let v = create_concat_task options (files video).not_empty (files video).removable in
    elim (task_of options id audio a) [
      | none ↦ failed audio a
      | some at ↦ elim (task_of options id video v) [
        | none ↦ failed video v
        | some vt ↦ muxer (record { audio_merger = at; video_merger = vt })
      ]
    ]

-- `createDownloadOnlyTask` and `CreateDownloadOnlyMuxer`: nothing can fail.
unfoldable pub create_download_only_task : Which → MergeTask
create_download_only_task which = record {
  which = which;
  ffmpeg_input = codes "nil";
  delete_segments = false;
}

unfoldable pub create_download_only_muxer : MuxerTasks
unfolding create_download_only_task
create_download_only_muxer = record {
  audio_merger = create_download_only_task audio;
  video_merger = create_download_only_task video;
}

-- `OutputFilePath` of the muxers.
unfoldable pub mkv_path : MuxerOptions → Bytes
mkv_path options = options.final_file_base ++ codes ".mkv"

unfoldable pub json_path : MuxerOptions → Bytes
json_path options = options.final_file_base ++ codes ".json"

-- The file of a stream is not in the way.
abbrev pub Usable : MuxerOptions → MergedFile → Type 0
Usable options f = f.not_empty ≡ true → (options.overwrite_temp ≡ true) × (f.removable ≡ true)

task_cases :
    (options : MuxerOptions) (id : Bytes) (which : Which) (f : MergedFile)
    → ((task_of options id which (create_concat_task options f.not_empty f.removable) ≡ none)
        × (Usable options f → ⊥))
      ⊎ ((t : MergeTask) × (task_of options id which
              (create_concat_task options f.not_empty f.removable)
            ≡ some t)
          × Usable options f)
unfolding create_concat_task task_of
task_cases options id which f =
    let made : MergeTask = record {
      which = which;
      ffmpeg_input = options.temp_dir ++ (b'/' ∷ merged_name id which);
      delete_segments = options.disable_resume;
    } in
    elim (Bool-cases f.not_empty) [
      | inr fresh ↦
          inr (made, rw (fresh, create_concat_task) refl, λ old. absurd (cc (sym fresh ∙ old)))
      | inl old ↦ elim (Bool-cases options.overwrite_temp) [
        | inr kept ↦ inl (
          rw (old, kept, create_concat_task) refl,
          λ usable. absurd (cc (sym kept ∙ (usable old).0)),
        )
        | inl overwrites ↦ elim (Bool-cases f.removable) [
          | inr stuck ↦ inl (
            rw (old, overwrites, stuck, create_concat_task) refl,
            λ usable. absurd (cc (sym stuck ∙ (usable old).1)),
          )
          | inl removed ↦ inr (
            made,
            rw (old, overwrites, removed, create_concat_task) refl,
            λ _. (overwrites, removed),
          )
        ]
      ]
    ]

-- `CreateConcatMuxer` makes a muxer exactly if, of the two merged files, each is empty or missing, or may
-- be overwritten and can be removed.
pub create_concat_muxer_lem :
    (options : MuxerOptions) (id : Bytes) (files : Which → MergedFile)
    → ((tasks : MuxerTasks) × (create_concat_muxer options id files ≡ muxer tasks)) ↔ (
        (which : Which)
        → (files which).not_empty ≡ true
        → (options.overwrite_temp ≡ true) × ((files which).removable ≡ true))
unfolding create_concat_muxer
create_concat_muxer_lem options id files = elim (task_cases options id audio (files audio)) [
  | inl (no_audio, stuck) ↦
      rw (no_audio, create_concat_muxer)
        (λ (tasks, e). absurd (cc e), λ usable. absurd (stuck (usable audio)))
  | inr (a, audio_made, audio_usable) ↦ elim (task_cases options id video (files video)) [
    | inl (no_video, stuck) ↦
        rw (audio_made, no_video, create_concat_muxer)
          (λ (tasks, e). absurd (cc e), λ usable. absurd (stuck (usable video)))
    | inr (v, video_made, video_usable) ↦
        rw (audio_made, video_made, create_concat_muxer)
          (
            λ _ which. each which audio_usable video_usable,
            λ _. (record { audio_merger = a; video_merger = v }, refl),
          )
  ]
]
  where
    each :
        (which : Which)
        → Usable options (files audio)
        → Usable options (files video)
        → Usable options (files which)
    each audio a v = a
    each video a v = v
