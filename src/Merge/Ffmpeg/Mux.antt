-- ===== src/Merge/Ffmpeg/Mux.antt =====
-- merge/ffmpeg.go: `testFfmpeg`, `hasProtocol` and `muxFfmpeg`. What FFmpeg comes to is a function of its
-- arguments: it is outside, like the file system.
use ytarchive_raw_go.Prelude.{
  ◌≡◌, refl, ◌↔◌, ◌≢◌, Bool, true, false, not, List, [], ◌∷◌, ◌++◌, Option, none, some,
  if◌then◌else◌, Option-cases, inl, inr,
}
use ytarchive_raw_go.Prelude.Text.{Bytes, codes, contains}
use ytarchive_raw_go.Download.SegmentFile.{Content}
use ytarchive_raw_go.Merge.Ffmpeg.{Metadata, Printed, ffmpeg, mux_arguments, print_output}
use ytarchive_raw_go.Merge.Loop.{audio, video}
use ytarchive_raw_go.Merge.Options.{
  MuxerOptions, Muxer, Ffmpeg, chosen, create_best_muxer, output, mux_has_input,
}
use ytarchive_raw_go.Merge.Ffmpeg.Thumbnail.{ThumbnailDisk, write_thumbnail}

-- A run of FFmpeg: whether it succeeds, what it prints, and what it prints to the error output.
pub record Ran : Type 0 where
  pub succeeds : Bool
  pub stdout : Bytes
  pub stderr : Bytes

-- `testFfmpeg`
unfoldable pub test_ffmpeg : (List Bytes → Ran) → Bool
unfolding ffmpeg
test_ffmpeg run = (run (ffmpeg (codes "-h" ∷ []))).succeeds

-- `hasProtocol`; `none`: the program ends with an error.
unfoldable pub has_protocol : (List Bytes → Ran) → Bytes → Option Bool
unfolding ffmpeg contains
has_protocol run name =
    let r = run (ffmpeg (codes "--help" ∷ (codes "protocol=" ++ name) ∷ [])) in
    if r.succeeds then some (not (contains r.stdout (codes "Unknown protocol "))) else none

-- What `muxFfmpeg` meets.
pub record MuxWorld : Type 0 where
  pub decode : Bytes → Option Content
  pub torn : Content → Content
  pub disk : ThumbnailDisk
  pub old_thumbnail : Option Content
  pub run : List Bytes → Ran

-- What `muxFfmpeg` comes to: an error before FFmpeg runs, or the run of FFmpeg, with what is logged.
pub data Muxed : Type 0 where
  no_inputs : Muxed
  no_thumbnail : Muxed
  ffmpeg_failed : (argv : List Bytes) → Printed → Muxed
  muxed : (argv : List Bytes) → Printed → Muxed

-- From the thumbnail on, with the arguments for FFmpeg.
unfoldable pub run_mux : MuxWorld → (thumbnail : Bytes) → List Bytes → Muxed
unfolding write_thumbnail ffmpeg print_output
run_mux w thumbnail args =
    if (write_thumbnail w.decode w.torn w.disk thumbnail w.old_thumbnail).0
    then (if (w.run (ffmpeg args)).succeeds
        then muxed (ffmpeg args) (print_output (w.run (ffmpeg args)).stderr true)
        else ffmpeg_failed (ffmpeg args) (print_output (w.run (ffmpeg args)).stderr false))
    else no_thumbnail

-- `muxFfmpeg`
unfoldable pub mux_ffmpeg :
    MuxWorld → (base thumbnail : Bytes) → Metadata → (audio_input video_input : Bytes) → Muxed
unfolding mux_arguments run_mux
mux_ffmpeg w base thumbnail m audio_input video_input =
    elim (mux_arguments base m audio_input video_input) [
      | none ↦ no_inputs
      | some args ↦ run_mux w thumbnail args
    ]

-- Is the error of `muxFfmpeg` nil?
abbrev pub succeeds : Muxed → Bool
succeeds (muxed argv printed) = true
succeeds _ = false

run_mux_lem :
    (w : MuxWorld) (thumbnail : Bytes) (args : List Bytes)
    → succeeds (run_mux w thumbnail args) ≡ true
      ↔ ((write_thumbnail w.decode w.torn w.disk thumbnail w.old_thumbnail).0 ≡ true)
        × ((w.run (ffmpeg args)).succeeds ≡ true)
unfolding run_mux
run_mux_lem w thumbnail args =
    both (write_thumbnail w.decode w.torn w.disk thumbnail w.old_thumbnail).0
      (w.run (ffmpeg args)).succeeds
  where
    both :
        (t r : Bool)
        → succeeds (
              if t
              then (if r
                  then muxed (ffmpeg args) (print_output (w.run (ffmpeg args)).stderr true)
                  else ffmpeg_failed
                      (ffmpeg args)
                      (print_output (w.run (ffmpeg args)).stderr false))
              else no_thumbnail)
            ≡ true
          ↔ (t ≡ true) × (r ≡ true)
    both true true = (λ e. (refl, refl), λ e. refl)
    both true false = (λ e. absurd (cc e), λ (_, e). cc)
    both false r = (λ e. absurd (cc e), λ (e, _). cc)

-- With a muxer that `CreateBestMuxer` chose, and files with names, `muxFfmpeg` succeeds exactly if the
-- thumbnail is written and FFmpeg succeeds: it never fails for want of an input.
pub mux_chosen :
    (w : MuxWorld) (f : Ffmpeg) (opts : MuxerOptions) (m : Muxer)
    (thumbnail audio_file video_file : Bytes) (info : Metadata)
    → create_best_muxer f opts ≡ chosen m
    → audio_file ≢ []
    → video_file ≢ []
    → (args : List Bytes) × (mux_arguments opts.final_file_base info
          (output opts audio audio_file)
          (output opts video video_file)
        ≡ some args)
      × (succeeds (
              mux_ffmpeg w opts.final_file_base thumbnail info
                (output opts audio audio_file)
                (output opts video video_file))
            ≡ true
          ↔ ((write_thumbnail w.decode w.torn w.disk thumbnail w.old_thumbnail).0 ≡ true)
            × ((w.run (ffmpeg args)).succeeds ≡ true))
unfolding mux_ffmpeg
mux_chosen w f opts m thumbnail audio_file video_file info e a v =
    elim (Option-cases (
      mux_arguments opts.final_file_base info (output opts audio audio_file)
        (output opts video video_file))) [
          | inl nothing ↦
              absurd (
                mux_has_input f opts m opts.final_file_base audio_file video_file info e a v
                  nothing)
          | inr (args, made) ↦ (args, made, rw (made, mux_ffmpeg) (run_mux_lem w thumbnail args))
        ]
