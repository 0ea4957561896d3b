-- ===== src/Merge/Options.antt =====
-- merge/merge.go: `MuxerOptions`, the choice of a muxer, and `taskCommon`. Whether FFmpeg runs and
-- which protocols it has is outside the program, so it is an argument.
use ytarchive_raw_go.Prelude.{
  ◌≡◌, refl, ◌≢◌, not, ◌⊎◌, inl, inr, ◌↔◌, Bool, true, false, ◌&&◌, List, [], ◌∷◌, Option, none,
  some, arith, if◌then◌else◌,
}
use ytarchive_raw_go.Prelude.Text.{lookup_text, Bytes, codes, same, to_lower, eq_of_same}
use ytarchive_raw_go.Merge.Loop.{Which, audio, video, ignored}
use ytarchive_raw_go.Merge.Ffmpeg.{Metadata, mux_arguments}

-- Less the metadata, which is given where it is read, and the logger.
pub record MuxerOptions : Type 0 where
  pub delete_segments : Bool
  pub disable_resume : Bool
  pub final_file_base : Bytes
  pub ignore_audio : Bool
  pub ignore_video : Bool
  pub merger : Bytes
  pub merger_arguments : List (Bytes × List (Bytes × Bytes))
  pub overwrite_temp : Bool
  pub temp_dir : Bytes

unfoldable pub get_merger_argument : MuxerOptions → Bytes → Bytes → Option Bytes
unfolding lookup_text
get_merger_argument opts name arg = elim (lookup_text (to_lower name) opts.merger_arguments) [
  | none ↦ none
  | some m ↦ lookup_text (to_lower arg) m
]

pub data Muxer : Type 0 where
  download_only : Muxer
  tcp : Muxer
  concat : Muxer

pub data MuxerError : Type 0 where
  no_ffmpeg : MuxerError
  ignoring_both : MuxerError
  unknown_merger : MuxerError
  no_protocol : MuxerError

-- What `testFfmpeg` and `hasProtocol` find.
pub record Ffmpeg : Type 0 where
  pub runs : Bool
  pub has_tcp : Bool
  pub has_file : Bool

pub data Choice : Type 0 where
  chosen : Muxer → Choice
  refused : MuxerError → Choice

-- Without a name: what FFmpeg can do decides.
unfoldable pub autodetect : Ffmpeg → Choice
autodetect f =
    if f.has_tcp then chosen tcp else if f.has_file then chosen concat else refused no_protocol

-- `CreateBestMuxer`, up to the creation of the muxer.
unfoldable pub create_best_muxer : Ffmpeg → MuxerOptions → Choice
unfolding autodetect same
create_best_muxer f opts =
    let name = to_lower opts.merger in
    if not f.runs
    then refused no_ffmpeg
    else if opts.ignore_audio && opts.ignore_video
    then refused ignoring_both
    else if same name (codes "download-only")
    then chosen download_only
    else if same name (codes "tcp")
    then chosen tcp
    else if same name (codes "concat")
    then chosen concat
    else if same name (codes "")
    then autodetect f
    else refused unknown_merger

-- `taskCommon.output`: the input of FFmpeg for a stream.
unfoldable pub output : MuxerOptions → Which → Bytes → Bytes
unfolding ignored
output opts which ffmpeg_input =
    if ignored which opts.ignore_audio opts.ignore_video then codes "" else ffmpeg_input

-- The names that a user may give, for each muxer.
abbrev pub muxer_name : Muxer → Bytes
muxer_name download_only = codes "download-only"
muxer_name tcp = codes "tcp"
muxer_name concat = codes "concat"

create_named :
    (f : Ffmpeg) (opts : MuxerOptions) (m : Muxer)
    → f.runs ≡ true
    → (opts.ignore_audio ≡ false) ⊎ (opts.ignore_video ≡ false)
    → to_lower opts.merger ≡ muxer_name m
    → create_best_muxer f opts ≡ chosen m
unfolding create_best_muxer
create_named f opts download_only runs shown e = rw e (ground (arith, runs, shown))
create_named f opts tcp runs shown e = rw e (ground (arith, runs, shown))
create_named f opts concat runs shown e = rw e (ground (arith, runs, shown))

-- `CreateBestMuxer` chooses a muxer exactly if FFmpeg runs, at most one stream is ignored, and the
-- muxer is the one named up to case, or none is named and it is tcp, if FFmpeg has that protocol, or
-- else concat, if FFmpeg has the protocol file.
pub create_best_muxer_iff :
    (f : Ffmpeg) (opts : MuxerOptions) (m : Muxer)
    → create_best_muxer f opts ≡ chosen m
      ↔ (f.runs ≡ true)
        × ((opts.ignore_audio ≡ false) ⊎ (opts.ignore_video ≡ false))
        × ((to_lower opts.merger ≡ muxer_name m)
            ⊎ ((to_lower opts.merger ≡ [])
                × (((m ≡ tcp) × (f.has_tcp ≡ true))
                    ⊎ ((m ≡ concat) × (f.has_tcp ≡ false) × (f.has_file ≡ true)))))
unfolding create_best_muxer
create_best_muxer_iff f opts m = (
  λ e.
      let name = to_lower opts.merger in
      ground (
        arith,
        e,
        eq_of_same name (codes "download-only"),
        eq_of_same name (codes "tcp"),
        eq_of_same name (codes "concat"),
        eq_of_same name [],
      ),
  λ (runs, shown, h). elim h [
    | inl e ↦ create_named f opts m runs shown e
    | inr (e, h) ↦ rw e (ground (arith, runs, shown, h))
  ],
)

-- With a muxer that `CreateBestMuxer` chose, FFmpeg gets an input whatever the streams' files are called.
pub mux_has_input :
    (f : Ffmpeg) (opts : MuxerOptions) (m : Muxer) (base audio_file video_file : Bytes)
    (info : Metadata)
    → create_best_muxer f opts ≡ chosen m
    → audio_file ≢ []
    → video_file ≢ []
    → mux_arguments base info (output opts audio audio_file) (output opts video video_file) ≢ none
unfolding create_best_muxer mux_arguments output
mux_has_input f opts m base [] video_file info e some_audio some_video = absurd (some_audio refl)
mux_has_input f opts m base (a ∷ a_rest) [] info e some_audio some_video = absurd (some_video refl)
mux_has_input f opts m base (a ∷ a_rest) (v ∷ v_rest) info e some_audio some_video =
    ground (arith, e)
