-- ===== src/Main.antt =====
-- main.go: how `main` puts the settings, the muxer and the download tasks together, up to the start of the
-- tasks, or of the merging of a file. What the system, FFmpeg, JSON and the choice of a URL come to
-- are arguments.
mod Streams
mod Finish
mod Shown
mod Tests
use ytarchive_raw_go.Prelude.{
  ℕ, ◌<◌, ◌≡◌, ℤ, Bool, true, false, not, ◌&&◌, List, [], Option, some, none, ltb, length,
  if◌then◌else◌,
}
use ytarchive_raw_go.Prelude.Text.{Bytes}
use ytarchive_raw_go.Download.Task.{DownloadTask}
use ytarchive_raw_go.Merge.Loop.{Which, audio, video}
use ytarchive_raw_go.Merge.Options.{
  MuxerOptions, Muxer, MuxerError, Ffmpeg, chosen, refused, create_best_muxer,
}
use ytarchive_raw_go.Merge.DownloadOnly.{DownloadJson, InfoResult, merge_download_info_json}
use ytarchive_raw_go.Args.Flags.{Settings}
use ytarchive_raw_go.Args.Parse.{QueueMode, Config}

-- The `muxerOpts` of `main`; the metadata and the logger are not in them.
unfoldable pub muxer_options : Settings → MuxerOptions
muxer_options s = record {
  delete_segments = not s.keep_files;
  disable_resume = s.disable_resume;
  final_file_base = s.output;
  ignore_audio = s.only_video;
  ignore_video = s.only_audio;
  merger = s.merger;
  merger_arguments = s.merger_args;
  overwrite_temp = s.overwrite_temp;
  temp_dir = s.temp_dir;
}

-- A `DownloadTask` of `main`, less its client, logger, merger and progress.
pub record StreamTask : Type 0 where
  pub limits : DownloadTask
  pub fsync : Bool
  pub queue_mode : QueueMode
  pub requeue_delay : ℤ
  pub segment_count : ℕ
  pub segment_dir : Bytes
  pub start_segment : ℕ
  pub url : Bytes

unfoldable pub stream_task : Config → Bytes → StreamTask
stream_task c url =
    let s = c.settings in
    record {
      limits = record {
        fail_threshold = s.fail_threshold;
        requeue_limit = s.requeue_failed;
        requeue_last = s.requeue_last;
        retry_threshold = s.retry_threshold;
        threads = s.threads;
      };
      fsync = s.fsync;
      queue_mode = c.queue_mode;
      requeue_delay = s.requeue_delay;
      segment_count = s.segment_count;
      segment_dir = s.temp_dir;
      start_segment = s.start_segment;
      url = url;
    }

-- What the merger of a stream gets.
pub data Stream : Type 0 where
  merge_nothing : Stream  -- `MergeNothing`
  download : StreamTask → Stream

-- What the system comes to, and what `BestAudio` and `BestVideo` come to: without a URL they end the
-- program. `info_file` is the file of `--merge`, `decode_info` what `json.Unmarshal` makes of it, and
-- `template_fuel` the fuel for the template of its output.
pub record System : Type 0 where
  pub temp_dir : Option Bytes
  pub video_is_locked : Bool
  pub ip_pool_parses : Bool
  pub output_dir_made : Bool
  pub output_is_locked : Bool
  pub info_file : Option Bytes
  pub decode_info : Bytes → Option DownloadJson
  pub template_fuel : ℕ
  pub ffmpeg : Ffmpeg
  pub best_url : Which → Option Bytes

pub data Halt : Type 0 where
  no_temp_dir : Halt
  video_locked : Halt
  bad_ip_pool : Halt
  no_muxer : MuxerError → Halt
  no_output_dir : Halt
  output_locked : Halt
  no_url : Halt

pub data Started : Type 0 where
  halted : Halt → Started
  merge_only : InfoResult → Started  -- `MergeDownloadInfoJson`
  started :
      (options : MuxerOptions) (muxer : Muxer) (audio_stream video_stream : Stream)
      (delete_temp_dir : Bool)
      → Started

-- The task of a stream, or none: the flag that leaves it out is set.
unfoldable pub stream : Config → Option Bytes → Bool → Option Stream
unfolding stream_task
stream c best_url left_out =
    if left_out
    then some merge_nothing
    else (elim best_url [ none ↦ none | some url ↦ some (download (stream_task c url)) ])

-- From the creation of the muxer on.
unfoldable pub start_streams : System → Config → MuxerOptions → Bool → Started
unfolding stream create_best_muxer
start_streams y c options delete_temp_dir = elim (create_best_muxer y.ffmpeg options) [
  | refused e ↦ halted (no_muxer e)
  | chosen m ↦
      if not y.output_dir_made
      then halted no_output_dir
      else if y.output_is_locked
      then halted output_locked
      else (elim (stream c (y.best_url audio) c.settings.only_video) [
        | none ↦ halted no_url
        | some a ↦ elim (stream c (y.best_url video) c.settings.only_audio) [
          | none ↦ halted no_url
          | some v ↦ started options m a v delete_temp_dir
        ]
      ])
]

-- `main`, after `parseArgs` and up to the start of the tasks. The temporary directory is the one of
-- the flag, or else a new one, which is to be deleted in the end.
unfoldable pub start : System → Config → Started
unfolding muxer_options start_streams merge_download_info_json
start y c = elim y.temp_dir [
  | none ↦ halted no_temp_dir
  | some dir ↦
      let given = ltb 0 (length c.settings.temp_dir) in
      let c' = record c {
        settings = record c.settings { temp_dir = if given then c.settings.temp_dir else dir };
      } in
      let options = muxer_options c'.settings in
      if y.video_is_locked
      then halted video_locked
      else if ltb 0 (length c.settings.merge_only_file)
      then merge_only (
          merge_download_info_json y.template_fuel y.decode_info y.ffmpeg y.output_is_locked options
            y.info_file)
      else if ltb 0 (length c.settings.ip_pool_file) && not y.ip_pool_parses
      then halted bad_ip_pool
      else start_streams y c' options (not given && not c.settings.keep_files)
]
