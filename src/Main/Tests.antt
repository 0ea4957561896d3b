-- ===== src/Main/Tests.antt =====
-- `main` at a concrete input.
use ytarchive_raw_go.Prelude.{◌≡◌, ◌↔◌, refl, none, some, true, false, List, [], ◌∷◌, inl}
use ytarchive_raw_go.Prelude.Text.{Bytes, codes, same, to_lower_byte}
use ytarchive_raw_go.Args.Tests.{config}
use ytarchive_raw_go.Args.Parse.{Config}
use ytarchive_raw_go.Merge.Options.{download_only, create_best_muxer}
use ytarchive_raw_go.Download.Progress.{new_progress, call_done}
use ytarchive_raw_go.Download.Progress.Tests.{fractions, fractions-Plain}
use ytarchive_raw_go.Merge.Counters as Mergers
use ytarchive_raw_go.Main.Shown.{
  Shown, Current, Act, audio_started, total_known, audio_call, one_merged, act_all, Drawn,
  act_all-Drawn,
}
use ytarchive_raw_go.Main.{
  System, Started, started, download, stream, stream_task, start, start_streams, muxer_options,
}
use ytarchive_raw_go.Main.Finish.{Ending, Removes, conclude, temp_dir_removed}

abbrev system : System
system = record {
  temp_dir = some (codes "tmp");
  video_is_locked = false;
  ip_pool_parses = true;
  output_dir_made = true;
  output_is_locked = false;
  info_file = none;
  decode_info = λ text. none;
  template_fuel = 4;
  ffmpeg = record { runs = true; has_tcp = true; has_file = true };
  best_url = λ w. some (codes "u");
}

-- The download-only muxer, without a directory for temporary files.
abbrev bare_config : Config
bare_config = record config {
  settings = record config.settings {
    temp_dir = [];
    keep_files = false;
    only_audio = false;
    only_video = false;
    merge_only_file = [];
    ip_pool_file = [];
    merger = codes "download-only";
  };
}

-- The settings with the directory that was made.
abbrev made_config : Config
made_config = record bare_config {
  settings = record bare_config.settings { temp_dir = codes "tmp" };
}

abbrev both_streams : Started
both_streams =
    started (muxer_options made_config.settings) download_only
      (download (stream_task made_config (codes "u")))
      (download (stream_task made_config (codes "u"))) true

bare_start : start system bare_config ≡ both_streams
unfolding start start_streams create_best_muxer stream same to_lower_byte muxer_options
bare_start = refl

abbrev muxed : Ending
muxed = record {
  is_outdated = false;
  audio_result = none;
  video_result = none;
  mux_fails = false;
  removal_fails = false;
}

temp_dir_removed_example :
    Removes (codes "tmp") (conclude muxed bare_config (start system bare_config))
    ↔ ((false ≡ false) × (false ≡ false) × (◌≡◌ {A = Bytes} [] []) × (codes "tmp" ≡ codes "tmp"))
temp_dir_removed_example =
    temp_dir_removed system bare_config muxed (codes "tmp") (codes "tmp")
      (muxer_options made_config.settings) download_only
      (download (stream_task made_config (codes "u")))
      (download (stream_task made_config (codes "u"))) true refl bare_start

abbrev blank : Shown
blank = record {
  audio = new_progress;
  video = new_progress;
  merger = Mergers.new_progress;
  screen = record { status = λ c. none; window_name = []; wrote_status = false };
}

blank-Current : Current fractions blank
blank-Current = record {
  audio_line = inl refl;
  video_line = inl refl;
  merge_line = inl refl;
  screen_lines = record { window = refl; title = λ c s e. cc; message = λ c s e. cc };
}

-- One of two segments is fetched and merged.
abbrev some_acts : List Act
some_acts =
    audio_started 0 2 none ∷ total_known 2 ∷ audio_call (call_done 5 0 false) ∷ one_merged true ∷ []

act_all_example : Drawn fractions fractions-Plain false (act_all fractions some_acts blank)
act_all_example = act_all-Drawn fractions fractions-Plain some_acts blank blank-Current
