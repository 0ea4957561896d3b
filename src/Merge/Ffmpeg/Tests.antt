-- ===== src/Merge/Ffmpeg/Tests.antt =====
-- A thumbnail and a run of FFmpeg at concrete inputs.
use ytarchive_raw_go.Prelude.{◌≤◌, ◌≡◌, refl, ◌↔◌, true, false, [], Option, none, some, length}
use ytarchive_raw_go.Prelude.Text.{Bytes, codes, contains, has_prefix, same, to_lower_byte}
use ytarchive_raw_go.Download.SegmentFile.{Content, open_file}
use ytarchive_raw_go.Merge.Options.{MuxerOptions, Ffmpeg, tcp, chosen, create_best_muxer}
use ytarchive_raw_go.Merge.Ffmpeg.{Metadata, ffmpeg}
use ytarchive_raw_go.Merge.Ffmpeg.Thumbnail.{
  ThumbnailDisk, base64_part, write_thumbnail, write_thumbnail_lem,
}
use ytarchive_raw_go.Merge.Ffmpeg.Mux.{MuxWorld, has_protocol}

abbrev all_well : ThumbnailDisk
all_well = record { opens = true; writes = true; syncs = true }

-- A code in which each byte stands for itself.
abbrev plain : Bytes → Option Content
plain text = some text

write_thumbnail_example :
    (image : Content) × (plain (base64_part (codes "data,ab")) ≡ some image)
    × ((write_thumbnail plain (λ c. c) all_well (codes "data,ab") (some (codes "xyz"))).1
          ≡ some image
        ↔ length (open_file (some (codes "xyz"))) ≤ length image)
unfolding write_thumbnail
write_thumbnail_example =
    write_thumbnail_lem plain (λ c. c) all_well (codes "data,ab") (some (codes "xyz")) refl

abbrev world : MuxWorld
world = record {
  decode = plain;
  torn = λ c. c;
  disk = all_well;
  old_thumbnail = none;
  run = λ args. record { succeeds = true; stdout = codes "Muxer tcp"; stderr = [] };
}

-- FFmpeg has the protocol.
tcp_is_there : has_protocol world.run (codes "tcp") ≡ some true
unfolding has_protocol contains has_prefix ffmpeg
tcp_is_there = refl

abbrev options : MuxerOptions
options = record {
  delete_segments = true;
  disable_resume = false;
  final_file_base = codes "out";
  overwrite_temp = false;
  temp_dir = codes "tmp";
  ignore_audio = false;
  ignore_video = false;
  merger = codes "tcp";
  merger_arguments = [];
}

abbrev info : Metadata
info = record {
  date = codes "20222101";
  title = codes "t";
  description = codes "d";
  channel_name = codes "c";
  id = codes "i";
}

abbrev ffmpeg_4 : Ffmpeg
ffmpeg_4 = record { runs = true; has_tcp = true; has_file = true }

tcp_chosen : create_best_muxer ffmpeg_4 options ≡ chosen tcp
unfolding create_best_muxer same to_lower_byte
tcp_chosen = refl
