-- ===== src/Args/Tests.antt =====
-- Flags at concrete inputs.
use ytarchive_raw_go.Prelude.{
  ◌<◌, ◌≡◌, refl, ◌⊎◌, ◌&&◌, pos, List, [], ◌∷◌, some, true, false, length,
}
use ytarchive_raw_go.Prelude.Atoi.{atoi}
use ytarchive_raw_go.Prelude.Text.{
  Bytes, codes, same, to_lower, occurrences, to_lower_byte, has_prefix,
}
use ytarchive_raw_go.Http.Requester.{Network}
use ytarchive_raw_go.Log.Format.{parse_level, info}
use ytarchive_raw_go.Templates.{
  FregMetadata, fill_format_vals, channel_id, format_template, find_key, key_from, is_word,
  replace_from, value_for, sanitize_byte, is_reserved,
}
use ytarchive_raw_go.Merge.Options.{MuxerOptions}
use ytarchive_raw_go.Args.Lists.{parse_itag_list}
use ytarchive_raw_go.Args.Flags.{Settings, Values, defaults, set_flags}
use ytarchive_raw_go.Args.Only.{asks, only_lem}
use ytarchive_raw_go.Args.Parse.{Config, out_of_order, parse_args, ready}
use ytarchive_raw_go.Args.Ready.{mode_name, asked_networks, parse_args-ready}

-- Every Boolean flag is set, and every number is 7.
abbrev pub all_true : Values
all_true = record {
  parse_bool = λ v. some true;
  parse_uint = λ v. some 7;
  parse_duration = λ v. some (pos 7);
}

abbrev pub flags : List (Bytes × Bytes)
flags = (codes "only", codes "audio") ∷ (codes "6", codes "true") ∷ (codes "i", codes "f.json") ∷ []

abbrev pub set_settings : Settings
set_settings = record defaults { only_audio = true; force_ipv6 = true; input = codes "f.json" }

pub flags_set : set_flags all_true flags defaults ≡ some set_settings
unfolding set_flags same
flags_set = refl

only_example :
    (true ≡ asks (codes "audio") flags)
    × (false ≡ asks (codes "video") flags)
    × ((true && false) ≡ false)
only_example = only_lem all_true flags set_settings flags_set

itags : parse_itag_list (codes "140, 251") ≡ some (pos 140 ∷ pos 251 ∷ [])
unfolding parse_itag_list atoi
itags = refl

abbrev options : MuxerOptions
options = record {
  delete_segments = true;
  disable_resume = false;
  final_file_base = [];
  ignore_audio = false;
  ignore_video = false;
  merger = codes "tcp";
  merger_arguments = [];
  overwrite_temp = false;
  temp_dir = [];
}

abbrev pub metadata : FregMetadata
metadata = record {
  title = codes "a/b";
  id = codes "i";
  channel_name = codes "c";
  channel_url = codes "https://www.youtube.com/channel/UC";
  description = [];
  start_date = codes "20220101";
  start_timestamp = codes "2022-01-01T00:00:00Z";
}

abbrev pub config : Config
config = record {
  settings = record set_settings { output = codes "20220101 a_b (i)" };
  level = info;
  queue_mode = out_of_order;
  network = Network.ipv6;
  freg_data = some metadata;
}

pub parsed : parse_args 4 (some metadata) set_settings ≡ ready config
unfolding parse_args parse_level to_lower_byte fill_format_vals channel_id format_template find_key
    key_from is_word has_prefix replace_from value_for sanitize_byte is_reserved
parsed = refl

parse_args_ready_example :
    (parse_level (codes "info") ≡ some info)
    × (to_lower (codes "out-of-order") ≡ mode_name out_of_order)
    × (false ≡ (asked_networks Network.ipv6).0)
    × (true ≡ (asked_networks Network.ipv6).1)
    × ((0 < length set_settings.input) ⊎ (0 < length set_settings.merge_only_file))
    × (true ≡ true)
    × (false ≡ false)
    × (occurrences b'/' (codes "20220101 a_b (i)") ≡ occurrences b'/' set_settings.output)
parse_args_ready_example = parse_args-ready 4 (some metadata) set_settings config parsed
