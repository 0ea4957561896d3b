-- ===== src/Args/Parse.antt =====
-- args.go: `parseArgs`, after the flags have been read. Reading the input file and its JSON is outside.
use ytarchive_raw_go.Prelude.{
  ℕ, Bool, true, ◌&&◌, ◌||◌, Option, none, some, ltb, length, if◌then◌else◌,
}
use ytarchive_raw_go.Prelude.Text.{Bytes, codes, same, to_lower}
use ytarchive_raw_go.Http.Requester.{Network}
use ytarchive_raw_go.Log.Format.{Level, parse_level}
use ytarchive_raw_go.Templates.{
  FregMetadata, fill_format_vals, format_template, formatted, unknown_key,
}
use ytarchive_raw_go.Args.Flags.{Settings}

-- `QueueMode`
pub data QueueMode : Type 0 where
  sequential : QueueMode
  out_of_order : QueueMode

-- What the flags and the input file come to.
pub record Config : Type 0 where
  pub settings : Settings
  pub level : Level
  pub queue_mode : QueueMode
  pub network : Network
  pub freg_data : Option FregMetadata

-- Why the program ends.
pub data Stop : Type 0 where
  version_printed : Stop
  bad_log_level : Stop
  bad_queue_mode : Stop
  both_networks : Stop
  no_input_file : Stop
  bad_input_file : Stop
  bad_channel_url : Stop
  bad_template : Stop
  endless_template : Stop  -- it never ends

pub data Outcome : Type 0 where
  stop : Stop → Outcome
  ready : Config → Outcome

unfoldable pub queue_mode_of : Bytes → Option QueueMode
unfolding same
queue_mode_of name =
    if same (to_lower name) (codes "sequential")
    then some sequential
    else if same (to_lower name) (codes "out-of-order")
    then some out_of_order
    else none

-- `--ipv4` and `--ipv6`; `none`: both.
unfoldable pub network_of : Bool → Bool → Option Network
network_of ipv4 ipv6 =
    if ipv4 && ipv6
    then none
    else if ipv4
    then some Network.ipv4
    else if ipv6
    then some Network.ipv6
    else some Network.any

-- The name of the output, from the input file; with fuel for its template.
unfoldable pub read_input : ℕ → Option FregMetadata → Config → Outcome
unfolding fill_format_vals format_template
read_input fuel file c =
    if ltb 0 (length c.settings.input)
    then (elim file [
      | none ↦ stop bad_input_file
      | some m ↦ elim (fill_format_vals m) [
        | none ↦ stop bad_channel_url
        | some vals ↦ elim (format_template fuel vals true c.settings.output) [
          | none ↦ stop endless_template
          | some (unknown_key key) ↦ stop bad_template
          | some (formatted out) ↦
              ready (record c { settings = record c.settings { output = out }; freg_data = some m })
        ]
      ]
    ])
    else ready c

-- `parseArgs`; `file` is the input file, if it can be read.
unfoldable pub parse_args : ℕ → Option FregMetadata → Settings → Outcome
unfolding parse_level queue_mode_of network_of read_input
parse_args fuel file s =
    let log_level = if s.verbose then codes "debug" else s.log_level in
    if s.version_print then stop version_printed else (elim (parse_level log_level) [
      | none ↦ stop bad_log_level
      | some level ↦ elim (queue_mode_of s.queue) [
        | none ↦ stop bad_queue_mode
        | some queue_mode ↦ elim (network_of s.force_ipv4 s.force_ipv6) [
          | none ↦ stop both_networks
          | some network ↦
              if ltb 0 (length s.input) || ltb 0 (length s.merge_only_file)
              then read_input fuel file (record {
                settings = record s { log_level = log_level };
                level = level;
                queue_mode = queue_mode;
                network = network;
                freg_data = none;
              })
              else stop no_input_file
        ]
      ]
    ])
