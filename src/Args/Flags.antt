-- ===== src/Args/Flags.antt =====
-- args.go: the flags, the variables that they set, and their defaults. How the flag package reads a
-- number or a duration is outside the program.
use ytarchive_raw_go.Prelude.{
  ℕ, ◌*◌, ◌^◌, ℤ, pos, Bool, true, false, List, [], ◌∷◌, Option, none, some, ◌>>=◌, if◌then◌else◌,
}
use ytarchive_raw_go.Prelude.Text.{Bytes, codes, same, to_lower, lookup_text}
use ytarchive_raw_go.Download.Task.{default_fail_threshold, default_retry_threshold}
use ytarchive_raw_go.Args.Lists.{parse_itag_list, cut}

-- The variables that the flags set.
pub record Settings : Type 0 where
  pub disable_resume : Bool
  pub fail_threshold : ℕ
  pub force_ipv4 : Bool
  pub force_ipv6 : Bool
  pub fsync : Bool
  pub input : Bytes
  pub ip_pool_file : Bytes
  pub keep_files : Bool
  pub log_level : Bytes
  pub merge_only_file : Bytes
  pub merger : Bytes
  pub merger_args : List (Bytes × List (Bytes × Bytes))
  pub only_audio : Bool
  pub only_video : Bool
  pub output : Bytes
  pub overwrite_temp : Bool
  pub preferred_audio : Option (List ℤ)
  pub preferred_video : Option (List ℤ)
  pub queue : Bytes
  pub requeue_delay : ℤ  -- in nanoseconds
  pub requeue_failed : ℕ
  pub requeue_last : Bool
  pub retry_threshold : ℕ
  pub segment_count : ℕ
  pub start_segment : ℕ
  pub temp_dir : Bytes
  pub threads : ℕ
  pub use_quic : Bool
  pub verbose : Bool
  pub version_print : Bool
  pub window_name : Bytes

-- The defaults that `init` gives the variables.
abbrev pub defaults : Settings
defaults = record {
  disable_resume = false;
  fail_threshold = default_fail_threshold;
  force_ipv4 = false;
  force_ipv6 = false;
  fsync = false;
  input = [];
  ip_pool_file = [];
  keep_files = false;
  log_level = codes "info";
  merge_only_file = [];
  merger = [];
  merger_args = [];
  only_audio = false;
  only_video = false;
  output = codes "%(upload_date)s %(title)s (%(id)s)";
  overwrite_temp = false;
  preferred_audio = none;
  preferred_video = none;
  queue = codes "out-of-order";
  requeue_delay = pos (2 * 60 * 10 ^ 9);
  requeue_failed = 1;
  requeue_last = false;
  retry_threshold = default_retry_threshold;
  segment_count = 0;
  start_segment = 0;
  temp_dir = [];
  threads = 1;
  use_quic = true;
  verbose = false;
  version_print = false;
  window_name = [];
}

pub data BoolFlag : Type 0 where
  ipv4 : BoolFlag
  ipv6 : BoolFlag
  disable_resume : BoolFlag
  fsync : BoolFlag
  keep_files : BoolFlag
  overwrite_temp : BoolFlag
  requeue_last : BoolFlag
  use_quic : BoolFlag
  verbose : BoolFlag
  version : BoolFlag

pub data UintFlag : Type 0 where
  connect_retries : UintFlag
  requeue_failed : UintFlag
  retries : UintFlag
  segment_count : UintFlag
  start_segment : UintFlag
  threads : UintFlag

pub data StringFlag : Type 0 where
  input : StringFlag
  ip_pool : StringFlag
  log_level : StringFlag
  merge : StringFlag
  merger : StringFlag
  output : StringFlag
  queue_mode : StringFlag
  temp_dir : StringFlag
  window_name : StringFlag

pub data Flag : Type 0 where
  bool_var : BoolFlag → Flag
  uint_var : UintFlag → Flag
  string_var : StringFlag → Flag
  requeue_delay : Flag
  only : Flag
  preferred_audio : Flag
  preferred_video : Flag
  merger_argument : Flag

-- The names that `init` declares.
abbrev pub flag_names : List (Bytes × Flag)
flag_names =
    (codes "4", bool_var ipv4)
    ∷ (codes "ipv4", bool_var ipv4)
    ∷ (codes "6", bool_var ipv6)
    ∷ (codes "ipv6", bool_var ipv6)
    ∷ (codes "connect-retries", uint_var connect_retries)
    ∷ (codes "disable-resume", bool_var disable_resume)
    ∷ (codes "fsync", bool_var fsync)
    ∷ (codes "i", string_var input)
    ∷ (codes "input", string_var input)
    ∷ (codes "ip-pool", string_var ip_pool)
    ∷ (codes "k", bool_var keep_files)
    ∷ (codes "keep-files", bool_var keep_files)
    ∷ (codes "log-level", string_var log_level)
    ∷ (codes "merge", string_var merge)
    ∷ (codes "merger", string_var merger)
    ∷ (codes "only", only)
    ∷ (codes "o", string_var output)
    ∷ (codes "output", string_var output)
    ∷ (codes "O", bool_var overwrite_temp)
    ∷ (codes "overwrite-temp", bool_var overwrite_temp)
    ∷ (codes "preferred-audio", preferred_audio)
    ∷ (codes "preferred-video", preferred_video)
    ∷ (codes "q", string_var queue_mode)
    ∷ (codes "queue-mode", string_var queue_mode)
    ∷ (codes "requeue-delay", requeue_delay)
    ∷ (codes "requeue-failed", uint_var requeue_failed)
    ∷ (codes "requeue-last", bool_var requeue_last)
    ∷ (codes "retries", uint_var retries)
    ∷ (codes "segment-count", uint_var segment_count)
    ∷ (codes "start-segment", uint_var start_segment)
    ∷ (codes "temp-dir", string_var temp_dir)
    ∷ (codes "t", uint_var threads)
    ∷ (codes "threads", uint_var threads)
    ∷ (codes "use-quic", bool_var use_quic)
    ∷ (codes "v", bool_var verbose)
    ∷ (codes "verbose", bool_var verbose)
    ∷ (codes "V", bool_var version)
    ∷ (codes "version", bool_var version)
    ∷ (codes "window-name", string_var window_name)
    ∷ (codes "merger-argument", merger_argument)
    ∷ []

-- How the flag package reads values.
pub record Values : Type 0 where
  pub parse_bool : Bytes → Option Bool
  pub parse_uint : Bytes → Option ℕ
  pub parse_duration : Bytes → Option ℤ

unfoldable pub set_bool : BoolFlag → Bool → Settings → Settings
set_bool ipv4 b s = record s { force_ipv4 = b }
set_bool ipv6 b s = record s { force_ipv6 = b }
set_bool disable_resume b s = record s { disable_resume = b }
set_bool fsync b s = record s { fsync = b }
set_bool keep_files b s = record s { keep_files = b }
set_bool overwrite_temp b s = record s { overwrite_temp = b }
set_bool requeue_last b s = record s { requeue_last = b }
set_bool use_quic b s = record s { use_quic = b }
set_bool verbose b s = record s { verbose = b }
set_bool version b s = record s { version_print = b }

unfoldable pub set_uint : UintFlag → ℕ → Settings → Settings
set_uint connect_retries n s = record s { retry_threshold = n }
set_uint requeue_failed n s = record s { requeue_failed = n }
set_uint retries n s = record s { fail_threshold = n }
set_uint segment_count n s = record s { segment_count = n }
set_uint start_segment n s = record s { start_segment = n }
set_uint threads n s = record s { threads = n }

unfoldable pub set_string : StringFlag → Bytes → Settings → Settings
set_string input v s = record s { input = v }
set_string ip_pool v s = record s { ip_pool_file = v }
set_string log_level v s = record s { log_level = v }
set_string merge v s = record s { merge_only_file = v }
set_string merger v s = record s { merger = v }
set_string output v s = record s { output = v }
set_string queue_mode v s = record s { queue = v }
set_string temp_dir v s = record s { temp_dir = v }
set_string window_name v s = record s { window_name = v }

-- The function of `--only`.
unfoldable pub set_only : Bytes → Settings → Option Settings
unfolding same
set_only v s =
    if same v (codes "audio")
    then (if s.only_video then none else some (record s { only_audio = true }))
    else if same v (codes "video")
    then (if s.only_audio then none else some (record s { only_video = true }))
    else none

-- `m[key] = value` on a map with text keys.
unfoldable pub assign_text {ℓ} : {V : Type ℓ} → Bytes → V → List (Bytes × V) → List (Bytes × V)
unfolding same
assign_text k v [] = (k, v) ∷ []
assign_text k v ((j, w) ∷ m) =
    let rest = assign_text k v m in if same j k then (k, v) ∷ m else (j, w) ∷ rest

-- The map of one merger's arguments, which is made if there is none.
abbrev pub arguments_of : Bytes → List (Bytes × List (Bytes × Bytes)) → List (Bytes × Bytes)
arguments_of name args = elim (lookup_text name args) [ some m ↦ m | none ↦ [] ]

-- The function of `--merger-argument`.
unfoldable pub set_merger_argument : Bytes → Settings → Option Settings
unfolding cut assign_text lookup_text
set_merger_argument v s = do
  parts ← cut b':' v
  kv ← cut b'=' parts.1
  some (record s {
    merger_args =
        assign_text (to_lower parts.0)
          (assign_text (to_lower kv.0) kv.1 (arguments_of (to_lower parts.0) s.merger_args))
          s.merger_args;
  })

-- One flag with its value; `none`: the program prints the usage and ends.
unfoldable pub set_flag : Values → Flag → Bytes → Settings → Option Settings
unfolding set_bool set_uint set_string set_only set_merger_argument
set_flag p (bool_var f) v s = p.parse_bool v >>= λ b. some (set_bool f b s)
set_flag p (uint_var f) v s = p.parse_uint v >>= λ n. some (set_uint f n s)
set_flag p (string_var f) v s = some (set_string f v s)
set_flag p requeue_delay v s = p.parse_duration v >>= λ d. some (record s { requeue_delay = d })
set_flag p only v s = set_only v s
set_flag p preferred_audio v s =
    parse_itag_list v >>= λ l. some (record s { preferred_audio = some l })
set_flag p preferred_video v s =
    parse_itag_list v >>= λ l. some (record s { preferred_video = some l })
set_flag p merger_argument v s = set_merger_argument v s

-- `flagSet.Parse`, on the flags by name that it finds.
unfoldable pub set_flags : Values → List (Bytes × Bytes) → Settings → Option Settings
unfolding set_flag lookup_text
set_flags p [] s = some s
set_flags p ((name, v) ∷ flags) s = do
  flag ← lookup_text name flag_names
  s' ← set_flag p flag v s
  set_flags p flags s'
