-- ===== src/Args/Ready.antt =====
-- args.go: what the parsed arguments have to do with the flags.
use ytarchive_raw_go.Prelude.{
  ℕ, ◌<◌, ◌≡◌, refl, ◌⊎◌, inl, inr, Bool, true, false, ◌||◌, List, Option, none, some, arith, ltb,
  length, ◌∙◌, ap, sym, if◌then◌else◌, Bool-cases, Option-cases,
}
use ytarchive_raw_go.Prelude.Text.{Bytes, codes, to_lower, eq_of_same, occurrences}
use ytarchive_raw_go.Http.Requester.{Network}
use ytarchive_raw_go.Log.Format.{Level, parse_level}
use ytarchive_raw_go.Templates.{
  FregMetadata, fill_format_vals, format_template, Formatted, formatted, unknown_key, is_reserved,
}
use ytarchive_raw_go.Templates.Slashes.{format_template-reserved}
use ytarchive_raw_go.Args.Flags.{Settings}
use ytarchive_raw_go.Args.Parse.{
  QueueMode, sequential, out_of_order, Config, ready, queue_mode_of, network_of, read_input,
  parse_args,
}

abbrev pub mode_name : QueueMode → Bytes
mode_name sequential = codes "sequential"
mode_name out_of_order = codes "out-of-order"

-- The flags that ask for a network.
abbrev pub asked_networks : Network → Bool × Bool
asked_networks Network.any = (false, false)
asked_networks Network.ipv4 = (true, false)
asked_networks Network.ipv6 = (false, true)

queue_mode_of-lem :
    (name : Bytes) (m : QueueMode) → queue_mode_of name ≡ some m → to_lower name ≡ mode_name m
unfolding queue_mode_of
queue_mode_of-lem name sequential e =
    ground (arith, e, eq_of_same (to_lower name) (codes "sequential"))
queue_mode_of-lem name out_of_order e =
    ground (arith, e, eq_of_same (to_lower name) (codes "out-of-order"))

network_of-lem :
    (ipv4 ipv6 : Bool) (n : Network)
    → network_of ipv4 ipv6 ≡ some n
    → (ipv4 ≡ (asked_networks n).0) × (ipv6 ≡ (asked_networks n).1)
unfolding network_of
network_of-lem ipv4 ipv6 Network.any e = ground (arith, e)
network_of-lem ipv4 ipv6 Network.ipv4 e = ground (arith, e)
network_of-lem ipv4 ipv6 Network.ipv6 e = ground (arith, e)

-- What reading the input file leaves as it was, and the name of the output.
abbrev Kept : Config → Config → Type 0
Kept c d =
    (d.level ≡ c.level)
    × (d.queue_mode ≡ c.queue_mode)
    × (d.network ≡ c.network)
    × (d.settings.only_audio ≡ c.settings.only_audio)
    × (d.settings.only_video ≡ c.settings.only_video)
    × (occurrences b'/' d.settings.output ≡ occurrences b'/' c.settings.output)

slash : is_reserved b'/' ≡ true
unfolding is_reserved
slash = refl

read_input-Kept :
    (fuel : ℕ) (file : Option FregMetadata) (c d : Config)
    → read_input fuel file c ≡ ready d
    → Kept c d
unfolding read_input
read_input-Kept fuel file c d e = elim (Bool-cases (ltb 0 (length c.settings.input))) [
  | inr unread ↦ ground (arith, e, unread)
  | inl named ↦ elim (Option-cases file) [
    | inl missing ↦ absurd (ground (arith, e, named, missing))
    | inr (m, there) ↦ elim (Option-cases (fill_format_vals m)) [
      | inl bad ↦ absurd (ground (arith, e, named, there, bad))
      | inr (vals, filled) ↦
          elim (Option-cases (format_template fuel vals true c.settings.output)) [
            | inl endless ↦ absurd (ground (arith, e, named, there, filled, endless))
            | inr (r, done) ↦ kept_output vals m r filled named there done
          ]
    ]
  ]
]
  where
    kept_output :
        (vals : List (Bytes × Bytes)) (m : FregMetadata) (r : Formatted)
        → fill_format_vals m ≡ some vals
        → ltb 0 (length c.settings.input) ≡ true
        → file ≡ some m
        → format_template fuel vals true c.settings.output ≡ some r
        → Kept c d
    kept_output vals m (unknown_key key) filled named there done =
        absurd (ground (arith, e, named, there, filled, done))
    kept_output vals m (formatted out) filled named there done = ground (
      arith,
      e,
      named,
      there,
      filled,
      done,
      format_template-reserved b'/' fuel vals c.settings.output out slash done,
    )

one_positive : (m n : ℕ) → ltb 0 m || ltb 0 n ≡ true → (0 < m) ⊎ (0 < n)
one_positive m n e = ground (arith, e)

-- When `parseArgs` does not end the program: the level logged is the one named, debug if verbose, the
-- queue mode is the one named up to case, the network is the one asked for and not both, there is an
-- input file or a file to merge, the chosen stream is as it was, and the output has as many slashes as
-- its template.
pub parse_args-ready :
    (fuel : ℕ) (file : Option FregMetadata) (s : Settings) (c : Config)
    → parse_args fuel file s ≡ ready c
    → (parse_level (if s.verbose then codes "debug" else s.log_level) ≡ some c.level)
      × (to_lower s.queue ≡ mode_name c.queue_mode)
      × (s.force_ipv4 ≡ (asked_networks c.network).0)
      × (s.force_ipv6 ≡ (asked_networks c.network).1)
      × ((0 < length s.input) ⊎ (0 < length s.merge_only_file))
      × (c.settings.only_audio ≡ s.only_audio)
      × (c.settings.only_video ≡ s.only_video)
      × (occurrences b'/' c.settings.output ≡ occurrences b'/' s.output)
unfolding parse_args
parse_args-ready fuel file s c e =
    elim (Option-cases (parse_level (if s.verbose then codes "debug" else s.log_level))) [
      | inl bad ↦ absurd (ground (arith, e, bad))
      | inr (level, parsed) ↦ elim (Option-cases (queue_mode_of s.queue)) [
        | inl bad ↦ absurd (ground (arith, e, parsed, bad))
        | inr (mode, named) ↦ elim (Option-cases (network_of s.force_ipv4 s.force_ipv6)) [
          | inl bad ↦ absurd (ground (arith, e, parsed, named, bad))
          | inr (network, asked) ↦ accepted level mode network parsed named asked
        ]
      ]
    ]
  where
    accepted :
        (level : Level) (mode : QueueMode) (network : Network)
        → parse_level (if s.verbose then codes "debug" else s.log_level) ≡ some level
        → queue_mode_of s.queue ≡ some mode
        → network_of s.force_ipv4 s.force_ipv6 ≡ some network
        → (parse_level (if s.verbose then codes "debug" else s.log_level) ≡ some c.level)
          × (to_lower s.queue ≡ mode_name c.queue_mode)
          × (s.force_ipv4 ≡ (asked_networks c.network).0)
          × (s.force_ipv6 ≡ (asked_networks c.network).1)
          × ((0 < length s.input) ⊎ (0 < length s.merge_only_file))
          × (c.settings.only_audio ≡ s.only_audio)
          × (c.settings.only_video ≡ s.only_video)
          × (occurrences b'/' c.settings.output ≡ occurrences b'/' s.output)
    accepted level mode network parsed named asked =
        let start : Config = record {
          settings = record s { log_level = if s.verbose then codes "debug" else s.log_level };
          level = level;
          queue_mode = mode;
          network = network;
          freg_data = none;
        } in
        let given = ltb 0 (length s.input) || ltb 0 (length s.merge_only_file) in
        let some_file : given ≡ true = ground (arith, e, parsed, named, asked) in
        let read : read_input fuel file start ≡ ready c =
          ground (arith, e, parsed, named, asked, some_file) in
        let (same_level, same_mode, same_network, same_audio, same_video, same_slashes) =
          read_input-Kept fuel file start c read in
        let (ipv4_asked, ipv6_asked) = network_of-lem s.force_ipv4 s.force_ipv6 network asked in
        (
          parsed ∙ ap some (sym same_level),
          queue_mode_of-lem s.queue mode named ∙ ap mode_name (sym same_mode),
          ipv4_asked ∙ ap (λ n. (asked_networks n).0) (sym same_network),
          ipv6_asked ∙ ap (λ n. (asked_networks n).1) (sym same_network),
          one_positive (length s.input) (length s.merge_only_file) some_file,
          same_audio,
          same_video,
          same_slashes,
        )
