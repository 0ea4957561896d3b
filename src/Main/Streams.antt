-- ===== src/Main/Streams.antt =====
-- main.go with args.go and merge/merge.go: which streams are downloaded and muxed.
use ytarchive_raw_go.Prelude.{
  ◌≡◌, refl, ◌≢◌, Bool, true, false, not, ◌||◌, Option, some, none, inl, inr, ◌⊎◌,
}
use ytarchive_raw_go.Merge.Options.{Muxer, MuxerError, ignoring_both, Choice, chosen, refused}
use ytarchive_raw_go.Merge.DownloadOnly
use ytarchive_raw_go.Merge.DownloadOnly.{DownloadJson, failed, merging}
use ytarchive_raw_go.Merge.DownloadOnly.Outcome.{is_nil, Outcome}
use ytarchive_raw_go.Main.{
  Stream, System, Started, halted, no_muxer, started, merge_only, merge_nothing, download,
}

-- Is the stream downloaded?
abbrev pub downloads : Stream → Bool
downloads merge_nothing = false
downloads (download t) = true

-- The parsed file of `--merge`.
abbrev pub info_of : System → Option DownloadJson
info_of y = elim y.info_file [ none ↦ none | some text ↦ y.decode_info text ]

-- What `main` comes to, if only audio or only video are chosen.
abbrev pub Matches : System → Bool → Bool → Started → Type 0
Matches y only_audio only_video (halted h) = h ≢ no_muxer ignoring_both
Matches y only_audio only_video (merge_only (failed e)) =
    (e ≢ DownloadOnly.no_muxer ignoring_both)
    ⊎ ((info : DownloadJson) × (info_of y ≡ some info)
        × ((only_video || is_nil info.audio_segments) ≡ true)
        × ((only_audio || is_nil info.video_segments) ≡ true))
Matches y only_audio only_video (merge_only (merging m)) =
    (info : DownloadJson) × (info_of y ≡ some info)
    × (m.options.ignore_audio ≡ (only_video || is_nil info.audio_segments))
    × (m.options.ignore_video ≡ (only_audio || is_nil info.video_segments))
Matches y only_audio only_video (started options m a v d) =
    (downloads a ≡ not only_video)
    × (downloads v ≡ not only_audio)
    × (options.ignore_audio ≡ only_video)
    × (options.ignore_video ≡ only_audio)

pub Choice-cases :
    (c : Choice) → ((e : MuxerError) × (c ≡ refused e)) ⊎ ((m : Muxer) × (c ≡ chosen m))
Choice-cases (refused e) = inl (e, refl)
Choice-cases (chosen m) = inr (m, refl)
