-- ===== src/Merge/Tests.antt =====
-- The mergers and FFmpeg's output at concrete inputs.
use ytarchive_raw_go.Prelude.{
  ℕ, zero, suc, pos, ◌≡◌, refl, inl, inr, true, false, List, [], ◌∷◌, ◌++◌, Option, none, some,
  arith, ◌<◌,
}
use Prim.Native.String.{String}
use ytarchive_raw_go.Prelude.Dict.{lookup}
use ytarchive_raw_go.Prelude.Text.{Bytes, codes, to_lower_byte, contains}
use ytarchive_raw_go.Segments.Status
use ytarchive_raw_go.Segments.Status.{SegmentResult, create, downloaded, next_to_merge}
use ytarchive_raw_go.Merge.Counters.{new_progress}
use ytarchive_raw_go.Merge.Loop.{audio, video, Visit, for_each_segment, ignored}
use ytarchive_raw_go.Merge.Loop.Receive.{Reported}
use ytarchive_raw_go.Merge.Concat.{ConcatTask, Copied, merge_to_file, merge_to_file_lem}
use ytarchive_raw_go.Merge.Concat.Mux
use ytarchive_raw_go.Merge.Tcp.{
  TcpTask, listening, create_tcp_muxer, merge_to_connection, sent_is_merged,
}
use ytarchive_raw_go.Download.Progress.Tests.{fractions}
use ytarchive_raw_go.Merge.Words.{percentage}
use ytarchive_raw_go.Merge.Nothing.{merge_nothing, MergeCall, count_calls, nothing_shows_100}
use ytarchive_raw_go.Merge.Options.{
  MuxerOptions, Ffmpeg, tcp, chosen, create_best_muxer, get_merger_argument,
}
use ytarchive_raw_go.Merge.Ffmpeg.{Metadata, print_output, succeeded_with, nothing}

abbrev options : MuxerOptions
options = record {
  delete_segments = true;
  disable_resume = false;
  final_file_base = codes "out";
  overwrite_temp = false;
  temp_dir = codes "tmp";
  ignore_audio = true;
  ignore_video = false;
  merger = codes "TCP";
  merger_arguments = (codes "tcp", (codes "bind_address", codes "::1") ∷ []) ∷ [];
}

abbrev both : MuxerOptions
both = record options { ignore_audio = false }

abbrev ffmpeg_4 : Ffmpeg
ffmpeg_4 = record { runs = true; has_tcp = true; has_file = true }

abbrev info : Metadata
info = record {
  date = codes "20222101";
  title = codes "t";
  description = codes "d";
  channel_name = codes "c";
  id = codes "i";
}

bind_address : get_merger_argument options (codes "TCP") (codes "bind_address") ≡ some (codes "::1")
unfolding get_merger_argument to_lower_byte
bind_address = refl

-- Two segments, the second reported first, and what the merger collects.
abbrev results : ℕ → SegmentResult
results zero = record { filename = "s0"; is_ok = true }
results (suc n) = record { filename = "s1"; is_ok = false }

abbrev early : List (List (ℕ × SegmentResult))
early = ((1, results 1) ∷ []) ∷ [] ∷ ((0, results 0) ∷ []) ∷ []

abbrev late : List (List (ℕ × SegmentResult))
late = [] ∷ [] ∷ [] ∷ []

abbrev collected : List SegmentResult → SegmentResult → List SegmentResult
collected rs r = rs ++ r ∷ []

-- Two waits, of one second and of two, before the first segment comes.
abbrev waited : Option (Visit (List SegmentResult)) → Option ℕ
waited none = none
waited (some v) = some v.slept

three_seconds :
    waited (for_each_segment audio collected false false (early ++ late) (create 2) new_progress [])
    ≡ some 3
unfolding for_each_segment Status.done downloaded create next_to_merge
three_seconds = refl

early_has_all : (i : ℕ) → i < 2 → Reported i early
unfolding lookup
early_has_all zero h = inr (inr (inl (λ e. cc)))
early_has_all (suc zero) h = inl (λ e. cc)
early_has_all (suc (suc i)) h = absurd (omega arith)

chosen_tcp : create_best_muxer ffmpeg_4 options ≡ chosen tcp
unfolding create_best_muxer to_lower_byte
chosen_tcp = refl

abbrev stderr : Bytes
stderr = codes "[info] hello\n[warning] a\n[error] Thread message queue blocking; b\n"

one_warning : print_output stderr true ≡ succeeded_with (codes "[warning] a\n" ∷ [])
unfolding print_output contains
one_warning = refl

quiet : print_output (codes "[info] hello\n") true ≡ nothing
unfolding print_output contains
quiet = refl

-- Each file has two bytes.
abbrev two_bytes : String → Copied
two_bytes name = record { written = codes "xy"; succeeds = true }

-- The second segment was not downloaded, and adds nothing.
merge_example :
    (v : Visit ConcatTask) × (merge_to_file false two_bytes audio false false
        (early ++ late)
        2
        new_progress
      ≡ some v)
    × (v.out.target ≡ codes "xy")
unfolding ignored
merge_example =
    merge_to_file_lem false two_bytes audio results false false 2 early late new_progress refl
      ((refl, tt), (tt, ((refl, tt), (tt, (tt, (tt, tt)))))) early_has_all (omega arith)

segments_removed_example :
    (a : Visit ConcatTask) × (v : Visit ConcatTask) × (merge_to_file false two_bytes audio false
        false
        (early ++ late)
        2
        new_progress
      ≡ some a)
    × (merge_to_file false two_bytes video false false (early ++ late) 0 new_progress ≡ some v)
    × (a.out.removed ≡ [])
    × (v.out.removed ≡ [])
    × (Mux.mux both true "a" "v" a.out v.out ≡ some ("a" ∷ "v" ∷ "s0" ∷ []))
segments_removed_example =
    Mux.segments_removed both two_bytes "a" "v" results results 2 0 early late early late
      new_progress new_progress refl refl ((refl, tt), (tt, ((refl, tt), (tt, (tt, (tt, tt))))))
      ((refl, tt), (tt, ((refl, tt), (tt, (tt, (tt, tt)))))) early_has_all
      (λ i h. absurd (omega (arith, h))) (omega arith) (omega arith)

sent_is_merged_example :
    (v : Visit TcpTask) × (w : Visit ConcatTask) × (merge_to_connection false two_bytes true audio
        false false
        (early ++ late)
        2
        new_progress
      ≡ some v)
    × (merge_to_file false two_bytes audio false false (early ++ late) 2 new_progress ≡ some w)
    × ((v.out.sent ≡ w.out.target)
        × (v.out.segments ≡ w.out.segments)
        × (v.out.removed ≡ w.out.removed))
unfolding ignored
sent_is_merged_example =
    sent_is_merged false two_bytes audio results false false 2 early late new_progress refl
      ((refl, tt), (tt, ((refl, tt), (tt, (tt, (tt, tt)))))) early_has_all (omega arith)

-- The address of a merger argument is used, and only the stream that is muxed is listened for.
listens :
    create_tcp_muxer (λ a. true) (λ w a. some (a ++ codes ":9")) options
    ≡ listening [] (codes "tcp://::1:9")
unfolding create_tcp_muxer to_lower_byte
listens = refl

nothing_shows_100_example :
    (v : Visit ℕ) × (merge_nothing audio (λ n r. suc n) true false [] new_progress 0 ≡ some v)
    × (v.out ≡ 0)
    × ((cs : List MergeCall)
        → percentage fractions (count_calls v.progress cs) ≡ fractions.of_int (pos 100))
unfolding ignored
nothing_shows_100_example = nothing_shows_100 fractions audio (λ n r. suc n) true false [] 0 refl
