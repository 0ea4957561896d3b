-- ===== src/Download/Run.antt =====
-- download/download.go: `Start` and `run`. The workers of the stream are an argument: what they make of its
-- `SegmentStatus`. net/url and the requests for the number of segments are outside.
use ytarchive_raw_go.Prelude.{
  ℕ, Bool, true, false, not, List, [], Option, none, some, ltb, length, if◌then◌else◌,
}
use ytarchive_raw_go.Prelude.Text.{Bytes}
use ytarchive_raw_go.Segments.Status.{SegmentStatus, create, missed_segments}
use ytarchive_raw_go.Download.Task.{DownloadTask, with_defaults, segment_count}
use ytarchive_raw_go.Download.ParsedUrl.{NetUrl, ParsedUrl, Parsed, parsed, parse_download_url}

-- What `Start` comes to.
pub data Started : Type 0 where
  empty_url : Started
  missing_merger : Started
  empty_segment_dir : Started
  not_parsed : Started
  refused : Parsed → Started
  running : DownloadTask → ParsedUrl → Started

-- `Start`, on a task that is not started; `u` is what net/url makes of the URL, if it parses.
unfoldable pub start : DownloadTask → Bytes → Bool → Bytes → Option NetUrl → Started
unfolding with_defaults parse_download_url
start t url has_merger segment_dir u =
    if not (ltb 0 (length url))
    then empty_url
    else if not has_merger
    then missing_merger
    else if not (ltb 0 (length segment_dir))
    then empty_segment_dir
    else (elim u [
      | none ↦ not_parsed
      | some n ↦ elim (parse_download_url url n) [
        | parsed p ↦ running (with_defaults t) p
        | e ↦ refused e
      ]
    ])

-- `DownloadResult`, with whether there is an error.
pub record DownloadResult : Type 0 where
  pub has_error : Bool
  pub lost_segments : List ℕ
  pub total_segments : ℕ

-- What `run` leaves: the result, and the status that it gave to the merger, if it started it.
pub record Run : Type 0 where
  pub result : DownloadResult
  pub merging : Option SegmentStatus

unfoldable pub run : ℕ → (ℕ → Option ℕ) → (SegmentStatus → SegmentStatus) → Run
unfolding segment_count create missed_segments
run count get workers = elim (segment_count count get) [
  | none ↦ record {
    result = record { has_error = true; lost_segments = []; total_segments = 0 };
    merging = none;
  }
  | some total ↦ record {
    result = record {
      has_error = false;
      lost_segments = missed_segments (workers (create total));
      total_segments = total;
    };
    merging = some (create total);
  }
]
