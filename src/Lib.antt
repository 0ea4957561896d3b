-- ===== src/Lib.antt =====
-- ytarchive-raw-go downloads the segments of an archived live stream, for audio and for video, with
-- several workers each, and merges them in order with FFmpeg.
--
-- How the parts interact: download/download.go starts `Threads` workers for a stream. A worker asks
-- its queue (download/segments/work_queue.go) for a segment, requests it with a requester from
-- util/http.go, saves it, and reports it to the `SegmentStatus` (download/segments/segments.go) with
-- `Downloaded`; a segment that keeps failing is put back in the queue or given up. The merger
-- (merge/merge.go) takes the reported segments in order with `NextToMerge`. Counters
-- (download/progress_bar.go) and log lines (log) tell the user.
--
-- Which file models what:
--   Prelude        Boolean tests, lists, maps and text (bytes) that the parts share; integers as
--                  the library's ℤ over native natural numbers (Prelude/Int).
--   Segments       Failed: `failedSeg`, and the results of the queues. Batched: `batchedScheduler`
--                  and `batchRange`; Batched/System: its workers, interleaved lock by lock.
--                  Sequential: `sequentialScheduler`; Sequential/System: its workers.
--                  Status: `SegmentStatus`; Status/Order: reports and merges in any order.
--                  Pool: the specification that both queues keep, as Batched/Refines and
--                  Sequential/Refines show. Batched/Ending, Batched/Bound: how long the workers run;
--                  Batched/Numbers: which numbers they get; Worked: a run by either queue.
--   Http           Requests: `internalClient` and the requesters that own one, as steps of any
--                  callers; Requester: the tables of `HttpClient` and `GetRequester`;
--                  IpPool: `ParseIPPool`; Sockets: `getSocket`, `createClient`.
--   Download       Task: `downloadTask`, an iteration at a time, the settings of `Start`,
--                  `doRequest`; Run: `Start` and `run`; Attempts: the iterations on one segment;
--                  SegmentFile, Fetched: `downloadSegment` on the files of a segment; Names:
--                  their names; Store: the directory with the files of all segments; Count:
--                  `getSegmentCount`;
--                  Progress: `Progress`; Progress/Words and Progress/Duration: what it shows;
--                  ParsedUrl: `parseDownloadURL` and `SegmentURL`, proofs in SegmentUrl.
--   Log            Itoa: `itoa`; Format: log/log.go and log/fmt.go as far as they write bytes;
--                  Logger: `Logger` and its lines; Methods: the methods for one level each.
--   Lock           util/lock.go, a step of a process at a time.
--   Merge          Options: `MuxerOptions`, `CreateBestMuxer` and `taskCommon`; Counters:
--                  `mergeProgress`; Words: what it shows; Nothing: `MergeNothing`; Loop:
--                  `forEachSegment` (Loop/Receive, Loop/Order: its proofs);
--                  Concat: what the merger of merge/concat.go does with a segment; Concat/Mux:
--                  `createConcatTask` and `Mux`; Concat/Create: the muxers and their tasks;
--                  DownloadOnly: merge/download_only.go; DownloadOnly/Outcome: what its
--                  `MergeDownloadInfoJson` comes to; Tcp: merge/tcp.go;
--                  Ffmpeg: the arguments of FFmpeg and the filter of its output; Ffmpeg/Mux:
--                  `muxFfmpeg`; Ffmpeg/Thumbnail: `WriteThumbnail` of util/util.go.
--   Version        update_check.go.
--   Formats        the choice of a format in util/util.go; Names: the names of the formats.
--   Templates      `fillFormatVals`, `FormatTemplate` and `sanitizeFilename` of util/util.go.
--   Args           args.go. Lists: `parseItagList`; Flags: the flags of `init`; Parse: `parseArgs`;
--                  MergerArgument, Only, Ready: proofs.
--   Pipeline       the queue, the status and the concat merger of one stream together; Later: a
--                  stream that the download-only muxer lists first; Lost: what `run` reports;
--                  Content: the workers' files and the merged file.
--   Main           `main` from the parsed arguments to the start of the tasks, or of the merging of a
--                  file (main.go); Finish: its end; Shown: the status that all counters draw together.
-- The modules named Tests hold concrete runs. The others of a part hold its proofs.
--
-- State and operations: a Go struct is a record with the fields that the code reads, an operation is
-- a function to the new state, and a lock is a step: what the code does under one lock happens in one
-- step, and steps of several workers come in any order. The clock, the answers of the network, the
-- results of file operations and random choices are arguments.
--
-- Floating-point numbers: the arithmetic on float64 and the texts of numbers are a record of functions
-- (Prelude/Numbers), over which the code is translated as it stands.
--
-- Bounds: Go's int is modelled as a natural number or as ℤ, without the wrap-around at 2^63. A count
-- of segments is not negative. The loop of makeBatchedScheduler runs on fuel, one more than the
-- segments; the loop of `FormatTemplate` on one more than the percent signs of the template, if no
-- value has one (with a value that has its own key it can run for ever); the loop of a worker on one
-- segment on two iterations for each attempt and two more; itoa on its 20 bytes: each has a theorem
-- that this is enough.
--
-- Not modelled: goroutines and wait groups as such, the packages net, net/http and quic-go below the
-- calls of them, net/url, JSON, the flag package and how it reads numbers, base64, flock, the texts of
-- usage and version in args.go, FFmpeg itself, and the functions for one operating system only.
pub mod Prelude
pub mod Segments
pub mod Http
pub mod Download
pub mod Log
pub mod Lock
pub mod Merge
pub mod Version
pub mod Formats
pub mod Templates
pub mod Args
pub mod Pipeline
pub mod Main
