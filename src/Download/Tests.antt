-- ===== src/Download/Tests.antt =====
-- A worker, its files and its counters at concrete inputs.
use ytarchive_raw_go.Prelude.{
  ℕ, zero, suc, ◌+◌, ◌*◌, ◌≡◌, refl, ◌≢◌, pos, negsuc, true, false, List, [], ◌∷◌, Option, none,
  some, arith,
}
use ytarchive_raw_go.Prelude.Text.{Bytes, codes, has_prefix}
use ytarchive_raw_go.Prelude.Atoi.{atoi}
use ytarchive_raw_go.Download.ParsedUrl.{NetUrl, ParsedUrl, path, parsed, fault, parse_download_url}
use ytarchive_raw_go.Download.Task.{
  DownloadTask, Attempt, Loop, attempts_for, back_off, work, do_request,
}
use ytarchive_raw_go.Download.Attempts.{requeued, process, intended, taken, Ready, process_lem}
use ytarchive_raw_go.Download.SegmentFile.{Files, Disk, answered, download_segment, stale_tail}
use ytarchive_raw_go.Download.Progress.{Progress, call_lost, call_requeued, call_done, Call}

abbrev settings : DownloadTask
settings = record {
  fail_threshold = 3;
  requeue_limit = 1;
  requeue_last = false;
  retry_threshold = 3;
  threads = 1;
}

abbrev unreachable_network : ℕ → Attempt
unreachable_network i = record { is_ok = false; cached = false; network_failed = true }

process_example :
    (l' : Loop) × (process settings false
        (2 * attempts_for settings false + 2)
        unreachable_network
        (taken (pos 7) 0 4)
      ≡ some (intended settings false 0 unreachable_network (attempts_for settings false) 0, l'))
    × Ready l'
process_example = process_lem settings false unreachable_network (pos 7) 0 4

-- Three failures, and the segment is put back; the client was replaced once on the way.
three_failures :
    process settings false 8 unreachable_network (taken (pos 7) 0 4)
    ≡ some (
      requeued 1,
      record { seg = negsuc 0; requeues = 0; fail_count = 0; network_fail_count = 3 },
    )
unfolding process
three_failures = refl

-- Backing off takes 2, 4 and then always 4 seconds.
third_back_off :
    (work settings true
      (unreachable_network 2)
      (record { seg = pos 7; requeues = 0; fail_count = 2; network_fail_count = 0 })).1
    ≡ back_off 4
unfolding work
third_back_off = refl

abbrev flaky : ℕ → Option ℕ
flaky zero = none
flaky (suc i) = some i

second_answer : do_request 3 flaky ≡ some 0
unfolding do_request
second_answer = refl

abbrev good_disk : Disk
good_disk = record {
  opens = true;
  copies = true;
  copied = 0;
  syncs = true;
  closes = true;
  renames = true;
  removes = true;
}

abbrev no_files : Files
no_files = record { done = none; incomplete = none }

abbrev stale_files : Files
stale_files = record { done = none; incomplete = some (9 ∷ 9 ∷ 9 ∷ []) }

stale_tail_example :
    (download_segment false "x.done" (answered 200 (1 ∷ 2 ∷ [])) good_disk stale_files).files.done
    ≢ some (1 ∷ 2 ∷ [])
unfolding download_segment
stale_tail_example =
    stale_tail false "x.done" 200 (1 ∷ 2 ∷ []) good_disk stale_files (omega arith) refl refl

abbrev some_calls : List Call
some_calls = call_requeued 5 1 ∷ call_done 6 0 false ∷ call_lost 9 ∷ []

abbrev almost_done : Progress
almost_done = record {
  cached = 0;
  downloaded = 1;
  failed = 0;
  total = pos 2;
  requeues = [];
  start = 1;
  end = 0;
  expire = none;
}

-- A URL of a path, whose `sq` is the last field.
abbrev path_url : Bytes
path_url = codes "https://h/videoplayback/id/ab~1/itag/140/sq/7/"

abbrev path_parts : NetUrl
path_parts = record {
  get = λ name. [];
  escaped_path = codes "/videoplayback/id/ab~1/itag/140/sq/7/";
}

abbrev path_parsed : ParsedUrl
path_parsed = record {
  raw = codes "https://h/videoplayback/id/ab~1/itag/140/sq";
  expire = none;
  id = codes "ab";
  itag = pos 140;
  typ = path;
}

path_is_parsed : parse_download_url path_url path_parts ≡ parsed path_parsed
unfolding parse_download_url has_prefix atoi
path_is_parsed = refl

-- Neither a query nor a path: the nil `findField` is called.
unknown_faults :
    parse_download_url (codes "https://h/") (record { get = λ name. []; escaped_path = codes "/" })
    ≡ fault
unfolding parse_download_url has_prefix
unknown_faults = refl
