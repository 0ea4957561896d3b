-- ===== src/Download/Count.antt =====
-- download/download.go: `getSegmentCount`, on the answer to its request. The number of the newest segment is in a
-- header, which the client gives as the empty text if it is missing.
use ytarchive_raw_go.Prelude.{ℤ, Option, none, some, ltb, length, if◌then◌else◌}
use ytarchive_raw_go.Prelude.Text.{Bytes}
use ytarchive_raw_go.Prelude.Atoi.{atoi}

-- What `getSegmentCount` comes to.
pub data Count : Type 0 where
  not_answered : Count
  no_header : Count
  not_a_number : Bytes → Count
  counted : ℤ → Count

-- From the header on.
unfoldable pub parse_count : Bytes → Count
unfolding atoi
parse_count header =
    if ltb 0 (length header)
    then (elim (atoi header) [ none ↦ not_a_number header | some n ↦ counted n ])
    else no_header

-- `none`: the request failed.
unfoldable pub get_segment_count : Option Bytes → Count
unfolding parse_count
get_segment_count none = not_answered
get_segment_count (some header) = parse_count header
