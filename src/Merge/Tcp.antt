-- ===== src/Merge/Tcp.antt =====
-- merge/tcp.go: the muxer that sends the segments to FFmpeg over a connection. The network, FFmpeg and the
-- file system are arguments.
use ytarchive_raw_go.Prelude.{
  ℕ, zero, suc, ◌<◌, ◌≡◌, refl, Bool, true, false, List, [], ◌∷◌, ◌++◌, Option, some, none, arith,
  length, if◌then◌else◌,
}
use Prim.Native.String.{String}
use ytarchive_raw_go.Prelude.Text.{Bytes, codes}
use ytarchive_raw_go.Segments.Status.{SegmentResult, create}
use ytarchive_raw_go.Merge.Counters.{MergeProgress}
use ytarchive_raw_go.Merge.Loop.{Which, audio, video, Visit, begin_visit, for_each_segment, ignored}
use ytarchive_raw_go.Merge.Loop.Receive.{AllAgree, Reported}
use ytarchive_raw_go.Merge.Loop.Order.{in_order, for_each_segment_lem}
use ytarchive_raw_go.Merge.Concat.{ConcatTask, Copied, merge_segment, merge_to_file}
use ytarchive_raw_go.Merge.Options.{MuxerOptions, get_merger_argument}

-- A `tcpTask`: what was sent over its connection, the segments that are kept for later, and the files
-- that were removed.
pub record TcpTask : Type 0 where
  pub sent : Bytes
  pub segments : List String
  pub removed : List String

abbrev pub new_task : TcpTask
new_task = record { sent = []; segments = []; removed = [] }

-- What `CreateTcpMuxer` comes to: the inputs of FFmpeg for the two streams.
pub data CreateTcp : Type 0 where
  bad_address : CreateTcp
  not_listening : CreateTcp
  listening : (audio_input video_input : Bytes) → CreateTcp

-- The address to bind to; `none`: it is not one. `is_address` is whether `net.ParseIP` takes it.
unfoldable pub bind_address : (Bytes → Bool) → MuxerOptions → Option Bytes
unfolding get_merger_argument
bind_address is_address options =
    elim (get_merger_argument options (codes "tcp") (codes "bind_address")) [
      | some a ↦ if is_address a then some a else none
      | none ↦ some (codes "127.0.0.1")
    ]

-- `createTcpTask`: the input of FFmpeg. `listen` gives the address that is listened at.
unfoldable pub create_tcp_task :
    (Which → Bytes → Option Bytes) → Bytes → MuxerOptions → Which → Option Bytes
unfolding ignored
create_tcp_task listen address options which =
    if ignored which options.ignore_audio options.ignore_video
    then some []
    else (elim (listen which address) [ some a ↦ some (codes "tcp://" ++ a) | none ↦ none ])

unfoldable pub create_tcp_muxer :
    (Bytes → Bool) → (Which → Bytes → Option Bytes) → MuxerOptions → CreateTcp
unfolding bind_address create_tcp_task
create_tcp_muxer is_address listen options = elim (bind_address is_address options) [
  | none ↦ bad_address
  | some address ↦ elim (create_tcp_task listen address options audio) [
    | none ↦ not_listening
    | some a ↦ elim (create_tcp_task listen address options video) [
      | none ↦ not_listening
      | some v ↦ listening a v
    ]
  ]
]

-- What `Merge` gives to `forEachSegment`; `send` is what `sendFile` sends, and whether it succeeds.
unfoldable pub send_segment : Bool → (String → Copied) → TcpTask → SegmentResult → TcpTask
send_segment delete_segments send t r =
    let t' = record t { sent = t.sent ++ (send r.filename).written } in
    if r.is_ok
    then if (send r.filename).succeeds
      then if delete_segments
        then record t' { removed = t.removed ++ r.filename ∷ [] }
        else record t' { segments = t.segments ++ r.filename ∷ [] }
      else t'
    else t

-- `Merge`, if there is a listener, that is, the stream is not ignored: FFmpeg connects, or it fails.
-- Without a listener the loop does nothing with a segment.
unfoldable pub merge_to_connection :
    Bool
    → (String → Copied)
    → Bool
    → Which
    → Bool
    → Bool
    → List (List (ℕ × SegmentResult))
    → ℕ
    → MergeProgress
    → Option (Visit TcpTask)
unfolding ignored
merge_to_connection delete_segments send connects which ignore_audio ignore_video schedule
      segment_count p =
    let looped = λ (f : TcpTask → SegmentResult → TcpTask).
      for_each_segment which f ignore_audio ignore_video schedule (create segment_count) p
        new_task in
    if ignored which ignore_audio ignore_video
    then looped (λ t r. t)
    else if connects
    then looped (send_segment delete_segments send)
    else some (begin_visit (create segment_count) p new_task)

-- `Mux`, after FFmpeg: the segments that are removed. `none`: FFmpeg failed.
unfoldable pub mux : MuxerOptions → Bool → TcpTask → TcpTask → Option (List String)
mux options ffmpeg_succeeds audio_task video_task =
    if ffmpeg_succeeds
    then some (if options.delete_segments then audio_task.segments ++ video_task.segments else [])
    else none

-- The tasks of the two mergers are the same.
abbrev Alike : TcpTask → ConcatTask → Type 0
Alike t c = (t.sent ≡ c.target) × (t.segments ≡ c.segments) × (t.removed ≡ c.removed)

module _ (delete_segments : Bool) (send : String → Copied) (which : Which)
    (results : ℕ → SegmentResult) where
  send_segment-Alike :
      (t : TcpTask) (c : ConcatTask) (r : SegmentResult)
      → Alike t c
      → Alike (send_segment delete_segments send t r) (merge_segment delete_segments send c r)
  unfolding send_segment merge_segment
  send_segment-Alike t c r h = ground (arith, h)

  in_order-Alike :
      (k i : ℕ) (t : TcpTask) (c : ConcatTask)
      → Alike t c
      → Alike
          (in_order which (send_segment delete_segments send) results k i t)
          (in_order which (merge_segment delete_segments send) results k i c)
  in_order-Alike zero i t c h = h
  in_order-Alike (suc k) i t c h =
      in_order-Alike k (suc i) _ _ (send_segment-Alike t c (results i) h)

  -- Once FFmpeg has connected and each segment has been reported, the TCP merger is through when the
  -- concat merger is: it has sent what the merged file of that one would hold, and it has kept and
  -- removed the same segments.
  pub sent_is_merged :
      (ignore_audio ignore_video : Bool) (segment_count : ℕ)
      (early late : List (List (ℕ × SegmentResult))) (p : MergeProgress)
      → ignored which ignore_audio ignore_video ≡ false
      → AllAgree results (early ++ late)
      → ((i : ℕ) → i < segment_count → Reported i early)
      → segment_count < length late
      → (v : Visit TcpTask) × (w : Visit ConcatTask) × (merge_to_connection delete_segments send
            true which ignore_audio ignore_video
            (early ++ late)
            segment_count
            p
          ≡ some v)
        × (merge_to_file delete_segments send which ignore_audio ignore_video
              (early ++ late)
              segment_count
              p
            ≡ some w)
        × Alike v.out w.out
  unfolding merge_to_connection merge_to_file
  sent_is_merged ia iv n early late p shown agree all enough =
      let empty : ConcatTask = record { target = []; segments = []; removed = [] } in
      let (v, v_runs, v_out, v_end) =
        for_each_segment_lem which (send_segment delete_segments send) results ia iv n early late p
          new_task shown agree all enough in
      let (w, w_runs, w_out, w_end) =
        for_each_segment_lem which (merge_segment delete_segments send) results ia iv n early late p
          empty shown agree all enough in
      let (sent, kept, removed) = in_order-Alike n 0 new_task empty (refl, refl, refl) in
      (
        v,
        w,
        rw shown v_runs,
        w_runs,
        (cc (v_out, w_out, sent), cc (v_out, w_out, kept), cc (v_out, w_out, removed)),
      )
