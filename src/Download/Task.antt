-- ===== src/Download/Task.antt =====
-- download/download.go: the settings of a `DownloadTask`, and the loop of one worker, `downloadTask`.
use ytarchive_raw_go.Prelude.{
  ℕ, zero, suc, ◌+◌, ◌/◌, ◌^◌, ℤ, negsuc, eqb_ℤ, Bool, not, ◌&&◌, ◌||◌, Option, none, some, ltb,
  leb, if◌then◌else◌,
}
use ytarchive_raw_go.Segments.Failed.{Next}

-- The fields of `DownloadTask` that the loop reads.
pub record DownloadTask : Type 0 where
  pub fail_threshold : ℕ
  pub requeue_limit : ℕ  -- `RequeueFailed`
  pub requeue_last : Bool
  pub retry_threshold : ℕ
  pub threads : ℕ

abbrev pub default_fail_threshold : ℕ
default_fail_threshold = 20

abbrev pub default_retry_threshold : ℕ
default_retry_threshold = 3

-- What `Start` makes of settings that are 0.
unfoldable pub with_defaults : DownloadTask → DownloadTask
with_defaults t = record t {
  fail_threshold = if ltb t.fail_threshold 1 then default_fail_threshold else t.fail_threshold;
  retry_threshold = if ltb t.retry_threshold 1 then default_retry_threshold else t.retry_threshold;
  threads = if ltb t.threads 1 then 1 else t.threads;
}

-- The `fails` of an iteration: how many attempts a segment gets.
unfoldable pub attempts_for : DownloadTask → Bool → ℕ
attempts_for t last =
    if last
    then (if ltb (t.fail_threshold / 4) 5 then 5 else t.fail_threshold / 4)
    else t.fail_threshold

-- The variables of the loop.
pub record Loop : Type 0 where
  pub seg : ℤ
  pub requeues : ℕ
  pub fail_count : ℕ
  pub network_fail_count : ℕ

abbrev pub begin_loop : Loop
begin_loop = record { seg = negsuc 0; requeues = 0; fail_count = 0; network_fail_count = 0 }

-- What `downloadSegment` returns, and whether it counted a network failure.
pub record Attempt : Type 0 where
  pub is_ok : Bool
  pub cached : Bool
  pub network_failed : Bool

-- What an iteration does besides changing its variables.
pub data Effect : Type 0 where
  leave : Effect  -- `break`
  fault : Effect  -- the panic on segment -1
  replace_client : Effect
  put_back : (seg : ℤ) (requeues : ℕ) → Effect  -- `RequeueFailed` and `Progress.requeued`
  give_up : (seg : ℤ) → Effect  -- `Downloaded` with `Ok: false` and `Progress.lost`
  finish : (seg : ℤ) (cached : Bool) → Effect  -- `Progress.done`
  back_off : (seconds : ℕ) → Effect  -- `time.Sleep`

abbrev pub next_seg : Loop → Loop
next_seg l = record l { seg = negsuc 0; fail_count = 0 }

-- `1 << sleepShift` seconds.
unfoldable pub back_off_seconds : ℕ → ℕ
back_off_seconds fail_count = 2 ^ (if ltb 2 fail_count then 2 else fail_count)

-- After the attempt of an iteration.
unfoldable pub after_attempt : Loop → Attempt → Loop × Effect
unfolding back_off_seconds
after_attempt l a =
    let l' = record l {
      network_fail_count =
          if a.network_failed then l.network_fail_count + 1 else l.network_fail_count;
    } in
    if a.is_ok then (next_seg l', finish l.seg a.cached) else (
      record l' { fail_count = l.fail_count + 1 },
      back_off (back_off_seconds (l.fail_count + 1)),
    )

-- An iteration with a segment, from the computation of `fails` on. `last` is `status.IsLast(seg)`.
unfoldable pub work : DownloadTask → Bool → Attempt → Loop → Loop × Effect
unfolding attempts_for after_attempt
work t last a l =
    if ltb 3 l.network_fail_count
    then (record l { network_fail_count = 0 }, replace_client)
    else if leb (attempts_for t last) l.fail_count
    then (if ltb l.requeues t.requeue_limit && (not last || t.requeue_last)
        then (next_seg l, put_back l.seg (l.requeues + 1))
        else (next_seg l, give_up l.seg))
    else after_attempt l a

-- One iteration. The answers of `NextSegment` and `downloadSegment` are given, and used if asked for.
unfoldable pub iterate : DownloadTask → (ℤ → Bool) → Next → Attempt → Loop → Loop × Effect
unfolding work
iterate t is_last n a l =
    if eqb_ℤ l.seg (negsuc 0)
    then (if n.found
        then (if eqb_ℤ n.seg (negsuc 0)
            then (record l { seg = n.seg; requeues = n.fails }, fault)
            else work t (is_last n.seg) a (record l { seg = n.seg; requeues = n.fails }))
        else (record l { seg = n.seg; requeues = n.fails }, leave))
    else work t (is_last l.seg) a l

-- The attempts of `doRequest`: the first answer within the retries. `none` is a failed request.
unfoldable pub do_request {ℓ} : {R : Type ℓ} → ℕ → (ℕ → Option R) → Option R
do_request zero respond = none
do_request (suc retries) respond =
    let rest = do_request retries (λ i. respond (suc i)) in
    elim (respond 0) [ some r ↦ some r | none ↦ rest ]

-- How `run` gets the number of segments: the flag, or at most three requests.
unfoldable pub segment_count : ℕ → (ℕ → Option ℕ) → Option ℕ
unfolding do_request
segment_count zero get = do_request 3 get
segment_count (suc n) get = some (suc n)
