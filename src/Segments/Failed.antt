-- ===== src/Segments/Failed.antt =====
-- download/segments/work_queue.go: a failed segment that waits for its next try, and the answer of
-- a queue. Times are nanoseconds of one clock, and are arguments of the operations that read it.
use ytarchive_raw_go.Prelude.{
  ℕ, ◌+◌, ◌-◌, ℤ, pos, negsuc, Bool, true, false, ltb, leb_ℤ, if◌then◌else◌,
}

-- `failedSeg`
pub record FailedSeg : Type 0 where
  pub seg : ℤ
  pub fails : ℕ
  pub timestamp : ℕ

-- `failedSeg{}`
abbrev pub zero_failed : FailedSeg
zero_failed = record { seg = pos 0; fails = 0; timestamp = 0 }

unfoldable pub is_ready : ℕ → FailedSeg → Bool
is_ready now f = ltb f.timestamp now

-- `time.Sleep(f.timestamp.Sub(now))`, as the time at which it returns: at once if the delay is not
-- positive.
unfoldable pub wait : ℕ → FailedSeg → ℕ
wait now f = now + (f.timestamp - now)

unfoldable pub make_failed_seg : ℕ → ℤ → ℕ → ℕ → FailedSeg
make_failed_seg now seg fails delay = record { seg = seg; fails = fails; timestamp = now + delay }

-- What `nextInternal` and its parts return: `(failedSeg, int, bool)`.
pub record Pick : Type 0 where
  pub failed : FailedSeg
  pub number : ℤ
  pub found : Bool

-- `failedSeg{}, -1, false`
abbrev pub no_pick : Pick
no_pick = record { failed = zero_failed; number = negsuc 0; found = false }

-- `failedSeg{}, seg, true`
abbrev pub fresh_pick : ℤ → Pick
fresh_pick n = record { failed = zero_failed; number = n; found = true }

-- `f, -1, true`
abbrev pub failed_pick : FailedSeg → Pick
failed_pick f = record { failed = f; number = negsuc 0; found = true }

-- What `NextSegment` returns, `(int, uint, bool)`, and the time at which it returns.
pub record Next : Type 0 where
  pub seg : ℤ
  pub fails : ℕ
  pub found : Bool
  pub at : ℕ

-- The end of `NextSegment`, which is the same text for both kinds of queue.
unfoldable pub next_segment : ℕ → Pick → Next
next_segment now p =
    if p.found
    then if leb_ℤ (pos 0) p.number
      then record { seg = p.number; fails = 0; found = true; at = now }
      else record {
        seg = p.failed.seg;
        fails = p.failed.fails;
        found = true;
        at = wait now p.failed;
      }
    else record { seg = negsuc 0; fails = 0; found = false; at = now }
