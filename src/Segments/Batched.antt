-- ===== src/Segments/Batched.antt =====
-- download/segments/work_queue.go: `batchedScheduler` and `batchRange`. Each worker goes through its
-- own range of segments, and then steals from the ends of the others.
pub mod Conserve
pub mod System
pub mod ExactlyOnce
pub mod Safety
pub mod Ending
pub mod Bound
pub mod Numbers
pub mod Refines
pub mod Partition
use ytarchive_raw_go.Prelude.{
  ℕ, zero, suc, ◌+◌, ◌-◌, ◌/◌, ◌≡◌, ℤ, pos, negsuc, ◌+ℤ◌, ◌-ℤ◌, ltb_ℤ, leb_ℤ, Bool, true, false,
  not, ◌&&◌, ◌||◌, List, [], ◌∷◌, ◌++◌, Option, none, some, arith, ltb, ◌==◌, if◌then◌else◌, length,
  get_elem?, set, replicate,
}
use ytarchive_raw_go.Segments.Failed.{
  FailedSeg, Pick, no_pick, fresh_pick, failed_pick, is_ready, make_failed_seg,
}

-- `batchRange`, less its lock and the pointer to its scheduler. `start` and `end` are inclusive.
pub record BatchRange : Type 0 where
  pub start : ℤ
  pub end : ℤ
  pub assigned : Bool
  pub failed : List FailedSeg

abbrev pub fresh_range : ℤ → ℤ → BatchRange
fresh_range s e = record { start = s; end = e; assigned = false; failed = [] }

-- `s.batches = append(s.batches, b)`, in front of what the rest of the loop appends.
abbrev append_batch : BatchRange → Option (List BatchRange) → Option (List BatchRange)
append_batch b none = none
append_batch b (some rest) = some (b ∷ rest)

-- The `for { }` loop of `makeBatchedScheduler`, from a value of `lastSeg` on. `none`: out of fuel.
unfoldable pub split_batches : ℕ → ℕ → ℕ → ℤ → Option (List BatchRange)
split_batches zero segments interval last_seg = none
split_batches (suc fuel) segments interval last_seg =
    let start = last_seg +ℤ pos 1 in
    let end = last_seg +ℤ pos 1 +ℤ pos interval in
    let more = append_batch (fresh_range start end) (split_batches fuel segments interval end) in
    if ltb_ℤ end (pos segments) then more else some (fresh_range start (pos segments -ℤ pos 1) ∷ [])

-- `start > end`: a worker with this range just steals.
abbrev pub empty_range : BatchRange
empty_range = fresh_range (negsuc 0) (negsuc 1)

-- The loop that fills up to `threads` batches.
unfoldable pub pad_batches : ℕ → List BatchRange → List BatchRange
pad_batches threads bs = bs ++ replicate (threads - length bs) empty_range

unfoldable pub make_batched_scheduler : ℕ → ℕ → Option (List BatchRange)
unfolding split_batches pad_batches
make_batched_scheduler segments threads =
    elim (split_batches (suc segments) segments (segments / threads) (negsuc 0)) [
      | none ↦ none
      | some bs ↦ some (pad_batches threads bs)
    ]

-- `none` is the panic on a bad worker number, or on a second queue for one worker.
unfoldable pub create_queue : ℕ → List BatchRange → Option (List BatchRange)
create_queue worker bs = elim (get_elem? bs worker) [
  | none ↦ none
  | some b ↦ if b.assigned then none else some (set bs worker (record b { assigned = true }))
]

-- `tryGetFailed`, on the value of `b.failed`
unfoldable pub try_get_failed_from : ℕ → Bool → BatchRange → List FailedSeg → Pick × BatchRange
try_get_failed_from now has_non_failed b [] = (no_pick, b)
try_get_failed_from now has_non_failed b (f ∷ fs) =
    if has_non_failed && not (is_ready now f)
    then (no_pick, b)
    else (failed_pick f, record b { failed = fs })

unfoldable pub try_get_failed : ℕ → Bool → BatchRange → Pick × BatchRange
unfolding try_get_failed_from
try_get_failed now has_non_failed b = try_get_failed_from now has_non_failed b b.failed

unfoldable pub try_get_next : ℕ → BatchRange → Pick × BatchRange
unfolding try_get_failed
try_get_next now b =
    if ltb_ℤ b.end b.start
    then try_get_failed now false b
    else (fresh_pick b.start, record b { start = b.start +ℤ pos 1 })

unfoldable pub steal_fresh : BatchRange → Pick × BatchRange
steal_fresh b =
    if ltb_ℤ b.end b.start
    then (no_pick, b)
    else (fresh_pick b.end, record b { end = b.end -ℤ pos 1 })

-- The rest of `trySteal` after its call of `tryGetFailed`.
unfoldable pub steal_after : Pick × BatchRange → Pick × BatchRange
unfolding steal_fresh
steal_after r = if (r.0).found then r else steal_fresh r.1

unfoldable pub try_steal : ℕ → BatchRange → Pick × BatchRange
unfolding try_get_failed steal_after
try_steal now b = steal_after (try_get_failed now (leb_ℤ b.start b.end) b)

unfoldable pub requeue_failed : ℕ → ℕ → ℤ → ℕ → BatchRange → BatchRange
requeue_failed now delay seg fails b = record b {
  failed = b.failed ++ (make_failed_seg now seg fails delay ∷ []);
}

-- The loop of `nextInternal` over the other batches, without interference: `j` is the index of the
-- first batch of the list, and the caller's own is skipped.
unfoldable pub steal_loop : ℕ → ℕ → ℕ → List BatchRange → Pick × List BatchRange
steal_loop now me j [] = (no_pick, [])
steal_loop now me j (b ∷ bs) =
    let rest = steal_loop now me (suc j) bs in
    let r = try_steal now b in
    if j == me
    then (rest.0, b ∷ rest.1)
    else if (r.0).found
    then (r.0, r.1 ∷ bs)
    else (rest.0, r.1 ∷ rest.1)

-- `nextInternal` when no other worker runs. `Batched.System` has its steps one lock at a time.
unfoldable pub next_internal : ℕ → ℕ → List BatchRange → Option (Pick × List BatchRange)
unfolding try_get_next try_steal steal_loop
next_internal now me bs = elim (get_elem? bs me) [
  | none ↦ none
  | some b ↦
      let r = try_get_next now b in
      if (r.0).found then some (r.0, set bs me r.1) else some (steal_loop now me 0 (set bs me r.1))
]
