-- ===== src/Segments/Batched/Partition.antt =====
-- `makeBatchedScheduler` cuts the segments into one batch for each worker.
use ytarchive_raw_go.Prelude.{
  ℕ, zero, suc, ◌+◌, ◌-◌, ◌*◌, ◌/◌, ◌≤◌, ◌<◌, ◌≡◌, refl, ℤ, pos, negsuc, ◌+ℤ◌, ltb_ℤ, List, [], ◌∷◌,
  ◌++◌, some, arith, +ℤ_parts, -ℤ_parts, ◌-ℤ◌, eq_of_parts, ltb, if◌then◌else◌, sum_of,
  sum_of-append, Bool-cases, inl, inr, length, length-append, length-replicate, replicate,
  get_elem?, subst,
}
use ytarchive_raw_go.Segments.Batched.{
  BatchRange, fresh_range, empty_range, split_batches, pad_batches, make_batched_scheduler,
}
use ytarchive_raw_go.Segments.Batched.Conserve.{pending, width, IsValid}

-- Every batch of the list is valid.
abbrev pub AllValid : List BatchRange → Type 0
AllValid [] = Unit {0}
AllValid (b ∷ bs) = IsValid b × AllValid bs

pub record Split (segments threads from : ℕ) (bs : List BatchRange) : Type 0 where
  pub each_once :
      (k : ℕ)
      → sum_of (pending k) bs ≡ (if ltb k segments then (if ltb k from then 0 else 1) else 0)
  pub few : length bs ≤ threads
  pub waiting : sum_of width bs ≡ segments - from
  pub none_failed : sum_of (λ b. length b.failed) bs ≡ 0
  pub valid : AllValid bs

end_of_batch :
    (from interval : ℕ) (last : ℤ)
    → last +ℤ pos 1 ≡ pos from
    → last +ℤ pos 1 +ℤ pos interval ≡ pos (from + interval)
end_of_batch from interval last e =
    rw e (eq_of_parts _ _ (omega (arith, +ℤ_parts (pos from) (pos interval))))

workers_left : (r d size : ℕ) → d < r * size → 0 < r
workers_left zero d size h = omega arith
workers_left (suc r) d size h = omega arith

shrink :
    (r d interval : ℕ) {d' : ℕ}
    → d < r * (interval + 1)
    → interval < d
    → d' + interval + 1 ≡ d
    → d' < (r - 1) * (interval + 1)
shrink zero d interval h lt e = absurd (omega arith)
shrink (suc r) d interval h lt e = grind arith

-- The batch that the loop makes while more segments follow, in front of those for the rest.
Split-more :
    (segments interval r from : ℕ) (bs : List BatchRange)
    → from + interval < segments
    → segments - from < r * (interval + 1)
    → Split segments (r - 1) (from + interval + 1) bs
    → Split segments r from (fresh_range (pos from) (pos (from + interval)) ∷ bs)
Split-more segments interval r from bs lt few s = record {
  each_once = λ k. ground (arith, s.each_once k);
  few = omega (arith, s.few, workers_left r _ _ few);
  waiting = omega (arith, s.waiting);
  none_failed = omega (arith, s.none_failed);
  valid = (omega arith, s.valid);
}

Split-last :
    (segments interval r from : ℕ)
    → from ≤ segments
    → segments - from < r * (interval + 1)
    → Split segments r from (fresh_range (pos from) (pos segments -ℤ pos 1) ∷ [])
Split-last segments interval r from le few = record {
  each_once = λ k. ground (arith, -ℤ_parts (pos segments) (pos 1));
  few = workers_left r _ _ few;
  waiting = omega (arith, -ℤ_parts (pos segments) (pos 1));
  none_failed = refl;
  valid = (omega arith, tt);
}

-- With `r` workers left for the segments from `from` on, the loop makes at most `r` batches.
split_lem :
    (fuel segments interval r from : ℕ) (last : ℤ)
    → last +ℤ pos 1 ≡ pos from
    → from ≤ segments
    → segments - from < fuel
    → segments - from < r * (interval + 1)
    → (bs : List BatchRange) × (split_batches fuel segments interval last ≡ some bs)
      × Split segments r from bs
unfolding split_batches
split_lem zero segments interval r from last e le enough few = absurd (omega arith)
split_lem (suc fuel) segments interval r from last e le enough few =
    elim (Bool-cases (ltb_ℤ (pos (from + interval)) (pos segments))) [
      | inl more ↦
          let lt : from + interval < segments = ground arith in
          let (bs, q, s) =
            split_lem fuel segments interval (r - 1) (from + interval + 1) (pos (from + interval))
              (eq_of_parts _ _ (omega (arith, +ℤ_parts (pos (from + interval)) (pos 1))))
              (omega arith) (omega arith) (shrink r _ interval few (omega arith) (omega arith)) in
          (
            fresh_range (pos from) (pos (from + interval)) ∷ bs,
            rw (end_of_batch from interval last e, e, more, q),
            Split-more segments interval r from bs lt few s,
          )
      | inr last_one ↦ (
        fresh_range (pos from) (pos segments -ℤ pos 1) ∷ [],
        rw (end_of_batch from interval last e, e, last_one),
        Split-last segments interval r from le few,
      )
    ]

pad_sum : (k n : ℕ) → sum_of (pending k) (replicate n empty_range) ≡ 0
pad_sum k zero = refl
pad_sum k (suc n) = ground (arith, pad_sum k n)

pad_width : (n : ℕ) → sum_of width (replicate n empty_range) ≡ 0
pad_width zero = refl
pad_width (suc n) = omega (arith, pad_width n)

pad_failed : (n : ℕ) → sum_of (λ b. length b.failed) (replicate n empty_range) ≡ 0
pad_failed zero = refl
pad_failed (suc n) = omega (arith, pad_failed n)

pad-AllValid :
    (n : ℕ) (bs : List BatchRange) → AllValid bs → AllValid (bs ++ replicate n empty_range)
pad-AllValid zero [] v = tt
pad-AllValid (suc n) [] v = (λ h. absurd (omega arith), pad-AllValid n [] tt)
pad-AllValid n (b ∷ bs) v = (v.0, pad-AllValid n bs v.1)

-- What a list of batches for `threads` workers and `segments` segments has to be: a batch for each
-- worker, each segment in exactly one batch, and no other number in any; the lengths of the batches add up.
pub record IsPartition (segments threads : ℕ) (bs : List BatchRange) : Type 0 where
  pub each_once : (k : ℕ) → sum_of (pending k) bs ≡ (if ltb k segments then 1 else 0)
  pub one_each : length bs ≡ threads
  pub waiting : sum_of width bs ≡ segments
  pub none_failed : sum_of (λ b. length b.failed) bs ≡ 0
  pub valid : AllValid bs

pad-IsPartition :
    (segments threads : ℕ) (bs : List BatchRange)
    → Split segments threads 0 bs
    → IsPartition segments threads (pad_batches threads bs)
unfolding pad_batches
pad-IsPartition segments threads bs s = record {
  each_once = λ k. ground (
    arith,
    s.each_once k,
    sum_of-append (pending k) bs (replicate (threads - length bs) empty_range),
    pad_sum k (threads - length bs),
  );
  one_each = omega (
    arith,
    s.few,
    length-append bs (replicate (threads - length bs) empty_range),
    length-replicate (threads - length bs) empty_range,
  );
  waiting = omega (
    arith,
    s.waiting,
    sum_of-append width bs (replicate (threads - length bs) empty_range),
    pad_width (threads - length bs),
  );
  none_failed = omega (
    arith,
    s.none_failed,
    sum_of-append (λ (b : BatchRange). length b.failed) bs
        (replicate (threads - length bs) empty_range),
    pad_failed (threads - length bs),
  );
  valid = pad-AllValid (threads - length bs) bs s.valid;
}

div_bound : (segments threads : ℕ) → 0 < threads → segments < threads * (segments / threads + 1)
div_bound segments threads h = grind arith

-- `makeBatchedScheduler`, for any count of segments and at least one worker: its loop ends, and the
-- batches are as many as the workers and hold each of the segments exactly once, and nothing else.
pub make_batched_scheduler-IsPartition :
    (segments threads : ℕ)
    → 0 < threads
    → (bs : List BatchRange) × (make_batched_scheduler segments threads ≡ some bs)
      × IsPartition segments threads bs
unfolding make_batched_scheduler
make_batched_scheduler-IsPartition segments threads h =
    let (bs, q, s) =
      split_lem (suc segments) segments (segments / threads) threads 0 (negsuc 0)
        (eq_of_parts _ _ (omega (arith, +ℤ_parts (negsuc 0) (pos 1)))) (omega arith) (omega arith)
        (omega (arith, div_bound segments threads h)) in
    (pad_batches threads bs, rw (q, make_batched_scheduler), pad-IsPartition segments threads bs s)

pub IsValid-AllValid :
    (bs : List BatchRange) (i : ℕ) {b : BatchRange}
    → AllValid bs
    → get_elem? bs i ≡ some b
    → IsValid b
IsValid-AllValid [] i v e = cc
IsValid-AllValid (x ∷ bs) zero {b} v e = subst IsValid {x = x} {y = b} (cc) v.0
IsValid-AllValid (x ∷ bs) (suc i) v e = IsValid-AllValid bs i v.1 e
