-- ===== src/Segments/Batched/Numbers.antt =====
-- The workers of `QueueOutOfOrder` get segment numbers only: the panic of `downloadTask` on segment -1
-- never comes.
use ytarchive_raw_go.Prelude.{
  ℕ, zero, suc, ◌+◌, ◌<◌, ◌≡◌, refl, ℤ, pos, negsuc, ◌≤ℤ◌, leb_ℤ, ltb_ℤ, ltb, Bool, Bool-cases, inl,
  inr, not, ◌&&◌, List, [], ◌∷◌, some, arith, if◌then◌else◌, get_elem?, replicate, sum_of,
  sum_of-append, sum_of-set, le-sum_of, length, true, false, ◌∙◌, ◌≤◌,
}
use ytarchive_raw_go.Segments.Failed.{FailedSeg, Pick, next_segment, is_ready, make_failed_seg}
use ytarchive_raw_go.Segments.Count.{is_seg}
use ytarchive_raw_go.Segments.Batched.{
  BatchRange, try_get_failed_from, try_get_next, steal_fresh, steal_after, try_steal,
  requeue_failed, make_batched_scheduler,
}
use ytarchive_raw_go.Segments.Batched.Conserve.{IsValid}
use ytarchive_raw_go.Segments.Batched.Partition.{IsPartition}
use ytarchive_raw_go.Segments.Batched.Safety.{split_evenly}
use ytarchive_raw_go.Segments.Batched.ExactlyOnce.{held, Inv, Reach-Inv}
use ytarchive_raw_go.Segments.Batched.System.{
  Worker, asking, scanning, holding, finished, System, give_out, asked, Step, ask, skip_own, steal,
  leave, resolve, requeue, Reach, start, later,
}

-- 1 for a number that no segment has, else 0.
abbrev pub negative : ℤ → ℕ
negative (pos n) = 0
negative (negsuc n) = 1

abbrev below : BatchRange → ℕ
below b = sum_of (λ f. negative f.seg) b.failed

abbrev holds_below : Worker → ℕ
holds_below (holding seg fails) = negative seg
holds_below _ = 0

-- How many numbers of no segment the queue, its workers and the status have.
abbrev pub strays : System → ℕ
strays s = sum_of below s.batches + sum_of holds_below s.workers + sum_of negative s.resolved

abbrev stray_pick : Pick → ℕ
stray_pick p = if p.found then negative (next_segment 0 p).seg else 0

below-failed :
    (now : ℕ) (h : Bool) (b : BatchRange) (fs : List FailedSeg)
    → b.failed ≡ fs
    → below (try_get_failed_from now h b fs).1 + stray_pick (try_get_failed_from now h b fs).0
      ≡ below b
unfolding try_get_failed_from is_ready next_segment
below-failed now h b [] e = ground arith
below-failed now h b (f ∷ fs) e = ground arith

fresh_number : (n : ℤ) → pos 0 ≤ℤ n → (leb_ℤ (pos 0) n ≡ true) × (negative n ≡ 0)
fresh_number (pos n) h = ground arith
fresh_number (negsuc n) h = absurd (omega arith)

below-next :
    (now : ℕ) (b : BatchRange)
    → IsValid b
    → below (try_get_next now b).1 + stray_pick (try_get_next now b).0 ≡ below b
unfolding try_get_next next_segment
below-next now b v = elim (Bool-cases (ltb_ℤ b.end b.start)) [
  | inl over ↦ rw over (below-failed now false b b.failed refl)
  | inr left ↦
      let (there, counts) = fresh_number b.start (v (ground (arith, left))) in
      rw (left, there, counts) (omega arith)
]

below-end :
    (b : BatchRange) → IsValid b → below (steal_fresh b).1 + stray_pick (steal_fresh b).0 ≡ below b
unfolding steal_fresh next_segment
below-end b v = elim (Bool-cases (ltb_ℤ b.end b.start)) [
  | inl over ↦ rw over (omega arith)
  | inr left ↦
      let first : pos 0 ≤ℤ b.start = v (ground (arith, left)) in
      let (there, counts) = fresh_number b.end (ground (arith, left, first)) in
      rw (left, there, counts) (omega arith)
]

below-stolen_from :
    (now : ℕ) (h : Bool) (b : BatchRange) (fs : List FailedSeg)
    → IsValid b
    → b.failed ≡ fs
    → below (steal_after (try_get_failed_from now h b fs)).1
        + stray_pick (steal_after (try_get_failed_from now h b fs)).0
      ≡ below b
unfolding try_get_failed_from steal_after next_segment
below-stolen_from now h b [] v e = below-end b v
below-stolen_from now h b (f ∷ fs) v e = elim (Bool-cases (h && not (is_ready now f))) [
  | inl postponed ↦ rw postponed (below-end b v)
  | inr now_due ↦ rw now_due (ground (arith, e))
]

below-steal :
    (now : ℕ) (b : BatchRange)
    → IsValid b
    → below (try_steal now b).1 + stray_pick (try_steal now b).0 ≡ below b
unfolding try_steal
below-steal now b v = below-stolen_from now (leb_ℤ b.start b.end) b b.failed v refl

below-requeue :
    (now delay : ℕ) (seg : ℤ) (fails : ℕ) (b : BatchRange)
    → below (requeue_failed now delay seg fails b) ≡ below b + negative seg
unfolding requeue_failed make_failed_seg
below-requeue now delay seg fails b = ground (
  arith,
  sum_of-append (λ (f : FailedSeg). negative f.seg) b.failed
      (make_failed_seg now seg fails delay ∷ []),
)

holds_below-give_out :
    (now : ℕ) (p : Pick) (next : Worker)
    → holds_below next ≡ 0
    → holds_below (give_out now p next) ≡ stray_pick p
unfolding give_out next_segment
holds_below-give_out now p next e = ground (arith, e)

asked-strays :
    (i j now : ℕ) (s : System) (w : Worker) (b : BatchRange) (r : Pick × BatchRange) (next : Worker)
    → get_elem? s.workers i ≡ some w
    → get_elem? s.batches j ≡ some b
    → holds_below w ≡ 0
    → holds_below next ≡ 0
    → below r.1 + stray_pick r.0 ≡ below b
    → strays (asked s i j now r next) ≡ strays s
asked-strays i j now s w b r next ew eb hw hn e = omega (
  arith,
  e,
  sum_of-set below s.batches j r.1 eb,
  sum_of-set holds_below s.workers i (give_out now r.0 next) ew,
  holds_below-give_out now r.0 next hn,
)

Step-strays :
    {segments delay limit : ℕ} {s t : System}
    → Inv segments s
    → Step delay limit s t
    → strays t ≡ strays s
Step-strays {s} v (ask i now {b} ew eb) =
    asked-strays i i now s asking b (try_get_next now b) (scanning 0) ew eb refl refl
      (below-next now b (v.valid i b eb))
Step-strays {s} v (skip_own i ew) =
    omega (arith, sum_of-set holds_below s.workers i (scanning (suc i)) ew)
Step-strays {s} v (steal i j now {b} ew n eb) =
    asked-strays i j now s (scanning j) b (try_steal now b) (scanning (suc j)) ew eb refl refl
      (below-steal now b (v.valid j b eb))
Step-strays {s} v (leave i j ew past) =
    omega (arith, sum_of-set holds_below s.workers i finished ew)
Step-strays {s} v (resolve i seg fails ew) = omega (
  arith,
  sum_of-set holds_below s.workers i asking ew,
  sum_of-append negative s.resolved (seg ∷ []),
)
Step-strays {delay} {s} v (requeue i now seg fails {b} ew few eb) = omega (
  arith,
  sum_of-set holds_below s.workers i asking ew,
  sum_of-set below s.batches i (requeue_failed now delay seg (fails + 1) b) eb,
  below-requeue now delay seg (fails + 1) b,
)

initial-below : (bs : List BatchRange) → sum_of (λ b. length b.failed) bs ≡ 0 → sum_of below bs ≡ 0
initial-below [] h = refl
initial-below (b ∷ bs) h =
    omega (arith, initial-below bs (omega arith), unfailed b.failed (omega arith))
  where
    unfailed : (fs : List FailedSeg) → length fs ≡ 0 → sum_of (λ f. negative f.seg) fs ≡ 0
    unfailed [] e = refl
    unfailed (f ∷ fs) e = absurd (omega arith)

initial-holds_below : (n : ℕ) → sum_of holds_below (replicate n asking) ≡ 0
initial-holds_below zero = refl
initial-holds_below (suc n) = omega (arith, initial-holds_below n)

pub Reach-strays :
    {segments delay limit threads : ℕ} {bs : List BatchRange} {s : System}
    → IsPartition segments threads bs
    → Reach delay limit threads bs s
    → strays s ≡ 0
Reach-strays {threads} {bs} p start =
    omega (arith, initial-below bs p.none_failed, initial-holds_below threads)
Reach-strays p (later r st) = Step-strays (Reach-Inv p r) st ∙ Reach-strays p r

a_segment :
    (segments : ℕ) (seg : ℤ)
    → negative seg ≡ 0
    → ((k : ℕ) → is_seg k seg ≤ (if ltb k segments then 1 else 0))
    → (k : ℕ) × (seg ≡ pos k) × (k < segments)
a_segment segments (pos k) e h = (k, refl, ground (arith, h k))
a_segment segments (negsuc k) e h = absurd (omega arith)

-- In every state that the workers reach from the batches of `makeBatchedScheduler`: a worker that got
-- a number from `NextSegment` got that of a segment, so `downloadTask` does not panic.
pub holds_a_segment :
    (segments threads : ℕ) {delay limit : ℕ} {bs : List BatchRange} {s : System}
    → 0 < threads
    → make_batched_scheduler segments threads ≡ some bs
    → Reach delay limit threads bs s
    → (i : ℕ) (seg : ℤ) (fails : ℕ) → get_elem? s.workers i ≡ some (holding seg fails)
    → (k : ℕ) × (seg ≡ pos k) × (k < segments)
holds_a_segment segments threads {bs} {s} h made r i seg fails e =
    let p = split_evenly segments threads bs h made in
    let v = Reach-Inv p r in
    a_segment segments seg (omega (arith, Reach-strays p r, le-sum_of holds_below s.workers i e))
      (λ k. omega (arith, v.each_once k, le-sum_of (held k) s.workers i e))
