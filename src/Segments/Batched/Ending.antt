-- ===== src/Segments/Batched/Ending.antt =====
-- The workers of `QueueOutOfOrder` do not go on for ever: each step uses up some of an energy that is
-- known at the start.
use ytarchive_raw_go.Prelude.{
  ℕ, suc, ◌+◌, ◌-◌, ◌*◌, ◌≤◌, ◌<◌, ◌≡◌, refl, sym, ℤ, pos, ◌+ℤ◌, ◌-ℤ◌, +ℤ_parts, -ℤ_parts, List, [],
  ◌∷◌, some, arith, if◌then◌else◌, length, get_elem?, Bool, Bool-cases, inl, inr, ◌&&◌, not, false,
  ◌≤ℤ◌, ltb_ℤ, sum_of, sum_of-append, sum_of-set, get_elem?-lt-length, leb_ℤ,
}
use ytarchive_raw_go.Segments.Failed.{FailedSeg, Pick, next_segment, is_ready, make_failed_seg}
use ytarchive_raw_go.Segments.Batched.{
  BatchRange, try_get_failed_from, try_get_next, steal_fresh, steal_after, try_steal,
  requeue_failed,
}
use ytarchive_raw_go.Segments.Batched.Conserve.{width}
use ytarchive_raw_go.Segments.Batched.System.{
  Worker, asking, scanning, holding, finished, System, give_out, asked, Step, ask, skip_own, steal,
  leave, resolve, requeue,
}

-- What one more try of a segment may cost, for `t` batches: the steps of a worker from one segment to
-- the next.
abbrev pub round : ℕ → ℕ
round t = t + 4

module _ (t limit : ℕ) where
  -- What a segment that failed `fails` times may still cost.
  abbrev pub credit : ℕ → ℕ
  credit fails = (limit - fails + 1) * round t

  abbrev pub load : BatchRange → ℕ
  load b = width b * credit 0 + sum_of (λ f. credit f.fails) b.failed

  -- What a worker may still cost before it gets a segment, with that of the segment it has.
  abbrev pub effort : Worker → ℕ
  effort asking = t + 3
  effort (scanning j) = (t + 1 - j) + 1
  effort (holding seg fails) = credit fails
  effort finished = 0

  abbrev pub energy : System → ℕ
  energy s = sum_of load s.batches + sum_of effort s.workers

  -- What the segment of an answer may cost.
  abbrev given : Pick → ℕ
  given p = if p.found then credit (next_segment 0 p).fails else 0

  load-failed :
      (now : ℕ) (h : Bool) (b : BatchRange) (fs : List FailedSeg)
      → b.failed ≡ fs
      → load (try_get_failed_from now h b fs).1 + given (try_get_failed_from now h b fs).0 ≡ load b
  unfolding try_get_failed_from is_ready next_segment
  load-failed now h b [] e = ground arith
  load-failed now h b (f ∷ fs) e = ground arith

  width-next :
      (b : BatchRange)
      → b.start ≤ℤ b.end
      → width (record b { start = b.start +ℤ pos 1 }) + 1 ≡ width b
  width-next b h = omega (arith, +ℤ_parts b.start (pos 1))

  width-end :
      (b : BatchRange) → b.start ≤ℤ b.end → width (record b { end = b.end -ℤ pos 1 }) + 1 ≡ width b
  width-end b h = omega (arith, -ℤ_parts b.end (pos 1))

  one_less : (w w' c : ℕ) → w' + 1 ≡ w → w' * c + c ≡ w * c
  one_less w w' c e = rw (sym e) (grind arith)

  -- The load of a batch goes down by what the segment that is taken may cost.
  pub load-next :
      (now : ℕ) (b : BatchRange)
      → load (try_get_next now b).1 + given (try_get_next now b).0 ≡ load b
  unfolding try_get_next next_segment
  load-next now b = elim (Bool-cases (ltb_ℤ b.end b.start)) [
    | inl over ↦ rw over (load-failed now false b b.failed refl)
    | inr left ↦
        let e = width-next b (ground (arith, left)) in
        rw left (ground (arith, one_less (width b) _ (credit 0) e))
  ]

  load-end : (b : BatchRange) → load (steal_fresh b).1 + given (steal_fresh b).0 ≡ load b
  unfolding steal_fresh next_segment
  load-end b = elim (Bool-cases (ltb_ℤ b.end b.start)) [
    | inl over ↦ rw over (ground arith)
    | inr left ↦
        let e = width-end b (ground (arith, left)) in
        rw left (ground (arith, one_less (width b) _ (credit 0) e))
  ]

  load-stolen_from :
      (now : ℕ) (h : Bool) (b : BatchRange) (fs : List FailedSeg)
      → b.failed ≡ fs
      → load (steal_after (try_get_failed_from now h b fs)).1
          + given (steal_after (try_get_failed_from now h b fs)).0
        ≡ load b
  unfolding try_get_failed_from steal_after next_segment
  load-stolen_from now h b [] e = load-end b
  load-stolen_from now h b (f ∷ fs) e = elim (Bool-cases (h && not (is_ready now f))) [
    | inl later ↦ rw later (load-end b)
    | inr now_due ↦ rw now_due (ground (arith, e))
  ]

  load-steal :
      (now : ℕ) (b : BatchRange) → load (try_steal now b).1 + given (try_steal now b).0 ≡ load b
  unfolding try_steal
  load-steal now b = load-stolen_from now (leb_ℤ b.start b.end) b b.failed refl

  load-requeue :
      (now delay : ℕ) (seg : ℤ) (fails : ℕ) (b : BatchRange)
      → load (requeue_failed now delay seg fails b) ≡ load b + credit fails
  unfolding requeue_failed make_failed_seg
  load-requeue now delay seg fails b = ground (
    arith,
    sum_of-append (λ (f : FailedSeg). credit f.fails) b.failed
        (make_failed_seg now seg fails delay ∷ []),
  )

  credit-less : (fails : ℕ) → fails < limit → credit (fails + 1) + round t ≡ credit fails
  credit-less fails h =
      one_less (limit - fails + 1) (limit - (fails + 1) + 1) (round t) (omega arith)

  credit-least : (fails : ℕ) → round t ≤ credit fails
  credit-least fails = grind arith

  effort-give_out :
      (now : ℕ) (p : Pick) (next : Worker) → effort (give_out now p next) ≤ given p + effort next
  unfolding give_out next_segment
  effort-give_out now p next = ground arith

  asked-energy :
      (i j now : ℕ) (s : System) (w : Worker) (b : BatchRange) (r : Pick × BatchRange)
      (next : Worker)
      → get_elem? s.workers i ≡ some w
      → get_elem? s.batches j ≡ some b
      → load r.1 + given r.0 ≡ load b
      → effort next < effort w
      → energy (asked s i j now r next) < energy s
  asked-energy i j now s w b r next ew eb e less = omega (
    arith,
    e,
    less,
    sum_of-set load s.batches j r.1 eb,
    sum_of-set effort s.workers i (give_out now r.0 next) ew,
    effort-give_out now r.0 next,
  )

  -- Each step of each worker uses up energy.
  pub Step-energy :
      {delay : ℕ} {s s' : System}
      → length s.batches ≡ t
      → length s.workers ≡ t
      → Step delay limit s s'
      → energy s' < energy s
  Step-energy {s} eb ew (ask i now {b} e f) =
      asked-energy i i now s asking b (try_get_next now b) (scanning 0) e f (load-next now b)
        (omega arith)
  Step-energy {s} eb ew (skip_own i e) =
      omega (
        arith,
        get_elem?-lt-length s.workers i e,
        sum_of-set effort s.workers i (scanning (suc i)) e,
      )
  Step-energy {s} eb ew (steal i j now {b} e n f) =
      asked-energy i j now s (scanning j) b (try_steal now b) (scanning (suc j)) e f
        (load-steal now b) (omega (arith, get_elem?-lt-length s.batches j f))
  Step-energy {s} eb ew (leave i j e past) = omega (arith, sum_of-set effort s.workers i finished e)
  Step-energy {s} eb ew (resolve i seg fails e) =
      omega (arith, sum_of-set effort s.workers i asking e, credit-least fails)
  Step-energy {delay} {s} eb ew (requeue i now seg fails {b} e few f) = omega (
    arith,
    sum_of-set effort s.workers i asking e,
    sum_of-set load s.batches i (requeue_failed now delay seg (fails + 1) b) f,
    load-requeue now delay seg (fails + 1) b,
    credit-less fails few,
  )
