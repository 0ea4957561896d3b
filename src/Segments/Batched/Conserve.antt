-- ===== src/Segments/Batched/Conserve.antt =====
-- Taking a segment from a batch, from its own worker or by a thief, removes exactly that segment.
use ytarchive_raw_go.Prelude.{
  ℕ, ◌+◌, ◌-◌, ◌≡◌, refl, sym, ◌∙◌, ℤ, pos, pos_part, neg_part, ◌&&◌, not, ltb_ℤ, leb_ℤ, ◌≤ℤ◌, ◌<ℤ◌,
  Bool, false, List, [], ◌∷◌, arith, +ℤ_parts, -ℤ_parts, sum_of-append, Bool-cases, inl, inr,
}
use ytarchive_raw_go.Segments.Failed.{FailedSeg, make_failed_seg, is_ready}
use ytarchive_raw_go.Segments.Count.{is_seg, in_range, failed_count, picked}
use ytarchive_raw_go.Segments.Batched.{
  BatchRange, try_get_failed_from, try_get_next, steal_fresh, steal_after, try_steal,
  requeue_failed,
}

-- How often segment `k` waits in the batch.
abbrev pub pending : ℕ → BatchRange → ℕ
pending k b = in_range k b.start b.end + failed_count k b.failed

-- How many segments wait in a range.
abbrev pub width : BatchRange → ℕ
width b = (pos_part b.end + neg_part b.start + 1) - (pos_part b.start + neg_part b.end)

-- A range that is not empty starts at a segment number.
abbrev pub IsValid : BatchRange → Type 0
IsValid b = b.start ≤ℤ b.end → pos 0 ≤ℤ b.start

pub record IsEmpty (b : BatchRange) : Type 0 where
  pub none_left : b.end <ℤ b.start
  pub none_failed : b.failed ≡ []

take_failed :
    (k now : ℕ) (h : Bool) (b : BatchRange) (fs : List FailedSeg)
    → b.failed ≡ fs
    → pending k (try_get_failed_from now h b fs).1 + picked k (try_get_failed_from now h b fs).0
      ≡ pending k b
unfolding try_get_failed_from picked is_ready
take_failed k now h b [] e = ground arith
take_failed k now h b (f ∷ fs) e = ground arith

pub take_next :
    (k now : ℕ) (b : BatchRange)
    → IsValid b
    → pending k (try_get_next now b).1 + picked k (try_get_next now b).0 ≡ pending k b
unfolding try_get_next picked
take_next k now b v =
    ground (arith, +ℤ_parts b.start (pos 1), take_failed k now false b b.failed refl)

take_end :
    (k : ℕ) (b : BatchRange)
    → IsValid b
    → pending k (steal_fresh b).1 + picked k (steal_fresh b).0 ≡ pending k b
unfolding steal_fresh picked
take_end k b v = ground (arith, -ℤ_parts b.end (pos 1))

-- A failed segment is looked at before the range, and the range stays as it is.
failed_range :
    (now : ℕ) (h : Bool) (b : BatchRange) (fs : List FailedSeg)
    → ((try_get_failed_from now h b fs).1.start ≡ b.start)
      × ((try_get_failed_from now h b fs).1.end ≡ b.end)
unfolding try_get_failed_from is_ready
failed_range now h b [] = (refl, refl)
failed_range now h b (f ∷ fs) = ground arith

take_stolen_from :
    (k now : ℕ) (h : Bool) (b : BatchRange) (fs : List FailedSeg)
    → IsValid b
    → b.failed ≡ fs
    → pending k (steal_after (try_get_failed_from now h b fs)).1
        + picked k (steal_after (try_get_failed_from now h b fs)).0
      ≡ pending k b
unfolding try_get_failed_from steal_after picked
take_stolen_from k now h b [] v e = take_end k b v
take_stolen_from k now h b (f ∷ fs) v e = elim (Bool-cases (h && not (is_ready now f))) [
  | inl later ↦ rw later (take_end k b v)
  | inr now_due ↦ rw now_due (ground arith)
]

pub take_stolen :
    (k now : ℕ) (b : BatchRange)
    → IsValid b
    → pending k (try_steal now b).1 + picked k (try_steal now b).0 ≡ pending k b
unfolding try_steal
take_stolen k now b v = take_stolen_from k now (leb_ℤ b.start b.end) b b.failed v refl

-- A worker's own batch stays valid, and is empty when nothing is found in it.
pub next-IsValid : (now : ℕ) (b : BatchRange) → IsValid b → IsValid (try_get_next now b).1
unfolding try_get_next
next-IsValid now b v = ground (arith, +ℤ_parts b.start (pos 1), failed_range now false b b.failed)

steal-IsValid_from :
    (now : ℕ) (h : Bool) (b : BatchRange) (fs : List FailedSeg)
    → IsValid b
    → IsValid (steal_after (try_get_failed_from now h b fs)).1
unfolding try_get_failed_from steal_after is_ready
steal-IsValid_from now h b [] v = ground (arith, -ℤ_parts b.end (pos 1))
steal-IsValid_from now h b (f ∷ fs) v = ground (arith, -ℤ_parts b.end (pos 1))

pub steal-IsValid : (now : ℕ) (b : BatchRange) → IsValid b → IsValid (try_steal now b).1
unfolding try_steal
steal-IsValid now b v = steal-IsValid_from now (leb_ℤ b.start b.end) b b.failed v

drained_failed :
    (now : ℕ) (b : BatchRange) (fs : List FailedSeg)
    → b.failed ≡ fs
    → (try_get_failed_from now false b fs).0.found ≡ false
    → (b.failed ≡ []) × ((try_get_failed_from now false b fs).1 ≡ b)
unfolding try_get_failed_from
drained_failed now b [] e h = (e, refl)
drained_failed now b (f ∷ fs) e h = cc

pub drained_next :
    (now : ℕ) (b : BatchRange)
    → (try_get_next now b).0.found ≡ false
    → IsEmpty (try_get_next now b).1
unfolding try_get_next
drained_next now b h = ground (arith, drained_failed now b b.failed refl)

drained_steal_from :
    (now : ℕ) (b : BatchRange) (fs : List FailedSeg)
    → b.failed ≡ fs
    → (steal_after (try_get_failed_from now (leb_ℤ b.start b.end) b fs)).0.found ≡ false
    → b.end <ℤ b.start
    → fs ≡ []
unfolding try_get_failed_from steal_after is_ready
drained_steal_from now b [] e h l = refl
drained_steal_from now b (f ∷ fs) e h l = ground arith

steal_range :
    (now : ℕ) (h : Bool) (b : BatchRange) (fs : List FailedSeg)
    → (steal_after (try_get_failed_from now h b fs)).0.found ≡ false
    → b.end <ℤ b.start
unfolding try_get_failed_from steal_after is_ready
steal_range now h b [] e = ground arith
steal_range now h b (f ∷ fs) e = ground arith

-- A thief that gets nothing has found an empty batch.
pub drained_steal : (now : ℕ) (b : BatchRange) → (try_steal now b).0.found ≡ false → IsEmpty b
unfolding try_steal
drained_steal now b h =
    let l = steal_range now (leb_ℤ b.start b.end) b b.failed h in
    record { none_left = l; none_failed = drained_steal_from now b b.failed refl h l }

steal-IsEmpty_from :
    (now : ℕ) (h : Bool) (b : BatchRange) (fs : List FailedSeg)
    → b.failed ≡ fs
    → IsEmpty b
    → IsEmpty (steal_after (try_get_failed_from now h b fs)).1
unfolding try_get_failed_from steal_after is_ready
steal-IsEmpty_from now h b [] e v = ground arith
steal-IsEmpty_from now h b (f ∷ fs) e v = absurd (cc (sym e ∙ v.none_failed))

-- Nobody can make an empty batch non-empty by stealing from it.
pub steal-IsEmpty : (now : ℕ) (b : BatchRange) → IsEmpty b → IsEmpty (try_steal now b).1
unfolding try_steal
steal-IsEmpty now b v = steal-IsEmpty_from now (leb_ℤ b.start b.end) b b.failed refl v

pub pending-IsEmpty : (k : ℕ) (b : BatchRange) → IsEmpty b → pending k b ≡ 0
pending-IsEmpty k b v = ground arith

-- A segment that is put back is in the batch once more, and no other is.
pub pending-requeue_failed :
    (k now delay : ℕ) (seg : ℤ) (fails : ℕ) (b : BatchRange)
    → pending k (requeue_failed now delay seg fails b) ≡ pending k b + is_seg k seg
unfolding requeue_failed make_failed_seg
pending-requeue_failed k now delay seg fails b = ground (
  arith,
  sum_of-append (λ (f : FailedSeg). is_seg k f.seg) b.failed
      (make_failed_seg now seg fails delay ∷ []),
)

next-IsEmpty_from :
    (now : ℕ) (b : BatchRange) (fs : List FailedSeg)
    → b.failed ≡ fs
    → IsEmpty b
    → IsEmpty (try_get_failed_from now false b fs).1
unfolding try_get_failed_from
next-IsEmpty_from now b [] e v = v
next-IsEmpty_from now b (f ∷ fs) e v = absurd (cc (sym e ∙ v.none_failed))

pub next-IsEmpty : (now : ℕ) (b : BatchRange) → IsEmpty b → IsEmpty (try_get_next now b).1
unfolding try_get_next
next-IsEmpty now b v = elim (Bool-cases (ltb_ℤ b.end b.start)) [
  | inl over ↦ rw over (next-IsEmpty_from now b b.failed refl v)
  | inr left ↦ absurd (ground (arith, v.none_left))
]
