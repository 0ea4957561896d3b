-- ===== src/Merge/Loop/Receive.antt =====
-- The reports that come in while a merger waits.
use ytarchive_raw_go.Prelude.{ℕ, ◌≡◌, refl, ◌≢◌, List, [], ◌∷◌, none, some, arith, ◌⊎◌}
use ytarchive_raw_go.Prelude.Dict.{lookup, lookup-assign}
use ytarchive_raw_go.Segments.Status.{SegmentResult, SegmentStatus, downloaded}
use ytarchive_raw_go.Merge.Loop.{receive}

-- Each report on a segment gives the result that `results` names.
abbrev pub Agree : (ℕ → SegmentResult) → List (ℕ × SegmentResult) → Type 0
Agree results [] = Unit {0}
Agree results ((n, r) ∷ rs) = (r ≡ results n) × Agree results rs

abbrev pub AllAgree : (ℕ → SegmentResult) → List (List (ℕ × SegmentResult)) → Type 0
AllAgree results [] = Unit {0}
AllAgree results (b ∷ bs) = Agree results b × AllAgree results bs

-- A segment has been reported in one of the lists.
abbrev pub Reported : ℕ → List (List (ℕ × SegmentResult)) → Type 0
Reported i [] = ⊥
Reported i (b ∷ bs) = (lookup i b ≢ none) ⊎ Reported i bs

-- The waiting results are the right ones.
abbrev pub Right : (ℕ → SegmentResult) → SegmentStatus → Type 0
Right results s = (i : ℕ) (r : SegmentResult) → lookup i s.segments ≡ some r → r ≡ results i

pub receive-Right :
    (results : ℕ → SegmentResult) (rs : List (ℕ × SegmentResult)) (s : SegmentStatus)
    → Agree results rs
    → Right results s
    → Right results (receive rs s)
unfolding receive downloaded
receive-Right results [] s a h = h
receive-Right results ((n, r) ∷ rs) s a h =
    receive-Right results rs (downloaded n r s) a.1
      (λ i q e. ground (arith, lookup-assign n i r s.segments, h i q, e, a.0))

pub receive-fixed :
    (rs : List (ℕ × SegmentResult)) (s : SegmentStatus)
    → ((receive rs s).end ≡ s.end) × ((receive rs s).merged_count ≡ s.merged_count)
unfolding receive downloaded
receive-fixed [] s = (refl, refl)
receive-fixed ((n, r) ∷ rs) s = receive-fixed rs (downloaded n r s)

pub receive-kept :
    (i : ℕ) (rs : List (ℕ × SegmentResult)) (s : SegmentStatus)
    → (lookup i s.segments ≢ none) ⊎ (lookup i rs ≢ none)
    → lookup i (receive rs s).segments ≢ none
unfolding receive downloaded lookup
receive-kept i [] s h = ground (arith, h)
receive-kept i ((n, r) ∷ rs) s h =
    receive-kept i rs (downloaded n r s) (ground (arith, lookup-assign n i r s.segments, h))
