-- ===== src/Merge/Loop/Order.antt =====
-- What a merger makes of the segments, in which order, and when it is through.
use ytarchive_raw_go.Prelude.{
  ℕ, zero, suc, ◌+◌, ◌-◌, ◌≤◌, ◌<◌, ◌≡◌, refl, ◌∙◌, sym, subst, ◌≢◌, Bool, true, false, List, [],
  ◌∷◌, ◌++◌, none, some, arith, length, Option-cases, Bool-cases, inl, inr, ◌⊎◌,
}
use ytarchive_raw_go.Prelude.Dict.{lookup, delete, lookup-delete}
use ytarchive_raw_go.Segments.Status
use ytarchive_raw_go.Segments.Status.{
  SegmentResult, SegmentStatus, create, next_to_merge, downloaded, total,
}
use ytarchive_raw_go.Merge.Counters.{MergeProgress, init_total}
use ytarchive_raw_go.Merge.Loop.{
  Which, Visit, begin_visit, receive, take, miss, visit, visit_all, for_each_segment, ignored,
}
use ytarchive_raw_go.Merge.Loop.Receive.{
  AllAgree, Reported, Right, receive-Right, receive-fixed, receive-kept,
}

module _ {ℓ} {S : Type ℓ} (which : Which) (f : S → SegmentResult → S)
    (results : ℕ → SegmentResult) where
  -- `f` on the results of `k` segments from the `i`-th on, in order.
  abbrev pub in_order : ℕ → ℕ → S → S
  in_order zero i s = s
  in_order (suc k) i s = in_order k (suc i) (f s (results i))

  abbrev left : Visit S → ℕ
  left v = v.status.end - v.status.merged_count

  abbrev Finished : Visit S → List (List (ℕ × SegmentResult)) → Type ℓ
  Finished v schedule =
      (v' : Visit S) × (visit_all which f schedule v ≡ some v')
      × (v'.out ≡ in_order (left v) v.status.merged_count v.out)
      × (v'.status.merged_count ≡ v.status.end)

  -- `NextToMerge` took `r`.
  abbrev merged : SegmentStatus → SegmentStatus
  merged s = record s {
    segments = delete s.merged_count s.segments;
    merged_count = s.merged_count + 1;
  }

  visit-some :
      (v : Visit S) (r : SegmentResult)
      → lookup v.status.merged_count v.status.segments ≡ some r
      → visit which f v ≡ take which f r (merged v.status) v
  unfolding visit next_to_merge
  visit-some v r e = rw (e, next_to_merge)

  visit-none :
      (v : Visit S)
      → lookup v.status.merged_count v.status.segments ≡ none
      → visit which f v ≡ miss which f v
  unfolding visit next_to_merge
  visit-none v e = rw (e, next_to_merge)

  abbrev received : List (ℕ × SegmentResult) → Visit S → Visit S
  received b v = record v { status = receive b v.status }

  stops :
      (v : Visit S) (b : List (ℕ × SegmentResult)) (rest : List (List (ℕ × SegmentResult)))
      → Status.done (receive b v.status) ≡ true
      → Finished v (b ∷ rest)
  unfolding visit_all Status.done
  stops v b rest e =
      let fixed = receive-fixed b v.status in
      let over : left v ≡ 0 = ground (arith, e, fixed) in
      (received b v, rw (e, visit_all), rw (over, in_order), ground (arith, e, fixed))

  abbrev Bounded : SegmentStatus → Type 0
  Bounded s = s.merged_count ≤ s.end

  merged-Right :
      (s : SegmentStatus) (r : SegmentResult) → Right results s → Right results (merged s)
  merged-Right s r h i q e = ground (arith, lookup-delete s.merged_count i s.segments, h i q, e)

  -- The iteration takes the result `r`.
  takes :
      (v : Visit S) (b : List (ℕ × SegmentResult)) (rest : List (List (ℕ × SegmentResult)))
      (r : SegmentResult)
      → Status.done (receive b v.status) ≡ false
      → left v ≢ 0
      → lookup (receive b v.status).merged_count (receive b v.status).segments ≡ some r
      → r ≡ results v.status.merged_count
      → Finished (take which f r (merged (receive b v.status)) (received b v)) rest
      → Finished v (b ∷ rest)
  unfolding visit_all take
  takes v b rest r more some_left e same (v', q, out, end) =
      let fixed = receive-fixed b v.status in
      let again : left v ≡ suc (left v - 1) = omega (arith, some_left) in
      let fewer : left v - 1 ≡ (receive b v.status).end - ((receive b v.status).merged_count + 1) =
        omega (arith, fixed) in
      let next : suc v.status.merged_count ≡ (receive b v.status).merged_count + 1 =
        omega (arith, fixed) in
      (
        v',
        rw (more, visit_all, visit-some (received b v) r e) q,
        rw (again, in_order) (rw (fewer, next, sym same) out),
        ground (arith, end, fixed),
      )

  -- The iteration finds nothing.
  misses :
      (v : Visit S) (b : List (ℕ × SegmentResult)) (rest : List (List (ℕ × SegmentResult)))
      → Status.done (receive b v.status) ≡ false
      → lookup (receive b v.status).merged_count (receive b v.status).segments ≡ none
      → Finished (miss which f (received b v)) rest
      → Finished v (b ∷ rest)
  unfolding visit_all miss
  misses v b rest more e (v', q, out, end) =
      let fixed = receive-fixed b v.status in
      (
        v',
        rw (more, visit_all, visit-none (received b v) e) q,
        subst (λ m. v'.out ≡ in_order (v.status.end - m) m v.out) fixed.1
            (subst
              (λ n.
                v'.out
                ≡ in_order (n - (receive b v.status).merged_count) (receive b v.status).merged_count
                    v.out)
              fixed.0 out),
        end ∙ fixed.0,
      )

  -- The merger is not done, so a segment is left.
  unmerged :
      (s : SegmentStatus) (b : List (ℕ × SegmentResult))
      → Bounded s
      → Status.done (receive b s) ≡ false
      → s.merged_count < s.end
  unfolding Status.done
  unmerged s b bounded more = ground (arith, more, receive-fixed b s, bounded)

  -- Once each segment is there, the merger needs an iteration for each, and one to see that it is done.
  visit_late :
      (late : List (List (ℕ × SegmentResult))) (v : Visit S)
      → Right results v.status
      → Bounded v.status
      → AllAgree results late
      → ((i : ℕ) → v.status.merged_count ≤ i → i < v.status.end → lookup i v.status.segments ≢ none)
      → left v < length late
      → Finished v late
  unfolding take
  visit_late [] v right bounded agree there enough = absurd (omega arith)
  visit_late (b ∷ late) v right bounded agree there enough =
      let s = receive b v.status in
      let fixed = receive-fixed b v.status in
      let right' = receive-Right results b v.status agree.0 right in
      let there' : (i : ℕ) → s.merged_count ≤ i → i < s.end → lookup i s.segments ≢ none =
        λ i lo hi.
          receive-kept i b v.status (inl (there i (omega (arith, fixed)) (omega (arith, fixed)))) in
      elim (Bool-cases (Status.done s)) [
        | inl e ↦ stops v b late e
        | inr more ↦
            let lt = unmerged v.status b bounded more in
            elim (Option-cases (lookup s.merged_count s.segments)) [
              | inl nothing ↦
                  absurd (there' s.merged_count (omega arith) (omega (arith, fixed)) nothing)
              | inr (r, e) ↦
                  takes v b late r more (λ z. omega arith) e
                    (subst (λ n. r ≡ results n) fixed.1 (right' s.merged_count r e))
                    (visit_late late (take which f r (merged s) (received b v))
                      (merged-Right s r right') (omega (arith, fixed)) agree.1
                      (λ i lo hi z.
                        there' i (omega arith) hi
                          (ground (arith, lookup-delete s.merged_count i s.segments, z, lo)))
                      (omega (arith, fixed)))
            ]
      ]

  visit_early :
      (early late : List (List (ℕ × SegmentResult))) (v : Visit S)
      → Right results v.status
      → Bounded v.status
      → AllAgree results (early ++ late)
      → ((i : ℕ)
          → v.status.merged_count ≤ i
          → i < v.status.end
          → (lookup i v.status.segments ≢ none) ⊎ Reported i early)
      → v.status.end < length late
      → Finished v (early ++ late)
  unfolding take miss
  visit_early [] late v right bounded agree there enough =
      visit_late late v right bounded agree
        (λ i lo hi. elim (there i lo hi) [ inl h ↦ h | inr never ↦ absurd never ]) (omega arith)
  visit_early (b ∷ early) late v right bounded agree there enough =
      let s = receive b v.status in
      let fixed = receive-fixed b v.status in
      let right' = receive-Right results b v.status agree.0 right in
      let there' : (i : ℕ)
          → s.merged_count ≤ i
          → i < s.end
          → (lookup i s.segments ≢ none) ⊎ Reported i early =
        λ i lo hi. elim (there i (omega (arith, fixed)) (omega (arith, fixed))) [
          | inl h ↦ inl (receive-kept i b v.status (inl h))
          | inr (inl h) ↦ inl (receive-kept i b v.status (inr h))
          | inr (inr h) ↦ inr h
        ] in
      elim (Bool-cases (Status.done s)) [
        | inl e ↦ stops v b (early ++ late) e
        | inr more ↦
            let lt = unmerged v.status b bounded more in
            elim (Option-cases (lookup s.merged_count s.segments)) [
              | inl nothing ↦ misses v b (early ++ late) more nothing (
                  visit_early early late (miss which f (received b v)) right' (omega (arith, fixed))
                    agree.1 there' (omega (arith, fixed)))
              | inr (r, e) ↦
                  takes v b (early ++ late) r more (λ z. omega arith) e
                    (subst (λ n. r ≡ results n) fixed.1 (right' s.merged_count r e))
                    (visit_early early late (take which f r (merged s) (received b v))
                      (merged-Right s r right') (omega (arith, fixed)) agree.1
                      (λ i lo hi. elim (there' i (omega arith) hi) [
                        | inr h ↦ inr h
                        | inl h ↦ inl (λ z.
                            h (ground (arith, lookup-delete s.merged_count i s.segments, z, lo)))
                      ])
                      (omega (arith, fixed)))
            ]
      ]

  -- A merger whose stream is not ignored is through once each segment has been reported and it has
  -- had an iteration for each segment and one more, whichever reports came before and after: it has
  -- given `f` the result of each segment, in the order of the segments. Each report on a segment is
  -- to have the same result.
  pub for_each_segment_lem :
      (ignore_audio ignore_video : Bool) (segment_count : ℕ)
      (early late : List (List (ℕ × SegmentResult))) (p : MergeProgress) (out : S)
      → ignored which ignore_audio ignore_video ≡ false
      → AllAgree results (early ++ late)
      → ((i : ℕ) → i < segment_count → Reported i early)
      → segment_count < length late
      → (v : Visit S) × (for_each_segment which f ignore_audio ignore_video
            (early ++ late)
            (create segment_count)
            p
            out
          ≡ some v)
        × (v.out ≡ in_order segment_count 0 out)
        × (v.status.merged_count ≡ segment_count)
  unfolding for_each_segment create lookup total
  for_each_segment_lem ia iv n early late p out shown agree all enough =
      let (v, e, made, end) =
        visit_early early late (begin_visit (create n) (init_total n p) out)
          (λ i r e. absurd (ground (arith, e))) (omega arith) agree (λ i lo hi. inr (all i hi))
          enough in
      let whole : n - 0 ≡ n = omega arith in
      (v, rw (shown, e) refl, subst (λ m. v.out ≡ in_order m 0 out) whole made, end)
