-- ===== src/Segments/Status/Order.antt =====
-- The merger sees each segment once, in order, with the result that was reported for it.
use ytarchive_raw_go.Prelude.{
  ℕ, zero, suc, ◌+◌, ◌≤◌, ◌<◌, ◌≡◌, refl, sym, ap, subst, replicate, ◌≢◌, ◌∙◌, true, List, [], ◌∷◌,
  ◌++◌, none, some, arith, if◌then◌else◌, ltb, length, get_elem?, get_elem?-append_last,
  get_elem?-append_left, Option-cases, Bool-cases, inl, inr, length-append,
}
use mathlib.Core.List.{append-nil, append_assoc}
use native.Mathlib.Decide.{ℕ_discrete, dec_lt}
use ytarchive_raw_go.Segments.Status.{
  SegmentResult, SegmentStatus, create, next_to_merge, downloaded, done, missed_segments,
}
use ytarchive_raw_go.Prelude.Dict.{lookup, delete, lookup-delete, lookup-assign}

-- What the download workers and the merger do to one `SegmentStatus`, one lock at a time.
pub data Event : Type 0 where
  download : ℕ → SegmentResult → Event
  merge : Event

-- The status, what the merger got, and all reports, the newest first.
pub record Trace : Type 0 where
  pub status : SegmentStatus
  pub merged : List SegmentResult
  pub reports : List (ℕ × SegmentResult)

unfoldable pub step : Trace → Event → Trace
unfolding downloaded next_to_merge
step t (download n r) = record t { status = downloaded n r t.status; reports = (n, r) ∷ t.reports }
step t merge = record t {
  status = (next_to_merge t.status).1;
  merged =
      if (next_to_merge t.status).0.2
      then t.merged ++ ((next_to_merge t.status).0.0 ∷ [])
      else t.merged;
}

unfoldable pub run : Trace → List Event → Trace
unfolding step
run t [] = t
run t (e ∷ es) = run (step t e) es

abbrev pub begin : ℕ → Trace
begin segment_count = record { status = create segment_count; merged = []; reports = [] }

-- Only segments below `last` are reported, each at most once, from the reports `seen` on: what the
-- work queues ensure.
abbrev pub ReportsOnce : ℕ → List (ℕ × SegmentResult) → List Event → Type 0
ReportsOnce last seen [] = Unit {0}
ReportsOnce last seen (download n r ∷ es) =
    (n < last) × (lookup n seen ≡ none) × ReportsOnce last ((n, r) ∷ seen) es
ReportsOnce last seen (merge ∷ es) = ReportsOnce last seen es

pub record Inv (t : Trace) : Type 0 where
  pub count : length t.merged ≡ t.status.merged_count
  pub in_order : (i : ℕ) → i < t.status.merged_count → get_elem? t.merged i ≡ lookup i t.reports
  pub reported : (i : ℕ) → i < t.status.merged_count → lookup i t.reports ≢ none
  pub bounded : (i : ℕ) → lookup i t.reports ≢ none → i < t.status.end
  pub waiting :
      (i : ℕ)
      → lookup i t.status.segments
        ≡ (if ltb i t.status.merged_count then none else lookup i t.reports)

download-Inv :
    (t : Trace) (n : ℕ) (r : SegmentResult)
    → Inv t
    → lookup n t.reports ≡ none
    → n < t.status.end
    → Inv (step t (download n r))
unfolding step downloaded lookup
download-Inv t n r v fresh lt = record {
  count = v.count;
  in_order = λ i h. ground (arith, v.in_order i h, v.reported i h);
  reported = λ i h. ground (arith, v.reported i h);
  bounded = λ i h. ground (arith, v.bounded i);
  waiting = λ i.
      ground (arith, lookup-assign n i r t.status.segments, v.waiting i, v.waiting n, v.reported n);
}

-- The trace after `NextToMerge` found the result `r`.
abbrev after_merge : Trace → SegmentResult → Trace
after_merge t r = record t {
  status = record t.status {
    segments = delete t.status.merged_count t.status.segments;
    merged_count = t.status.merged_count + 1;
  };
  merged = t.merged ++ r ∷ [];
}

step-merge_some :
    (t : Trace) (r : SegmentResult)
    → lookup t.status.merged_count t.status.segments ≡ some r
    → step t merge ≡ after_merge t r
unfolding step next_to_merge
step-merge_some t r e = rw (e, next_to_merge)

step-merge_none :
    (t : Trace) → lookup t.status.merged_count t.status.segments ≡ none → step t merge ≡ t
unfolding step next_to_merge
step-merge_none t e = rw (e, next_to_merge)

after_merge-Inv :
    (t : Trace) (r : SegmentResult)
    → lookup t.status.merged_count t.status.segments ≡ some r
    → Inv t
    → Inv (after_merge t r)
after_merge-Inv t r e v = record {
  count = omega (arith, v.count, length-append t.merged (r ∷ []));
  in_order = λ i h. elim (ℕ_discrete i t.status.merged_count) [
    | yes last ↦
        let now : get_elem? (t.merged ++ r ∷ []) (length t.merged) ≡ some r =
          get_elem?-append_last t.merged r in
        subst (λ j. get_elem? (t.merged ++ r ∷ []) j ≡ lookup i t.reports) (v.count ∙ sym last)
          (now ∙ sym (ground (arith, v.waiting t.status.merged_count, v.waiting i)))
    | no before ↦
        get_elem?-append_left t.merged (r ∷ []) i (omega (arith, v.count))
        ∙ v.in_order i (omega arith)
  ];
  reported = λ i h. ground (arith, v.reported i, v.waiting i, v.waiting t.status.merged_count);
  bounded = v.bounded;
  waiting = λ i. ground (
    arith,
    lookup-delete t.status.merged_count i t.status.segments,
    v.waiting i,
    v.waiting t.status.merged_count,
  );
}

step-merge_end : (t : Trace) → (step t merge).status.end ≡ t.status.end
step-merge_end t = elim (Option-cases (lookup t.status.merged_count t.status.segments)) [
  | inl e ↦ ap (λ (u : Trace). u.status.end) (step-merge_none t e)
  | inr (r, e) ↦ ap (λ (u : Trace). u.status.end) (step-merge_some t r e)
]

run-end : (t : Trace) (es : List Event) → (run t es).status.end ≡ t.status.end
unfolding run step downloaded
run-end t [] = refl
run-end t (download n r ∷ es) = run-end (step t (download n r)) es
run-end t (merge ∷ es) = run-end (step t merge) es ∙ step-merge_end t

-- A segment that is merged was reported, so it is one of the segments.
merged-le-end : (t : Trace) → Inv t → t.status.merged_count ≤ t.status.end
merged-le-end t v = elim (dec_lt t.status.end t.status.merged_count) [
  | yes past ↦ absurd (omega (arith, v.bounded t.status.end (v.reported t.status.end past)))
  | no fits ↦ omega arith
]

nothing_left :
    (t : Trace)
    → Inv t
    → lookup t.status.merged_count t.status.segments ≡ none
    → ((i : ℕ) → i < t.status.end → lookup i t.reports ≢ none)
    → t.status.end ≤ t.status.merged_count
nothing_left t v missing all = elim (dec_lt t.status.merged_count t.status.end) [
  | yes left ↦
      absurd (all t.status.merged_count left (ground (arith, v.waiting t.status.merged_count)))
  | no over ↦ omega arith
]

merge-Inv : (t : Trace) → Inv t → Inv (step t merge)
merge-Inv t v = elim (Option-cases (lookup t.status.merged_count t.status.segments)) [
  | inl e ↦ subst Inv (sym (step-merge_none t e)) v
  | inr (r, e) ↦ subst Inv (sym (step-merge_some t r e)) (after_merge-Inv t r e v)
]

run-Inv :
    (t : Trace) (es : List Event) → ReportsOnce t.status.end t.reports es → Inv t → Inv (run t es)
unfolding run step downloaded
run-Inv t [] once v = v
run-Inv t (download n r ∷ es) once v =
    run-Inv (step t (download n r)) es once.2 (download-Inv t n r v once.1 once.0)
run-Inv t (merge ∷ es) once v =
    run-Inv (step t merge) es
      (subst (λ e. ReportsOnce e t.reports es) (sym (step-merge_end t)) once) (merge-Inv t v)

begin-Inv : (n : ℕ) → Inv (begin n)
unfolding create lookup
begin-Inv n = record {
  count = refl;
  in_order = λ i h. absurd (omega arith);
  reported = λ i h. absurd (omega arith);
  bounded = λ i h. absurd (h refl);
  waiting = λ i. ground arith;
}

-- After any interleaving of `Downloaded` and `NextToMerge` in which no segment is reported twice,
-- and no number past the last segment: the merger has got as many results as the merge position
-- says, which is at most the number of segments, and the `i`-th of them is the one that was reported
-- for segment `i`.
pub merged_in_order :
    (segment_count : ℕ) (es : List Event)
    → ReportsOnce segment_count [] es
    → let t = run (begin segment_count) es in
      (length t.merged ≡ t.status.merged_count)
      × (t.status.merged_count ≤ t.status.end)
      × ((i : ℕ)
          → i < length t.merged
          → (get_elem? t.merged i ≡ lookup i t.reports) × (lookup i t.reports ≢ none))
unfolding create
merged_in_order n es once =
    let v = run-Inv (begin n) es once (begin-Inv n) in
    (
      v.count,
      merged-le-end _ v,
      λ i h. let lt = subst (λ m. i < m) v.count h in (v.in_order i lt, v.reported i lt),
    )

merge_all :
    (k : ℕ) (t : Trace)
    → Inv t
    → t.status.end ≤ t.status.merged_count + k
    → ((i : ℕ) → i < t.status.end → lookup i t.reports ≢ none)
    → done (run t (replicate k merge)).status ≡ true
unfolding run done
merge_all zero t v e all = ground (arith, merged-le-end t v)
merge_all (suc k) t v e all = elim (Option-cases (lookup t.status.merged_count t.status.segments)) [
  | inl missing ↦
      subst (λ u. done (run u (replicate k merge)).status ≡ true) (sym (step-merge_none t missing))
        (merge_all k t v (omega (arith, nothing_left t v missing all)) all)
  | inr (r, found) ↦
      subst (λ u. done (run u (replicate k merge)).status ≡ true) (sym (step-merge_some t r found))
        (merge_all k (after_merge t r) (after_merge-Inv t r found v) (omega arith) all)
]

-- Once every segment has been reported, in whatever order reports and merges came, and each once,
-- the merger is done after at most one more call of `NextToMerge` for each segment.
pub merge_completes :
    (segment_count : ℕ) (es : List Event)
    → ReportsOnce segment_count [] es
    → ((i : ℕ) → i < segment_count → lookup i (run (begin segment_count) es).reports ≢ none)
    → done (run (run (begin segment_count) es) (replicate segment_count merge)).status ≡ true
unfolding create
merge_completes n es once all =
    let same = run-end (begin n) es in
    merge_all n (run (begin n) es) (run-Inv (begin n) es once (begin-Inv n)) (omega (arith, same))
      (λ i h. all i (subst (λ m. i < m) same h))

-- The segments of the calls of `Downloaded` that were not ok, in order.
abbrev pub failed_downloads : List Event → List ℕ
failed_downloads [] = []
failed_downloads (download n r ∷ es) =
    if r.is_ok then failed_downloads es else n ∷ failed_downloads es
failed_downloads (merge ∷ es) = failed_downloads es

step-merge_missed : (t : Trace) → (step t merge).status.missed ≡ t.status.missed
step-merge_missed t = elim (Option-cases (lookup t.status.merged_count t.status.segments)) [
  | inl e ↦ ap (λ (u : Trace). u.status.missed) (step-merge_none t e)
  | inr (r, e) ↦ ap (λ (u : Trace). u.status.missed) (step-merge_some t r e)
]

run-missed :
    (t : Trace) (es : List Event)
    → (run t es).status.missed ≡ t.status.missed ++ failed_downloads es
unfolding run step downloaded
run-missed t [] = sym (append-nil t.status.missed)
run-missed t (download n r ∷ es) = elim (Bool-cases r.is_ok) [
  | inl fine ↦ rw (run-missed (step t (download n r)) es, fine)
  | inr lost ↦
      rw (run-missed (step t (download n r)) es, lost)
        ((append_assoc t.status.missed (n ∷ []) (failed_downloads es)))
]
run-missed t (merge ∷ es) =
    run-missed (step t merge) es ∙ ap (λ m. m ++ failed_downloads es) (step-merge_missed t)

-- `MissedSegments` lists the segments that were reported as failed, in the order of the reports,
-- whatever the merger did in between.
pub missed_segments_lem :
    (segment_count : ℕ) (es : List Event)
    → missed_segments (run (begin segment_count) es).status ≡ failed_downloads es
unfolding missed_segments create
missed_segments_lem n es = run-missed (begin n) es
