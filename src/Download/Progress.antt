-- ===== src/Download/Progress.antt =====
-- download/progress_bar.go: the counters of one download. Times are nanoseconds; what is printed is
-- not modelled.
pub mod Duration
pub mod Words
pub mod Tests
use ytarchive_raw_go.Prelude.{
  ℕ, suc, ◌+◌, ◌≡◌, refl, ◌∙◌, ℤ, pos, negsuc, eqb_ℤ, Bool, List, [], ◌∷◌, Option, none, some,
  arith, if◌then◌else◌,
}
use ytarchive_raw_go.Prelude.Dict.{lookup, delete, assign, lookup-delete, lookup-assign}

-- `Progress`, less its parent. `requeues` is a `map[int]struct{}`.
pub record Progress : Type 0 where
  pub cached : ℕ
  pub downloaded : ℕ
  pub failed : ℕ
  pub total : ℤ
  pub requeues : List (ℕ × Unit {0})
  pub start : ℕ
  pub end : ℕ
  pub expire : Option ℕ

-- A `Progress` of `NewProgress`.
unfoldable pub new_progress : Progress
new_progress = record {
  cached = 0;
  downloaded = 0;
  failed = 0;
  total = negsuc 0;
  requeues = [];
  start = 0;
  end = 0;
  expire = none;
}

abbrev pub finished : Progress → ℕ
finished p = p.cached + p.downloaded + p.failed

-- The change that `updated` makes; it then prints.
unfoldable pub updated : ℕ → Progress → Progress
updated now p = if eqb_ℤ (pos (finished p)) p.total then record p { end = now } else p

unfoldable pub init : ℕ → ℕ → Option ℕ → Progress → Progress
unfolding updated
init now total_segments expire p =
    updated now (record p { total = pos total_segments; start = now; expire = expire })

unfoldable pub lost : ℕ → Progress → Progress
unfolding updated
lost now p = updated now (record p { failed = p.failed + 1 })

unfoldable pub requeued : ℕ → ℕ → Progress → Progress
unfolding updated
requeued now segment p = updated now (record p { requeues = assign segment tt p.requeues })

unfoldable pub done : ℕ → ℕ → Bool → Progress → Progress
unfolding updated
done now segment is_cached p =
    let q = record p { requeues = delete segment p.requeues } in
    updated now (
      if is_cached
      then record q { cached = q.cached + 1 }
      else record q { downloaded = q.downloaded + 1 })

-- The calls of the workers of one download, each with the time of its lock.
pub data Call : Type 0 where
  call_lost : (now : ℕ) → Call
  call_requeued : (now segment : ℕ) → Call
  call_done : (now segment : ℕ) (is_cached : Bool) → Call

unfoldable pub step : Progress → Call → Progress
unfolding lost requeued done
step p (call_lost now) = lost now p
step p (call_requeued now segment) = requeued now segment p
step p (call_done now segment is_cached) = done now segment is_cached p

unfoldable pub run : Progress → List Call → Progress
unfolding step
run p [] = p
run p (c ∷ cs) = run (step p c) cs

-- How many of the calls resolve a segment.
abbrev pub resolved : List Call → ℕ
resolved [] = 0
resolved (call_requeued now segment ∷ cs) = resolved cs
resolved (_ ∷ cs) = suc (resolved cs)

-- The time of the last call.
abbrev pub call_time : Call → ℕ
call_time (call_lost now) = now
call_time (call_requeued now segment) = now
call_time (call_done now segment is_cached) = now

step-finished :
    (p : Progress) (c : Call)
    → (finished (step p c) ≡ finished p + resolved (c ∷ [])) × ((step p c).total ≡ p.total)
unfolding step
step-finished p (call_lost now) = ground arith
step-finished p (call_requeued now segment) = ground arith
step-finished p (call_done now segment is_cached) = ground arith

run-finished :
    (p : Progress) (cs : List Call)
    → (finished (run p cs) ≡ finished p + resolved cs) × ((run p cs).total ≡ p.total)
unfolding run
run-finished p [] = (omega arith, refl)
run-finished p (c ∷ cs) =
    let (a, b) = run-finished (step p c) cs in
    let (x, y) = step-finished p c in (omega (arith, a, x, resolved-cons c cs), b ∙ y)
  where
    resolved-cons :
        (c : Call) (cs : List Call) → resolved (c ∷ cs) ≡ resolved (c ∷ []) + resolved cs
    resolved-cons (call_lost now) cs = omega arith
    resolved-cons (call_requeued now segment) cs = omega arith
    resolved-cons (call_done now segment is_cached) cs = omega arith

-- After any calls by the workers, the three counters add up to the number of segments that were
-- done or lost, and the total is what `init` was told.
pub counters_add_up :
    (now total_segments : ℕ) (expire : Option ℕ) (cs : List Call)
    → let p = run (init now total_segments expire new_progress) cs in
      (finished p ≡ resolved cs) × (p.total ≡ pos total_segments)
unfolding init new_progress
counters_add_up now n expire cs =
    let (a, b) = run-finished (init now n expire new_progress) cs in
    (ground (arith, a), ground (arith, b))

-- The end time is taken by the call that resolves the last segment.
pub end_is_taken :
    (p : Progress) (c : Call)
    → p.total ≡ pos (finished p + resolved (c ∷ []))
    → (step p c).end ≡ call_time c
unfolding step
end_is_taken p (call_lost now) e = ground arith
end_is_taken p (call_requeued now segment) e = ground arith
end_is_taken p (call_done now segment is_cached) e = ground arith

-- A segment that was requeued and is then done is no longer counted as requeued; one that is then
-- lost still is.
pub lost_stays_requeued :
    (p : Progress) (now later segment : ℕ) (is_cached : Bool)
    → (lookup segment
          (step (step p (call_requeued now segment)) (call_done later segment is_cached)).requeues
        ≡ none)
      × (lookup segment (step (step p (call_requeued now segment)) (call_lost later)).requeues
          ≡ some tt)
unfolding step
lost_stays_requeued p now later segment is_cached = (
  ground (arith, lookup-delete segment segment (assign segment tt p.requeues)),
  ground (arith, lookup-assign segment segment tt p.requeues),
)
