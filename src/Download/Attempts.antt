-- ===== src/Download/Attempts.antt =====
-- What becomes of a segment that a worker holds.
use ytarchive_raw_go.Prelude.{
  ℕ, zero, suc, ◌+◌, ◌-◌, ◌*◌, ◌≤◌, ◌<◌, ◌↔◌, ◌≡◌, refl, sym, subst, ◌∙◌, ℤ, negsuc, Bool, true,
  false, not, ◌&&◌, ◌||◌, Option, none, some, arith, ltb, leb, if◌then◌else◌, Bool-cases,
  Option-cases, inl, inr, ◌⊎◌,
}
use native.Mathlib.Numerals.{add-one}
use ytarchive_raw_go.Download.Task.{
  DownloadTask, with_defaults, attempts_for, Loop, Attempt, Effect, put_back, give_up, finish,
  next_seg, after_attempt, work, do_request,
}

-- How a worker parts with a segment.
pub data Outcome : Type 0 where
  done : (cached : Bool) → Outcome
  requeued : (requeues : ℕ) → Outcome
  lost : Outcome

-- The iteration ends the work on the segment, or goes on as `rest`.
unfoldable pub parted : Loop → Effect → Option (Outcome × Loop) → Option (Outcome × Loop)
parted l (finish seg cached) rest = some (done cached, l)
parted l (put_back seg n) rest = some (requeued n, l)
parted l (give_up seg) rest = some (lost, l)
parted l _ rest = rest

-- The iterations of a worker on one segment. The attempt with `i` failures before it is `tries i`; an
-- iteration that only replaces the client makes none. `none`: out of fuel.
unfoldable pub process : DownloadTask → Bool → ℕ → (ℕ → Attempt) → Loop → Option (Outcome × Loop)
unfolding parted work
process t last zero tries l = none
process t last (suc fuel) tries l =
    let r = work t last (tries l.fail_count) l in
    let rest = process t last fuel tries r.0 in parted r.0 r.1 rest

-- The intended outcome, with `left` attempts left from the `i`-th on: the first attempt that succeeds
-- decides, and if none does the limit on requeues.
abbrev pub intended : DownloadTask → Bool → ℕ → (ℕ → Attempt) → ℕ → ℕ → Outcome
intended t last requeues tries zero i =
    if ltb requeues t.requeue_limit && (not last || t.requeue_last)
    then requeued (requeues + 1)
    else lost
intended t last requeues tries (suc left) i =
    if (tries i).is_ok then done (tries i).cached else intended t last requeues tries left (suc i)

-- The worker is ready to ask for another segment.
abbrev pub Ready : Loop → Type 0
Ready l = (l.seg ≡ negsuc 0) × (l.fail_count ≡ 0)

module _ (t : DownloadTask) (last : Bool) (tries : ℕ → Attempt) where
  abbrev Processed : Loop → ℕ → ℕ → Type 0
  Processed l left fuel =
      (l' : Loop) × (process t last fuel tries l
        ≡ some (intended t last l.requeues tries left l.fail_count, l'))
      × Ready l'

  replaced :
      (fuel : ℕ) (l : Loop)
      → ltb 3 l.network_fail_count ≡ true
      → process t last (suc fuel) tries l
        ≡ process t last fuel tries (record l { network_fail_count = 0 })
  unfolding process
  replaced fuel l e = rw (e, work)

  exhausted :
      (fuel : ℕ) (l : Loop)
      → ltb 3 l.network_fail_count ≡ false
      → leb (attempts_for t last) l.fail_count ≡ true
      → Processed l 0 (suc fuel)
  unfolding process
  exhausted fuel l e full =
      elim (Bool-cases (ltb l.requeues t.requeue_limit && (not last || t.requeue_last))) [
        | inl again ↦ (next_seg l, rw (e, full, again, work), (refl, refl))
        | inr over ↦ (next_seg l, rw (e, full, over, work), (refl, refl))
      ]

  attempted :
      (fuel : ℕ) (l : Loop)
      → ltb 3 l.network_fail_count ≡ false
      → leb (attempts_for t last) l.fail_count ≡ false
      → process t last (suc fuel) tries l
        ≡ parted
            (after_attempt l (tries l.fail_count)).0
            (after_attempt l (tries l.fail_count)).1
            (process t last fuel tries (after_attempt l (tries l.fail_count)).0)
  unfolding process
  attempted fuel l e more = rw (e, more, work)

  -- The variables after an attempt, by whether it succeeded.
  abbrev counted : Loop → Attempt → Loop
  counted l a = record l {
    network_fail_count =
        if a.network_failed then l.network_fail_count + 1 else l.network_fail_count;
  }

  abbrev failed : Loop → Attempt → Loop
  failed l a = record (counted l a) { fail_count = l.fail_count + 1 }

  succeeds :
      (fuel left : ℕ) (l : Loop)
      → ltb 3 l.network_fail_count ≡ false
      → leb (attempts_for t last) l.fail_count ≡ false
      → (tries l.fail_count).is_ok ≡ true
      → Processed l (suc left) (suc fuel)
  unfolding after_attempt parted
  succeeds fuel left l fine more good = (
    next_seg (counted l (tries l.fail_count)),
    attempted fuel l fine more ∙ rw (good, after_attempt),
    (refl, refl),
  )

  fails :
      (fuel left : ℕ) (l : Loop)
      → ltb 3 l.network_fail_count ≡ false
      → leb (attempts_for t last) l.fail_count ≡ false
      → (tries l.fail_count).is_ok ≡ false
      → Processed (failed l (tries l.fail_count)) left fuel
      → Processed l (suc left) (suc fuel)
  unfolding after_attempt parted process
  fails fuel left l fine more bad (l', q, r) = (
    l',
    attempted fuel l fine more
        ∙ rw (bad, after_attempt)
            (subst
              (λ n.
                process t last fuel tries (failed l (tries l.fail_count))
                ≡ some (intended t last l.requeues tries left n, l'))
              (add-one l.fail_count) q),
    r,
  )

  abbrev stale : Loop → ℕ
  stale l = if ltb 3 l.network_fail_count then 1 else 0

  process_left :
      (fuel left : ℕ) (l : Loop)
      → left ≡ attempts_for t last - l.fail_count
      → 2 * left + stale l < fuel
      → Processed l left fuel
  process_left zero left l e enough = absurd (omega arith)
  process_left (suc fuel) left l e enough = elim (Bool-cases (ltb 3 l.network_fail_count)) [
    | inl bad ↦
        let (l', q, r) =
          process_left fuel left (record l { network_fail_count = 0 }) e
            (ground (arith, enough, bad)) in
        (l', replaced fuel l bad ∙ q, r)
    | inr fine ↦ elim (Bool-cases (leb (attempts_for t last) l.fail_count)) [
      | inl full ↦
          let none_left : left ≡ 0 = ground (arith, e, full) in
          subst (λ n. Processed l n (suc fuel)) (sym none_left) (exhausted fuel l fine full)
      | inr more ↦
          subst (λ n. Processed l n (suc fuel)) {x = suc (left - 1)} (ground (arith, e, more))
            (elim (Bool-cases (tries l.fail_count).is_ok) [
              | inl good ↦ succeeds fuel (left - 1) l fine more good
              | inr bad ↦ fails fuel (left - 1) l fine more bad (
                  process_left fuel (left - 1) (failed l (tries l.fail_count))
                    (ground (arith, e, more)) (ground (arith, enough, more, e, fine)))
            ])
    ]
  ]

-- The variables of a worker that has just got a segment.
abbrev pub taken : ℤ → ℕ → ℕ → Loop
taken seg requeues network_fails = record {
  seg = seg;
  requeues = requeues;
  fail_count = 0;
  network_fail_count = network_fails;
}

-- A worker that has just got a segment parts with it after at most two iterations for each of the
-- attempts that the segment gets, and two more: done as soon as an attempt succeeds, put back if all
-- attempts failed and the limit allows it, else given up. How often the network failed does not
-- matter, and the worker is then ready to ask for another segment.
pub process_lem :
    (t : DownloadTask) (last : Bool) (tries : ℕ → Attempt) (seg : ℤ) (requeues network_fails : ℕ)
    → let l = taken seg requeues network_fails in
      (l' : Loop) × (process t last (2 * attempts_for t last + 2) tries l
        ≡ some (intended t last requeues tries (attempts_for t last) 0, l'))
      × Ready l'
process_lem t last tries seg requeues network_fails =
    process_left t last tries (2 * attempts_for t last + 2) (attempts_for t last)
      (taken seg requeues network_fails) (omega arith) (ground arith)

-- With the settings that `Start` leaves a segment gets at least one attempt, and the last segment at
-- least five.
pub attempts_for_bounds :
    (t : DownloadTask)
    → (0 < attempts_for (with_defaults t) false) × (5 ≤ attempts_for (with_defaults t) true)
unfolding attempts_for with_defaults
attempts_for_bounds t = ground arith

-- The last segment gets more attempts than any other exactly if fewer than five are set.
pub last_gets_more :
    (t : DownloadTask) → attempts_for t false < attempts_for t true ↔ t.fail_threshold < 5
unfolding attempts_for
last_gets_more t = (λ h. ground (arith, h), λ h. ground (arith, h))

-- `doRequest` gives the first answer among its retries, and fails only if none of them is answered.
pub do_request_lem {ℓ} :
    {R : Type ℓ} (retries : ℕ) (respond : ℕ → Option R)
    → ((do_request retries respond ≡ none) × ((i : ℕ) → i < retries → respond i ≡ none))
      ⊎ ((i : ℕ) × (r : R) × (i < retries)
          × (respond i ≡ some r)
          × (do_request retries respond ≡ some r)
          × ((j : ℕ) → j < i → respond j ≡ none))
unfolding do_request
do_request_lem zero respond = inl (refl, λ i h. absurd (omega arith))
do_request_lem (suc n) respond = elim (Option-cases (respond 0)) [
  | inr (r, e) ↦ inr (0, r, omega arith, e, rw (e, do_request), λ j h. absurd (omega arith))
  | inl e ↦ elim (do_request_lem n (λ i. respond (suc i))) [
    | inl (none_now, none_at) ↦ inl (rw (e, do_request) none_now, below e n none_at)
    | inr (i, r, lt, at, now, before) ↦
        inr (suc i, r, omega arith, at, rw (e, do_request) now, below e i before)
  ]
]
  where
    below :
        respond 0 ≡ none
        → (m : ℕ) → ((j : ℕ) → j < m → respond (suc j) ≡ none)
        → (j : ℕ) → j < suc m
        → respond j ≡ none
    below e m h zero lt = e
    below e m h (suc j) lt = h j (omega arith)
