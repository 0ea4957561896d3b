-- ===== src/Segments/Batched/Bound.antt =====
-- How many steps the workers of `QueueOutOfOrder` can take in all.
use ytarchive_raw_go.Prelude.{
  ℕ, zero, suc, ◌+◌, ◌-◌, ◌*◌, ◌≤◌, ◌<◌, ◌≡◌, refl, ap, ◌∙◌, List, [], ◌∷◌, some, arith, length,
  replicate, sum_of, length-set, length-replicate,
}
use ytarchive_raw_go.Segments.Failed.{FailedSeg}
use ytarchive_raw_go.Segments.Batched.{BatchRange, make_batched_scheduler}
use ytarchive_raw_go.Segments.Batched.Conserve.{width}
use ytarchive_raw_go.Segments.Batched.Safety.{split_evenly}
use ytarchive_raw_go.Segments.Batched.System.{
  asking, System, Step, ask, skip_own, steal, leave, resolve, requeue, initial, Reach, start, later,
}
use ytarchive_raw_go.Segments.Batched.Ending.{load, effort, energy, Step-energy, credit}

-- How many steps led to a state.
abbrev pub steps :
    {delay limit threads : ℕ} {bs : List BatchRange} {s : System}
    → Reach delay limit threads bs s
    → ℕ
steps start = 0
steps (later r st) = suc (steps r)

-- No step changes how many batches and workers there are.
Step-lengths :
    {delay limit : ℕ} {s s' : System}
    → Step delay limit s s'
    → (length s'.batches ≡ length s.batches) × (length s'.workers ≡ length s.workers)
Step-lengths {s} (ask i now e f) = (length-set s.batches i _, length-set s.workers i _)
Step-lengths {s} (skip_own i e) = (refl, length-set s.workers i _)
Step-lengths {s} (steal i j now e n f) = (length-set s.batches j _, length-set s.workers i _)
Step-lengths {s} (leave i j e past) = (refl, length-set s.workers i _)
Step-lengths {s} (resolve i seg fails e) = (refl, length-set s.workers i _)
Step-lengths {s} (requeue i now seg fails e few f) =
    (length-set s.batches i _, length-set s.workers i _)

Reach-lengths :
    {delay limit threads : ℕ} {bs : List BatchRange} {s : System}
    → Reach delay limit threads bs s
    → (length s.batches ≡ length bs) × (length s.workers ≡ threads)
Reach-lengths {threads} start = (refl, length-replicate threads asking)
Reach-lengths (later r st) =
    let (b, w) = Reach-lengths r in let (b', w') = Step-lengths st in (b' ∙ b, w' ∙ w)

-- The steps so far, with the energy that is left, are at most the energy at the start.
Reach-energy :
    {delay limit threads : ℕ} {bs : List BatchRange} {s : System}
    → length bs ≡ threads
    → (r : Reach delay limit threads bs s)
    → steps r + energy threads limit s ≤ energy threads limit (initial threads bs)
Reach-energy e start = omega arith
Reach-energy {limit} {threads} e (later r st) =
    let (b, w) = Reach-lengths r in
    omega (arith, Reach-energy e r, Step-energy threads limit (b ∙ e) w st)

-- Batches in which nothing failed yet cost as much as their segments.
fresh-load :
    (t limit : ℕ) (bs : List BatchRange)
    → sum_of (λ b. length b.failed) bs ≡ 0
    → sum_of (load t limit) bs ≡ sum_of width bs * credit t limit 0
fresh-load t limit [] none_failed = omega arith
fresh-load t limit (b ∷ bs) none_failed = omega (
  arith,
  fresh-load t limit bs (omega arith),
  unfailed b.failed (omega arith),
  distrib (width b) (sum_of width bs) (credit t limit 0),
)
  where
    distrib : (a b c : ℕ) → (a + b) * c ≡ a * c + b * c
    distrib a b c = grind arith

    unfailed : (fs : List FailedSeg) → length fs ≡ 0 → sum_of (λ f. credit t limit f.fails) fs ≡ 0
    unfailed [] e = refl
    unfailed (f ∷ fs) e = absurd (omega arith)

initial-effort : (t limit n : ℕ) → sum_of (effort t limit) (replicate n asking) ≡ n * (t + 3)
initial-effort t limit zero = omega arith
initial-effort t limit (suc n) = grind (arith, initial-effort t limit n)

-- However the workers are interleaved, they cannot take more steps than a number that the counts of
-- segments and of workers and the limit on requeues give: for each segment and each try of it a round
-- of the workers, and one round for each worker to find that nothing is left.
pub bounded_run :
    (segments threads : ℕ) {delay limit : ℕ} {bs : List BatchRange} {s : System}
    → 0 < threads
    → make_batched_scheduler segments threads ≡ some bs
    → (r : Reach delay limit threads bs s)
    → steps r ≤ segments * ((limit + 1) * (threads + 4)) + threads * (threads + 3)
bounded_run segments threads {limit} {bs} h made r =
    let p = split_evenly segments threads bs h made in
    let all_tries : limit - 0 + 1 ≡ limit + 1 = omega arith in
    let start_load : sum_of (load threads limit) bs ≡ segments * ((limit + 1) * (threads + 4)) =
      fresh-load threads limit bs p.none_failed
      ∙ (ap (λ n. n * credit threads limit 0) p.waiting
          ∙ ap (λ m. segments * (m * (threads + 4))) all_tries) in
    omega (arith, Reach-energy p.one_each r, start_load, initial-effort threads limit threads)
