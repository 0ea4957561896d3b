-- ===== src/Segments/Batched/Safety.antt =====
-- What holds of the out-of-order queue in every state that its workers can reach.
use ytarchive_raw_go.Prelude.{
  ℕ, ◌<◌, ◌≡◌, refl, sym, subst, ◌∙◌, ◌≢◌, pos, List, some, arith, if◌then◌else◌, length, get_elem?,
  set, sum_of, ltb, sum_of-eq-zero, get_elem?-lt-length, get_elem?_of_lt, le-sum_of, sum_of-set,
  get_elem?-set_ne,
}
use native.Mathlib.Decide.{ℕ_discrete, dec_lt}
use ytarchive_raw_go.Segments.Count.{is_seg}
use ytarchive_raw_go.Segments.Batched.{BatchRange, make_batched_scheduler}
use ytarchive_raw_go.Segments.Batched.Conserve.{pending, pending-IsEmpty}
use ytarchive_raw_go.Segments.Batched.Partition.{IsPartition, make_batched_scheduler-IsPartition}
use ytarchive_raw_go.Segments.Batched.System.{
  Worker, asking, scanning, holding, finished, System, Step, ask, skip_own, steal, leave, resolve,
  Reach, actor,
}
use ytarchive_raw_go.Segments.Batched.ExactlyOnce.{held, Inv, Reach-Inv}

pub split_evenly :
    (segments threads : ℕ) (bs : List BatchRange)
    → 0 < threads
    → make_batched_scheduler segments threads ≡ some bs
    → IsPartition segments threads bs
split_evenly segments threads bs h e =
    let (made, q, p) = make_batched_scheduler-IsPartition segments threads h in
    subst (IsPartition segments threads) {x = made} {y = bs} (cc) p

-- When each worker has finished, each batch is empty.
all_finished :
    {segments : ℕ} {s : System}
    → Inv segments s
    → ((i : ℕ) (w : Worker) → get_elem? s.workers i ≡ some w → w ≡ finished)
    → (k : ℕ) → (sum_of (pending k) s.batches ≡ 0) × (sum_of (held k) s.workers ≡ 0)
all_finished {s} v done k = (
  sum_of-eq-zero (pending k) s.batches (λ i b eb.
      let (w, ew) =
        get_elem?_of_lt s.workers i
          (subst (λ n. i < n) v.one_each (get_elem?-lt-length s.batches i eb)) in
      pending-IsEmpty k b (v.drained i w b ew (rw (done i w ew) tt) eb)),
  sum_of-eq-zero (held k) s.workers (λ i w ew. rw (done i w ew)),
)

module _ (segments threads : ℕ) {delay limit : ℕ} {bs : List BatchRange} {s : System}
    (some_worker : 0 < threads) (made : make_batched_scheduler segments threads ≡ some bs)
    (r : Reach delay limit threads bs s) where
  invariant : Inv segments s
  invariant = Reach-Inv (split_evenly segments threads bs some_worker made) r

  -- In every state that the workers reach from the batches of `makeBatchedScheduler`, in any order
  -- and at any times: once each worker has left its loop, each of the segments has been handed to
  -- `Downloaded` exactly once, and no other number has.
  pub exactly_once :
      ((i : ℕ) (w : Worker) → get_elem? s.workers i ≡ some w → w ≡ finished)
      → (k : ℕ) → sum_of (is_seg k) s.resolved ≡ (if ltb k segments then 1 else 0)
  exactly_once done k =
      let (none_pending, none_held) = all_finished invariant done k in
      omega (arith, invariant.each_once k, none_pending, none_held)

  -- In every reachable state, two workers do not hold the same segment, and a segment that is held
  -- has not been handed to `Downloaded`.
  pub one_holder :
      (i k fails : ℕ)
      → get_elem? s.workers i ≡ some (holding (pos k) fails)
      → ((j again : ℕ) → i ≢ j → get_elem? s.workers j ≢ some (holding (pos k) again))
        × (sum_of (is_seg k) s.resolved ≡ 0)
  one_holder i k fails e = (
    λ j again n f. ground (
      arith,
      invariant.each_once k,
      sum_of-set (held k) s.workers i asking e,
      le-sum_of (held k) (set s.workers i asking) j (get_elem?-set_ne s.workers asking n ∙ f),
    ),
    ground (arith, invariant.each_once k, le-sum_of (held k) s.workers i e),
  )

  -- No worker is ever stuck: in every reachable state, each worker that has not left its loop can
  -- itself take a step.
  pub no_deadlock :
      (i : ℕ) (w : Worker)
      → get_elem? s.workers i ≡ some w
      → w ≢ finished
      → (t : System) × (step : Step delay limit s t) × (actor step ≡ i)
  unfolding actor
  no_deadlock i asking e n =
      let (b, eb) =
        get_elem?_of_lt s.batches i
          (subst (λ m. i < m) (sym invariant.one_each) (get_elem?-lt-length s.workers i e)) in
      (_, ask i 0 e eb, refl)
  no_deadlock i (scanning j) e n = elim (dec_lt j (length s.batches)) [
    | yes more ↦ elim (ℕ_discrete j i) [
      | yes own ↦
          (_, skip_own i (subst (λ x. get_elem? s.workers i ≡ some (scanning x)) own e), refl)
      | no other ↦
          let (b, eb) = get_elem?_of_lt s.batches j more in (_, steal i j 0 e other eb, refl)
    ]
    | no past ↦ (_, leave i j e (omega arith), refl)
  ]
  no_deadlock i (holding seg fails) e n = (_, resolve i seg fails e, refl)
  no_deadlock i finished e n = absurd (n refl)
